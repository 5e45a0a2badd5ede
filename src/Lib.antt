-- ===== src/Lib.antt =====
-- The Bruk operator: a Kubernetes controller that turns an InferenceService, the BrukModel that it
-- names and the cluster's one BrukTenant into a confidential vLLM Deployment, a Service and, for a
-- weights cache, a shared ConfigMap, and that keeps the statuses of the three kinds.
--
-- The parts, and the files that model them:
--   * operator/api/v1alpha1/*_types.go: Api and its children, a record for each struct with a field
--     for each field, and the constants. A Go pointer is an Option, a map an association list,
--     int32 and int64 are integers that the program only compares, copies and prints. Of the
--     Kubernetes types, Kube has the fields that the operator reads or writes.
--   * operator/internal/render/render.go: Render, one function for each function of the package
--     (Deployment is `deployment`, with the container and the object it builds as
--     `engine_container` and `deployment_object`). Fmt has the verbs %d and %02d, the hexadecimal
--     text and the slice of a string; an error is a value of Result.
--   * the kubebuilder validation markers of operator/api/v1alpha1/*_types.go, from which the schemas
--     are generated: Api.Admission, a test for each struct, on the patterns of Api.Patterns. A field
--     that may be left out is "" without it; whether existingClaim was in the manifest is a parameter.
--   * operator/internal/controller/inferenceservice_controller.go: Controller.Conflict models
--     trustedStoreConflict, precedes and podSpecMountsClaim, Controller.Status the four functions
--     that fill in the status, Controller.Inference the reconciler's Reconcile, and
--     Controller.Inference.Requeue the functions by which the watches of models and of the tenant
--     re-queue services.
--   * the three SetupWithManager of operator/internal/controller: Controller.Watches, the sources of
--     requests that each controller registers. The builder of controller-runtime is a parameter, and
--     IsBuilder says what its For, Owns and Watches are documented to queue.
--   * operator/internal/controller/brukmodel_controller.go: Controller.Model.
--   * operator/internal/controller/bruktenant_controller.go: Controller.Tenant, on the decoder of
--     Base64, which reads characters as base64.StdEncoding does: line ends are skipped, padding ends
--     the input, and an error carries the offset.
--   * operator/api/v1alpha1/zz_generated.deepcopy.go: DeepCopy. Layout has the structs as they stand in
--     memory, with pointers and slices, Memory the cells behind the pointers and the commands that read
--     and add them, and Common, Model, Tenant, Resources and Service the functions, `x_y_into` for
--     XY.DeepCopyInto, `x_y_copy` for DeepCopy and `x_y_object` for DeepCopyObject. A slice is a
--     pointer to its whole array. A cell is added after its contents are copied, where Go allocates
--     first: the addresses of new cells differ, and nothing else. See says what a pointer denotes.
--   * the kubebuilder RBAC markers of operator/internal/controller, of which operator/config/rbac/role.yaml is
--     generated: Access, the rules, and what each call of Client demands of the API server.
--   * operator/cmd/main.go: Manager, the options that main makes of its flags and the steps of its
--     start, each followed by its check, with the answers of controller-runtime as a parameter.
--
-- How the parts interact: a reconciler reads and writes through the API server alone. The server is
-- the record Client, a parameter: a state, and for each call that the source makes a function from
-- the state to an answer and the next state. Nothing is assumed of the answers, so other
-- writers may act between any two calls. A run threads the server's state and a log of its calls, the
-- latest first. Reconcile is cut at its calls: `service_fetched`, `tenant_fetched`, ... take the
-- answer of one call and go on to the next. Controller.Inference.Trace lists the runs that are meant to
-- be possible, as an indexed data type, and the properties of runs are read off it.
--
-- Controller.System puts the runs of the three reconcilers one after the other, in any order and for
-- any requests, with writes of others before and after each. The store of the server stays a
-- parameter: Cluster.View says which Deployments a state has and which service a UID names, and
-- IsServer what the server's calls may change, deletions by others among it. The manager runs one
-- worker for each controller, so two runs of one reconciler never overlap; runs of different ones write
-- disjoint kinds. The lag of the manager's cache behind the server is not modelled: a list of IsServer
-- is complete when it is made.
--
-- What the source calls and does not implement is the record Platform, a parameter too: quantities,
-- times, owner references, SetStatusCondition, the quoting of %q and sha256. Theorems that need a
-- law of one of them name it: KeepsConditions says that SetStatusCondition replaces or adds the
-- condition of its type and leaves the others, KeepsSame that it leaves a list that has the
-- condition as it is, OwnsFresh that SetControllerReference succeeds on an object without
-- references, IsClock that times are instants. The copies that apimachinery makes of metadata,
-- conditions and quantities are the parameter Functions, and IsLibrary says that they are deep.
-- MakesController says that SetControllerReference, when it succeeds, makes the owner the object's
-- controller. IsAccepting is a server that accepts every write, and IsUndisturbed
-- (Controller.Conflict.Undisturbed) one to which nobody but the reconciler of one service writes: a
-- relation of its states, kept by every call, under which only the service's status, the Deployments
-- that it controls and the Pods with an owner may differ, so that a second run sees what the first
-- one wrote.
--
-- Every definition terminates by structural recursion; the printing of numbers recurses on fuel,
-- `digits (suc n) n`, and a number has fewer digits than its successor counts, so it is never short.
-- Controller.Inference.Rerun runs the reconciler again until its status stays, on fuel of two runs: the
-- second starts from the status that the first wrote, and has nothing to change in it.
--
-- Not modelled: the parsing of flags, the registrations with the scheme, logging, the defaults that the
-- schemas fill in, and the transition times of conditions, which the operator never reads.
-- The context, which carries cancellation, shows only as an error of a call.
--
-- Tests has a concrete platform and server, and runs of the model on them.
pub mod Prelude
pub mod Result
pub mod Fmt
pub mod Base64
pub mod Platform
pub mod Kube
pub mod Api
pub mod DeepCopy
pub mod Render
pub mod Client
pub mod Controller
pub mod Cluster
pub mod Manager
pub mod Access
pub mod Tests
