-- ===== src/Access.antt =====
-- What the operator may do: the `+kubebuilder:rbac` markers of operator/internal/controller, of which the
-- ClusterRole is generated (operator/config/rbac/role.yaml), and what each call of Client demands of it.
pub mod Laws
use bruk.Prelude.{String, Bool, true, false, ◌&&◌, ◌||◌, List, [], ◌∷◌, ◌++◌, str_eq, if◌then◌else◌}
use bruk.Platform.{Platform}
use bruk.Client
use bruk.Client.{Call}

pub record Rule : Type 0 where
  pub group : String
  pub resource : String
  pub verbs : List String

abbrev rule : String → String → List String → Rule
rule group resource verbs = record { group = group; resource = resource; verbs = verbs }

abbrev bruk_group : String
bruk_group = "bruk.airon.ai"

abbrev pub reading : List String
reading = "get" ∷ "list" ∷ "watch" ∷ []

abbrev publishing : List String
publishing = "get" ∷ "update" ∷ "patch" ∷ []

-- The markers of the InferenceService reconciler.
abbrev pub inference_service_rules : List Rule
inference_service_rules =
    rule bruk_group "inferenceservices" reading
    ∷ rule bruk_group "inferenceservices/status" publishing
    ∷ rule bruk_group "brukmodels" reading
    ∷ rule bruk_group "bruktenants" reading
    ∷ rule "apps" "deployments" (reading ++ "create" ∷ "update" ∷ "patch" ∷ "delete" ∷ [])
    ∷ rule "" "services" (reading ++ "create" ∷ "update" ∷ "patch" ∷ "delete" ∷ [])
    ∷ rule "" "configmaps" (reading ++ "create" ∷ "update" ∷ "patch" ∷ [])
    ∷ rule "" "pods" reading
    ∷ []

-- The markers of the BrukModel reconciler.
abbrev pub bruk_model_rules : List Rule
bruk_model_rules =
    rule bruk_group "brukmodels" reading
    ∷ rule bruk_group "brukmodels/status" publishing
    ∷ rule "" "secrets" ("get" ∷ [])
    ∷ []

-- The markers of the BrukTenant reconciler.
abbrev pub bruk_tenant_rules : List Rule
bruk_tenant_rules =
    rule bruk_group "bruktenants" reading ∷ rule bruk_group "bruktenants/status" publishing ∷ []

-- The one role that is made of all markers.
abbrev pub manager_role : List Rule
manager_role = inference_service_rules ++ bruk_model_rules ++ bruk_tenant_rules

pub record Demand : Type 0 where
  pub group : String
  pub resource : String
  pub verb : String

abbrev pub demand : String → String → String → Demand
demand group resource verb = record { group = group; resource = resource; verb = verb }

abbrev pub one_of : List String → String → Bool
one_of [] s = false
one_of (t ∷ ts) s = str_eq t s || one_of ts s

-- Rules add up: one that fits is enough.
abbrev pub allows : List Rule → Demand → Bool
allows [] d = false
allows (r ∷ rules) d =
    (str_eq r.group d.group && str_eq r.resource d.resource && one_of r.verbs d.verb)
    || allows rules d

-- A read of a kind that the client caches is answered by an informer, which lists and watches the
-- kind; one of another kind goes to the API server.
abbrev read : List String → String → String → String → List Demand
read uncached kind group resource =
    if one_of uncached kind
    then demand group resource "get" ∷ []
    else demand group resource "list" ∷ demand group resource "watch" ∷ []

-- A server-side apply patches the object, or creates it.
abbrev apply : String → String → List Demand
apply group resource = demand group resource "patch" ∷ demand group resource "create" ∷ []

module _ {K : Platform} where
  -- What a call demands, with the kinds that are read past the cache.
  pub demands : List String → Call K → List Demand
  demands uncached (Client.got_inference_service k) =
      read uncached "InferenceService" bruk_group "inferenceservices"
  demands uncached (Client.got_bruk_tenant k) = read uncached "BrukTenant" bruk_group "bruktenants"
  demands uncached (Client.got_bruk_model k) = read uncached "BrukModel" bruk_group "brukmodels"
  demands uncached (Client.got_secret k) = read uncached "Secret" "" "secrets"
  demands uncached (Client.listed_inference_services n) =
      read uncached "InferenceService" bruk_group "inferenceservices"
  demands uncached Client.listed_all_inference_services =
      read uncached "InferenceService" bruk_group "inferenceservices"
  demands uncached (Client.listed_deployments n) = read uncached "Deployment" "apps" "deployments"
  demands uncached (Client.listed_pods n) = read uncached "Pod" "" "pods"
  demands uncached (Client.applied_config_map c) = apply "" "configmaps"
  demands uncached (Client.applied_deployment d) = apply "apps" "deployments"
  demands uncached (Client.applied_service s) = apply "" "services"
  demands uncached (Client.updated_inference_service_status i) =
      demand bruk_group "inferenceservices/status" "update" ∷ []
  demands uncached (Client.updated_bruk_model_status m) =
      demand bruk_group "brukmodels/status" "update" ∷ []
  demands uncached (Client.updated_bruk_tenant_status t) =
      demand bruk_group "bruktenants/status" "update" ∷ []
