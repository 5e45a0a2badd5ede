-- ===== src/Controller/Inference/Trace.antt =====
-- The runs of the reconciler: which calls it may make, in which order, and with what.
use bruk.Prelude.{String, true, List, ◌∷◌, Option, none, some, ◌≡◌, ◌≢◌}
use bruk.Prelude.Int.{◌≤ℤ◌, ◌<ℤ◌}
use bruk.Result.{Error, Result, ok, err, wrapped, is_not_found, error_text}
use bruk.Platform.{Platform}
use bruk.Kube.Meta.{NamespacedName}
use bruk.Kube.Workload.{Deployment, Service}
use bruk.Api.BrukModel.{BrukModel}
use bruk.Api.BrukTenant.{BrukTenant}
use bruk.Api.InferenceService.{InferenceService, WeightsCacheSpec}
use bruk.Api.InferenceService.Names.{
  reason_model_not_found, reason_tenant_config_missing, reason_trusted_store_conflict,
  reason_invalid_config, reason_not_implemented,
}
use bruk.Render.{Config, deployment, service, gai_config_map}
use bruk.Client.Reads.{OnlyReads}
use bruk.Client.{Client, Call, World}
use bruk.Client.{applied_config_map, applied_deployment, applied_service}
use bruk.Client.{updated_inference_service_status, got_inference_service, got_bruk_tenant}
use bruk.Client.{got_bruk_model}
use bruk.Controller.Conflict.{trusted_store_conflict}
use bruk.Controller.Status.{failed_status, ready_status}
use bruk.Controller.Inference.{ignore_not_found, typed_deployment, typed_service, typed_config_map}
use bruk.Controller.Inference.{own_deployment, own_service, config_of, tenant_key, model_key}

module _ {K : Platform} where
  -- The log after the ConfigMap of a weights cache, if there is one, was applied.
  abbrev pub with_config_map :
      InferenceService K → Option (WeightsCacheSpec K) → List (Call K) → List (Call K)
  with_config_map isvc none log = log
  with_config_map isvc (some cache) log =
      applied_config_map (typed_config_map K (gai_config_map K isvc.metadata.namespace)) ∷ log

  -- The Deployment and the Service that a run may apply for a service.
  abbrev pub IsWorkload : InferenceService K → BrukModel K → Config → Deployment K → Type 0
  IsWorkload isvc model cfg d =
      (rendered : Deployment K) × (deployment K isvc model cfg ≡ ok rendered)
      × (own_deployment K isvc (typed_deployment K rendered) ≡ ok d)

  abbrev pub IsFront : InferenceService K → Service K → Type 0
  IsFront isvc s = own_service K isvc (typed_service K (service K isvc)) ≡ ok s

  -- Some call with the Deployment was answered so: the answer carries the server's status.
  abbrev pub IsAnswer : Client K → Deployment K → Deployment K → Type 0
  IsAnswer C d answer = (s : C.State) × ((C.apply_deployment d s).0 ≡ ok answer)

  -- How the second half of a run ends, from the log of its first half.
  pub data Rollout (C : Client K) (isvc : InferenceService K) (model : BrukModel K) (cfg : Config)
      (before : List (Call K)) : Result (Unit {0}) → List (Call K) → Type 0 where
    map_refused :
        (e : Error) (cache : WeightsCacheSpec K)
        → isvc.spec.storage.weights_cache ≡ some cache
        → Rollout C isvc model cfg before
            (err (wrapped "applying gai ConfigMap: " e))
            (with_config_map isvc (some cache) before)
    unrendered :
        (e : Error) (r : Result (Unit {0}))
        → deployment K isvc model cfg ≡ err e
        → Rollout C isvc model cfg before r (
            updated_inference_service_status
              (failed_status K isvc reason_invalid_config (error_text e))
            ∷ with_config_map isvc isvc.spec.storage.weights_cache before)
    unowned :
        (e : Error)
        → Rollout C isvc model cfg before
            (err e)
            (with_config_map isvc isvc.spec.storage.weights_cache before)
    deployment_refused :
        (e : Error) (d : Deployment K)
        → IsWorkload isvc model cfg d
        → Rollout C isvc model cfg before
            (err (wrapped "applying Deployment: " e))
            (applied_deployment d ∷ with_config_map isvc isvc.spec.storage.weights_cache before)
    front_unowned :
        (e : Error) (d : Deployment K)
        → IsWorkload isvc model cfg d
        → Rollout C isvc model cfg before
            (err e)
            (applied_deployment d ∷ with_config_map isvc isvc.spec.storage.weights_cache before)
    front_refused :
        (e : Error) (d : Deployment K) (s : Service K)
        → IsWorkload isvc model cfg d
        → IsFront isvc s
        → Rollout C isvc model cfg before (err (wrapped "applying Service: " e)) (
            applied_service s
            ∷ applied_deployment d
            ∷ with_config_map isvc isvc.spec.storage.weights_cache before)
    rolled_out :
        (r : Result (Unit {0})) (d answer : Deployment K) (s : Service K)
        → IsWorkload isvc model cfg d
        → IsAnswer C d answer
        → IsFront isvc s
        → Rollout C isvc model cfg before r (
            updated_inference_service_status (ready_status K isvc model answer cfg)
            ∷ applied_service s
            ∷ applied_deployment d
            ∷ with_config_map isvc isvc.spec.storage.weights_cache before)

module _ {K : Platform} (C : Client K) (request : NamespacedName) (w : World C) where
  abbrev pub state_1 : C.State
  state_1 = (C.get_inference_service request w.state).1

  abbrev pub state_2 : C.State
  state_2 = (C.get_bruk_tenant tenant_key state_1).1

  -- The world in which the trusted store is checked: after the three reads.
  abbrev pub checked_world : InferenceService K → World C
  checked_world isvc = record {
    state = (C.get_bruk_model (model_key isvc) state_2).1;
    log =
        got_bruk_model (model_key isvc)
        ∷ got_bruk_tenant tenant_key
        ∷ got_inference_service request
        ∷ w.log;
  }

  -- The objects that the server handed out have passed every check.
  pub record Cleared (isvc : InferenceService K) (tenant : BrukTenant K) (model : BrukModel K)
      : Type 0 where
    pub isvc_fetched : (C.get_inference_service request w.state).0 ≡ ok isvc
    pub tenant_fetched : (C.get_bruk_tenant tenant_key state_1).0 ≡ ok tenant
    pub model_fetched : (C.get_bruk_model (model_key isvc) state_2).0 ≡ ok model
    pub unreserved : isvc.spec.storage.trusted_store.local_volume ≡ none
    pub sourced : model.spec.source.hugging_face ≢ none
    pub fits : isvc.spec.engine.max_model_len ≤ℤ model.spec.catalog.context_length
    pub unopposed : (trusted_store_conflict C isvc (checked_world isvc)).0 ≡ ok ""

  -- Why a service is refused, and the reason that its status then gives.
  pub data Refusal (isvc : InferenceService K) : String → Type 0 where
    tenant_missing :
        (e : Error)
        → (C.get_bruk_tenant tenant_key state_1).0 ≡ err e
        → is_not_found e ≡ true
        → Refusal isvc reason_tenant_config_missing
    model_missing :
        (e : Error)
        → (C.get_bruk_model (model_key isvc) state_2).0 ≡ err e
        → is_not_found e ≡ true
        → Refusal isvc reason_model_not_found
    volume_reserved :
        isvc.spec.storage.trusted_store.local_volume ≢ none → Refusal isvc reason_not_implemented
    source_missing :
        (model : BrukModel K)
        → (C.get_bruk_model (model_key isvc) state_2).0 ≡ ok model
        → model.spec.source.hugging_face ≡ none
        → Refusal isvc reason_invalid_config
    window_too_long :
        (model : BrukModel K)
        → (C.get_bruk_model (model_key isvc) state_2).0 ≡ ok model
        → model.spec.catalog.context_length <ℤ isvc.spec.engine.max_model_len
        → Refusal isvc reason_invalid_config
    store_taken :
        (message : String)
        → (trusted_store_conflict C isvc (checked_world isvc)).0 ≡ ok message
        → message ≢ ""
        → Refusal isvc reason_trusted_store_conflict

  -- A run's result and its log at the end.
  pub data Run : Result (Unit {0}) → List (Call K) → Type 0 where
    unfetched :
        (e : Error)
        → (C.get_inference_service request w.state).0 ≡ err e
        → Run (ignore_not_found e) (got_inference_service request ∷ w.log)
    unread : (e : Error) (log : List (Call K)) → OnlyReads w.log log → Run (err e) log
    rejected :
        (isvc : InferenceService K) (reason message : String) (r : Result (Unit {0}))
        (log : List (Call K))
        → (C.get_inference_service request w.state).0 ≡ ok isvc
        → Refusal isvc reason
        → OnlyReads w.log log
        → Run r (updated_inference_service_status (failed_status K isvc reason message) ∷ log)
    cleared :
        (isvc : InferenceService K) (tenant : BrukTenant K) (model : BrukModel K)
        (r : Result (Unit {0})) (before log : List (Call K))
        → Cleared isvc tenant model
        → OnlyReads w.log before
        → Rollout C isvc model (config_of K tenant) before r log
        → Run r log
