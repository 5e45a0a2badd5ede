-- ===== src/Controller/Status/Settles.antt =====
-- Writing a status a second time: `failConfigured` and `updateReadyStatus` of
-- operator/internal/controller/inferenceservice_controller.go on a service that has the status already.
use bruk.Prelude.{All, String, Bool, true, false, List, [], ◌∷◌, some, ◌≡◌, refl, ap, str_eq}
use bruk.Platform.{Platform}
use bruk.Kube.Condition.{
  ConditionStatus, condition_true, condition_false, Condition, find_status_condition,
}
use bruk.Kube.Workload.{Deployment}
use bruk.Api.BrukModel.{BrukModel, served_model_name}
use bruk.Api.InferenceService.{InferenceService, InferenceServiceStatus}
use bruk.Render.{Config, endpoint_url, service_name, resolve_image, init_data_hash}
use bruk.Controller.Status.{
  set_condition, observe_generation, failed_status, availability_status, ready_status,
}
use bruk.Controller.Status.{deployment_available, pending_message, image_or_empty}
use bruk.Api.InferenceService.Names.{
  reason_configured, reason_workload_ready, reason_workload_pending, reason_deploying,
}
use bruk.Controller.Status.Honest.{KeepsConditions}

-- `SetStatusCondition` leaves a list that has the condition already as it is.
pub record KeepsSame (K : Platform) : Type 0 where
  pub set_same :
      (cs : List Condition) (c : Condition)
      → find_status_condition cs c.type ≡ some c
      → K.set_status_condition cs c ≡ cs

module _ {K : Platform} where
  abbrev pub with_status : InferenceService K → InferenceServiceStatus → InferenceService K
  with_status isvc status = record isvc { status = status }

  -- A status that is written once and for all: it is set on the object alone, and again without effect.
  pub record IsSettling (F : InferenceService K → InferenceService K) : Type 0 where
    pub sets_status : (isvc : InferenceService K) → F isvc ≡ with_status isvc (F isvc).status
    pub again : (isvc : InferenceService K) → F (F isvc) ≡ F isvc

module _ (K : Platform) where
  abbrev set_all : List Condition → List Condition → List Condition
  set_all cs [] = cs
  set_all cs (c ∷ more) = set_all (K.set_status_condition cs c) more

module _ {K : Platform} where
  -- Conditions that stand in a list are set without effect.
  set_all_same :
      KeepsSame K
      → (cs more : List Condition) → All (λ c. find_status_condition cs c.type ≡ some c) more
      → set_all K cs more ≡ cs
  set_all_same same cs [] present = refl
  set_all_same same cs (c ∷ more) present =
      rw (same.set_same cs c present.0) (set_all_same same cs more present.1)

  abbrev verdict : InferenceService K → String → ConditionStatus → String → String → Condition
  verdict isvc type status reason message = record {
    type = type;
    status = status;
    reason = reason;
    message = message;
    observed_generation = isvc.metadata.generation;
  }

module _ {K : Platform} (law : KeepsConditions K) (same : KeepsSame K) where
  failed_status-again :
      (reason message : String) (isvc : InferenceService K)
      → failed_status K (failed_status K isvc reason message) reason message
        ≡ failed_status K isvc reason message
  unfolding failed_status set_condition observe_generation str_eq
  failed_status-again reason message isvc =
      let f = failed_status K isvc reason message in
      ap (λ cs. record f { status = record (f.status) { conditions = cs } })
        (set_all_same same f.status.conditions
          (verdict isvc "Configured" condition_false reason message
            ∷ verdict isvc "Ready" condition_false reason message
            ∷ verdict isvc "Progressing" condition_false reason message
            ∷ [])
          (simp law.find-set, (simp law.find-set, (simp law.find-set, tt))))

  pub failed_status-IsSettling :
      (reason message : String) → IsSettling (λ isvc. failed_status K isvc reason message)
  failed_status-IsSettling reason message = record {
    sets_status = λ isvc. unfold failed_status set_condition observe_generation in refl;
    again = failed_status-again reason message;
  }

  -- The status that is written for an available workload, and for one that is not, with the
  -- conditions in one list.
  abbrev published : InferenceService K → BrukModel K → Config → List Condition → InferenceService K
  published isvc model cfg cs = record isvc {
    status = record (isvc.status) {
      observed_generation = isvc.metadata.generation;
      conditions = cs;
      endpoint = some (record { url = endpoint_url K isvc });
      served_model_name = served_model_name K model;
      resolved_image = image_or_empty (resolve_image cfg);
      applied_init_data_hash = init_data_hash K cfg.init_data_b64;
    };
  }

  serving : InferenceService K → List Condition
  serving isvc =
      verdict isvc "Configured" condition_true reason_configured "workload rendered and applied"
      ∷ verdict isvc "WorkloadAvailable" condition_true reason_workload_ready
          "Deployment is Available"
      ∷ verdict isvc "Ready" condition_true reason_workload_ready "workload is serving"
      ∷ verdict isvc "Progressing" condition_false reason_workload_ready "rollout complete"
      ∷ []

  pending : InferenceService K → List Condition
  pending isvc =
      verdict isvc "Configured" condition_true reason_configured "workload rendered and applied"
      ∷ verdict isvc "WorkloadAvailable" condition_false reason_workload_pending pending_message
      ∷ verdict isvc "Ready" condition_false reason_workload_pending pending_message
      ∷ verdict isvc "Progressing" condition_true reason_deploying pending_message
      ∷ []

  ready_status-again_when :
      (model : BrukModel K) (d : Deployment K) (cfg : Config) (isvc : InferenceService K)
      (available : Bool)
      → deployment_available K d ≡ available
      → ready_status K (ready_status K isvc model d cfg) model d cfg
        ≡ ready_status K isvc model d cfg
  unfolding ready_status availability_status set_condition observe_generation str_eq endpoint_url
      service_name serving pending
  ready_status-again_when model d cfg isvc true e = rw e (
      ap (published isvc model cfg) (
        set_all_same same (set_all K isvc.status.conditions (serving isvc)) (serving isvc)
          (simp law.find-set, (simp law.find-set, (simp law.find-set, (simp law.find-set, tt))))))
  ready_status-again_when model d cfg isvc false e = rw e (
      ap (published isvc model cfg) (
        set_all_same same (set_all K isvc.status.conditions (pending isvc)) (pending isvc)
          (simp law.find-set, (simp law.find-set, (simp law.find-set, (simp law.find-set, tt))))))

  ready_status-sets_status_when :
      (model : BrukModel K) (d : Deployment K) (cfg : Config) (isvc : InferenceService K)
      (available : Bool)
      → deployment_available K d ≡ available
      → ready_status K isvc model d cfg ≡ with_status isvc (ready_status K isvc model d cfg).status
  unfolding ready_status availability_status set_condition observe_generation
  ready_status-sets_status_when model d cfg isvc true e = rw e refl
  ready_status-sets_status_when model d cfg isvc false e = rw e refl

  pub ready_status-IsSettling :
      (model : BrukModel K) (d : Deployment K) (cfg : Config)
      → IsSettling (λ isvc. ready_status K isvc model d cfg)
  ready_status-IsSettling model d cfg = record {
    sets_status = λ isvc. ready_status-sets_status_when model d cfg isvc _ refl;
    again = λ isvc. ready_status-again_when model d cfg isvc _ refl;
  }

-- Of the applied Deployment the status shows its availability alone.
pub ready_status-available :
    {K : Platform} (isvc : InferenceService K) (model : BrukModel K) (d e : Deployment K)
    (cfg : Config)
    → deployment_available K d ≡ deployment_available K e
    → ready_status K isvc model d cfg ≡ ready_status K isvc model e cfg
unfolding ready_status
ready_status-available isvc model d e cfg same = rw same refl
