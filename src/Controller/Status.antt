-- ===== src/Controller/Status.antt =====
-- The status writes of operator/internal/controller/inferenceservice_controller.go:
-- `setCondition`, `failConfigured`, `deploymentAvailable` and `updateReadyStatus`, up to the call of
-- `Status().Update`, which the reconciler makes.
pub mod Honest
pub mod Reports
pub mod Settles
use bruk.Prelude.{String, Bool, true, false, ◌&&◌, List, [], ◌∷◌, some, str_eq, if◌then◌else◌}
use bruk.Result.{Result, ok, err}
use bruk.Platform.{Platform}
use bruk.Kube.Condition.{ConditionStatus, condition_true, condition_false, is_condition_true}
use bruk.Kube.Workload.{DeploymentCondition, Deployment}
use bruk.Api.BrukModel.{BrukModel, served_model_name}
use bruk.Api.InferenceService.{InferenceService}
use bruk.Api.InferenceService.Names.{
  condition_configured, condition_workload_available, condition_ready, condition_progressing,
  reason_workload_ready, reason_workload_pending, reason_configured, reason_deploying,
}
use bruk.Render.{Config, resolve_image, endpoint_url, init_data_hash}

-- The loop of `deploymentAvailable`.
pub conditions_available : List DeploymentCondition → Bool
conditions_available [] = false
conditions_available (c ∷ cs) =
    if str_eq c.type "Available" && is_condition_true c.status
    then true
    else conditions_available cs

-- `resolvedImage, err := …; if err != nil { resolvedImage = "" }`
abbrev pub image_or_empty : Result String → String
image_or_empty (ok image) = image
image_or_empty (err e) = ""

abbrev pub pending_message : String
pending_message = "Deployment not yet Available (CC guest boot + guest-pull can take 15-25 min)"

module _ (K : Platform) where
  -- `deploymentAvailable`
  pub deployment_available : Deployment K → Bool
  unfolding conditions_available
  deployment_available d = conditions_available d.conditions

  -- `setCondition`
  pub set_condition :
      InferenceService K → String → ConditionStatus → String → String → InferenceService K
  set_condition isvc type status reason message = record isvc {
    status = record (isvc.status) {
      conditions = K.set_status_condition isvc.status.conditions (record {
        type = type;
        status = status;
        reason = reason;
        message = message;
        observed_generation = isvc.metadata.generation;
      });
    };
  }

  pub observe_generation : InferenceService K → InferenceService K
  observe_generation isvc = record isvc {
    status = record (isvc.status) { observed_generation = isvc.metadata.generation };
  }

  -- `failConfigured`, up to the update.
  unfoldable pub failed_status : InferenceService K → String → String → InferenceService K
  unfolding set_condition observe_generation
  failed_status isvc reason message =
      let a = set_condition isvc condition_configured condition_false reason message in
      let b = set_condition a condition_ready condition_false reason message in
      let c = set_condition b condition_progressing condition_false reason message in
      observe_generation c

  -- The conditions that `updateReadyStatus` sets.
  unfoldable pub availability_status : InferenceService K → Bool → InferenceService K
  unfolding set_condition
  availability_status isvc true =
      let a =
        set_condition isvc condition_workload_available condition_true reason_workload_ready
          "Deployment is Available" in
      let b =
        set_condition a condition_ready condition_true reason_workload_ready
          "workload is serving" in
      set_condition b condition_progressing condition_false reason_workload_ready "rollout complete"
  availability_status isvc false =
      let a =
        set_condition isvc condition_workload_available condition_false reason_workload_pending
          pending_message in
      let b =
        set_condition a condition_ready condition_false reason_workload_pending pending_message in
      set_condition b condition_progressing condition_true reason_deploying pending_message

  -- `updateReadyStatus`, up to the update.
  unfoldable pub ready_status :
      InferenceService K → BrukModel K → Deployment K → Config → InferenceService K
  unfolding set_condition observe_generation availability_status
  ready_status isvc model d cfg =
      let a =
        set_condition isvc condition_configured condition_true reason_configured
          "workload rendered and applied" in
      let b = availability_status a (deployment_available d) in
      observe_generation (record b {
        status = record (b.status) {
          endpoint = some (record { url = endpoint_url K isvc });
          served_model_name = served_model_name K model;
          resolved_image = image_or_empty (resolve_image cfg);
          applied_init_data_hash = init_data_hash K cfg.init_data_b64;
        };
      })
