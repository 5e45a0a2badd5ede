-- ===== src/Controller/Inference/Failure.antt =====
-- What the failures of `Reconcile` do to the workload (operator/internal/controller/inferenceservice_controller.go).
use bruk.Prelude.{List, ◌∷◌, ◌≡◌, refl, ◌∙◌, ap}
use bruk.Result.{Result}
use bruk.Platform.{Platform}
use bruk.Kube.Meta.{NamespacedName}
use bruk.Kube.Condition.{condition_false}
use bruk.Api.BrukModel.{BrukModel}
use bruk.Api.InferenceService.{InferenceService}
use bruk.Api.InferenceService.Names.{condition_configured}
use bruk.Render.{Config}
use bruk.Client.{Client, Call, World, updated_inference_service_status}
use bruk.Controller.Status.{ready_status}
use bruk.Controller.Status.Honest.{KeepsConditions, shows}
use bruk.Controller.Status.Honest.{ready_status-shows}
use bruk.Controller.Inference.{reconcile}
use bruk.Controller.Inference.Steps.{reconcile-Run}
use bruk.Controller.Inference.Safety.{workload_calls, reads-workload_calls, map-workload_calls}
use bruk.Controller.Inference.Trace.{
  Rollout, map_refused, unrendered, unowned, deployment_refused, front_unowned, front_refused,
  rolled_out, Run, unfetched, unread, rejected, cleared,
}

module _ {K : Platform} (law : KeepsConditions K) (C : Client K) (request : NamespacedName)
    (w : World C) (i : InferenceService K) where
  Rollout-keeps_workload :
      {isvc : InferenceService K} {model : BrukModel K} {cfg : Config} {before rest : List (Call K)}
      {r : Result (Unit {0})} {log : List (Call K)}
      → Rollout C isvc model cfg before r log
      → log ≡ updated_inference_service_status i ∷ rest
      → shows i condition_configured ≡ condition_false
      → workload_calls log ≡ workload_calls before
  Rollout-keeps_workload (map_refused e cache set) p h = refl
  Rollout-keeps_workload {isvc} {before} (unrendered e r render) p h =
      map-workload_calls isvc isvc.spec.storage.weights_cache before
  Rollout-keeps_workload {isvc} {before} (unowned e) p h =
      map-workload_calls isvc isvc.spec.storage.weights_cache before
  Rollout-keeps_workload (deployment_refused e d work) p h = cc
  Rollout-keeps_workload (front_unowned e d work) p h = cc
  Rollout-keeps_workload (front_refused e d s work front) p h = cc
  Rollout-keeps_workload {isvc} {model} {cfg} (rolled_out r d answer s work answered front) p h =
      let same : ready_status K isvc model answer cfg ≡ i = cc in
      let set = (ready_status-shows law isvc model answer cfg).0 in
      let unset : shows (ready_status K isvc model answer cfg) condition_configured
          ≡ condition_false =
        ap (λ s. shows s condition_configured) same ∙ h in
      cc

  Run-keeps_workload :
      {r : Result (Unit {0})} {log rest : List (Call K)}
      → Run C request w r log
      → log ≡ updated_inference_service_status i ∷ rest
      → shows i condition_configured ≡ condition_false
      → workload_calls log ≡ workload_calls w.log
  Run-keeps_workload (unfetched e failed) p h = refl
  Run-keeps_workload (unread e log reads) p h = reads-workload_calls reads
  Run-keeps_workload (rejected isvc reason message r log fetched refusal reads) p h =
      reads-workload_calls reads
  Run-keeps_workload (cleared isvc tenant model r before log pass reads rollout) p h =
      Rollout-keeps_workload rollout p h ∙ reads-workload_calls reads

  -- If SetStatusCondition replaces or adds the condition of its type and leaves the others, a run
  -- whose last call writes a status with Configured=False has applied no Deployment and no
  -- Service.
  pub failed_run-keeps_workload :
      {rest : List (Call K)}
      → (reconcile C request w).1.log ≡ updated_inference_service_status i ∷ rest
      → shows i condition_configured ≡ condition_false
      → workload_calls (reconcile C request w).1.log ≡ workload_calls w.log
  failed_run-keeps_workload = Run-keeps_workload (reconcile-Run C request w)
