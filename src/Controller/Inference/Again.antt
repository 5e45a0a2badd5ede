-- ===== src/Controller/Inference/Again.antt =====
-- A second run of `Reconcile` (operator/internal/controller/inferenceservice_controller.go) for a service
-- that has the status of the first one, when nobody else writes.
pub mod Workload
pub mod Twins
use bruk.Prelude.{List, ◌∷◌, ◌≡◌, sym, ◌∙◌, ap}
use bruk.Result.{ok}
use bruk.Platform.{Platform}
use bruk.Kube.Meta.{NamespacedName}
use bruk.Api.InferenceService.{InferenceService}
use bruk.Client.{Client, World, Call, updated_inference_service_status}
use bruk.Controller.Status.Honest.{KeepsConditions}
use bruk.Controller.Status.Settles.{KeepsSame, with_status}
use bruk.Controller.Conflict.Undisturbed.{MakesController, IsUndisturbed}
use bruk.Controller.Inference.{reconcile}
use bruk.Controller.Inference.Again.Twins.{reconcile-Twin}

-- A successful run is settled. Once it has written a status, a run that reads the service with that
-- status makes the same calls with the same objects, the status included, so the second write changes
-- nothing. That is, if nobody else writes: between the states in which the runs start, the service's
-- status, its own Deployment and what that brings about are all that may differ, and an applied Deployment is
-- as available as before. SetStatusCondition replaces the condition of that type alone and leaves a
-- list that has the condition as it is, and SetControllerReference makes the service the controller.
pub reconcile-settles :
    {K : Platform} {C : Client K}
    → KeepsConditions K
    → KeepsSame K
    → MakesController K
    → (isvc written : InferenceService K) (Like : C.State → C.State → Type 0)
    → IsUndisturbed C isvc Like
    → (request : NamespacedName) (w v : World C) (rest : List (Call K)) → w.log ≡ v.log
    → Like w.state v.state
    → (C.get_inference_service request w.state).0 ≡ ok isvc
    → (reconcile C request w).0 ≡ ok tt
    → (reconcile C request w).1.log ≡ updated_inference_service_status written ∷ rest
    → (C.get_inference_service request v.state).0 ≡ ok (with_status isvc written.status)
    → (reconcile C request v).1.log ≡ (reconcile C request w).1.log
reconcile-settles {K} {C} law same owning isvc written Like calm request w v rest h like got done
      log got' =
    let (F, settling, before, first, second) =
      reconcile-Twin law same owning calm written.status request w v (h, like) got got' done in
    let wrote : F isvc ≡ written = cc in
    let kept : with_status isvc written.status ≡ F isvc =
      sym (settling.sets_status isvc ∙ ap (λ x. with_status isvc x.status) wrote) in
    second
    ∙ ap (λ x. updated_inference_service_status x ∷ before) (ap F kept ∙ settling.again isvc)
    ∙ sym first
