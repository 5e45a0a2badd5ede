-- ===== src/Controller/Inference/Exclusive.antt =====
-- Two services that want one trusted store, through `Reconcile` and `trustedStoreConflict` of
-- operator/internal/controller/inferenceservice_controller.go.
use bruk.Prelude.{List, ◌≡◌, ◌≢◌, ◌⊎◌, inl, inr, Any}
use mathlib.Core.Path.{subst}
use bruk.Result.{ok}
use bruk.Platform.{Platform}
use bruk.Kube.Meta.{NamespacedName}
use bruk.Kube.Workload.{Deployment}
use bruk.Api.InferenceService.{InferenceService}
use bruk.Client.{Client, World, applied_deployment}
use bruk.Controller.Conflict.{trusted_store_conflict}
use bruk.Controller.Conflict.Order.{IsClock}
use bruk.Controller.Conflict.Winner.{IsStandIn}
use bruk.Controller.Conflict.Verdict.{trusted_store_conflict_stand_ins}
use bruk.Controller.Inference.{reconcile}
use bruk.Controller.Inference.Trace.{checked_world}
use bruk.Controller.Inference.Safety.{applied_deployment-Cleared}

-- The service that a run fetched passed its guard, or the run has applied no Deployment.
applied_unopposed :
    {K : Platform} (C : Client K) (request : NamespacedName) (w : World C) (a : InferenceService K)
    (d : Deployment K)
    → (C.get_inference_service request w.state).0 ≡ ok a
    → Any (λ c. c ≡ applied_deployment d) (reconcile C request w).1.log
    → Any (λ c. c ≡ applied_deployment d) w.log
      ⊎ ((trusted_store_conflict C a (checked_world C request w a)).0 ≡ ok "")
applied_unopposed C request w a d fetched m = elim (applied_deployment-Cleared C request w d m) [
  | inl old ↦ inl old
  | inr (isvc, tenant, model, pass, work) ↦
      let read = pass.isvc_fetched in
      let same : isvc ≡ a = cc in
      inr (
        subst (λ s. (trusted_store_conflict C s (checked_world C request w s)).0 ≡ ok "") same
          pass.unopposed)
]

-- Two runs, for two services of different names and one claim, do not both roll out: if times are
-- instants, the list that the guard of each run reads has the other service, with whatever status
-- it has then, and both logs show an applied Deployment afterwards, then one of the two
-- Deployments was in its log before the run.
pub reconcile_exclusive :
    {K : Platform} (clock : IsClock K) (C : Client K) (request_a request_b : NamespacedName)
    (v w : World C) (a b : InferenceService K) (seen_by_a seen_by_b : List (InferenceService K))
    (d e : Deployment K)
    → (C.get_inference_service request_a v.state).0 ≡ ok a
    → (C.get_inference_service request_b w.state).0 ≡ ok b
    → a.metadata.name ≢ b.metadata.name
    → a.spec.storage.trusted_store.existing_claim ≡ b.spec.storage.trusted_store.existing_claim
    → (C.list_inference_services a.metadata.namespace (checked_world C request_a v a).state).0
      ≡ ok seen_by_a
    → (C.list_inference_services b.metadata.namespace (checked_world C request_b w b).state).0
      ≡ ok seen_by_b
    → Any (λ x. IsStandIn x b) seen_by_a
    → Any (λ x. IsStandIn x a) seen_by_b
    → Any (λ c. c ≡ applied_deployment d) (reconcile C request_a v).1.log
    → Any (λ c. c ≡ applied_deployment e) (reconcile C request_b w).1.log
    → Any (λ c. c ≡ applied_deployment d) v.log ⊎ Any (λ c. c ≡ applied_deployment e) w.log
reconcile_exclusive clock C ra rb v w a b seen_by_a seen_by_b d e got_a got_b differ same list_a
      list_b sees_b sees_a in_a in_b =
    elim (applied_unopposed C ra v a d got_a in_a) [
      | inl old ↦ inl old
      | inr free_a ↦ elim (applied_unopposed C rb w b e got_b in_b) [
        | inl old ↦ inr old
        | inr free_b ↦ absurd (
            trusted_store_conflict_stand_ins clock C a b _ _ seen_by_a seen_by_b differ same list_a
              list_b sees_b sees_a free_a free_b)
      ]
    ]
