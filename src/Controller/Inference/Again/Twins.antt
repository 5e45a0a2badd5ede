-- ===== src/Controller/Inference/Again/Twins.antt =====
-- Two runs of `Reconcile` (operator/internal/controller/inferenceservice_controller.go) side by side, for
-- services that differ in the status alone, when nobody else writes.
use bruk.Prelude.{String, ◌∷◌, ◌≡◌, ap}
use bruk.Prelude.{Bool-cases, inl, inr, str_eq}
use bruk.Prelude.Int.{ltb_ℤ}
use bruk.Result.{Result, ok, err, is_not_found}
use bruk.Platform.{Platform}
use bruk.Kube.Meta.{NamespacedName}
use bruk.Api.BrukModel.{BrukModel}
use bruk.Api.BrukTenant.{BrukTenant}
use bruk.Api.InferenceService.{InferenceService, InferenceServiceStatus}
use bruk.Render.{has_value}
use bruk.Client.{Client, World}
use bruk.Client.{got_bruk_model, got_bruk_tenant, got_inference_service}
use bruk.Controller.Status.Honest.{KeepsConditions}
use bruk.Controller.Status.Settles.{KeepsSame, with_status}
use bruk.Controller.Conflict.Undisturbed.{MakesController, IsUndisturbed, IsSame, Beside}
use bruk.Controller.Conflict.Again.{trusted_store_conflict-again}
use bruk.Controller.Inference.{
  conflict_checked, spec_checked, model_fetched, tenant_fetched, service_fetched, reconcile,
  config_of, tenant_key, model_key,
}
use bruk.Controller.Inference.Again.Workload.{Twin, fail_configured-Twin, apply_workload-Twin}

module _ {K : Platform} {C : Client K} (law : KeepsConditions K) (same_list : KeepsSame K)
    {isvc : InferenceService K} {Like : C.State → C.State → Type 0} (owning : MakesController K)
    (calm : IsUndisturbed C isvc Like) (status : InferenceServiceStatus) where
  abbrev isvc' : InferenceService K
  isvc' = with_status isvc status

  module _ (tenant : BrukTenant K) where
    conflict_checked-Twin :
        (model : BrukModel K) (verdict : Result String) (w v : World C)
        → Beside C isvc Like w v
        → Twin isvc status
            (conflict_checked C isvc tenant model verdict w)
            (conflict_checked C isvc' tenant model verdict v)
    unfolding conflict_checked
    conflict_checked-Twin model (err e) w v h = λ done. cc
    conflict_checked-Twin model (ok message) w v h = elim (Bool-cases (str_eq message "")) [
      | inl silent ↦
          rw silent (
            apply_workload-Twin law same_list owning calm status model (config_of K tenant) _ w v h)
      | inr told ↦ rw told (fail_configured-Twin law same_list owning calm status _ _ w v h)
    ]

    after_guard-Twin :
        (model : BrukModel K) (a b : Result String × World C)
        → IsSame C isvc Like a b
        → Twin isvc status
            (conflict_checked C isvc tenant model a.0 a.1)
            (conflict_checked C isvc' tenant model b.0 b.1)
    after_guard-Twin model a b (answer, log, next) =
        rw answer (conflict_checked-Twin model _ _ _ (log, next))

    spec_checked-Twin :
        (model : BrukModel K) (w v : World C)
        → Beside C isvc Like w v
        → Twin isvc status
            (spec_checked C isvc tenant model w)
            (spec_checked C isvc' tenant model v)
    unfolding spec_checked
    spec_checked-Twin model w v h =
        elim (Bool-cases (has_value isvc.spec.storage.trusted_store.local_volume)) [
          | inl reserved ↦
              rw reserved (fail_configured-Twin law same_list owning calm status _ _ w v h)
          | inr unreserved ↦ elim (Bool-cases (has_value model.spec.source.hugging_face)) [
            | inr unsourced ↦
                rw (unreserved, unsourced)
                  (fail_configured-Twin law same_list owning calm status _ _ w v h)
            | inl sourced ↦
                elim (Bool-cases
                  (ltb_ℤ model.spec.catalog.context_length isvc.spec.engine.max_model_len)) [
                    | inl long ↦
                        rw (unreserved, sourced, long)
                          (fail_configured-Twin law same_list owning calm status _ _ w v h)
                    | inr fits ↦
                        rw (unreserved, sourced, fits)
                          (after_guard-Twin model _ _
                            (trusted_store_conflict-again calm status w v h))
                  ]
          ]
        ]

    model_fetched-Twin :
        (r : Result (BrukModel K)) (w v : World C)
        → Beside C isvc Like w v
        → Twin isvc status (model_fetched C isvc tenant r w) (model_fetched C isvc' tenant r v)
    unfolding model_fetched
    model_fetched-Twin (ok model) w v h = spec_checked-Twin model w v h
    model_fetched-Twin (err e) w v h = elim (Bool-cases (is_not_found e)) [
      | inl missing ↦ rw missing (fail_configured-Twin law same_list owning calm status _ _ w v h)
      | inr broken ↦ rw broken (λ done. cc)
    ]

  tenant_fetched-Twin :
      (r : Result (BrukTenant K)) (w v : World C)
      → Beside C isvc Like w v
      → Twin isvc status (tenant_fetched C isvc r w) (tenant_fetched C isvc' r v)
  unfolding tenant_fetched
  tenant_fetched-Twin (err e) w v h = elim (Bool-cases (is_not_found e)) [
    | inl missing ↦ rw missing (fail_configured-Twin law same_list owning calm status _ _ w v h)
    | inr broken ↦ rw broken (λ done. cc)
  ]
  tenant_fetched-Twin (ok tenant) w v h =
      let (same, next) = calm.model (model_key isvc) w.state v.state h.1 in
      rw same (
        model_fetched-Twin tenant _ _ _
          (ap (λ log. got_bruk_model (model_key isvc) ∷ log) h.0, next))

  pub reconcile-Twin :
      (request : NamespacedName) (w v : World C)
      → Beside C isvc Like w v
      → (C.get_inference_service request w.state).0 ≡ ok isvc
      → (C.get_inference_service request v.state).0 ≡ ok isvc'
      → Twin isvc status (reconcile C request w) (reconcile C request v)
  unfolding reconcile service_fetched
  reconcile-Twin request w v h got got' =
      let fetched = calm.own_service request w.state v.state h.1 in
      let (same, next) =
        calm.tenant tenant_key (C.get_inference_service request w.state).1
          (C.get_inference_service request v.state).1 fetched in
      rw (got, got', same)
        (tenant_fetched-Twin _ _ _
          (ap (λ log. got_bruk_tenant tenant_key ∷ got_inference_service request ∷ log) h.0, next))
