-- ===== src/Controller/Inference/Serving.antt =====
-- The runs of `Reconcile` (operator/internal/controller/inferenceservice_controller.go) that end with the
-- workload in place.
pub mod Rollout
use bruk.Prelude.{◌≡◌, Bool, true, false, List, refl, sym, ap, arith}
use bruk.Prelude.{Option-cases, inl, inr, str_eq}
use mathlib.Core.Path.{subst}
use bruk.Prelude.Int.{ltb_ℤ, ltb_ℤ_iff, ◌≤ℤ◌}
use bruk.Result.{ok}
use bruk.Platform.{Platform}
use bruk.Kube.Meta.{NamespacedName}
use bruk.Api.BrukModel.{BrukModel}
use bruk.Api.BrukTenant.{BrukTenant}
use bruk.Api.InferenceService.{InferenceService}
use bruk.Api.Admission.{admits_model, admits_tenant, admits_service}
use bruk.Api.Admission.Laws.{admits_model-source, admits_tenant-set, admits_service-unreserved}
use bruk.Render.{has_value}
use bruk.Client.{Client, World, Call}
use bruk.Client.Reads.{OnlyReads, read, unchanged}
use bruk.Controller.Conflict.Reads.{trusted_store_conflict-OnlyReads}
use bruk.Controller.Conflict.{trusted_store_conflict}
use bruk.Controller.Inference.{
  apply_workload, conflict_checked, spec_checked, model_fetched, tenant_fetched, service_fetched,
  reconcile, config_of, tenant_key, model_key,
}
use bruk.Controller.Inference.Trace.{Cleared, checked_world, state_1, state_2}
use bruk.Controller.Inference.Serving.Rollout.{
  OwnsFresh, IsAccepting, IsServed, apply_workload-serves,
}

module _ {K : Platform} (C : Client K) (request : NamespacedName) (w : World C)
    (isvc : InferenceService K) (tenant : BrukTenant K) (model : BrukModel K) where
  -- A run past its checks goes on to the workload.
  reconcile-Cleared :
      Cleared C request w isvc tenant model
      → reconcile C request w
        ≡ apply_workload C isvc model
            (config_of K tenant)
            (has_value isvc.spec.storage.weights_cache)
            (trusted_store_conflict C isvc (checked_world C request w isvc)).1
  unfolding reconcile service_fetched tenant_fetched model_fetched spec_checked conflict_checked
      str_eq
  reconcile-Cleared cleared =
      let source : has_value model.spec.source.hugging_face ≡ true =
        elim (Option-cases model.spec.source.hugging_face) [
          | inl missing ↦ absurd (cleared.sourced missing)
          | inr (hf, set) ↦ rw set refl
        ] in
      let fits : ltb_ℤ model.spec.catalog.context_length isvc.spec.engine.max_model_len ≡ false =
        ground (
          arith,
          cleared.fits,
          ltb_ℤ_iff model.spec.catalog.context_length isvc.spec.engine.max_model_len,
        ) in
      rw
        (
          cleared.isvc_fetched,
          cleared.tenant_fetched,
          cleared.model_fetched,
          ap has_value cleared.unreserved,
          source,
          fits,
          cleared.unopposed,
        )
        refl

-- Admission is enough to be served. If the server hands out a service that it admitted with an
-- existing claim, the tenant and the model that it admitted, the context window fits the model's, and
-- the guard finds no other holder of the claim, then a run against a server that accepts every write
-- ends well: after reads alone, the shared ConfigMap of a weights cache, the rendered Deployment and
-- the Service are applied with the service as their owner, and the status is made of the server's
-- answer. SetControllerReference succeeds on an object of the same namespace without references.
pub reconcile-serves :
    {K : Platform} {C : Client K}
    → IsAccepting C
    → OwnsFresh K
    → (at_most : K.Quantity → K.Quantity → Bool) (request : NamespacedName) (w : World C)
      (isvc : InferenceService K) (tenant : BrukTenant K) (model : BrukModel K)
    → admits_service at_most true isvc ≡ true
    → admits_tenant tenant ≡ true
    → admits_model model ≡ true
    → (C.get_inference_service request w.state).0 ≡ ok isvc
    → (C.get_bruk_tenant tenant_key (state_1 C request w)).0 ≡ ok tenant
    → (C.get_bruk_model (model_key isvc) (state_2 C request w)).0 ≡ ok model
    → isvc.spec.engine.max_model_len ≤ℤ model.spec.catalog.context_length
    → (trusted_store_conflict C isvc (checked_world C request w isvc)).0 ≡ ok ""
    → (before : List (Call K)) × OnlyReads w.log before
      × IsServed C isvc model (config_of K tenant) before (reconcile C request w)
reconcile-serves {K} {C} accepting owning at_most request w isvc tenant model service_ok tenant_ok
      model_ok got_service got_tenant got_model fits free =
    let guarded = trusted_store_conflict C isvc (checked_world C request w isvc) in
    let source = admits_model-source model model_ok in
    let (image, blob) = admits_tenant-set tenant tenant_ok in
    let cleared : Cleared C request w isvc tenant model = record {
      isvc_fetched = got_service;
      tenant_fetched = got_tenant;
      model_fetched = got_model;
      unreserved = admits_service-unreserved at_most isvc service_ok;
      sourced = source;
      fits = fits;
      unopposed = free;
    } in
    let served =
      apply_workload-serves accepting owning isvc model (config_of K tenant) guarded.1 source image
        blob in
    (
      guarded.1.log,
      trusted_store_conflict-OnlyReads C w.log isvc (checked_world C request w isvc)
          (read refl (read refl (read refl unchanged))),
      subst (IsServed C isvc model (config_of K tenant) guarded.1.log)
          (sym (reconcile-Cleared C request w isvc tenant model cleared)) served,
    )
