-- ===== src/Controller/Inference/Steps.antt =====
-- `Reconcile` of operator/internal/controller/inferenceservice_controller.go against `Trace`.
use bruk.Prelude.{String, true, false, ◌∷◌, Option, none, ◌≡◌, ◌≢◌, refl, arith}
use bruk.Prelude.{ap, str_eq, str_eq_iff, Bool-cases, inl, inr}
use bruk.Prelude.Int.{ℤ, ◌≤ℤ◌, ltb_ℤ, ltb_ℤ_iff}
use bruk.Result.{Result, ok, err, is_not_found}
use bruk.Platform.{Platform}
use bruk.Kube.Meta.{NamespacedName}
use bruk.Api.BrukModel.{BrukModel}
use bruk.Api.BrukTenant.{BrukTenant}
use bruk.Api.InferenceService.{InferenceService}
use bruk.Render.{has_value}
use bruk.Client.{got_bruk_tenant, got_inference_service}
use bruk.Client.{Client, World}
use bruk.Controller.Conflict.{trusted_store_conflict}
use bruk.Controller.Conflict.Reads.{trusted_store_conflict-OnlyReads}
use bruk.Client.Reads.{OnlyReads, unchanged, read}
use bruk.Controller.Inference.{
  fail_configured, conflict_checked, spec_checked, model_fetched, tenant_fetched, service_fetched,
  reconcile, config_of, tenant_key, model_key,
}
use bruk.Controller.Inference.Trace.{
  Cleared, Run, unfetched, unread, rejected, cleared, Refusal, tenant_missing, model_missing,
  volume_reserved, source_missing, window_too_long, store_taken, checked_world,
}
use bruk.Controller.Inference.Rollouts.{apply_workload-Ends}

has_value-true {ℓ} : {A : Type ℓ} (o : Option A) → has_value o ≡ true → o ≢ none
has_value-true o h = ground arith

has_value-false {ℓ} : {A : Type ℓ} (o : Option A) → has_value o ≡ false → o ≡ none
has_value-false o h = ground arith

-- A failed `<` on integers.
fits_of_test : (a b : ℤ) → ltb_ℤ a b ≡ false → b ≤ℤ a
fits_of_test a b h = ground (arith, ltb_ℤ_iff a b)

module _ {K : Platform} (C : Client K) (request : NamespacedName) (w : World C) where
  -- A stage ends as a run from `w`.
  abbrev Runs : (Result (Unit {0}) × World C) → Type 0
  Runs r = Run C request w r.0 r.1.log

  module _ (isvc : InferenceService K)
      (fetched : (C.get_inference_service request w.state).0 ≡ ok isvc) where
    fail_configured-Runs :
        (reason message : String) (v : World C)
        → Refusal C request w isvc reason
        → OnlyReads w.log v.log
        → Runs (fail_configured C isvc reason message v)
    unfolding fail_configured
    fail_configured-Runs reason message v refusal reads =
        rejected isvc reason message _ v.log fetched refusal reads

    conflict_checked-Runs :
        (tenant : BrukTenant K) (model : BrukModel K) (verdict : Result String) (v : World C)
        → (trusted_store_conflict C isvc (checked_world C request w isvc)).0 ≡ verdict
        → (verdict ≡ ok "" → Cleared C request w isvc tenant model)
        → OnlyReads w.log v.log
        → Runs (conflict_checked C isvc tenant model verdict v)
    unfolding conflict_checked
    conflict_checked-Runs tenant model (err e) v checked pass reads = unread e v.log reads
    conflict_checked-Runs tenant model (ok message) v checked pass reads =
        elim (Bool-cases (str_eq message "")) [
          | inl free ↦ rw free (
              cleared isvc tenant model _ v.log _ (pass (ap ok ((str_eq_iff message "").0 free)))
                reads
                (apply_workload-Ends C isvc model (config_of K tenant) v.log
                  isvc.spec.storage.weights_cache v refl refl))
          | inr taken ↦ rw taken (
              fail_configured-Runs _ message v
                (store_taken message checked (λ e. ground (arith, str_eq_iff message ""))) reads)
        ]

    module _ (tenant : BrukTenant K)
        (tenant_read : (C.get_bruk_tenant tenant_key (C.get_inference_service request w.state).1).0
          ≡ ok tenant) where
      -- The three reads before the checks.
      three_reads : OnlyReads w.log (checked_world C request w isvc).log
      three_reads = read refl (read refl (read refl unchanged))

      spec_checked-Runs :
          (model : BrukModel K)
          → (C.get_bruk_model
              (model_key isvc)
              (C.get_bruk_tenant tenant_key (C.get_inference_service request w.state).1).1).0
            ≡ ok model
          → Runs (spec_checked C isvc tenant model (checked_world C request w isvc))
      unfolding spec_checked
      spec_checked-Runs model model_read =
          elim (Bool-cases (has_value isvc.spec.storage.trusted_store.local_volume)) [
            | inl reserved ↦ rw reserved (
                fail_configured-Runs _ _ _ (volume_reserved (has_value-true _ reserved))
                  three_reads)
            | inr unreserved ↦ elim (Bool-cases (has_value model.spec.source.hugging_face)) [
              | inr unsourced ↦
                  rw (unreserved, unsourced)
                    (fail_configured-Runs _ _ _
                      (source_missing model model_read (has_value-false _ unsourced)) three_reads)
              | inl sourced ↦
                  elim (Bool-cases
                    (ltb_ℤ model.spec.catalog.context_length isvc.spec.engine.max_model_len)) [
                      | inl long ↦
                          rw (unreserved, sourced, long)
                            (fail_configured-Runs _ _ _
                              (window_too_long model model_read ((ltb_ℤ_iff _ _).0 long))
                              three_reads)
                      | inr fits ↦
                          rw (unreserved, sourced, fits)
                            (conflict_checked-Runs tenant model _ _ refl
                              (λ free. record {
                                isvc_fetched = fetched;
                                tenant_fetched = tenant_read;
                                model_fetched = model_read;
                                unreserved = has_value-false _ unreserved;
                                sourced = has_value-true _ sourced;
                                fits = fits_of_test _ _ fits;
                                unopposed = free;
                              })
                              (trusted_store_conflict-OnlyReads C w.log isvc _ three_reads))
                    ]
            ]
          ]

      model_fetched-Runs :
          (r : Result (BrukModel K))
          → (C.get_bruk_model
              (model_key isvc)
              (C.get_bruk_tenant tenant_key (C.get_inference_service request w.state).1).1).0
            ≡ r
          → Runs (model_fetched C isvc tenant r (checked_world C request w isvc))
      unfolding model_fetched
      model_fetched-Runs (ok model) model_read = spec_checked-Runs model model_read
      model_fetched-Runs (err e) failed = elim (Bool-cases (is_not_found e)) [
        | inl missing ↦
            rw missing (fail_configured-Runs _ _ _ (model_missing e failed missing) three_reads)
        | inr broken ↦ rw broken (unread e _ three_reads)
      ]

    tenant_fetched-Runs :
        (r : Result (BrukTenant K))
        → (C.get_bruk_tenant tenant_key (C.get_inference_service request w.state).1).0 ≡ r
        → Runs (
            tenant_fetched C isvc r (record {
              state = (C.get_bruk_tenant tenant_key (C.get_inference_service request w.state).1).1;
              log = got_bruk_tenant tenant_key ∷ got_inference_service request ∷ w.log;
            }))
    unfolding tenant_fetched
    tenant_fetched-Runs (ok tenant) tenant_read = model_fetched-Runs tenant tenant_read _ refl
    tenant_fetched-Runs (err e) failed = elim (Bool-cases (is_not_found e)) [
      | inl missing ↦ rw missing (
          fail_configured-Runs _ _ _ (tenant_missing e failed missing)
            (read refl (read refl unchanged)))
      | inr broken ↦ rw broken (unread e _ (read refl (read refl unchanged)))
    ]

  service_fetched-Runs :
      (r : Result (InferenceService K))
      → (C.get_inference_service request w.state).0 ≡ r
      → Runs (
          service_fetched C r (record {
            state = (C.get_inference_service request w.state).1;
            log = got_inference_service request ∷ w.log;
          }))
  unfolding service_fetched
  service_fetched-Runs (err e) failed = unfetched e failed
  service_fetched-Runs (ok isvc) fetched = tenant_fetched-Runs isvc fetched _ refl

  -- Whatever the API server answers, a reconcile is one of the runs that `Trace` lists: it stops
  -- unread, refuses the service for one of six causes, or rolls out a cleared service in order.
  pub reconcile-Run : Run C request w (reconcile C request w).0 (reconcile C request w).1.log
  unfolding reconcile
  reconcile-Run = service_fetched-Runs _ refl
