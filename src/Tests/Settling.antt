-- ===== src/Tests/Settling.antt =====
-- Runs for one service on a cluster that keeps what is written, and one for the tenant.
use bruk.Prelude.{List, [], ◌∷◌, ◌≡◌, refl, ap}
use bruk.Prelude.{str_eq}
use bruk.Prelude.Int.{ltb_ℤ}
use bruk.Result.{ok}
use bruk.Api.InferenceService.{InferenceService, InferenceServiceStatus}
use bruk.Render.{deployment, deployment_from, deployment_object, resolve_image, service}
use bruk.Client.{World, Call, updated_inference_service_status}
use bruk.Controller.Status.Settles.{with_status, ready_status-IsSettling}
use bruk.Controller.Conflict.{
  trusted_store_conflict, sibling_conflict, deployment_conflict, pod_conflict, precedes,
}
use bruk.Client.{updated_bruk_tenant_status, got_bruk_tenant}
use bruk.Api.BrukTenant.{BrukTenant}
use bruk.Controller.Status.{ready_status}
use bruk.Controller.Status.Honest.{ready_status-shows}
use bruk.Controller.Inference.{tenant_key}
use bruk.Controller.Tenant.{reconcile_tenant}
use bruk.Controller.Tenant.Laws.{IsValidated, reconcile_tenant-IsValidated}
use bruk.Prelude.{some, Bool, str_eq_refl}
use bruk.Controller.Inference.Rerun.{latest_status, run_from, rerun, rerun-ends}
use bruk.Controller.Hashes.{hashes_agree}
use bruk.Tests.Fixtures.{tenant}
use bruk.Controller.Conflict.Undisturbed.{}
use bruk.Controller.Inference.Exclusive.{reconcile_exclusive}
use bruk.Tests.Memory.{in_namespace, upsert}
use mathlib.Core.Option.{some-injective}
use bruk.Client.{applied_deployment}
use bruk.Prelude.{Any, here, there, ◌⊎◌, sym, ◌∙◌}
use bruk.Controller.Inference.{reconcile, spec_checked}
use bruk.Controller.Inference.Again.{reconcile-settles}
use bruk.Tests.Fixtures.{
  demo, demo_keeps, demo-KeepsSame, demo-IsClock, chat, draft, qwen, config, rolled_out, start,
  key_of,
}
use bruk.Tests.Keeping.{Kept, pods_of, keeping, Like, keeping-IsUndisturbed, demo-MakesController}

-- Before the first run.
abbrev fresh : Kept
fresh = record { status = chat.status; deployments = [] }

abbrev first_run : World keeping
first_run = (reconcile keeping (key_of chat) (start keeping fresh)).1

abbrev tail : List (Call demo) → List (Call demo)
tail [] = []
tail (c ∷ cs) = cs

first_done : (reconcile keeping (key_of chat) (start keeping fresh)).0 ≡ ok tt
unfolding reconcile spec_checked trusted_store_conflict sibling_conflict deployment_conflict
    pod_conflict precedes str_eq deployment deployment_from resolve_image ltb_ℤ deployment_object
    service in_namespace upsert pods_of
first_done = refl

abbrev ready : InferenceService demo
ready = ready_status demo chat qwen rolled_out config

-- What is written is the service with a new status.
ready_status_only : ready ≡ with_status chat ready.status
ready_status_only =
    (ready_status-IsSettling demo_keeps demo-KeepsSame qwen rolled_out config).sets_status chat

ready_log : first_run.log ≡ updated_inference_service_status ready ∷ tail first_run.log
unfolding reconcile spec_checked trusted_store_conflict sibling_conflict deployment_conflict
    pod_conflict precedes str_eq deployment deployment_from resolve_image ltb_ℤ deployment_object
    service in_namespace upsert pods_of
ready_log = refl

stored_status : first_run.state.status ≡ ready.status
unfolding reconcile spec_checked trusted_store_conflict sibling_conflict deployment_conflict
    pod_conflict precedes str_eq deployment deployment_from resolve_image ltb_ℤ deployment_object
    service in_namespace upsert pods_of
stored_status = rw (ap (λ (i : InferenceService demo). i.metadata.name) ready_status_only) refl

first_log :
    first_run.log
    ≡ updated_inference_service_status (with_status chat first_run.state.status)
      ∷ tail first_run.log
first_log =
    ready_log
    ∙ ap (λ i. updated_inference_service_status i ∷ tail first_run.log)
        (ready_status_only ∙ ap (with_status chat) (sym stored_status))

-- The Deployment that the first run has applied is the service's own.
first_like : Like fresh first_run.state
unfolding reconcile spec_checked trusted_store_conflict sibling_conflict deployment_conflict
    pod_conflict precedes str_eq deployment deployment_from resolve_image ltb_ℤ deployment_object
    service in_namespace upsert pods_of
first_like = (tt, (refl, tt))

reconcile-settles_example :
    (reconcile keeping (key_of chat) (start keeping first_run.state)).1.log ≡ first_run.log
reconcile-settles_example =
    reconcile-settles demo_keeps demo-KeepsSame demo-MakesController chat
      (with_status chat first_run.state.status) Like keeping-IsUndisturbed (key_of chat)
      (start keeping fresh) (start keeping first_run.state) (tail first_run.log) refl first_like
      (unfold str_eq in refl) first_done first_log (unfold str_eq in refl)

abbrev validated :
    (written : BrukTenant demo) × ((reconcile_tenant keeping tenant_key (start keeping fresh)).1.log
      ≡ updated_bruk_tenant_status written ∷ got_bruk_tenant tenant_key ∷ [])
    × IsValidated tenant written
validated =
    reconcile_tenant-IsValidated demo_keeps keeping tenant_key (start keeping fresh) tenant refl

hashes_agree_example :
    ready.status.applied_init_data_hash ≡ validated.0.status.applied_init_data_hash
hashes_agree_example =
    hashes_agree demo_keeps (key_of chat) (start keeping fresh) (start keeping fresh) tenant
      validated.0 ready (tail first_run.log) (got_bruk_tenant tenant_key ∷ []) refl refl first_done
      ready_log (ready_status-shows demo_keeps chat qwen rolled_out config).0 validated.1

-- A write is without effect if it has the image that is there.
abbrev same_image : InferenceServiceStatus → InferenceServiceStatus → Bool
same_image s t = str_eq s.resolved_image t.resolved_image

first_stored :
    (i : InferenceService demo) (rest : List (Call demo))
    → first_run.log ≡ updated_inference_service_status i ∷ rest
    → (keeping.get_inference_service (key_of chat) first_run.state).0
      ≡ ok (with_status chat i.status)
unfolding str_eq
first_stored i rest log =
    ap (λ o. ok (with_status chat o)) (some-injective _ _ (ap latest_status (sym first_log ∙ log)))

rerun-ends_example :
    (end : InferenceServiceStatus) × (rerun keeping (key_of chat) same_image 2 fresh ≡ some end)
    × (latest_status (run_from keeping (key_of chat) same_image first_run.state).1.log ≡ some end)
rerun-ends_example =
    rerun-ends demo_keeps demo-KeepsSame demo-MakesController chat Like keeping-IsUndisturbed
      (key_of chat) same_image (λ s. str_eq_refl s.resolved_image) fresh (unfold str_eq in refl)
      first_done first_like first_stored

first_applies : Any (λ c. c ≡ applied_deployment rolled_out) first_run.log
unfolding reconcile spec_checked trusted_store_conflict sibling_conflict deployment_conflict
    pod_conflict precedes str_eq deployment deployment_from resolve_image ltb_ℤ deployment_object
    service in_namespace pods_of
first_applies = there (there (here refl))

-- The younger service after that: the log still shows the rollout of the older one.
draft_keeps_log :
    Any (λ c. c ≡ applied_deployment rolled_out) (reconcile keeping (key_of draft) first_run).1.log
unfolding reconcile spec_checked trusted_store_conflict sibling_conflict deployment_conflict
    pod_conflict precedes str_eq deployment deployment_from resolve_image ltb_ℤ deployment_object
    service in_namespace pods_of
draft_keeps_log = there (there (there (there (there (there (there (here refl)))))))

reconcile_exclusive_example :
    Any (λ c. c ≡ applied_deployment rolled_out) []
    ⊎ Any (λ c. c ≡ applied_deployment rolled_out) first_run.log
reconcile_exclusive_example =
    reconcile_exclusive demo-IsClock keeping (key_of chat) (key_of draft) (start keeping fresh)
      first_run chat draft (with_status chat chat.status ∷ draft ∷ [])
      (with_status chat first_run.state.status ∷ draft ∷ []) rolled_out rolled_out
      (unfold str_eq in refl) (unfold str_eq in refl) (λ h. cc) refl refl refl
      (there (here (record { same_name = refl; same_creation = refl; same_claim = refl })))
      (here (record { same_name = refl; same_creation = refl; same_claim = refl })) first_applies
      draft_keeps_log
