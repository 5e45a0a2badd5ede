-- ===== src/Controller/Hashes.antt =====
-- The hash of the initdata blob that `Reconcile` of
-- operator/internal/controller/inferenceservice_controller.go publishes, beside the one of `Reconcile` of
-- operator/internal/controller/bruktenant_controller.go.
use bruk.Prelude.{String, List, ◌∷◌, ◌≡◌, sym, ◌∙◌, ap}
use bruk.Result.{Result, ok, error_text}
use bruk.Platform.{Platform}
use bruk.Kube.Meta.{NamespacedName}
use bruk.Kube.Workload.{Deployment}
use bruk.Kube.Condition.{condition_true, condition_false}
use bruk.Api.BrukModel.{BrukModel}
use bruk.Api.BrukTenant.{BrukTenant}
use bruk.Api.InferenceService.{InferenceService}
use bruk.Api.InferenceService.Names.{condition_configured, reason_invalid_config}
use bruk.Render.{Config, init_data_hash}
use bruk.Client.{Client, World, Call, updated_inference_service_status, updated_bruk_tenant_status}
use bruk.Controller.Status.{failed_status, ready_status}
use bruk.Controller.Status.Honest.{KeepsConditions, shows, failed_status-IsHonest}
use bruk.Controller.Inference.{reconcile, tenant_key}
use bruk.Controller.Inference.Trace.{
  Rollout, map_refused, unrendered, unowned, deployment_refused, front_unowned, front_refused,
  rolled_out, Run, unfetched, unread, rejected, cleared, state_1,
}
use bruk.Controller.Inference.Steps.{reconcile-Run}
use bruk.Controller.Tenant.{reconcile_tenant}
use bruk.Controller.Tenant.Laws.{reconcile_tenant-IsValidated}

module _ {K : Platform} (law : KeepsConditions K) (i : InferenceService K) (rest : List (Call K))
    (configured : shows i condition_configured ≡ condition_true) where
  not_failed :
      {A : Type 0} (isvc : InferenceService K) (reason message : String)
      → failed_status K isvc reason message ≡ i
      → A
  not_failed isvc reason message same =
      let (honest, refused, progress, available) = failed_status-IsHonest law isvc reason message in
      let no : condition_false ≡ condition_true =
        sym refused ∙ ap (λ x. shows x condition_configured) same ∙ configured in
      absurd cc

  ready_status-hash :
      (isvc : InferenceService K) (model : BrukModel K) (d : Deployment K) (cfg : Config)
      → ready_status K isvc model d cfg ≡ i
      → i.status.applied_init_data_hash ≡ init_data_hash K cfg.init_data_b64
  unfolding ready_status
  ready_status-hash isvc model d cfg same =
      sym (ap (λ (x : InferenceService K). x.status.applied_init_data_hash) same)

  Rollout-hash :
      {C : Client K} {isvc : InferenceService K} {model : BrukModel K} {cfg : Config}
      {before log : List (Call K)} {r : Result (Unit {0})}
      → Rollout C isvc model cfg before r log
      → r ≡ ok tt
      → log ≡ updated_inference_service_status i ∷ rest
      → i.status.applied_init_data_hash ≡ init_data_hash K cfg.init_data_b64
  Rollout-hash (map_refused e cache set) h log = cc
  Rollout-hash {isvc} (unrendered e r render) h log =
      not_failed isvc reason_invalid_config (error_text e) cc
  Rollout-hash (unowned e) h log = cc
  Rollout-hash (deployment_refused e d work) h log = cc
  Rollout-hash (front_unowned e d work) h log = cc
  Rollout-hash (front_refused e d s work front) h log = cc
  Rollout-hash {isvc} {model} {cfg} (rolled_out r d answer s work answered front) h log =
      ready_status-hash isvc model answer cfg cc

  Run-hash :
      {C : Client K} {request : NamespacedName} {w : World C} {tenant : BrukTenant K}
      {r : Result (Unit {0})} {log : List (Call K)}
      → Run C request w r log
      → (C.get_bruk_tenant tenant_key (state_1 C request w)).0 ≡ ok tenant
      → r ≡ ok tt
      → log ≡ updated_inference_service_status i ∷ rest
      → i.status.applied_init_data_hash ≡ init_data_hash K tenant.spec.confidential.init_data_b64
  Run-hash (unfetched e failed) got h log = cc
  Run-hash (unread e l reads) got h log = cc
  Run-hash (rejected isvc reason message r l fetched refusal reads) got h log =
      not_failed isvc reason message cc
  Run-hash {tenant = tenant} (cleared isvc tenant' model r before l pass reads rollout) got h log =
      let read = pass.tenant_fetched in
      let same : tenant' ≡ tenant = cc in
      Rollout-hash rollout h log
      ∙ ap (λ (t : BrukTenant K). init_data_hash K t.spec.confidential.init_data_b64) same

-- The two reconcilers publish one hash. If a run for a service succeeds with the status i, which has
-- Configured True, and a run for the tenant writes a status, and both have read the same tenant, then
-- the applied hash of the service is the applied hash of the tenant, whether its blob is valid or not;
-- SetStatusCondition replaces or adds the condition of its type and leaves the others.
pub hashes_agree :
    {K : Platform} {C : Client K}
    → KeepsConditions K
    → (request : NamespacedName) (w v : World C) (tenant written : BrukTenant K)
      (i : InferenceService K) (rest rest' : List (Call K))
    → (C.get_bruk_tenant tenant_key (state_1 C request w)).0 ≡ ok tenant
    → (C.get_bruk_tenant tenant_key v.state).0 ≡ ok tenant
    → (reconcile C request w).0 ≡ ok tt
    → (reconcile C request w).1.log ≡ updated_inference_service_status i ∷ rest
    → shows i condition_configured ≡ condition_true
    → (reconcile_tenant C tenant_key v).1.log ≡ updated_bruk_tenant_status written ∷ rest'
    → i.status.applied_init_data_hash ≡ written.status.applied_init_data_hash
hashes_agree {K} {C} law request w v tenant written i rest rest' got got' done log configured log' =
    let (out, run, valid) = reconcile_tenant-IsValidated law C tenant_key v tenant got' in
    let same : out ≡ written = cc in
    Run-hash law i rest configured (reconcile-Run C request w) got done log
    ∙ sym valid.hash
    ∙ ap (λ (t : BrukTenant K). t.status.applied_init_data_hash) same
