-- ===== src/Controller/Inference.antt =====
-- `InferenceServiceReconciler.Reconcile` of
-- operator/internal/controller/inferenceservice_controller.go: one function for each stretch between
-- two calls of the API server. The `ctrl.Result` is always the empty one and is left out.
pub mod Requeue
pub mod Rollouts
pub mod Steps
pub mod Trace
pub mod Safety
pub mod Failure
pub mod Writes
pub mod Order
pub mod Exclusive
pub mod Exclusion
pub mod Again
pub mod Rerun
pub mod Serving
pub mod Pinned
use bruk.Prelude.{
  String, ◌<>◌, Bool, true, false, not, List, Option, none, some, str_eq, if◌then◌else◌,
}
use bruk.Prelude.Int.{ℤ, ltb_ℤ}
use bruk.Fmt.{format_d}
use bruk.Result.{Error, Result, ok, err, wrapped, is_not_found, error_text}
use bruk.Platform.{Platform}
use bruk.Kube.Meta.{NamespacedName}
use bruk.Kube.Workload.{Deployment, Service, ConfigMap}
use bruk.Api.BrukModel.{BrukModel}
use bruk.Api.BrukTenant.{BrukTenant, bruk_tenant_name}
use bruk.Api.InferenceService.{InferenceService}
use bruk.Api.InferenceService.Names.{
  reason_model_not_found, reason_tenant_config_missing, reason_trusted_store_conflict,
  reason_invalid_config, reason_not_implemented,
}
use bruk.Render.{Config, deployment, service, gai_config_map, has_value}
use bruk.Client.{
  Client, M, pure, call, ◌>>=◌, got_inference_service, got_bruk_tenant, got_bruk_model,
  applied_config_map, applied_deployment, applied_service, updated_inference_service_status,
}
use bruk.Controller.Conflict.{trusted_store_conflict}
use bruk.Controller.Status.{failed_status, ready_status}

-- `client.IgnoreNotFound`
abbrev pub ignore_not_found : Error → Result (Unit {0})
ignore_not_found e = if is_not_found e then ok tt else err e

module _ (K : Platform) where
  -- The TypeMeta that the reconciler sets before an apply.
  abbrev pub typed_deployment : Deployment K → Deployment K
  typed_deployment d = record d {
    type_meta = record { api_version = "apps/v1"; kind = "Deployment" };
  }

  abbrev pub typed_service : Service K → Service K
  typed_service s = record s { type_meta = record { api_version = "v1"; kind = "Service" } }

  abbrev pub typed_config_map : ConfigMap K → ConfigMap K
  typed_config_map c = record c { type_meta = record { api_version = "v1"; kind = "ConfigMap" } }

  -- `controllerutil.SetControllerReference` for a Deployment and for a Service.
  abbrev pub own_deployment : InferenceService K → Deployment K → Result (Deployment K)
  own_deployment isvc d =
      elim (K.set_controller_reference isvc.metadata.name isvc.metadata.namespace isvc.metadata.uid
        d.metadata.namespace d.metadata.owner_references) [
          | err e ↦ err e
          | ok refs ↦ ok (record d { metadata = record (d.metadata) { owner_references = refs } })
        ]

  abbrev pub own_service : InferenceService K → Service K → Result (Service K)
  own_service isvc s =
      elim (K.set_controller_reference isvc.metadata.name isvc.metadata.namespace isvc.metadata.uid
        s.metadata.namespace s.metadata.owner_references) [
          | err e ↦ err e
          | ok refs ↦ ok (record s { metadata = record (s.metadata) { owner_references = refs } })
        ]

  abbrev pub config_of : BrukTenant K → Config
  config_of tenant = record {
    init_data_b64 = tenant.spec.confidential.init_data_b64;
    default_image = tenant.spec.engine.default_image;
  }

-- The keys that a run reads.
abbrev pub tenant_key : NamespacedName
tenant_key = record { name = bruk_tenant_name; namespace = "" }

abbrev pub model_key : {K : Platform} → InferenceService K → NamespacedName
model_key isvc = record { name = isvc.spec.model_ref.name; namespace = isvc.metadata.namespace }

module _ {K : Platform} (C : Client K) where
  -- `failConfigured`
  pub fail_configured : InferenceService K → String → String → M C (Result (Unit {0}))
  fail_configured isvc reason message =
      let failed = failed_status K isvc reason message in
      call (updated_inference_service_status failed) (C.update_inference_service_status failed)

  -- `updateReadyStatus`
  pub update_ready_status :
      InferenceService K → BrukModel K → Deployment K → Config → M C (Result (Unit {0}))
  update_ready_status isvc model d cfg =
      let ready = ready_status K isvc model d cfg in
      call (updated_inference_service_status ready) (C.update_inference_service_status ready)

  service_applied :
      InferenceService K
      → BrukModel K
      → Config
      → Deployment K
      → Result (Service K)
      → M C (Result (Unit {0}))
  unfolding update_ready_status
  service_applied isvc model cfg d (err e) = pure (err (wrapped "applying Service: " e))
  service_applied isvc model cfg d (ok s) = update_ready_status isvc model d cfg

  service_owned :
      InferenceService K
      → BrukModel K
      → Config
      → Deployment K
      → Result (Service K)
      → M C (Result (Unit {0}))
  unfolding service_applied
  service_owned isvc model cfg d (err e) = pure (err e)
  service_owned isvc model cfg d (ok s) = do
    r ← call (applied_service s) (C.apply_service s)
    service_applied isvc model cfg d r

  -- The applied Deployment is the server's, which carries its status.
  deployment_applied :
      InferenceService K → BrukModel K → Config → Result (Deployment K) → M C (Result (Unit {0}))
  unfolding service_owned
  deployment_applied isvc model cfg (err e) = pure (err (wrapped "applying Deployment: " e))
  deployment_applied isvc model cfg (ok d) =
      service_owned isvc model cfg d (own_service K isvc (typed_service K (service K isvc)))

  deployment_owned :
      InferenceService K → BrukModel K → Config → Result (Deployment K) → M C (Result (Unit {0}))
  unfolding deployment_applied
  deployment_owned isvc model cfg (err e) = pure (err e)
  deployment_owned isvc model cfg (ok d) = do
    r ← call (applied_deployment d) (C.apply_deployment d)
    deployment_applied isvc model cfg r

  deployment_rendered :
      InferenceService K → BrukModel K → Config → Result (Deployment K) → M C (Result (Unit {0}))
  unfolding deployment_owned fail_configured
  deployment_rendered isvc model cfg (err e) =
      fail_configured isvc reason_invalid_config (error_text e)
  deployment_rendered isvc model cfg (ok d) =
      deployment_owned isvc model cfg (own_deployment K isvc (typed_deployment K d))

  config_map_applied :
      InferenceService K → BrukModel K → Config → Result (ConfigMap K) → M C (Result (Unit {0}))
  unfolding deployment_rendered
  config_map_applied isvc model cfg (err e) = pure (err (wrapped "applying gai ConfigMap: " e))
  config_map_applied isvc model cfg (ok c) =
      deployment_rendered isvc model cfg (deployment K isvc model cfg)

  -- From the `cfg` on: the shared ConfigMap for a weights cache, then the workload.
  pub apply_workload : InferenceService K → BrukModel K → Config → Bool → M C (Result (Unit {0}))
  unfolding config_map_applied deployment_rendered
  apply_workload isvc model cfg false =
      deployment_rendered isvc model cfg (deployment K isvc model cfg)
  apply_workload isvc model cfg true =
      let config_map = typed_config_map K (gai_config_map K isvc.metadata.namespace) in
      do
        r ← call (applied_config_map config_map) (C.apply_config_map config_map)
        config_map_applied isvc model cfg r

  conflict_checked :
      InferenceService K → BrukTenant K → BrukModel K → Result String → M C (Result (Unit {0}))
  unfolding apply_workload fail_configured
  conflict_checked isvc tenant model (err e) = pure (err e)
  conflict_checked isvc tenant model (ok message) =
      if str_eq message ""
      then apply_workload isvc model (config_of K tenant)
          (has_value isvc.spec.storage.weights_cache)
      else fail_configured isvc reason_trusted_store_conflict message

  -- The checks of the specs, before the trusted store is looked at.
  unfoldable pub spec_checked :
      InferenceService K → BrukTenant K → BrukModel K → M C (Result (Unit {0}))
  unfolding conflict_checked fail_configured
  spec_checked isvc tenant model =
      if has_value isvc.spec.storage.trusted_store.local_volume
      then fail_configured isvc reason_not_implemented
          "storage.trustedStore.localVolume is reserved; use existingClaim in v1alpha1"
      else if not (has_value model.spec.source.hugging_face)
      then fail_configured isvc reason_invalid_config
          ("BrukModel " <> K.quote model.metadata.name <> " has no huggingFace source")
      else if ltb_ℤ model.spec.catalog.context_length isvc.spec.engine.max_model_len
      then fail_configured isvc reason_invalid_config (
          "engine.maxModelLen "
          <> format_d isvc.spec.engine.max_model_len
          <> " exceeds the model's native contextLength "
          <> format_d model.spec.catalog.context_length)
      else do verdict ← trusted_store_conflict C isvc; conflict_checked isvc tenant model verdict

  model_fetched : InferenceService K → BrukTenant K → Result (BrukModel K) → M C (Result (Unit {0}))
  unfolding spec_checked fail_configured
  model_fetched isvc tenant (ok model) = spec_checked isvc tenant model
  model_fetched isvc tenant (err e) =
      if is_not_found e
      then fail_configured isvc reason_model_not_found (
          "BrukModel "
          <> K.quote isvc.spec.model_ref.name
          <> " not found in namespace "
          <> isvc.metadata.namespace)
      else pure (err e)

  tenant_fetched : InferenceService K → Result (BrukTenant K) → M C (Result (Unit {0}))
  unfolding model_fetched fail_configured
  tenant_fetched isvc (err e) =
      if is_not_found e
      then fail_configured isvc reason_tenant_config_missing
          "BrukTenant 'cluster' not found; per-cluster config (initdata, default image) unavailable"
      else pure (err e)
  tenant_fetched isvc (ok tenant) = do
    r ← call (got_bruk_model (model_key isvc)) (C.get_bruk_model (model_key isvc))
    model_fetched isvc tenant r

  service_fetched : Result (InferenceService K) → M C (Result (Unit {0}))
  unfolding tenant_fetched
  service_fetched (err e) = pure (ignore_not_found e)
  service_fetched (ok isvc) = do
    r ← call (got_bruk_tenant tenant_key) (C.get_bruk_tenant tenant_key)
    tenant_fetched isvc r

  -- `Reconcile`
  unfoldable pub reconcile : NamespacedName → M C (Result (Unit {0}))
  unfolding service_fetched
  reconcile request = do
    r ← call (got_inference_service request) (C.get_inference_service request)
    service_fetched r
