-- ===== src/DeepCopy/See/Service.antt =====
-- What the structs in memory denote: the values of Api, for InferenceService.
use bruk.Prelude.{List, Option, some}
use bruk.Platform.{Platform}
use bruk.Api.InferenceService.{
  WorkloadResources, LocalVolumeSpec, TrustedStoreSpec, WeightsCacheSpec, StorageSpec,
  ProbeOverrides, InferenceServiceSpec, InferenceServiceStatus, InferenceService,
  InferenceServiceList,
}
use bruk.DeepCopy.Layout.{
  Library, WorkloadResourcesLayout, LocalVolumeSpecLayout, TrustedStoreSpecLayout,
  WeightsCacheSpecLayout, StorageSpecLayout, ProbeOverridesLayout, InferenceServiceSpecLayout,
  InferenceServiceStatusLayout, InferenceServiceLayout, InferenceServiceListLayout,
}
use bruk.DeepCopy.Cells.{
  Cell, stored_endpoint_status, stored_local_volume_spec, stored_weights_cache_spec,
  stored_probe_overrides, stored_int32, stored_quantity, stored_conditions,
  stored_inference_services,
}
use bruk.DeepCopy.Memory.Deep.{◌>>=◌, see_pointer, see_each, see_plain, elements}
use bruk.DeepCopy.Functions.{Sight}
use bruk.DeepCopy.See.Model.{see_resource_pair}

module _ {L : Library} {K : Platform} (S : Sight L K) where
  unfoldable pub see_workload_resources :
      List (Cell L) → WorkloadResourcesLayout L → Option (WorkloadResources K)
  see_workload_resources h this = do
    memory ← see_resource_pair S h this.memory
    cpu ← see_resource_pair S h this.cpu
    some (record { gpus = this.gpus; memory = memory; cpu = cpu })

  unfoldable pub see_local_volume_spec :
      List (Cell L) → LocalVolumeSpecLayout L → Option (LocalVolumeSpec K)
  see_local_volume_spec h this = do
    size ← S.see_quantity h this.size
    some (record { lv_name = this.lv_name; size = size })

  unfoldable pub see_trusted_store_spec :
      List (Cell L) → TrustedStoreSpecLayout → Option (TrustedStoreSpec K)
  see_trusted_store_spec h this = do
    local_volume ←
        see_pointer (stored_local_volume_spec L) see_local_volume_spec h this.local_volume
    some (record { existing_claim = this.existing_claim; local_volume = local_volume })

  unfoldable pub see_weights_cache_spec :
      List (Cell L) → WeightsCacheSpecLayout → Option (WeightsCacheSpec K)
  see_weights_cache_spec h this = do
    size_limit ← see_pointer (stored_quantity L) S.see_quantity h this.size_limit
    some (record { size_limit = size_limit })

  unfoldable pub see_storage_spec : List (Cell L) → StorageSpecLayout → Option (StorageSpec K)
  see_storage_spec h this = do
    trusted_store ← see_trusted_store_spec h this.trusted_store
    weights_cache ←
        see_pointer (stored_weights_cache_spec L) see_weights_cache_spec h this.weights_cache
    some (record { trusted_store = trusted_store; weights_cache = weights_cache })

  unfoldable pub see_probe_overrides : List (Cell L) → ProbeOverridesLayout → Option ProbeOverrides
  see_probe_overrides h this = do
    readiness_failure_threshold ←
        see_pointer (stored_int32 L) see_plain h this.readiness_failure_threshold
    some (record { readiness_failure_threshold = readiness_failure_threshold })

  unfoldable pub see_inference_service_spec :
      List (Cell L) → InferenceServiceSpecLayout L → Option (InferenceServiceSpec K)
  see_inference_service_spec h this = do
    resources ← see_workload_resources h this.resources
    storage ← see_storage_spec h this.storage
    probes ← see_pointer (stored_probe_overrides L) see_probe_overrides h this.probes
    some (record {
      model_ref = this.model_ref;
      engine = this.engine;
      resources = resources;
      storage = storage;
      probes = probes;
    })

  unfoldable pub see_inference_service_status :
      List (Cell L) → InferenceServiceStatusLayout → Option InferenceServiceStatus
  see_inference_service_status h this = do
    conditions ←
        (see_pointer (stored_conditions L) (see_each S.see_condition) h this.conditions >>= λ o.
        some (elements o))
    endpoint ← see_pointer (stored_endpoint_status L) see_plain h this.endpoint
    some (record {
      observed_generation = this.observed_generation;
      conditions = conditions;
      endpoint = endpoint;
      served_model_name = this.served_model_name;
      resolved_image = this.resolved_image;
      applied_init_data_hash = this.applied_init_data_hash;
    })

  unfoldable pub see_inference_service :
      List (Cell L) → InferenceServiceLayout L → Option (InferenceService K)
  see_inference_service h this = do
    metadata ← S.see_object_meta h this.metadata
    spec ← see_inference_service_spec h this.spec
    status ← see_inference_service_status h this.status
    some (record { type_meta = this.type_meta; metadata = metadata; spec = spec; status = status })

  unfoldable pub see_inference_service_list :
      List (Cell L) → InferenceServiceListLayout L → Option (InferenceServiceList K)
  see_inference_service_list h this = do
    metadata ← S.see_list_meta h this.metadata
    items ←
        (see_pointer (stored_inference_services L) (see_each see_inference_service) h this.items
          >>= λ o. some (elements o))
    some (record { type_meta = this.type_meta; metadata = metadata; items = items })
