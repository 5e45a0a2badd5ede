-- ===== src/DeepCopy/Resources.antt =====
-- operator/api/v1alpha1/zz_generated.deepcopy.go: the copies of the structs of InferenceServiceSpec.
use bruk.Api.InferenceService.{EngineSpec}
use bruk.DeepCopy.Layout.{
  Library, WorkloadResourcesLayout, LocalVolumeSpecLayout, TrustedStoreSpecLayout,
  WeightsCacheSpecLayout, StorageSpecLayout, ProbeOverridesLayout,
}
use bruk.DeepCopy.Cells.{
  Cell, stored_engine_spec, stored_workload_resources, stored_local_volume_spec,
  stored_trusted_store_spec, stored_weights_cache_spec, stored_storage_spec, stored_probe_overrides,
  stored_int32, stored_quantity,
}
use bruk.DeepCopy.Memory.{◌>>=◌, M, Pointer, pure, copy_pointer}
use bruk.DeepCopy.Functions.{Functions}
use bruk.DeepCopy.Common.{resource_pair_into}

module _ {L : Library} (F : Functions L) where
  -- `EngineSpec.DeepCopyInto`
  unfoldable pub engine_spec_into : EngineSpec → M (Cell L) EngineSpec
  engine_spec_into this = pure this

  -- `EngineSpec.DeepCopy`
  unfoldable pub engine_spec_copy : Pointer → M (Cell L) Pointer
  engine_spec_copy = copy_pointer (stored_engine_spec L) engine_spec_into

  -- `WorkloadResources.DeepCopyInto`
  unfoldable pub workload_resources_into :
      WorkloadResourcesLayout L → M (Cell L) (WorkloadResourcesLayout L)
  workload_resources_into this = do
    memory ← resource_pair_into F this.memory
    cpu ← resource_pair_into F this.cpu
    pure (record this { memory = memory; cpu = cpu })

  -- `WorkloadResources.DeepCopy`
  unfoldable pub workload_resources_copy : Pointer → M (Cell L) Pointer
  workload_resources_copy = copy_pointer (stored_workload_resources L) workload_resources_into

  -- `LocalVolumeSpec.DeepCopyInto`
  unfoldable pub local_volume_spec_into :
      LocalVolumeSpecLayout L → M (Cell L) (LocalVolumeSpecLayout L)
  local_volume_spec_into this = do
    size ← F.quantity_into this.size
    pure (record this { size = size })

  -- `LocalVolumeSpec.DeepCopy`
  unfoldable pub local_volume_spec_copy : Pointer → M (Cell L) Pointer
  local_volume_spec_copy = copy_pointer (stored_local_volume_spec L) local_volume_spec_into

  -- `TrustedStoreSpec.DeepCopyInto`
  unfoldable pub trusted_store_spec_into :
      TrustedStoreSpecLayout → M (Cell L) TrustedStoreSpecLayout
  trusted_store_spec_into this = do
    local_volume ←
        copy_pointer (stored_local_volume_spec L) local_volume_spec_into this.local_volume
    pure (record this { local_volume = local_volume })

  -- `TrustedStoreSpec.DeepCopy`
  unfoldable pub trusted_store_spec_copy : Pointer → M (Cell L) Pointer
  trusted_store_spec_copy = copy_pointer (stored_trusted_store_spec L) trusted_store_spec_into

  -- `WeightsCacheSpec.DeepCopyInto`
  unfoldable pub weights_cache_spec_into :
      WeightsCacheSpecLayout → M (Cell L) WeightsCacheSpecLayout
  weights_cache_spec_into this = do
    size_limit ← copy_pointer (stored_quantity L) F.quantity_into this.size_limit
    pure (record this { size_limit = size_limit })

  -- `WeightsCacheSpec.DeepCopy`
  unfoldable pub weights_cache_spec_copy : Pointer → M (Cell L) Pointer
  weights_cache_spec_copy = copy_pointer (stored_weights_cache_spec L) weights_cache_spec_into

  -- `StorageSpec.DeepCopyInto`
  unfoldable pub storage_spec_into : StorageSpecLayout → M (Cell L) StorageSpecLayout
  storage_spec_into this = do
    trusted_store ← trusted_store_spec_into this.trusted_store
    weights_cache ←
        copy_pointer (stored_weights_cache_spec L) weights_cache_spec_into this.weights_cache
    pure (record this { trusted_store = trusted_store; weights_cache = weights_cache })

  -- `StorageSpec.DeepCopy`
  unfoldable pub storage_spec_copy : Pointer → M (Cell L) Pointer
  storage_spec_copy = copy_pointer (stored_storage_spec L) storage_spec_into

  -- `ProbeOverrides.DeepCopyInto`
  unfoldable pub probe_overrides_into : ProbeOverridesLayout → M (Cell L) ProbeOverridesLayout
  probe_overrides_into this = do
    readiness_failure_threshold ←
        copy_pointer (stored_int32 L) pure this.readiness_failure_threshold
    pure (record this { readiness_failure_threshold = readiness_failure_threshold })

  -- `ProbeOverrides.DeepCopy`
  unfoldable pub probe_overrides_copy : Pointer → M (Cell L) Pointer
  probe_overrides_copy = copy_pointer (stored_probe_overrides L) probe_overrides_into
