-- ===== src/DeepCopy/Service.antt =====
-- operator/api/v1alpha1/zz_generated.deepcopy.go: the copies of InferenceService and its structs.
use bruk.Prelude.{Option}
use bruk.DeepCopy.Layout.{
  Library, InferenceServiceSpecLayout, InferenceServiceStatusLayout, InferenceServiceLayout,
  InferenceServiceListLayout,
}
use bruk.DeepCopy.Cells.{
  Cell, stored_endpoint_status, stored_probe_overrides, stored_inference_service_spec,
  stored_inference_service_status, stored_inference_service, stored_inference_service_list,
  stored_conditions, stored_inference_services,
}
use bruk.DeepCopy.Memory.{◌>>=◌, M, Pointer, pure, copy_pointer, copy_each}
use bruk.DeepCopy.Functions.{Functions}
use bruk.DeepCopy.Resources.{workload_resources_into, storage_spec_into, probe_overrides_into}
use bruk.DeepCopy.Objects.{Object, object_of, a_inference_service, a_inference_service_list}

module _ {L : Library} (F : Functions L) where
  -- `InferenceServiceSpec.DeepCopyInto`
  unfoldable pub inference_service_spec_into :
      InferenceServiceSpecLayout L → M (Cell L) (InferenceServiceSpecLayout L)
  inference_service_spec_into this = do
    resources ← workload_resources_into F this.resources
    storage ← storage_spec_into F this.storage
    probes ← copy_pointer (stored_probe_overrides L) (probe_overrides_into F) this.probes
    pure (record this { resources = resources; storage = storage; probes = probes })

  -- `InferenceServiceSpec.DeepCopy`
  unfoldable pub inference_service_spec_copy : Pointer → M (Cell L) Pointer
  inference_service_spec_copy =
      copy_pointer (stored_inference_service_spec L) inference_service_spec_into

  -- `InferenceServiceStatus.DeepCopyInto`
  unfoldable pub inference_service_status_into :
      InferenceServiceStatusLayout → M (Cell L) InferenceServiceStatusLayout
  inference_service_status_into this = do
    conditions ← copy_pointer (stored_conditions L) (copy_each F.condition_into) this.conditions
    endpoint ← copy_pointer (stored_endpoint_status L) pure this.endpoint
    pure (record this { conditions = conditions; endpoint = endpoint })

  -- `InferenceServiceStatus.DeepCopy`
  unfoldable pub inference_service_status_copy : Pointer → M (Cell L) Pointer
  inference_service_status_copy =
      copy_pointer (stored_inference_service_status L) inference_service_status_into

  -- `InferenceService.DeepCopyInto`
  unfoldable pub inference_service_into :
      InferenceServiceLayout L → M (Cell L) (InferenceServiceLayout L)
  inference_service_into this = do
    metadata ← F.object_meta_into this.metadata
    spec ← inference_service_spec_into this.spec
    status ← inference_service_status_into this.status
    pure (record this { metadata = metadata; spec = spec; status = status })

  -- `InferenceService.DeepCopy`
  unfoldable pub inference_service_copy : Pointer → M (Cell L) Pointer
  inference_service_copy = copy_pointer (stored_inference_service L) inference_service_into

  -- `InferenceService.DeepCopyObject`
  unfoldable pub inference_service_object : Pointer → M (Cell L) (Option Object)
  inference_service_object = object_of a_inference_service inference_service_copy

  -- `InferenceServiceList.DeepCopyInto`
  unfoldable pub inference_service_list_into :
      InferenceServiceListLayout L → M (Cell L) (InferenceServiceListLayout L)
  inference_service_list_into this = do
    metadata ← F.list_meta_into this.metadata
    items ← copy_pointer (stored_inference_services L) (copy_each inference_service_into) this.items
    pure (record this { metadata = metadata; items = items })

  -- `InferenceServiceList.DeepCopy`
  unfoldable pub inference_service_list_copy : Pointer → M (Cell L) Pointer
  inference_service_list_copy =
      copy_pointer (stored_inference_service_list L) inference_service_list_into

  -- `InferenceServiceList.DeepCopyObject`
  unfoldable pub inference_service_list_object : Pointer → M (Cell L) (Option Object)
  inference_service_list_object = object_of a_inference_service_list inference_service_list_copy
