-- ===== src/DeepCopy/Laws/Structs.antt =====
-- The `DeepCopy` of operator/api/v1alpha1/zz_generated.deepcopy.go.
use bruk.Prelude.{List, ◌++◌, Option, some, ◌≡◌}
use bruk.Platform.{Platform}
use bruk.DeepCopy.Layout.{Library}
use bruk.DeepCopy.Cells.{
  Cell, stored_local_ref, stored_secret_key_ref, stored_endpoint_status, stored_resource_pair,
  stored_pricing_spec, stored_hugging_face_source, stored_model_source, stored_catalog_spec,
  stored_bruk_model_spec, stored_bruk_model_status, stored_bruk_model, stored_bruk_model_list,
  stored_infrastructure_config, stored_engine_defaults, stored_confidential_config,
  stored_bruk_tenant_spec, stored_bruk_tenant_status, stored_bruk_tenant, stored_bruk_tenant_list,
  stored_engine_spec, stored_workload_resources, stored_local_volume_spec,
  stored_trusted_store_spec, stored_weights_cache_spec, stored_storage_spec, stored_probe_overrides,
  stored_inference_service_spec, stored_inference_service_status, stored_inference_service,
  stored_inference_service_list,
}
use bruk.DeepCopy.Memory.{Pointer, size}
use bruk.DeepCopy.Memory.Deep.{IsDeep}
use bruk.DeepCopy.Memory.Pointers.{IsDeep-plain, IsDeep-pointer}
use bruk.DeepCopy.Functions.{Functions, Sight, IsLibrary}
use bruk.DeepCopy.Structs
use bruk.DeepCopy.Structs.{Struct, Denoted, see_struct, copy_struct}
use bruk.DeepCopy.Common.{
  local_ref_copy, local_ref_into, secret_key_ref_copy, secret_key_ref_into, endpoint_status_copy,
  endpoint_status_into, resource_pair_copy,
}
use bruk.DeepCopy.Model.{
  pricing_spec_copy, pricing_spec_into, hugging_face_source_copy, model_source_copy,
  catalog_spec_copy, bruk_model_spec_copy, bruk_model_status_copy, bruk_model_copy,
  bruk_model_list_copy,
}
use bruk.DeepCopy.Tenant.{
  infrastructure_config_copy, infrastructure_config_into, engine_defaults_copy,
  engine_defaults_into, confidential_config_copy, confidential_config_into, bruk_tenant_spec_copy,
  bruk_tenant_spec_into, bruk_tenant_status_copy, bruk_tenant_copy, bruk_tenant_list_copy,
}
use bruk.DeepCopy.Resources.{
  engine_spec_copy, engine_spec_into, workload_resources_copy, local_volume_spec_copy,
  trusted_store_spec_copy, weights_cache_spec_copy, storage_spec_copy, probe_overrides_copy,
}
use bruk.DeepCopy.Service.{
  inference_service_spec_copy, inference_service_status_copy, inference_service_copy,
  inference_service_list_copy,
}
use bruk.DeepCopy.Laws.Model.{
  resource_pair_into-IsDeep, hugging_face_source_into-IsDeep, model_source_into-IsDeep,
  catalog_spec_into-IsDeep, bruk_model_spec_into-IsDeep, bruk_model_status_into-IsDeep,
  bruk_model_into-IsDeep, bruk_model_list_into-IsDeep, bruk_tenant_status_into-IsDeep,
  bruk_tenant_into-IsDeep, bruk_tenant_list_into-IsDeep,
}
use bruk.DeepCopy.Laws.Service.{
  workload_resources_into-IsDeep, local_volume_spec_into-IsDeep, trusted_store_spec_into-IsDeep,
  weights_cache_spec_into-IsDeep, storage_spec_into-IsDeep, probe_overrides_into-IsDeep,
  inference_service_spec_into-IsDeep, inference_service_status_into-IsDeep,
  inference_service_into-IsDeep, inference_service_list_into-IsDeep,
}

module _ {L : Library} {K : Platform} {F : Functions L} {S : Sight L K} (law : IsLibrary F S) where
  pub copy_struct-IsDeep : (k : Struct) → IsDeep (see_struct L K F S k) (copy_struct L K F S k)
  unfolding local_ref_into secret_key_ref_into endpoint_status_into pricing_spec_into
      infrastructure_config_into engine_defaults_into confidential_config_into bruk_tenant_spec_into
      engine_spec_into local_ref_copy secret_key_ref_copy endpoint_status_copy resource_pair_copy
      pricing_spec_copy hugging_face_source_copy model_source_copy catalog_spec_copy
      bruk_model_spec_copy bruk_model_status_copy bruk_model_copy bruk_model_list_copy
      infrastructure_config_copy engine_defaults_copy confidential_config_copy bruk_tenant_spec_copy
      bruk_tenant_status_copy bruk_tenant_copy bruk_tenant_list_copy engine_spec_copy
      workload_resources_copy local_volume_spec_copy trusted_store_spec_copy weights_cache_spec_copy
      storage_spec_copy probe_overrides_copy inference_service_spec_copy
      inference_service_status_copy inference_service_copy inference_service_list_copy
  copy_struct-IsDeep Structs.of_local_ref =
      IsDeep-pointer (stored_local_ref L) (IsDeep-plain (λ x. x))
  copy_struct-IsDeep Structs.of_secret_key_ref =
      IsDeep-pointer (stored_secret_key_ref L) (IsDeep-plain (λ x. x))
  copy_struct-IsDeep Structs.of_endpoint_status =
      IsDeep-pointer (stored_endpoint_status L) (IsDeep-plain (λ x. x))
  copy_struct-IsDeep Structs.of_resource_pair =
      IsDeep-pointer (stored_resource_pair L) (resource_pair_into-IsDeep law)
  copy_struct-IsDeep Structs.of_pricing_spec =
      IsDeep-pointer (stored_pricing_spec L) (IsDeep-plain (λ x. x))
  copy_struct-IsDeep Structs.of_hugging_face_source =
      IsDeep-pointer (stored_hugging_face_source L) (hugging_face_source_into-IsDeep law)
  copy_struct-IsDeep Structs.of_model_source =
      IsDeep-pointer (stored_model_source L) (model_source_into-IsDeep law)
  copy_struct-IsDeep Structs.of_catalog_spec =
      IsDeep-pointer (stored_catalog_spec L) (catalog_spec_into-IsDeep law)
  copy_struct-IsDeep Structs.of_bruk_model_spec =
      IsDeep-pointer (stored_bruk_model_spec L) (bruk_model_spec_into-IsDeep law)
  copy_struct-IsDeep Structs.of_bruk_model_status =
      IsDeep-pointer (stored_bruk_model_status L) (bruk_model_status_into-IsDeep law)
  copy_struct-IsDeep Structs.of_bruk_model =
      IsDeep-pointer (stored_bruk_model L) (bruk_model_into-IsDeep law)
  copy_struct-IsDeep Structs.of_bruk_model_list =
      IsDeep-pointer (stored_bruk_model_list L) (bruk_model_list_into-IsDeep law)
  copy_struct-IsDeep Structs.of_infrastructure_config =
      IsDeep-pointer (stored_infrastructure_config L) (IsDeep-plain (λ x. x))
  copy_struct-IsDeep Structs.of_engine_defaults =
      IsDeep-pointer (stored_engine_defaults L) (IsDeep-plain (λ x. x))
  copy_struct-IsDeep Structs.of_confidential_config =
      IsDeep-pointer (stored_confidential_config L) (IsDeep-plain (λ x. x))
  copy_struct-IsDeep Structs.of_bruk_tenant_spec =
      IsDeep-pointer (stored_bruk_tenant_spec L) (IsDeep-plain (λ x. x))
  copy_struct-IsDeep Structs.of_bruk_tenant_status =
      IsDeep-pointer (stored_bruk_tenant_status L) (bruk_tenant_status_into-IsDeep law)
  copy_struct-IsDeep Structs.of_bruk_tenant =
      IsDeep-pointer (stored_bruk_tenant L) (bruk_tenant_into-IsDeep law)
  copy_struct-IsDeep Structs.of_bruk_tenant_list =
      IsDeep-pointer (stored_bruk_tenant_list L) (bruk_tenant_list_into-IsDeep law)
  copy_struct-IsDeep Structs.of_engine_spec =
      IsDeep-pointer (stored_engine_spec L) (IsDeep-plain (λ x. x))
  copy_struct-IsDeep Structs.of_workload_resources =
      IsDeep-pointer (stored_workload_resources L) (workload_resources_into-IsDeep law)
  copy_struct-IsDeep Structs.of_local_volume_spec =
      IsDeep-pointer (stored_local_volume_spec L) (local_volume_spec_into-IsDeep law)
  copy_struct-IsDeep Structs.of_trusted_store_spec =
      IsDeep-pointer (stored_trusted_store_spec L) (trusted_store_spec_into-IsDeep law)
  copy_struct-IsDeep Structs.of_weights_cache_spec =
      IsDeep-pointer (stored_weights_cache_spec L) (weights_cache_spec_into-IsDeep law)
  copy_struct-IsDeep Structs.of_storage_spec =
      IsDeep-pointer (stored_storage_spec L) (storage_spec_into-IsDeep law)
  copy_struct-IsDeep Structs.of_probe_overrides =
      IsDeep-pointer (stored_probe_overrides L) (probe_overrides_into-IsDeep law)
  copy_struct-IsDeep Structs.of_inference_service_spec =
      IsDeep-pointer (stored_inference_service_spec L) (inference_service_spec_into-IsDeep law)
  copy_struct-IsDeep Structs.of_inference_service_status =
      IsDeep-pointer (stored_inference_service_status L) (inference_service_status_into-IsDeep law)
  copy_struct-IsDeep Structs.of_inference_service =
      IsDeep-pointer (stored_inference_service L) (inference_service_into-IsDeep law)
  copy_struct-IsDeep Structs.of_inference_service_list =
      IsDeep-pointer (stored_inference_service_list L) (inference_service_list_into-IsDeep law)

  -- Every DeepCopy of the file, of a pointer that denotes a value or is nil, ends without a fault, leaves
  -- the cells that are there and adds new ones, and returns a pointer that denotes the same. The copy goes
  -- on to denote it whatever is written to the old cells, and the original whatever to the new ones; the
  -- copies that apimachinery makes of its own types are deep.
  pub copy_struct-independent :
      (k : Struct) (h g : List (Cell L)) (p : Pointer) (o : Option (Denoted L K F S k))
      → see_struct L K F S k h p ≡ some o
      → size g ≡ size h
      → (q : Pointer) × (new : List (Cell L)) × (copy_struct L K F S k p h ≡ some (q, h ++ new))
        × (see_struct L K F S k (g ++ new) q ≡ some o)
        × ((other : List (Cell L)) → see_struct L K F S k (h ++ other) p ≡ some o)
  copy_struct-independent k h g p o seen same =
      let deep = copy_struct-IsDeep k in
      let (q, new, ran, holds) = deep.copies h p o seen in
      (q, new, ran, holds g same, λ other. deep.grows h other p o seen)
