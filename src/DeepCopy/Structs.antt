-- ===== src/DeepCopy/Structs.antt =====
-- All structs that operator/api/v1alpha1/zz_generated.deepcopy.go copies, with what they denote.
use bruk.Prelude.{List, Option}
use bruk.Platform.{Platform}
use bruk.Api.Common.{LocalRef, SecretKeyRef, EndpointStatus, ResourcePair}
use bruk.Api.BrukModel.{
  PricingSpec, HuggingFaceSource, ModelSource, CatalogSpec, BrukModelSpec, BrukModelStatus,
  BrukModel, BrukModelList,
}
use bruk.Api.BrukTenant.{
  InfrastructureConfig, EngineDefaults, ConfidentialConfig, BrukTenantSpec, BrukTenantStatus,
  BrukTenant, BrukTenantList,
}
use bruk.Api.InferenceService.{
  EngineSpec, WorkloadResources, LocalVolumeSpec, TrustedStoreSpec, WeightsCacheSpec, StorageSpec,
  ProbeOverrides, InferenceServiceSpec, InferenceServiceStatus, InferenceService,
  InferenceServiceList,
}
use bruk.DeepCopy.Layout.{Library}
use bruk.DeepCopy.Cells.{
  Cell, stored_local_ref, stored_secret_key_ref, stored_endpoint_status, stored_resource_pair,
  stored_pricing_spec, stored_hugging_face_source, stored_model_source, stored_catalog_spec,
  stored_bruk_model_spec, stored_bruk_model_status, stored_bruk_model, stored_bruk_model_list,
  stored_infrastructure_config, stored_engine_defaults, stored_confidential_config,
  stored_bruk_tenant_spec, stored_bruk_tenant_status, stored_bruk_tenant, stored_bruk_tenant_list,
  stored_engine_spec, stored_workload_resources, stored_local_volume_spec,
  stored_trusted_store_spec, stored_weights_cache_spec, stored_storage_spec, stored_probe_overrides,
  stored_inference_service_spec, stored_inference_service_status, stored_inference_service,
  stored_inference_service_list,
}
use bruk.DeepCopy.Memory.{M, Pointer}
use bruk.DeepCopy.Memory.Deep.{see_pointer, see_plain}
use bruk.DeepCopy.Functions.{Functions, Sight}
use bruk.DeepCopy.Common.{
  local_ref_copy, secret_key_ref_copy, endpoint_status_copy, resource_pair_copy,
}
use bruk.DeepCopy.Model.{
  pricing_spec_copy, hugging_face_source_copy, model_source_copy, catalog_spec_copy,
  bruk_model_spec_copy, bruk_model_status_copy, bruk_model_copy, bruk_model_list_copy,
}
use bruk.DeepCopy.Tenant.{
  infrastructure_config_copy, engine_defaults_copy, confidential_config_copy, bruk_tenant_spec_copy,
  bruk_tenant_status_copy, bruk_tenant_copy, bruk_tenant_list_copy,
}
use bruk.DeepCopy.Resources.{
  engine_spec_copy, workload_resources_copy, local_volume_spec_copy, trusted_store_spec_copy,
  weights_cache_spec_copy, storage_spec_copy, probe_overrides_copy,
}
use bruk.DeepCopy.Service.{
  inference_service_spec_copy, inference_service_status_copy, inference_service_copy,
  inference_service_list_copy,
}
use bruk.DeepCopy.See.Model.{
  see_resource_pair, see_hugging_face_source, see_model_source, see_catalog_spec,
  see_bruk_model_spec, see_bruk_model_status, see_bruk_model, see_bruk_model_list,
  see_bruk_tenant_status, see_bruk_tenant, see_bruk_tenant_list,
}
use bruk.DeepCopy.See.Service.{
  see_workload_resources, see_local_volume_spec, see_trusted_store_spec, see_weights_cache_spec,
  see_storage_spec, see_probe_overrides, see_inference_service_spec, see_inference_service_status,
  see_inference_service, see_inference_service_list,
}

-- The structs that have a `DeepCopy`.
pub data Struct : Type 0 where
  of_local_ref of_secret_key_ref of_endpoint_status of_resource_pair : Struct
  of_pricing_spec of_hugging_face_source of_model_source of_catalog_spec : Struct
  of_bruk_model_spec of_bruk_model_status of_bruk_model of_bruk_model_list : Struct
  of_infrastructure_config of_engine_defaults of_confidential_config of_bruk_tenant_spec : Struct
  of_bruk_tenant_status of_bruk_tenant of_bruk_tenant_list of_engine_spec : Struct
  of_workload_resources of_local_volume_spec of_trusted_store_spec of_weights_cache_spec : Struct
  of_storage_spec of_probe_overrides of_inference_service_spec of_inference_service_status : Struct
  of_inference_service of_inference_service_list : Struct

module _ (L : Library) (K : Platform) (F : Functions L) (S : Sight L K) where
  abbrev pub Denoted : Struct → Type 0
  Denoted of_local_ref = LocalRef
  Denoted of_secret_key_ref = SecretKeyRef
  Denoted of_endpoint_status = EndpointStatus
  Denoted of_resource_pair = ResourcePair K
  Denoted of_pricing_spec = PricingSpec
  Denoted of_hugging_face_source = HuggingFaceSource
  Denoted of_model_source = ModelSource
  Denoted of_catalog_spec = CatalogSpec
  Denoted of_bruk_model_spec = BrukModelSpec
  Denoted of_bruk_model_status = BrukModelStatus
  Denoted of_bruk_model = BrukModel K
  Denoted of_bruk_model_list = BrukModelList K
  Denoted of_infrastructure_config = InfrastructureConfig
  Denoted of_engine_defaults = EngineDefaults
  Denoted of_confidential_config = ConfidentialConfig
  Denoted of_bruk_tenant_spec = BrukTenantSpec
  Denoted of_bruk_tenant_status = BrukTenantStatus
  Denoted of_bruk_tenant = BrukTenant K
  Denoted of_bruk_tenant_list = BrukTenantList K
  Denoted of_engine_spec = EngineSpec
  Denoted of_workload_resources = WorkloadResources K
  Denoted of_local_volume_spec = LocalVolumeSpec K
  Denoted of_trusted_store_spec = TrustedStoreSpec K
  Denoted of_weights_cache_spec = WeightsCacheSpec K
  Denoted of_storage_spec = StorageSpec K
  Denoted of_probe_overrides = ProbeOverrides
  Denoted of_inference_service_spec = InferenceServiceSpec K
  Denoted of_inference_service_status = InferenceServiceStatus
  Denoted of_inference_service = InferenceService K
  Denoted of_inference_service_list = InferenceServiceList K

  abbrev pub see_struct : (k : Struct) → List (Cell L) → Pointer → Option (Option (Denoted k))
  see_struct of_local_ref = see_pointer (stored_local_ref L) see_plain
  see_struct of_secret_key_ref = see_pointer (stored_secret_key_ref L) see_plain
  see_struct of_endpoint_status = see_pointer (stored_endpoint_status L) see_plain
  see_struct of_resource_pair = see_pointer (stored_resource_pair L) (see_resource_pair S)
  see_struct of_pricing_spec = see_pointer (stored_pricing_spec L) see_plain
  see_struct of_hugging_face_source =
      see_pointer (stored_hugging_face_source L) (see_hugging_face_source S)
  see_struct of_model_source = see_pointer (stored_model_source L) (see_model_source S)
  see_struct of_catalog_spec = see_pointer (stored_catalog_spec L) (see_catalog_spec S)
  see_struct of_bruk_model_spec = see_pointer (stored_bruk_model_spec L) (see_bruk_model_spec S)
  see_struct of_bruk_model_status =
      see_pointer (stored_bruk_model_status L) (see_bruk_model_status S)
  see_struct of_bruk_model = see_pointer (stored_bruk_model L) (see_bruk_model S)
  see_struct of_bruk_model_list = see_pointer (stored_bruk_model_list L) (see_bruk_model_list S)
  see_struct of_infrastructure_config = see_pointer (stored_infrastructure_config L) see_plain
  see_struct of_engine_defaults = see_pointer (stored_engine_defaults L) see_plain
  see_struct of_confidential_config = see_pointer (stored_confidential_config L) see_plain
  see_struct of_bruk_tenant_spec = see_pointer (stored_bruk_tenant_spec L) see_plain
  see_struct of_bruk_tenant_status =
      see_pointer (stored_bruk_tenant_status L) (see_bruk_tenant_status S)
  see_struct of_bruk_tenant = see_pointer (stored_bruk_tenant L) (see_bruk_tenant S)
  see_struct of_bruk_tenant_list = see_pointer (stored_bruk_tenant_list L) (see_bruk_tenant_list S)
  see_struct of_engine_spec = see_pointer (stored_engine_spec L) see_plain
  see_struct of_workload_resources =
      see_pointer (stored_workload_resources L) (see_workload_resources S)
  see_struct of_local_volume_spec =
      see_pointer (stored_local_volume_spec L) (see_local_volume_spec S)
  see_struct of_trusted_store_spec =
      see_pointer (stored_trusted_store_spec L) (see_trusted_store_spec S)
  see_struct of_weights_cache_spec =
      see_pointer (stored_weights_cache_spec L) (see_weights_cache_spec S)
  see_struct of_storage_spec = see_pointer (stored_storage_spec L) (see_storage_spec S)
  see_struct of_probe_overrides = see_pointer (stored_probe_overrides L) (see_probe_overrides S)
  see_struct of_inference_service_spec =
      see_pointer (stored_inference_service_spec L) (see_inference_service_spec S)
  see_struct of_inference_service_status =
      see_pointer (stored_inference_service_status L) (see_inference_service_status S)
  see_struct of_inference_service =
      see_pointer (stored_inference_service L) (see_inference_service S)
  see_struct of_inference_service_list =
      see_pointer (stored_inference_service_list L) (see_inference_service_list S)

  -- The `DeepCopy` of each.
  abbrev pub copy_struct : Struct → Pointer → M (Cell L) Pointer
  copy_struct of_local_ref = local_ref_copy F
  copy_struct of_secret_key_ref = secret_key_ref_copy F
  copy_struct of_endpoint_status = endpoint_status_copy F
  copy_struct of_resource_pair = resource_pair_copy F
  copy_struct of_pricing_spec = pricing_spec_copy F
  copy_struct of_hugging_face_source = hugging_face_source_copy F
  copy_struct of_model_source = model_source_copy F
  copy_struct of_catalog_spec = catalog_spec_copy F
  copy_struct of_bruk_model_spec = bruk_model_spec_copy F
  copy_struct of_bruk_model_status = bruk_model_status_copy F
  copy_struct of_bruk_model = bruk_model_copy F
  copy_struct of_bruk_model_list = bruk_model_list_copy F
  copy_struct of_infrastructure_config = infrastructure_config_copy F
  copy_struct of_engine_defaults = engine_defaults_copy F
  copy_struct of_confidential_config = confidential_config_copy F
  copy_struct of_bruk_tenant_spec = bruk_tenant_spec_copy F
  copy_struct of_bruk_tenant_status = bruk_tenant_status_copy F
  copy_struct of_bruk_tenant = bruk_tenant_copy F
  copy_struct of_bruk_tenant_list = bruk_tenant_list_copy F
  copy_struct of_engine_spec = engine_spec_copy F
  copy_struct of_workload_resources = workload_resources_copy F
  copy_struct of_local_volume_spec = local_volume_spec_copy F
  copy_struct of_trusted_store_spec = trusted_store_spec_copy F
  copy_struct of_weights_cache_spec = weights_cache_spec_copy F
  copy_struct of_storage_spec = storage_spec_copy F
  copy_struct of_probe_overrides = probe_overrides_copy F
  copy_struct of_inference_service_spec = inference_service_spec_copy F
  copy_struct of_inference_service_status = inference_service_status_copy F
  copy_struct of_inference_service = inference_service_copy F
  copy_struct of_inference_service_list = inference_service_list_copy F
