-- ===== src/DeepCopy/Cells.antt =====
-- The cells of the memory, one kind for each type that is allocated on its own.
use bruk.Prelude.{String, List, Option, none, some, ◌≡◌, refl}
use bruk.Prelude.Int.{ℤ}
use bruk.Api.Common.{LocalRef, SecretKeyRef, EndpointStatus}
use bruk.Api.BrukModel.{PricingSpec}
use bruk.Api.BrukTenant.{InfrastructureConfig, EngineDefaults, ConfidentialConfig, BrukTenantSpec}
use bruk.Api.InferenceService.{EngineSpec}
use bruk.DeepCopy.Layout.{
  Library, ResourcePairLayout, HuggingFaceSourceLayout, ModelSourceLayout, CatalogSpecLayout,
  BrukModelSpecLayout, BrukModelStatusLayout, BrukModelLayout, BrukModelListLayout,
  BrukTenantStatusLayout, BrukTenantLayout, BrukTenantListLayout, WorkloadResourcesLayout,
  LocalVolumeSpecLayout, TrustedStoreSpecLayout, WeightsCacheSpecLayout, StorageSpecLayout,
  ProbeOverridesLayout, InferenceServiceSpecLayout, InferenceServiceStatusLayout,
  InferenceServiceLayout, InferenceServiceListLayout,
}
use bruk.DeepCopy.Memory.{Stored}

module _ (L : Library) where
  pub data Cell : Type 0 where
    local_ref_cell : LocalRef → Cell
    secret_key_ref_cell : SecretKeyRef → Cell
    endpoint_status_cell : EndpointStatus → Cell
    resource_pair_cell : ResourcePairLayout L → Cell
    pricing_spec_cell : PricingSpec → Cell
    hugging_face_source_cell : HuggingFaceSourceLayout → Cell
    model_source_cell : ModelSourceLayout → Cell
    catalog_spec_cell : CatalogSpecLayout → Cell
    bruk_model_spec_cell : BrukModelSpecLayout → Cell
    bruk_model_status_cell : BrukModelStatusLayout → Cell
    bruk_model_cell : BrukModelLayout L → Cell
    bruk_model_list_cell : BrukModelListLayout L → Cell
    infrastructure_config_cell : InfrastructureConfig → Cell
    engine_defaults_cell : EngineDefaults → Cell
    confidential_config_cell : ConfidentialConfig → Cell
    bruk_tenant_spec_cell : BrukTenantSpec → Cell
    bruk_tenant_status_cell : BrukTenantStatusLayout → Cell
    bruk_tenant_cell : BrukTenantLayout L → Cell
    bruk_tenant_list_cell : BrukTenantListLayout L → Cell
    engine_spec_cell : EngineSpec → Cell
    workload_resources_cell : WorkloadResourcesLayout L → Cell
    local_volume_spec_cell : LocalVolumeSpecLayout L → Cell
    trusted_store_spec_cell : TrustedStoreSpecLayout → Cell
    weights_cache_spec_cell : WeightsCacheSpecLayout → Cell
    storage_spec_cell : StorageSpecLayout → Cell
    probe_overrides_cell : ProbeOverridesLayout → Cell
    inference_service_spec_cell : InferenceServiceSpecLayout L → Cell
    inference_service_status_cell : InferenceServiceStatusLayout → Cell
    inference_service_cell : InferenceServiceLayout L → Cell
    inference_service_list_cell : InferenceServiceListLayout L → Cell
    int32_cell : ℤ → Cell
    quantity_cell : L.Quantity → Cell
    texts_cell : List String → Cell
    conditions_cell : List L.Condition → Cell
    bruk_models_cell : List (BrukModelLayout L) → Cell
    bruk_tenants_cell : List (BrukTenantLayout L) → Cell
    inference_services_cell : List (InferenceServiceLayout L) → Cell
    word_cell : L.Word → Cell

  abbrev stored :
      {T : Type 0} (put : T → Cell) (take : Cell → Option T)
      → ((x : T) → take (put x) ≡ some x)
      → Stored Cell T
  stored put take law = record { put = put; take = take; take-put = law }

  abbrev pub stored_local_ref : Stored Cell LocalRef
  stored_local_ref =
      stored local_ref_cell (λ c. elim c [ local_ref_cell x ↦ some x | _ ↦ none ]) (λ x. refl)

  abbrev pub stored_secret_key_ref : Stored Cell SecretKeyRef
  stored_secret_key_ref =
      stored secret_key_ref_cell (λ c. elim c [ secret_key_ref_cell x ↦ some x | _ ↦ none ])
        (λ x. refl)

  abbrev pub stored_endpoint_status : Stored Cell EndpointStatus
  stored_endpoint_status =
      stored endpoint_status_cell (λ c. elim c [ endpoint_status_cell x ↦ some x | _ ↦ none ])
        (λ x. refl)

  abbrev pub stored_resource_pair : Stored Cell (ResourcePairLayout L)
  stored_resource_pair =
      stored resource_pair_cell (λ c. elim c [ resource_pair_cell x ↦ some x | _ ↦ none ])
        (λ x. refl)

  abbrev pub stored_pricing_spec : Stored Cell PricingSpec
  stored_pricing_spec =
      stored pricing_spec_cell (λ c. elim c [ pricing_spec_cell x ↦ some x | _ ↦ none ]) (λ x. refl)

  abbrev pub stored_hugging_face_source : Stored Cell HuggingFaceSourceLayout
  stored_hugging_face_source =
      stored hugging_face_source_cell
        (λ c. elim c [ hugging_face_source_cell x ↦ some x | _ ↦ none ]) (λ x. refl)

  abbrev pub stored_model_source : Stored Cell ModelSourceLayout
  stored_model_source =
      stored model_source_cell (λ c. elim c [ model_source_cell x ↦ some x | _ ↦ none ]) (λ x. refl)

  abbrev pub stored_catalog_spec : Stored Cell CatalogSpecLayout
  stored_catalog_spec =
      stored catalog_spec_cell (λ c. elim c [ catalog_spec_cell x ↦ some x | _ ↦ none ]) (λ x. refl)

  abbrev pub stored_bruk_model_spec : Stored Cell BrukModelSpecLayout
  stored_bruk_model_spec =
      stored bruk_model_spec_cell (λ c. elim c [ bruk_model_spec_cell x ↦ some x | _ ↦ none ])
        (λ x. refl)

  abbrev pub stored_bruk_model_status : Stored Cell BrukModelStatusLayout
  stored_bruk_model_status =
      stored bruk_model_status_cell (λ c. elim c [ bruk_model_status_cell x ↦ some x | _ ↦ none ])
        (λ x. refl)

  abbrev pub stored_bruk_model : Stored Cell (BrukModelLayout L)
  stored_bruk_model =
      stored bruk_model_cell (λ c. elim c [ bruk_model_cell x ↦ some x | _ ↦ none ]) (λ x. refl)

  abbrev pub stored_bruk_model_list : Stored Cell (BrukModelListLayout L)
  stored_bruk_model_list =
      stored bruk_model_list_cell (λ c. elim c [ bruk_model_list_cell x ↦ some x | _ ↦ none ])
        (λ x. refl)

  abbrev pub stored_infrastructure_config : Stored Cell InfrastructureConfig
  stored_infrastructure_config =
      stored infrastructure_config_cell
        (λ c. elim c [ infrastructure_config_cell x ↦ some x | _ ↦ none ]) (λ x. refl)

  abbrev pub stored_engine_defaults : Stored Cell EngineDefaults
  stored_engine_defaults =
      stored engine_defaults_cell (λ c. elim c [ engine_defaults_cell x ↦ some x | _ ↦ none ])
        (λ x. refl)

  abbrev pub stored_confidential_config : Stored Cell ConfidentialConfig
  stored_confidential_config =
      stored confidential_config_cell
        (λ c. elim c [ confidential_config_cell x ↦ some x | _ ↦ none ]) (λ x. refl)

  abbrev pub stored_bruk_tenant_spec : Stored Cell BrukTenantSpec
  stored_bruk_tenant_spec =
      stored bruk_tenant_spec_cell (λ c. elim c [ bruk_tenant_spec_cell x ↦ some x | _ ↦ none ])
        (λ x. refl)

  abbrev pub stored_bruk_tenant_status : Stored Cell BrukTenantStatusLayout
  stored_bruk_tenant_status =
      stored bruk_tenant_status_cell (λ c. elim c [ bruk_tenant_status_cell x ↦ some x | _ ↦ none ])
        (λ x. refl)

  abbrev pub stored_bruk_tenant : Stored Cell (BrukTenantLayout L)
  stored_bruk_tenant =
      stored bruk_tenant_cell (λ c. elim c [ bruk_tenant_cell x ↦ some x | _ ↦ none ]) (λ x. refl)

  abbrev pub stored_bruk_tenant_list : Stored Cell (BrukTenantListLayout L)
  stored_bruk_tenant_list =
      stored bruk_tenant_list_cell (λ c. elim c [ bruk_tenant_list_cell x ↦ some x | _ ↦ none ])
        (λ x. refl)

  abbrev pub stored_engine_spec : Stored Cell EngineSpec
  stored_engine_spec =
      stored engine_spec_cell (λ c. elim c [ engine_spec_cell x ↦ some x | _ ↦ none ]) (λ x. refl)

  abbrev pub stored_workload_resources : Stored Cell (WorkloadResourcesLayout L)
  stored_workload_resources =
      stored workload_resources_cell (λ c. elim c [ workload_resources_cell x ↦ some x | _ ↦ none ])
        (λ x. refl)

  abbrev pub stored_local_volume_spec : Stored Cell (LocalVolumeSpecLayout L)
  stored_local_volume_spec =
      stored local_volume_spec_cell (λ c. elim c [ local_volume_spec_cell x ↦ some x | _ ↦ none ])
        (λ x. refl)

  abbrev pub stored_trusted_store_spec : Stored Cell TrustedStoreSpecLayout
  stored_trusted_store_spec =
      stored trusted_store_spec_cell (λ c. elim c [ trusted_store_spec_cell x ↦ some x | _ ↦ none ])
        (λ x. refl)

  abbrev pub stored_weights_cache_spec : Stored Cell WeightsCacheSpecLayout
  stored_weights_cache_spec =
      stored weights_cache_spec_cell (λ c. elim c [ weights_cache_spec_cell x ↦ some x | _ ↦ none ])
        (λ x. refl)

  abbrev pub stored_storage_spec : Stored Cell StorageSpecLayout
  stored_storage_spec =
      stored storage_spec_cell (λ c. elim c [ storage_spec_cell x ↦ some x | _ ↦ none ]) (λ x. refl)

  abbrev pub stored_probe_overrides : Stored Cell ProbeOverridesLayout
  stored_probe_overrides =
      stored probe_overrides_cell (λ c. elim c [ probe_overrides_cell x ↦ some x | _ ↦ none ])
        (λ x. refl)

  abbrev pub stored_inference_service_spec : Stored Cell (InferenceServiceSpecLayout L)
  stored_inference_service_spec =
      stored inference_service_spec_cell
        (λ c. elim c [ inference_service_spec_cell x ↦ some x | _ ↦ none ]) (λ x. refl)

  abbrev pub stored_inference_service_status : Stored Cell InferenceServiceStatusLayout
  stored_inference_service_status =
      stored inference_service_status_cell
        (λ c. elim c [ inference_service_status_cell x ↦ some x | _ ↦ none ]) (λ x. refl)

  abbrev pub stored_inference_service : Stored Cell (InferenceServiceLayout L)
  stored_inference_service =
      stored inference_service_cell (λ c. elim c [ inference_service_cell x ↦ some x | _ ↦ none ])
        (λ x. refl)

  abbrev pub stored_inference_service_list : Stored Cell (InferenceServiceListLayout L)
  stored_inference_service_list =
      stored inference_service_list_cell
        (λ c. elim c [ inference_service_list_cell x ↦ some x | _ ↦ none ]) (λ x. refl)

  abbrev pub stored_int32 : Stored Cell (ℤ)
  stored_int32 = stored int32_cell (λ c. elim c [ int32_cell x ↦ some x | _ ↦ none ]) (λ x. refl)

  abbrev pub stored_quantity : Stored Cell (L.Quantity)
  stored_quantity =
      stored quantity_cell (λ c. elim c [ quantity_cell x ↦ some x | _ ↦ none ]) (λ x. refl)

  abbrev pub stored_texts : Stored Cell (List String)
  stored_texts = stored texts_cell (λ c. elim c [ texts_cell x ↦ some x | _ ↦ none ]) (λ x. refl)

  abbrev pub stored_conditions : Stored Cell (List L.Condition)
  stored_conditions =
      stored conditions_cell (λ c. elim c [ conditions_cell x ↦ some x | _ ↦ none ]) (λ x. refl)

  abbrev pub stored_bruk_models : Stored Cell (List (BrukModelLayout L))
  stored_bruk_models =
      stored bruk_models_cell (λ c. elim c [ bruk_models_cell x ↦ some x | _ ↦ none ]) (λ x. refl)

  abbrev pub stored_bruk_tenants : Stored Cell (List (BrukTenantLayout L))
  stored_bruk_tenants =
      stored bruk_tenants_cell (λ c. elim c [ bruk_tenants_cell x ↦ some x | _ ↦ none ]) (λ x. refl)

  abbrev pub stored_inference_services : Stored Cell (List (InferenceServiceLayout L))
  stored_inference_services =
      stored inference_services_cell (λ c. elim c [ inference_services_cell x ↦ some x | _ ↦ none ])
        (λ x. refl)
