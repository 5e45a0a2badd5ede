-- ===== src/DeepCopy/Layout.antt =====
-- The structs of operator/api/v1alpha1/*_types.go as they stand in memory, with pointers and slices where
-- the Go types have them. A struct without any is its record in Api.
use bruk.Prelude.{String}
use bruk.Prelude.Int.{ℤ}
use bruk.Kube.Meta.{TypeMeta}
use bruk.Api.Common.{LocalRef}
use bruk.Api.BrukTenant.{BrukTenantSpec}
use bruk.Api.InferenceService.{EngineSpec}
use bruk.DeepCopy.Memory.{Pointer}

-- The types of apimachinery in memory, and what stands in the cells that only its functions look at.
pub record Library : Type 1 where
  pub ObjectMeta : Type 0
  pub ListMeta : Type 0
  pub Condition : Type 0
  pub Quantity : Type 0
  pub Word : Type 0

pub record HuggingFaceSourceLayout : Type 0 where
  pub repo : String
  pub revision : String
  pub token_secret_ref : Pointer

pub record ModelSourceLayout : Type 0 where
  pub hugging_face : Pointer

pub record CatalogSpecLayout : Type 0 where
  pub display_name : String
  pub description : String
  pub context_length : ℤ
  pub input_modalities : Pointer
  pub output_modalities : Pointer
  pub features : Pointer
  pub license : String
  pub pricing : Pointer

pub record BrukModelSpecLayout : Type 0 where
  pub source : ModelSourceLayout
  pub served_name : String
  pub catalog : CatalogSpecLayout

pub record BrukModelStatusLayout : Type 0 where
  pub observed_generation : ℤ
  pub conditions : Pointer

pub record BrukTenantStatusLayout : Type 0 where
  pub observed_generation : ℤ
  pub conditions : Pointer
  pub applied_init_data_hash : String

pub record TrustedStoreSpecLayout : Type 0 where
  pub existing_claim : String
  pub local_volume : Pointer

pub record WeightsCacheSpecLayout : Type 0 where
  pub size_limit : Pointer

pub record StorageSpecLayout : Type 0 where
  pub trusted_store : TrustedStoreSpecLayout
  pub weights_cache : Pointer

pub record ProbeOverridesLayout : Type 0 where
  pub readiness_failure_threshold : Pointer

pub record InferenceServiceStatusLayout : Type 0 where
  pub observed_generation : ℤ
  pub conditions : Pointer
  pub endpoint : Pointer
  pub served_model_name : String
  pub resolved_image : String
  pub applied_init_data_hash : String

module _ (L : Library) where
  pub record ResourcePairLayout : Type 0 where
    pub limit : L.Quantity
    pub request : Pointer

  pub record BrukModelLayout : Type 0 where
    pub type_meta : TypeMeta
    pub metadata : L.ObjectMeta
    pub spec : BrukModelSpecLayout
    pub status : BrukModelStatusLayout

  pub record BrukModelListLayout : Type 0 where
    pub type_meta : TypeMeta
    pub metadata : L.ListMeta
    pub items : Pointer

  pub record BrukTenantLayout : Type 0 where
    pub type_meta : TypeMeta
    pub metadata : L.ObjectMeta
    pub spec : BrukTenantSpec
    pub status : BrukTenantStatusLayout

  pub record BrukTenantListLayout : Type 0 where
    pub type_meta : TypeMeta
    pub metadata : L.ListMeta
    pub items : Pointer

  pub record WorkloadResourcesLayout : Type 0 where
    pub gpus : ℤ
    pub memory : ResourcePairLayout
    pub cpu : ResourcePairLayout

  pub record LocalVolumeSpecLayout : Type 0 where
    pub lv_name : String
    pub size : L.Quantity

  pub record InferenceServiceSpecLayout : Type 0 where
    pub model_ref : LocalRef
    pub engine : EngineSpec
    pub resources : WorkloadResourcesLayout
    pub storage : StorageSpecLayout
    pub probes : Pointer

  pub record InferenceServiceLayout : Type 0 where
    pub type_meta : TypeMeta
    pub metadata : L.ObjectMeta
    pub spec : InferenceServiceSpecLayout
    pub status : InferenceServiceStatusLayout

  pub record InferenceServiceListLayout : Type 0 where
    pub type_meta : TypeMeta
    pub metadata : L.ListMeta
    pub items : Pointer
