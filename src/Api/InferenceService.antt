-- ===== src/Api/InferenceService.antt =====
-- operator/api/v1alpha1/inferenceservice_types.go
use bruk.Prelude.{String, List, Option}
use bruk.Prelude.Int.{ℤ}
use bruk.Platform.{Platform}
use bruk.Kube.Condition.{Condition}
use bruk.Kube.Meta.{TypeMeta, ObjectMeta, ListMeta, NamespacedName}
use bruk.Api.Common.{LocalRef, EndpointStatus, ResourcePair}
pub mod Names

pub record EngineSpec : Type 0 where
  pub quantization : String
  pub max_model_len : ℤ
  pub gpu_memory_utilization_percent : ℤ

pub record ProbeOverrides : Type 0 where
  pub readiness_failure_threshold : Option ℤ

pub record InferenceServiceStatus : Type 0 where
  pub observed_generation : ℤ
  pub conditions : List Condition
  pub endpoint : Option EndpointStatus
  pub served_model_name : String
  pub resolved_image : String
  pub applied_init_data_hash : String

module _ (K : Platform) where
  pub record WorkloadResources : Type 0 where
    pub gpus : ℤ
    pub memory : ResourcePair K
    pub cpu : ResourcePair K

  pub record LocalVolumeSpec : Type 0 where
    pub lv_name : String
    pub size : K.Quantity

  pub record TrustedStoreSpec : Type 0 where
    pub existing_claim : String
    pub local_volume : Option LocalVolumeSpec

  pub record WeightsCacheSpec : Type 0 where
    pub size_limit : Option K.Quantity

  pub record StorageSpec : Type 0 where
    pub trusted_store : TrustedStoreSpec
    pub weights_cache : Option WeightsCacheSpec

  pub record InferenceServiceSpec : Type 0 where
    pub model_ref : LocalRef
    pub engine : EngineSpec
    pub resources : WorkloadResources
    pub storage : StorageSpec
    pub probes : Option ProbeOverrides

  pub record InferenceService : Type 0 where
    pub type_meta : TypeMeta
    pub metadata : ObjectMeta K
    pub spec : InferenceServiceSpec
    pub status : InferenceServiceStatus

  pub record InferenceServiceList : Type 0 where
    pub type_meta : TypeMeta
    pub metadata : ListMeta
    pub items : List InferenceService

  -- `client.ObjectKeyFromObject`
  abbrev pub object_key : InferenceService → NamespacedName
  object_key isvc = record { name = isvc.metadata.name; namespace = isvc.metadata.namespace }
