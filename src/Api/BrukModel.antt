-- ===== src/Api/BrukModel.antt =====
-- operator/api/v1alpha1/brukmodel_types.go
use bruk.Prelude.{String, List, Option, str_eq, if◌then◌else◌}
use bruk.Prelude.Int.{ℤ}
use bruk.Platform.{Platform}
use bruk.Kube.Condition.{Condition}
use bruk.Kube.Meta.{TypeMeta, ObjectMeta, ListMeta}
use bruk.Api.Common.{SecretKeyRef}

abbrev pub Modality : Type 0
Modality = String

abbrev pub modality_text : Modality
modality_text = "text"

abbrev pub modality_image : Modality
modality_image = "image"

abbrev pub ModelFeature : Type 0
ModelFeature = String

abbrev pub feature_tool_calling : ModelFeature
feature_tool_calling = "tool-calling"

abbrev pub feature_structured_output : ModelFeature
feature_structured_output = "structured-output"

pub record HuggingFaceSource : Type 0 where
  pub repo : String
  pub revision : String
  pub token_secret_ref : Option SecretKeyRef

pub record ModelSource : Type 0 where
  pub hugging_face : Option HuggingFaceSource

pub record PricingSpec : Type 0 where
  pub prompt_per_m_tokens : String
  pub completion_per_m_tokens : String
  pub currency : String

pub record CatalogSpec : Type 0 where
  pub display_name : String
  pub description : String
  pub context_length : ℤ
  pub input_modalities : List Modality
  pub output_modalities : List Modality
  pub features : List ModelFeature
  pub license : String
  pub pricing : Option PricingSpec

pub record BrukModelSpec : Type 0 where
  pub source : ModelSource
  pub served_name : String
  pub catalog : CatalogSpec

pub record BrukModelStatus : Type 0 where
  pub observed_generation : ℤ
  pub conditions : List Condition

module _ (K : Platform) where
  pub record BrukModel : Type 0 where
    pub type_meta : TypeMeta
    pub metadata : ObjectMeta K
    pub spec : BrukModelSpec
    pub status : BrukModelStatus

  pub record BrukModelList : Type 0 where
    pub type_meta : TypeMeta
    pub metadata : ListMeta
    pub items : List BrukModel

  -- `ServedModelName`
  pub served_model_name : BrukModel → String
  served_model_name m = if str_eq m.spec.served_name "" then m.metadata.name else m.spec.served_name
