-- ===== src/DeepCopy/Model.antt =====
-- operator/api/v1alpha1/zz_generated.deepcopy.go: the copies of BrukModel and its structs.
use bruk.Prelude.{Option}
use bruk.Api.BrukModel.{PricingSpec}
use bruk.DeepCopy.Layout.{
  Library, HuggingFaceSourceLayout, ModelSourceLayout, CatalogSpecLayout, BrukModelSpecLayout,
  BrukModelStatusLayout, BrukModelLayout, BrukModelListLayout,
}
use bruk.DeepCopy.Cells.{
  Cell, stored_secret_key_ref, stored_pricing_spec, stored_hugging_face_source, stored_model_source,
  stored_catalog_spec, stored_bruk_model_spec, stored_bruk_model_status, stored_bruk_model,
  stored_bruk_model_list, stored_texts, stored_conditions, stored_bruk_models,
}
use bruk.DeepCopy.Memory.{◌>>=◌, M, Pointer, pure, copy_pointer, copy_each}
use bruk.DeepCopy.Functions.{Functions}
use bruk.DeepCopy.Objects.{Object, object_of, a_bruk_model, a_bruk_model_list}

module _ {L : Library} (F : Functions L) where
  -- `PricingSpec.DeepCopyInto`
  unfoldable pub pricing_spec_into : PricingSpec → M (Cell L) PricingSpec
  pricing_spec_into this = pure this

  -- `PricingSpec.DeepCopy`
  unfoldable pub pricing_spec_copy : Pointer → M (Cell L) Pointer
  pricing_spec_copy = copy_pointer (stored_pricing_spec L) pricing_spec_into

  -- `HuggingFaceSource.DeepCopyInto`
  unfoldable pub hugging_face_source_into :
      HuggingFaceSourceLayout → M (Cell L) HuggingFaceSourceLayout
  hugging_face_source_into this = do
    token_secret_ref ← copy_pointer (stored_secret_key_ref L) pure this.token_secret_ref
    pure (record this { token_secret_ref = token_secret_ref })

  -- `HuggingFaceSource.DeepCopy`
  unfoldable pub hugging_face_source_copy : Pointer → M (Cell L) Pointer
  hugging_face_source_copy = copy_pointer (stored_hugging_face_source L) hugging_face_source_into

  -- `ModelSource.DeepCopyInto`
  unfoldable pub model_source_into : ModelSourceLayout → M (Cell L) ModelSourceLayout
  model_source_into this = do
    hugging_face ←
        copy_pointer (stored_hugging_face_source L) hugging_face_source_into this.hugging_face
    pure (record this { hugging_face = hugging_face })

  -- `ModelSource.DeepCopy`
  unfoldable pub model_source_copy : Pointer → M (Cell L) Pointer
  model_source_copy = copy_pointer (stored_model_source L) model_source_into

  -- `CatalogSpec.DeepCopyInto`
  unfoldable pub catalog_spec_into : CatalogSpecLayout → M (Cell L) CatalogSpecLayout
  catalog_spec_into this = do
    input_modalities ← copy_pointer (stored_texts L) pure this.input_modalities
    output_modalities ← copy_pointer (stored_texts L) pure this.output_modalities
    features ← copy_pointer (stored_texts L) pure this.features
    pricing ← copy_pointer (stored_pricing_spec L) pure this.pricing
    pure (record this {
      input_modalities = input_modalities;
      output_modalities = output_modalities;
      features = features;
      pricing = pricing;
    })

  -- `CatalogSpec.DeepCopy`
  unfoldable pub catalog_spec_copy : Pointer → M (Cell L) Pointer
  catalog_spec_copy = copy_pointer (stored_catalog_spec L) catalog_spec_into

  -- `BrukModelSpec.DeepCopyInto`
  unfoldable pub bruk_model_spec_into : BrukModelSpecLayout → M (Cell L) BrukModelSpecLayout
  bruk_model_spec_into this = do
    source ← model_source_into this.source
    catalog ← catalog_spec_into this.catalog
    pure (record this { source = source; catalog = catalog })

  -- `BrukModelSpec.DeepCopy`
  unfoldable pub bruk_model_spec_copy : Pointer → M (Cell L) Pointer
  bruk_model_spec_copy = copy_pointer (stored_bruk_model_spec L) bruk_model_spec_into

  -- `BrukModelStatus.DeepCopyInto`
  unfoldable pub bruk_model_status_into : BrukModelStatusLayout → M (Cell L) BrukModelStatusLayout
  bruk_model_status_into this = do
    conditions ← copy_pointer (stored_conditions L) (copy_each F.condition_into) this.conditions
    pure (record this { conditions = conditions })

  -- `BrukModelStatus.DeepCopy`
  unfoldable pub bruk_model_status_copy : Pointer → M (Cell L) Pointer
  bruk_model_status_copy = copy_pointer (stored_bruk_model_status L) bruk_model_status_into

  -- `BrukModel.DeepCopyInto`
  unfoldable pub bruk_model_into : BrukModelLayout L → M (Cell L) (BrukModelLayout L)
  bruk_model_into this = do
    metadata ← F.object_meta_into this.metadata
    spec ← bruk_model_spec_into this.spec
    status ← bruk_model_status_into this.status
    pure (record this { metadata = metadata; spec = spec; status = status })

  -- `BrukModel.DeepCopy`
  unfoldable pub bruk_model_copy : Pointer → M (Cell L) Pointer
  bruk_model_copy = copy_pointer (stored_bruk_model L) bruk_model_into

  -- `BrukModel.DeepCopyObject`
  unfoldable pub bruk_model_object : Pointer → M (Cell L) (Option Object)
  bruk_model_object = object_of a_bruk_model bruk_model_copy

  -- `BrukModelList.DeepCopyInto`
  unfoldable pub bruk_model_list_into : BrukModelListLayout L → M (Cell L) (BrukModelListLayout L)
  bruk_model_list_into this = do
    metadata ← F.list_meta_into this.metadata
    items ← copy_pointer (stored_bruk_models L) (copy_each bruk_model_into) this.items
    pure (record this { metadata = metadata; items = items })

  -- `BrukModelList.DeepCopy`
  unfoldable pub bruk_model_list_copy : Pointer → M (Cell L) Pointer
  bruk_model_list_copy = copy_pointer (stored_bruk_model_list L) bruk_model_list_into

  -- `BrukModelList.DeepCopyObject`
  unfoldable pub bruk_model_list_object : Pointer → M (Cell L) (Option Object)
  bruk_model_list_object = object_of a_bruk_model_list bruk_model_list_copy
