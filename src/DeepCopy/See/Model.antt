-- ===== src/DeepCopy/See/Model.antt =====
-- What the structs in memory denote: the values of Api, for BrukModel and BrukTenant.
use bruk.Prelude.{List, Option, some}
use bruk.Platform.{Platform}
use bruk.Api.Common.{ResourcePair}
use bruk.Api.BrukModel.{
  HuggingFaceSource, ModelSource, CatalogSpec, BrukModelSpec, BrukModelStatus, BrukModel,
  BrukModelList,
}
use bruk.Api.BrukTenant.{BrukTenantStatus, BrukTenant, BrukTenantList}
use bruk.DeepCopy.Layout.{
  Library, ResourcePairLayout, HuggingFaceSourceLayout, ModelSourceLayout, CatalogSpecLayout,
  BrukModelSpecLayout, BrukModelStatusLayout, BrukModelLayout, BrukModelListLayout,
  BrukTenantStatusLayout, BrukTenantLayout, BrukTenantListLayout,
}
use bruk.DeepCopy.Cells.{
  Cell, stored_secret_key_ref, stored_pricing_spec, stored_hugging_face_source, stored_quantity,
  stored_texts, stored_conditions, stored_bruk_models, stored_bruk_tenants,
}
use bruk.DeepCopy.Memory.Deep.{◌>>=◌, see_pointer, see_each, see_plain, elements}
use bruk.DeepCopy.Functions.{Sight}

module _ {L : Library} {K : Platform} (S : Sight L K) where
  unfoldable pub see_resource_pair : List (Cell L) → ResourcePairLayout L → Option (ResourcePair K)
  see_resource_pair h this = do
    limit ← S.see_quantity h this.limit
    request ← see_pointer (stored_quantity L) S.see_quantity h this.request
    some (record { limit = limit; request = request })

  unfoldable pub see_hugging_face_source :
      List (Cell L) → HuggingFaceSourceLayout → Option HuggingFaceSource
  see_hugging_face_source h this = do
    token_secret_ref ← see_pointer (stored_secret_key_ref L) see_plain h this.token_secret_ref
    some
        (record { repo = this.repo; revision = this.revision; token_secret_ref = token_secret_ref })

  unfoldable pub see_model_source : List (Cell L) → ModelSourceLayout → Option ModelSource
  see_model_source h this = do
    hugging_face ←
        see_pointer (stored_hugging_face_source L) see_hugging_face_source h this.hugging_face
    some (record { hugging_face = hugging_face })

  unfoldable pub see_catalog_spec : List (Cell L) → CatalogSpecLayout → Option CatalogSpec
  see_catalog_spec h this = do
    input_modalities ←
        (see_pointer (stored_texts L) see_plain h this.input_modalities >>= λ o. some (elements o))
    output_modalities ←
        (see_pointer (stored_texts L) see_plain h this.output_modalities >>= λ o. some (elements o))
    features ← (see_pointer (stored_texts L) see_plain h this.features >>= λ o. some (elements o))
    pricing ← see_pointer (stored_pricing_spec L) see_plain h this.pricing
    some (record {
      display_name = this.display_name;
      description = this.description;
      context_length = this.context_length;
      input_modalities = input_modalities;
      output_modalities = output_modalities;
      features = features;
      license = this.license;
      pricing = pricing;
    })

  unfoldable pub see_bruk_model_spec : List (Cell L) → BrukModelSpecLayout → Option BrukModelSpec
  see_bruk_model_spec h this = do
    source ← see_model_source h this.source
    catalog ← see_catalog_spec h this.catalog
    some (record { source = source; served_name = this.served_name; catalog = catalog })

  unfoldable pub see_bruk_model_status :
      List (Cell L) → BrukModelStatusLayout → Option BrukModelStatus
  see_bruk_model_status h this = do
    conditions ←
        (see_pointer (stored_conditions L) (see_each S.see_condition) h this.conditions >>= λ o.
        some (elements o))
    some (record { observed_generation = this.observed_generation; conditions = conditions })

  unfoldable pub see_bruk_model : List (Cell L) → BrukModelLayout L → Option (BrukModel K)
  see_bruk_model h this = do
    metadata ← S.see_object_meta h this.metadata
    spec ← see_bruk_model_spec h this.spec
    status ← see_bruk_model_status h this.status
    some (record { type_meta = this.type_meta; metadata = metadata; spec = spec; status = status })

  unfoldable pub see_bruk_model_list :
      List (Cell L) → BrukModelListLayout L → Option (BrukModelList K)
  see_bruk_model_list h this = do
    metadata ← S.see_list_meta h this.metadata
    items ←
        (see_pointer (stored_bruk_models L) (see_each see_bruk_model) h this.items >>= λ o.
        some (elements o))
    some (record { type_meta = this.type_meta; metadata = metadata; items = items })

  unfoldable pub see_bruk_tenant_status :
      List (Cell L) → BrukTenantStatusLayout → Option BrukTenantStatus
  see_bruk_tenant_status h this = do
    conditions ←
        (see_pointer (stored_conditions L) (see_each S.see_condition) h this.conditions >>= λ o.
        some (elements o))
    some (record {
      observed_generation = this.observed_generation;
      conditions = conditions;
      applied_init_data_hash = this.applied_init_data_hash;
    })

  unfoldable pub see_bruk_tenant : List (Cell L) → BrukTenantLayout L → Option (BrukTenant K)
  see_bruk_tenant h this = do
    metadata ← S.see_object_meta h this.metadata
    status ← see_bruk_tenant_status h this.status
    some (record {
      type_meta = this.type_meta;
      metadata = metadata;
      spec = this.spec;
      status = status;
    })

  unfoldable pub see_bruk_tenant_list :
      List (Cell L) → BrukTenantListLayout L → Option (BrukTenantList K)
  see_bruk_tenant_list h this = do
    metadata ← S.see_list_meta h this.metadata
    items ←
        (see_pointer (stored_bruk_tenants L) (see_each see_bruk_tenant) h this.items >>= λ o.
        some (elements o))
    some (record { type_meta = this.type_meta; metadata = metadata; items = items })
