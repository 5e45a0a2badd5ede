-- ===== src/DeepCopy/Laws/Model.antt =====
-- The DeepCopyInto of operator/api/v1alpha1/zz_generated.deepcopy.go, for BrukModel and BrukTenant, are deep.
use bruk.Prelude.{[], ◌∷◌, refl}
use bruk.Platform.{Platform}
use bruk.DeepCopy.Layout.{Library}
use bruk.DeepCopy.Cells.{
  stored_secret_key_ref, stored_pricing_spec, stored_hugging_face_source, stored_quantity,
  stored_texts, stored_conditions, stored_bruk_models, stored_bruk_tenants,
}
use bruk.DeepCopy.Memory.Deep.{IsDeep, elements}
use bruk.DeepCopy.Memory.Pointers.{IsDeep-plain, IsDeep-map, IsDeep-pointer, IsDeep-each}
use bruk.DeepCopy.Memory.Structs.{part, IsDeep-struct}
use bruk.DeepCopy.Functions.{Functions, Sight, IsLibrary}
use bruk.DeepCopy.Common.{resource_pair_into}
use bruk.DeepCopy.Model.{
  hugging_face_source_into, model_source_into, catalog_spec_into, bruk_model_spec_into,
  bruk_model_status_into, bruk_model_into, bruk_model_list_into,
}
use bruk.DeepCopy.Tenant.{bruk_tenant_status_into, bruk_tenant_into, bruk_tenant_list_into}
use bruk.DeepCopy.See.Model.{
  see_resource_pair, see_hugging_face_source, see_model_source, see_catalog_spec,
  see_bruk_model_spec, see_bruk_model_status, see_bruk_model, see_bruk_model_list,
  see_bruk_tenant_status, see_bruk_tenant, see_bruk_tenant_list,
}

module _ {L : Library} {K : Platform} {F : Functions L} {S : Sight L K} (law : IsLibrary F S) where
  pub resource_pair_into-IsDeep : IsDeep (see_resource_pair S) (resource_pair_into F)
  unfolding see_resource_pair resource_pair_into
  resource_pair_into-IsDeep =
      IsDeep-struct
        (part law.quantity ∷ part (IsDeep-pointer (stored_quantity L) law.quantity) ∷ [])
        (λ this. (this.limit, (this.request, tt)))
        (λ this ys. record this { limit = ys.0; request = ys.1.0 })
        (λ this vs. record { limit = vs.0; request = vs.1.0 }) (λ this ys. refl)
        (λ this ys vs. refl)

  pub hugging_face_source_into-IsDeep :
      IsDeep (see_hugging_face_source S) (hugging_face_source_into F)
  unfolding see_hugging_face_source hugging_face_source_into
  hugging_face_source_into-IsDeep =
      IsDeep-struct (part (IsDeep-pointer (stored_secret_key_ref L) (IsDeep-plain (λ x. x))) ∷ [])
        (λ this. (this.token_secret_ref, tt)) (λ this ys. record this { token_secret_ref = ys.0 })
        (λ this vs. record { repo = this.repo; revision = this.revision; token_secret_ref = vs.0 })
        (λ this ys. refl) (λ this ys vs. refl)

  pub model_source_into-IsDeep : IsDeep (see_model_source S) (model_source_into F)
  unfolding see_model_source model_source_into
  model_source_into-IsDeep =
      IsDeep-struct
        (part (IsDeep-pointer (stored_hugging_face_source L) hugging_face_source_into-IsDeep) ∷ [])
        (λ this. (this.hugging_face, tt)) (λ this ys. record this { hugging_face = ys.0 })
        (λ this vs. record { hugging_face = vs.0 }) (λ this ys. refl) (λ this ys vs. refl)

  pub catalog_spec_into-IsDeep : IsDeep (see_catalog_spec S) (catalog_spec_into F)
  unfolding see_catalog_spec catalog_spec_into
  catalog_spec_into-IsDeep =
      IsDeep-struct
        (part (IsDeep-map elements (IsDeep-pointer (stored_texts L) (IsDeep-plain (λ x. x))))
          ∷ part (IsDeep-map elements (IsDeep-pointer (stored_texts L) (IsDeep-plain (λ x. x))))
          ∷ part (IsDeep-map elements (IsDeep-pointer (stored_texts L) (IsDeep-plain (λ x. x))))
          ∷ part (IsDeep-pointer (stored_pricing_spec L) (IsDeep-plain (λ x. x)))
          ∷ [])
        (λ this.
          (this.input_modalities, (this.output_modalities, (this.features, (this.pricing, tt)))))
        (λ this ys. record this {
          input_modalities = ys.0;
          output_modalities = ys.1.0;
          features = ys.1.1.0;
          pricing = ys.1.1.1.0;
        })
        (λ this vs. record {
          display_name = this.display_name;
          description = this.description;
          context_length = this.context_length;
          input_modalities = vs.0;
          output_modalities = vs.1.0;
          features = vs.1.1.0;
          license = this.license;
          pricing = vs.1.1.1.0;
        })
        (λ this ys. refl) (λ this ys vs. refl)

  pub bruk_model_spec_into-IsDeep : IsDeep (see_bruk_model_spec S) (bruk_model_spec_into F)
  unfolding see_bruk_model_spec bruk_model_spec_into
  bruk_model_spec_into-IsDeep =
      IsDeep-struct (part model_source_into-IsDeep ∷ part catalog_spec_into-IsDeep ∷ [])
        (λ this. (this.source, (this.catalog, tt)))
        (λ this ys. record this { source = ys.0; catalog = ys.1.0 })
        (λ this vs. record { source = vs.0; served_name = this.served_name; catalog = vs.1.0 })
        (λ this ys. refl) (λ this ys vs. refl)

  pub bruk_model_status_into-IsDeep : IsDeep (see_bruk_model_status S) (bruk_model_status_into F)
  unfolding see_bruk_model_status bruk_model_status_into
  bruk_model_status_into-IsDeep =
      IsDeep-struct
        (part
            (IsDeep-map elements (IsDeep-pointer (stored_conditions L) (IsDeep-each law.condition)))
          ∷ [])
        (λ this. (this.conditions, tt)) (λ this ys. record this { conditions = ys.0 })
        (λ this vs. record { observed_generation = this.observed_generation; conditions = vs.0 })
        (λ this ys. refl) (λ this ys vs. refl)

  pub bruk_model_into-IsDeep : IsDeep (see_bruk_model S) (bruk_model_into F)
  unfolding see_bruk_model bruk_model_into
  bruk_model_into-IsDeep =
      IsDeep-struct
        (part law.object_meta
          ∷ part bruk_model_spec_into-IsDeep
          ∷ part bruk_model_status_into-IsDeep
          ∷ [])
        (λ this. (this.metadata, (this.spec, (this.status, tt))))
        (λ this ys. record this { metadata = ys.0; spec = ys.1.0; status = ys.1.1.0 })
        (λ this vs. record {
          type_meta = this.type_meta;
          metadata = vs.0;
          spec = vs.1.0;
          status = vs.1.1.0;
        })
        (λ this ys. refl) (λ this ys vs. refl)

  pub bruk_model_list_into-IsDeep : IsDeep (see_bruk_model_list S) (bruk_model_list_into F)
  unfolding see_bruk_model_list bruk_model_list_into
  bruk_model_list_into-IsDeep =
      IsDeep-struct
        (part law.list_meta
          ∷ part (
              IsDeep-map elements
                (IsDeep-pointer (stored_bruk_models L) (IsDeep-each bruk_model_into-IsDeep)))
          ∷ [])
        (λ this. (this.metadata, (this.items, tt)))
        (λ this ys. record this { metadata = ys.0; items = ys.1.0 })
        (λ this vs. record { type_meta = this.type_meta; metadata = vs.0; items = vs.1.0 })
        (λ this ys. refl) (λ this ys vs. refl)

  pub bruk_tenant_status_into-IsDeep : IsDeep (see_bruk_tenant_status S) (bruk_tenant_status_into F)
  unfolding see_bruk_tenant_status bruk_tenant_status_into
  bruk_tenant_status_into-IsDeep =
      IsDeep-struct
        (part
            (IsDeep-map elements (IsDeep-pointer (stored_conditions L) (IsDeep-each law.condition)))
          ∷ [])
        (λ this. (this.conditions, tt)) (λ this ys. record this { conditions = ys.0 })
        (λ this vs. record {
          observed_generation = this.observed_generation;
          conditions = vs.0;
          applied_init_data_hash = this.applied_init_data_hash;
        })
        (λ this ys. refl) (λ this ys vs. refl)

  pub bruk_tenant_into-IsDeep : IsDeep (see_bruk_tenant S) (bruk_tenant_into F)
  unfolding see_bruk_tenant bruk_tenant_into
  bruk_tenant_into-IsDeep =
      IsDeep-struct (part law.object_meta ∷ part bruk_tenant_status_into-IsDeep ∷ [])
        (λ this. (this.metadata, (this.status, tt)))
        (λ this ys. record this { metadata = ys.0; status = ys.1.0 })
        (λ this vs. record {
          type_meta = this.type_meta;
          metadata = vs.0;
          spec = this.spec;
          status = vs.1.0;
        })
        (λ this ys. refl) (λ this ys vs. refl)

  pub bruk_tenant_list_into-IsDeep : IsDeep (see_bruk_tenant_list S) (bruk_tenant_list_into F)
  unfolding see_bruk_tenant_list bruk_tenant_list_into
  bruk_tenant_list_into-IsDeep =
      IsDeep-struct
        (part law.list_meta
          ∷ part (
              IsDeep-map elements
                (IsDeep-pointer (stored_bruk_tenants L) (IsDeep-each bruk_tenant_into-IsDeep)))
          ∷ [])
        (λ this. (this.metadata, (this.items, tt)))
        (λ this ys. record this { metadata = ys.0; items = ys.1.0 })
        (λ this vs. record { type_meta = this.type_meta; metadata = vs.0; items = vs.1.0 })
        (λ this ys. refl) (λ this ys vs. refl)
