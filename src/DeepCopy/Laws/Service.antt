-- ===== src/DeepCopy/Laws/Service.antt =====
-- The DeepCopyInto of operator/api/v1alpha1/zz_generated.deepcopy.go, for InferenceService, are deep.
use bruk.Prelude.{[], ◌∷◌, refl}
use bruk.Platform.{Platform}
use bruk.DeepCopy.Layout.{Library}
use bruk.DeepCopy.Cells.{
  stored_endpoint_status, stored_local_volume_spec, stored_weights_cache_spec,
  stored_probe_overrides, stored_int32, stored_quantity, stored_conditions,
  stored_inference_services,
}
use bruk.DeepCopy.Memory.Deep.{IsDeep, elements}
use bruk.DeepCopy.Memory.Pointers.{IsDeep-plain, IsDeep-map, IsDeep-pointer, IsDeep-each}
use bruk.DeepCopy.Memory.Structs.{part, IsDeep-struct}
use bruk.DeepCopy.Functions.{Functions, Sight, IsLibrary}
use bruk.DeepCopy.Resources.{
  workload_resources_into, local_volume_spec_into, trusted_store_spec_into, weights_cache_spec_into,
  storage_spec_into, probe_overrides_into,
}
use bruk.DeepCopy.Service.{
  inference_service_spec_into, inference_service_status_into, inference_service_into,
  inference_service_list_into,
}
use bruk.DeepCopy.See.Service.{
  see_workload_resources, see_local_volume_spec, see_trusted_store_spec, see_weights_cache_spec,
  see_storage_spec, see_probe_overrides, see_inference_service_spec, see_inference_service_status,
  see_inference_service, see_inference_service_list,
}
use bruk.DeepCopy.Laws.Model.{resource_pair_into-IsDeep}

module _ {L : Library} {K : Platform} {F : Functions L} {S : Sight L K} (law : IsLibrary F S) where
  pub workload_resources_into-IsDeep : IsDeep (see_workload_resources S) (workload_resources_into F)
  unfolding see_workload_resources workload_resources_into
  workload_resources_into-IsDeep =
      IsDeep-struct
        (part (resource_pair_into-IsDeep law) ∷ part (resource_pair_into-IsDeep law) ∷ [])
        (λ this. (this.memory, (this.cpu, tt)))
        (λ this ys. record this { memory = ys.0; cpu = ys.1.0 })
        (λ this vs. record { gpus = this.gpus; memory = vs.0; cpu = vs.1.0 }) (λ this ys. refl)
        (λ this ys vs. refl)

  pub local_volume_spec_into-IsDeep : IsDeep (see_local_volume_spec S) (local_volume_spec_into F)
  unfolding see_local_volume_spec local_volume_spec_into
  local_volume_spec_into-IsDeep =
      IsDeep-struct (part law.quantity ∷ []) (λ this. (this.size, tt))
        (λ this ys. record this { size = ys.0 })
        (λ this vs. record { lv_name = this.lv_name; size = vs.0 }) (λ this ys. refl)
        (λ this ys vs. refl)

  pub trusted_store_spec_into-IsDeep : IsDeep (see_trusted_store_spec S) (trusted_store_spec_into F)
  unfolding see_trusted_store_spec trusted_store_spec_into
  trusted_store_spec_into-IsDeep =
      IsDeep-struct
        (part (IsDeep-pointer (stored_local_volume_spec L) local_volume_spec_into-IsDeep) ∷ [])
        (λ this. (this.local_volume, tt)) (λ this ys. record this { local_volume = ys.0 })
        (λ this vs. record { existing_claim = this.existing_claim; local_volume = vs.0 })
        (λ this ys. refl) (λ this ys vs. refl)

  pub weights_cache_spec_into-IsDeep : IsDeep (see_weights_cache_spec S) (weights_cache_spec_into F)
  unfolding see_weights_cache_spec weights_cache_spec_into
  weights_cache_spec_into-IsDeep =
      IsDeep-struct (part (IsDeep-pointer (stored_quantity L) law.quantity) ∷ [])
        (λ this. (this.size_limit, tt)) (λ this ys. record this { size_limit = ys.0 })
        (λ this vs. record { size_limit = vs.0 }) (λ this ys. refl) (λ this ys vs. refl)

  pub storage_spec_into-IsDeep : IsDeep (see_storage_spec S) (storage_spec_into F)
  unfolding see_storage_spec storage_spec_into
  storage_spec_into-IsDeep =
      IsDeep-struct
        (part trusted_store_spec_into-IsDeep
          ∷ part (IsDeep-pointer (stored_weights_cache_spec L) weights_cache_spec_into-IsDeep)
          ∷ [])
        (λ this. (this.trusted_store, (this.weights_cache, tt)))
        (λ this ys. record this { trusted_store = ys.0; weights_cache = ys.1.0 })
        (λ this vs. record { trusted_store = vs.0; weights_cache = vs.1.0 }) (λ this ys. refl)
        (λ this ys vs. refl)

  pub probe_overrides_into-IsDeep : IsDeep (see_probe_overrides S) (probe_overrides_into F)
  unfolding see_probe_overrides probe_overrides_into
  probe_overrides_into-IsDeep =
      IsDeep-struct (part (IsDeep-pointer (stored_int32 L) (IsDeep-plain (λ x. x))) ∷ [])
        (λ this. (this.readiness_failure_threshold, tt))
        (λ this ys. record this { readiness_failure_threshold = ys.0 })
        (λ this vs. record { readiness_failure_threshold = vs.0 }) (λ this ys. refl)
        (λ this ys vs. refl)

  pub inference_service_spec_into-IsDeep :
      IsDeep (see_inference_service_spec S) (inference_service_spec_into F)
  unfolding see_inference_service_spec inference_service_spec_into
  inference_service_spec_into-IsDeep =
      IsDeep-struct
        (part workload_resources_into-IsDeep
          ∷ part storage_spec_into-IsDeep
          ∷ part (IsDeep-pointer (stored_probe_overrides L) probe_overrides_into-IsDeep)
          ∷ [])
        (λ this. (this.resources, (this.storage, (this.probes, tt))))
        (λ this ys. record this { resources = ys.0; storage = ys.1.0; probes = ys.1.1.0 })
        (λ this vs. record {
          model_ref = this.model_ref;
          engine = this.engine;
          resources = vs.0;
          storage = vs.1.0;
          probes = vs.1.1.0;
        })
        (λ this ys. refl) (λ this ys vs. refl)

  pub inference_service_status_into-IsDeep :
      IsDeep (see_inference_service_status S) (inference_service_status_into F)
  unfolding see_inference_service_status inference_service_status_into
  inference_service_status_into-IsDeep =
      IsDeep-struct
        (part
            (IsDeep-map elements (IsDeep-pointer (stored_conditions L) (IsDeep-each law.condition)))
          ∷ part (IsDeep-pointer (stored_endpoint_status L) (IsDeep-plain (λ x. x)))
          ∷ [])
        (λ this. (this.conditions, (this.endpoint, tt)))
        (λ this ys. record this { conditions = ys.0; endpoint = ys.1.0 })
        (λ this vs. record {
          observed_generation = this.observed_generation;
          conditions = vs.0;
          endpoint = vs.1.0;
          served_model_name = this.served_model_name;
          resolved_image = this.resolved_image;
          applied_init_data_hash = this.applied_init_data_hash;
        })
        (λ this ys. refl) (λ this ys vs. refl)

  pub inference_service_into-IsDeep : IsDeep (see_inference_service S) (inference_service_into F)
  unfolding see_inference_service inference_service_into
  inference_service_into-IsDeep =
      IsDeep-struct
        (part law.object_meta
          ∷ part inference_service_spec_into-IsDeep
          ∷ part inference_service_status_into-IsDeep
          ∷ [])
        (λ this. (this.metadata, (this.spec, (this.status, tt))))
        (λ this ys. record this { metadata = ys.0; spec = ys.1.0; status = ys.1.1.0 })
        (λ this vs. record {
          type_meta = this.type_meta;
          metadata = vs.0;
          spec = vs.1.0;
          status = vs.1.1.0;
        })
        (λ this ys. refl) (λ this ys vs. refl)

  pub inference_service_list_into-IsDeep :
      IsDeep (see_inference_service_list S) (inference_service_list_into F)
  unfolding see_inference_service_list inference_service_list_into
  inference_service_list_into-IsDeep =
      IsDeep-struct
        (part law.list_meta
          ∷ part (
              IsDeep-map elements (
                IsDeep-pointer (stored_inference_services L)
                  (IsDeep-each inference_service_into-IsDeep)))
          ∷ [])
        (λ this. (this.metadata, (this.items, tt)))
        (λ this ys. record this { metadata = ys.0; items = ys.1.0 })
        (λ this vs. record { type_meta = this.type_meta; metadata = vs.0; items = vs.1.0 })
        (λ this ys. refl) (λ this ys vs. refl)
