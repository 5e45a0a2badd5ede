-- ===== src/Api/Admission.antt =====
-- What the API server admits of the three kinds, after the `+kubebuilder:validation` markers of
-- operator/api/v1alpha1/*_types.go; the defaults are filled in before. A Go string of a field that may
-- be left out is "" without it, so a rule on such a field is asked of a set one alone.
pub mod Laws
use bruk.Prelude.{ℕ, String, Bool, true, false, not, ◌&&◌, ◌||◌, List, [], ◌∷◌, Option, none, some}
use bruk.Prelude.{leb, str_eq, if◌then◌else◌}
use bruk.Prelude.Int.{ℤ, pos, ltb_ℤ}
use bruk.Base64.{codes}
use bruk.Platform.{Platform}
use bruk.Api.Common.{LocalRef, SecretKeyRef}
use bruk.Api.BrukModel.{HuggingFaceSource, ModelSource, PricingSpec, CatalogSpec, BrukModel}
use bruk.Api.BrukModel.{
  modality_text, modality_image, feature_tool_calling, feature_structured_output,
}
use bruk.Api.BrukTenant.{BrukTenant, bruk_tenant_name}
use bruk.Api.InferenceService.{EngineSpec, ProbeOverrides, WorkloadResources, LocalVolumeSpec}
use bruk.Api.InferenceService.{TrustedStoreSpec, InferenceService}
use bruk.Api.Patterns.{
  size, is_each, is_pinned_image, is_blob_text, is_repository, is_served_name, is_price,
}

-- `MinLength` and `MaxLength`
abbrev has_length : ℕ → ℕ → String → Bool
has_length least most s = leb least (size (codes s)) && leb (size (codes s)) most

abbrev is_set : String → Bool
is_set s = leb 1 (size (codes s))

-- `Minimum` and `Maximum`
abbrev in_range : ℤ → ℤ → ℤ → Bool
in_range least most n = not (ltb_ℤ n least) && not (ltb_ℤ most n)

-- `Enum`
abbrev one_of : List String → String → Bool
one_of [] s = false
one_of (t ∷ ts) s = str_eq s t || one_of ts s

abbrev each_of : List String → List String → Bool
each_of values [] = true
each_of values (s ∷ ss) = one_of values s && each_of values ss

-- A rule on a field that may be left out.
abbrev if_set : (String → Bool) → String → Bool
if_set rule s = str_eq s "" || rule s

abbrev if_some {ℓ} : {A : Type ℓ} → (A → Bool) → Option A → Bool
if_some rule none = true
if_some rule (some a) = rule a

abbrev pub admits_reference : LocalRef → Bool
admits_reference ref = has_length 1 253 ref.name

abbrev pub admits_secret_reference : SecretKeyRef → Bool
admits_secret_reference ref = has_length 1 253 ref.name

abbrev pub admits_hugging_face : HuggingFaceSource → Bool
admits_hugging_face hf =
    is_repository hf.repo && if_some admits_secret_reference hf.token_secret_ref

-- `has(self.huggingFace)`
abbrev pub admits_source : ModelSource → Bool
admits_source source = elim source.hugging_face [ none ↦ false | some hf ↦ admits_hugging_face hf ]

abbrev pub admits_pricing : PricingSpec → Bool
admits_pricing pricing =
    if_set is_price pricing.prompt_per_m_tokens
    && if_set is_price pricing.completion_per_m_tokens
    && if_set (one_of ("EUR" ∷ "USD" ∷ [])) pricing.currency

abbrev pub admits_catalog : CatalogSpec → Bool
admits_catalog catalog =
    has_length 1 128 catalog.display_name
    && has_length 0 2048 catalog.description
    && not (ltb_ℤ catalog.context_length (pos 256))
    && each_of (modality_text ∷ modality_image ∷ []) catalog.input_modalities
    && each_of (modality_text ∷ modality_image ∷ []) catalog.output_modalities
    && each_of (feature_tool_calling ∷ feature_structured_output ∷ []) catalog.features
    && has_length 0 64 catalog.license
    && if_some admits_pricing catalog.pricing

module _ {K : Platform} where
  unfoldable pub admits_model : BrukModel K → Bool
  admits_model model =
      admits_source model.spec.source
      && (if_set is_served_name model.spec.served_name && has_length 0 63 model.spec.served_name)
      && admits_catalog model.spec.catalog

  -- `self.metadata.name == 'cluster'`
  abbrev pub admits_name : BrukTenant K → Bool
  admits_name tenant = str_eq tenant.metadata.name bruk_tenant_name

  unfoldable pub admits_tenant : BrukTenant K → Bool
  admits_tenant tenant =
      admits_name tenant
      && has_length 0 128 tenant.spec.display_name
      && is_set tenant.spec.infrastructure.node_hostname
      && is_pinned_image tenant.spec.engine.default_image
      && (is_set tenant.spec.confidential.init_data_b64
          && is_blob_text tenant.spec.confidential.init_data_b64)

  -- `self == oldSelf` of modelRef, between a service and its update.
  abbrev pub admits_change : InferenceService K → InferenceService K → Bool
  admits_change old new = str_eq new.spec.model_ref.name old.spec.model_ref.name

abbrev pub admits_engine : EngineSpec → Bool
admits_engine engine =
    if_set (one_of ("fp8" ∷ [])) engine.quantization
    && in_range (pos 256) (pos 1048576) engine.max_model_len
    && in_range (pos 1) (pos 99) engine.gpu_memory_utilization_percent

abbrev pub admits_probes : ProbeOverrides → Bool
admits_probes probes = if_some (in_range (pos 1) (pos 1000)) probes.readiness_failure_threshold

-- `at_most` is `compareTo(...) <= 0` on quantities.
module _ {K : Platform} (at_most : K.Quantity → K.Quantity → Bool) where
  abbrev pub admits_resources : WorkloadResources K → Bool
  admits_resources resources =
      in_range (pos 1) (pos 1) resources.gpus
      && at_most resources.memory.limit (K.must_parse "512Gi")
      && at_most resources.cpu.limit (K.must_parse "128")

  abbrev pub admits_local_volume : LocalVolumeSpec K → Bool
  admits_local_volume volume = is_set volume.lv_name

  -- `has(self.existingClaim) != has(self.localVolume)`: the first asks whether the field is there, and a
  -- field that is there may be "".
  abbrev pub admits_trusted_store : Bool → TrustedStoreSpec K → Bool
  admits_trusted_store has_claim store = elim store.local_volume [
    | none ↦ has_claim
    | some volume ↦ not has_claim && admits_local_volume volume
  ]

  -- A service whose manifest has the field existingClaim, or has not.
  unfoldable pub admits_service : Bool → InferenceService K → Bool
  admits_service has_claim isvc =
      admits_reference isvc.spec.model_ref
      && admits_engine isvc.spec.engine
      && admits_resources isvc.spec.resources
      && admits_trusted_store has_claim isvc.spec.storage.trusted_store
      && if_some admits_probes isvc.spec.probes
