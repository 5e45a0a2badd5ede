-- ===== src/Api/Admission/Laws.antt =====
-- What the admission markers of operator/api/v1alpha1 guarantee the reconcilers.
use bruk.Prelude.{String, Bool, true, false, none, ◌≡◌, ◌≢◌, arith}
use bruk.Prelude.{Option-cases, inl, inr}
use bruk.Platform.{Platform}
use bruk.Api.BrukModel.{BrukModel}
use bruk.Api.BrukTenant.{BrukTenant}
use bruk.Api.InferenceService.{InferenceService}
use bruk.Api.Patterns.{is_pinned_image, is_blob_text}
use bruk.Api.Admission.{admits_model, admits_tenant, admits_service, admits_trusted_store}

pinned-set : (s : String) → is_pinned_image s ≡ true → s ≢ ""
unfolding is_pinned_image
pinned-set s h empty = let no : false ≡ true = (rw empty at h) in cc

blob-set : (s : String) → is_blob_text s ≡ true → s ≢ ""
unfolding is_blob_text
blob-set s h empty = let no : false ≡ true = (rw empty at h) in cc

module _ {K : Platform} where
  pub admits_model-source :
      (model : BrukModel K) → admits_model model ≡ true → model.spec.source.hugging_face ≢ none
  unfolding admits_model
  admits_model-source model h missing = let no : false ≡ true = (rw missing at h) in cc

  pub admits_tenant-patterns :
      (tenant : BrukTenant K)
      → admits_tenant tenant ≡ true
      → (is_pinned_image tenant.spec.engine.default_image ≡ true)
        × (is_blob_text tenant.spec.confidential.init_data_b64 ≡ true)
  unfolding admits_tenant
  admits_tenant-patterns tenant h = (ground arith, ground arith)

  pub admits_tenant-set :
      (tenant : BrukTenant K)
      → admits_tenant tenant ≡ true
      → (tenant.spec.engine.default_image ≢ "") × (tenant.spec.confidential.init_data_b64 ≢ "")
  admits_tenant-set tenant h =
      let (image, blob) = admits_tenant-patterns tenant h in (pinned-set _ image, blob-set _ blob)

  pub admits_service-unreserved :
      (at_most : K.Quantity → K.Quantity → Bool) (isvc : InferenceService K)
      → admits_service at_most true isvc ≡ true
      → isvc.spec.storage.trusted_store.local_volume ≡ none
  unfolding admits_service
  admits_service-unreserved at_most isvc h =
      let store : admits_trusted_store at_most true isvc.spec.storage.trusted_store ≡ true =
        ground arith in
      elim (Option-cases isvc.spec.storage.trusted_store.local_volume) [
        | inl absent ↦ absent
        | inr (volume, present) ↦ let no : false ≡ true = (rw present at store) in cc
      ]
