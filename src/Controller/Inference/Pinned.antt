-- ===== src/Controller/Inference/Pinned.antt =====
-- What reaches the cluster of a tenant's image and initdata blob (`Reconcile` of
-- operator/internal/controller/inferenceservice_controller.go) when the API server admits tenants by
-- the markers of operator/api/v1alpha1/bruktenant_types.go.
use bruk.Prelude.{String, true, [], ◌∷◌, ◌≡◌, refl, sym, ◌∙◌, ap, All, Any, ◌⊎◌, inl, inr}
use mathlib.Core.Path.{subst}
use bruk.Result.{ok}
use bruk.Platform.{Platform}
use bruk.Kube.Meta.{NamespacedName}
use bruk.Kube.Workload.{Deployment}
use bruk.Api.BrukTenant.{BrukTenant}
use bruk.Api.BrukModel.{BrukModel}
use bruk.Api.InferenceService.{InferenceService}
use bruk.Api.Patterns.{is_pinned_image, is_blob_text}
use bruk.Api.Admission.{admits_tenant}
use bruk.Api.Admission.Laws.{admits_tenant-patterns}
use bruk.Render.{Config, init_data_annotation, deployment_object, engine_container}
use bruk.Render.Workload.{deployment-IsRendered}
use bruk.Client.{Client, World, applied_deployment}
use bruk.Controller.Inference.{reconcile, config_of}
use bruk.Controller.Inference.Trace.{IsWorkload}
use bruk.Controller.Inference.Safety.{applied_deployment-Cleared}
use bruk.Controller.Inference.Exclusion.Applied.{owned_by}

module _ {K : Platform} where
  -- Each container's image is pinned by its digest, and the initdata annotation is a blob's text.
  pub record IsPinned (d : Deployment K) : Type 0 where
    pub images : All (λ c. is_pinned_image c.image ≡ true) d.spec.template.spec.containers
    pub blob : String
    pub annotated : d.spec.template.metadata.annotations ≡ (init_data_annotation, blob) ∷ []
    pub text : is_blob_text blob ≡ true

  workload-IsPinned :
      (isvc : InferenceService K) (model : BrukModel K) (cfg : Config) (d : Deployment K)
      → is_pinned_image cfg.default_image ≡ true
      → is_blob_text cfg.init_data_b64 ≡ true
      → IsWorkload isvc model cfg d
      → IsPinned d
  unfolding deployment_object engine_container
  workload-IsPinned isvc model cfg d image text (rendered, render, owned) =
      let (hf, set, image_set, blob_set, same) = deployment-IsRendered K isvc model cfg render in
      let (refs, kept, references, name, namespace, spec) = owned_by isvc rendered d _ refl owned in
      let fresh =
        deployment_object K isvc (engine_container K isvc model hf cfg.default_image) cfg in
      let shape : d.spec ≡ fresh.spec = spec ∙ ap (λ (x : Deployment K). x.spec) same in
      record {
        images =
            subst (λ s. All (λ c. is_pinned_image c.image ≡ true) s.template.spec.containers)
              (sym shape) (image, tt);
        blob = cfg.init_data_b64;
        annotated = ap (λ s. s.template.metadata.annotations) shape;
        text = text;
      }

-- Where every tenant that the server hands out has been admitted, each Deployment that a run applies
-- has images pinned by their sha256 digest alone, and an initdata annotation of base64 text.
pub applied_deployment-IsPinned :
    {K : Platform} (C : Client K)
    → ((key : NamespacedName) (s : C.State) (tenant : BrukTenant K)
        → (C.get_bruk_tenant key s).0 ≡ ok tenant
        → admits_tenant tenant ≡ true)
    → (request : NamespacedName) (w : World C) (d : Deployment K)
    → Any (λ c. c ≡ applied_deployment d) (reconcile C request w).1.log
    → Any (λ c. c ≡ applied_deployment d) w.log ⊎ IsPinned d
applied_deployment-IsPinned C admitted request w d m =
    elim (applied_deployment-Cleared C request w d m) [
      | inl before ↦ inl before
      | inr (isvc, tenant, model, pass, work) ↦
          let (image, text) =
            admits_tenant-patterns tenant (admitted _ _ tenant pass.tenant_fetched) in
          inr (workload-IsPinned isvc model (config_of _ tenant) d image text work)
    ]
