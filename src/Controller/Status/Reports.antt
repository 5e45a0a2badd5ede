-- ===== src/Controller/Status/Reports.antt =====
-- What `updateReadyStatus` of operator/internal/controller/inferenceservice_controller.go publishes of
-- the rollout.
use bruk.Prelude.{◌<>◌, some, arith, ◌≡◌, refl, All, Any, here, there, str_eq_iff}
use bruk.Prelude.{◌≢◌, sym}
use bruk.Result.{ok}
use bruk.Platform.{Platform}
use bruk.Kube.Workload.{Deployment, Service}
use bruk.Api.BrukModel.{BrukModel}
use bruk.Api.InferenceService.{InferenceService}
use bruk.Render.{
  Config, deployment, deployment_object, engine_container, engine_args, service, endpoint_url,
}
use bruk.Render.{init_data_annotation, init_data_hash, resolve_image}
use bruk.Render.Workload.{deployment-IsRendered}
use bruk.Render.Exposure.{cluster_url}
use bruk.Controller.Status.{image_or_empty, ready_status}

image_or_empty-resolve_image :
    (cfg : Config) → cfg.default_image ≢ "" → image_or_empty (resolve_image cfg) ≡ cfg.default_image
unfolding resolve_image
image_or_empty-resolve_image cfg set = ground (arith, str_eq_iff cfg.default_image "")

module _ {K : Platform} where
  -- The published image is that of every container, the published name is the one that the engine is
  -- told to serve, the hash is of the blob on the pods, and the URL is of a port of the Service.
  pub record IsReport (i : InferenceService K) (d : Deployment K) (s : Service K) : Type 0 where
    pub image : All (λ c. c.image ≡ i.status.resolved_image) d.spec.template.spec.containers
    pub model :
        All
          (λ c. Any (λ arg. arg ≡ "--served-model-name=" <> i.status.served_model_name) c.args)
          d.spec.template.spec.containers
    pub hash :
        Any
          (λ a.
            (a.0 ≡ init_data_annotation) × (i.status.applied_init_data_hash ≡ init_data_hash K a.1))
          d.spec.template.metadata.annotations
    pub url : Any (λ p. i.status.endpoint ≡ some (record { url = cluster_url K s p })) s.ports

  -- After a rollout the status describes the workload that was rendered for it, whatever the server
  -- answered to the application: its image, the model's served name, the hash of the initdata
  -- on its pods, and the URL of the Service in front of it.
  pub ready_status-IsReport :
      (isvc : InferenceService K) (model : BrukModel K) (cfg : Config) (answer : Deployment K)
      {d : Deployment K}
      → deployment K isvc model cfg ≡ ok d
      → IsReport (ready_status K isvc model answer cfg) d (service K isvc)
  unfolding ready_status deployment_object engine_container engine_args service endpoint_url
  ready_status-IsReport isvc model cfg answer h =
      let (hf, sourced, set, blob, same) = deployment-IsRendered K isvc model cfg h in
      rw same (record {
        image = (sym (image_or_empty-resolve_image cfg set), tt);
        model = (there (here refl), tt);
        hash = here (refl, refl);
        url = here refl;
      })
