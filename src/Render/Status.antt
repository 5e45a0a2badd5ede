-- ===== src/Render/Status.antt =====
-- The rendering (operator/internal/render/render.go) reads nothing of a service's status.
use bruk.Prelude.{Option, none, some, ◌≡◌, refl}
use bruk.Platform.{Platform}
use bruk.Api.BrukModel.{HuggingFaceSource, BrukModel}
use bruk.Api.InferenceService.{InferenceService, InferenceServiceStatus}
use bruk.Render.{
  Config, deployment, deployment_from, deployment_object, engine_container, engine_args,
}
use bruk.Render.{volumes, failure_threshold, service, service_name}

module _ {K : Platform} (isvc : InferenceService K) (status : InferenceServiceStatus) where
  deployment_from-status :
      (model : BrukModel K) (cfg : Config) (o : Option HuggingFaceSource)
      → model.spec.source.hugging_face ≡ o
      → deployment K (record isvc { status = status }) model cfg ≡ deployment K isvc model cfg
  unfolding deployment deployment_from deployment_object engine_container engine_args volumes
      failure_threshold
  deployment_from-status model cfg none e = rw e refl
  deployment_from-status model cfg (some hf) e = rw e refl

  pub deployment-status :
      (model : BrukModel K) (cfg : Config)
      → deployment K (record isvc { status = status }) model cfg ≡ deployment K isvc model cfg
  deployment-status model cfg = deployment_from-status model cfg _ refl

  pub service-status : service K (record isvc { status = status }) ≡ service K isvc
  unfolding service service_name
  service-status = refl
