-- ===== src/Render/Exposure.antt =====
-- The Service in front of the Deployment, and the URL that the status publishes.
-- `Service` and `EndpointURL` of operator/internal/render/render.go.
use bruk.Prelude.{String, ◌<>◌, ◌≡◌, refl, Any, here, All}
use bruk.Fmt.{format_d}
use bruk.Result.{ok}
use bruk.Platform.{Platform}
use bruk.Kube.Workload.{ServicePort, Deployment, Service}
use bruk.Api.BrukModel.{BrukModel}
use bruk.Api.InferenceService.{InferenceService}
use bruk.Render.{Config, engine_container, deployment_object, deployment, service}
use bruk.Render.{endpoint_url}
use bruk.Render.Workload.{deployment-IsRendered}

module _ (K : Platform) where
  -- Traffic to a port of the Service reaches a port of a container that it selects.
  pub record Routes (s : Service K) (d : Deployment K) : Type 0 where
    pub same_namespace : s.metadata.namespace ≡ d.metadata.namespace
    pub selects : s.selector ≡ d.spec.template.metadata.labels
    pub reaches :
        All
          (λ p.
            Any (λ c. Any (λ port. port ≡ p.target_port) c.ports) d.spec.template.spec.containers)
          s.ports

  -- The base URL of a port of a Service inside the cluster.
  abbrev pub cluster_url : Service K → ServicePort → String
  cluster_url s p =
      "http://"
      <> s.metadata.name
      <> "."
      <> s.metadata.namespace
      <> ".svc.cluster.local:"
      <> format_d p.port
      <> "/v1"

  -- The Service routes to the pods of the Deployment rendered for the same InferenceService, and
  -- the published URL is that of one of the Service's ports.
  pub service-Routes :
      (isvc : InferenceService K) (model : BrukModel K) (cfg : Config) {d : Deployment K}
      → deployment K isvc model cfg ≡ ok d
      → Routes (service K isvc) d
        × Any (λ p. endpoint_url K isvc ≡ cluster_url (service K isvc) p) (service K isvc).ports
  unfolding deployment_object engine_container service endpoint_url
  service-Routes isvc model cfg h =
      let (hf, set, image, blob, same) = deployment-IsRendered K isvc model cfg h in
      rw same (
        record { same_namespace = refl; selects = refl; reaches = (here (here refl), tt) },
        here refl,
      )
