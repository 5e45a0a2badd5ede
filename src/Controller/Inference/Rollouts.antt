-- ===== src/Controller/Inference/Rollouts.antt =====
-- The application of the workload in `Reconcile` of
-- operator/internal/controller/inferenceservice_controller.go against `Rollout` of Trace.
use bruk.Prelude.{List, ◌∷◌, Option, none, some, ◌≡◌, refl}
use bruk.Prelude.{◌∙◌, ap, sym}
use bruk.Result.{Result, ok, err}
use bruk.Platform.{Platform}
use bruk.Kube.Workload.{Deployment, Service, ConfigMap}
use bruk.Api.BrukModel.{BrukModel}
use bruk.Api.InferenceService.{InferenceService, WeightsCacheSpec}
use bruk.Render.{Config, deployment, service, has_value}
use bruk.Client.{Client, Call, World, applied_deployment, applied_service}
use bruk.Controller.Inference.{
  fail_configured, update_ready_status, service_applied, service_owned, deployment_applied,
  deployment_owned, deployment_rendered, config_map_applied, apply_workload, own_deployment,
  own_service, typed_deployment, typed_service,
}
use bruk.Controller.Inference.Trace.{
  with_config_map, IsWorkload, IsFront, IsAnswer, Rollout, map_refused, unrendered, unowned,
  deployment_refused, front_unowned, front_refused, rolled_out,
}

module _ {K : Platform} (C : Client K) (isvc : InferenceService K) (model : BrukModel K)
    (cfg : Config) (before : List (Call K)) where
  abbrev mapped : List (Call K)
  mapped = with_config_map isvc isvc.spec.storage.weights_cache before

  -- A stage ends as a rollout from the log `before`.
  abbrev pub Ends : (Result (Unit {0}) × World C) → Type 0
  Ends r = Rollout C isvc model cfg before r.0 r.1.log

  service_applied-Ends :
      (d answer : Deployment K) (s : Service K) (r : Result (Service K)) (w : World C)
      → IsWorkload isvc model cfg d
      → IsAnswer C d answer
      → IsFront isvc s
      → w.log ≡ applied_service s ∷ applied_deployment d ∷ mapped
      → Ends (service_applied C isvc model cfg answer r w)
  unfolding service_applied update_ready_status
  service_applied-Ends d answer s (err e) w work answered front log =
      rw log (front_refused e d s work front)
  service_applied-Ends d answer s (ok s') w work answered front log =
      rw log (rolled_out _ d answer s work answered front)

  service_owned-Ends :
      (d answer : Deployment K) (r : Result (Service K)) (w : World C)
      → IsWorkload isvc model cfg d
      → IsAnswer C d answer
      → own_service K isvc (typed_service K (service K isvc)) ≡ r
      → w.log ≡ applied_deployment d ∷ mapped
      → Ends (service_owned C isvc model cfg answer r w)
  unfolding service_owned
  service_owned-Ends d answer (err e) w work answered owned log = rw log (front_unowned e d work)
  service_owned-Ends d answer (ok s) w work answered owned log =
      service_applied-Ends d answer s _ _ work answered owned (rw log refl)

  deployment_applied-Ends :
      (d : Deployment K) (r : Result (Deployment K)) (s : C.State) (w : World C)
      → IsWorkload isvc model cfg d
      → (C.apply_deployment d s).0 ≡ r
      → w.log ≡ applied_deployment d ∷ mapped
      → Ends (deployment_applied C isvc model cfg r w)
  unfolding deployment_applied
  deployment_applied-Ends d (err e) s w work answered log = rw log (deployment_refused e d work)
  deployment_applied-Ends d (ok answer) s w work answered log =
      service_owned-Ends d answer _ w work (s, answered) refl log

  deployment_owned-Ends :
      (rendered : Deployment K) (r : Result (Deployment K)) (w : World C)
      → deployment K isvc model cfg ≡ ok rendered
      → own_deployment K isvc (typed_deployment K rendered) ≡ r
      → w.log ≡ mapped
      → Ends (deployment_owned C isvc model cfg r w)
  unfolding deployment_owned
  deployment_owned-Ends rendered (err e) w render owned log = rw log (unowned e)
  deployment_owned-Ends rendered (ok d) w render owned log =
      deployment_applied-Ends d _ w.state _ (rendered, render, owned) refl (rw log refl)

  deployment_rendered-Ends :
      (r : Result (Deployment K)) (w : World C)
      → deployment K isvc model cfg ≡ r
      → w.log ≡ mapped
      → Ends (deployment_rendered C isvc model cfg r w)
  unfolding deployment_rendered fail_configured
  deployment_rendered-Ends (err e) w render log = rw log (unrendered e _ render)
  deployment_rendered-Ends (ok rendered) w render log =
      deployment_owned-Ends rendered _ w render refl log

  config_map_applied-Ends :
      (r : Result (ConfigMap K)) (w : World C) {cache : WeightsCacheSpec K}
      → isvc.spec.storage.weights_cache ≡ some cache
      → w.log ≡ with_config_map isvc (some cache) before
      → Ends (config_map_applied C isvc model cfg r w)
  unfolding config_map_applied
  config_map_applied-Ends (err e) w {cache} set log = rw log (map_refused e cache set)
  config_map_applied-Ends (ok c) w {cache} set log =
      deployment_rendered-Ends _ w refl (log ∙ ap (λ o. with_config_map isvc o before) (sym set))

  pub apply_workload-Ends :
      (cache : Option (WeightsCacheSpec K)) (w : World C)
      → isvc.spec.storage.weights_cache ≡ cache
      → w.log ≡ before
      → Ends (apply_workload C isvc model cfg (has_value cache) w)
  unfolding apply_workload
  apply_workload-Ends none w set log =
      deployment_rendered-Ends _ w refl (log ∙ ap (λ o. with_config_map isvc o before) (sym set))
  apply_workload-Ends (some cache) w set log =
      config_map_applied-Ends _ _ {cache = cache} set (ap (with_config_map isvc (some cache)) log)
