-- ===== src/Controller/Inference/Again/Workload.antt =====
-- The workload of two runs of `Reconcile` (operator/internal/controller/inferenceservice_controller.go) side
-- by side, for services that differ in the status alone, when nobody else writes.
use bruk.Prelude.{String, Bool, true, false, List, [], ◌∷◌, ◌≡◌, refl, sym, ◌∙◌, ap}
use mathlib.Core.Path.{subst}
use bruk.Result.{Result, ok, err}
use bruk.Platform.{Platform}
use bruk.Kube.Workload.{Deployment, Service, ConfigMap}
use bruk.Api.BrukModel.{BrukModel}
use bruk.Api.InferenceService.{InferenceService, InferenceServiceStatus}
use bruk.Render.{Config, gai_config_map}
use bruk.Render.Status.{deployment-status, service-status}
use bruk.Client.{Client, World, Call, updated_inference_service_status}
use bruk.Client.{applied_service, applied_deployment, applied_config_map}
use bruk.Controller.Status.{failed_status, ready_status, deployment_available}
use bruk.Controller.Status.Honest.{KeepsConditions}
use bruk.Controller.Status.Settles.{
  KeepsSame, IsSettling, with_status, failed_status-IsSettling, ready_status-IsSettling,
  ready_status-available,
}
use bruk.Controller.Conflict.Undisturbed.{MakesController, Related, IsOwn, IsUndisturbed, Beside}
use bruk.Controller.Inference.{
  fail_configured, update_ready_status, service_applied, service_owned, deployment_applied,
  deployment_owned, deployment_rendered, config_map_applied, apply_workload, typed_config_map,
  own_deployment, typed_deployment,
}

module _ {K : Platform} (isvc : InferenceService K) (status : InferenceServiceStatus)
    {C : Client K} where
  -- If the first run succeeds, both end with one status update of one shape, after the same calls.
  abbrev pub Twin : Result (Unit {0}) × World C → Result (Unit {0}) × World C → Type 0
  Twin a b =
      a.0 ≡ ok tt
      → (F : InferenceService K → InferenceService K) × IsSettling F
        × (rest : List (Call K)) × (a.1.log ≡ updated_inference_service_status (F isvc) ∷ rest)
        × (b.1.log ≡ updated_inference_service_status (F (with_status isvc status)) ∷ rest)

module _ {K : Platform} {C : Client K} (law : KeepsConditions K) (same_list : KeepsSame K)
    {isvc : InferenceService K} {Like : C.State → C.State → Type 0} (owning : MakesController K)
    (calm : IsUndisturbed C isvc Like) (status : InferenceServiceStatus) where
  abbrev isvc' : InferenceService K
  isvc' = with_status isvc status

  pub fail_configured-Twin :
      (reason message : String) (w v : World C)
      → Beside C isvc Like w v
      → Twin isvc status
          (fail_configured C isvc reason message w)
          (fail_configured C isvc' reason message v)
  unfolding fail_configured
  fail_configured-Twin reason message w v h done = (
    λ i. failed_status K i reason message,
    failed_status-IsSettling law same_list reason message,
    w.log,
    refl,
    ap (λ log. updated_inference_service_status (failed_status K isvc' reason message) ∷ log)
        (sym h.0),
  )

  abbrev references : Result (Deployment K) → List K.OwnerReference
  references (ok d) = d.metadata.owner_references
  references (err e) = []

  own_deployment-IsOwn : (o d : Deployment K) → own_deployment K isvc o ≡ ok d → IsOwn isvc d
  own_deployment-IsOwn o d made = by_answer _ refl
    where
      by_answer :
          (r : Result (List K.OwnerReference))
          → K.set_controller_reference isvc.metadata.name isvc.metadata.namespace isvc.metadata.uid
              o.metadata.namespace o.metadata.owner_references
            ≡ r
          → IsOwn isvc d
      by_answer (ok refs) e =
          let same : ok (record o { metadata = record (o.metadata) { owner_references = refs } })
              ≡ ok d =
            rw (e, own_deployment) at made in
          subst (λ found. K.is_controlled_by found isvc.metadata.uid ≡ true) (ap references same)
            (owning.controls _ _ _ _ _ refs e)
      by_answer (err f) e = let no : err f ≡ ok d = rw (e, own_deployment) at made in cc

  module _ (model : BrukModel K) (cfg : Config) where
    service_applied-Twin :
        (d e : Deployment K) (r q : Result (Service K)) (w v : World C)
        → deployment_available K d ≡ deployment_available K e
        → Related (λ a b. Unit {0}) r q
        → Beside C isvc Like w v
        → Twin isvc status
            (service_applied C isvc model cfg d r w)
            (service_applied C isvc' model cfg e q v)
    unfolding service_applied update_ready_status
    service_applied-Twin d e (err f) q w v available same beside = λ done. cc
    service_applied-Twin d e (ok s) (err f) w v available same beside = absurd same
    service_applied-Twin d e (ok s) (ok t) w v available same beside = λ done. (
      λ i. ready_status K i model d cfg,
      ready_status-IsSettling law same_list model d cfg,
      w.log,
      refl,
      ap (λ log. updated_inference_service_status (ready_status K isvc' model e cfg) ∷ log)
            (sym beside.0)
          ∙ ap (λ i. updated_inference_service_status i ∷ w.log)
              (ready_status-available isvc' model e d cfg (sym available)),
    )

    service_owned-Twin :
        (d e : Deployment K) (r : Result (Service K)) (w v : World C)
        → deployment_available K d ≡ deployment_available K e
        → Beside C isvc Like w v
        → Twin isvc status
            (service_owned C isvc model cfg d r w)
            (service_owned C isvc' model cfg e r v)
    unfolding service_owned
    service_owned-Twin d e (err f) w v available beside = λ done. cc
    service_owned-Twin d e (ok s) w v available beside =
        let (same, next) = calm.service s w.state v.state beside.1 in
        service_applied-Twin d e _ _ _ _ available same
          (ap (λ log. applied_service s ∷ log) beside.0, next)

    deployment_applied-Twin :
        (r q : Result (Deployment K)) (w v : World C)
        → Related (λ d e. deployment_available K d ≡ deployment_available K e) r q
        → Beside C isvc Like w v
        → Twin isvc status
            (deployment_applied C isvc model cfg r w)
            (deployment_applied C isvc' model cfg q v)
    unfolding deployment_applied
    deployment_applied-Twin (err f) q w v same beside = λ done. cc
    deployment_applied-Twin (ok d) (err f) w v same beside = absurd same
    deployment_applied-Twin (ok d) (ok e) w v same beside =
        rw (service-status isvc status) (service_owned-Twin d e _ w v same beside)

    deployment_owned-Twin :
        (r : Result (Deployment K)) (w v : World C)
        → ((d : Deployment K) → r ≡ ok d → IsOwn isvc d)
        → Beside C isvc Like w v
        → Twin isvc status
            (deployment_owned C isvc model cfg r w)
            (deployment_owned C isvc' model cfg r v)
    unfolding deployment_owned
    deployment_owned-Twin (err f) w v own beside = λ done. cc
    deployment_owned-Twin (ok d) w v own beside =
        let (same, next) = calm.own_deployment d w.state v.state (own d refl) beside.1 in
        deployment_applied-Twin _ _ _ _ same (ap (λ log. applied_deployment d ∷ log) beside.0, next)

    deployment_rendered-Twin :
        (r : Result (Deployment K)) (w v : World C)
        → Beside C isvc Like w v
        → Twin isvc status
            (deployment_rendered C isvc model cfg r w)
            (deployment_rendered C isvc' model cfg r v)
    unfolding deployment_rendered
    deployment_rendered-Twin (err e) w v beside = fail_configured-Twin _ _ w v beside
    deployment_rendered-Twin (ok d) w v beside =
        deployment_owned-Twin _ w v (own_deployment-IsOwn (typed_deployment K d)) beside

    config_map_applied-Twin :
        (r q : Result (ConfigMap K)) (w v : World C)
        → Related (λ a b. Unit {0}) r q
        → Beside C isvc Like w v
        → Twin isvc status
            (config_map_applied C isvc model cfg r w)
            (config_map_applied C isvc' model cfg q v)
    unfolding config_map_applied
    config_map_applied-Twin (err e) q w v same beside = λ done. cc
    config_map_applied-Twin (ok c) (err f) w v same beside = absurd same
    config_map_applied-Twin (ok c) (ok b) w v same beside =
        rw (deployment-status isvc status model cfg) (deployment_rendered-Twin _ w v beside)

    pub apply_workload-Twin :
        (cached : Bool) (w v : World C)
        → Beside C isvc Like w v
        → Twin isvc status
            (apply_workload C isvc model cfg cached w)
            (apply_workload C isvc' model cfg cached v)
    unfolding apply_workload
    apply_workload-Twin false w v h =
        rw (deployment-status isvc status model cfg) (deployment_rendered-Twin _ w v h)
    apply_workload-Twin true w v h =
        let config_map = typed_config_map K (gai_config_map K isvc.metadata.namespace) in
        let (same, next) = calm.config_map config_map w.state v.state h.1 in
        config_map_applied-Twin _ _ _ _ same
          (ap (λ log. applied_config_map config_map ∷ log) h.0, next)
