-- ===== src/Controller/Inference/Serving/Rollout.antt =====
-- The second half of `Reconcile` (operator/internal/controller/inferenceservice_controller.go), from the
-- shared ConfigMap on, against a server that accepts every write.
use bruk.Prelude.{String, List, [], ◌∷◌, none, ◌≡◌, ◌≢◌, refl, sym, ap}
use bruk.Prelude.{Option-cases, inl, inr}
use mathlib.Core.Path.{subst}
use bruk.Result.{Result, ok}
use bruk.Platform.{Platform}
use bruk.Kube.Workload.{Deployment, Service, ConfigMap}
use bruk.Api.BrukModel.{BrukModel, HuggingFaceSource}
use bruk.Api.InferenceService.{InferenceService}
use bruk.Render.{
  Config, deployment, deployment_object, engine_container, service, gai_config_map, has_value,
}
use bruk.Render.Workload.{deployment_rendered}
use bruk.Client.{Client, World, Call, updated_inference_service_status}
use bruk.Client.{applied_service, applied_deployment}
use bruk.Controller.Status.{ready_status}
use bruk.Controller.Inference.{
  update_ready_status, service_applied, service_owned, deployment_applied, deployment_owned,
  config_map_applied, apply_workload, conflict_checked, spec_checked, model_fetched, tenant_fetched,
  service_fetched, reconcile, own_deployment, own_service, typed_deployment, typed_service,
  typed_config_map, config_of, tenant_key, model_key,
}
use bruk.Controller.Inference
use bruk.Controller.Inference.Trace.{with_config_map, IsWorkload, IsAnswer, IsFront}

-- `SetControllerReference` on an object of the owner's namespace that has no references succeeds.
pub record OwnsFresh (K : Platform) : Type 0 where
  pub owns :
      (name namespace uid : String)
      → (refs : List K.OwnerReference) × (K.set_controller_reference name namespace uid namespace []
          ≡ ok refs)

module _ {K : Platform} (C : Client K) where
  -- The server accepts every write.
  pub record IsAccepting : Type 0 where
    pub config_maps :
        (o : ConfigMap K) (s : C.State) → (a : ConfigMap K) × ((C.apply_config_map o s).0 ≡ ok a)
    pub deployments :
        (o : Deployment K) (s : C.State) → (a : Deployment K) × ((C.apply_deployment o s).0 ≡ ok a)
    pub services :
        (o : Service K) (s : C.State) → (a : Service K) × ((C.apply_service o s).0 ≡ ok a)
    pub statuses :
        (o : InferenceService K) (s : C.State) → (C.update_inference_service_status o s).0 ≡ ok tt

  -- A run that ends well: the workload of the three objects is applied, and the status is of the answer.
  abbrev pub IsServed :
      InferenceService K
      → BrukModel K
      → Config
      → List (Call K)
      → Result (Unit {0}) × World C
      → Type 0
  IsServed isvc model cfg before end =
      (end.0 ≡ ok tt)
      × (d : Deployment K) × (answer : Deployment K) × (s : Service K) × IsWorkload isvc model cfg d
      × IsAnswer C d answer
      × IsFront isvc s
      × (end.1.log
          ≡ updated_inference_service_status (ready_status K isvc model answer cfg)
            ∷ applied_service s
            ∷ applied_deployment d
            ∷ with_config_map isvc isvc.spec.storage.weights_cache before)

module _ {K : Platform} {C : Client K} (accepting : IsAccepting C) (owning : OwnsFresh K)
    (isvc : InferenceService K) (model : BrukModel K) (cfg : Config) where
  service_applied-serves :
      (d answer : Deployment K) (s applied : Service K) (w : World C) (before : List (Call K))
      → IsWorkload isvc model cfg d
      → IsAnswer C d answer
      → IsFront isvc s
      → w.log
        ≡ applied_service s
          ∷ applied_deployment d
          ∷ with_config_map isvc isvc.spec.storage.weights_cache before
      → IsServed C isvc model cfg before (service_applied C isvc model cfg answer (ok applied) w)
  unfolding service_applied update_ready_status
  service_applied-serves d answer s applied w before workload answered front log =
      let ready = ready_status K isvc model answer cfg in
      (
        accepting.statuses ready w.state,
        d,
        answer,
        s,
        workload,
        answered,
        front,
        ap (λ rest. updated_inference_service_status ready ∷ rest) log,
      )

  service_owned-serves :
      (d answer : Deployment K) (w : World C) (before : List (Call K))
      → IsWorkload isvc model cfg d
      → IsAnswer C d answer
      → w.log ≡ applied_deployment d ∷ with_config_map isvc isvc.spec.storage.weights_cache before
      → IsServed C isvc model cfg before (deployment_applied C isvc model cfg (ok answer) w)
  unfolding deployment_applied service_owned service
  service_owned-serves d answer w before workload answered log =
      let (refs, owned) =
        owning.owns isvc.metadata.name isvc.metadata.namespace isvc.metadata.uid in
      let bare = typed_service K (service K isvc) in
      let s : Service K = record bare {
        metadata = record (bare.metadata) { owner_references = refs };
      } in
      let front : own_service K isvc bare ≡ ok s = rw (owned, own_service) refl in
      let (applied, accepted) = accepting.services s w.state in
      subst (λ r. IsServed C isvc model cfg before (service_owned C isvc model cfg answer r w))
        (sym front)
        (rw accepted (
          service_applied-serves d answer s applied _ before workload answered front
            (ap (λ rest. applied_service s ∷ rest) log)))

  deployment_rendered-serves :
      (hf : HuggingFaceSource) (image : String) (w : World C) (before : List (Call K))
      → let fresh = deployment_object K isvc (engine_container K isvc model hf image) cfg in
        deployment K isvc model cfg ≡ ok fresh
        → w.log ≡ with_config_map isvc isvc.spec.storage.weights_cache before
        → IsServed C isvc model cfg before
            (Inference.deployment_rendered C isvc model cfg (ok fresh) w)
  unfolding Inference.deployment_rendered deployment_owned deployment_object
  deployment_rendered-serves hf image w before h log =
      let (refs, owned) =
        owning.owns isvc.metadata.name isvc.metadata.namespace isvc.metadata.uid in
      let bare =
        typed_deployment K
          (deployment_object K isvc (engine_container K isvc model hf image) cfg) in
      let d : Deployment K = record bare {
        metadata = record (bare.metadata) { owner_references = refs };
      } in
      let workload : own_deployment K isvc bare ≡ ok d = rw (owned, own_deployment) refl in
      let (answer, accepted) = accepting.deployments d w.state in
      subst (λ r. IsServed C isvc model cfg before (deployment_owned C isvc model cfg r w))
        (sym workload)
        (rw accepted (
          service_owned-serves d answer _ before (_, h, workload) (w.state, accepted)
            (ap (λ rest. applied_deployment d ∷ rest) log)))

  rendered-serves :
      (hf : HuggingFaceSource) (before : List (Call K))
      → deployment K isvc model cfg
        ≡ ok (deployment_object K isvc (engine_container K isvc model hf cfg.default_image) cfg)
      → (w : World C) → w.log ≡ with_config_map isvc isvc.spec.storage.weights_cache before
      → IsServed C isvc model cfg before
          (Inference.deployment_rendered C isvc model cfg (deployment K isvc model cfg) w)
  rendered-serves hf before h w log =
      subst
        (λ r. IsServed C isvc model cfg before (Inference.deployment_rendered C isvc model cfg r w))
        (sym h) (deployment_rendered-serves hf cfg.default_image w before h log)

  pub apply_workload-serves :
      (w : World C)
      → model.spec.source.hugging_face ≢ none
      → cfg.default_image ≢ ""
      → cfg.init_data_b64 ≢ ""
      → IsServed C isvc model cfg w.log
          (apply_workload C isvc model cfg (has_value isvc.spec.storage.weights_cache) w)
  unfolding apply_workload config_map_applied
  apply_workload-serves w source image blob = elim (Option-cases model.spec.source.hugging_face) [
    | inl missing ↦ absurd (source missing)
    | inr (hf, set) ↦
        let rendered =
          rendered-serves hf w.log (deployment_rendered K isvc model cfg set image blob) in
        elim (Option-cases isvc.spec.storage.weights_cache) [
          | inl uncached ↦
              rw (ap has_value uncached)
                (rendered w (sym (ap (λ c. with_config_map isvc c w.log) uncached)))
          | inr (cache, cached) ↦
              let config_map = typed_config_map K (gai_config_map K isvc.metadata.namespace) in
              let (applied, accepted) = accepting.config_maps config_map w.state in
              rw (ap has_value cached, accepted)
                (rendered _ (sym (ap (λ c. with_config_map isvc c w.log) cached)))
        ]
  ]
