-- ===== src/Controller/Inference/Safety.antt =====
-- The Deployments that `Reconcile` of operator/internal/controller/inferenceservice_controller.go applies,
-- and the checks before them.
use bruk.Prelude.{List, [], ◌∷◌, Option, none, some, ◌≡◌, refl}
use bruk.Prelude.{◌⊎◌, inl, inr, Any, here, there, ◌∙◌, sym, ap}
use mathlib.Core.Path.{subst}
use mathlib.Core.Bool.{false≢true}
use bruk.Result.{Result}
use bruk.Platform.{Platform}
use bruk.Kube.Meta.{NamespacedName}
use bruk.Kube.Workload.{Deployment}
use bruk.Api.BrukModel.{BrukModel}
use bruk.Api.BrukTenant.{BrukTenant}
use bruk.Api.InferenceService.{InferenceService, WeightsCacheSpec}
use bruk.Render.{Config}
use bruk.Client
use bruk.Client.{Client, Call, World, applied_deployment, updated_inference_service_status}
use bruk.Client.Reads.{OnlyReads, unchanged, read, is_read}
use bruk.Controller.Inference.{reconcile, config_of}
use bruk.Controller.Inference.Steps.{reconcile-Run}
use bruk.Controller.Inference.Trace.{
  with_config_map, IsWorkload, Rollout, map_refused, unrendered, unowned, deployment_refused,
  front_unowned, front_refused, rolled_out, Cleared, Run, unfetched, unread, rejected, cleared,
}

module _ {K : Platform} where
  -- The applications of Deployments and Services, the latest first.
  abbrev pub workload_calls : List (Call K) → List (Call K)
  workload_calls [] = []
  workload_calls (Client.applied_deployment d ∷ log) =
      Client.applied_deployment d ∷ workload_calls log
  workload_calls (Client.applied_service s ∷ log) = Client.applied_service s ∷ workload_calls log
  workload_calls (_ ∷ log) = workload_calls log

  pub reads-workload_calls :
      {before log : List (Call K)}
      → OnlyReads before log
      → workload_calls log ≡ workload_calls before
  reads-workload_calls unchanged = refl
  reads-workload_calls (read {c = Client.applied_deployment d} h reads) = cc
  reads-workload_calls (read {c = Client.applied_service s} h reads) = cc
  reads-workload_calls (read {c = c} h reads) = reads-workload_calls reads

  pub map-workload_calls :
      (isvc : InferenceService K) (o : Option (WeightsCacheSpec K)) (before : List (Call K))
      → workload_calls (with_config_map isvc o before) ≡ workload_calls before
  map-workload_calls isvc none before = refl
  map-workload_calls isvc (some cache) before = refl

  reads-keep_deployment :
      {before log : List (Call K)} {d : Deployment K}
      → OnlyReads before log
      → Any (λ c. c ≡ applied_deployment d) log
      → Any (λ c. c ≡ applied_deployment d) before
  reads-keep_deployment unchanged m = m
  reads-keep_deployment (read {c = c} h reads) (here e) =
      absurd (false≢true (sym (ap is_read e) ∙ h))
  reads-keep_deployment (read h reads) (there m) = reads-keep_deployment reads m

  map-keeps_deployment :
      (isvc : InferenceService K) (o : Option (WeightsCacheSpec K)) {before : List (Call K)}
      {d : Deployment K}
      → Any (λ c. c ≡ applied_deployment d) (with_config_map isvc o before)
      → Any (λ c. c ≡ applied_deployment d) before
  map-keeps_deployment isvc none m = m
  map-keeps_deployment isvc (some cache) (here e) = cc
  map-keeps_deployment isvc (some cache) (there m) = m

  module _ (isvc : InferenceService K) (model : BrukModel K) (cfg : Config)
      (before : List (Call K)) where
    abbrev Fresh : Deployment K → Type 0
    Fresh d = Any (λ c. c ≡ applied_deployment d) before ⊎ IsWorkload isvc model cfg d

    older :
        {d : Deployment K}
        → Any
            (λ c. c ≡ applied_deployment d)
            (with_config_map isvc isvc.spec.storage.weights_cache before)
        → Fresh d
    older m = inl (map-keeps_deployment isvc isvc.spec.storage.weights_cache m)

    latest :
        {d d' : Deployment K}
        → IsWorkload isvc model cfg d'
        → Any
            (λ c. c ≡ applied_deployment d)
            (applied_deployment d' ∷ with_config_map isvc isvc.spec.storage.weights_cache before)
        → Fresh d
    latest {d} {d'} work (here e) =
        let same : d' ≡ d = cc in inr (subst (IsWorkload isvc model cfg) same work)
    latest work (there m) = older m

    Rollout-deployment :
        {C : Client K} {r : Result (Unit {0})} {log : List (Call K)} {d : Deployment K}
        → Rollout C isvc model cfg before r log
        → Any (λ c. c ≡ applied_deployment d) log
        → Fresh d
    Rollout-deployment (map_refused e cache set) m = inl (map-keeps_deployment isvc (some cache) m)
    Rollout-deployment (unrendered e r render) (here p) = cc
    Rollout-deployment (unrendered e r render) (there m) = older m
    Rollout-deployment (unowned e) m = older m
    Rollout-deployment (deployment_refused e d' work) m = latest work m
    Rollout-deployment (front_unowned e d' work) m = latest work m
    Rollout-deployment (front_refused e d' s work front) (here p) = cc
    Rollout-deployment (front_refused e d' s work front) (there m) = latest work m
    Rollout-deployment (rolled_out r d' answer s work answered front) (here p) = cc
    Rollout-deployment (rolled_out r d' answer s work answered front) (there (here p)) = cc
    Rollout-deployment (rolled_out r d' answer s work answered front) (there (there m)) =
        latest work m

-- A Deployment that the log shows as applied after a run was applied before it, or is the one
-- rendered for a service, a tenant and a model that the API server handed to this run and that have
-- passed every check: no reserved volume, a source, a context window within the model's, and no
-- conflict over the trusted store.
pub applied_deployment-Cleared :
    {K : Platform} (C : Client K) (request : NamespacedName) (w : World C) (d : Deployment K)
    → Any (λ c. c ≡ applied_deployment d) (reconcile C request w).1.log
    → Any (λ c. c ≡ applied_deployment d) w.log
      ⊎ ((isvc : InferenceService K) × (tenant : BrukTenant K) × (model : BrukModel K) × Cleared C
            request w isvc tenant model
          × IsWorkload isvc model (config_of K tenant) d)
applied_deployment-Cleared C request w d m = of_run (reconcile-Run C request w) m
  where
    of_run :
        {r : Result (Unit {0})} {log : List (Call _)}
        → Run C request w r log
        → Any (λ c. c ≡ applied_deployment d) log
        → Any (λ c. c ≡ applied_deployment d) w.log
          ⊎ ((isvc : InferenceService _) × (tenant : BrukTenant _) × (model : BrukModel _) × Cleared
                C request w isvc tenant model
              × IsWorkload isvc model (config_of _ tenant) d)
    of_run (unfetched e failed) (here p) = cc
    of_run (unfetched e failed) (there m') = inl m'
    of_run (unread e log reads) m' = inl (reads-keep_deployment reads m')
    of_run (rejected isvc reason message r log fetched refusal reads) (here p) = cc
    of_run (rejected isvc reason message r log fetched refusal reads) (there m') =
        inl (reads-keep_deployment reads m')
    of_run (cleared isvc tenant model r before log pass reads rollout) m' =
        elim (Rollout-deployment isvc model (config_of _ tenant) before rollout m') [
          | inl old ↦ inl (reads-keep_deployment reads old)
          | inr work ↦ inr (isvc, tenant, model, pass, work)
        ]
