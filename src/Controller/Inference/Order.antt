-- ===== src/Controller/Inference/Order.antt =====
-- The order of the applications in a run of `Reconcile`
-- (operator/internal/controller/inferenceservice_controller.go).
use bruk.Prelude.{String, true, List, [], ◌∷◌, Option, none, some, ◌≡◌, refl, All, Any, here}
use bruk.Prelude.{◌∙◌, sym, arith}
use bruk.Result.{Result, ok}
use bruk.Platform.{Platform}
use bruk.Kube.Meta.{NamespacedName}
use bruk.Kube.Workload.{Deployment, Service}
use bruk.Api.BrukModel.{BrukModel}
use bruk.Api.InferenceService.{InferenceService, WeightsCacheSpec}
use bruk.Render.{Config, deployment, service, gai_config_map}
use bruk.Render.Volumes.{config_maps_of, needed_config_maps, config_maps_of-volumes}
use bruk.Render.{deployment_object}
use bruk.Render.Workload.{deployment-IsRendered}
use bruk.Client
use bruk.Client.{Client, Call, World, applied_deployment, applied_service}
use bruk.Client.Reads.{OnlyReads, unchanged, read, is_read}
use bruk.Controller.Inference.{reconcile}
use bruk.Controller.Inference.Steps.{reconcile-Run}
use bruk.Controller.Inference.Trace.{
  with_config_map, IsWorkload, IsFront, Rollout, map_refused, unrendered, unowned,
  deployment_refused, front_unowned, front_refused, rolled_out, Run, unfetched, unread, rejected,
  cleared,
}

module _ {K : Platform} where
  -- The call applies the ConfigMap of a name in a namespace.
  abbrev AppliesMap : String → String → Call K → Type 0
  AppliesMap namespace name (Client.applied_config_map c) =
      (c.metadata.namespace ≡ namespace) × (c.metadata.name ≡ name)
  AppliesMap namespace name _ = ⊥

  -- The call applies a Deployment with pods that the Service selects.
  abbrev AppliesBackend : Service K → Call K → Type 0
  AppliesBackend s (Client.applied_deployment d) =
      (d.metadata.namespace ≡ s.metadata.namespace) × (s.selector ≡ d.spec.template.metadata.labels)
  AppliesBackend s _ = ⊥

  -- What must stand in the log before a call: the ConfigMaps that a Deployment mounts, and a
  -- Deployment behind a Service.
  abbrev IsReady : Call K → List (Call K) → Type 0
  IsReady (Client.applied_deployment d) earlier =
      All (λ name. Any (AppliesMap d.metadata.namespace name) earlier)
        (config_maps_of K d.spec.template.spec.volumes)
  IsReady (Client.applied_service s) earlier = Any (AppliesBackend s) earlier
  IsReady _ earlier = Unit

  -- Every call of a log was ready when it was made.
  abbrev pub IsOrdered : List (Call K) → Type 0
  IsOrdered [] = Unit
  IsOrdered (c ∷ earlier) = IsReady c earlier × IsOrdered earlier

  read-IsReady : (c : Call K) (earlier : List (Call K)) → is_read c ≡ true → IsReady c earlier
  read-IsReady (Client.applied_deployment d) earlier h = cc
  read-IsReady (Client.applied_service s) earlier h = cc
  read-IsReady c earlier h = tt

  reads-IsOrdered :
      {before log : List (Call K)} → OnlyReads before log → IsOrdered before → IsOrdered log
  reads-IsOrdered unchanged h = h
  reads-IsOrdered (read {c = c} {after = earlier} r reads) h =
      (read-IsReady c earlier r, reads-IsOrdered reads h)

  map-IsOrdered :
      (isvc : InferenceService K) (o : Option (WeightsCacheSpec K)) (before : List (Call K))
      → IsOrdered before
      → IsOrdered (with_config_map isvc o before)
  map-IsOrdered isvc none before h = h
  map-IsOrdered isvc (some cache) before h = (tt, h)

  module _ (isvc : InferenceService K) (model : BrukModel K) (cfg : Config)
      (before : List (Call K)) where
    maps_applied :
        (o : Option (WeightsCacheSpec K))
        → All
            (λ name. Any (AppliesMap isvc.metadata.namespace name) (with_config_map isvc o before))
            (needed_config_maps K o)
    unfolding gai_config_map
    maps_applied none = tt
    maps_applied (some cache) = (here (refl, refl), tt)

    abbrev HasParts : Deployment K → Type 0
    HasParts d =
        (d.metadata.namespace ≡ isvc.metadata.namespace)
        × (config_maps_of K d.spec.template.spec.volumes
            ≡ needed_config_maps K isvc.spec.storage.weights_cache)
        × (d.spec.template.metadata.labels ≡ ("app", isvc.metadata.name) ∷ [])

    rendered-HasParts : {d : Deployment K} → deployment K isvc model cfg ≡ ok d → HasParts d
    unfolding deployment_object
    rendered-HasParts h =
        let (hf, set, image, blob, same) = deployment-IsRendered K isvc model cfg h in
        rw same (refl, config_maps_of-volumes K isvc, refl)

    workload-HasParts : {d : Deployment K} → IsWorkload isvc model cfg d → HasParts d
    workload-HasParts {d} (rendered, render, owned) =
        let (namespace, maps, labels) = rendered-HasParts render in
        let same_namespace : d.metadata.namespace ≡ rendered.metadata.namespace = ground arith in
        let same_spec : d.spec ≡ rendered.spec = ground arith in
        (same_namespace ∙ namespace, rw same_spec maps, rw same_spec labels)

    front_parts :
        {s : Service K}
        → IsFront isvc s
        → (s.metadata.namespace ≡ isvc.metadata.namespace)
          × (s.selector ≡ ("app", isvc.metadata.name) ∷ [])
    unfolding service
    front_parts owned = ground arith

    abbrev mapped : List (Call K)
    mapped = with_config_map isvc isvc.spec.storage.weights_cache before

    deployment-IsReady :
        {d : Deployment K} → IsWorkload isvc model cfg d → IsReady (applied_deployment d) mapped
    deployment-IsReady {d} work =
        let (namespace, maps, labels) = workload-HasParts work in
        rw (namespace, maps) (maps_applied isvc.spec.storage.weights_cache)

    service-IsReady :
        {d : Deployment K} {s : Service K} {earlier : List (Call K)}
        → IsWorkload isvc model cfg d
        → IsFront isvc s
        → IsReady (applied_service s) (applied_deployment d ∷ earlier)
    service-IsReady work front =
        let (namespace, maps, labels) = workload-HasParts work in
        let (front_namespace, selector) = front_parts front in
        here (namespace ∙ sym front_namespace, selector ∙ sym labels)

    Rollout-IsOrdered :
        {C : Client K} {log : List (Call K)} {r : Result (Unit {0})}
        → IsOrdered before
        → Rollout C isvc model cfg before r log
        → IsOrdered log
    Rollout-IsOrdered h (map_refused e cache set) = (tt, h)
    Rollout-IsOrdered h (unrendered e r render) =
        (tt, map-IsOrdered isvc isvc.spec.storage.weights_cache before h)
    Rollout-IsOrdered h (unowned e) = map-IsOrdered isvc isvc.spec.storage.weights_cache before h
    Rollout-IsOrdered h (deployment_refused e d work) =
        (deployment-IsReady work, map-IsOrdered isvc isvc.spec.storage.weights_cache before h)
    Rollout-IsOrdered h (front_unowned e d work) =
        (deployment-IsReady work, map-IsOrdered isvc isvc.spec.storage.weights_cache before h)
    Rollout-IsOrdered h (front_refused e d s work front) = (
      service-IsReady work front,
      (deployment-IsReady work, map-IsOrdered isvc isvc.spec.storage.weights_cache before h),
    )
    Rollout-IsOrdered h (rolled_out r d answer s work answered front) = (
      tt,
      (
        service-IsReady work front,
        (deployment-IsReady work, map-IsOrdered isvc isvc.spec.storage.weights_cache before h),
      ),
    )

-- In the log of every run a Deployment is applied after each ConfigMap that its pods mount, and a
-- Service after a Deployment of its namespace with the pods that it selects, if the log was so
-- before the run.
pub reconcile-IsOrdered :
    {K : Platform} (C : Client K) (request : NamespacedName) (w : World C)
    → IsOrdered w.log
    → IsOrdered (reconcile C request w).1.log
reconcile-IsOrdered C request w h = of_run (reconcile-Run C request w)
  where
    of_run : {r : Result (Unit {0})} {log : List (Call _)} → Run C request w r log → IsOrdered log
    of_run (unfetched e failed) = (tt, h)
    of_run (unread e log reads) = reads-IsOrdered reads h
    of_run (rejected isvc reason message r log fetched refusal reads) =
        (tt, reads-IsOrdered reads h)
    of_run (cleared isvc tenant model r before log pass reads rollout) =
        Rollout-IsOrdered isvc model _ before (reads-IsOrdered reads h) rollout
