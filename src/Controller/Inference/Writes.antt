-- ===== src/Controller/Inference/Writes.antt =====
-- The statuses that `Reconcile` of operator/internal/controller/inferenceservice_controller.go writes.
use mathlib.Core.Path.{subst}
use mathlib.Core.Bool.{false≢true}
use bruk.Prelude.{
  String, List, ◌∷◌, Option, none, some, ◌≡◌, refl, ◌⊎◌, inl, inr, Any, here, there, ◌∙◌, sym, ap,
}
use bruk.Result.{Result, ok}
use bruk.Platform.{Platform}
use bruk.Kube.Meta.{NamespacedName}
use bruk.Kube.Workload.{Deployment}
use bruk.Api.BrukModel.{BrukModel}
use bruk.Api.InferenceService.{InferenceService, WeightsCacheSpec}
use bruk.Render.{Config}
use bruk.Client
use bruk.Client.{Client, Call, World, updated_inference_service_status}
use bruk.Client.Reads.{OnlyReads, unchanged, read, is_read}
use bruk.Prelude.{Bool, true, false}
use bruk.Kube.Meta.{ObjectMeta}
use bruk.Controller.Status.{failed_status, availability_status, ready_status, deployment_available}
use bruk.Controller.Status.Honest.{KeepsConditions, IsHonest, failed_status-IsHonest}
use bruk.Controller.Status.Honest.{ready_status-IsHonest}
use bruk.Controller.Inference.{reconcile}
use bruk.Controller.Inference.Steps.{reconcile-Run}
use bruk.Controller.Inference.Trace.{
  with_config_map, Rollout, map_refused, unrendered, unowned, deployment_refused, front_unowned,
  front_refused, rolled_out, Run, unfetched, unread, rejected, cleared,
}

module _ {K : Platform} where
  -- The fetched service with another status, which is of its generation.
  pub record IsUpdateOf (isvc i : InferenceService K) : Type 0 where
    pub same_metadata : i.metadata ≡ isvc.metadata
    pub same_spec : i.spec ≡ isvc.spec
    pub observed : i.status.observed_generation ≡ isvc.metadata.generation

  failed_status-IsUpdateOf :
      (isvc : InferenceService K) (reason message : String)
      → IsUpdateOf isvc (failed_status K isvc reason message)
  unfolding failed_status
  failed_status-IsUpdateOf isvc reason message = record {
    same_metadata = refl;
    same_spec = refl;
    observed = refl;
  }

  availability_status-keeps :
      (isvc : InferenceService K) (available : Bool)
      → ((availability_status K isvc available).metadata ≡ isvc.metadata)
        × ((availability_status K isvc available).spec ≡ isvc.spec)
  unfolding availability_status
  availability_status-keeps isvc true = (refl, refl)
  availability_status-keeps isvc false = (refl, refl)

  ready_status-IsUpdateOf :
      (isvc : InferenceService K) (model : BrukModel K) (d : Deployment K) (cfg : Config)
      → IsUpdateOf isvc (ready_status K isvc model d cfg)
  unfolding ready_status
  ready_status-IsUpdateOf isvc model d cfg =
      let (metadata, spec) = availability_status-keeps _ (deployment_available K d) in
      record {
        same_metadata = metadata;
        same_spec = spec;
        observed = ap (λ (m : ObjectMeta K). m.generation) metadata;
      }

  -- A log whose last entry is the status that a run has written.
  abbrev Written : InferenceService K → List (Call K) → Type 0
  Written isvc log =
      (i : InferenceService K) × (rest : List (Call K)) × (log
        ≡ updated_inference_service_status i ∷ rest)
      × IsUpdateOf isvc i

  Rollout-Written :
      {C : Client K} {isvc : InferenceService K} {model : BrukModel K} {cfg : Config}
      {before log : List (Call K)} {r : Result (Unit {0})}
      → Rollout C isvc model cfg before r log
      → r ≡ ok tt
      → Written isvc log
  Rollout-Written (map_refused e cache set) h = cc
  Rollout-Written {isvc} (unrendered e r render) h = (_, _, refl, failed_status-IsUpdateOf isvc _ _)
  Rollout-Written (unowned e) h = cc
  Rollout-Written (deployment_refused e d work) h = cc
  Rollout-Written (front_unowned e d work) h = cc
  Rollout-Written (front_refused e d s work front) h = cc
  Rollout-Written {isvc} {model} {cfg} (rolled_out r d answer s work answered front) h =
      (_, _, refl, ready_status-IsUpdateOf isvc model answer cfg)

  Run-Written :
      {C : Client K} {request : NamespacedName} {w : World C} {isvc : InferenceService K}
      {r : Result (Unit {0})} {log : List (Call K)}
      → Run C request w r log
      → (C.get_inference_service request w.state).0 ≡ ok isvc
      → r ≡ ok tt
      → Written isvc log
  Run-Written (unfetched e failed) fetched h = cc
  Run-Written (unread e log reads) fetched h = cc
  Run-Written {isvc} (rejected isvc' reason message r log fetched' refusal reads) fetched h =
      let same : isvc' ≡ isvc = cc in
      (
        _,
        _,
        refl,
        subst (λ s. IsUpdateOf s (failed_status _ isvc' reason message)) same
            (failed_status-IsUpdateOf isvc' reason message),
      )
  Run-Written {isvc} (cleared isvc' tenant model r before log pass reads rollout) fetched h =
      let e = pass.isvc_fetched in
      let same : isvc' ≡ isvc = cc in subst (λ s. Written s log) same (Rollout-Written rollout h)

-- A reconcile of a service that exists and that returns no error has, as its last call, written
-- the status of the service for its generation, with metadata and spec as they were fetched.
pub reconcile-Written :
    {K : Platform} (C : Client K) (request : NamespacedName) (w : World C)
    (isvc : InferenceService K)
    → (C.get_inference_service request w.state).0 ≡ ok isvc
    → (reconcile C request w).0 ≡ ok tt
    → (i : InferenceService K) × (rest : List (Call K)) × ((reconcile C request w).1.log
        ≡ updated_inference_service_status i ∷ rest)
      × IsUpdateOf isvc i
reconcile-Written C request w isvc fetched h = Run-Written (reconcile-Run C request w) fetched h

abbrev is_status : {K : Platform} → Call K → Bool
is_status (Client.updated_inference_service_status i) = true
is_status _ = false

read-is_status : {K : Platform} (c : Call K) → is_read c ≡ true → is_status c ≡ false
read-is_status (Client.updated_inference_service_status i) h = cc
read-is_status c h = refl

module _ {K : Platform} (law : KeepsConditions K) where
  -- Every status in the log was there before, or is honest.
  abbrev HonestSince : List (Call K) → List (Call K) → Type 0
  HonestSince before log =
      (i : InferenceService K)
      → Any (λ c. c ≡ updated_inference_service_status i) log
      → Any (λ c. c ≡ updated_inference_service_status i) before ⊎ IsHonest i

  past-Honest :
      {before log : List (Call K)} (c : Call K)
      → is_status c ≡ false
      → HonestSince before log
      → HonestSince before (c ∷ log)
  past-Honest c other h i (here e) = absurd (false≢true (sym other ∙ ap is_status e))
  past-Honest c other h i (there m) = h i m

  written-Honest :
      {before log : List (Call K)} (i : InferenceService K)
      → IsHonest i
      → HonestSince before log
      → HonestSince before (updated_inference_service_status i ∷ log)
  written-Honest i' honest h i (here e) = let same : i' ≡ i = cc in inr (subst IsHonest same honest)
  written-Honest i' honest h i (there m) = h i m

  reads-Honest : {before log : List (Call K)} → OnlyReads before log → HonestSince before log
  reads-Honest unchanged i m = inl m
  reads-Honest (read {c = c} h reads) i m =
      past-Honest c (read-is_status c h) (reads-Honest reads) i m

  map-Honest :
      (isvc : InferenceService K) (o : Option (WeightsCacheSpec K)) {before log : List (Call K)}
      → HonestSince before log
      → HonestSince before (with_config_map isvc o log)
  map-Honest isvc none h = h
  map-Honest isvc (some cache) h = past-Honest _ refl h

  Rollout-Honest :
      {C : Client K} (isvc : InferenceService K) (model : BrukModel K) (cfg : Config)
      {start before log : List (Call K)} {r : Result (Unit {0})}
      → HonestSince start before
      → Rollout C isvc model cfg before r log
      → HonestSince start log
  Rollout-Honest isvc model cfg h (map_refused e cache set) = map-Honest isvc (some cache) h
  Rollout-Honest isvc model cfg h (unrendered e r render) =
      written-Honest _ (failed_status-IsHonest law isvc _ _).0
        (map-Honest isvc isvc.spec.storage.weights_cache h)
  Rollout-Honest isvc model cfg h (unowned e) = map-Honest isvc isvc.spec.storage.weights_cache h
  Rollout-Honest isvc model cfg h (deployment_refused e d work) =
      past-Honest _ refl (map-Honest isvc isvc.spec.storage.weights_cache h)
  Rollout-Honest isvc model cfg h (front_unowned e d work) =
      past-Honest _ refl (map-Honest isvc isvc.spec.storage.weights_cache h)
  Rollout-Honest isvc model cfg h (front_refused e d s work front) =
      past-Honest _ refl (past-Honest _ refl (map-Honest isvc isvc.spec.storage.weights_cache h))
  Rollout-Honest isvc model cfg h (rolled_out r d answer s work answered front) =
      written-Honest _ (ready_status-IsHonest law isvc model answer cfg).0 (
        past-Honest _ refl (past-Honest _ refl (map-Honest isvc isvc.spec.storage.weights_cache h)))

  Run-Honest :
      {C : Client K} {request : NamespacedName} {w : World C} {r : Result (Unit {0})}
      {log : List (Call K)}
      → Run C request w r log
      → HonestSince w.log log
  Run-Honest (unfetched e failed) = past-Honest _ refl (λ i m. inl m)
  Run-Honest (unread e log reads) = reads-Honest reads
  Run-Honest (rejected isvc reason message r log fetched refusal reads) =
      written-Honest _ (failed_status-IsHonest law isvc reason message).0 (reads-Honest reads)
  Run-Honest (cleared isvc tenant model r before log pass reads rollout) =
      Rollout-Honest isvc model _ (reads-Honest reads) rollout

  -- If SetStatusCondition replaces or adds the condition of its type and leaves the others, every
  -- InferenceService status that a run adds to the log is honest: Ready is True exactly if
  -- Configured and WorkloadAvailable are, and the observed generation is the service's.
  pub reconcile-Honest :
      (C : Client K) (request : NamespacedName) (w : World C) (i : InferenceService K)
      → Any (λ c. c ≡ updated_inference_service_status i) (reconcile C request w).1.log
      → Any (λ c. c ≡ updated_inference_service_status i) w.log ⊎ IsHonest i
  reconcile-Honest C request w i m = Run-Honest (reconcile-Run C request w) i m
