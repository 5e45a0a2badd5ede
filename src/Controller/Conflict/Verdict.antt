-- ===== src/Controller/Conflict/Verdict.antt =====
-- What an answer of `trustedStoreConflict` means
-- (operator/internal/controller/inferenceservice_controller.go).
use bruk.Prelude.{String, List, none, arith, ◌≡◌, ◌≢◌, refl}
use bruk.Prelude.{◌↔◌, inl, inr, All, Any, Option-cases}
use bruk.Result.{Result, ok, err}
use mathlib.Core.Path.{subst}
use bruk.Platform.{Platform}
use bruk.Kube.Workload.{Deployment, Pod}
use bruk.Api.InferenceService.{InferenceService}
use bruk.Client.{Client, World, call, listed_inference_services, listed_deployments, listed_pods}
use bruk.Controller.Conflict.{sibling_conflict, deployment_conflict}
use bruk.Controller.Conflict.{
  siblings_listed, deployments_listed, pods_listed, trusted_store_conflict,
}
use bruk.Controller.Conflict.Scan.{YieldsTo, IsOwnOrFree, IsOwnedOrFree}
use bruk.Controller.Conflict.Scan.{sibling_conflict-eq-none_iff, deployment_conflict-eq-none_iff}
use bruk.Controller.Conflict.Scan.{pod_conflict-eq-none_iff, sibling_conflict-ne-empty}
use bruk.Controller.Conflict.Scan.{deployment_conflict-ne-empty, pod_conflict-ne-empty}
use bruk.Controller.Conflict.Order.{IsClock}
use bruk.Controller.Conflict.Winner.{IsStandIn, itself-IsStandIn, sibling_conflict_exclusive}

module _ {K : Platform} (C : Client K) where
  -- The three lists, as the server hands them out one after the other.
  pub record Sees (namespace : String) (s : C.State) (siblings : List (InferenceService K))
      (deployments : List (Deployment K)) (pods : List (Pod K)) : Type 0 where
    pub siblings_seen : (C.list_inference_services namespace s).0 ≡ ok siblings
    pub deployments_seen :
        (C.list_deployments namespace (C.list_inference_services namespace s).1).0 ≡ ok deployments
    pub pods_seen :
        (C.list_pods namespace
          (C.list_deployments namespace (C.list_inference_services namespace s).1).1).0
        ≡ ok pods

  -- Nothing in the lists competes for the service's claim.
  pub record IsUnopposed (isvc : InferenceService K) (siblings : List (InferenceService K))
      (deployments : List (Deployment K)) (pods : List (Pod K)) : Type 0 where
    pub siblings_yield :
        All (YieldsTo K isvc isvc.spec.storage.trusted_store.existing_claim) siblings
    pub deployments_free :
        All (IsOwnOrFree K isvc isvc.spec.storage.trusted_store.existing_claim) deployments
    pub pods_free : All (IsOwnedOrFree K isvc.spec.storage.trusted_store.existing_claim) pods

  abbrev PodsPass : String → Result (List (Pod K)) → Type 0
  PodsPass claim r = (pods : List (Pod K)) × (r ≡ ok pods) × All (IsOwnedOrFree K claim) pods

  abbrev DeploymentsPass :
      InferenceService K → String → Result (List (Deployment K)) → C.State → Type 0
  DeploymentsPass isvc claim r s =
      (ds : List (Deployment K)) × (r ≡ ok ds)
      × All (IsOwnOrFree K isvc claim) ds
      × PodsPass claim (C.list_pods isvc.metadata.namespace s).0

  pods_listed_sound :
      (claim : String) (r : Result (List (Pod K))) (w : World C)
      → (pods_listed C claim r w).0 ≡ ok ""
      → PodsPass claim r
  unfolding pods_listed
  pods_listed_sound claim (err e) w h = cc
  pods_listed_sound claim (ok pods) w h = (
    pods,
    refl,
    (pod_conflict-eq-none_iff K claim pods).0 (ground (arith, pod_conflict-ne-empty K claim pods)),
  )

  deployments_listed_sound :
      (isvc : InferenceService K) (claim : String) (r : Result (List (Deployment K))) (w : World C)
      → (deployments_listed C isvc claim r w).0 ≡ ok ""
      → DeploymentsPass isvc claim r w.state
  unfolding deployments_listed
  deployments_listed_sound isvc claim (err e) w h = cc
  deployments_listed_sound isvc claim (ok ds) w h =
      elim (Option-cases (deployment_conflict K isvc claim ds)) [
        | inr (m, found) ↦ absurd (ground (arith, deployment_conflict-ne-empty K isvc claim ds))
        | inl passed ↦ (
          ds,
          refl,
          (deployment_conflict-eq-none_iff K isvc claim ds).0 passed,
          pods_listed_sound claim _
              (call (listed_pods isvc.metadata.namespace) (C.list_pods isvc.metadata.namespace) w).1
              (ground arith),
        )
      ]

  siblings_listed_sound :
      (isvc : InferenceService K) (claim : String) (r : Result (List (InferenceService K)))
      (w : World C)
      → (siblings_listed C isvc claim r w).0 ≡ ok ""
      → (siblings : List (InferenceService K)) × (r ≡ ok siblings)
        × All (YieldsTo K isvc claim) siblings
        × DeploymentsPass isvc claim
            (C.list_deployments isvc.metadata.namespace w.state).0
            (C.list_deployments isvc.metadata.namespace w.state).1
  unfolding siblings_listed
  siblings_listed_sound isvc claim (err e) w h = cc
  siblings_listed_sound isvc claim (ok siblings) w h =
      elim (Option-cases (sibling_conflict K isvc claim siblings)) [
        | inr (m, found) ↦ absurd (ground (arith, sibling_conflict-ne-empty K isvc claim siblings))
        | inl passed ↦ (
          siblings,
          refl,
          (sibling_conflict-eq-none_iff K isvc claim siblings).0 passed,
          deployments_listed_sound isvc claim _
              (call (listed_deployments isvc.metadata.namespace)
                (C.list_deployments isvc.metadata.namespace) w).1
              (ground arith),
        )
      ]

  module _ (isvc : InferenceService K) (w : World C) where
    abbrev Passing : Type 0
    Passing =
        (siblings : List (InferenceService K)) × (deployments : List (Deployment K)) × (pods : List
          (Pod K))
        × Sees isvc.metadata.namespace w.state siblings deployments pods
        × IsUnopposed isvc siblings deployments pods

    abbrev claim : String
    claim = isvc.spec.storage.trusted_store.existing_claim

    conflict_free_complete : Passing → (trusted_store_conflict C isvc w).0 ≡ ok ""
    unfolding trusted_store_conflict
    conflict_free_complete (siblings, deployments, pods, seen, free) =
        let no_sibling =
          (sibling_conflict-eq-none_iff K isvc claim siblings).1 free.siblings_yield in
        let no_deployment =
          (deployment_conflict-eq-none_iff K isvc claim deployments).1 free.deployments_free in
        let no_pod = (pod_conflict-eq-none_iff K claim pods).1 free.pods_free in
        ground (arith, seen.siblings_seen, seen.deployments_seen, seen.pods_seen)

    conflict_free_sound : (trusted_store_conflict C isvc w).0 ≡ ok "" → Passing
    unfolding trusted_store_conflict
    conflict_free_sound h =
        let (siblings, seen, yields, deployments_pass) =
          siblings_listed_sound isvc claim _
            (call (listed_inference_services isvc.metadata.namespace)
              (C.list_inference_services isvc.metadata.namespace) w).1
            h in
        let (ds, seen_ds, own, pods_pass) = deployments_pass in
        let (pods, seen_pods, free) = pods_pass in
        (
          siblings,
          ds,
          pods,
          record { siblings_seen = seen; deployments_seen = seen_ds; pods_seen = seen_pods },
          record { siblings_yield = yields; deployments_free = own; pods_free = free },
        )

    -- The guard answers "no conflict" exactly when the three lists could be read, no sibling with
    -- the claim precedes the service, no Deployment of another owner mounts it, and no Pod without
    -- an owner does.
    pub trusted_store_conflict_none_iff : ((trusted_store_conflict C isvc w).0 ≡ ok "") ↔ Passing
    trusted_store_conflict_none_iff = (conflict_free_sound, conflict_free_complete)

-- The guards of two services with one claim, when each reads a list that has the other with some status.
pub trusted_store_conflict_stand_ins :
    {K : Platform} (clock : IsClock K) (C : Client K) (a b : InferenceService K) (v w : World C)
    (seen_by_a seen_by_b : List (InferenceService K))
    → a.metadata.name ≢ b.metadata.name
    → a.spec.storage.trusted_store.existing_claim ≡ b.spec.storage.trusted_store.existing_claim
    → (C.list_inference_services a.metadata.namespace v.state).0 ≡ ok seen_by_a
    → (C.list_inference_services b.metadata.namespace w.state).0 ≡ ok seen_by_b
    → Any (λ x. IsStandIn x b) seen_by_a
    → Any (λ x. IsStandIn x a) seen_by_b
    → (trusted_store_conflict C a v).0 ≡ ok ""
    → (trusted_store_conflict C b w).0 ≢ ok ""
trusted_store_conflict_stand_ins {K} clock C a b v w la lb differ same list_a list_b sees_b sees_a
      pass_a pass_b =
    sibling_conflict_exclusive clock a b la lb differ same sees_b sees_a
      (passes a v la list_a pass_a) (passes b w lb list_b pass_b)
  where
    passes :
        (c : InferenceService K) (u : World C) (seen : List (InferenceService K))
        → (C.list_inference_services c.metadata.namespace u.state).0 ≡ ok seen
        → (trusted_store_conflict C c u).0 ≡ ok ""
        → sibling_conflict K c c.spec.storage.trusted_store.existing_claim seen ≡ none
    passes c u seen listed pass =
        let (siblings, ds, pods, sees, free) = (trusted_store_conflict_none_iff C c u).0 pass in
        let one : siblings ≡ seen = ground (arith, sees.siblings_seen) in
        (sibling_conflict-eq-none_iff K c _ seen).1 (subst (All _) one free.siblings_yield)

-- If times are instants, two services of different names and one claim do not both pass the guard,
-- whatever else changes in the cluster meanwhile, if each is in the list that the other one's
-- guard reads.
pub trusted_store_conflict_exclusive :
    {K : Platform} (clock : IsClock K) (C : Client K) (a b : InferenceService K) (v w : World C)
    (seen_by_a seen_by_b : List (InferenceService K))
    → a.metadata.name ≢ b.metadata.name
    → a.spec.storage.trusted_store.existing_claim ≡ b.spec.storage.trusted_store.existing_claim
    → (C.list_inference_services a.metadata.namespace v.state).0 ≡ ok seen_by_a
    → (C.list_inference_services b.metadata.namespace w.state).0 ≡ ok seen_by_b
    → Any (λ x. x ≡ b) seen_by_a
    → Any (λ x. x ≡ a) seen_by_b
    → (trusted_store_conflict C a v).0 ≡ ok ""
    → (trusted_store_conflict C b w).0 ≢ ok ""
trusted_store_conflict_exclusive clock C a b v w la lb differ same list_a list_b sees_b sees_a =
    trusted_store_conflict_stand_ins clock C a b v w la lb differ same list_a list_b
      (itself-IsStandIn sees_b) (itself-IsStandIn sees_a)
