-- ===== src/Controller/Conflict/Scan.antt =====
-- What each of the three loops of `trustedStoreConflict` looks for
-- (operator/internal/controller/inferenceservice_controller.go).
use text.Mathlib.TextLemmas.{append-eq-nil_iff}
use bruk.Prelude.{String, ◌<>◌, true, false, List, [], ◌∷◌, Option, none, some, arith}
use bruk.Prelude.{
  ◌≡◌, ◌≢◌, ◌↔◌, refl, ◌⊎◌, inl, inr, str_eq, str_eq_iff, str_ne, All, Any, here, there,
}
use bruk.Prelude.{Bool-cases}
use bruk.Platform.{Platform}
use bruk.Kube.Workload.{Volume, PodSpec, Pod, Deployment}
use bruk.Api.InferenceService.{InferenceService}
use bruk.Controller.Conflict.{
  precedes, names_claim, volumes_mount_claim, pod_spec_mounts_claim, has_owner,
}
use bruk.Controller.Conflict.{sibling_conflict, deployment_conflict, pod_conflict}

module _ (K : Platform) where
  -- Some volume of the pod is the claim.
  abbrev pub Mounts : PodSpec K → String → Type 0
  Mounts spec claim = Any (λ v. v.source.persistent_volume_claim ≡ some claim) spec.volumes

  -- A sibling that does not stand in the way of the service's claim.
  abbrev pub YieldsTo : InferenceService K → String → InferenceService K → Type 0
  YieldsTo isvc claim other =
      (other.metadata.name ≡ isvc.metadata.name)
      ⊎ (other.spec.storage.trusted_store.existing_claim ≢ claim)
      ⊎ (precedes K other isvc ≡ false)

  -- A Deployment that is the service's own, or does not mount the claim.
  abbrev pub IsOwnOrFree : InferenceService K → String → Deployment K → Type 0
  IsOwnOrFree isvc claim d =
      (K.is_controlled_by d.metadata.owner_references isvc.metadata.uid ≡ true)
      ⊎ ¬ (Mounts d.spec.template.spec claim)

  -- A Pod that some object owns, or that does not mount the claim.
  abbrev pub IsOwnedOrFree : String → Pod K → Type 0
  IsOwnedOrFree claim p = (has_owner p.metadata.owner_references ≡ true) ⊎ ¬ (Mounts p.spec claim)

  names_claim_iff :
      (o : Option String) (claim : String) → (names_claim K o claim ≡ true) ↔ (o ≡ some claim)
  names_claim_iff none claim = ground arith
  names_claim_iff (some name) claim = ground (arith, str_eq_iff name claim)

  volumes_mount_claim_sound :
      (vs : List (Volume K)) (claim : String)
      → volumes_mount_claim K vs claim ≡ true
      → Any (λ v. v.source.persistent_volume_claim ≡ some claim) vs
  unfolding volumes_mount_claim
  volumes_mount_claim_sound [] claim h = cc
  volumes_mount_claim_sound (v ∷ vs) claim h =
      elim (Bool-cases (names_claim K v.source.persistent_volume_claim claim)) [
        | inl this ↦ here ((names_claim_iff _ claim).0 this)
        | inr other ↦ there (volumes_mount_claim_sound vs claim (ground arith))
      ]

  volumes_mount_claim_complete :
      (claim : String) {vs : List (Volume K)}
      → Any (λ v. v.source.persistent_volume_claim ≡ some claim) vs
      → volumes_mount_claim K vs claim ≡ true
  unfolding volumes_mount_claim
  volumes_mount_claim_complete claim (here {x = v} e) =
      rw ((names_claim_iff v.source.persistent_volume_claim claim).1 e) refl
  volumes_mount_claim_complete claim (there {x = v} {xs = vs} m) =
      ground (arith, volumes_mount_claim_complete claim m)

  -- `podSpecMountsClaim` decides whether a volume of the pod is the claim.
  pub pod_spec_mounts_claim_iff :
      (spec : PodSpec K) (claim : String)
      → (pod_spec_mounts_claim K spec claim ≡ true) ↔ Mounts spec claim
  unfolding pod_spec_mounts_claim
  pod_spec_mounts_claim_iff spec claim =
      (volumes_mount_claim_sound spec.volumes claim, volumes_mount_claim_complete claim)

  module _ (isvc : InferenceService K) (claim : String) where
    pub sibling_conflict-eq-none_iff :
        (others : List (InferenceService K))
        → (sibling_conflict K isvc claim others ≡ none) ↔ All (YieldsTo isvc claim) others
    unfolding sibling_conflict
    sibling_conflict-eq-none_iff [] = ground arith
    sibling_conflict-eq-none_iff (other ∷ others) = ground (
      arith,
      sibling_conflict-eq-none_iff others,
      str_eq_iff other.metadata.name isvc.metadata.name,
      str_eq_iff other.spec.storage.trusted_store.existing_claim claim,
    )

    pub deployment_conflict-eq-none_iff :
        (ds : List (Deployment K))
        → (deployment_conflict K isvc claim ds ≡ none) ↔ All (IsOwnOrFree isvc claim) ds
    unfolding deployment_conflict
    deployment_conflict-eq-none_iff [] = ground arith
    deployment_conflict-eq-none_iff (d ∷ ds) = ground (
      arith,
      deployment_conflict-eq-none_iff ds,
      pod_spec_mounts_claim_iff d.spec.template.spec claim,
    )

  pub pod_conflict-eq-none_iff :
      (claim : String) (ps : List (Pod K))
      → (pod_conflict K claim ps ≡ none) ↔ All (IsOwnedOrFree claim) ps
  unfolding pod_conflict
  pod_conflict-eq-none_iff claim [] = ground arith
  pod_conflict-eq-none_iff claim (p ∷ ps) =
      ground (arith, pod_conflict-eq-none_iff claim ps, pod_spec_mounts_claim_iff p.spec claim)

prefix_ne : (p s : String) → str_eq p "" ≡ false → p <> s ≢ ""
prefix_ne p s h e = str_ne p "" h (append-eq-nil_iff.0 e).0

-- The messages are never empty, which is how the caller tells a conflict.
module _ (K : Platform) where
  module _ (isvc : InferenceService K) (claim : String) where
    pub sibling_conflict-ne-empty :
        (others : List (InferenceService K)) → sibling_conflict K isvc claim others ≢ some ""
    unfolding sibling_conflict str_eq
    sibling_conflict-ne-empty [] h = cc
    sibling_conflict-ne-empty (other ∷ others) h = ground (
      arith,
      sibling_conflict-ne-empty others,
      prefix_ne "InferenceService "
          (K.quote other.metadata.name
            <> " already claims trusted-store PVC "
            <> K.quote claim
            <> " (one workload per PVC)")
          refl,
    )

    pub deployment_conflict-ne-empty :
        (ds : List (Deployment K)) → deployment_conflict K isvc claim ds ≢ some ""
    unfolding deployment_conflict str_eq
    deployment_conflict-ne-empty [] h = cc
    deployment_conflict-ne-empty (d ∷ ds) h = ground (
      arith,
      deployment_conflict-ne-empty ds,
      prefix_ne "Deployment "
          (K.quote d.metadata.name
            <> " (not managed by this InferenceService) already mounts trusted-store PVC "
            <> K.quote claim)
          refl,
    )

  pub pod_conflict-ne-empty :
      (claim : String) (ps : List (Pod K)) → pod_conflict K claim ps ≢ some ""
  unfolding pod_conflict str_eq
  pod_conflict-ne-empty claim [] h = cc
  pod_conflict-ne-empty claim (p ∷ ps) h = ground (
    arith,
    pod_conflict-ne-empty claim ps,
    prefix_ne "standalone Pod "
        (K.quote p.metadata.name <> " already mounts trusted-store PVC " <> K.quote claim) refl,
  )
