-- ===== src/Controller/Conflict.antt =====
-- The guard of the trusted store: `trustedStoreConflict`, `precedes` and `podSpecMountsClaim` of
-- operator/internal/controller/inferenceservice_controller.go.
pub mod Order
pub mod Reads
pub mod Scan
pub mod Winner
pub mod Verdict
pub mod Window
pub mod Undisturbed
pub mod Again
pub mod Adoption
use bruk.Prelude.{
  String, ◌<>◌, Bool, true, false, not, ◌&&◌, ◌||◌, List, [], ◌∷◌, Option, none, some,
}
use bruk.Prelude.{str_eq, if◌then◌else◌}
use bruk.Prelude.Text.{str_lt}
use bruk.Result.{Result, ok, err}
use bruk.Platform.{Platform}
use bruk.Kube.Workload.{Volume, PodSpec, Pod, Deployment}
use bruk.Api.InferenceService.{InferenceService}
use bruk.Client.{Client, Call, listed_inference_services, listed_deployments, listed_pods}
use bruk.Client.{M, pure, call, ◌>>=◌}

abbrev pub has_owner {ℓ} : {A : Type ℓ} → List A → Bool
has_owner [] = false
has_owner (_ ∷ _) = true

module _ (K : Platform) where
  -- `precedes`
  unfoldable pub precedes : InferenceService K → InferenceService K → Bool
  precedes a b =
      if not (K.time_equal a.metadata.creation_timestamp b.metadata.creation_timestamp)
      then K.time_before a.metadata.creation_timestamp b.metadata.creation_timestamp
      else str_lt a.metadata.name b.metadata.name

  abbrev pub names_claim : Option String → String → Bool
  names_claim none claim = false
  names_claim (some name) claim = str_eq name claim

  pub volumes_mount_claim : List (Volume K) → String → Bool
  volumes_mount_claim [] claim = false
  volumes_mount_claim (v ∷ vs) claim =
      if names_claim v.source.persistent_volume_claim claim
      then true
      else volumes_mount_claim vs claim

  -- `podSpecMountsClaim`
  pub pod_spec_mounts_claim : PodSpec K → String → Bool
  pod_spec_mounts_claim spec claim = volumes_mount_claim spec.volumes claim

  module _ (isvc : InferenceService K) (claim : String) where
    -- The first loop of `trustedStoreConflict`: the message, or nothing.
    unfoldable pub sibling_conflict : List (InferenceService K) → Option String
    sibling_conflict [] = none
    sibling_conflict (other ∷ others) =
        let rest = sibling_conflict others in
        if str_eq other.metadata.name isvc.metadata.name
          || not (str_eq other.spec.storage.trusted_store.existing_claim claim)
        then rest
        else (if precedes other isvc
            then some (
                "InferenceService "
                <> K.quote other.metadata.name
                <> " already claims trusted-store PVC "
                <> K.quote claim
                <> " (one workload per PVC)")
            else rest)

    -- The second loop.
    unfoldable pub deployment_conflict : List (Deployment K) → Option String
    deployment_conflict [] = none
    deployment_conflict (d ∷ ds) =
        let rest = deployment_conflict ds in
        if K.is_controlled_by d.metadata.owner_references isvc.metadata.uid
        then rest
        else (if pod_spec_mounts_claim d.spec.template.spec claim
            then some (
                "Deployment "
                <> K.quote d.metadata.name
                <> " (not managed by this InferenceService) already mounts trusted-store PVC "
                <> K.quote claim)
            else rest)

  -- The third loop.
  unfoldable pub pod_conflict : String → List (Pod K) → Option String
  pod_conflict claim [] = none
  pod_conflict claim (p ∷ ps) =
      let rest = pod_conflict claim ps in
      if has_owner p.metadata.owner_references
      then rest
      else (if pod_spec_mounts_claim p.spec claim
          then some (
              "standalone Pod "
              <> K.quote p.metadata.name
              <> " already mounts trusted-store PVC "
              <> K.quote claim)
          else rest)

-- `return "", nil` after the last loop.
abbrev pub message_or_empty : Option String → String
message_or_empty none = ""
message_or_empty (some message) = message

module _ {K : Platform} (C : Client K) where
  pods_listed : String → Result (List (Pod K)) → M C (Result String)
  pods_listed claim (err e) = pure (err e)
  pods_listed claim (ok pods) = pure (ok (message_or_empty (pod_conflict K claim pods)))

  -- After the second loop.
  deployments_scanned : InferenceService K → String → Option String → M C (Result String)
  unfolding pods_listed
  deployments_scanned isvc claim (some message) = pure (ok message)
  deployments_scanned isvc claim none = do
    pods ← call (listed_pods isvc.metadata.namespace) (C.list_pods isvc.metadata.namespace)
    pods_listed claim pods

  deployments_listed :
      InferenceService K → String → Result (List (Deployment K)) → M C (Result String)
  unfolding deployments_scanned
  deployments_listed isvc claim (err e) = pure (err e)
  deployments_listed isvc claim (ok deployments) =
      deployments_scanned isvc claim (deployment_conflict K isvc claim deployments)

  -- After the first loop.
  siblings_scanned : InferenceService K → String → Option String → M C (Result String)
  unfolding deployments_listed
  siblings_scanned isvc claim (some message) = pure (ok message)
  siblings_scanned isvc claim none = do
    deployments ←
        call (listed_deployments isvc.metadata.namespace)
          (C.list_deployments isvc.metadata.namespace)
    deployments_listed isvc claim deployments

  siblings_listed :
      InferenceService K → String → Result (List (InferenceService K)) → M C (Result String)
  unfolding siblings_scanned
  siblings_listed isvc claim (err e) = pure (err e)
  siblings_listed isvc claim (ok siblings) =
      siblings_scanned isvc claim (sibling_conflict K isvc claim siblings)

  -- `trustedStoreConflict`: the empty text if there is no conflict.
  unfoldable pub trusted_store_conflict : InferenceService K → M C (Result String)
  unfolding siblings_listed
  trusted_store_conflict isvc = do
    siblings ←
        call (listed_inference_services isvc.metadata.namespace)
          (C.list_inference_services isvc.metadata.namespace)
    siblings_listed isvc isvc.spec.storage.trusted_store.existing_claim siblings
