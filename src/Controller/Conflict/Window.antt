-- ===== src/Controller/Conflict/Window.antt =====
-- The time between the lists of `trustedStoreConflict` and what comes after it
-- (operator/internal/controller/inferenceservice_controller.go).
use bruk.Prelude.{String, List, Option, none, some, ◌≡◌, inl, inr}
use bruk.Result.{Result, ok, err}
use bruk.Platform.{Platform}
use bruk.Kube.Workload.{Pod, Deployment}
use bruk.Api.InferenceService.{InferenceService, object_key}
use bruk.Client.{Client, World}
use bruk.Cluster.{View, IsServer, Shrinks, IsFree, IsNamed}
use bruk.Cluster.Shrinks.{Shrinks-refl, Shrinks-trans, Shrinks-IsFree, Shrinks-IsNamed}
use bruk.Controller.Conflict.{pods_listed, deployments_scanned, deployments_listed}
use bruk.Controller.Conflict.{siblings_scanned, siblings_listed, trusted_store_conflict}
use bruk.Controller.Conflict.Scan.{IsOwnOrFree}
use bruk.Controller.Conflict.Winner.{All-at}
use bruk.Controller.Conflict.Verdict.{trusted_store_conflict_none_iff}

module _ {K : Platform} {C : Client K} (V : View C) (server : IsServer V) where
  pods_listed-Shrinks :
      (claim : String) (r : Result (List (Pod K))) (w : World C)
      → Shrinks V w.state (pods_listed C claim r w).1.state
  unfolding pods_listed
  pods_listed-Shrinks claim (err e) w = Shrinks-refl V _
  pods_listed-Shrinks claim (ok pods) w = Shrinks-refl V _

  deployments_scanned-Shrinks :
      (isvc : InferenceService K) (claim : String) (o : Option String) (w : World C)
      → Shrinks V w.state (deployments_scanned C isvc claim o w).1.state
  unfolding deployments_scanned
  deployments_scanned-Shrinks isvc claim (some message) w = Shrinks-refl V _
  deployments_scanned-Shrinks isvc claim none w =
      Shrinks-trans V (server.list_pods_shrinks _ w.state) (pods_listed-Shrinks claim _ _)

  deployments_listed-Shrinks :
      (isvc : InferenceService K) (claim : String) (r : Result (List (Deployment K))) (w : World C)
      → Shrinks V w.state (deployments_listed C isvc claim r w).1.state
  unfolding deployments_listed
  deployments_listed-Shrinks isvc claim (err e) w = Shrinks-refl V _
  deployments_listed-Shrinks isvc claim (ok ds) w = deployments_scanned-Shrinks isvc claim _ w

  siblings_scanned-Shrinks :
      (isvc : InferenceService K) (claim : String) (o : Option String) (w : World C)
      → Shrinks V w.state (siblings_scanned C isvc claim o w).1.state
  unfolding siblings_scanned
  siblings_scanned-Shrinks isvc claim (some message) w = Shrinks-refl V _
  siblings_scanned-Shrinks isvc claim none w =
      Shrinks-trans V (server.list_deployments_shrinks _ w.state)
        (deployments_listed-Shrinks isvc claim _ _)

  siblings_listed-Shrinks :
      (isvc : InferenceService K) (claim : String) (r : Result (List (InferenceService K)))
      (w : World C)
      → Shrinks V w.state (siblings_listed C isvc claim r w).1.state
  unfolding siblings_listed
  siblings_listed-Shrinks isvc claim (err e) w = Shrinks-refl V _
  siblings_listed-Shrinks isvc claim (ok siblings) w = siblings_scanned-Shrinks isvc claim _ w

  module _ (isvc : InferenceService K) (w : World C) where
    -- The state in which the Deployments are listed.
    abbrev listing : C.State
    listing = (C.list_inference_services isvc.metadata.namespace w.state).1

    after_listing-Shrinks : Shrinks V listing (trusted_store_conflict C isvc w).1.state
    unfolding trusted_store_conflict
    after_listing-Shrinks = siblings_listed-Shrinks isvc _ _ _

    pub trusted_store_conflict-Shrinks : Shrinks V w.state (trusted_store_conflict C isvc w).1.state
    trusted_store_conflict-Shrinks =
        Shrinks-trans V (server.list_inference_services_shrinks _ w.state) after_listing-Shrinks

    pub trusted_store_conflict-IsFree :
        IsNamed V w.state
        → V.named isvc.metadata.uid ≡ some (object_key K isvc)
        → (trusted_store_conflict C isvc w).0 ≡ ok ""
        → IsFree V isvc (trusted_store_conflict C isvc w).1.state
    trusted_store_conflict-IsFree named mine pass =
        let (siblings, ds, pods, sees, free) = (trusted_store_conflict_none_iff C isvc w).0 pass in
        let named_there =
          Shrinks-IsNamed V (server.list_inference_services_shrinks _ w.state) named in
        let at_listing : IsFree V isvc listing = λ d has here_too m.
          elim (All-at (IsOwnOrFree K isvc isvc.spec.storage.trusted_store.existing_claim)
            (server.lists_all _ listing ds sees.deployments_seen d has here_too)
            free.deployments_free) [
              | inl own ↦ (named_there d isvc.metadata.uid (object_key K isvc) has mine own).0
              | inr unmounted ↦ absurd (unmounted m)
            ] in
        Shrinks-IsFree V isvc after_listing-Shrinks at_listing
