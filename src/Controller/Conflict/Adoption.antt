-- ===== src/Controller/Conflict/Adoption.antt =====
-- The guard of operator/internal/controller/inferenceservice_controller.go against the Deployments
-- that operator/internal/render/render.go writes.
use bruk.Prelude.{List, ◌≡◌, ◌≢◌, refl, Any, here, there, false, none, some, Option}
use bruk.Prelude.{All, sym, ◌∙◌, inl, inr}
use mathlib.Core.Path.{subst}
use mathlib.Core.Bool.{false≢true}
use bruk.Result.{ok}
use bruk.Platform.{Platform}
use bruk.Kube.Workload.{Deployment}
use bruk.Api.BrukModel.{BrukModel}
use bruk.Api.InferenceService.{InferenceService, WeightsCacheSpec}
use bruk.Render.{Config, deployment, deployment_object, volumes}
use bruk.Render.Workload.{deployment-IsRendered}
use bruk.Client.{Client, World}
use bruk.Controller.Conflict.{trusted_store_conflict}
use bruk.Controller.Conflict.Scan.{Mounts, IsOwnOrFree}
use bruk.Controller.Conflict.Winner.{All-at}
use bruk.Controller.Conflict.Verdict.{trusted_store_conflict_none_iff}

module _ {K : Platform} where
  volumes-Mounts :
      (isvc : InferenceService K) (o : Option (WeightsCacheSpec K))
      → isvc.spec.storage.weights_cache ≡ o
      → Any
          (λ v.
            v.source.persistent_volume_claim ≡ some isvc.spec.storage.trusted_store.existing_claim)
          (volumes K isvc)
  unfolding volumes
  volumes-Mounts isvc none e = rw e (there (here refl))
  volumes-Mounts isvc (some cache) e = rw e (there (there (there (here refl))))

  rendered-Mounts :
      (other : InferenceService K) (model : BrukModel K) (cfg : Config) {d : Deployment K}
      → deployment K other model cfg ≡ ok d
      → Mounts K d.spec.template.spec other.spec.storage.trusted_store.existing_claim
  unfolding deployment_object
  rendered-Mounts other model cfg h =
      let (hf, sourced, image, blob, same) = deployment-IsRendered K other model cfg h in
      rw same (volumes-Mounts other _ refl)

  -- The guard recognises what the renderer writes: if the list of Deployments that the guard reads
  -- holds one with the rendered spec of another service with the same claim, and the checked
  -- service does not control it, then the guard does not answer "no conflict".
  pub trusted_store_conflict-rendered :
      (C : Client K) (isvc other : InferenceService K) (w : World C) (model : BrukModel K)
      (cfg : Config) (d live : Deployment K) (deployments : List (Deployment K))
      → deployment K other model cfg ≡ ok d
      → live.spec ≡ d.spec
      → K.is_controlled_by live.metadata.owner_references isvc.metadata.uid ≡ false
      → other.spec.storage.trusted_store.existing_claim
        ≡ isvc.spec.storage.trusted_store.existing_claim
      → (C.list_deployments isvc.metadata.namespace
          (C.list_inference_services isvc.metadata.namespace w.state).1).0
        ≡ ok deployments
      → Any (λ x. x ≡ live) deployments
      → (trusted_store_conflict C isvc w).0 ≢ ok ""
  trusted_store_conflict-rendered C isvc other w model cfg d live deployments rendered spec foreign
        claim listed m passed =
      let (siblings, ds, pods, sees, free) = (trusted_store_conflict_none_iff C isvc w).0 passed in
      let seen = sees.deployments_seen in
      let same : ds ≡ deployments = cc in
      let mine =
        All-at (IsOwnOrFree K isvc isvc.spec.storage.trusted_store.existing_claim) m
          (subst (All _) same free.deployments_free) in
      let mounted = rendered-Mounts other model cfg rendered in
      elim mine [
        | inl own ↦ absurd (false≢true (sym foreign ∙ own))
        | inr free_of_claim ↦ absurd (free_of_claim (rw (spec, sym claim) mounted))
      ]
