-- ===== src/Controller/Conflict/Reads.antt =====
-- The calls of `trustedStoreConflict` (operator/internal/controller/inferenceservice_controller.go).
use bruk.Prelude.{String, List, Option, none, some, refl}
use bruk.Result.{Result, ok, err}
use bruk.Platform.{Platform}
use bruk.Kube.Workload.{Pod, Deployment}
use bruk.Api.InferenceService.{InferenceService}
use bruk.Client.{Client, Call, World}
use bruk.Client.Reads.{OnlyReads, read}
use bruk.Controller.Conflict.{sibling_conflict, deployment_conflict}
use bruk.Controller.Conflict.{pods_listed, deployments_scanned, deployments_listed}
use bruk.Controller.Conflict.{siblings_scanned, siblings_listed}
use bruk.Controller.Conflict.{trusted_store_conflict}

module _ {K : Platform} (C : Client K) (start : List (Call K)) where
  pods_listed-OnlyReads :
      (claim : String) (r : Result (List (Pod K))) (w : World C)
      → OnlyReads start w.log
      → OnlyReads start (pods_listed C claim r w).1.log
  unfolding pods_listed
  pods_listed-OnlyReads claim (err e) w h = h
  pods_listed-OnlyReads claim (ok pods) w h = h

  deployments_scanned-OnlyReads :
      (isvc : InferenceService K) (claim : String) (o : Option String) (w : World C)
      → OnlyReads start w.log
      → OnlyReads start (deployments_scanned C isvc claim o w).1.log
  unfolding deployments_scanned
  deployments_scanned-OnlyReads isvc claim (some message) w h = h
  deployments_scanned-OnlyReads isvc claim none w h = pods_listed-OnlyReads claim _ _ (read refl h)

  deployments_listed-OnlyReads :
      (isvc : InferenceService K) (claim : String) (r : Result (List (Deployment K))) (w : World C)
      → OnlyReads start w.log
      → OnlyReads start (deployments_listed C isvc claim r w).1.log
  unfolding deployments_listed
  deployments_listed-OnlyReads isvc claim (err e) w h = h
  deployments_listed-OnlyReads isvc claim (ok ds) w h =
      deployments_scanned-OnlyReads isvc claim (deployment_conflict K isvc claim ds) w h

  siblings_scanned-OnlyReads :
      (isvc : InferenceService K) (claim : String) (o : Option String) (w : World C)
      → OnlyReads start w.log
      → OnlyReads start (siblings_scanned C isvc claim o w).1.log
  unfolding siblings_scanned
  siblings_scanned-OnlyReads isvc claim (some message) w h = h
  siblings_scanned-OnlyReads isvc claim none w h =
      deployments_listed-OnlyReads isvc claim _ _ (read refl h)

  siblings_listed-OnlyReads :
      (isvc : InferenceService K) (claim : String) (r : Result (List (InferenceService K)))
      (w : World C)
      → OnlyReads start w.log
      → OnlyReads start (siblings_listed C isvc claim r w).1.log
  unfolding siblings_listed
  siblings_listed-OnlyReads isvc claim (err e) w h = h
  siblings_listed-OnlyReads isvc claim (ok siblings) w h =
      siblings_scanned-OnlyReads isvc claim (sibling_conflict K isvc claim siblings) w h

  pub trusted_store_conflict-OnlyReads :
      (isvc : InferenceService K) (w : World C)
      → OnlyReads start w.log
      → OnlyReads start (trusted_store_conflict C isvc w).1.log
  unfolding trusted_store_conflict
  trusted_store_conflict-OnlyReads isvc w h = siblings_listed-OnlyReads isvc _ _ _ (read refl h)
