-- ===== src/Controller/Conflict/Again.antt =====
-- The guard (`trustedStoreConflict` of operator/internal/controller/inferenceservice_controller.go) on a
-- service that has been rolled out and whose status has been written, when nobody else writes.
use bruk.Prelude.{
  String, List, [], ◌∷◌, Option, none, some, ◌≡◌, refl, sym, ◌∙◌, ap, Bool-cases, inl, inr,
}
use bruk.Result.{Result, ok, err}
use bruk.Platform.{Platform}
use bruk.Kube.Workload.{Pod, Deployment}
use bruk.Api.InferenceService.{InferenceService, InferenceServiceStatus}
use bruk.Client.{Client, World}
use bruk.Client.{listed_pods, listed_deployments, listed_inference_services}
use bruk.Controller.Status.Settles.{with_status}
use bruk.Controller.Conflict.{
  has_owner, precedes, sibling_conflict, deployment_conflict, pod_conflict,
}
use bruk.Controller.Conflict.{pods_listed, deployments_scanned, deployments_listed}
use bruk.Controller.Conflict.{siblings_scanned, siblings_listed, trusted_store_conflict}
use bruk.Controller.Conflict.Undisturbed.{
  Related, AreStandIns, foreign, standalone, IsUndisturbed, IsSame, Beside,
}

module _ {K : Platform} {C : Client K} {isvc : InferenceService K}
    {Like : C.State → C.State → Type 0} (calm : IsUndisturbed C isvc Like)
    (status : InferenceServiceStatus) where
  abbrev later_isvc : InferenceService K
  later_isvc = with_status isvc status

  sibling_conflict-again :
      (claim : String) (xs ys : List (InferenceService K))
      → AreStandIns xs ys
      → sibling_conflict K isvc claim xs ≡ sibling_conflict K later_isvc claim ys
  unfolding sibling_conflict precedes
  sibling_conflict-again claim [] [] same = refl
  sibling_conflict-again claim [] (y ∷ ys) same = absurd same
  sibling_conflict-again claim (x ∷ xs) [] same = absurd same
  sibling_conflict-again claim (x ∷ xs) (y ∷ ys) (stands, same) =
      rw
        (
          sibling_conflict-again claim xs ys same,
          stands.same_name,
          stands.same_claim,
          stands.same_creation,
        )
        refl

  deployment_conflict-foreign :
      (claim : String) (ds : List (Deployment K))
      → deployment_conflict K isvc claim ds ≡ deployment_conflict K isvc claim (foreign isvc ds)
  unfolding deployment_conflict foreign
  deployment_conflict-foreign claim [] = refl
  deployment_conflict-foreign claim (d ∷ ds) =
      elim (Bool-cases (K.is_controlled_by d.metadata.owner_references isvc.metadata.uid)) [
        | inl own ↦ rw own (deployment_conflict-foreign claim ds)
        | inr other ↦
            rw (other, deployment_conflict, other, deployment_conflict-foreign claim ds) refl
      ]

  deployment_conflict-status :
      (claim : String) (ds : List (Deployment K))
      → deployment_conflict K later_isvc claim ds ≡ deployment_conflict K isvc claim ds
  unfolding deployment_conflict
  deployment_conflict-status claim [] = refl
  deployment_conflict-status claim (d ∷ ds) = rw (deployment_conflict-status claim ds) refl

  pod_conflict-standalone :
      (claim : String) (ps : List (Pod K))
      → pod_conflict K claim ps ≡ pod_conflict K claim (standalone ps)
  unfolding pod_conflict standalone
  pod_conflict-standalone claim [] = refl
  pod_conflict-standalone claim (p ∷ ps) =
      elim (Bool-cases (has_owner p.metadata.owner_references)) [
        | inl owned ↦ rw owned (pod_conflict-standalone claim ps)
        | inr alone ↦ rw (alone, pod_conflict, alone, pod_conflict-standalone claim ps) refl
      ]

  deployment_conflict-again :
      (claim : String) (ds es : List (Deployment K))
      → foreign isvc ds ≡ foreign isvc es
      → deployment_conflict K isvc claim ds ≡ deployment_conflict K later_isvc claim es
  deployment_conflict-again claim ds es same =
      deployment_conflict-foreign claim ds
      ∙ ap (deployment_conflict K isvc claim) same
      ∙ sym (deployment_conflict-foreign claim es)
      ∙ sym (deployment_conflict-status claim es)

  pods_listed-again :
      (claim : String) (r q : Result (List (Pod K))) (w v : World C)
      → Related (λ ps qs. standalone ps ≡ standalone qs) r q
      → Beside C isvc Like w v
      → IsSame C isvc Like (pods_listed C claim r w) (pods_listed C claim q v)
  unfolding pods_listed
  pods_listed-again claim (err e) (err f) w v same beside = (ap err same, beside.0, beside.1)
  pods_listed-again claim (err e) (ok qs) w v same beside = absurd same
  pods_listed-again claim (ok ps) (err f) w v same beside = absurd same
  pods_listed-again claim (ok ps) (ok qs) w v same beside =
      let conflict : pod_conflict K claim ps ≡ pod_conflict K claim qs =
        pod_conflict-standalone claim ps
        ∙ ap (pod_conflict K claim) same
        ∙ sym (pod_conflict-standalone claim qs) in
      (rw conflict refl, beside.0, beside.1)

  deployments_scanned-again :
      (claim : String) (o : Option String) (w v : World C)
      → Beside C isvc Like w v
      → IsSame C isvc Like
          (deployments_scanned C isvc claim o w)
          (deployments_scanned C later_isvc claim o v)
  unfolding deployments_scanned
  deployments_scanned-again claim (some message) w v beside = (refl, beside.0, beside.1)
  deployments_scanned-again claim none w v beside =
      let (same, next) = calm.pods isvc.metadata.namespace w.state v.state beside.1 in
      pods_listed-again claim _ _ _ _ same
        (ap (λ log. listed_pods isvc.metadata.namespace ∷ log) beside.0, next)

  deployments_listed-again :
      (claim : String) (r q : Result (List (Deployment K))) (w v : World C)
      → Related (λ ds es. foreign isvc ds ≡ foreign isvc es) r q
      → Beside C isvc Like w v
      → IsSame C isvc Like
          (deployments_listed C isvc claim r w)
          (deployments_listed C later_isvc claim q v)
  unfolding deployments_listed
  deployments_listed-again claim (err e) (err f) w v same beside = (ap err same, beside.0, beside.1)
  deployments_listed-again claim (err e) (ok es) w v same beside = absurd same
  deployments_listed-again claim (ok ds) (err f) w v same beside = absurd same
  deployments_listed-again claim (ok ds) (ok es) w v same beside =
      rw (deployment_conflict-again claim ds es same) (deployments_scanned-again claim _ w v beside)

  siblings_scanned-again :
      (claim : String) (o : Option String) (w v : World C)
      → Beside C isvc Like w v
      → IsSame C isvc Like
          (siblings_scanned C isvc claim o w)
          (siblings_scanned C later_isvc claim o v)
  unfolding siblings_scanned
  siblings_scanned-again claim (some message) w v beside = (refl, beside.0, beside.1)
  siblings_scanned-again claim none w v beside =
      let (same, next) = calm.deployments isvc.metadata.namespace w.state v.state beside.1 in
      deployments_listed-again claim _ _ _ _ same
        (ap (λ log. listed_deployments isvc.metadata.namespace ∷ log) beside.0, next)

  siblings_listed-again :
      (claim : String) (r q : Result (List (InferenceService K))) (w v : World C)
      → Related AreStandIns r q
      → Beside C isvc Like w v
      → IsSame C isvc Like
          (siblings_listed C isvc claim r w)
          (siblings_listed C later_isvc claim q v)
  unfolding siblings_listed
  siblings_listed-again claim (err e) (err f) w v same beside = (ap err same, beside.0, beside.1)
  siblings_listed-again claim (err e) (ok ys) w v same beside = absurd same
  siblings_listed-again claim (ok xs) (err f) w v same beside = absurd same
  siblings_listed-again claim (ok xs) (ok ys) w v same beside =
      rw (sibling_conflict-again claim xs ys same) (siblings_scanned-again claim _ w v beside)

  pub trusted_store_conflict-again :
      (w v : World C)
      → Beside C isvc Like w v
      → IsSame C isvc Like (trusted_store_conflict C isvc w) (trusted_store_conflict C later_isvc v)
  unfolding trusted_store_conflict
  trusted_store_conflict-again w v beside =
      let (same, next) = calm.services isvc.metadata.namespace w.state v.state beside.1 in
      siblings_listed-again isvc.spec.storage.trusted_store.existing_claim _ _ _ _ same
        (ap (λ log. listed_inference_services isvc.metadata.namespace ∷ log) beside.0, next)
