-- ===== src/Controller/Conflict/Undisturbed.antt =====
-- A cluster in which nobody writes but the reconciler of one service, over the runs of `Reconcile`
-- (operator/internal/controller/inferenceservice_controller.go) for it.
use bruk.Prelude.{true, List, [], ◌∷◌, ◌≡◌, if◌then◌else◌, String}
use bruk.Result.{Result, ok, err}
use bruk.Platform.{Platform}
use bruk.Kube.Meta.{NamespacedName}
use bruk.Kube.Workload.{Pod, Deployment, Service, ConfigMap}
use bruk.Api.InferenceService.{InferenceService}
use bruk.Client.{Client, World}
use bruk.Controller.Status.{deployment_available}
use bruk.Controller.Conflict.{has_owner}
use bruk.Controller.Conflict.Winner.{IsStandIn}

-- `SetControllerReference`, when it succeeds, makes the owner the object's controller.
pub record MakesController (K : Platform) : Type 0 where
  pub controls :
      (name owner_namespace owner namespace : String) (refs made : List K.OwnerReference)
      → K.set_controller_reference name owner_namespace owner namespace refs ≡ ok made
      → K.is_controlled_by made owner ≡ true

-- Two answers: both fail alike, or both are there and related.
abbrev pub Related : {A : Type 0} → (A → A → Type 0) → Result A → Result A → Type 0
Related P (ok a) (ok b) = P a b
Related P (ok a) (err f) = ⊥
Related P (err e) (ok b) = ⊥
Related P (err e) (err f) = e ≡ f

module _ {K : Platform} where
  -- The same services in the same order, each with whatever status.
  abbrev pub AreStandIns : List (InferenceService K) → List (InferenceService K) → Type 0
  AreStandIns [] [] = Unit {0}
  AreStandIns [] (y ∷ ys) = ⊥
  AreStandIns (x ∷ xs) [] = ⊥
  AreStandIns (x ∷ xs) (y ∷ ys) = IsStandIn x y × AreStandIns xs ys

  module _ (isvc : InferenceService K) where
    abbrev pub IsOwn : Deployment K → Type 0
    IsOwn d = K.is_controlled_by d.metadata.owner_references isvc.metadata.uid ≡ true

    -- The Deployments that the service does not control.
    unfoldable pub foreign : List (Deployment K) → List (Deployment K)
    foreign [] = []
    foreign (d ∷ ds) =
        let rest = foreign ds in
        if K.is_controlled_by d.metadata.owner_references isvc.metadata.uid then rest else d ∷ rest

  -- The Pods without an owner.
  unfoldable pub standalone : List (Pod K) → List (Pod K)
  standalone [] = []
  standalone (p ∷ ps) =
      let rest = standalone ps in if has_owner p.metadata.owner_references then rest else p ∷ rest

-- Nobody but the service's reconciler writes. `Like s t` says that the states differ by what that does to
-- the cluster at most: the service's status, its own Deployment and that one's Pods, its Service and
-- the shared ConfigMap. Both states then give the same tenant and models, the same services but for
-- their statuses, the same Deployments but for those that the service controls, and the same Pods but
-- for those that have an owner; an apply has the same outcome in both, the availability of the
-- Deployment included; and after one call in each the states are alike again.
module _ {K : Platform} (C : Client K) (isvc : InferenceService K)
    (Like : C.State → C.State → Type 0) where
  pub record IsUndisturbed : Type 0 where
    pub own_service :
        (k : NamespacedName) (s t : C.State)
        → Like s t
        → Like (C.get_inference_service k s).1 (C.get_inference_service k t).1
    pub tenant :
        (k : NamespacedName) (s t : C.State)
        → Like s t
        → ((C.get_bruk_tenant k s).0 ≡ (C.get_bruk_tenant k t).0)
          × Like (C.get_bruk_tenant k s).1 (C.get_bruk_tenant k t).1
    pub model :
        (k : NamespacedName) (s t : C.State)
        → Like s t
        → ((C.get_bruk_model k s).0 ≡ (C.get_bruk_model k t).0)
          × Like (C.get_bruk_model k s).1 (C.get_bruk_model k t).1
    pub services :
        (n : String) (s t : C.State)
        → Like s t
        → Related AreStandIns (C.list_inference_services n s).0 (C.list_inference_services n t).0
          × Like (C.list_inference_services n s).1 (C.list_inference_services n t).1
    pub deployments :
        (n : String) (s t : C.State)
        → Like s t
        → Related
            (λ ds es. foreign isvc ds ≡ foreign isvc es)
            (C.list_deployments n s).0
            (C.list_deployments n t).0
          × Like (C.list_deployments n s).1 (C.list_deployments n t).1
    pub pods :
        (n : String) (s t : C.State)
        → Like s t
        → Related (λ ps qs. standalone ps ≡ standalone qs) (C.list_pods n s).0 (C.list_pods n t).0
          × Like (C.list_pods n s).1 (C.list_pods n t).1
    pub config_map :
        (c : ConfigMap K) (s t : C.State)
        → Like s t
        → Related (λ a b. Unit {0}) (C.apply_config_map c s).0 (C.apply_config_map c t).0
          × Like (C.apply_config_map c s).1 (C.apply_config_map c t).1
    pub own_deployment :
        (d : Deployment K) (s t : C.State)
        → IsOwn isvc d
        → Like s t
        → Related
            (λ a b. deployment_available K a ≡ deployment_available K b)
            (C.apply_deployment d s).0
            (C.apply_deployment d t).0
          × Like (C.apply_deployment d s).1 (C.apply_deployment d t).1
    pub service :
        (o : Service K) (s t : C.State)
        → Like s t
        → Related (λ a b. Unit {0}) (C.apply_service o s).0 (C.apply_service o t).0
          × Like (C.apply_service o s).1 (C.apply_service o t).1

  -- The same answer, after the same calls, in states that are alike.
  abbrev pub IsSame : {A : Type 0} → A × World C → A × World C → Type 0
  IsSame a b = (a.0 ≡ b.0) × (a.1.log ≡ b.1.log) × Like a.1.state b.1.state

  -- Two runs at the same point.
  abbrev pub Beside : World C → World C → Type 0
  Beside w v = (w.log ≡ v.log) × Like w.state v.state
