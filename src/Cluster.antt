-- ===== src/Cluster.antt =====
-- What the reconcilers rely on of the API server when other writers act between their calls: the
-- Deployments that stand in a state of the server, and how each call of Client may change them.
pub mod Shrinks
use bruk.Prelude.{String, true, List, [], ◌≡◌, ◌⊎◌, Option, some, Any}
use bruk.Result.{Result, ok}
use bruk.Platform.{Platform}
use bruk.Kube.Meta.{NamespacedName}
use bruk.Kube.Workload.{Pod, Deployment, Service, ConfigMap}
use bruk.Api.BrukModel.{BrukModel}
use bruk.Api.BrukTenant.{BrukTenant}
use bruk.Api.InferenceService.{InferenceService, object_key}
use bruk.Client.{Client}
use bruk.Controller.Conflict.Scan.{Mounts}

module _ {K : Platform} (C : Client K) where
  -- The Deployments of a state, and the service that a UID belongs to: a UID is never given twice.
  pub record View : Type 1 where
    pub Has : C.State → Deployment K → Type 0
    pub named : String → Option NamespacedName

module _ {K : Platform} {C : Client K} (V : View C) where
  abbrev pub IsControlled : Deployment K → String → Type 0
  IsControlled d uid = K.is_controlled_by d.metadata.owner_references uid ≡ true

  -- What is left of a Deployment: it mounts no new claim, and no new service controls it.
  pub record IsRestOf (e d : Deployment K) : Type 0 where
    pub same_name : d.metadata.name ≡ e.metadata.name
    pub same_namespace : d.metadata.namespace ≡ e.metadata.namespace
    pub mounts :
        (claim : String) → Mounts K d.spec.template.spec claim → Mounts K e.spec.template.spec claim
    pub controls :
        (uid : String) (k : NamespacedName)
        → V.named uid ≡ some k
        → IsControlled d uid
        → IsControlled e uid

  -- A Deployment that has nothing to do with the operator: no claim, and no service controls it.
  pub record IsHarmless (d : Deployment K) : Type 0 where
    pub claimless : (claim : String) → ¬ Mounts K d.spec.template.spec claim
    pub unowned : (uid : String) (k : NamespacedName) → V.named uid ≡ some k → ¬ IsControlled d uid

  -- What other writers may do to the Deployments: delete them, change them but for new claims and
  -- new owners among the services, and create harmless ones.
  abbrev pub Shrinks : C.State → C.State → Type 0
  Shrinks s t =
      (d : Deployment K)
      → V.Has t d
      → ((e : Deployment K) × V.Has s e × IsRestOf e d) ⊎ IsHarmless d

  -- The applied Deployment as the server has it afterwards: server-side apply may keep fields of the
  -- object that was there, and an object has one controller.
  pub record IsApplied (s : C.State) (d x : Deployment K) : Type 0 where
    pub same_name : x.metadata.name ≡ d.metadata.name
    pub same_namespace : x.metadata.namespace ≡ d.metadata.namespace
    pub mounts :
        (claim : String)
        → Mounts K x.spec.template.spec claim
        → Mounts K d.spec.template.spec claim
          ⊎ ((e : Deployment K) × V.Has s e
              × (e.metadata.name ≡ d.metadata.name)
              × (e.metadata.namespace ≡ d.metadata.namespace)
              × Mounts K e.spec.template.spec claim)
    pub controls :
        (uid : String) (k : NamespacedName)
        → V.named uid ≡ some k
        → IsControlled x uid
        → IsControlled d uid

  -- The documented behaviour of the server, with other writers between any two calls. A failed
  -- apply may have taken effect.
  pub record IsServer : Type 0 where
    pub get_inference_service_shrinks :
        (k : NamespacedName) (s : C.State) → Shrinks s (C.get_inference_service k s).1
    pub get_bruk_tenant_shrinks :
        (k : NamespacedName) (s : C.State) → Shrinks s (C.get_bruk_tenant k s).1
    pub get_bruk_model_shrinks :
        (k : NamespacedName) (s : C.State) → Shrinks s (C.get_bruk_model k s).1
    pub get_secret_shrinks : (k : NamespacedName) (s : C.State) → Shrinks s (C.get_secret k s).1
    pub list_inference_services_shrinks :
        (namespace : String) (s : C.State) → Shrinks s (C.list_inference_services namespace s).1
    pub list_deployments_shrinks :
        (namespace : String) (s : C.State) → Shrinks s (C.list_deployments namespace s).1
    pub list_pods_shrinks :
        (namespace : String) (s : C.State) → Shrinks s (C.list_pods namespace s).1
    pub apply_config_map_shrinks :
        (c : ConfigMap K) (s : C.State) → Shrinks s (C.apply_config_map c s).1
    pub apply_service_shrinks : (o : Service K) (s : C.State) → Shrinks s (C.apply_service o s).1
    pub update_inference_service_status_shrinks :
        (i : InferenceService K) (s : C.State) → Shrinks s (C.update_inference_service_status i s).1
    pub update_bruk_model_status_shrinks :
        (m : BrukModel K) (s : C.State) → Shrinks s (C.update_bruk_model_status m s).1
    pub update_bruk_tenant_status_shrinks :
        (t : BrukTenant K) (s : C.State) → Shrinks s (C.update_bruk_tenant_status t s).1
    -- A list is complete, and up to date when it is made.
    pub lists_all :
        (namespace : String) (s : C.State) (ds : List (Deployment K))
        → (C.list_deployments namespace s).0 ≡ ok ds
        → (d : Deployment K) → V.Has s d
        → d.metadata.namespace ≡ namespace
        → Any (λ x. x ≡ d) ds
    pub apply_deployment_applies :
        (d : Deployment K) (s : C.State) (x : Deployment K)
        → V.Has (C.apply_deployment d s).1 x
        → ((e : Deployment K) × V.Has s e × IsRestOf e x) ⊎ IsHarmless x ⊎ IsApplied s d x
    -- A service is handed out under the name that its UID belongs to.
    pub names_services :
        (k : NamespacedName) (s : C.State) (isvc : InferenceService K)
        → (C.get_inference_service k s).0 ≡ ok isvc
        → V.named isvc.metadata.uid ≡ some (object_key K isvc)
    -- `SetControllerReference` on an object without references makes the owner its one controller.
    pub sets_one_controller :
        (name owner_namespace owner namespace : String) (refs : List K.OwnerReference)
        (uid : String)
        → K.set_controller_reference name owner_namespace owner namespace [] ≡ ok refs
        → K.is_controlled_by refs uid ≡ true
        → uid ≡ owner

  -- No two Deployments of a namespace mount one claim.
  abbrev pub IsExclusive : C.State → Type 0
  IsExclusive s =
      (d e : Deployment K) (claim : String)
      → V.Has s d
      → V.Has s e
      → d.metadata.namespace ≡ e.metadata.namespace
      → Mounts K d.spec.template.spec claim
      → Mounts K e.spec.template.spec claim
      → d.metadata.name ≡ e.metadata.name

  -- A Deployment that a service controls has the service's name and namespace.
  abbrev pub IsNamed : C.State → Type 0
  IsNamed s =
      (d : Deployment K) (uid : String) (k : NamespacedName)
      → V.Has s d
      → V.named uid ≡ some k
      → IsControlled d uid
      → (d.metadata.name ≡ k.name) × (d.metadata.namespace ≡ k.namespace)

  -- The service's claim is mounted by a Deployment of its own name at most.
  abbrev pub IsFree : InferenceService K → C.State → Type 0
  IsFree isvc s =
      (d : Deployment K)
      → V.Has s d
      → d.metadata.namespace ≡ isvc.metadata.namespace
      → Mounts K d.spec.template.spec isvc.spec.storage.trusted_store.existing_claim
      → d.metadata.name ≡ isvc.metadata.name
