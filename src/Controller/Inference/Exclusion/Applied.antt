-- ===== src/Controller/Inference/Exclusion/Applied.antt =====
-- The one call that can put a second workload on a trusted store: the application of the Deployment by
-- `Reconcile` of operator/internal/controller/inferenceservice_controller.go.
use bruk.Prelude.{
  String, List, [], Option, none, some, ◌≡◌, refl, sym, ◌∙◌, ap, ◌⊎◌, inl, inr, All, Any-meet,
  arith,
}
use mathlib.Core.Option.{some-injective}
use mathlib.Core.Path.{subst}
use bruk.Result.{Result, ok}
use bruk.Platform.{Platform}
use bruk.Kube.Meta.{NamespacedName}
use bruk.Kube.Workload.{Volume, Deployment}
use bruk.Api.BrukModel.{BrukModel}
use bruk.Api.InferenceService.{InferenceService, WeightsCacheSpec, object_key}
use bruk.Render.{Config, deployment_object, volumes}
use bruk.Render.Workload.{deployment-IsRendered}
use bruk.Client.{Client}
use bruk.Cluster.{View, IsServer, IsFree, IsNamed, IsExclusive}
use bruk.Controller.Conflict.Scan.{Mounts}
use bruk.Controller.Inference.{own_deployment, typed_deployment}
use bruk.Controller.Inference.Trace.{IsWorkload}

module _ {K : Platform} where
  abbrev HasOnly : String → Volume K → Type 0
  HasOnly claim v = (c : String) → v.source.persistent_volume_claim ≡ some c → claim ≡ c

  volumes_only :
      (isvc : InferenceService K) (o : Option (WeightsCacheSpec K))
      → isvc.spec.storage.weights_cache ≡ o
      → All (HasOnly isvc.spec.storage.trusted_store.existing_claim) (volumes K isvc)
  unfolding volumes
  volumes_only isvc none e = rw e ((λ c h. cc), ((λ c h. some-injective _ _ h), tt))
  volumes_only isvc (some cache) e =
      rw e ((λ c h. cc), ((λ c h. cc), ((λ c h. cc), ((λ c h. some-injective _ _ h), tt))))

  -- What a service's Deployment says of names, claims and owners.
  pub record IsOwnWorkload (isvc : InferenceService K) (d : Deployment K) : Type 0 where
    pub same_name : d.metadata.name ≡ isvc.metadata.name
    pub same_namespace : d.metadata.namespace ≡ isvc.metadata.namespace
    pub mounts :
        (claim : String)
        → Mounts K d.spec.template.spec claim
        → isvc.spec.storage.trusted_store.existing_claim ≡ claim
    pub refs : List K.OwnerReference
    pub owned :
        K.set_controller_reference isvc.metadata.name isvc.metadata.namespace isvc.metadata.uid
          isvc.metadata.namespace []
        ≡ ok refs
    pub owners : d.metadata.owner_references ≡ refs

  pub owned_by :
      (isvc : InferenceService K) (rendered d : Deployment K) (r : Result (List K.OwnerReference))
      → (K.set_controller_reference isvc.metadata.name isvc.metadata.namespace isvc.metadata.uid
          rendered.metadata.namespace rendered.metadata.owner_references)
        ≡ r
      → own_deployment K isvc (typed_deployment K rendered) ≡ ok d
      → (refs : List K.OwnerReference) × (r ≡ ok refs)
        × (d.metadata.owner_references ≡ refs)
        × (d.metadata.name ≡ rendered.metadata.name)
        × (d.metadata.namespace ≡ rendered.metadata.namespace)
        × (d.spec ≡ rendered.spec)
  owned_by isvc rendered d r e h = ground arith

  pub workload-IsOwnWorkload :
      (isvc : InferenceService K) (model : BrukModel K) (cfg : Config) {d : Deployment K}
      → IsWorkload isvc model cfg d
      → IsOwnWorkload isvc d
  unfolding deployment_object
  workload-IsOwnWorkload isvc model cfg {d} (rendered, render, owned) =
      let (hf, set, image, blob, same) = deployment-IsRendered K isvc model cfg render in
      let (refs, ref_set, refs_kept, name, namespace, spec) =
        owned_by isvc rendered d _ refl owned in
      record {
        same_name = name ∙ ap (λ (x : Deployment K). x.metadata.name) same;
        same_namespace = namespace ∙ ap (λ (x : Deployment K). x.metadata.namespace) same;
        mounts = λ claim m.
            let rendered_mounts : Mounts K rendered.spec.template.spec claim = rw spec at m in
            let (v, only, is_claim) = Any-meet (volumes_only isvc _ refl) (
              subst (λ (x : Deployment K). Mounts K x.spec.template.spec claim) same
                rendered_mounts) in
            only claim is_claim;
        refs = refs;
        owned =
            subst
              (λ (x : Deployment K).
                K.set_controller_reference isvc.metadata.name isvc.metadata.namespace
                  isvc.metadata.uid x.metadata.namespace x.metadata.owner_references
                ≡ ok refs)
              same ref_set;
        owners = refs_kept;
      }

module _ {K : Platform} {C : Client K} (V : View C) (server : IsServer V)
    (isvc : InferenceService K) (mine : V.named isvc.metadata.uid ≡ some (object_key K isvc))
    (d : Deployment K) (work : IsOwnWorkload isvc d) (s : C.State) where
  abbrev applied_state : C.State
  applied_state = (C.apply_deployment d s).1

  apply-IsNamed : IsNamed V s → IsNamed V applied_state
  apply-IsNamed named x uid k has n o = elim (server.apply_deployment_applies d s x has) [
    | inl (e, has_e, rest) ↦
        let (name, namespace) = named e uid k has_e n (rest.controls uid k n o) in
        (rest.same_name ∙ name, rest.same_namespace ∙ namespace)
    | inr (inl harmless) ↦ absurd (harmless.unowned uid k n o)
    | inr (inr applied) ↦
        let owner : uid ≡ isvc.metadata.uid =
          server.sets_one_controller _ _ _ _ work.refs uid work.owned
            (rw work.owners at (applied.controls uid k n o)) in
        let key : object_key K isvc ≡ k =
          some-injective _ _ (sym mine ∙ ap V.named (sym owner) ∙ n) in
        (
          applied.same_name ∙ work.same_name ∙ ap (λ (k : NamespacedName). k.name) key,
          applied.same_namespace
              ∙ work.same_namespace
              ∙ ap (λ (k : NamespacedName). k.namespace) key,
        )
  ]

  -- Where a Deployment of the new state has a claim from: one of the old state, or the service.
  abbrev Origin : Deployment K → String → Type 0
  Origin x claim =
      ((e : Deployment K) × V.Has s e
        × (x.metadata.name ≡ e.metadata.name)
        × (x.metadata.namespace ≡ e.metadata.namespace)
        × Mounts K e.spec.template.spec claim)
      ⊎ ((x.metadata.name ≡ isvc.metadata.name)
          × (x.metadata.namespace ≡ isvc.metadata.namespace)
          × (isvc.spec.storage.trusted_store.existing_claim ≡ claim))

  origin :
      (x : Deployment K) (claim : String)
      → V.Has applied_state x
      → Mounts K x.spec.template.spec claim
      → Origin x claim
  origin x claim has m = elim (server.apply_deployment_applies d s x has) [
    | inl (e, has_e, rest) ↦
        inl (e, has_e, rest.same_name, rest.same_namespace, rest.mounts claim m)
    | inr (inl harmless) ↦ absurd (harmless.claimless claim m)
    | inr (inr applied) ↦ elim (applied.mounts claim m) [
      | inl mounted ↦ inr (
        applied.same_name ∙ work.same_name,
        applied.same_namespace ∙ work.same_namespace,
        work.mounts claim mounted,
      )
      | inr (e, has_e, name, namespace, mounted) ↦
          inl (
            e,
            has_e,
            applied.same_name ∙ sym name,
            applied.same_namespace ∙ sym namespace,
            mounted,
          )
    ]
  ]

  apply-IsExclusive : IsFree V isvc s → IsExclusive V s → IsExclusive V applied_state
  apply-IsExclusive free exclusive x y claim has_x has_y together m n =
      elim (origin x claim has_x m) [
        | inl (e, has_e, x_e, x_e', on_e) ↦ elim (origin y claim has_y n) [
          | inl (f, has_f, y_f, y_f', on_f) ↦
              x_e ∙ exclusive e f claim has_e has_f (sym x_e' ∙ together ∙ y_f') on_e on_f ∙ sym y_f
          | inr (y_name, y_space, is_claim) ↦
              x_e
              ∙ free e has_e (sym x_e' ∙ together ∙ y_space)
                  (subst (Mounts K e.spec.template.spec) (sym is_claim) on_e)
              ∙ sym y_name
        ]
        | inr (x_name, x_space, is_claim) ↦ elim (origin y claim has_y n) [
          | inl (f, has_f, y_f, y_f', on_f) ↦
              x_name
              ∙ sym (
                  free f has_f (sym y_f' ∙ sym together ∙ x_space)
                    (subst (Mounts K f.spec.template.spec) (sym is_claim) on_f))
              ∙ sym y_f
          | inr (y_name, y_space, is_claim') ↦ x_name ∙ sym y_name
        ]
      ]

  pub apply-keeps :
      IsFree V isvc s
      → IsExclusive V s × IsNamed V s
      → IsExclusive V applied_state × IsNamed V applied_state
  apply-keeps free (exclusive, named) = (apply-IsExclusive free exclusive, apply-IsNamed named)
