-- ===== src/Controller/Inference/Requeue.antt =====
-- Which services a change of a model or of the tenant re-queues: `servicesForModel` and `allServices`
-- of operator/internal/controller/inferenceservice_controller.go.
use bruk.Prelude.{String, List, [], ◌∷◌, ◌≡◌, ◌↔◌, All, Any, here, there, str_eq, str_eq_iff}
use bruk.Prelude.{if◌then◌else◌, map, arith, ap, Bool-cases, inl, inr}
use bruk.Result.{Result, ok, err}
use bruk.Platform.{Platform}
use bruk.Kube.Meta.{NamespacedName}
use bruk.Api.InferenceService.{InferenceService, object_key}
use bruk.Client.{Client, World, M, pure, call, ◌>>=◌}
use bruk.Client.{listed_inference_services, listed_all_inference_services}
use bruk.Controller.Inference.{model_key}

module _ (K : Platform) where
  -- The loop of `servicesForModel`.
  pub requests_for : String → List (InferenceService K) → List NamespacedName
  requests_for name [] = []
  requests_for name (isvc ∷ items) =
      let rest = requests_for name items in
      if str_eq isvc.spec.model_ref.name name then object_key K isvc ∷ rest else rest

  -- A failed list re-queues nothing.
  abbrev pub requests_or_none :
      (List (InferenceService K) → List NamespacedName)
      → Result (List (InferenceService K))
      → List NamespacedName
  requests_or_none f (err e) = []
  requests_or_none f (ok items) = f items

module _ {K : Platform} (C : Client K) where
  -- `servicesForModel`, of the changed model's key.
  pub services_for_model : NamespacedName → M C (List NamespacedName)
  services_for_model changed = do
    items ←
        call (listed_inference_services changed.namespace)
          (C.list_inference_services changed.namespace)
    pure (requests_or_none K (requests_for K changed.name) items)

  -- `allServices`
  pub all_services : M C (List NamespacedName)
  all_services = do
    items ← call listed_all_inference_services C.list_all_inference_services
    pure (requests_or_none K (map (object_key K)) items)

module _ (K : Platform) where
  requests_for_sound :
      (name : String) (items : List (InferenceService K)) (key : NamespacedName)
      → Any (λ k. k ≡ key) (requests_for K name items)
      → Any (λ isvc. (object_key K isvc ≡ key) × (isvc.spec.model_ref.name ≡ name)) items
  unfolding requests_for
  requests_for_sound name [] key m = elim m [ ]
  requests_for_sound name (isvc ∷ items) key m =
      elim (Bool-cases (str_eq isvc.spec.model_ref.name name)) [
        | inl same ↦
            cons_case isvc items ((str_eq_iff _ name).0 same) (requests_for_sound name items key)
              (rw same at m)
        | inr other ↦ there (requests_for_sound name items key (rw other at m))
      ]
    where
      cons_case :
          (isvc' : InferenceService K) (items' : List (InferenceService K))
          → isvc'.spec.model_ref.name ≡ name
          → (Any (λ k. k ≡ key) (requests_for K name items')
              → Any (λ i. (object_key K i ≡ key) × (i.spec.model_ref.name ≡ name)) items')
          → Any (λ k. k ≡ key) (object_key K isvc' ∷ requests_for K name items')
          → Any (λ i. (object_key K i ≡ key) × (i.spec.model_ref.name ≡ name)) (isvc' ∷ items')
      cons_case isvc' items' e rec (here p) = here (p, e)
      cons_case isvc' items' e rec (there m') = there (rec m')

  requests_for_complete :
      (name : String) (items : List (InferenceService K)) (key : NamespacedName)
      → Any (λ isvc. (object_key K isvc ≡ key) × (isvc.spec.model_ref.name ≡ name)) items
      → Any (λ k. k ≡ key) (requests_for K name items)
  unfolding requests_for
  requests_for_complete name [] key m = elim m [ ]
  requests_for_complete name (isvc ∷ items) key (here (p, e)) =
      rw ((str_eq_iff isvc.spec.model_ref.name name).1 e) (here p)
  requests_for_complete name (isvc ∷ items) key (there m) =
      elim (Bool-cases (str_eq isvc.spec.model_ref.name name)) [
        | inl same ↦ rw same (there (requests_for_complete name items key m))
        | inr other ↦ rw other (requests_for_complete name items key m)
      ]

Any-refine {ℓ κ} :
    {A : Type ℓ} {P Q R : A → Type κ} {xs : List A}
    → ((x : A) → P x → Q x → R x)
    → Any Q xs
    → All P xs
    → Any R xs
Any-refine f (here {x = x} q) h = here (f x h.0 q)
Any-refine f (there m) h = there (Any-refine f m h.1)

-- If the list of services could be read and holds services of the changed model's namespace alone,
-- a change of the model re-queues exactly the listed services whose reconcile reads that model:
-- those whose model key is the changed object's.
pub services_for_model_iff :
    {K : Platform} (C : Client K) (changed : NamespacedName) (w : World C)
    (items : List (InferenceService K)) (key : NamespacedName)
    → (C.list_inference_services changed.namespace w.state).0 ≡ ok items
    → All (λ isvc. isvc.metadata.namespace ≡ changed.namespace) items
    → Any (λ k. k ≡ key) (services_for_model C changed w).0
      ↔ Any (λ isvc. (object_key K isvc ≡ key) × (model_key isvc ≡ changed)) items
unfolding services_for_model
services_for_model_iff {K} C changed w items key listed local = rw listed (
  λ m.
      Any-refine (λ i n (p, e). (p, ground arith)) (requests_for_sound K changed.name items key m)
        local,
  λ m.
      requests_for_complete K changed.name items key
        (Any-refine (λ i n (p, e). (p, ap (λ (k : NamespacedName). k.name) e)) m local),
)
