-- ===== src/Tests/Memory.antt =====
-- An API server in memory that keeps its Deployments, and the operator at work on it.
use bruk.Prelude.{
  String, Bool, true, false, ◌&&◌, List, [], ◌∷◌, Option, none, some, ◌≡◌, refl, ◌∙◌, ap, ◌⊎◌, inl,
  inr, arith,
}
use bruk.Prelude.{Any, here, there, if◌then◌else◌, str_eq, str_eq_iff, Bool-cases}
use mathlib.Core.Path.{subst}
use bruk.Result.{Result, ok, err, not_found}
use bruk.Kube.Meta.{NamespacedName}
use bruk.Kube.Workload.{Deployment}
use bruk.Api.InferenceService.{InferenceService, object_key}
use bruk.Client.{Client}
use bruk.Cluster.{View, IsServer, IsExclusive, IsNamed, IsApplied}
use bruk.Cluster.Shrinks.{Shrinks-refl, IsRestOf-refl}
use bruk.Controller.Inference.{reconcile}
use bruk.Controller.System.{from, start, later, reconciled_inference_service}
use bruk.Controller.System.Exclusive.{Reach-IsExclusive}
use bruk.Tests.Fixtures.{demo, chat, draft, tenant, cluster, key_of}

abbrev pub Store : Type 0
Store = List (Deployment demo)

-- The Deployments of a namespace.
unfoldable pub in_namespace : String → Store → Store
in_namespace namespace [] = []
in_namespace namespace (d ∷ s) =
    let rest = in_namespace namespace s in
    if str_eq d.metadata.namespace namespace then d ∷ rest else rest

-- The first Deployment of the same name and namespace is replaced; without one, a new one is made.
unfoldable pub upsert : Deployment demo → Store → Store
upsert d [] = d ∷ []
upsert d (e ∷ s) =
    let rest = upsert d s in
    if str_eq e.metadata.name d.metadata.name && str_eq e.metadata.namespace d.metadata.namespace
    then d ∷ s
    else e ∷ rest

abbrev find_service : NamespacedName → Result (InferenceService demo)
find_service key =
    if str_eq key.name "draft"
    then ok draft
    else if str_eq key.name "chat"
    then ok chat
    else err (not_found "")

abbrev memory : Client demo
memory = record {
  State = Store;
  get_inference_service = λ key s. (find_service key, s);
  get_bruk_tenant = λ key s. (ok tenant, s);
  get_bruk_model = λ key s. (((cluster chat).get_bruk_model key tt).0, s);
  get_secret = λ key s. (((cluster chat).get_secret key tt).0, s);
  list_inference_services = λ namespace s. (ok (chat ∷ draft ∷ []), s);
  list_all_inference_services = λ s. (ok (chat ∷ draft ∷ []), s);
  list_deployments = λ namespace s. (ok (in_namespace namespace s), s);
  list_pods = λ namespace s. (ok [], s);
  apply_config_map = λ o s. (ok o, s);
  apply_deployment = λ d s. (ok d, upsert d s);
  apply_service = λ o s. (ok o, s);
  update_inference_service_status = λ o s. (ok tt, s);
  update_bruk_model_status = λ o s. (ok tt, s);
  update_bruk_tenant_status = λ o s. (ok tt, s);
}

abbrev memory_named : String → Option NamespacedName
memory_named uid =
    if str_eq uid "u-1"
    then some (key_of chat)
    else if str_eq uid "u-2"
    then some (key_of draft)
    else none

abbrev memory_view : View memory
memory_view = record { Has = λ s d. Any (λ x. x ≡ d) s; named = memory_named }

in_namespace_lists :
    (namespace : String) (s : Store) (d : Deployment demo)
    → Any (λ x. x ≡ d) s
    → d.metadata.namespace ≡ namespace
    → Any (λ x. x ≡ d) (in_namespace namespace s)
unfolding in_namespace
in_namespace_lists namespace [] d m same = elim m [ ]
in_namespace_lists namespace (e ∷ s) d (here p) same =
    rw
      ((str_eq_iff e.metadata.namespace namespace).1
        (ap (λ (x : Deployment demo). x.metadata.namespace) p ∙ same))
      (here p)
in_namespace_lists namespace (e ∷ s) d (there m) same =
    elim (Bool-cases (str_eq e.metadata.namespace namespace)) [
      | inl inside ↦ rw inside (there (in_namespace_lists namespace s d m same))
      | inr outside ↦ rw outside (in_namespace_lists namespace s d m same)
    ]

replaced :
    {d e x : Deployment demo} {s : Store}
    → Any (λ y. y ≡ x) (d ∷ s)
    → Any (λ y. y ≡ x) (e ∷ s) ⊎ (d ≡ x)
replaced (here p) = inr p
replaced (there m) = inl (there m)

kept :
    {d e x : Deployment demo} {s t : Store}
    → (Any (λ y. y ≡ x) t → Any (λ y. y ≡ x) s ⊎ (d ≡ x))
    → Any (λ y. y ≡ x) (e ∷ t)
    → Any (λ y. y ≡ x) (e ∷ s) ⊎ (d ≡ x)
kept rest (here p) = inl (here p)
kept rest (there m) = elim (rest m) [ inl old ↦ inl (there old) | inr new ↦ inr new ]

upsert_origin :
    (d : Deployment demo) (s : Store) (x : Deployment demo)
    → Any (λ y. y ≡ x) (upsert d s)
    → Any (λ y. y ≡ x) s ⊎ (d ≡ x)
unfolding upsert
upsert_origin d [] x (here p) = inr p
upsert_origin d [] x (there m) = elim m [ ]
upsert_origin d (e ∷ s) x m =
    elim (Bool-cases (
      str_eq e.metadata.name d.metadata.name && str_eq e.metadata.namespace d.metadata.namespace)) [
        | inl same ↦ replaced (rw same at m)
        | inr other ↦ kept (upsert_origin d s x) (rw other at m)
      ]

itself-IsApplied : (s : Store) (d : Deployment demo) → IsApplied memory_view s d d
itself-IsApplied s d = record {
  same_name = refl;
  same_namespace = refl;
  mounts = λ claim m. inl m;
  controls = λ uid k n o. o;
}

found_one :
    (is_draft is_chat : Bool) (isvc : InferenceService demo)
    → (if is_draft then ok draft else if is_chat then ok chat else err (not_found "")) ≡ ok isvc
    → (draft ≡ isvc) ⊎ (chat ≡ isvc)
found_one true c isvc h = inl cc
found_one false true isvc h = inr cc
found_one false false isvc h = cc

finds_named :
    (key : NamespacedName) (isvc : InferenceService demo)
    → find_service key ≡ ok isvc
    → memory_named isvc.metadata.uid ≡ some (object_key demo isvc)
unfolding str_eq
finds_named key isvc h =
    elim (found_one (str_eq key.name "draft") (str_eq key.name "chat") isvc h) [
      | inl e ↦
          subst
            (λ (i : InferenceService demo). memory_named i.metadata.uid ≡ some (object_key demo i))
            e refl
      | inr e ↦
          subst
            (λ (i : InferenceService demo). memory_named i.metadata.uid ≡ some (object_key demo i))
            e refl
    ]

memory-IsServer : IsServer memory_view
memory-IsServer = record {
  get_inference_service_shrinks = λ k s. Shrinks-refl memory_view s;
  get_bruk_tenant_shrinks = λ k s. Shrinks-refl memory_view s;
  get_bruk_model_shrinks = λ k s. Shrinks-refl memory_view s;
  get_secret_shrinks = λ k s. Shrinks-refl memory_view s;
  list_inference_services_shrinks = λ k s. Shrinks-refl memory_view s;
  list_deployments_shrinks = λ k s. Shrinks-refl memory_view s;
  list_pods_shrinks = λ k s. Shrinks-refl memory_view s;
  apply_config_map_shrinks = λ k s. Shrinks-refl memory_view s;
  apply_service_shrinks = λ k s. Shrinks-refl memory_view s;
  update_inference_service_status_shrinks = λ k s. Shrinks-refl memory_view s;
  update_bruk_model_status_shrinks = λ k s. Shrinks-refl memory_view s;
  update_bruk_tenant_status_shrinks = λ k s. Shrinks-refl memory_view s;
  lists_all = λ namespace s ds e d has same.
      let listed : in_namespace namespace s ≡ ds = cc in
      subst (Any (λ x. x ≡ d)) listed (in_namespace_lists namespace s d has same);
  apply_deployment_applies = λ d s x has. elim (upsert_origin d s x has) [
    | inl old ↦ inl (x, old, IsRestOf-refl memory_view x)
    | inr new ↦ inr (inr (subst (IsApplied memory_view s d) new (itself-IsApplied s d)))
  ];
  names_services = λ k s isvc h. finds_named k isvc h;
  sets_one_controller =
      λ name owner_namespace owner namespace refs uid h o. ground (arith, str_eq_iff owner uid);
}

Reach-IsExclusive_example :
    let first = (reconcile memory (key_of chat) (from memory [] [])).1.state in
    let second = (reconcile memory (key_of draft) (from memory first [])).1.state in
    IsExclusive memory_view second × IsNamed memory_view second
Reach-IsExclusive_example =
    Reach-IsExclusive memory_view memory-IsServer (λ d e claim h. elim h [ ])
      (λ d uid k h. elim h [ ])
      (later (later start (reconciled_inference_service (key_of chat) []))
        (reconciled_inference_service (key_of draft) []))
