-- ===== src/Tests/Keeping.antt =====
-- A cluster with two services that keeps the status of the older and its Deployments.
use bruk.Prelude.{List, [], ◌∷◌, ◌≡◌, refl, ap}
use bruk.Prelude.{str_eq}
use bruk.Result.{Result, ok, err}
use bruk.Api.InferenceService.{InferenceServiceStatus}
use bruk.Client.{Client}
use bruk.Controller.Status.Settles.{with_status}
use bruk.Controller.Conflict.{}
use bruk.Prelude.{Bool, str_eq_refl}
use bruk.Controller.Conflict.Undisturbed.{
  MakesController, IsOwn, foreign, standalone, IsUndisturbed,
}
use bruk.Controller.Conflict.Winner.{IsStandIn}
use bruk.Controller.Conflict.{has_owner}
use bruk.Tests.Memory.{in_namespace, upsert}
use bruk.Kube.Workload.{Deployment, Pod}
use bruk.Prelude.{String, Bool-cases, inl, inr, true, ◌&&◌, if◌then◌else◌, All, sym, ◌∙◌}
use bruk.Tests.Fixtures.{demo, chat, draft, cluster}

-- What the cluster keeps: the status of the older service, and the Deployments.
pub record Kept : Type 0 where
  pub status : InferenceServiceStatus
  pub deployments : List (Deployment demo)

-- A Pod for each Deployment, that has an owner.
unfoldable pub pods_of : List (Deployment demo) → List (Pod demo)
pods_of [] = []
pods_of (d ∷ ds) = record { metadata = d.metadata; spec = d.spec.template.spec } ∷ pods_of ds

abbrev pub keeping : Client demo
keeping = record {
  State = Kept;
  get_inference_service =
      λ key s. (ok (if str_eq key.name "draft" then draft else with_status chat s.status), s);
  get_bruk_tenant = λ key s. (((cluster chat).get_bruk_tenant key tt).0, s);
  get_bruk_model = λ key s. (((cluster chat).get_bruk_model key tt).0, s);
  get_secret = λ key s. (((cluster chat).get_secret key tt).0, s);
  list_inference_services = λ namespace s. (ok (with_status chat s.status ∷ draft ∷ []), s);
  list_all_inference_services = λ s. (ok (with_status chat s.status ∷ draft ∷ []), s);
  list_deployments = λ namespace s. (ok (in_namespace namespace s.deployments), s);
  list_pods = λ namespace s. (ok (pods_of (in_namespace namespace s.deployments)), s);
  apply_config_map = λ o s. (ok o, s);
  apply_deployment = λ d s. (ok d, record s { deployments = upsert d s.deployments });
  apply_service = λ o s. (ok o, s);
  update_inference_service_status = λ o s.
      (ok tt, record s { status = if str_eq o.metadata.name "draft" then s.status else o.status });
  update_bruk_model_status = λ o s. (ok tt, s);
  update_bruk_tenant_status = λ o s. (ok tt, s);
}

-- Every Deployment there is the service's own.
abbrev pub AllOwn : List (Deployment demo) → Type 0
AllOwn = All (IsOwn chat)

in_namespace-AllOwn :
    (n : String) (ds : List (Deployment demo)) → AllOwn ds → AllOwn (in_namespace n ds)
unfolding in_namespace
in_namespace-AllOwn n [] own = tt
in_namespace-AllOwn n (d ∷ ds) (own, rest) = elim (Bool-cases (str_eq d.metadata.namespace n)) [
  | inl inside ↦ rw inside (own, in_namespace-AllOwn n ds rest)
  | inr outside ↦ rw outside (in_namespace-AllOwn n ds rest)
]

upsert-AllOwn :
    (d : Deployment demo) (ds : List (Deployment demo))
    → IsOwn chat d
    → AllOwn ds
    → AllOwn (upsert d ds)
unfolding upsert
upsert-AllOwn d [] own rest = (own, tt)
upsert-AllOwn d (e ∷ ds) own (own_e, rest) =
    elim (Bool-cases (
      str_eq e.metadata.name d.metadata.name && str_eq e.metadata.namespace d.metadata.namespace)) [
        | inl same ↦ rw same (own, rest)
        | inr other ↦ rw other (own_e, upsert-AllOwn d ds own rest)
      ]

foreign-AllOwn : (ds : List (Deployment demo)) → AllOwn ds → foreign chat ds ≡ []
unfolding foreign
foreign-AllOwn [] own = refl
foreign-AllOwn (d ∷ ds) (own, rest) = rw own (foreign-AllOwn ds rest)

has_owner-IsOwn :
    (d : Deployment demo) → IsOwn chat d → has_owner d.metadata.owner_references ≡ true
has_owner-IsOwn d own = by_references d.metadata.owner_references own
  where
    by_references :
        (refs : List String)
        → demo.is_controlled_by refs chat.metadata.uid ≡ true
        → has_owner refs ≡ true
    by_references [] h = cc
    by_references (u ∷ us) h = refl

standalone-pods_of : (ds : List (Deployment demo)) → AllOwn ds → standalone (pods_of ds) ≡ []
unfolding standalone pods_of
standalone-pods_of [] own = refl
standalone-pods_of (d ∷ ds) (own, rest) = rw (has_owner-IsOwn d own) (standalone-pods_of ds rest)

abbrev pub Like : Kept → Kept → Type 0
Like s t = AllOwn s.deployments × AllOwn t.deployments

pub keeping-IsUndisturbed : IsUndisturbed keeping chat Like
keeping-IsUndisturbed = record {
  own_service = λ k s t like. like;
  tenant = λ k s t like. (refl, like);
  model = λ k s t like. (refl, like);
  services = λ n s t like.
      let older : IsStandIn (with_status chat s.status) (with_status chat t.status) = record {
        same_name = refl;
        same_creation = refl;
        same_claim = refl;
      } in
      let younger : IsStandIn draft draft = record {
        same_name = refl;
        same_creation = refl;
        same_claim = refl;
      } in
      ((older, (younger, tt)), like);
  deployments = λ n s t like. (
    foreign-AllOwn _ (in_namespace-AllOwn n s.deployments like.0)
        ∙ sym (foreign-AllOwn _ (in_namespace-AllOwn n t.deployments like.1)),
    like,
  );
  pods = λ n s t like. (
    standalone-pods_of _ (in_namespace-AllOwn n s.deployments like.0)
        ∙ sym (standalone-pods_of _ (in_namespace-AllOwn n t.deployments like.1)),
    like,
  );
  config_map = λ c s t like. (tt, like);
  own_deployment = λ d s t own like.
      (refl, (upsert-AllOwn d s.deployments own like.0, upsert-AllOwn d t.deployments own like.1));
  service = λ o s t like. (tt, like);
}

pub demo-MakesController : MakesController demo
demo-MakesController = record {
  controls = λ name owner_namespace owner namespace refs made h.
      ap (leads_for owner) (sym h) ∙ led owner refs;
}
  where
    leads_for : String → Result (List String) → Bool
    leads_for owner (ok refs) = demo.is_controlled_by refs owner
    leads_for owner (err e) = true

    led :
        (owner : String) (refs : List String)
        → leads_for owner (demo.set_controller_reference "" "" owner "" refs) ≡ true
    led owner [] = str_eq_refl owner
    led owner (u ∷ us) = elim (Bool-cases (str_eq u owner)) [
      | inl same ↦ rw (same, same) refl
      | inr other ↦ rw other refl
    ]
