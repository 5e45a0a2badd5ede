-- ===== src/Tests/Watching.antt =====
-- Changes in the cluster of two services, and what they queue.
use bruk.Prelude.{ℕ, zero, suc, [], ◌∷◌, ◌≡◌, ◌≢◌, refl, sym, ◌∙◌, ap, inl, inr, arith, ◌==◌}
use bruk.Prelude.{if◌then◌else◌, Bool-cases, true, false}
use bruk.Client.{World}
use bruk.Controller.Watches
use bruk.Controller.Watches.{Kind, Event, Builder, requests_of, deployment, secret}
use bruk.Controller.Watches.{set_up_inference_service, set_up_bruk_model, set_up_bruk_tenant}
use bruk.Controller.Watches.Laws.{IsBuilder, set_up_inference_service-reaction, unwatched}
use bruk.Tests.Fixtures.{chat, cluster, start, key_of}

abbrev code : Kind → ℕ
code Watches.bruk_tenant = 0
code Watches.bruk_model = 1
code Watches.inference_service = 2
code Watches.deployment = 3
code Watches.service = 4
code Watches.config_map = 5
code Watches.pod = 6
code Watches.secret = 7

abbrev kind_of : ℕ → Kind
kind_of zero = Watches.bruk_tenant
kind_of (suc zero) = Watches.bruk_model
kind_of (suc (suc zero)) = Watches.inference_service
kind_of (suc (suc (suc zero))) = Watches.deployment
kind_of (suc (suc (suc (suc zero)))) = Watches.service
kind_of (suc (suc (suc (suc (suc zero))))) = Watches.config_map
kind_of (suc (suc (suc (suc (suc (suc zero)))))) = Watches.pod
kind_of (suc (suc (suc (suc (suc (suc (suc n))))))) = Watches.secret

kind_of-code : (k : Kind) → kind_of (code k) ≡ k
kind_of-code Watches.bruk_tenant = refl
kind_of-code Watches.bruk_model = refl
kind_of-code Watches.inference_service = refl
kind_of-code Watches.deployment = refl
kind_of-code Watches.service = refl
kind_of-code Watches.config_map = refl
kind_of-code Watches.pod = refl
kind_of-code Watches.secret = refl

same_code : (k l : Kind) → k ≡ l → (code k == code l) ≡ true
same_code k l h = let e : code k ≡ code l = ap code h in ground arith

other_code : (k l : Kind) → k ≢ l → (code k == code l) ≡ false
other_code k l h = elim (Bool-cases (code k == code l)) [
  | inl equal ↦
      let e : code k ≡ code l = ground arith in
      absurd (h (sym (kind_of-code k) ∙ ap kind_of e ∙ kind_of-code l))
  | inr different ↦ different
]

-- A builder that does what is documented.
abbrev builder : Builder (cluster chat)
builder = record {
  for_kind = λ k e w. if code e.kind == code k then (e.key ∷ [], w) else ([], w);
  owns = λ k e w. if code e.kind == code k then (e.owner, w) else ([], w);
  watches = λ k f e w. if code e.kind == code k then f e.key w else ([], w);
}

builder-IsBuilder : IsBuilder builder
builder-IsBuilder = record {
  for_same = λ k e w h. rw (same_code e.kind k h) refl;
  for_other = λ k e w h. rw (other_code e.kind k h) refl;
  owns_same = λ k e w h. rw (same_code e.kind k h) refl;
  owns_other = λ k e w h. rw (other_code e.kind k h) refl;
  watches_same = λ k f e w h. rw (same_code e.kind k h) refl;
  watches_other = λ k f e w h. rw (other_code e.kind k h) refl;
}

-- The Deployment of a service has become available.
abbrev available : Event
available = record { kind = deployment; key = key_of chat; owner = key_of chat ∷ [] }

-- The token has been delivered.
abbrev delivered : Event
delivered = record {
  kind = secret;
  key = record { name = "hf-token"; namespace = "ai" };
  owner = [];
}

abbrev world : World (cluster chat)
world = start (cluster chat) tt

set_up_inference_service-reaction_example :
    requests_of
      (cluster chat)
      (set_up_inference_service (cluster chat) builder).sources
      available
      world
    ≡ (key_of chat ∷ [], world)
set_up_inference_service-reaction_example =
    set_up_inference_service-reaction builder builder-IsBuilder available world

unwatched_example :
    (requests_of
        (cluster chat)
        (set_up_inference_service (cluster chat) builder).sources
        delivered
        world
      ≡ ([], world))
    × (requests_of (cluster chat) (set_up_bruk_model (cluster chat) builder).sources delivered world
        ≡ ([], world))
    × (requests_of
          (cluster chat)
          (set_up_bruk_tenant (cluster chat) builder).sources
          delivered
          world
        ≡ ([], world))
unwatched_example = unwatched builder builder-IsBuilder delivered world (inl refl)
