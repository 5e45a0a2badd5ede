-- ===== src/Controller/Watches/Laws.antt =====
-- What the set-ups of the three controllers (operator/internal/controller) react to.
use bruk.Prelude.{List, [], ◌∷◌, ◌++◌, ◌≡◌, ◌≢◌, refl, sym, ◌∙◌, ap, ◌⊎◌, inl, inr}
use mathlib.Core.List.{append-nil}
use bruk.Platform.{Platform}
use bruk.Kube.Meta.{NamespacedName}
use bruk.Client.{Client, World}
use bruk.Controller.Inference.Requeue.{services_for_model, all_services}
use bruk.Controller.Watches
use bruk.Controller.Watches.{Kind, bruk_tenant, bruk_model, inference_service, deployment, service}
use bruk.Controller.Watches.{config_map, pod, secret}
use bruk.Controller.Watches.{Event, Builder, MapFunc, Handler, requests_of}
use bruk.Controller.Watches.{set_up_inference_service, set_up_bruk_model, set_up_bruk_tenant}

module _ {K : Platform} {C : Client K} where
  -- The documented behaviour of the builder: `For` queues the object itself, `Owns` the owner that
  -- controls it, `Watches` what the map function answers, each for its kind alone.
  pub record IsBuilder (B : Builder C) : Type 0 where
    pub for_same :
        (k : Kind) (e : Event) (w : World C) → e.kind ≡ k → B.for_kind k e w ≡ (e.key ∷ [], w)
    pub for_other : (k : Kind) (e : Event) (w : World C) → e.kind ≢ k → B.for_kind k e w ≡ ([], w)
    pub owns_same : (k : Kind) (e : Event) (w : World C) → e.kind ≡ k → B.owns k e w ≡ (e.owner, w)
    pub owns_other : (k : Kind) (e : Event) (w : World C) → e.kind ≢ k → B.owns k e w ≡ ([], w)
    pub watches_same :
        (k : Kind) (f : MapFunc C) (e : Event) (w : World C)
        → e.kind ≡ k
        → B.watches k f e w ≡ f e.key w
    pub watches_other :
        (k : Kind) (f : MapFunc C) (e : Event) (w : World C)
        → e.kind ≢ k
        → B.watches k f e w ≡ ([], w)

  -- The requests that a change of each kind is meant to queue for the InferenceService reconciler.
  abbrev pub reaction : Kind → Handler C
  reaction Watches.inference_service e w = (e.key ∷ [], w)
  reaction Watches.deployment e w = (e.owner, w)
  reaction Watches.service e w = (e.owner, w)
  reaction Watches.bruk_model e w = services_for_model C e.key w
  reaction Watches.bruk_tenant e w = all_services C w
  reaction _ e w = ([], w)

  module _ (B : Builder C) (law : IsBuilder B) (e : Event) (w : World C) where
    -- The five sources, with the answer of each.
    answers :
        (xs ys zs : List NamespacedName) (r q : List NamespacedName × World C)
        → B.for_kind inference_service e w ≡ (xs, w)
        → B.owns deployment e w ≡ (ys, w)
        → B.owns service e w ≡ (zs, w)
        → B.watches bruk_model (services_for_model C) e w ≡ r
        → B.watches bruk_tenant (λ key. all_services C) e r.1 ≡ q
        → requests_of C (set_up_inference_service C B).sources e w
          ≡ (xs ++ (ys ++ (zs ++ (r.0 ++ (q.0 ++ [])))), q.1)
    unfolding requests_of
    answers xs ys zs r q f o o' m t = rw (f, o, o', m, t) refl

    not_for : (k : Kind) → e.kind ≢ k → B.for_kind k e w ≡ ([], w)
    not_for k = law.for_other k e w

    not_owned : (k : Kind) → e.kind ≢ k → B.owns k e w ≡ ([], w)
    not_owned k = law.owns_other k e w

    not_mapped : (k : Kind) (f : MapFunc C) → e.kind ≢ k → B.watches k f e w ≡ ([], w)
    not_mapped k f = law.watches_other k f e w

    -- A kind that the reconciler only owns, or has no source for.
    unmapped :
        (k : Kind) (ys zs : List NamespacedName)
        → e.kind ≡ k
        → k ≢ inference_service
        → k ≢ bruk_model
        → k ≢ bruk_tenant
        → B.owns deployment e w ≡ (ys, w)
        → B.owns service e w ≡ (zs, w)
        → requests_of C (set_up_inference_service C B).sources e w ≡ (ys ++ zs, w)
    unmapped k ys zs h not_isvc not_model not_tenant o o' =
        answers [] ys zs ([], w) ([], w) (not_for inference_service (λ n. not_isvc (sym h ∙ n))) o
          o' (not_mapped bruk_model _ (λ n. not_model (sym h ∙ n)))
          (not_mapped bruk_tenant _ (λ n. not_tenant (sym h ∙ n)))
        ∙ ap (λ all. (ys ++ all, w)) (append-nil zs)

    react :
        (k : Kind)
        → e.kind ≡ k
        → requests_of C (set_up_inference_service C B).sources e w ≡ reaction k e w
    react Watches.inference_service h =
        answers (e.key ∷ []) [] [] ([], w) ([], w) (law.for_same inference_service e w h)
          (not_owned deployment (λ n. cc)) (not_owned service (λ n. cc))
          (not_mapped bruk_model _ (λ n. cc)) (not_mapped bruk_tenant _ (λ n. cc))
    react Watches.deployment h =
        unmapped deployment e.owner [] h (λ n. cc) (λ n. cc) (λ n. cc)
          (law.owns_same deployment e w h) (not_owned service (λ n. cc))
        ∙ ap (λ all. (all, w)) (append-nil e.owner)
    react Watches.service h =
        unmapped service [] e.owner h (λ n. cc) (λ n. cc) (λ n. cc) (not_owned deployment (λ n. cc))
          (law.owns_same service e w h)
    react Watches.bruk_model h =
        let r = services_for_model C e.key w in
        answers [] [] [] r ([], r.1) (not_for inference_service (λ n. cc))
          (not_owned deployment (λ n. cc)) (not_owned service (λ n. cc))
          (law.watches_same bruk_model _ e w h) (law.watches_other bruk_tenant _ e r.1 (λ n. cc))
        ∙ ap (λ all. (all, r.1)) (append-nil r.0)
    react Watches.bruk_tenant h =
        let r = all_services C w in
        answers [] [] [] ([], w) r (not_for inference_service (λ n. cc))
          (not_owned deployment (λ n. cc)) (not_owned service (λ n. cc))
          (not_mapped bruk_model _ (λ n. cc)) (law.watches_same bruk_tenant _ e w h)
        ∙ ap (λ all. (all, r.1)) (append-nil r.0)
    react Watches.config_map h =
        unmapped config_map [] [] h (λ n. cc) (λ n. cc) (λ n. cc) (not_owned deployment (λ n. cc))
          (not_owned service (λ n. cc))
    react Watches.pod h =
        unmapped pod [] [] h (λ n. cc) (λ n. cc) (λ n. cc) (not_owned deployment (λ n. cc))
          (not_owned service (λ n. cc))
    react Watches.secret h =
        unmapped secret [] [] h (λ n. cc) (λ n. cc) (λ n. cc) (not_owned deployment (λ n. cc))
          (not_owned service (λ n. cc))

    -- Whatever changes in the cluster, the requests that it queues for the InferenceService reconciler
    -- are those meant for its kind: the service itself, the service that controls a Deployment or a
    -- Service, the services of a model, all services for the tenant, and none for a ConfigMap, a Pod
    -- or a Secret. The builder queues as documented.
    pub set_up_inference_service-reaction :
        requests_of C (set_up_inference_service C B).sources e w ≡ reaction e.kind e w
    set_up_inference_service-reaction = react e.kind refl

    one_source : (k : Kind) → e.kind ≢ k → requests_of C (B.for_kind k ∷ []) e w ≡ ([], w)
    unfolding requests_of
    one_source k other = rw (not_for k other) refl

    -- A change of a Secret or of a Pod queues nothing for any of the three reconcilers, so a model that
    -- is not Ready for want of its token is not looked at again when the Secret is delivered. The
    -- builder queues as documented.
    pub unwatched :
        (e.kind ≡ secret) ⊎ (e.kind ≡ pod)
        → (requests_of C (set_up_inference_service C B).sources e w ≡ ([], w))
          × (requests_of C (set_up_bruk_model C B).sources e w ≡ ([], w))
          × (requests_of C (set_up_bruk_tenant C B).sources e w ≡ ([], w))
    unwatched (inl is_secret) =
        (react secret is_secret, one_source bruk_model (λ n. cc), one_source bruk_tenant (λ n. cc))
    unwatched (inr is_pod) =
        (react pod is_pod, one_source bruk_model (λ n. cc), one_source bruk_tenant (λ n. cc))
