-- ===== src/Tests/Guarding.antt =====
-- Two services that want one claim.
use bruk.Prelude.{List, [], ◌∷◌, none, ◌≡◌, ◌≢◌, ◌↔◌, refl, str_eq}
use bruk.Prelude.{Any, here, there}
use bruk.Render.{deployment, deployment_from, resolve_image}
use bruk.Client.{Client}
use bruk.Controller.Conflict.Adoption.{trusted_store_conflict-rendered}
use bruk.Render.{engine_container, deployment_object}
use bruk.Tests.Fixtures.{qwen, source, config}
use bruk.Result.{ok}
use bruk.Kube.Workload.{Deployment, Pod}
use bruk.Api.InferenceService.{InferenceService}
use bruk.Render.{engine_container, deployment_object}
use bruk.Controller.Conflict.{precedes, sibling_conflict, deployment_conflict, pod_conflict}
use bruk.Controller.Conflict.{trusted_store_conflict}
use bruk.Controller.Conflict.Winner.{sibling_conflict_winner}
use bruk.Controller.Conflict.Verdict.{Sees, IsUnopposed}
use bruk.Controller.Conflict.Verdict.{
  trusted_store_conflict_none_iff, trusted_store_conflict_exclusive,
}
use bruk.Tests.Fixtures.{demo, demo-IsClock, chat, draft, qwen, source, config, cluster, start}

-- The later service is told which one has the claim.
draft_waits :
    (trusted_store_conflict (cluster draft) draft (start (cluster draft) tt)).0
    ≡ ok
        "InferenceService \"chat\" already claims trusted-store PVC \"store\" (one workload per PVC)"
unfolding trusted_store_conflict sibling_conflict precedes str_eq
draft_waits = refl

chat_passes : (trusted_store_conflict (cluster chat) chat (start (cluster chat) tt)).0 ≡ ok ""
unfolding trusted_store_conflict sibling_conflict deployment_conflict pod_conflict precedes str_eq
chat_passes = refl

differ : chat.metadata.name ≢ draft.metadata.name
differ h = cc

sibling_conflict_winner_example :
    (w : InferenceService demo) × Any (λ x. x ≡ w) (chat ∷ draft ∷ [])
    × (w.spec.storage.trusted_store.existing_claim ≡ "store")
    × (sibling_conflict demo w "store" (chat ∷ draft ∷ []) ≡ none)
sibling_conflict_winner_example =
    sibling_conflict_winner demo-IsClock "store" (chat ∷ draft ∷ []) (here refl)

trusted_store_conflict_none_iff_example :
    ((trusted_store_conflict (cluster chat) chat (start (cluster chat) tt)).0 ≡ ok "") ↔ (
      (siblings : List (InferenceService demo)) × (deployments : List (Deployment demo))
      × (pods : List (Pod demo)) × Sees (cluster chat) "ai" tt siblings deployments pods
      × IsUnopposed (cluster chat) chat siblings deployments pods)
trusted_store_conflict_none_iff_example =
    trusted_store_conflict_none_iff (cluster chat) chat (start (cluster chat) tt)

trusted_store_conflict_exclusive_example :
    (trusted_store_conflict (cluster chat) draft (start (cluster chat) tt)).0 ≢ ok ""
trusted_store_conflict_exclusive_example =
    trusted_store_conflict_exclusive demo-IsClock (cluster chat) chat draft
      (start (cluster chat) tt) (start (cluster chat) tt) (chat ∷ draft ∷ []) (chat ∷ draft ∷ [])
      differ refl refl refl (there (here refl)) (here refl) chat_passes

-- The Deployment of the older service, as it stands in the cluster after its rollout.
abbrev live : Deployment demo
live =
    let object : Deployment demo =
      deployment_object demo chat (engine_container demo chat qwen source "vllm:1") config in
    record object { metadata = record (object.metadata) { owner_references = "u-1" ∷ [] } }

-- The cluster once the older service is out and gone from the list of services.
abbrev rolled : Client demo
rolled = record (cluster draft) {
  list_inference_services = λ namespace s. (ok (draft ∷ []), s);
  list_deployments = λ namespace s. (ok (live ∷ []), s);
}

trusted_store_conflict-rendered_example :
    (trusted_store_conflict rolled draft (start rolled tt)).0 ≢ ok ""
trusted_store_conflict-rendered_example =
    trusted_store_conflict-rendered rolled draft chat (start rolled tt) qwen config
      (deployment_object demo chat (engine_container demo chat qwen source "vllm:1") config) live
      (live ∷ []) (unfold deployment deployment_from resolve_image str_eq in refl)
      (unfold deployment_object in refl) (unfold deployment_object str_eq in refl) refl refl
      (here refl)
