-- ===== src/Tests/Admitting.antt =====
-- Objects that the API server admits, one that it refuses, and a run that serves.
use bruk.Prelude.{String, Bool, true, false, List, ◌∷◌, [], ◌≡◌, refl, str_eq, arith}
use bruk.Prelude.Int.{ltb_ℤ}
use bruk.Result.{ok}
use bruk.Api.BrukTenant.{BrukTenant}
use bruk.Api.Patterns.{is_pinned_image, is_blob_text, is_repository, is_served_name, is_price}
use bruk.Api.Admission.{admits_model, admits_tenant, admits_service, admits_change}
use bruk.Client.{Client, World, Call}
use bruk.Client.Reads.{OnlyReads}
use bruk.Controller.Conflict.{
  trusted_store_conflict, sibling_conflict, deployment_conflict, pod_conflict, precedes,
}
use mathlib.Core.Path.{subst}
use bruk.Prelude.{none, Any, here, there, ◌⊎◌}
use bruk.Base64.{encode, alphabet}
use bruk.Kube.Workload.{Deployment}
use bruk.Render.{deployment, deployment_from, deployment_object, resolve_image, service}
use bruk.Client.{applied_deployment}
use bruk.Controller.Tenant.{validate_init_data}
use bruk.Controller.Tenant.Admitted.{encode-passes}
use bruk.Controller.Inference.Pinned.{IsPinned, applied_deployment-IsPinned}
use bruk.Tests.Fixtures.{blob, rolled_out_with}
use bruk.Controller.Inference.{reconcile, spec_checked, config_of}
use bruk.Controller.Inference.Serving.{reconcile-serves}
use bruk.Controller.Inference.Serving.Rollout.{IsAccepting, OwnsFresh, IsServed}
use bruk.Tests.Fixtures.{demo, chat, draft, qwen, tenant, server, start, key_of}

-- No limit on quantities.
abbrev any_quantity : String → String → Bool
any_quantity q r = true

abbrev pinned_tenant : BrukTenant demo
pinned_tenant = record tenant {
  spec = record (tenant.spec) {
    engine = record {
      default_image =
          "docker.io/vllm@sha256:0123456789abcdef0123456789abcdef0123456789abcdef0123456789abcdef";
    };
  };
}

pinned_admitted : admits_tenant pinned_tenant ≡ true
unfolding admits_tenant is_pinned_image is_blob_text str_eq
pinned_admitted = refl

tagged_refused : admits_tenant tenant ≡ false
unfolding admits_tenant is_pinned_image str_eq
tagged_refused = refl

qwen_admitted : admits_model qwen ≡ true
unfolding admits_model is_repository is_served_name ltb_ℤ str_eq
qwen_admitted = refl

chat_admitted : admits_service any_quantity true chat ≡ true
unfolding admits_service ltb_ℤ str_eq
chat_admitted = refl

priced : is_price "0.25" ≡ true
unfolding is_price
priced = refl

unpriced : is_price "0." ≡ false
unfolding is_price
unpriced = refl

model_kept : admits_change chat (record chat { spec = record (chat.spec) { probes = none } }) ≡ true
unfolding str_eq
model_kept = refl

model_changed :
    admits_change chat
      (record chat { spec = record (chat.spec) { model_ref = record { name = "other" } } })
    ≡ false
unfolding str_eq
model_changed = refl

abbrev willing : Client demo
willing = server chat (chat ∷ draft ∷ []) (ok pinned_tenant)

willing-IsAccepting : IsAccepting willing
willing-IsAccepting = record {
  config_maps = λ o s. (o, refl);
  deployments = λ o s. (o, refl);
  services = λ o s. (o, refl);
  statuses = λ o s. refl;
}

demo-OwnsFresh : OwnsFresh demo
demo-OwnsFresh = record { owns = λ name namespace uid. (uid ∷ [], refl) }

free : (w : World willing) → (trusted_store_conflict willing chat w).0 ≡ ok ""
unfolding trusted_store_conflict sibling_conflict deployment_conflict pod_conflict precedes str_eq
free w = refl

reconcile-serves_example :
    (before : List (Call demo)) × OnlyReads [] before
    × IsServed willing chat qwen
        (config_of demo pinned_tenant)
        before
        (reconcile willing (key_of chat) (start willing tt))
reconcile-serves_example =
    reconcile-serves willing-IsAccepting demo-OwnsFresh any_quantity (key_of chat)
      (start willing tt) chat pinned_tenant qwen chat_admitted pinned_admitted qwen_admitted refl
      refl refl (omega arith) (free _)

abbrev pinned_out : Deployment demo
pinned_out = rolled_out_with (config_of demo pinned_tenant)

pinned_applies :
    Any
      (λ c. c ≡ applied_deployment pinned_out)
      (reconcile willing (key_of chat) (start willing tt)).1.log
unfolding reconcile spec_checked trusted_store_conflict sibling_conflict deployment_conflict
    pod_conflict precedes str_eq deployment deployment_from resolve_image ltb_ℤ deployment_object
    service
pinned_applies = there (there (here refl))

applied_deployment-IsPinned_example :
    Any (λ c. c ≡ applied_deployment pinned_out) [] ⊎ IsPinned pinned_out
applied_deployment-IsPinned_example =
    applied_deployment-IsPinned willing
      (λ key s t got.
        let same : pinned_tenant ≡ t = cc in
        subst (λ x. admits_tenant x ≡ true) same pinned_admitted)
      (key_of chat) (start willing tt) pinned_out pinned_applies

encode-passes_example : (is_blob_text blob ≡ true) × (validate_init_data blob ≡ ok tt)
encode-passes_example =
    encode-passes blob (0x1f ∷ 0x8b ∷ 8 ∷ []) (omega arith, (omega arith, (omega arith, tt)))
      (unfold encode alphabet in refl) refl
