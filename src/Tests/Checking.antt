-- ===== src/Tests/Checking.antt =====
-- Runs of the model's and the tenant's reconcilers, and of the encoding.
use bruk.Prelude.{ℕ, String, true, false, List, [], ◌∷◌, ◌≡◌, ◌↔◌, refl}
use bruk.Prelude.{arith, ◌⊎◌}
use bruk.Result.{Error, Result, ok, err, is_not_found}
use bruk.Base64.{encode, alphabet}
use bruk.Kube.Workload.{Secret}
use bruk.Api.BrukModel.{BrukModel}
use bruk.Api.BrukTenant.{BrukTenant}
use bruk.Client.{updated_bruk_model_status, got_bruk_tenant, updated_bruk_tenant_status}
use bruk.Controller.Tenant.{has_gzip_magic, validate_init_data, reconcile_tenant}
use bruk.Controller.Tenant.Magic.{validate_init_data-encode}
use bruk.Controller.Tenant.Prefix.{BeginsGzip, strip, validate_init_data-BeginsGzip}
use bruk.Base64.{codes, decode_string, decode_from, sextet}
use bruk.Controller.Tenant.Laws.{IsValidated, reconcile_tenant-IsValidated}
use bruk.Controller.Model.{lacks_key, reconcile_model}
use bruk.Controller.Model.Laws.{
  with_secrets, reconcile_model-SameRun, IsChecked, reconcile_model-IsDecided,
}
use bruk.Kube.Meta.{NamespacedName}
use bruk.Tests.Fixtures.{demo, demo_keeps, chat, qwen, tenant, blob, cluster, start, token_of}

abbrev tenant_key : NamespacedName
tenant_key = record { name = "cluster"; namespace = "" }

abbrev qwen_key : NamespacedName
qwen_key = record { name = "qwen"; namespace = "ai" }

validate_init_data-encode_example :
    (validate_init_data blob ≡ ok tt) ↔ (has_gzip_magic (0x1f ∷ 0x8b ∷ 8 ∷ []) ≡ true)
validate_init_data-encode_example =
    validate_init_data-encode blob (0x1f ∷ 0x8b ∷ 8 ∷ [])
      (omega arith, (omega arith, (omega arith, tt))) (unfold encode alphabet in refl)

reconcile_tenant-IsValidated_example :
    (written : BrukTenant demo) × ((reconcile_tenant
        (cluster chat)
        tenant_key
        (start (cluster chat) tt)).1.log
      ≡ updated_bruk_tenant_status written ∷ got_bruk_tenant tenant_key ∷ [])
    × IsValidated tenant written
reconcile_tenant-IsValidated_example =
    reconcile_tenant-IsValidated demo_keeps (cluster chat) tenant_key (start (cluster chat) tt)
      tenant refl

-- Another token behind the same key.
abbrev other_token : NamespacedName → Unit {0} → Result (Secret demo) × Unit {0}
other_token key s = (token_of (3 ∷ []), s)

alike_tokens :
    (key : String) (a : ℕ) (more : List ℕ) (b : ℕ) (bs : List ℕ)
    → lacks_key (("token", a ∷ more) ∷ []) key ≡ lacks_key (("token", b ∷ bs) ∷ []) key
unfolding lacks_key
alike_tokens key a more b bs = ground arith

reconcile_model-SameRun_example :
    let mine = reconcile_model (cluster chat) qwen_key (start (cluster chat) tt) in
    let theirs =
      reconcile_model
        (with_secrets (cluster chat) other_token)
        qwen_key
        (start (with_secrets (cluster chat) other_token) tt) in
    (mine.0 ≡ theirs.0) × (mine.1.log ≡ theirs.1.log)
reconcile_model-SameRun_example =
    reconcile_model-SameRun (cluster chat) other_token (λ key s k. alike_tokens k 1 (2 ∷ []) 3 [])
      (λ key s. refl) qwen_key tt []

reconcile_model-IsDecided_example :
    let r = reconcile_model (cluster chat) qwen_key (start (cluster chat) tt) in
    ((e : Error) × (r.0 ≡ err e) × (is_not_found e ≡ false))
    ⊎ ((written : BrukModel demo) × ((log : List _) × (r.1.log
            ≡ updated_bruk_model_status written ∷ log))
        × IsChecked qwen written (lacks_key (("token", 1 ∷ 2 ∷ []) ∷ []) "token" ≡ false))
reconcile_model-IsDecided_example =
    reconcile_model-IsDecided demo_keeps (cluster chat) qwen qwen_key (start (cluster chat) tt) refl

validate_init_data-BeginsGzip_example : BeginsGzip (strip (codes blob))
validate_init_data-BeginsGzip_example =
    validate_init_data-BeginsGzip blob
      (unfold validate_init_data decode_string decode_from sextet in refl)
