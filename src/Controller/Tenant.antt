-- ===== src/Controller/Tenant.antt =====
-- `BrukTenantReconciler.Reconcile` and `validateInitData` of
-- operator/internal/controller/bruktenant_controller.go.
pub mod Magic
pub mod Laws
pub mod Admitted
pub mod Quiet
pub mod Prefix
use bruk.Prelude.{ℕ, String, ◌<>◌, Bool, true, false, ◌&&◌, List, [], ◌∷◌, ◌==◌, if◌then◌else◌}
use bruk.Result.{Error, Result, ok, err, failure, wrapped, error_text}
use bruk.Base64.{decode_string}
use bruk.Platform.{Platform}
use bruk.Kube.Condition.{ConditionStatus, condition_true, condition_false}
use bruk.Kube.Meta.{NamespacedName}
use bruk.Api.BrukTenant.{BrukTenant, reason_valid}
use bruk.Api.InferenceService.Names.{reason_invalid_config}
use bruk.Render.{init_data_hash}
use bruk.Client.{Client, M, pure, call, ◌>>=◌, got_bruk_tenant, updated_bruk_tenant_status}
use bruk.Controller.Inference.{ignore_not_found}

-- `len(raw) < 2 || raw[0] != 0x1f || raw[1] != 0x8b`, negated.
abbrev pub has_gzip_magic : List ℕ → Bool
has_gzip_magic [] = false
has_gzip_magic (a ∷ []) = false
has_gzip_magic (a ∷ b ∷ raw) = a == 0x1f && b == 0x8b

abbrev pub magic_checked : Result (List ℕ) → Result (Unit {0})
magic_checked (err e) = err (wrapped "not valid base64: " e)
magic_checked (ok raw) =
    if has_gzip_magic raw
    then ok tt
    else err (failure "decoded payload is not gzip (missing 1f 8b magic)")

-- `validateInitData`
unfoldable pub validate_init_data : String → Result (Unit {0})
validate_init_data blob = magic_checked (decode_string blob)

-- What the condition says of a validation.
abbrev pub tenant_verdict : Result (Unit {0}) → ConditionStatus × String × String
tenant_verdict (ok u) = (condition_true, reason_valid, "cluster contract is valid")
tenant_verdict (err e) = (
  condition_false,
  reason_invalid_config,
  "initDataB64 invalid: "
      <> error_text e
      <> " (expected base64(gzip(initdata.toml)) from build-initdata.sh; an unsubstituted ${INITDATA_B64} placeholder fails CRD validation earlier)",
)

module _ (K : Platform) where
  -- The status that a reconcile writes for a fetched tenant.
  pub validated_tenant : BrukTenant K → BrukTenant K
  validated_tenant tenant =
      let (status, reason, message) =
        tenant_verdict (validate_init_data tenant.spec.confidential.init_data_b64) in
      record tenant {
        status = record {
          observed_generation = tenant.metadata.generation;
          conditions = K.set_status_condition tenant.status.conditions (record {
            type = "Ready";
            status = status;
            reason = reason;
            message = message;
            observed_generation = tenant.metadata.generation;
          });
          applied_init_data_hash = init_data_hash K tenant.spec.confidential.init_data_b64;
        };
      }

module _ {K : Platform} (C : Client K) where
  tenant_read : Result (BrukTenant K) → M C (Result (Unit {0}))
  tenant_read (err e) = pure (ignore_not_found e)
  tenant_read (ok tenant) =
      let validated = validated_tenant K tenant in
      call (updated_bruk_tenant_status validated) (C.update_bruk_tenant_status validated)

  -- `BrukTenantReconciler.Reconcile`
  pub reconcile_tenant : NamespacedName → M C (Result (Unit {0}))
  unfolding tenant_read
  reconcile_tenant request = do
    r ← call (got_bruk_tenant request) (C.get_bruk_tenant request)
    tenant_read r
