-- ===== src/Controller/Model.antt =====
-- `BrukModelReconciler.Reconcile` and `setReady` of
-- operator/internal/controller/brukmodel_controller.go.
pub mod Laws
pub mod Quiet
use bruk.Prelude.{ℕ, String, ◌<>◌, Bool, true, false, List, [], ◌∷◌, Option, none, some}
use bruk.Prelude.{str_eq, if◌then◌else◌}
use bruk.Result.{Error, Result, ok, err, is_not_found}
use bruk.Platform.{Platform}
use bruk.Kube.Condition.{ConditionStatus, condition_true, condition_false}
use bruk.Kube.Meta.{NamespacedName}
use bruk.Kube.Workload.{Secret}
use bruk.Api.Common.{SecretKeyRef}
use bruk.Api.BrukModel.{HuggingFaceSource, BrukModel}
use bruk.Api.BrukTenant.{reason_valid, reason_token_secret_missing, reason_unpinned_revision}
use bruk.Api.InferenceService.Names.{reason_invalid_config}
use bruk.Client.{
  Client, M, pure, call, ◌>>=◌, got_bruk_model, got_secret, updated_bruk_model_status,
}
use bruk.Controller.Inference.{ignore_not_found}

abbrev is_empty : List ℕ → Bool
is_empty [] = true
is_empty (_ ∷ _) = false

-- `len(secret.Data[key]) == 0`: a missing key reads as no bytes.
unfoldable pub lacks_key : List (String × List ℕ) → String → Bool
lacks_key [] key = true
lacks_key ((k, bytes) ∷ contents) key =
    if str_eq k key then is_empty bytes else lacks_key contents key

-- `status`, `reason` and `message` of `Reconcile`.
pub record Verdict : Type 0 where
  pub status : ConditionStatus
  pub reason : String
  pub message : String

-- Before the Secret is looked at: valid, with a warning where the revision is not pinned.
pub revision_verdict : HuggingFaceSource → Verdict
revision_verdict hf =
    if str_eq hf.revision ""
    then record {
      status = condition_true;
      reason = reason_unpinned_revision;
      message =
          "huggingFace.revision is not pinned; served weights may change after review (recommend pinning a commit SHA)";
    }
    else record { status = condition_true; reason = reason_valid; message = "model spec is valid" }

module _ (K : Platform) where
  -- `setReady`, up to the update.
  pub ready_model : BrukModel K → Verdict → BrukModel K
  ready_model model verdict = record model {
    status = record {
      observed_generation = model.metadata.generation;
      conditions = K.set_status_condition model.status.conditions (record {
        type = "Ready";
        status = verdict.status;
        reason = verdict.reason;
        message = verdict.message;
        observed_generation = model.metadata.generation;
      });
    };
  }

  abbrev pub sourceless_verdict : Verdict
  sourceless_verdict = record {
    status = condition_false;
    reason = reason_invalid_config;
    message = "BrukModel has no huggingFace source; v1alpha1 supports only huggingFace";
  }

  abbrev pub secret_missing_verdict : BrukModel K → SecretKeyRef → Verdict
  secret_missing_verdict model ref = record {
    status = condition_false;
    reason = reason_token_secret_missing;
    message =
        "token Secret "
        <> K.quote ref.name
        <> " not found in namespace "
        <> model.metadata.namespace
        <> " (delivered out-of-band, never in Git)";
  }

  abbrev pub key_missing_verdict : SecretKeyRef → Verdict
  key_missing_verdict ref = record {
    status = condition_false;
    reason = reason_token_secret_missing;
    message = "token Secret " <> K.quote ref.name <> " has no key " <> K.quote ref.key;
  }

  abbrev pub secret_key : BrukModel K → SecretKeyRef → NamespacedName
  secret_key model ref = record { name = ref.name; namespace = model.metadata.namespace }

module _ {K : Platform} (C : Client K) where
  -- `setReady`
  pub set_ready : BrukModel K → Verdict → M C (Result (Unit {0}))
  set_ready model verdict =
      let ready = ready_model K model verdict in
      call (updated_bruk_model_status ready) (C.update_bruk_model_status ready)

  -- The `switch` over the answer for the Secret.
  secret_read :
      BrukModel K → HuggingFaceSource → SecretKeyRef → Result (Secret K) → M C (Result (Unit {0}))
  unfolding set_ready
  secret_read model hf ref (err e) =
      if is_not_found e then set_ready model (secret_missing_verdict K model ref) else pure (err e)
  secret_read model hf ref (ok secret) =
      set_ready model (
        if lacks_key secret.contents ref.key
        then key_missing_verdict K ref
        else revision_verdict hf)

  token_checked : BrukModel K → HuggingFaceSource → Option SecretKeyRef → M C (Result (Unit {0}))
  unfolding secret_read set_ready
  token_checked model hf none = set_ready model (revision_verdict hf)
  token_checked model hf (some ref) = do
    r ← call (got_secret (secret_key K model ref)) (C.get_secret (secret_key K model ref))
    secret_read model hf ref r

  source_checked : BrukModel K → Option HuggingFaceSource → M C (Result (Unit {0}))
  unfolding token_checked set_ready
  source_checked model none = set_ready model (sourceless_verdict K)
  source_checked model (some hf) = token_checked model hf hf.token_secret_ref

  model_read : Result (BrukModel K) → M C (Result (Unit {0}))
  unfolding source_checked
  model_read (err e) = pure (ignore_not_found e)
  model_read (ok model) = source_checked model model.spec.source.hugging_face

  -- `BrukModelReconciler.Reconcile`
  pub reconcile_model : NamespacedName → M C (Result (Unit {0}))
  unfolding model_read
  reconcile_model request = do
    r ← call (got_bruk_model request) (C.get_bruk_model request)
    model_read r
