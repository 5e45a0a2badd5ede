-- ===== src/Controller/Model/Laws.antt =====
-- Readiness of a model, and what its status and calls show of the token Secret
-- (operator/internal/controller/brukmodel_controller.go).
use bruk.Prelude.{String, false, List, ◌∷◌, Option, none, some, ◌≡◌, ◌↔◌, refl}
use bruk.Prelude.{◌⊎◌, str_eq, Bool-cases, inl, inr}
use bruk.Result.{Error, Result, ok, err, is_not_found}
use bruk.Platform.{Platform}
use bruk.Kube.Condition.{condition_true, condition_status}
use bruk.Kube.Meta.{NamespacedName}
use bruk.Kube.Workload.{Secret}
use bruk.Api.Common.{SecretKeyRef}
use bruk.Api.BrukModel.{HuggingFaceSource, BrukModel}
use bruk.Client.{Client, Call, World, updated_bruk_model_status}
use bruk.Controller.Status.Honest.{KeepsConditions}
use bruk.Controller.Model.{lacks_key, Verdict, revision_verdict, ready_model, secret_key, set_ready}
use bruk.Controller.Model.{secret_read, token_checked, source_checked, model_read, reconcile_model}

-- Two answers for a Secret that differ in nothing but the bytes behind keys that have some.
abbrev pub LooksAlike : {K : Platform} → Result (Secret K) → Result (Secret K) → Type 0
LooksAlike (err e) (err f) = e ≡ f
LooksAlike (ok s) (ok t) = (key : String) → lacks_key s.contents key ≡ lacks_key t.contents key
LooksAlike _ _ = ⊥

module _ {K : Platform} (C : Client K)
    (get : NamespacedName → C.State → Result (Secret K) × C.State) where
  -- The same server, with other Secrets.
  abbrev pub with_secrets : Client K
  with_secrets = record C { get_secret = get }

  -- What an observer has of a run: the error and the calls, with the statuses that they send.
  abbrev SameRun : (Result (Unit {0}) × World C) → (Result (Unit {0}) × World with_secrets) → Type 0
  SameRun a b = (a.0 ≡ b.0) × (a.1.log ≡ b.1.log)

  secret_read-SameRun :
      (model : BrukModel K) (hf : HuggingFaceSource) (ref : SecretKeyRef) (r r' : Result (Secret K))
      (s : C.State) (log : List (Call K))
      → LooksAlike r r'
      → SameRun
          (secret_read C model hf ref r (record { state = s; log = log }))
          (secret_read with_secrets model hf ref r' (record { state = s; log = log }))
  unfolding secret_read set_ready
  secret_read-SameRun model hf ref (err e) (err f) s log same =
      rw same (elim (Bool-cases (is_not_found f)) [
        | inl missing ↦ rw missing (refl, refl)
        | inr broken ↦ rw broken (refl, refl)
      ])
  secret_read-SameRun model hf ref (ok a) (ok b) s log same = rw (same ref.key) (refl, refl)
  secret_read-SameRun model hf ref (err e) (ok b) s log same = elim same [ ]
  secret_read-SameRun model hf ref (ok a) (err f) s log same = elim same [ ]

  module _
      (alike : (key : NamespacedName) (s : C.State)
        → LooksAlike (C.get_secret key s).0 (get key s).0)
      (states : (key : NamespacedName) (s : C.State) → (C.get_secret key s).1 ≡ (get key s).1) where
    token_checked-SameRun :
        (model : BrukModel K) (hf : HuggingFaceSource) (o : Option SecretKeyRef) (s : C.State)
        (log : List (Call K))
        → SameRun
            (token_checked C model hf o (record { state = s; log = log }))
            (token_checked with_secrets model hf o (record { state = s; log = log }))
    unfolding token_checked
    token_checked-SameRun model hf none s log = unfold set_ready in (refl, refl)
    token_checked-SameRun model hf (some ref) s log =
        rw (states (secret_key K model ref) s)
          (secret_read-SameRun model hf ref _ _ _ _ (alike (secret_key K model ref) s))

    source_checked-SameRun :
        (model : BrukModel K) (o : Option HuggingFaceSource) (s : C.State) (log : List (Call K))
        → SameRun
            (source_checked C model o (record { state = s; log = log }))
            (source_checked with_secrets model o (record { state = s; log = log }))
    unfolding source_checked
    source_checked-SameRun model none s log = unfold set_ready in (refl, refl)
    source_checked-SameRun model (some hf) s log =
        token_checked-SameRun model hf hf.token_secret_ref s log

    model_read-SameRun :
        (r : Result (BrukModel K)) (s : C.State) (log : List (Call K))
        → SameRun
            (model_read C r (record { state = s; log = log }))
            (model_read with_secrets r (record { state = s; log = log }))
    unfolding model_read
    model_read-SameRun (err e) s log = (refl, refl)
    model_read-SameRun (ok model) s log =
        source_checked-SameRun model model.spec.source.hugging_face s log

    -- The bytes of a token do not show: against two servers that are alike but for their Secrets,
    -- which differ in nothing but the bytes behind keys that have some, and whose reads of Secrets
    -- leave the same state, a reconcile of a model returns the same error and makes the same
    -- calls, with the same statuses in them.
    pub reconcile_model-SameRun :
        (request : NamespacedName) (s : C.State) (log : List (Call K))
        → SameRun
            (reconcile_model C request (record { state = s; log = log }))
            (reconcile_model with_secrets request (record { state = s; log = log }))
    unfolding reconcile_model
    reconcile_model-SameRun request s log = model_read-SameRun _ _ _

module _ {K : Platform} where
  -- What a status update of a model has to say.
  pub record IsChecked (model written : BrukModel K) (usable : Type 0) : Type 0 where
    pub ready_iff : (condition_status written.status.conditions "Ready" ≡ condition_true) ↔ usable
    pub observed : written.status.observed_generation ≡ model.metadata.generation
    pub same_spec : written.spec ≡ model.spec

  ready_model-IsChecked :
      KeepsConditions K
      → (model : BrukModel K) (verdict : Verdict) (usable : Type 0)
      → (verdict.status ≡ condition_true) ↔ usable
      → IsChecked model (ready_model K model verdict) usable
  unfolding ready_model str_eq
  ready_model-IsChecked law model verdict usable iff = record {
    ready_iff = rw law.find-set iff;
    observed = refl;
    same_spec = refl;
  }

revision_verdict-status : (hf : HuggingFaceSource) → (revision_verdict hf).status ≡ condition_true
unfolding revision_verdict
revision_verdict-status hf = elim (Bool-cases (str_eq hf.revision "")) [
  | inl unpinned ↦ rw unpinned refl
  | inr pinned ↦ rw pinned refl
]

module _ {K : Platform} (law : KeepsConditions K) (C : Client K) (model : BrukModel K) where
  -- An answer that lets vLLM authenticate: the Secret, with bytes behind the key.
  abbrev pub IsUsableSecret : SecretKeyRef → Result (Secret K) → Type 0
  IsUsableSecret ref (err e) = ⊥
  IsUsableSecret ref (ok secret) = lacks_key secret.contents ref.key ≡ false

  -- A token that is not asked for needs no Secret.
  abbrev pub IsUsableToken : C.State → Option SecretKeyRef → Type 0
  IsUsableToken s none = Unit {0}
  IsUsableToken s (some ref) = IsUsableSecret ref (C.get_secret (secret_key K model ref) s).0

  abbrev pub IsUsableSource : C.State → Option HuggingFaceSource → Type 0
  IsUsableSource s none = ⊥
  IsUsableSource s (some hf) = IsUsableToken s hf.token_secret_ref

  -- Either the run failed to read the Secret, or it ended with a status that says whether the model
  -- is usable.
  abbrev pub IsDecided : Type 0 → Result (Unit {0}) × World C → Type 0
  IsDecided usable r =
      ((e : Error) × (r.0 ≡ err e) × (is_not_found e ≡ false))
      ⊎ ((written : BrukModel K) × ((log : List (Call K)) × (r.1.log
              ≡ updated_bruk_model_status written ∷ log))
          × IsChecked model written usable)

  set_ready-IsDecided :
      (verdict : Verdict) (usable : Type 0) (w : World C)
      → (verdict.status ≡ condition_true) ↔ usable
      → IsDecided usable (set_ready C model verdict w)
  unfolding set_ready
  set_ready-IsDecided verdict usable w iff = inr (
    ready_model K model verdict,
    (w.log, refl),
    ready_model-IsChecked law model verdict usable iff,
  )

  secret_read-IsDecided :
      (hf : HuggingFaceSource) (ref : SecretKeyRef) (r : Result (Secret K)) (w : World C)
      → IsDecided (IsUsableSecret ref r) (secret_read C model hf ref r w)
  unfolding secret_read
  secret_read-IsDecided hf ref (err e) w = elim (Bool-cases (is_not_found e)) [
    | inl missing ↦ rw missing (set_ready-IsDecided _ _ w (λ p. cc, λ u. absurd u))
    | inr broken ↦ rw broken (inl (e, refl, broken))
  ]
  secret_read-IsDecided hf ref (ok secret) w =
      elim (Bool-cases (lacks_key secret.contents ref.key)) [
        | inl missing ↦ rw missing (set_ready-IsDecided _ _ w (λ p. cc, λ u. cc))
        | inr found ↦
            rw found (set_ready-IsDecided _ _ w (λ p. refl, λ u. revision_verdict-status hf))
      ]

  token_checked-IsDecided :
      (hf : HuggingFaceSource) (o : Option SecretKeyRef) (w : World C)
      → IsDecided (IsUsableToken w.state o) (token_checked C model hf o w)
  unfolding token_checked
  token_checked-IsDecided hf none w =
      set_ready-IsDecided _ _ w (λ p. tt, λ u. revision_verdict-status hf)
  token_checked-IsDecided hf (some ref) w = secret_read-IsDecided hf ref _ _

  source_checked-IsDecided :
      (o : Option HuggingFaceSource) (w : World C)
      → IsDecided (IsUsableSource w.state o) (source_checked C model o w)
  unfolding source_checked
  source_checked-IsDecided none w = set_ready-IsDecided _ _ w (λ p. cc, λ u. absurd u)
  source_checked-IsDecided (some hf) w = token_checked-IsDecided hf hf.token_secret_ref w

  -- If SetStatusCondition replaces or adds the condition of its type and leaves the others, a
  -- reconcile of a model that is there either returns an error of the read of the Secret other
  -- than not-found, or ends with a status update of the model, with the same spec and of its
  -- generation, in which Ready is True exactly if the model has a source and, where it names a
  -- token Secret, that Secret was read and has bytes behind the key.
  pub reconcile_model-IsDecided :
      (request : NamespacedName) (w : World C)
      → (C.get_bruk_model request w.state).0 ≡ ok model
      → IsDecided
          (IsUsableSource (C.get_bruk_model request w.state).1 model.spec.source.hugging_face)
          (reconcile_model C request w)
  unfolding reconcile_model model_read
  reconcile_model-IsDecided request w got =
      rw got (source_checked-IsDecided model.spec.source.hugging_face _)
