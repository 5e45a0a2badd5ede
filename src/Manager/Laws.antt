-- ===== src/Manager/Laws.antt =====
-- The start of the manager (operator/cmd/main.go): what its servers may speak, and when it runs.
use bruk.Prelude.{
  ◌⊎◌, Bool, true, false, List, [], ◌∷◌, ◌≡◌, ◌≢◌, ◌↔◌, ◌++◌, refl, Any, All, here, there,
}
use bruk.Prelude.{str_eq, if◌then◌else◌, Bool-cases, inl, inr, ap, sym, ◌∙◌}
use bruk.Result.{Result, ok, err}
use bruk.Manager.{Flags, TlsConfig, tls_opts, webhook_server_options, metrics_server_options}
use bruk.Manager.{
  manager_options, Step, new_manager, set_up_bruk_tenant, set_up_bruk_model,
  set_up_inference_service, add_healthz_check, add_readyz_check, start_manager, Exit, exit_0,
  exit_1, or_exit, main,
}

-- A server's configuration after all its options.
abbrev pub configured : List (TlsConfig → TlsConfig) → TlsConfig → TlsConfig
configured [] c = c
configured (f ∷ fs) c = configured fs (f c)

tls_opts-configured :
    (flags : Flags) (c : TlsConfig)
    → configured (tls_opts flags) c
      ≡ (if flags.enable_http2 then c else record { next_protos = "http/1.1" ∷ [] })
unfolding tls_opts
tls_opts-configured flags c = elim (Bool-cases flags.enable_http2) [
  | inl on ↦ rw on refl
  | inr off ↦ rw off refl
]

webhook_server_options-tls :
    (flags : Flags) → (webhook_server_options flags).tls_options ≡ tls_opts flags
unfolding webhook_server_options
webhook_server_options-tls flags = elim (Bool-cases (str_eq flags.webhook_cert_path "")) [
  | inl plain ↦ rw plain refl
  | inr certified ↦ rw certified refl
]

metrics_server_options-tls :
    (flags : Flags)
    → ((metrics_server_options flags).tls_options ≡ tls_opts flags)
      × ((metrics_server_options flags).filtered ≡ flags.secure_metrics)
      × ((metrics_server_options flags).secure_serving ≡ flags.secure_metrics)
unfolding metrics_server_options
metrics_server_options-tls flags =
    by_cases flags.secure_metrics (str_eq flags.metrics_cert_path "") refl refl
  where
    by_cases :
        (secure plain : Bool)
        → flags.secure_metrics ≡ secure
        → str_eq flags.metrics_cert_path "" ≡ plain
        → ((metrics_server_options flags).tls_options ≡ tls_opts flags)
          × ((metrics_server_options flags).filtered ≡ flags.secure_metrics)
          × ((metrics_server_options flags).secure_serving ≡ flags.secure_metrics)
    by_cases true true e f = rw (e, f) (refl, refl, refl)
    by_cases true false e f = rw (e, f) (refl, refl, refl)
    by_cases false true e f = rw (e, f) (refl, refl, refl)
    by_cases false false e f = rw (e, f) (refl, refl, refl)

-- Both servers get the same TLS options: without the flag for HTTP/2 they speak HTTP/1.1 alone, with
-- it their configuration is left as it was. The metrics are behind authentication and
-- authorization exactly if they are served securely.
pub manager_options-tls :
    (flags : Flags) (c : TlsConfig)
    → let options = manager_options flags in
      let expected : TlsConfig =
        if flags.enable_http2 then c else record { next_protos = "http/1.1" ∷ [] } in
      (configured options.webhook_server.tls_options c ≡ expected)
      × (configured options.metrics.tls_options c ≡ expected)
      × (options.metrics.filtered ≡ options.metrics.secure_serving)
unfolding manager_options
manager_options-tls flags c =
    let (tls, filtered, secure) = metrics_server_options-tls flags in
    (
      ap (λ fs. configured fs c) (webhook_server_options-tls flags) ∙ tls_opts-configured flags c,
      ap (λ fs. configured fs c) tls ∙ tls_opts-configured flags c,
      filtered ∙ sym secure,
    )

Any-tail {ℓ} :
    {A : Type ℓ} {x a : A} {xs : List A} → x ≢ a → Any (λ y. y ≡ a) (x ∷ xs) → Any (λ y. y ≡ a) xs
Any-tail other (here p) = absurd (other p)
Any-tail other (there m) = m

abbrev Starts : List Step → Type 0
Starts = Any (λ s. s ≡ start_manager)

nowhere : Starts [] → ⊥
nowhere m = elim m [ ]

-- The first steps of a list.
abbrev pub IsPrefix : List Step → List Step → Type 0
IsPrefix xs all = (more : List Step) × (xs ++ more ≡ all)

module _ (answer : Step → Result (Unit {0})) (s : Step) (rest : Exit × List Step) where
  or_exit-cases :
      ((answer s ≡ ok tt) × (or_exit answer s rest ≡ (rest.0, s ∷ rest.1)))
      ⊎ ((answer s ≢ ok tt) × (or_exit answer s rest ≡ (exit_1, s ∷ [])))
  unfolding or_exit
  or_exit-cases = by_answer (answer s) refl
    where
      by_answer :
          (r : Result (Unit {0}))
          → answer s ≡ r
          → ((answer s ≡ ok tt) × (or_exit answer s rest ≡ (rest.0, s ∷ rest.1)))
            ⊎ ((answer s ≢ ok tt) × (or_exit answer s rest ≡ (exit_1, s ∷ [])))
      by_answer (ok u) e = inl (e, rw (e, or_exit) refl)
      by_answer (err f) e = inr ((λ h. cc), rw (e, or_exit) refl)

  or_exit-exit_0_iff :
      {P : Type 0}
      → (rest.0 ≡ exit_0) ↔ P
      → ((or_exit answer s rest).0 ≡ exit_0) ↔ ((answer s ≡ ok tt) × P)
  or_exit-exit_0_iff goes_on = elim or_exit-cases [
    | inl (done, e) ↦ rw e (λ h. (done, goes_on.0 h), λ h. goes_on.1 h.1)
    | inr (failed, e) ↦ rw e ((λ h. cc), λ h. absurd (failed h.0))
  ]

  or_exit-Starts_iff :
      {P : Type 0}
      → s ≢ start_manager
      → Starts rest.1 ↔ P
      → Starts (or_exit answer s rest).1 ↔ ((answer s ≡ ok tt) × P)
  or_exit-Starts_iff other goes_on = elim or_exit-cases [
    | inl (done, e) ↦ rw e (λ m. (done, goes_on.0 (Any-tail other m)), λ h. there (goes_on.1 h.1))
    | inr (failed, e) ↦ rw e (λ m. absurd (nowhere (Any-tail other m)), λ h. absurd (failed h.0))
  ]

  or_exit-IsPrefix :
      (all : List Step) → IsPrefix rest.1 all → IsPrefix (or_exit answer s rest).1 (s ∷ all)
  or_exit-IsPrefix all (more, same) = elim or_exit-cases [
    | inl (done, e) ↦ (more, rw e (ap (λ xs. s ∷ xs) same))
    | inr (failed, e) ↦ (all, rw e refl)
  ]

  or_exit-begins : Any (λ t. t ≡ s) (or_exit answer s rest).1
  or_exit-begins = elim or_exit-cases [
    | inl (done, e) ↦ rw e (here refl)
    | inr (failed, e) ↦ rw e (here refl)
  ]

-- What is done before the manager is started.
abbrev pub preparations : Flags → List Step
preparations flags =
    new_manager (manager_options flags)
    ∷ set_up_bruk_tenant
    ∷ set_up_bruk_model
    ∷ set_up_inference_service
    ∷ add_healthz_check
    ∷ add_readyz_check
    ∷ []

-- The program exits with 0 exactly if the manager could be made with the options of the flags, the
-- three controllers and the two checks could be registered with it, and it ran to its end. The manager
-- is started exactly if all but the last hold: never without one of the controllers or checks. The
-- steps that are taken are the first of these seven, in this order, each once.
pub main-starts_iff :
    (flags : Flags) (answer : Step → Result (Unit {0}))
    → (((main flags answer).0 ≡ exit_0)
        ↔ All (λ s. answer s ≡ ok tt) (preparations flags ++ start_manager ∷ []))
      × (Any (λ s. s ≡ start_manager) (main flags answer).1
          ↔ All (λ s. answer s ≡ ok tt) (preparations flags))
      × IsPrefix (main flags answer).1 (preparations flags ++ start_manager ∷ [])
unfolding main
main-starts_iff flags answer = (
  or_exit-exit_0_iff answer _ _ (
      or_exit-exit_0_iff answer _ _ (
        or_exit-exit_0_iff answer _ _ (
          or_exit-exit_0_iff answer _ _ (
            or_exit-exit_0_iff answer _ _ (
              or_exit-exit_0_iff answer _ _
                (or_exit-exit_0_iff answer _ _ (λ h. tt, λ u. refl))))))),
  or_exit-Starts_iff answer _ _ (λ h. cc)
      (or_exit-Starts_iff answer _ _ (λ h. cc)
        (or_exit-Starts_iff answer _ _ (λ h. cc)
          (or_exit-Starts_iff answer _ _ (λ h. cc)
            (or_exit-Starts_iff answer _ _ (λ h. cc)
              (or_exit-Starts_iff answer _ _ (λ h. cc)
                (λ m. tt, λ u. or_exit-begins answer start_manager (exit_0, []))))))),
  or_exit-IsPrefix answer _ _ _ (
      or_exit-IsPrefix answer _ _ _ (
        or_exit-IsPrefix answer _ _ _ (
          or_exit-IsPrefix answer _ _ _ (
            or_exit-IsPrefix answer _ _ _
              (or_exit-IsPrefix answer _ _ _ (or_exit-IsPrefix answer _ _ _ ([], refl))))))),
)
