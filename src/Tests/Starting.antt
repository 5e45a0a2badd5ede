-- ===== src/Tests/Starting.antt =====
-- Starts of the program with the default flags, and what its role allows.
use bruk.Prelude.{str_eq, [], ◌∷◌, ◌++◌, ◌≡◌, ◌↔◌, refl, Any, All}
use bruk.Result.{Result, ok, err, failure}
use bruk.Manager.{
  Flags, default_flags, TlsConfig, manager_options, Step, start_manager, add_healthz_check,
}
use bruk.Manager
use bruk.Manager.{Exit, exit_0, exit_1, main, or_exit}
use bruk.Access.{demand, demands, manager_role, allows, one_of, reading}
use bruk.Access.Laws.{IsAllowed, manager_role-fits}
use bruk.Client
use bruk.Client.{Call}
use bruk.Manager.{client_options}
use bruk.Tests.Fixtures.{demo}
use bruk.Manager.Laws.{configured, manager_options-tls, preparations, IsPrefix, main-starts_iff}

abbrev both_protocols : TlsConfig
both_protocols = record { next_protos = "h2" ∷ "http/1.1" ∷ [] }

-- The health check cannot be added.
abbrev unhealthy : Step → Result (Unit {0})
unhealthy Manager.add_healthz_check = err (failure "already started")
unhealthy _ = ok tt

-- The program then stops before the readiness check.
unhealthy_stops : (main default_flags unhealthy).0 ≡ exit_1
unfolding main or_exit
unhealthy_stops = refl

manager_options-tls_example :
    let options = manager_options default_flags in
    (configured options.webhook_server.tls_options both_protocols
      ≡ record { next_protos = "http/1.1" ∷ [] })
    × (configured options.metrics.tls_options both_protocols
        ≡ record { next_protos = "http/1.1" ∷ [] })
    × (options.metrics.filtered ≡ options.metrics.secure_serving)
manager_options-tls_example = manager_options-tls default_flags both_protocols

main-starts_iff_example :
    (((main default_flags unhealthy).0 ≡ exit_0)
      ↔ All (λ s. unhealthy s ≡ ok tt) (preparations default_flags ++ start_manager ∷ []))
    × (Any (λ s. s ≡ start_manager) (main default_flags unhealthy).1
        ↔ All (λ s. unhealthy s ≡ ok tt) (preparations default_flags))
    × IsPrefix (main default_flags unhealthy).1 (preparations default_flags ++ start_manager ∷ [])
main-starts_iff_example = main-starts_iff default_flags unhealthy

abbrev token_read : Call demo
token_read = Client.got_secret (record { namespace = "models"; name = "hf-token" })

-- A model's token Secret is read from the API server: the role need not let it be listed.
manager_role-fits_example :
    All IsAllowed (demands client_options token_read)
    × (allows manager_role (demand "" "secrets" "list") ≡ str_eq "get" "list")
    × (allows manager_role (demand "bruk.airon.ai" "inferenceservices" "list")
        ≡ one_of reading "list")
    × (allows manager_role (demand "bruk.airon.ai" "brukmodels" "list") ≡ one_of reading "list")
    × (allows manager_role (demand "bruk.airon.ai" "bruktenants" "list") ≡ one_of reading "list")
manager_role-fits_example = manager_role-fits token_read "list"
