-- ===== src/Manager.antt =====
-- operator/cmd/main.go: the flags, the options of the manager, and the steps of its start. What
-- controller-runtime answers to a step is a parameter; the log messages are left out.
pub mod Laws
use bruk.Prelude.{String, Bool, true, false, not, List, [], ◌∷◌, ◌++◌, str_eq, if◌then◌else◌}
use bruk.Result.{Result, ok, err}

-- The variables that the flags fill.
pub record Flags : Type 0 where
  pub metrics_addr : String
  pub metrics_cert_path : String
  pub metrics_cert_name : String
  pub metrics_cert_key : String
  pub webhook_cert_path : String
  pub webhook_cert_name : String
  pub webhook_cert_key : String
  pub enable_leader_election : Bool
  pub probe_addr : String
  pub secure_metrics : Bool
  pub enable_http2 : Bool

-- The values without any flag.
abbrev pub default_flags : Flags
default_flags = record {
  metrics_addr = "0";
  metrics_cert_path = "";
  metrics_cert_name = "tls.crt";
  metrics_cert_key = "tls.key";
  webhook_cert_path = "";
  webhook_cert_name = "tls.crt";
  webhook_cert_key = "tls.key";
  enable_leader_election = false;
  probe_addr = ":8081";
  secure_metrics = true;
  enable_http2 = false;
}

-- `tls.Config`, of which the program sets one field.
pub record TlsConfig : Type 0 where
  pub next_protos : List String

-- `disableHTTP2`
abbrev pub disable_http2 : TlsConfig → TlsConfig
disable_http2 c = record c { next_protos = "http/1.1" ∷ [] }

-- `tlsOpts`
pub tls_opts : Flags → List (TlsConfig → TlsConfig)
tls_opts flags = if not flags.enable_http2 then disable_http2 ∷ [] else []

-- `webhook.Options`
pub record WebhookOptions : Type 0 where
  pub tls_options : List (TlsConfig → TlsConfig)
  pub cert_dir : String
  pub cert_name : String
  pub key_name : String

pub webhook_server_options : Flags → WebhookOptions
webhook_server_options flags =
    if str_eq flags.webhook_cert_path ""
    then record { tls_options = tls_opts flags; cert_dir = ""; cert_name = ""; key_name = "" }
    else record {
      tls_options = tls_opts flags;
      cert_dir = flags.webhook_cert_path;
      cert_name = flags.webhook_cert_name;
      key_name = flags.webhook_cert_key;
    }

-- `metricsserver.Options`; `filtered` says that FilterProvider is
-- `filters.WithAuthenticationAndAuthorization`, and not nil.
pub record MetricsOptions : Type 0 where
  pub bind_address : String
  pub secure_serving : Bool
  pub tls_options : List (TlsConfig → TlsConfig)
  pub filtered : Bool
  pub cert_dir : String
  pub cert_name : String
  pub key_name : String

pub metrics_server_options : Flags → MetricsOptions
metrics_server_options flags =
    let plain : MetricsOptions = record {
      bind_address = flags.metrics_addr;
      secure_serving = flags.secure_metrics;
      tls_options = tls_opts flags;
      filtered = false;
      cert_dir = "";
      cert_name = "";
      key_name = "";
    } in
    let filtered_options : MetricsOptions =
      if flags.secure_metrics then record plain { filtered = true } else plain in
    if str_eq flags.metrics_cert_path "" then filtered_options else record filtered_options {
      cert_dir = flags.metrics_cert_path;
      cert_name = flags.metrics_cert_name;
      key_name = flags.metrics_cert_key;
    }

-- `ctrl.Options`; `uncached` has the kinds of `clientOptions`, read from the API server each time.
pub record ManagerOptions : Type 0 where
  pub metrics : MetricsOptions
  pub webhook_server : WebhookOptions
  pub health_probe_bind_address : String
  pub leader_election : Bool
  pub leader_election_id : String
  pub uncached : List String

-- `clientOptions`
abbrev pub client_options : List String
client_options = "Secret" ∷ []

pub manager_options : Flags → ManagerOptions
manager_options flags = record {
  metrics = metrics_server_options flags;
  webhook_server = webhook_server_options flags;
  health_probe_bind_address = flags.probe_addr;
  leader_election = flags.enable_leader_election;
  leader_election_id = "c6f50ef7.airon.ai";
  uncached = client_options;
}

-- The steps of the start, each of which may fail.
pub data Step : Type 0 where
  new_manager : ManagerOptions → Step
  set_up_bruk_tenant set_up_bruk_model set_up_inference_service : Step
  add_healthz_check add_readyz_check : Step
  start_manager : Step

-- How the program ends: the exit code, and the steps that were taken, in order.
pub data Exit : Type 0 where
  exit_0 exit_1 : Exit

-- `if err := step; err != nil { os.Exit(1) }`, and what comes after it.
unfoldable pub or_exit : (Step → Result (Unit {0})) → Step → Exit × List Step → Exit × List Step
or_exit answer s rest = elim (answer s) [ ok u ↦ (rest.0, s ∷ rest.1) | err e ↦ (exit_1, s ∷ []) ]

-- `main`, after the flags are read.
unfoldable pub main : Flags → (Step → Result (Unit {0})) → Exit × List Step
main flags answer = or_exit answer (new_manager (manager_options flags)) (
    or_exit answer set_up_bruk_tenant (
      or_exit answer set_up_bruk_model (
        or_exit answer set_up_inference_service (
          or_exit answer add_healthz_check
            (or_exit answer add_readyz_check (or_exit answer start_manager (exit_0, [])))))))
