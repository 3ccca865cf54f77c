-- ===== src/Manager.antt =====
-- cmd/main.go: from the flags to the running manager. Logging is left out, and the package `flag`,
-- which parses the flags, is not modelled: main begins with their values.
pub mod Runs
pub mod Laws
use horizon_issuer.Common.{
  ℕ, ◌*◌, String, Bool, true, false, not, Option, none, some, List, [], ◌∷◌, ◌++◌, if◌then◌else◌,
}
use horizon_issuer.Common.Text.{◌<>◌, is_empty}
use horizon_issuer.Errors.{Error, plain, wrapped, text, Result, ok, err}
use horizon_issuer.IssuerController.{IssuerReconciler}
use Prim.Native.Nat.{◌%◌}

-- The variables that the flags set; the interval is an `int`, as its 64 bits.
pub record Flags : Type 0 where
  pub metrics_addr : String
  pub metrics_cert_path : String
  pub metrics_cert_name : String
  pub metrics_cert_key : String
  pub webhook_cert_path : String
  pub webhook_cert_name : String
  pub webhook_cert_key : String
  pub enable_leader_election : Bool
  pub probe_addr : String
  pub secure_metrics : Bool
  pub cluster_resource_namespace : String
  pub health_check_interval : ℕ
  pub enable_http2 : Bool

-- The values of flags that are not given.
abbrev pub default_flags : Flags
default_flags = record {
  metrics_addr = "0";
  metrics_cert_path = "";
  metrics_cert_name = "tls.crt";
  metrics_cert_key = "tls.key";
  webhook_cert_path = "";
  webhook_cert_name = "tls.crt";
  webhook_cert_key = "tls.key";
  enable_leader_election = false;
  probe_addr = ":8081";
  secure_metrics = true;
  cluster_resource_namespace = "";
  health_check_interval = 60;
  enable_http2 = false;
}

-- `func(*tls.Config)`, as what it makes of the protocols that are offered.
abbrev pub TlsOption : Type 0
TlsOption = List String → List String

abbrev pub disable_http2 : TlsOption
disable_http2 _ = "http/1.1" ∷ []

abbrev pub tls_opts : Flags → List TlsOption
tls_opts flags = if not flags.enable_http2 then disable_http2 ∷ [] else []

-- Where a server finds its certificate; empty texts are the library's defaults.
pub record CertFiles : Type 0 where
  pub cert_dir : String
  pub cert_name : String
  pub key_name : String

abbrev pub cert_files : (path name key : String) → CertFiles
cert_files path name key =
    if is_empty path
    then record { cert_dir = ""; cert_name = ""; key_name = "" }
    else record { cert_dir = path; cert_name = name; key_name = key }

-- `webhook.Options`
pub record WebhookOptions : Type 0 where
  pub tls_opts : List TlsOption
  pub files : CertFiles

unfoldable pub webhook_server_options : Flags → WebhookOptions
webhook_server_options flags = record {
  tls_opts = tls_opts flags;
  files = cert_files flags.webhook_cert_path flags.webhook_cert_name flags.webhook_cert_key;
}

-- `metricsserver.Options`; whether requests are authenticated and authorized stands for the filter.
pub record MetricsOptions : Type 0 where
  pub bind_address : String
  pub secure_serving : Bool
  pub tls_opts : List TlsOption
  pub is_filtered : Bool
  pub files : CertFiles

unfoldable pub metrics_server_options : Flags → MetricsOptions
metrics_server_options flags = record {
  bind_address = flags.metrics_addr;
  secure_serving = flags.secure_metrics;
  tls_opts = tls_opts flags;
  is_filtered = flags.secure_metrics;
  files = cert_files flags.metrics_cert_path flags.metrics_cert_name flags.metrics_cert_key;
}

-- `ctrl.Options`
pub record ManagerOptions : Type 0 where
  pub metrics : MetricsOptions
  pub webhook : WebhookOptions
  pub health_probe_bind_address : String
  pub leader_election : Bool
  pub leader_election_id : String
  pub leader_election_release_on_cancel : Bool

abbrev pub manager_options : Flags → ManagerOptions
manager_options flags = record {
  metrics = metrics_server_options flags;
  webhook = webhook_server_options flags;
  health_probe_bind_address = flags.probe_addr;
  leader_election = flags.enable_leader_election;
  leader_election_id = "7a72a7bd.horizon.evertrust.io";
  leader_election_release_on_cancel = true;
}

-- `time.Duration(n) * time.Second`, in nanoseconds: an int64, as its 64 bits.
unfoldable pub seconds : ℕ → ℕ
seconds n = (n * 1000000000) % 18446744073709551616

abbrev pub issuer_reconciler : Flags → (kind namespace : String) → IssuerReconciler
issuer_reconciler flags kind namespace = record {
  kind = kind;
  cluster_resource_namespace = namespace;
  health_check_interval = seconds flags.health_check_interval;
}

-- A call that may fail, and end the program; `ctrl.GetConfigOrDie` ends it by itself.
pub data Step : Type 0 where
  get_config : Step
  new_manager : ManagerOptions → Step
  setup_issuer : IssuerReconciler → Step
  setup_request : (cluster_resource_namespace : String) → Step
  add_healthz add_readyz start : Step

-- The outside: the namespace file, and what a step answers after the ones before it.
pub record System : Type 0 where
  pub stat : Option Error
  pub is_not_exist : Error → Bool
  pub read_file : Result String
  pub answer : List Step → Step → Option Error

abbrev not_in_cluster : Error
not_in_cluster = plain "not running in-cluster"

unfoldable pub get_in_cluster_namespace : System → Result String
get_in_cluster_namespace sys = elim sys.stat [
  | some e ↦
      if sys.is_not_exist e
      then err not_in_cluster
      else err (wrapped ("error checking namespace file: " <> text e) e)
  | none ↦ elim sys.read_file [
    | err e ↦ err (wrapped ("error reading namespace file: " <> text e) e)
    | ok namespace ↦ ok namespace
  ]
]

-- The namespace for the secrets of cluster issuers.
unfoldable pub resource_namespace : System → Flags → Result String
resource_namespace sys flags =
    if is_empty flags.cluster_resource_namespace
    then get_in_cluster_namespace sys
    else ok flags.cluster_resource_namespace

-- The calls of main once the namespace is known, in order.
unfoldable pub steps : Flags → String → List Step
steps flags namespace =
    get_config
    ∷ (new_manager (manager_options flags)
        ∷ (setup_issuer (issuer_reconciler flags "Issuer" namespace)
            ∷ (setup_issuer (issuer_reconciler flags "ClusterIssuer" namespace)
                ∷ (setup_request namespace ∷ (add_healthz ∷ (add_readyz ∷ (start ∷ [])))))))

-- How the program ends: main returns, or it exits with status 1.
pub data Ending : Type 0 where
  finished : Ending
  no_namespace : Error → Ending
  failed : Step → Error → Ending

-- `if err := …; err != nil { os.Exit(1) }`, one after the other: the calls made, and the end.
unfoldable pub run : System → (before todo : List Step) → List Step × Ending
run sys before [] = (before, finished)
run sys before (step ∷ todo) = elim (sys.answer before step) [
  | some e ↦ (before ++ step ∷ [], failed step e)
  | none ↦ run sys (before ++ step ∷ []) todo
]

unfoldable pub main : System → Flags → List Step × Ending
main sys flags = elim (resource_namespace sys flags) [
  | err e ↦ ([], no_namespace e)
  | ok namespace ↦ run sys [] (steps flags namespace)
]
