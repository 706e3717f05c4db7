-- ===== src/Config.antt =====
-- src/config.rs: the configuration that `A3sfile.hcl` describes. Paths and URLs are texts, a
-- `Duration` is its whole number of milliseconds, and the widths of the integers are stated where
-- a theorem needs them.
pub mod Validate
pub mod EnvFunc
pub mod Placeholders
pub mod Durations
pub mod Load
use dev.Prelude.{Text, ℕ, Bool, Option, none, List, [], txt, ◌*◌, false}
use dev.Map.{Map}

abbrev pub Duration : Type 0
Duration = ℕ

-- `Duration::as_secs`
abbrev pub from_secs : ℕ → Duration
from_secs n = n * 1000

pub record GlobalSettings : Type 0 where
  pub proxy_port : ℕ
  pub log_level : Text
  pub runtime : Text
  pub k8s_context : Option Text
  pub k8s_namespace : Text
  pub registry : Option Text
  pub https : Bool

-- `impl Default for GlobalSettings`
abbrev pub default_settings : GlobalSettings
default_settings = record {
  proxy_port = 7080;
  log_level = txt "info";
  runtime = txt "local";
  k8s_context = none;
  k8s_namespace = txt "default";
  registry = none;
  https = false;
}

pub record ServiceEnvOverride : Type 0 where
  pub env : Map Text

pub record EnvOverride : Type 0 where
  pub service : Map ServiceEnvOverride

pub record K8sVolume : Type 0 where
  pub name : Text
  pub volume_type : Text
  pub mount_path : Text
  pub host_path : Option Text
  pub config_map : Option Text
  pub secret : Option Text
  pub read_only : Bool

pub record K8sResources : Type 0 where
  pub cpu_request : Option Text
  pub cpu_limit : Option Text
  pub memory_request : Option Text
  pub memory_limit : Option Text

pub record K8sConfig : Type 0 where
  pub image : Text
  pub dockerfile : Option Text
  pub build_args : Map Text
  pub replicas : ℕ
  pub resources : Option K8sResources
  pub helm_chart : Option Text
  pub helm_values : Option Text
  pub kustomize_dir : Option Text
  pub secret_file : Option Text
  pub secrets : Map Text
  pub volumes : List K8sVolume

pub data OnFailure : Type 0 where
  restart stop : OnFailure

pub record RestartConfig : Type 0 where
  pub max_restarts : ℕ
  pub backoff : Duration
  pub max_backoff : Duration
  pub on_failure : OnFailure

-- `impl Default for RestartConfig`
abbrev pub default_restart : RestartConfig
default_restart = record {
  max_restarts = 10;
  backoff = from_secs 1;
  max_backoff = from_secs 30;
  on_failure = restart;
}

pub record WatchConfig : Type 0 where
  pub paths : List Text
  pub ignore : List Text
  pub restart : Bool

pub data HealthKind : Type 0 where
  http tcp : HealthKind

pub record HealthConfig : Type 0 where
  pub kind : HealthKind
  pub path : Option Text
  pub interval : Duration
  pub timeout : Duration
  pub retries : ℕ

pub record ServiceDef : Type 0 where
  pub cmd : Text
  pub dir : Option Text
  pub port : ℕ
  pub subdomain : Option Text
  pub env : Map Text
  pub env_file : Option Text
  pub log_file : Option Text
  pub log_rotate_mb : ℕ
  pub pre_start : Option Text
  pub post_stop : Option Text
  pub depends_on : List Text
  pub watch : Option WatchConfig
  pub health : Option HealthConfig
  pub restart : RestartConfig
  pub stop_timeout : Duration
  pub disabled : Bool
  pub labels : List Text
  pub k8s : Option K8sConfig

pub record DevConfig : Type 0 where
  pub dev : GlobalSettings
  pub service : Map ServiceDef
  pub env_override : Map EnvOverride

-- A service with the given command, port and dependencies, and the defaults of every other field.
abbrev pub plain_service : Text → ℕ → List Text → ServiceDef
plain_service cmd port depends_on = record {
  cmd = cmd;
  dir = none;
  port = port;
  subdomain = none;
  env = [];
  env_file = none;
  log_file = none;
  log_rotate_mb = 0;
  pre_start = none;
  post_stop = none;
  depends_on = depends_on;
  watch = none;
  health = none;
  restart = default_restart;
  stop_timeout = from_secs 5;
  disabled = false;
  labels = [];
  k8s = none;
}

abbrev pub config_of : Map ServiceDef → DevConfig
config_of service = record { dev = default_settings; service = service; env_override = [] }
