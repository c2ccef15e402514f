-- ===== src/Config.antt =====
-- internal/config/config.go: the configuration, its defaults and its validation. The YAML text, the
-- dates and the durations are parsed by libraries; float64 is a parameter.
pub mod Defaults
pub mod Validate
pub mod Limits
pub mod Validity
pub mod Planning
pub mod Tests
use victoriametrics_data_mig.Prelude.{
  ℕ, Bool, true, false, not, ◌||◌, ◌&&◌, List, [], ◌∷◌, ◌++◌, Option, none, some, Text, codes,
  is_empty, text_eq, join, Map, lookup, ltb, ◌==◌, if◌then◌else◌, length, Result, err, ok, Float, ℤ,
  pos, negsuc,
}
use victoriametrics_data_mig.Scheduler.Calendar.{Time, before}

pub record BasicAuthConfig : Type 0 where
  pub username : Text
  pub password : Text

pub record TlsConfig : Type 0 where
  pub insecure_skip_verify : Bool
  pub ca_file : Text
  pub cert_file : Text
  pub key_file : Text

pub record SourceConfig : Type 0 where
  pub vmselect_url : Text
  pub bearer_token : Text
  pub basic_auth : BasicAuthConfig
  pub headers : Map Text
  pub tls : TlsConfig

pub record DestinationConfig : Type 0 where
  pub vminsert_url : Text
  pub bearer_token : Text
  pub basic_auth : BasicAuthConfig
  pub headers : Map Text
  pub tls : TlsConfig

pub record MigrationConfig : Type 0 where
  pub filter_match : Text
  pub start_date : Text
  pub end_date : Text
  pub time_step : Text
  pub reverse_order : Bool

pub record SplittingConfig (F : Float) : Type 0 where
  pub max_series_per_task : ℤ
  pub safety_margin : F.Carrier
  pub max_regex_values : ℤ
  pub preferred_split_labels : List Text
  pub exclude_split_labels : List Text

pub record ResourceSpec : Type 0 where
  pub cpu : Text
  pub memory : Text

pub record ResourcesConfig : Type 0 where
  pub requests : ResourceSpec
  pub limits : ResourceSpec

pub record Toleration : Type 0 where
  pub key : Text
  pub operator : Text
  pub value : Text
  pub effect : Text

pub record PodConfig : Type 0 where
  pub image : Text
  pub image_pull_policy : Text
  pub image_pull_secret : Text
  pub vmctl_path : Text
  pub resources : ResourcesConfig
  pub node_selector : Map Text
  pub tolerations : List Toleration
  pub service_account : Text

pub record VmctlConfig : Type 0 where
  pub concurrency : ℤ
  pub rate_limit : ℤ
  pub disable_binary_protocol : Bool
  pub disable_http_keep_alive : Bool
  pub backoff_retries : ℤ
  pub extra_labels : List Text

pub record WorkersConfig : Type 0 where
  pub count : ℤ
  pub namespace : Text
  pub grpc_port : ℤ
  pub pod : PodConfig
  pub vmctl : VmctlConfig

pub record RetryConfig (F : Float) : Type 0 where
  pub max_retries : ℤ
  pub auto_resplit : Bool
  pub resplit_factor : F.Carrier

pub record LoggingConfig : Type 0 where
  pub progress_interval : Text
  pub level : Text
  pub report_file : Text

pub record MonitoringConfig : Type 0 where
  pub enabled : Bool
  pub address : Text

pub record MetricOverride : Type 0 where
  pub max_series_per_task : ℤ
  pub preferred_split_labels : List Text

pub record Config (F : Float) : Type 0 where
  pub source : SourceConfig
  pub destination : DestinationConfig
  pub migration : MigrationConfig
  pub splitting : SplittingConfig F
  pub workers : WorkersConfig
  pub retry : RetryConfig F
  pub logging : LoggingConfig
  pub monitoring : MonitoringConfig
  pub exclude_metrics : List Text
  pub metric_overrides : Map MetricOverride

unfoldable pub list_or : List Text → List Text → List Text
list_or default [] = default
list_or default (x ∷ xs) = x ∷ xs

-- `a < n`.
abbrev pub int_below : ℤ → ℕ → Bool
int_below (pos m) n = ltb m n
int_below (negsuc m) n = true
