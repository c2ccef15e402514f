-- ===== src/Config/Tests.antt =====
-- Runs of internal/config/config.go.
use mathlib.Core.List.{reverse}
use victoriametrics_data_mig.Prelude.{
  thousandths, ◌*◌, ◌≡◌, refl, true, false, List, [], none, some, codes, text_eq, if◌then◌else◌, ok,
  pos,
}
use victoriametrics_data_mig.Scheduler.Calendar.{Time, day, before}
use victoriametrics_data_mig.Scheduler.TimeRange.{TimeRange, split_time_range}
use victoriametrics_data_mig.Scheduler.TimeRange.Tiling.{IsTiling}
use victoriametrics_data_mig.Config.{Config, BasicAuthConfig, TlsConfig, ResourceSpec}
use victoriametrics_data_mig.Config.Defaults.{apply_defaults, text_or, int_or, float_or}
use victoriametrics_data_mig.Config.Validate.{
  TimeText, parse_date, validate_config, load_config, config_errors,
}
use victoriametrics_data_mig.Config.Planning.{load_config_tiles}

abbrev no_auth : BasicAuthConfig
no_auth = record { username = []; password = [] }

abbrev no_tls : TlsConfig
no_tls = record { insecure_skip_verify = false; ca_file = []; cert_file = []; key_file = [] }

abbrev no_spec : ResourceSpec
no_spec = record { cpu = []; memory = [] }

-- Only what has no default is given.
abbrev pub minimal : Config thousandths
minimal = record {
  source = record {
    vmselect_url = codes "http://a";
    bearer_token = [];
    basic_auth = no_auth;
    headers = [];
    tls = no_tls;
  };
  destination = record {
    vminsert_url = codes "http://b";
    bearer_token = [];
    basic_auth = no_auth;
    headers = [];
    tls = no_tls;
  };
  migration = record {
    filter_match = [];
    start_date = codes "2024-02-28";
    end_date = codes "2024-03-02";
    time_step = [];
    reverse_order = true;
  };
  splitting = record {
    max_series_per_task = pos 0;
    safety_margin = 0;
    max_regex_values = pos 0;
    preferred_split_labels = [];
    exclude_split_labels = [];
  };
  workers = record {
    count = pos 0;
    namespace = [];
    grpc_port = pos 0;
    pod = record {
      image = [];
      image_pull_policy = [];
      image_pull_secret = [];
      vmctl_path = [];
      resources = record { requests = no_spec; limits = no_spec };
      node_selector = [];
      tolerations = [];
      service_account = [];
    };
    vmctl = record {
      concurrency = pos 0;
      rate_limit = pos 0;
      disable_binary_protocol = false;
      disable_http_keep_alive = false;
      backoff_retries = pos 0;
      extra_labels = [];
    };
  };
  retry = record { max_retries = pos 0; auto_resplit = false; resplit_factor = 0 };
  logging = record { progress_interval = []; level = []; report_file = [] };
  monitoring = record { enabled = false; address = [] };
  exclude_metrics = [];
  metric_overrides = [];
}

-- Knows the two dates of `minimal`, and takes every duration.
abbrev pub two_dates : TimeText
two_dates = record {
  parse = λ layout s.
      if text_eq layout (codes "2006-01-02")
      then (if text_eq s (codes "2024-02-28")
          then some (record { wall = 739_250 * day; zone = day })
          else if text_eq s (codes "2024-03-02")
          then some (record { wall = 739_253 * day; zone = day })
          else none)
      else none;
  duration_error = λ s. none;
  quote = λ s. s;
}

pub loads :
    load_config thousandths two_dates (ok []) (λ s. ok minimal)
    ≡ ok (apply_defaults thousandths minimal)
unfolding load_config validate_config config_errors apply_defaults text_or parse_date before int_or
    float_or
loads = refl

abbrev pub loaded : Config thousandths
loaded = apply_defaults thousandths minimal

load_config_tiles_example :
    (start : Time) × (end : Time) × (ranges : List TimeRange) × (parse_date two_dates
        loaded.migration.start_date
      ≡ ok start)
    × (parse_date two_dates loaded.migration.end_date ≡ ok end)
    × (split_time_range start end loaded.migration.time_step loaded.migration.reverse_order
        ≡ some ranges)
    × IsTiling loaded.migration.time_step start end
        (if loaded.migration.reverse_order then reverse ranges else ranges)
    × (¬ ranges ≡ [])
load_config_tiles_example =
    load_config_tiles thousandths two_dates (ok []) (λ s. ok minimal) loaded loads
