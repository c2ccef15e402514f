-- ===== src/Config/Defaults.antt =====
-- `applyDefaults` of internal/config/config.go.
use victoriametrics_data_mig.Prelude.{
  ℕ, Bool, false, [], ◌∷◌, Text, codes, is_empty, ◌==◌, if◌then◌else◌, Float, ℤ, pos, negsuc,
}
use victoriametrics_data_mig.Config.{SplittingConfig, PodConfig, WorkersConfig, Config, list_or}

-- `if x == "" { x = default }`, and the same for numbers and slices.
unfoldable pub text_or : Text → Text → Text
text_or default s = if is_empty s then default else s

abbrev is_zero_int : ℤ → Bool
is_zero_int (pos n) = n == 0
is_zero_int (negsuc n) = false

unfoldable pub int_or : ℕ → ℤ → ℤ
int_or default n = if is_zero_int n then pos default else n

module _ (F : Float) where
  unfoldable pub float_or : F.Carrier → F.Carrier → F.Carrier
  float_or default x = if F.equal x (F.ratio 0 1) then default else x

  abbrev pub default_splitting : SplittingConfig F → SplittingConfig F
  default_splitting c = record c {
    max_series_per_task = int_or 100_000 c.max_series_per_task;
    safety_margin = float_or (F.ratio 2 10) c.safety_margin;
    max_regex_values = int_or 200 c.max_regex_values;
    exclude_split_labels = list_or (codes "__name__" ∷ []) c.exclude_split_labels;
  }

  abbrev pub default_pod : PodConfig → PodConfig
  default_pod c = record c {
    image = text_or (codes "vm-migrator:latest") c.image;
    image_pull_policy = text_or (codes "IfNotPresent") c.image_pull_policy;
    service_account = text_or (codes "vm-migrator-worker") c.service_account;
    vmctl_path = text_or (codes "/usr/local/bin/vmctl") c.vmctl_path;
  }

  abbrev pub default_workers : WorkersConfig → WorkersConfig
  default_workers c = record c {
    count = int_or 5 c.count;
    namespace = text_or (codes "vm-migration") c.namespace;
    pod = default_pod c.pod;
    grpc_port = int_or 9091 c.grpc_port;
    vmctl = record (c.vmctl) {
      concurrency = int_or 2 c.vmctl.concurrency;
      backoff_retries = int_or 10 c.vmctl.backoff_retries;
    };
  }

  unfoldable pub apply_defaults : Config F → Config F
  apply_defaults cfg = record cfg {
    migration = record (cfg.migration) {
      time_step = text_or (codes "day") cfg.migration.time_step;
    };
    splitting = default_splitting cfg.splitting;
    workers = default_workers cfg.workers;
    retry = record (cfg.retry) {
      max_retries = int_or 3 cfg.retry.max_retries;
      resplit_factor = float_or (F.ratio 5 10) cfg.retry.resplit_factor;
    };
    logging = record (cfg.logging) {
      progress_interval = text_or (codes "30s") cfg.logging.progress_interval;
      level = text_or (codes "info") cfg.logging.level;
      report_file = text_or (codes "migration_report.json") cfg.logging.report_file;
    };
    monitoring = record (cfg.monitoring) {
      address = text_or (codes ":9090") cfg.monitoring.address;
    };
  }
