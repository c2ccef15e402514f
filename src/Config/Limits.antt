-- ===== src/Config/Limits.antt =====
-- The limits of a metric in internal/config/config.go.
use victoriametrics_data_mig.Prelude.{List, none, some, Text, lookup, if◌then◌else◌, Float, ℤ}
use victoriametrics_data_mig.Config.{Config, list_or, int_below}

module _ (F : Float) where
  abbrev pub scaled : ℤ → Config F → ℤ
  scaled n cfg = F.to_int (F.mul (F.of_int n) (F.sub (F.ratio 1 1) cfg.splitting.safety_margin))

  unfoldable pub effective_max_series : Config F → ℤ
  effective_max_series cfg = scaled cfg.splitting.max_series_per_task cfg

  unfoldable pub effective_max_series_for_metric : Text → Config F → ℤ
  unfolding effective_max_series
  effective_max_series_for_metric metric cfg = elim (lookup metric cfg.metric_overrides) [
    | none ↦ effective_max_series cfg
    | some o ↦
        if int_below o.max_series_per_task 1
        then effective_max_series cfg
        else scaled o.max_series_per_task cfg
  ]

  unfoldable pub split_labels_for_metric : Text → Config F → List Text
  split_labels_for_metric metric cfg = elim (lookup metric cfg.metric_overrides) [
    | none ↦ cfg.splitting.preferred_split_labels
    | some o ↦ list_or cfg.splitting.preferred_split_labels o.preferred_split_labels
  ]
