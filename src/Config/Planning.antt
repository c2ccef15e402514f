-- ===== src/Config/Planning.antt =====
-- An accepted configuration of internal/config/config.go gives time ranges to migrate.
use mathlib.Core.List.{reverse}
use victoriametrics_data_mig.Prelude.{
  ◌<◌, ◌≡◌, inl, inr, List, [], ◌∷◌, some, Text, Bool, true, false, if◌then◌else◌, Result, err, ok,
  ok_injective, Float, arith, subst, Option-cases, Result-cases, err_not_ok,
}
use victoriametrics_data_mig.Scheduler.Calendar.{Time, instant}
use victoriametrics_data_mig.Scheduler.TimeRange.{TimeRange, split_time_range}
use victoriametrics_data_mig.Scheduler.TimeRange.Tiling.{IsTiling, split_time_range-IsTiling}
use victoriametrics_data_mig.Config.{Config}
use victoriametrics_data_mig.Config.Defaults.{apply_defaults}
use victoriametrics_data_mig.Config.Validate.{
  TimeText, parse_date, validate_config, load_config, checked,
}
use victoriametrics_data_mig.Config.Validity.{IsValid, validate_config_iff}

module _ (F : Float) (p : TimeText) where
  -- A configuration that is loaded is valid.
  checked_lem :
      (cfg loaded : Config F)
      → checked F (validate_config F p cfg) cfg ≡ ok loaded
      → IsValid F p loaded
  checked_lem cfg loaded e = elim (Option-cases (validate_config F p cfg)) [
    | inl fine ↦
        subst (IsValid F p) (ok_injective cfg loaded (rw fine at e))
          ((validate_config_iff F p cfg).0 fine)
    | inr (x, bad) ↦ absurd (err_not_ok _ loaded (rw bad at e))
  ]

  load_config-IsValid :
      (file : Result Text) (unmarshal : Text → Result (Config F)) (cfg : Config F)
      → load_config F p file unmarshal ≡ ok cfg
      → IsValid F p cfg
  unfolding load_config
  load_config-IsValid (err e) unmarshal cfg loads = absurd (err_not_ok _ cfg loads)
  load_config-IsValid (ok text) unmarshal cfg loads = elim (Result-cases (unmarshal text)) [
    | inl (e, bad) ↦ absurd (err_not_ok _ cfg (rw (bad, load_config) at loads))
    | inr (raw, read) ↦ checked_lem (apply_defaults F raw) cfg (rw (read, load_config) at loads)
  ]

  -- The dates of a configuration that `LoadConfig` returns parse, and splitting the time between them
  -- returns at least one range; the ranges tile it, read from the back in reverse order.
  pub load_config_tiles :
      (file : Result Text) (unmarshal : Text → Result (Config F)) (cfg : Config F)
      → load_config F p file unmarshal ≡ ok cfg
      → (start : Time) × (end : Time) × (ranges : List TimeRange) × (parse_date p
            cfg.migration.start_date
          ≡ ok start)
        × (parse_date p cfg.migration.end_date ≡ ok end)
        × (split_time_range start end cfg.migration.time_step cfg.migration.reverse_order
            ≡ some ranges)
        × IsTiling cfg.migration.time_step start end
            (if cfg.migration.reverse_order then reverse ranges else ranges)
        × (¬ ranges ≡ [])
  load_config_tiles file unmarshal cfg loads =
      let v = load_config-IsValid file unmarshal cfg loads in
      let (ranges, returns, tiles) =
        split_time_range-IsTiling v.start v.end cfg.migration.time_step cfg.migration.reverse_order
          (let o = v.ordered in omega arith) in
      (
        v.start,
        v.end,
        ranges,
        v.start_parses,
        v.end_parses,
        returns,
        tiles,
        some_range cfg.migration.time_step v.start v.end cfg.migration.reverse_order ranges
            v.ordered tiles,
      )
    where
      some_range :
          (step : Text) (s e : Time) (b : Bool) (rs : List TimeRange)
          → instant s < instant e
          → IsTiling step s e (if b then reverse rs else rs)
          → ¬ (rs ≡ [])
      some_range step s e b [] lt t none_there = omega (arith, nothing b t)
        where
          nothing :
              (b : Bool) → IsTiling step s e (if b then reverse [] else []) → instant s ≡ instant e
          nothing true h = h
          nothing false h = h
      some_range step s e b (r ∷ rs) lt t none_there = cc
