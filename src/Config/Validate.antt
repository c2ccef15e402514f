-- ===== src/Config/Validate.antt =====
-- `validateConfig`, `ParseDate` and `LoadConfig` of internal/config/config.go.
use victoriametrics_data_mig.Prelude.{
  Bool, false, not, ◌||◌, List, [], ◌∷◌, ◌++◌, Option, none, some, Text, codes, is_empty, text_eq,
  join, if◌then◌else◌, Result, err, ok, Float,
}
use victoriametrics_data_mig.Scheduler.Calendar.{Time, before}
use victoriametrics_data_mig.Config.{Config, int_below}
use victoriametrics_data_mig.Config.Defaults.{apply_defaults}

-- What the code asks of packages time and fmt: `time.Parse` of a layout and a text, the errors of
-- `time.ParseDuration`, and the verb `%q`.
pub record TimeText : Type 0 where
  pub parse : Text → Text → Option Time
  pub duration_error : Text → Option Text
  pub quote : Text → Text

-- The first layout that parses the text.
abbrev first_parsed : TimeText → List Text → Text → Result Time
first_parsed p [] s = err (
    codes "unable to parse date "
    ++ (p.quote s ++ codes " (supported formats: DD.MM.YYYY, YYYY-MM-DD, RFC3339)"))
first_parsed p (layout ∷ layouts) s = elim (p.parse layout s) [
  | none ↦ first_parsed p layouts s
  | some t ↦ ok t
]

unfoldable pub parse_date : TimeText → Text → Result Time
parse_date p s =
    first_parsed p
      (codes "02.01.2006" ∷ codes "2006-01-02T15:04:05Z07:00" ∷ codes "2006-01-02" ∷ []) s

module _ (F : Float) where
  abbrev pub complain : Bool → Text → List Text
  complain bad message = if bad then message ∷ [] else []

  abbrev pub required : Text → Text → List Text
  required s message = complain (is_empty s) message

  abbrev pub is_one_of : Text → List Text → Bool
  is_one_of s [] = false
  is_one_of s (t ∷ ts) = text_eq s t || is_one_of s ts

  abbrev pub error_of {ℓ} : {A : Type ℓ} → Text → Result A → List Text
  error_of message (err e) = (message ++ e) ∷ []
  error_of message (ok a) = []

  abbrev pub date_error : TimeText → Text → Text → List Text
  date_error p message s = if is_empty s then [] else error_of message (parse_date p s)

  abbrev pub order_error : Result Time → Result Time → List Text
  order_error (ok start) (ok end) =
      complain (not (before start end))
        (codes "migration.start_date must be before migration.end_date")
  order_error (ok start) (err e) = []
  order_error (err e) end = []

  abbrev pub duration_errors : Option Text → List Text
  duration_errors none = []
  duration_errors (some e) = (codes "logging.progress_interval: invalid duration: " ++ e) ∷ []

  -- The errors of each check, in the order of the checks.
  abbrev pub checks : TimeText → Config F → List (List Text)
  checks p cfg =
      let start = cfg.migration.start_date in
      let end = cfg.migration.end_date in
      let step = cfg.migration.time_step in
      let margin = cfg.splitting.safety_margin in
      let level = cfg.logging.level in
      required cfg.source.vmselect_url (codes "source.vmselect_url is required")
      ∷ required cfg.destination.vminsert_url (codes "destination.vminsert_url is required")
      ∷ required start (codes "migration.start_date is required")
      ∷ required end (codes "migration.end_date is required")
      ∷ complain (not (is_one_of step (codes "day" ∷ codes "hour" ∷ codes "month" ∷ []))) (
          codes "migration.time_step must be one of: day, hour, month (got: "
          ++ (step ++ codes ")"))
      ∷ date_error p (codes "migration.start_date: ") start
      ∷ date_error p (codes "migration.end_date: ") end
      ∷ (if is_empty start || is_empty end
          then []
          else order_error (parse_date p start) (parse_date p end))
      ∷ complain (int_below cfg.splitting.max_series_per_task 100)
          (codes "splitting.max_series_per_task should be at least 100")
      ∷ complain (F.less margin (F.ratio 0 1) || F.leq (F.ratio 1 1) margin)
          (codes "splitting.safety_margin must be between 0.0 and 1.0 (exclusive)")
      ∷ complain (int_below cfg.workers.count 1) (codes "workers.count must be at least 1")
      ∷ complain
          (not (is_one_of level (codes "debug" ∷ codes "info" ∷ codes "warn" ∷ codes "error" ∷ [])))
          (codes "logging.level must be one of: debug, info, warn, error (got: "
            ++ (level ++ codes ")"))
      ∷ duration_errors (p.duration_error cfg.logging.progress_interval)
      ∷ []

  abbrev pub flatten : List (List Text) → List Text
  flatten [] = []
  flatten (xs ∷ xss) = xs ++ flatten xss

  unfoldable pub config_errors : TimeText → Config F → List Text
  config_errors p cfg = flatten (checks p cfg)

  abbrev pub report_errors : List Text → Option Text
  report_errors [] = none
  report_errors (e ∷ es) =
      some
        (codes "configuration errors:" ++ (10 ∷ codes "  - ") ++ join (10 ∷ codes "  - ") (e ∷ es))

  -- `none` is the error `nil`.
  unfoldable pub validate_config : TimeText → Config F → Option Text
  validate_config p cfg = report_errors (config_errors p cfg)

  abbrev pub checked : Option Text → Config F → Result (Config F)
  checked none cfg = ok cfg
  checked (some e) cfg = err (codes "validating config: " ++ e)

  -- `LoadConfig` from the result of `os.ReadFile` and that of the YAML parser.
  unfoldable pub load_config :
      TimeText → Result Text → (Text → Result (Config F)) → Result (Config F)
  load_config p (err e) unmarshal = err (codes "reading config file: " ++ e)
  load_config p (ok data_read) unmarshal = elim (unmarshal data_read) [
    | err e ↦ err (codes "parsing config file: " ++ e)
    | ok cfg ↦ checked (validate_config p (apply_defaults F cfg)) (apply_defaults F cfg)
  ]
