-- ===== src/Config/Validity.antt =====
-- Which configurations internal/config/config.go accepts, and what the defaults do.
use victoriametrics_data_mig.Prelude.{
  ◌<◌, ◌≡◌, refl, ◌⊎◌, inl, inr, ◌↔◌, Bool, true, false, not, ◌||◌, List, [], ◌∷◌, ◌++◌, Option,
  none, some, Text, codes, is_empty, text_eq, Bool-cases, Result-cases, if◌then◌else◌, ok, Float,
  arith, All, text_eq_iff,
}
use victoriametrics_data_mig.Scheduler.Calendar.{Time, before, instant}
use victoriametrics_data_mig.Config.{Config, int_below}
use victoriametrics_data_mig.Config.Validate.{
  TimeText, parse_date, complain, is_one_of, date_error, order_error, duration_errors,
  report_errors, config_errors, checks, flatten, validate_config,
}

append_nil : (xs ys : List Text) → (xs ++ ys) ≡ [] → (xs ≡ []) × (ys ≡ [])
append_nil [] ys e = (refl, e)
append_nil (x ∷ xs) ys e = cc

complain_nil : (F : Float) (b : Bool) (m : Text) → complain F b m ≡ [] → b ≡ false
complain_nil F true m e = cc
complain_nil F false m e = refl

date_error_nil :
    (F : Float) (p : TimeText) (m s : Text)
    → is_empty s ≡ false
    → date_error F p m s ≡ []
    → (t : Time) × (parse_date p s ≡ ok t)
date_error_nil F p m s given e = elim (Result-cases (parse_date p s)) [
  | inl (x, failed) ↦ absurd (clash_at x (rw (given, failed) at e))
  | inr found ↦ found
]
  where
    clash_at : (x : Text) → ¬ ((m ++ x) ∷ [] ≡ [])
    clash_at x h = cc

duration_nil : (F : Float) (o : Option Text) → duration_errors F o ≡ [] → o ≡ none
duration_nil F none e = refl
duration_nil F (some x) e = cc

-- The conditions that the messages of `validateConfig` name.
pub record IsValid (F : Float) (p : TimeText) (cfg : Config F) : Type 0 where
  pub source : is_empty cfg.source.vmselect_url ≡ false
  pub destination : is_empty cfg.destination.vminsert_url ≡ false
  pub start_given : is_empty cfg.migration.start_date ≡ false
  pub end_given : is_empty cfg.migration.end_date ≡ false
  pub start : Time
  pub end : Time
  pub start_parses : parse_date p cfg.migration.start_date ≡ ok start
  pub end_parses : parse_date p cfg.migration.end_date ≡ ok end
  pub ordered : instant start < instant end
  pub step :
      (cfg.migration.time_step ≡ codes "day")
      ⊎ (cfg.migration.time_step ≡ codes "hour")
      ⊎ (cfg.migration.time_step ≡ codes "month")
  pub series : int_below cfg.splitting.max_series_per_task 100 ≡ false
  pub margin_low : F.less cfg.splitting.safety_margin (F.ratio 0 1) ≡ false
  pub margin_high : F.leq (F.ratio 1 1) cfg.splitting.safety_margin ≡ false
  pub workers : int_below cfg.workers.count 1 ≡ false
  pub level :
      is_one_of F cfg.logging.level
        (codes "debug" ∷ codes "info" ∷ codes "warn" ∷ codes "error" ∷ [])
      ≡ true
  pub interval : p.duration_error cfg.logging.progress_interval ≡ none

flatten_nil : (F : Float) (xss : List (List Text)) → flatten F xss ≡ [] → All (λ xs. xs ≡ []) xss
flatten_nil F [] e = tt
flatten_nil F (xs ∷ xss) e =
    let (a, b) = append_nil xs (flatten F xss) e in (a, flatten_nil F xss b)

nil_flatten : (F : Float) (xss : List (List Text)) → All (λ xs. xs ≡ []) xss → flatten F xss ≡ []
nil_flatten F [] h = refl
nil_flatten F (xs ∷ xss) (e, h) = rw e (nil_flatten F xss h)

order_nil :
    (F : Float) (p : TimeText) (a b : Text) (start end : Time)
    → is_empty a ≡ false
    → is_empty b ≡ false
    → parse_date p a ≡ ok start
    → parse_date p b ≡ ok end
    → ◌≡◌ {A = List Text}
        (if is_empty a || is_empty b then [] else order_error F (parse_date p a) (parse_date p b))
        []
    → instant start < instant end
order_nil F p a b start end h k s t e =
    let late = complain_nil F (not (before start end)) _ (rw (h, k, s, t) at e) in
    unfold before in ground (arith, late)

step_nil :
    (F : Float) (m step : Text)
    → complain F (not (is_one_of F step (codes "day" ∷ codes "hour" ∷ codes "month" ∷ []))) m ≡ []
    → (step ≡ codes "day") ⊎ (step ≡ codes "hour") ⊎ (step ≡ codes "month")
step_nil F m step e = elim (Bool-cases (text_eq step (codes "day"))) [
  | inl h ↦ inl ((text_eq_iff step _).0 h)
  | inr n ↦ elim (Bool-cases (text_eq step (codes "hour"))) [
    | inl h ↦ inr (inl ((text_eq_iff step _).0 h))
    | inr o ↦ inr (inr ((text_eq_iff step _).0 (ground (arith, complain_nil F _ m e))))
  ]
]

module _ (F : Float) (p : TimeText) (cfg : Config F) where
  IsValid-of_errors : All (λ xs. xs ≡ []) (checks F p cfg) → IsValid F p cfg
  IsValid-of_errors
        (e1, (e2, (e3, (e4, (e5, (e6, (e7, (e8, (e9, (e10, (e11, (e12, (e13, _))))))))))))) =
      let start_given = complain_nil F _ _ e3 in
      let end_given = complain_nil F _ _ e4 in
      let (start, s) =
        date_error_nil F p (codes "migration.start_date: ") cfg.migration.start_date start_given
          e6 in
      let (end, t) =
        date_error_nil F p (codes "migration.end_date: ") cfg.migration.end_date end_given e7 in
      let margin = complain_nil F _ _ e10 in
      let level = complain_nil F _ _ e12 in
      record {
        source = complain_nil F _ _ e1;
        destination = complain_nil F _ _ e2;
        start_given = start_given;
        end_given = end_given;
        start = start;
        end = end;
        start_parses = s;
        end_parses = t;
        ordered =
            order_nil F p cfg.migration.start_date cfg.migration.end_date start end start_given
              end_given s t e8;
        step = step_nil F _ cfg.migration.time_step e5;
        series = complain_nil F _ _ e9;
        margin_low = ground arith;
        margin_high = ground arith;
        workers = complain_nil F _ _ e11;
        level = ground arith;
        interval = duration_nil F _ e13;
      }

  errors_of_IsValid : IsValid F p cfg → All (λ xs. xs ≡ []) (checks F p cfg)
  errors_of_IsValid v = (
    rw v.source,
    (
      rw v.destination,
      (
        rw v.start_given,
        (
          rw v.end_given,
          (
            step,
            (
              rw (v.start_given, v.start_parses),
              (
                rw (v.end_given, v.end_parses),
                (
                  order,
                  (
                    rw v.series,
                    (
                      rw (v.margin_low, v.margin_high),
                      (rw v.workers, (rw v.level, (rw v.interval, tt))),
                    ),
                  ),
                ),
              ),
            ),
          ),
        ),
      ),
    ),
  )
    where
      step :
          complain F
            (not (
              is_one_of F cfg.migration.time_step
                (codes "day" ∷ codes "hour" ∷ codes "month" ∷ [])))
            (codes "migration.time_step must be one of: day, hour, month (got: "
              ++ (cfg.migration.time_step ++ codes ")"))
          ≡ []
      step = elim v.step [ inl e ↦ rw e | inr o ↦ elim o [ inl e ↦ rw e | inr e ↦ rw e ] ]

      early : not (before v.start v.end) ≡ false
      early = let o = v.ordered in unfold before in ground arith

      order :
          ◌≡◌ {A = List Text}
            (if is_empty cfg.migration.start_date || is_empty cfg.migration.end_date
              then []
              else order_error F
                  (parse_date p cfg.migration.start_date)
                  (parse_date p cfg.migration.end_date))
            []
      order = rw (v.start_given, v.end_given, v.start_parses, v.end_parses) (rw early)

  pub validate_config_iff : (validate_config F p cfg ≡ none) ↔ IsValid F p cfg
  unfolding validate_config config_errors
  validate_config_iff = (
    λ e.
        IsValid-of_errors
          (flatten_nil F (checks F p cfg) (report_nil (flatten F (checks F p cfg)) e)),
    λ v. rw (nil_flatten F (checks F p cfg) (errors_of_IsValid v)),
  )
    where
      report_nil : (es : List Text) → report_errors F es ≡ none → es ≡ []
      report_nil es e = ground arith
