-- ===== src/Scheduler/TimeRange/Tiling.antt =====
-- The ranges of internal/scheduler/timerange.go follow one another from the start to the end.
use mathlib.Core.List.{reverse, reverse-cons}
use native.Mathlib.Decide.{dec_lt}
use mathlib.Core.List.{reverse-reverse}
use victoriametrics_data_mig.Prelude.{
  ℕ, zero, suc, ◌+◌, ◌-◌, ◌*◌, ◌/◌, ◌≤◌, ◌<◌, ◌≡◌, refl, sym, ap, ◌∙◌, ◌⊎◌, inl, inr, Bool, true,
  false, ◌&&◌, List, [], ◌∷◌, ◌++◌, some, arith, ltb, leb, if◌then◌else◌, Text,
}
use victoriametrics_data_mig.Scheduler.Calendar.{
  Time, instant, before, after, hour, instant-add, instant-add_day, instant-add_month,
}
use victoriametrics_data_mig.Scheduler.TimeRange.{
  TimeRange, advance_by_step, clip, split_loop, split_time_range,
}
use victoriametrics_data_mig.Scheduler.TimeRange.Reverse.{reverse_ranges-reverse}

-- `ranges` tile the time from `s` to `e`: each begins where the one before it ends, none is empty,
-- and each but the last is one whole step long, the last at most one.
abbrev pub IsTiling : Text → Time → Time → List TimeRange → Type 0
IsTiling step s e [] = instant s ≡ instant e
IsTiling step s e (r ∷ rest) =
    (r.start ≡ s)
    × (instant s < instant r.end)
    × (instant r.end ≤ instant (advance_by_step s step))
    × ((r.end ≡ advance_by_step s step) ⊎ (rest ≡ []))
    × IsTiling step r.end e rest

-- How many of the ranges hold the instant `x`.
abbrev pub holders : ℕ → List TimeRange → ℕ
holders x [] = 0
holders x (r ∷ rest) =
    (if leb (instant r.start) x && ltb x (instant r.end) then 1 else 0) + holders x rest

-- Every step takes an hour or longer.
advance_by_step_lem : (t : Time) (step : Text) → instant t + hour ≤ instant (advance_by_step t step)
unfolding advance_by_step
advance_by_step_lem t step =
    ground (arith, instant-add t hour, instant-add_day t, instant-add_month t)

split_loop_done :
    (step : Text) (fuel : ℕ) (current end : Time)
    → instant end ≤ instant current
    → split_loop (suc fuel) current end step ≡ some []
unfolding split_loop before
split_loop_done step fuel current end h = ground arith

split_loop_more :
    (step : Text) (fuel : ℕ) (current end : Time) (rest : List TimeRange)
    → instant current < instant end
    → split_loop fuel (clip (advance_by_step current step) end) end step ≡ some rest
    → split_loop (suc fuel) current end step
      ≡ some (record { start = current; end = clip (advance_by_step current step) end } ∷ rest)
unfolding split_loop before
split_loop_more step fuel current end rest h e = ground arith

clip_past : (next end : Time) → instant end < instant next → clip next end ≡ end
unfolding clip after
clip_past next end h = ground arith

clip_before : (next end : Time) → instant next ≤ instant end → clip next end ≡ next
unfolding clip after
clip_before next end h = ground arith

split_loop_lem :
    (step : Text) (fuel : ℕ) (current end : Time)
    → instant current ≤ instant end
    → instant end ≤ instant current + fuel * hour
    → (ranges : List TimeRange) × (split_loop (suc fuel) current end step ≡ some ranges)
      × IsTiling step current end ranges
split_loop_lem step zero current end le enough =
    ([], split_loop_done step zero current end (omega arith), omega arith)
split_loop_lem step (suc fuel) current end le enough =
    let next = advance_by_step current step in
    let far = advance_by_step_lem current step in
    elim (dec_lt (instant current) (instant end)) [
      | no done ↦ ([], split_loop_done step (suc fuel) current end (omega arith), omega arith)
      | yes more ↦ elim (dec_lt (instant end) (instant next)) [
        | yes past ↦
            let stop = clip_past next end past in
            let rest = split_loop_done step fuel end end (omega arith) in
            (
              record { start = current; end = end } ∷ [],
              rw stop at (split_loop_more step (suc fuel) current end [] more (rw stop rest)),
              (refl, more, omega arith, inr refl, refl),
            )
        | no within ↦
            let whole = clip_before next end (omega arith) in
            let (rest, returns, tiles) =
              split_loop_lem step fuel next end (omega arith) (omega (arith, far)) in
            (
              record { start = current; end = next } ∷ rest,
              rw whole at
                  (split_loop_more step (suc fuel) current end rest more (rw whole returns)),
              (refl, omega (arith, far), omega arith, inl refl, tiles),
            )
      ]
    ]

split_time_range_lem :
    (start end : Time) (step : Text) (reverse_order : Bool) (ranges : List TimeRange)
    → split_loop (suc (suc ((instant end - instant start) / hour))) start end step ≡ some ranges
    → split_time_range start end step reverse_order
      ≡ some (if reverse_order then reverse ranges else ranges)
unfolding split_time_range
split_time_range_lem start end step reverse_order ranges e =
    rw (e, split_time_range) (rw reverse_ranges-reverse)

-- For a start that is not after the end, `SplitTimeRange` returns, and its ranges, read from the
-- back if the order is reversed, tile the interval: the first begins at the start, each next one
-- where the one before ends, and the last ends at the end; each is longer than nothing, and a
-- whole step but for the last, which is at most a step.
pub split_time_range-IsTiling :
    (start end : Time) (step : Text) (reverse_order : Bool)
    → instant start ≤ instant end
    → (ranges : List TimeRange) × (split_time_range start end step reverse_order ≡ some ranges)
      × IsTiling step start end (if reverse_order then reverse ranges else ranges)
split_time_range-IsTiling start end step reverse_order le =
    let (ranges, returns, tiles) =
      split_loop_lem step (suc ((instant end - instant start) / hour)) start end le (omega arith) in
    (
      if reverse_order then reverse ranges else ranges,
      split_time_range_lem start end step reverse_order ranges returns,
      twice_reversed reverse_order ranges tiles,
    )
  where
    twice_reversed :
        (b : Bool) (rs : List TimeRange)
        → IsTiling step start end rs
        → IsTiling step start end
            (if b then reverse (if b then reverse rs else rs) else (if b then reverse rs else rs))
    twice_reversed true rs tiles = rw reverse-reverse tiles
    twice_reversed false rs tiles = tiles

holders-append :
    (x : ℕ) (rs ss : List TimeRange) → holders x (rs ++ ss) ≡ holders x rs + holders x ss
holders-append x [] ss = omega arith
holders-append x (r ∷ rs) ss = omega (arith, holders-append x rs ss)

holders-reverse : (x : ℕ) (rs : List TimeRange) → holders x (reverse rs) ≡ holders x rs
holders-reverse x [] = refl
holders-reverse x (r ∷ rs) = rw (reverse-cons, holders-append) (omega (arith, holders-reverse x rs))

holders_ordered :
    (x : ℕ) (b : Bool) (rs : List TimeRange)
    → holders x rs ≡ holders x (if b then reverse rs else rs)
holders_ordered x true rs = sym (holders-reverse x rs)
holders_ordered x false rs = refl

holders_lem :
    (x : ℕ) (step : Text) (s e : Time) (rs : List TimeRange)
    → IsTiling step s e rs
    → (instant s ≤ instant e)
      × (holders x rs ≡ (if leb (instant s) x && ltb x (instant e) then 1 else 0))
holders_lem x step s e [] h = ground arith
holders_lem x step s e (r ∷ rs) (starts, some_time, short, whole, tiles) =
    ground (arith, holders_lem x step r.end e rs tiles, ap instant starts)

-- For a start that is not after the end, every instant from the start up to the end lies in
-- exactly one range of `SplitTimeRange`, and no other instant in any, whatever the step and the
-- order.
pub split_time_range-partition :
    (start end : Time) (step : Text) (reverse_order : Bool) (x : ℕ)
    → instant start ≤ instant end
    → (ranges : List TimeRange) × (split_time_range start end step reverse_order ≡ some ranges)
      × (holders x ranges ≡ (if leb (instant start) x && ltb x (instant end) then 1 else 0))
split_time_range-partition start end step reverse_order x le =
    let (ranges, returns, tiles) = split_time_range-IsTiling start end step reverse_order le in
    (
      ranges,
      returns,
      holders_ordered x reverse_order ranges ∙ (holders_lem x step start end _ tiles).1,
    )
