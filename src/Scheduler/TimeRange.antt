-- ===== src/Scheduler/TimeRange.antt =====
-- internal/scheduler/timerange.go: the interval split into steps, and the reversal in place.
pub mod Reverse
pub mod Tiling
pub mod Tests
use victoriametrics_data_mig.Prelude.{
  ℕ, zero, suc, ◌+◌, ◌-◌, ◌/◌, Bool, true, false, Option, none, some, List, [], ◌∷◌, ◌++◌, Text,
  codes, text_eq, ltb, if◌then◌else◌, length, get_elem?, set,
}
use victoriametrics_data_mig.Scheduler.Calendar.{Time, instant, before, after, hour, add, add_date}

pub record TimeRange : Type 0 where
  pub start : Time
  pub end : Time

-- `String`, with the format of dates.
unfoldable pub show_range : (Time → Text) → TimeRange → Text
show_range date tr = codes "[" ++ (date tr.start ++ (codes " — " ++ (date tr.end ++ codes ")")))

unfoldable pub advance_by_step : Time → Text → Time
advance_by_step t step =
    if text_eq step (codes "hour")
    then add t hour
    else if text_eq step (codes "day")
    then add_date t 0 1
    else if text_eq step (codes "month")
    then add_date t 1 0
    else add_date t 0 1

-- The body's `if next.After(end) { next = end }`.
clip : Time → Time → Time
clip next end = if after next end then end else next

-- The loop from `current`; `none` means that the fuel ran out.
split_loop : ℕ → Time → Time → Text → Option (List TimeRange)
unfolding clip
split_loop zero current end step = none
split_loop (suc fuel) current end step = elim (before current end) [
  | false ↦ some []
  | true ↦
      let next = clip (advance_by_step current step) end in
      elim (split_loop fuel next end step) [
        | none ↦ none
        | some ranges ↦ some (record { start = current; end = next } ∷ ranges)
      ]
]

-- `for i, j := 0, len-1; i < j; i, j = i+1, j-1` swaps two entries in each round.
swap : List TimeRange → ℕ → ℕ → List TimeRange
swap ranges i j = elim (get_elem? ranges i) [
  | none ↦ ranges
  | some a ↦ elim (get_elem? ranges j) [ none ↦ ranges | some b ↦ set (set ranges i b) j a ]
]

reverse_loop : ℕ → List TimeRange → ℕ → ℕ → List TimeRange
unfolding swap
reverse_loop zero ranges i j = ranges
reverse_loop (suc fuel) ranges i j = elim (ltb i j) [
  | true ↦ reverse_loop fuel (swap ranges i j) (i + 1) (j - 1)
  | false ↦ ranges
]

-- The loop makes fewer rounds than there are entries.
pub reverse_ranges : List TimeRange → List TimeRange
reverse_ranges ranges = reverse_loop (length ranges) ranges 0 (length ranges - 1)

-- Every step is an hour or longer, so that the loop makes at most one round an hour, and one more.
abbrev split_fuel : Time → Time → ℕ
split_fuel start end = suc (suc ((instant end - instant start) / hour))

pub split_time_range : Time → Time → Text → Bool → Option (List TimeRange)
split_time_range start end step reverse = elim (split_loop (split_fuel start end) start end step) [
  | none ↦ none
  | some ranges ↦ some (if reverse then reverse_ranges ranges else ranges)
]
