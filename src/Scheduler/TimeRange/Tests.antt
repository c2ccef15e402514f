-- ===== src/Scheduler/TimeRange/Tests.antt =====
-- Runs of internal/scheduler/timerange.go.
use mathlib.Core.List.{reverse}
use victoriametrics_data_mig.Prelude.{
  refl, false, ◌+◌, ◌*◌, ◌≡◌, true, List, [], ◌∷◌, some, ◌&&◌, codes, arith, ltb, leb,
  if◌then◌else◌,
}
use victoriametrics_data_mig.Scheduler.Calendar.{
  Time, instant, day, before, after, add_date, advance_months, civil, days,
}
use victoriametrics_data_mig.Scheduler.TimeRange.{
  split_loop, clip, advance_by_step, reverse_loop, swap, TimeRange, split_time_range,
  reverse_ranges,
}
use victoriametrics_data_mig.Scheduler.TimeRange.Tiling.{
  IsTiling, holders, split_time_range-IsTiling, split_time_range-partition,
}

-- Noon of 2024-02-28 in UTC, and two and a half days later, past the leap day.
abbrev noon : Time
noon = record { wall = 739_250 * day + 43_200_000_000_000; zone = day }

abbrev later : Time
later = record { wall = 739_253 * day; zone = day }

split_time_range-IsTiling_example :
    (ranges : List TimeRange) × (split_time_range noon later (codes "day") true ≡ some ranges)
    × IsTiling (codes "day") noon later (if true then reverse ranges else ranges)
split_time_range-IsTiling_example =
    split_time_range-IsTiling noon later (codes "day") true (unfold instant in omega arith)

split_time_range-partition_example :
    (ranges : List TimeRange) × (split_time_range noon later (codes "day") true ≡ some ranges)
    × (holders (740_000 * day) ranges ≡ (
        if leb (instant noon) (740_000 * day) && ltb (740_000 * day) (instant later) then 1 else 0))
split_time_range-partition_example =
    split_time_range-partition noon later (codes "day") true (740_000 * day)
      (unfold instant in omega arith)

abbrev three_ranges : List TimeRange
three_ranges =
    record { start = noon; end = noon }
    ∷ record { start = noon; end = later }
    ∷ record { start = later; end = later }
    ∷ []

reversed :
    reverse_ranges three_ranges
    ≡ record { start = later; end = later }
      ∷ record { start = noon; end = later }
      ∷ record { start = noon; end = noon }
      ∷ []
unfolding reverse_ranges reverse_loop swap
reversed = refl

pub two_days :
    split_time_range
      (record { wall = 63_000_000_000_000_000_000; zone = 86_400_000_000_000 })
      (record { wall = 63_000_172_800_000_000_000; zone = 86_400_000_000_000 })
      (codes "day")
      false
    ≡ some (
        record {
          start = record { wall = 63_000_000_000_000_000_000; zone = 86_400_000_000_000 };
          end = record { wall = 63_000_086_400_000_000_000; zone = 86_400_000_000_000 };
        }
        ∷ record {
          start = record { wall = 63_000_086_400_000_000_000; zone = 86_400_000_000_000 };
          end = record { wall = 63_000_172_800_000_000_000; zone = 86_400_000_000_000 };
        }
        ∷ [])
unfolding split_time_range split_loop clip before after advance_by_step add_date advance_months
    civil days instant
two_days = refl
