-- ===== src/Scheduler/Calendar.antt =====
-- Go's `time.Time` as internal/scheduler/timerange.go uses it: a wall clock in nanoseconds since
-- 0000-03-01T00:00:00, and the zone that turns it into an instant. `zone` is 24 hours less the
-- zone's offset from UTC, so that `wall + zone` orders instants of different zones.
use victoriametrics_data_mig.Prelude.{
  ℕ, ◌+◌, ◌-◌, ◌*◌, ◌/◌, ◌%◌, zero, suc, ◌≤◌, ◌≡◌, Bool, arith, ltb, ◌==◌, if◌then◌else◌,
}

pub record Time : Type 0 where
  pub wall : ℕ
  pub zone : ℕ

unfoldable pub instant : Time → ℕ
instant t = t.wall + t.zone

unfoldable pub before : Time → Time → Bool
unfolding instant
before t u = ltb (instant t) (instant u)

unfoldable pub after : Time → Time → Bool
unfolding instant
after t u = ltb (instant u) (instant t)

-- time.Hour, and a day, in nanoseconds.
abbrev pub hour : ℕ
hour = 3_600_000_000_000

abbrev pub day : ℕ
day = 24 * hour

-- Years run from March to February, so that the leap day comes last.
year_start : ℕ → ℕ
year_start y = 365 * y + y / 4 - y / 100 + y / 400

month_start : ℕ → ℕ
month_start m = (153 * m + 2) / 5

year_of_era : ℕ → ℕ
year_of_era d = (d - d / 1460 + d / 36524 - d / 146096) / 365

pub record Civil : Type 0 where
  pub year : ℕ
  pub month : ℕ
  pub day_of_month : ℕ

-- Days since 0000-03-01 to a date; months and days count from 0, months from March.
unfoldable pub civil : ℕ → Civil
unfolding year_start month_start year_of_era
civil n =
    let era = n / 146097 in
    let doe = n % 146097 in
    let yoe = year_of_era doe in
    let doy = doe - (365 * yoe + yoe / 4 - yoe / 100) in
    let m = (5 * doy + 2) / 153 in
    record { year = 400 * era + yoe; month = m; day_of_month = doy - month_start m }

unfoldable pub days : Civil → ℕ
unfolding year_start month_start
days c = year_start c.year + month_start c.month + c.day_of_month

unfoldable pub next_month : Civil → Civil
next_month c =
    if c.month == 11
    then record c { year = c.year + 1; month = 0 }
    else record c { month = c.month + 1 }

unfoldable pub advance_months : ℕ → Civil → Civil
unfolding next_month
advance_months zero c = c
advance_months (suc k) c = advance_months k (next_month c)

-- `t.AddDate(0, months, n)`: the date moves, the time of day and the zone stay. A day that the new
-- month lacks runs over into the month after, as `time.Date` normalises it.
unfoldable pub add_date : Time → ℕ → ℕ → Time
add_date t months n = record t {
  wall = (days (advance_months months (civil (t.wall / day))) + n) * day + t.wall % day;
}

-- `t.Add(d)`.
unfoldable pub add : Time → ℕ → Time
add t d = record t { wall = t.wall + d }

days-civil : (n : ℕ) → days (civil n) ≡ n
unfolding civil days
days-civil n = omega arith

month-civil-le : (n : ℕ) → (civil n).month ≤ 11
unfolding civil
month-civil-le n = omega arith

days-next_month : (c : Civil) → c.month ≤ 11 → days c + 28 ≤ days (next_month c)
unfolding days next_month
days-next_month c h = ground arith

pub instant-add : (t : Time) (d : ℕ) → instant (add t d) ≡ instant t + d
unfolding instant add
instant-add t d = omega arith

pub instant-add_day : (t : Time) → instant (add_date t 0 1) ≡ instant t + day
unfolding instant add_date advance_months
instant-add_day t = omega (arith, days-civil (t.wall / day))

pub instant-add_month : (t : Time) → instant t + 28 * day ≤ instant (add_date t 1 0)
unfolding instant add_date advance_months
instant-add_month t = omega (
  arith,
  days-civil (t.wall / day),
  days-next_month (civil (t.wall / day)) (month-civil-le (t.wall / day)),
)
