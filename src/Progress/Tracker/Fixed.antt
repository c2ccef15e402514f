-- ===== src/Progress/Tracker/Fixed.antt =====
-- What the goroutines of internal/progress/tracker.go, `Start` and `Stop` leave alone.
use victoriametrics_data_mig.Prelude.{ℕ, ◌≡◌, refl, ◌∙◌, Text, ℤ, arith}
use victoriametrics_data_mig.Progress.Tracker.{Tracker, Tick, Ticks, start, stop}

abbrev pub fixed : Tracker → ℤ × ℕ × ℕ × Text
fixed t = (t.interval, t.total_ranges, t.current_range, t.current_range_str)

Tick-fixed : {t u : Tracker} → Tick t u → fixed u ≡ fixed t
Tick-fixed (Tick.begins front back e positive) = refl
Tick-fixed (Tick.selects front back e) = refl
Tick-fixed (Tick.logs front back ch e) = refl
Tick-fixed (Tick.returns front back ch e m) = refl

pub Ticks-fixed : {t u : Tracker} → Ticks t u → fixed u ≡ fixed t
Ticks-fixed Ticks.here = refl
Ticks-fixed (Ticks.next ts k) = Tick-fixed k ∙ Ticks-fixed ts

stop-fixed : (t : Tracker) → fixed (stop t) ≡ fixed t
unfolding stop
stop-fixed t = ground arith

start-fixed : (t : Tracker) → fixed (start t) ≡ fixed t
unfolding start
start-fixed t = refl

-- A tracker that was started, has had its ticks and was stopped.
pub executed-fixed : (t k : Tracker) → Ticks (start t) k → fixed (stop k) ≡ fixed t
executed-fixed t k ticks = stop-fixed k ∙ (Ticks-fixed ticks ∙ start-fixed t)
