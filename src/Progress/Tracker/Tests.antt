-- ===== src/Progress/Tracker/Tests.antt =====
-- A goroutine of internal/progress/tracker.go that is logging while `Stop` and the next `Start` are
-- called, so that it never sees the channel that was closed.
use victoriametrics_data_mig.Prelude.{refl, [], ◌∷◌, pos}
use victoriametrics_data_mig.Orchestrator.Execute.Tests.{noon}
use victoriametrics_data_mig.Progress.Tracker.{
  Tracker, Tick, Ticks, starting, looping, waiting, new_tracker, start, stop,
}

abbrev begun : Tracker
begun = start (new_tracker noon (pos 30_000_000_000) 2)

-- The goroutine of the first range is outside the `select`.
abbrev logging : Tracker
logging = record begun { tickers = looping ∷ [] }

logs : Ticks begun logging
unfolding start new_tracker
logs =
    Ticks.next
      (Ticks.next (Ticks.next Ticks.here (Tick.begins [] [] refl refl)) (Tick.selects [] [] refl))
      (Tick.logs [] [] 1 refl)

abbrev second : Tracker
second = start (stop logging)

-- In the second range it goes on beside the new one.
survives : Ticks second (record second { tickers = waiting 2 ∷ starting ∷ [] })
unfolding start stop new_tracker
survives = Ticks.next Ticks.here (Tick.selects [] (starting ∷ []) refl)
