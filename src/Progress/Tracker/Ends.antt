-- ===== src/Progress/Tracker/Ends.antt =====
-- The goroutines of internal/progress/tracker.go come to their ends after `Stop`.
use mathlib.Core.List.{Mem}
use victoriametrics_data_mig.Prelude.{
  true_not_false, ◌≡◌, refl, inl, inr, true, List, [], ◌∷◌, All, subst,
}
use victoriametrics_data_mig.Progress.Tracker.{
  Ticker, starting, looping, waiting, Tracker, begins, selects, returns, Ticks, here, next,
  is_positive,
}
use victoriametrics_data_mig.Progress.Tracker.Quiet.{IsHeard, IsQuiet}

Ticks-trans : {t u v : Tracker} → Ticks t u → Ticks u v → Ticks t v
Ticks-trans ts here = ts
Ticks-trans ts (next us k) = next (Ticks-trans ts us) k

abbrev with : Tracker → List Ticker → Tracker
with t ks = record t { tickers = ks }

-- The first goroutine ends, wherever it is.
one_ends :
    (t : Tracker) (k : Ticker) (ks : List Ticker)
    → is_positive t.interval ≡ true
    → Mem t.stop_ch t.closed
    → IsHeard t.stop_ch t.closed k
    → Ticks (with t (k ∷ ks)) (with t ks)
one_ends t (waiting ch) ks positive m (inl e) = next here (returns [] ks ch refl (rw e m))
one_ends t (waiting ch) ks positive m (inr closed) = next here (returns [] ks ch refl closed)
one_ends t looping ks positive m h =
    next (next here (selects [] ks refl)) (returns [] ks t.stop_ch refl m)
one_ends t starting ks positive m h =
    next (next (next here (begins [] ks refl positive)) (selects [] ks refl))
      (returns [] ks t.stop_ch refl m)

all_end :
    (t : Tracker) (ks : List Ticker)
    → is_positive t.interval ≡ true
    → Mem t.stop_ch t.closed
    → All (IsHeard t.stop_ch t.closed) ks
    → Ticks (with t ks) (with t [])
all_end t [] positive m h = here
all_end t (k ∷ ks) positive m (g, h) =
    Ticks-trans (one_ends t k ks positive m g) (all_end t ks positive m h)

-- Where the interval is positive and the current channel is closed, or no goroutine is left, the
-- goroutines can all end.
pub IsQuiet-ends :
    (t : Tracker) → is_positive t.interval ≡ true → IsQuiet t → Ticks t (record t { tickers = [] })
IsQuiet-ends t positive (h, inr none_there) = subst (λ ks. Ticks t (with t ks)) none_there here
IsQuiet-ends t positive (h, inl halted) = elim h.once [
  | inl (_, m) ↦ all_end t t.tickers positive m h.heard
  | inr (running, _) ↦ absurd (true_not_false halted running)
]
