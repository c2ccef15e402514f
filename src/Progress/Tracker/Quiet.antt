-- ===== src/Progress/Tracker/Quiet.antt =====
-- The channels and the goroutines of internal/progress/tracker.go between and after the calls of
-- `Start` and `Stop`.
use mathlib.Core.List.{
  Mem, Nodup, Nodup-nil, Nodup-cons, mem-cons, mem-cons_self, mem-cons_of_mem, not-mem-nil,
}
use mathlib.Core.Logic.Or
use native.Mathlib.Bridge.{le_prop}
use victoriametrics_data_mig.Prelude.{
  sym, ◌∙◌, true_not_false, ℕ, ◌<◌, ◌≡◌, refl, ◌⊎◌, inl, inr, true, false, List, [], ◌∷◌, ◌++◌,
  arith, All, All-append, All-map, Text, ℤ,
}
use victoriametrics_data_mig.Scheduler.Calendar.{Time}
use victoriametrics_data_mig.Progress.Tracker.{
  Ticker, starting, looping, waiting, Tracker, new_tracker, start, stop, set_current_range, Tick,
  begins, selects, logs, returns, Ticks, here, next,
}

-- A goroutine that waits on a channel waits on the current one, or on one that is closed.
abbrev pub IsHeard : ℕ → List ℕ → Ticker → Type 0
IsHeard stop_ch closed (waiting ch) = (ch ≡ stop_ch) ⊎ Mem ch closed
IsHeard stop_ch closed starting = Unit
IsHeard stop_ch closed looping = Unit

-- No channel is closed twice, which would panic, and `stopOnce` has run exactly where the current one
-- is closed.
pub record IsTracker (t : Tracker) : Type 0 where
  pub current : t.stop_ch < t.channels
  pub made : All (λ ch. ch < t.channels) t.closed
  pub distinct : Nodup t.closed
  pub once :
      (t.stopped ≡ true × Mem t.stop_ch t.closed) ⊎ (t.stopped ≡ false × ¬ Mem t.stop_ch t.closed)
  pub heard : All (IsHeard t.stop_ch t.closed) t.tickers

-- The current channel is closed, or there is no goroutine that could wait on it.
abbrev pub IsQuiet : Tracker → Type 0
IsQuiet t = IsTracker t × ((t.stopped ≡ true) ⊎ (t.tickers ≡ []))

below_channels : (n ch : ℕ) (chs : List ℕ) → All (λ c. c < n) chs → Mem ch chs → ch < n
below_channels n ch [] h m = absurd (not-mem-nil m)
below_channels n ch (c ∷ chs) (low, h) m =
    Or.elim le_prop (mem-cons.0 m) (λ e. rw e low) (below_channels n ch chs h)

unheard_current :
    (stop_ch : ℕ) (closed : List ℕ) (k : Ticker)
    → Mem stop_ch closed
    → IsHeard stop_ch closed k
    → (ch : ℕ) → IsHeard ch closed k
unheard_current stop_ch closed (waiting c) m (inl e) ch = inr (rw e m)
unheard_current stop_ch closed (waiting c) m (inr h) ch = inr h
unheard_current stop_ch closed starting m h ch = tt
unheard_current stop_ch closed looping m h ch = tt

pub new_tracker-IsQuiet :
    (now : Time) (interval : ℤ) (total_ranges : ℕ) → IsQuiet (new_tracker now interval total_ranges)
unfolding new_tracker
new_tracker-IsQuiet now interval total_ranges = (
  record {
    current = omega arith;
    made = tt;
    distinct = Nodup-nil;
    once = inr (refl, not-mem-nil);
    heard = tt;
  },
  inr refl,
)

-- Where every goroutine can still hear of a stop, `Start` leaves them so.
start-IsHeard : (t : Tracker) → IsQuiet t → All (IsHeard t.channels t.closed) t.tickers
start-IsHeard t (h, inl halted) = elim h.once [
  | inl (_, m) ↦
      All-map (λ k g. unheard_current t.stop_ch t.closed k m g t.channels) t.tickers h.heard
  | inr (running, _) ↦ absurd (true_not_false halted running)
]
start-IsHeard t (h, inr none_there) = rw none_there tt

pub start-IsTracker : (t : Tracker) → IsQuiet t → IsTracker (start t)
unfolding start
start-IsTracker t (h, quiet) = record {
  current = omega arith;
  made = All-map (λ ch low. omega arith) t.closed h.made;
  distinct = h.distinct;
  once = inr (refl, λ m. omega (arith, below_channels t.channels t.channels t.closed h.made m));
  heard =
      All-append (IsHeard t.channels t.closed) t.tickers (starting ∷ [])
        (start-IsHeard t (h, quiet)) (tt, tt);
}

later_closed :
    (stop_ch : ℕ) (closed : List ℕ) (ch : ℕ) (k : Ticker)
    → IsHeard stop_ch closed k
    → IsHeard stop_ch (ch ∷ closed) k
later_closed stop_ch closed ch (waiting c) (inl e) = inl e
later_closed stop_ch closed ch (waiting c) (inr m) = inr (mem-cons_of_mem ch m)
later_closed stop_ch closed ch starting h = tt
later_closed stop_ch closed ch looping h = tt

stop_again : (t : Tracker) → t.stopped ≡ true → stop t ≡ t
unfolding stop
stop_again t halted = ground arith

stop_once :
    (t : Tracker)
    → t.stopped ≡ false
    → stop t ≡ record t { stopped = true; closed = t.stop_ch ∷ t.closed }
unfolding stop
stop_once t running = ground arith

-- After `Stop` the current channel is closed, however often it is called.
pub stop-IsQuiet : (t : Tracker) → IsTracker t → IsQuiet (stop t) × ((stop t).stopped ≡ true)
stop-IsQuiet t h = elim h.once [
  | inl (halted, m) ↦ rw (stop_again t halted) ((h, inl halted), halted)
  | inr (running, not_closed) ↦ rw (stop_once t running) (
    (
      record {
        current = h.current;
        made = (h.current, h.made);
        distinct = Nodup-cons.1 (not_closed, h.distinct);
        once = inl (refl, mem-cons_self);
        heard = All-map (later_closed t.stop_ch t.closed t.stop_ch) t.tickers h.heard;
      },
      inl refl,
    ),
    refl,
  )
]

pub set_current_range-IsQuiet :
    (idx : ℕ) (range_str : Text) (t : Tracker)
    → IsQuiet t
    → IsQuiet (set_current_range idx range_str t)
unfolding set_current_range
set_current_range-IsQuiet idx range_str t (h, quiet) = (
  record {
    current = h.current;
    made = h.made;
    distinct = h.distinct;
    once = h.once;
    heard = h.heard;
  },
  quiet,
)

-- The goroutines move: those in front of and behind the one that does stay as they are.
replace {ℓ κ} :
    {A : Type ℓ} (P : A → Type κ) (front back : List A) (a b : A)
    → P b
    → All P (front ++ a ∷ back)
    → All P (front ++ b ∷ back)
replace P [] back a b p (_, h) = (p, h)
replace P (x ∷ front) back a b p (px, h) = (px, replace P front back a b p h)

remove {ℓ κ} :
    {A : Type ℓ} (P : A → Type κ) (front back : List A) (a : A)
    → All P (front ++ a ∷ back)
    → All P (front ++ back)
remove P [] back a (_, h) = h
remove P (x ∷ front) back a (px, h) = (px, remove P front back a h)

with_tickers :
    (t : Tracker) (ks : List Ticker)
    → IsTracker t
    → All (IsHeard t.stop_ch t.closed) ks
    → IsTracker (record t { tickers = ks })
with_tickers t ks h heard = record {
  current = h.current;
  made = h.made;
  distinct = h.distinct;
  once = h.once;
  heard = heard;
}

Tick-IsTracker : {t u : Tracker} → Tick t u → IsTracker t → IsTracker u
Tick-IsTracker {t} (begins front back e positive) h =
    with_tickers t _ h
      (replace (IsHeard t.stop_ch t.closed) front back starting looping tt (rw e at h.heard))
Tick-IsTracker {t} (selects front back e) h = with_tickers t _ h (
    replace (IsHeard t.stop_ch t.closed) front back looping (waiting t.stop_ch) (inl refl)
      (rw e at h.heard))
Tick-IsTracker {t} (logs front back ch e) h =
    with_tickers t _ h
      (replace (IsHeard t.stop_ch t.closed) front back (waiting ch) looping tt (rw e at h.heard))
Tick-IsTracker {t} (returns front back ch e m) h =
    with_tickers t _ h
      (remove (IsHeard t.stop_ch t.closed) front back (waiting ch) (rw e at h.heard))

pub Ticks-IsTracker : {t u : Tracker} → Ticks t u → IsTracker t → IsTracker u
Ticks-IsTracker here h = h
Ticks-IsTracker (next ts k) h = Tick-IsTracker k (Ticks-IsTracker ts h)

none_empty : (front back : List Ticker) (k : Ticker) → ¬ (front ++ k ∷ back ≡ [])
none_empty [] back k e = cc
none_empty (j ∷ front) back k e = cc

Tick-IsQuiet : {t u : Tracker} → Tick t u → IsQuiet t → IsQuiet u
Tick-IsQuiet st (h, inl halted) = (Tick-IsTracker st h, inl (Tick-stopped st ∙ halted))
  where
    Tick-stopped : {t u : Tracker} → Tick t u → u.stopped ≡ t.stopped
    Tick-stopped (begins front back e positive) = refl
    Tick-stopped (selects front back e) = refl
    Tick-stopped (logs front back ch e) = refl
    Tick-stopped (returns front back ch e m) = refl
Tick-IsQuiet (begins front back e positive) (h, inr empty) =
    absurd (none_empty front back starting (sym e ∙ empty))
Tick-IsQuiet (selects front back e) (h, inr empty) =
    absurd (none_empty front back looping (sym e ∙ empty))
Tick-IsQuiet (logs front back ch e) (h, inr empty) =
    absurd (none_empty front back (waiting ch) (sym e ∙ empty))
Tick-IsQuiet (returns front back ch e m) (h, inr empty) =
    absurd (none_empty front back (waiting ch) (sym e ∙ empty))

-- The goroutines may also move after `Stop`.
pub Ticks-IsQuiet : {t u : Tracker} → Ticks t u → IsQuiet t → IsQuiet u
Ticks-IsQuiet here h = h
Ticks-IsQuiet (next ts k) h = Tick-IsQuiet k (Ticks-IsQuiet ts h)
