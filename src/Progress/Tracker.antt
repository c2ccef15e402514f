-- ===== src/Progress/Tracker.antt =====
-- `Tracker` of internal/progress/tracker.go and the goroutine that `Start` makes. A channel is its
-- number, in the order of their making; nothing is ever sent on one. `NewTicker` panics where the
-- interval is not positive.
pub mod Quiet
pub mod Ends
pub mod Fixed
mod Tests
use mathlib.Core.List.{Mem}
use victoriametrics_data_mig.Prelude.{
  ℕ, ◌+◌, ◌≡◌, Bool, true, false, List, [], ◌∷◌, ◌++◌, Text, if◌then◌else◌, ltb, ℤ, pos, negsuc,
}
use victoriametrics_data_mig.Scheduler.Calendar.{Time}

-- Where the goroutine is: before `NewTicker`, outside the `select` (it reads `t.stopCh` when it comes
-- there), or in the `select`, waiting on a channel.
pub data Ticker : Type 0 where
  starting looping : Ticker
  waiting : ℕ → Ticker

pub record Tracker : Type 0 where
  pub start_time : Time
  pub interval : ℤ
  pub total_ranges : ℕ
  pub current_range : ℕ
  pub current_range_str : Text
  pub channels : ℕ
  pub stop_ch : ℕ
  pub stopped : Bool
  pub closed : List ℕ
  pub tickers : List Ticker

unfoldable pub new_tracker : Time → ℤ → ℕ → Tracker
new_tracker now interval total_ranges = record {
  start_time = now;
  interval = interval;
  total_ranges = total_ranges;
  current_range = 0;
  current_range_str = [];
  channels = 1;
  stop_ch = 0;
  stopped = false;
  closed = [];
  tickers = [];
}

-- A new channel and a new `sync.Once`, and the goroutine.
unfoldable pub start : Tracker → Tracker
start t = record t {
  channels = t.channels + 1;
  stop_ch = t.channels;
  stopped = false;
  tickers = t.tickers ++ starting ∷ [];
}

-- `stopOnce` has run where `stopped` is true.
unfoldable pub stop : Tracker → Tracker
stop t = if t.stopped then t else record t { stopped = true; closed = t.stop_ch ∷ t.closed }

unfoldable pub set_current_range : ℕ → Text → Tracker → Tracker
set_current_range idx range_str t = record t { current_range = idx; current_range_str = range_str }

abbrev pub is_positive : ℤ → Bool
is_positive (pos n) = ltb 0 n
is_positive (negsuc n) = false

-- One move of one goroutine.
pub data Tick (t : Tracker) : Tracker → Type 0 where
  begins :
      (front back : List Ticker)
      → t.tickers ≡ front ++ starting ∷ back
      → is_positive t.interval ≡ true
      → Tick t (record t { tickers = front ++ looping ∷ back })
  selects :
      (front back : List Ticker)
      → t.tickers ≡ front ++ looping ∷ back
      → Tick t (record t { tickers = front ++ waiting t.stop_ch ∷ back })
  logs :
      (front back : List Ticker) (ch : ℕ)
      → t.tickers ≡ front ++ waiting ch ∷ back
      → Tick t (record t { tickers = front ++ looping ∷ back })
  returns :
      (front back : List Ticker) (ch : ℕ)
      → t.tickers ≡ front ++ waiting ch ∷ back
      → Mem ch t.closed
      → Tick t (record t { tickers = front ++ back })

pub data Ticks (t : Tracker) : Tracker → Type 0 where
  here : Ticks t t
  next : {u v : Tracker} → Ticks t u → Tick u v → Ticks t v
