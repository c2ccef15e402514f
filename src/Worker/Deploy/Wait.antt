-- ===== src/Worker/Deploy/Wait.antt =====
-- `waitForWorkers` of internal/worker/manager.go.
use victoriametrics_data_mig.Prelude.{
  some_not_none, ◌≡◌, refl, inl, inr, ◌↔◌, true, false, List, [], ◌∷◌, ◌++◌, none, Bool-cases, All,
  ℤ, ap,
}
use victoriametrics_data_mig.Worker.Deploy.{
  Poll, cancelled, check_failed, ready_replicas, int_leb, wait_for_workers,
}

-- A round that does not end the wait.
abbrev pub IsIdle : ℤ → Poll → Type 0
IsIdle desired (cancelled e) = ⊥
IsIdle desired (check_failed e) = Unit
IsIdle desired (ready_replicas n) = int_leb desired n ≡ false

-- Some round before the deadline sees as many replicas as are wanted, and none before it is
-- cancelled or does.
abbrev pub IsReadyIn : ℤ → List Poll → Type 0
IsReadyIn desired polls =
    (front : List Poll) × (n : ℤ) × (back : List Poll) × (polls ≡ front ++ ready_replicas n ∷ back)
    × All (IsIdle desired) front
    × (int_leb desired n ≡ true)

IsReadyIn-later :
    (desired : ℤ) (p : Poll) (polls : List Poll)
    → IsIdle desired p
    → IsReadyIn desired polls
    → IsReadyIn desired (p ∷ polls)
IsReadyIn-later desired p polls idle (front, n, back, e, idles, ready) =
    (p ∷ front, n, back, ap (λ l. p ∷ l) e, (idle, idles), ready)

returns_ready :
    (desired : ℤ) (polls : List Poll)
    → wait_for_workers desired polls ≡ none
    → IsReadyIn desired polls
unfolding wait_for_workers
returns_ready desired [] h = absurd (some_not_none _ h)
returns_ready desired (cancelled e ∷ polls) h = absurd (some_not_none e h)
returns_ready desired (check_failed e ∷ polls) h =
    IsReadyIn-later desired (check_failed e) polls tt (returns_ready desired polls h)
returns_ready desired (ready_replicas n ∷ polls) h = elim (Bool-cases (int_leb desired n)) [
  | inl enough ↦ ([], n, polls, refl, tt, enough)
  | inr few ↦
      IsReadyIn-later desired (ready_replicas n) polls few
        (returns_ready desired polls (rw few at h))
]

ready_returns :
    (desired n : ℤ) (front back : List Poll)
    → All (IsIdle desired) front
    → int_leb desired n ≡ true
    → wait_for_workers desired (front ++ ready_replicas n ∷ back) ≡ none
unfolding wait_for_workers
ready_returns desired n [] back idle ready = rw ready refl
ready_returns desired n (cancelled e ∷ front) back (idle, idles) ready = elim idle [ ]
ready_returns desired n (check_failed e ∷ front) back (idle, idles) ready =
    ready_returns desired n front back idles ready
ready_returns desired n (ready_replicas m ∷ front) back (idle, idles) ready =
    rw idle (ready_returns desired n front back idles ready)

-- The wait ends without an error exactly where some round before the deadline sees as many ready
-- replicas as are wanted and no earlier round is cancelled; rounds whose check fails are skipped.
pub wait_for_workers_iff :
    (desired : ℤ) (polls : List Poll)
    → (wait_for_workers desired polls ≡ none) ↔ IsReadyIn desired polls
wait_for_workers_iff desired polls = (
  returns_ready desired polls,
  λ (front, n, back, e, idles, ready). rw e (ready_returns desired n front back idles ready),
)
