-- ===== src/Worker/Pool/Busy.antt =====
-- Which workers are busy.
use mathlib.Core.List.{Mem, mem-cons, not-mem-nil}
use mathlib.Core.List.Perm
use mathlib.Core.Logic.Or
use mathlib.Core.HLevel.{⊥_prop}
use victoriametrics_data_mig.Prelude.{
  ℕ, suc, ◌+◌, ◌<◌, ◌≡◌, refl, ap, keep, not, ◌⊎◌, inl, inr, true, false, List, [], ◌∷◌, Perm, none,
  some, arith, ◌==◌, ==_iff, if◌then◌else◌, length, Bool-cases, Option-cases,
}
use victoriametrics_data_mig.Worker.Pool.{
  WorkerConn, acquire_from, release_from, idle_worker_count, worker_count, active_workers,
}

abbrev pub busy_from : ℕ → List WorkerConn → List ℕ
busy_from i [] = []
busy_from i (w ∷ ws) = if w.busy then i ∷ busy_from (suc i) ws else busy_from (suc i) ws

abbrev pub busy_workers : List WorkerConn → List ℕ
busy_workers ws = busy_from 0 ws

busy_from-ge : (i j : ℕ) (ws : List WorkerConn) → j < i → ¬ Mem j (busy_from i ws)
busy_from-ge i j [] h m = not-mem-nil m
busy_from-ge i j (w ∷ ws) h m = elim (Bool-cases w.busy) [
  | inl e ↦
      Or.elim ⊥_prop (mem-cons.0 (rw e at m)) (λ s. omega arith)
        (busy_from-ge (suc i) j ws (omega arith))
  | inr e ↦ busy_from-ge (suc i) j ws (omega arith) (rw e at m)
]

-- Either the first worker is idle and taken, or it is busy and one behind it is taken.
acquire_from_cases :
    (i j : ℕ) (w : WorkerConn) (ws vs : List WorkerConn)
    → acquire_from i (w ∷ ws) ≡ some (j, vs)
    → ((w.busy ≡ false) × (i ≡ j) × ((record w { busy = true } ∷ ws) ≡ vs))
      ⊎ ((us : List WorkerConn) × (w.busy ≡ true)
          × (acquire_from (suc i) ws ≡ some (j, us))
          × ((w ∷ us) ≡ vs))
unfolding acquire_from
acquire_from_cases i j w ws vs e = elim (Bool-cases w.busy) [
  | inl busy ↦ elim (Option-cases (acquire_from (suc i) ws)) [
    | inl n ↦ absurd (ground arith)
    | inr ((k, us), s) ↦ inr (us, busy, ground arith, ground arith)
  ]
  | inr idle ↦ inl (idle, ground arith, ground arith)
]

pub acquire_from_lem :
    (i j : ℕ) (ws vs : List WorkerConn)
    → acquire_from i ws ≡ some (j, vs)
    → Perm (busy_from i vs) (j ∷ busy_from i ws) × (length vs ≡ length ws)
acquire_from_lem i j [] vs e = unfold acquire_from in cc
acquire_from_lem i j (w ∷ ws) vs e = elim (acquire_from_cases i j w ws vs e) [
  | inl (idle, same, now) ↦ rw (← now, idle, same) (Perm.refl _, refl)
  | inr (us, busy, rest, now) ↦
      let (p, long) = acquire_from_lem (suc i) j ws us rest in
      rw (← now, busy) (Perm.trans (Perm.cons i p) (Perm.swap j i _), ap suc long)
]

-- No worker is acquired only if all are busy.
pub acquire_from-none :
    (i : ℕ) (ws : List WorkerConn) → acquire_from i ws ≡ none → length (busy_from i ws) ≡ length ws
unfolding acquire_from
acquire_from-none i [] e = refl
acquire_from-none i (w ∷ ws) e = ground (arith, acquire_from-none (suc i) ws)

not-mem-elsewhere :
    (i j : ℕ) (w : WorkerConn) (ws : List WorkerConn)
    → (i == j) ≡ false
    → ¬ Mem j (busy_from (suc i) ws)
    → ¬ Mem j (busy_from i (w ∷ ws))
not-mem-elsewhere i j w ws ne absent m = elim (Bool-cases w.busy) [
  | inl e ↦ Or.elim ⊥_prop (mem-cons.0 (rw e at m)) (λ s. ground arith) absent
  | inr e ↦ absent (rw e at m)
]

pub release_from_lem :
    (i j : ℕ) (ws : List WorkerConn)
    → Perm (busy_from i ws) (j ∷ busy_from i (release_from i j ws)) ⊎ (¬ Mem j (busy_from i ws))
release_from_lem i j [] = inr not-mem-nil
release_from_lem i j (w ∷ ws) = elim (Bool-cases (i == j)) [
  | inl here ↦ elim (Bool-cases w.busy) [
    | inl busy ↦ inl (unfold release_from in rw (here, busy, (==_iff i j).0 here) (Perm.refl _))
    | inr idle ↦ inr (rw idle (busy_from-ge (suc i) j ws (rw ((==_iff i j).0 here) (omega arith))))
  ]
  | inr behind ↦ elim (release_from_lem (suc i) j ws) [
    | inl p ↦ elim (Bool-cases w.busy) [
      | inl busy ↦
          inl (
            unfold release_from in rw (behind, busy) (Perm.trans (Perm.cons i p) (Perm.swap j i _)))
      | inr idle ↦ inl (unfold release_from in rw (behind, idle) p)
    ]
    | inr absent ↦ inr (not-mem-elsewhere i j w ws behind absent)
  ]
]

pub length-release_from :
    (i j : ℕ) (ws : List WorkerConn) → length (release_from i j ws) ≡ length ws
unfolding release_from
length-release_from i j [] = refl
length-release_from i j (w ∷ ws) = ground (arith, length-release_from (suc i) j ws)

busy_idle :
    (i : ℕ) (ws : List WorkerConn)
    → length (busy_from i ws) + length (keep (λ w. not w.busy) ws) ≡ length ws
busy_idle i [] = refl
busy_idle i (w ∷ ws) = elim (Bool-cases w.busy) [
  | inl busy ↦ rw busy (omega (arith, busy_idle (suc i) ws))
  | inr idle ↦ rw idle (omega (arith, busy_idle (suc i) ws))
]

-- The gauge counts the workers that are busy.
pub active_workers-busy : (ws : List WorkerConn) → active_workers ws ≡ length (busy_workers ws)
unfolding active_workers idle_worker_count worker_count
active_workers-busy ws = omega (arith, busy_idle 0 ws)
