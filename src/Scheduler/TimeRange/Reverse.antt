-- ===== src/Scheduler/TimeRange/Reverse.antt =====
-- The swaps in place reverse the list.
use mathlib.Core.List.{reverse, reverse-append, reverse-cons}
use victoriametrics_data_mig.Prelude.{
  ℕ, zero, suc, ◌+◌, ◌-◌, ◌≤◌, ◌≡◌, refl, ap, ◌<◌, inl, inr, List, [], ◌∷◌, ◌++◌, append-nil,
  append_assoc, arith, length, length-append, get_elem?, set, some, get_elem?-append, set-append,
  snoc_cases,
}
use victoriametrics_data_mig.Scheduler.TimeRange.{TimeRange, swap, reverse_loop, reverse_ranges}

-- The second of two marked places, `j`, seen from the front.
module _ {ℓ} {A : Type ℓ} (pre m post : List A) (x y : A) (j : ℕ)
    (hj : j ≡ length pre + 1 + length m) where
  outer : length (pre ++ x ∷ m) ≡ length pre + 1 + length m
  outer = omega (arith, length-append pre (x ∷ m))

  get_second : get_elem? (pre ++ x ∷ (m ++ y ∷ post)) j ≡ some y
  get_second = rw append_assoc at (get_elem?-append (pre ++ x ∷ m) y post j (omega (arith, outer)))

  set_second : (v : A) → set (pre ++ x ∷ (m ++ y ∷ post)) j v ≡ pre ++ x ∷ (m ++ v ∷ post)
  set_second v = simp append_assoc at (set-append (pre ++ x ∷ m) y v post j (omega (arith, outer)))

-- One swap of the two ends of the part between `pre` and `post`.
swap_ends :
    (pre m post : List TimeRange) (x y : TimeRange) (i j : ℕ)
    → i ≡ length pre
    → j ≡ length pre + 1 + length m
    → swap (pre ++ x ∷ (m ++ y ∷ post)) i j ≡ pre ++ y ∷ (m ++ x ∷ post)
unfolding swap
swap_ends pre m post x y i j hi hj =
    rw (get_elem?-append pre x (m ++ y ∷ post) i hi, swap)
      (rw (get_second pre m post x y j hj, swap)
        (rw (set-append pre x y (m ++ y ∷ post) i hi) (set_second pre m post y y j hj x)))

reverse_loop_step :
    (fuel : ℕ) (ranges : List TimeRange) (i j : ℕ)
    → i < j
    → reverse_loop (suc fuel) ranges i j ≡ reverse_loop fuel (swap ranges i j) (i + 1) (j - 1)
unfolding reverse_loop
reverse_loop_step fuel ranges i j h = ground arith

reverse_loop_lem :
    (fuel : ℕ) (pre mid post : List TimeRange) (i j : ℕ)
    → length mid ≤ fuel
    → i ≡ length pre
    → j ≡ i + length mid - 1
    → reverse_loop fuel (pre ++ (mid ++ post)) i j ≡ pre ++ (reverse mid ++ post)
unfolding reverse_loop
reverse_loop_lem zero pre [] post i j fits hi hj = refl
reverse_loop_lem zero pre (x ∷ mid) post i j fits hi hj = absurd (omega arith)
reverse_loop_lem (suc fuel) pre [] post i j fits hi hj = ground arith
reverse_loop_lem (suc fuel) pre (x ∷ mid) post i j fits hi hj = elim (snoc_cases mid) [
  | inl e ↦ rw e (ground (arith, ap length e))
  | inr (m, y, e) ↦
      let long = length-append m (y ∷ []) in
      let size = ap length e in
      let inner =
        reverse_loop_lem fuel (pre ++ y ∷ []) m (x ∷ post) (i + 1) (j - 1)
          (omega (arith, long, size)) (omega (arith, length-append pre (y ∷ [])))
          (omega (arith, long, size)) in
      rw (reverse_loop_step fuel _ i j (omega (arith, long, size)), e, reverse-cons)
        (simp append_assoc (
          rw (swap_ends pre m post x y i j hi (omega (arith, long, size)))
            (simp (append_assoc, reverse-append) (simp append_assoc at inner))))
]

-- The loop that swaps entries from both ends inward reverses any list of ranges, of even or odd
-- length.
pub reverse_ranges-reverse : (ranges : List TimeRange) → reverse_ranges ranges ≡ reverse ranges
unfolding reverse_ranges
reverse_ranges-reverse ranges = simp append-nil at (
    reverse_loop_lem (length ranges) [] ranges [] 0 (length ranges - 1) (omega arith) refl
      (omega arith))
