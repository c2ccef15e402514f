-- ===== src/Prelude/Lists.antt =====
-- Lists measured and indexed by native numbers, under the library's names.
use Prim.Native.Nat.{ℕ, zero, suc, ◌+◌}
use mathlib.Core.Path.{◌≡◌, refl, ap}
use mathlib.Core.List.{List, [], ◌∷◌, ◌++◌}
use mathlib.Core.Option.{Option, none, some}
use mathlib.Core.Bool.{Bool, true, false}
use mathlib.Core.Logic.{◌⊎◌, inl, inr}
use native.Mathlib.Omega.{arith}
use victoriametrics_data_mig.Prelude.Tests.{if◌then◌else◌, Bool-cases}

module _ {ℓ} {A : Type ℓ} where
  abbrev pub length : List A → ℕ
  length [] = 0
  length (x ∷ xs) = suc (length xs)

  abbrev pub get_elem? : List A → ℕ → Option A
  get_elem? [] i = none
  get_elem? (x ∷ xs) zero = some x
  get_elem? (x ∷ xs) (suc i) = get_elem? xs i

  -- A write out of bounds changes nothing.
  abbrev pub set : List A → ℕ → A → List A
  set [] i v = []
  set (x ∷ xs) zero v = v ∷ xs
  set (x ∷ xs) (suc i) v = x ∷ set xs i v

  -- The elements that pass a Boolean test, in order.
  abbrev pub keep : (A → Bool) → List A → List A
  keep p [] = []
  keep p (x ∷ xs) = if p x then x ∷ keep p xs else keep p xs

  pub length-append : (xs ys : List A) → length (xs ++ ys) ≡ length xs + length ys
  length-append [] ys = omega arith
  length-append (x ∷ xs) ys = omega (arith, length-append xs ys)

  pub length-set : (xs : List A) (i : ℕ) (v : A) → length (set xs i v) ≡ length xs
  length-set [] i v = refl
  length-set (x ∷ xs) zero v = refl
  length-set (x ∷ xs) (suc i) v = ap suc (length-set xs i v)

-- A predicate of every element, by recursion: it computes to tuples, which the tactics read.
module _ {ℓ κ} {A : Type ℓ} (P : A → Type κ) where
  abbrev pub All : List A → Type κ
  All [] = Unit
  All (x ∷ xs) = P x × All xs

  pub All-append : (xs ys : List A) → All xs → All ys → All (xs ++ ys)
  All-append [] ys _ hy = hy
  All-append (x ∷ xs) ys (px, hx) hy = (px, All-append xs ys hx hy)

pub All-map {ℓ κ μ} :
    {A : Type ℓ} {P : A → Type κ} {Q : A → Type μ} (f : (a : A) → P a → Q a) (xs : List A)
    → All P xs
    → All Q xs
All-map f [] h = tt
All-map f (x ∷ xs) (p, h) = (f x p, All-map f xs h)

-- Reads and writes at the end of a prefix.
module _ {ℓ} {A : Type ℓ} where
  pub get_elem?-append :
      (pre : List A) (x : A) (r : List A) (i : ℕ)
      → i ≡ length pre
      → get_elem? (pre ++ x ∷ r) i ≡ some x
  get_elem?-append [] x r zero h = refl
  get_elem?-append [] x r (suc i) h = absurd (omega arith)
  get_elem?-append (p ∷ pre) x r zero h = absurd (omega arith)
  get_elem?-append (p ∷ pre) x r (suc i) h = get_elem?-append pre x r i (omega arith)

  pub set-append :
      (pre : List A) (x v : A) (r : List A) (i : ℕ)
      → i ≡ length pre
      → set (pre ++ x ∷ r) i v ≡ pre ++ v ∷ r
  set-append [] x v r zero h = refl
  set-append [] x v r (suc i) h = absurd (omega arith)
  set-append (p ∷ pre) x v r zero h = absurd (omega arith)
  set-append (p ∷ pre) x v r (suc i) h = ap (◌∷◌ p) (set-append pre x v r i (omega arith))

  -- A list is empty, or has a last element.
  pub snoc_cases : (xs : List A) → (xs ≡ []) ⊎ ((m : List A) × (y : A) × (xs ≡ m ++ y ∷ []))
  snoc_cases [] = inl refl
  snoc_cases (x ∷ xs) = inr (elim (snoc_cases xs) [
    | inl e ↦ ([], x, ap (◌∷◌ x) e)
    | inr (m, y, e) ↦ (x ∷ m, y, ap (◌∷◌ x) e)
  ])

module _ {ℓ} {A : Type ℓ} (p : A → Bool) where
  pub keep_everything : (xs : List A) → All (λ x. p x ≡ true) xs → keep p xs ≡ xs
  keep_everything [] h = refl
  keep_everything (x ∷ xs) (px, h) = rw px (ap (◌∷◌ x) (keep_everything xs h))

  pub keep_none : (xs : List A) → All (λ x. p x ≡ false) xs → keep p xs ≡ []
  keep_none [] h = refl
  keep_none (x ∷ xs) (px, h) = rw px (keep_none xs h)

  pub keep-append : (xs ys : List A) → keep p (xs ++ ys) ≡ keep p xs ++ keep p ys
  keep-append [] ys = refl
  keep-append (x ∷ xs) ys = elim (Bool-cases (p x)) [
    | inl e ↦ rw e (ap (◌∷◌ x) (keep-append xs ys))
    | inr e ↦ rw e (keep-append xs ys)
  ]

pub nil_cases {ℓ} : {A : Type ℓ} (xs : List A) → (xs ≡ []) ⊎ ¬ xs ≡ []
nil_cases [] = inl refl
nil_cases (x ∷ xs) = inr (λ e. cc)
