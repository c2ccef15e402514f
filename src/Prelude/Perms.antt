-- ===== src/Prelude/Perms.antt =====
-- Rearrangements of lists.
use mathlib.Core.List.{
  List, [], ◌∷◌, ◌++◌, map, Perm, Permᴰ, Perm-prop, Mem, Nodup, Nodup-nil, Nodup-cons,
  mem-map_of_mem, mem-append_right, mem-cons_self, mem-cons_of_mem, Mem-prop, exists_of_mem-map,
  mem-cons, not-mem-nil,
}
use mathlib.Core.HLevel.{⊥_prop}
use mathlib.Core.Logic.Or
use mathlib.Core.List.Perm
use mathlib.Core.Logic.{inl, inr, ∥∥₁_elim}
use mathlib.Core.Bool.{Bool}
use native.Mathlib.Nat.{ℕ_set}
use Prim.Native.Nat.{ℕ, suc, ◌+◌}
use native.Mathlib.Omega.{arith}
use mathlib.Core.Path.{◌≡◌, refl, sym, ap, ◌∙◌, subst}
use victoriametrics_data_mig.Prelude.Tests.{Bool-cases}
use victoriametrics_data_mig.Prelude.Lists.{All, keep, length}

module _ {ℓ} {A : Type ℓ} (p : A → Bool) where
  keep_cons :
      (x : A) (xs ys : List A)
      → Perm (keep p xs) (keep p ys)
      → Perm (keep p (x ∷ xs)) (keep p (x ∷ ys))
  keep_cons x xs ys h = elim (Bool-cases (p x)) [ inl e ↦ rw e (Perm.cons x h) | inr e ↦ rw e h ]

  keep_swap : (x y : A) (xs : List A) → Perm (keep p (x ∷ y ∷ xs)) (keep p (y ∷ x ∷ xs))
  keep_swap x y xs = elim (Bool-cases (p x)) [
    | inl e ↦ elim (Bool-cases (p y)) [
      | inl f ↦ rw (e, f) (Perm.swap y x (keep p xs))
      | inr f ↦ rw (e, f) (Perm.refl _)
    ]
    | inr e ↦ rw e (Perm.refl _)
  ]

  keep_derived : {xs ys : List A} → Permᴰ xs ys → Perm (keep p xs) (keep p ys)
  keep_derived Permᴰ.nil = Perm.refl []
  keep_derived (Permᴰ.cons {a} {b} {l₁} {l₂} e d) =
      subst (λ c. Perm (keep p (a ∷ l₁)) (keep p (c ∷ l₂))) e (keep_cons a l₁ l₂ (keep_derived d))
  keep_derived (Permᴰ.swap {a} {b} {a'} {b'} {l} e f) =
      subst (λ c. Perm (keep p (a ∷ b ∷ l)) (keep p (c ∷ b' ∷ l))) f
        (subst (λ c. Perm (keep p (a ∷ b ∷ l)) (keep p (b ∷ c ∷ l))) e (keep_swap a b l))
  keep_derived (Permᴰ.trans d e) = Perm.trans (keep_derived d) (keep_derived e)

  -- Filtering keeps rearrangements.
  pub keep-perm : {xs ys : List A} → Perm xs ys → Perm (keep p xs) (keep p ys)
  keep-perm h = ∥∥₁_elim h Perm-prop keep_derived

module _ {ℓ} {A : Type ℓ} where
  length_derived : {xs ys : List A} → Permᴰ xs ys → length xs ≡ length ys
  length_derived Permᴰ.nil = refl
  length_derived (Permᴰ.cons e d) = ap suc (length_derived d)
  length_derived (Permᴰ.swap e f) = refl
  length_derived (Permᴰ.trans d e) = length_derived d ∙ length_derived e

  pub length-perm : {xs ys : List A} → Perm xs ys → length xs ≡ length ys
  length-perm h = ∥∥₁_elim h (ℕ_set _ _) length_derived

-- The parts of a list without repetition.
module _ {ℓ} {A : Type ℓ} where
  pub Nodup-suffix :
      (xs ys : List A) → Nodup (xs ++ ys) → Nodup ys × ((a : A) → Mem a xs → ¬ Mem a ys)
  Nodup-suffix [] ys h = (h, λ a m. absurd (not-mem-nil m))
  Nodup-suffix (x ∷ xs) ys h =
      let (missing, rest) = Nodup-cons.0 h in
      let (distinct, apart) = Nodup-suffix xs ys rest in
      (
        distinct,
        λ a m k.
            Or.elim ⊥_prop (mem-cons.0 m) (λ e. missing (mem-append_right xs (rw e at k)))
              (λ m'. apart a m' k),
      )

  pub mem-suffix : (xs ys : List A) (a : A) → Mem a (xs ++ ys) → ¬ Mem a xs → Mem a ys
  mem-suffix [] ys a m out = m
  mem-suffix (x ∷ xs) ys a m out =
      Or.elim Mem-prop (mem-cons.0 m) (λ e. absurd (out (rw e mem-cons_self)))
        (λ m'. mem-suffix xs ys a m' (λ k. out (mem-cons_of_mem x k)))

-- Lists without repetition, under a map.
module _ {ℓ κ} {A : Type ℓ} {B : Type κ} (f : A → B) where
  pub Nodup-of_map : (xs : List A) → Nodup (map f xs) → Nodup xs
  Nodup-of_map [] h = Nodup-nil
  Nodup-of_map (x ∷ xs) h =
      let (absent, rest) = Nodup-cons.0 h in
      Nodup-cons.1 ((λ m. absent (mem-map_of_mem f m)), Nodup-of_map xs rest)

  pub Nodup-map : ((a b : A) → f a ≡ f b → a ≡ b) → (xs : List A) → Nodup xs → Nodup (map f xs)
  Nodup-map injective [] h = Nodup-nil
  Nodup-map injective (x ∷ xs) h =
      let (absent, rest) = Nodup-cons.0 h in
      Nodup-cons.1 (
        (λ m.
            ∥∥₁_elim (exists_of_mem-map m) ⊥_prop
              λ (a, there, e). absent (subst (λ y. Mem y xs) (injective a x e) there)),
        Nodup-map injective xs rest,
      )

-- A property of all elements is one of each element, where it is a proposition.
pub All-mem {ℓ κ} :
    {A : Type ℓ} {P : A → Type κ} (is_prop : (a : A) → IsProp (P a)) (xs : List A)
    → All P xs
    → (a : A) → Mem a xs
    → P a
All-mem {P} is_prop [] h a m = absurd (not-mem-nil m)
All-mem {P} is_prop (x ∷ xs) (p, h) a m =
    Or.elim (is_prop a) (mem-cons.0 m) (λ e. subst P (sym e) p) (All-mem is_prop xs h a)

-- The sum of a measure over a list does not depend on its order.
module _ {ℓ} {A : Type ℓ} (f : A → ℕ) where
  abbrev pub sum_of : List A → ℕ
  sum_of [] = 0
  sum_of (x ∷ xs) = f x + sum_of xs

  sum_derived : {xs ys : List A} → Permᴰ xs ys → sum_of xs ≡ sum_of ys
  sum_derived Permᴰ.nil = refl
  sum_derived (Permᴰ.cons e d) = omega (arith, ap f e, sum_derived d)
  sum_derived (Permᴰ.swap e g) = omega (arith, ap f e, ap f g)
  sum_derived (Permᴰ.trans d e) = sum_derived d ∙ sum_derived e

  pub sum_of-perm : {xs ys : List A} → Perm xs ys → sum_of xs ≡ sum_of ys
  sum_of-perm h = ∥∥₁_elim h (ℕ_set _ _) sum_derived

  pub sum_of-append : (xs ys : List A) → sum_of (xs ++ ys) ≡ sum_of xs + sum_of ys
  sum_of-append [] ys = omega arith
  sum_of-append (x ∷ xs) ys = omega (arith, sum_of-append xs ys)
