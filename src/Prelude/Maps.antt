-- ===== src/Prelude/Maps.antt =====
-- Go's maps with text keys, as association lists with one entry for a key.
use mathlib.Core.List.{List, [], ◌∷◌, Perm, Mem, Mem-prop, mem-cons, not-mem-nil}
use mathlib.Core.Logic.Or
use mathlib.Core.List.Perm
use mathlib.Core.Bool.{true, false}
use Prim.Native.Nat.{suc}
use mathlib.Core.Option.{Option, none, some}
use mathlib.Core.Path.{◌≡◌, refl, sym, ap, subst}
use mathlib.Core.Logic.{inl, inr}
use native.Mathlib.Omega.{arith}
use victoriametrics_data_mig.Prelude.Tests.{Bool-cases, if◌then◌else◌}
use victoriametrics_data_mig.Prelude.Lists.{All, length}
use victoriametrics_data_mig.Prelude.Strings.{Text, text_eq, text_eq_iff, text_eq_refl}

abbrev pub Map {ℓ} : Type ℓ → Type ℓ
Map V = List (Text × V)

module _ {ℓ} {V : Type ℓ} where
  abbrev pub lookup : Text → Map V → Option V
  lookup k [] = none
  lookup k ((j, v) ∷ m) = if text_eq j k then some v else lookup k m

  abbrev pub delete : Text → Map V → Map V
  delete k [] = []
  delete k ((j, v) ∷ m) = if text_eq j k then delete k m else (j, v) ∷ delete k m

  abbrev pub insert : Text → V → Map V → Map V
  insert k v m = (k, v) ∷ delete k m

  abbrev pub values : Map V → List V
  values [] = []
  values ((k, v) ∷ m) = v ∷ values m

  abbrev pub keys : Map V → List Text
  keys [] = []
  keys ((k, v) ∷ m) = k ∷ keys m

  pub length-values : (m : Map V) → length (values m) ≡ length m
  length-values [] = refl
  length-values ((k, v) ∷ m) = ap suc (length-values m)

  abbrev pub HasDistinctKeys : Map V → Type ℓ
  HasDistinctKeys [] = Unit
  HasDistinctKeys ((k, v) ∷ m) = (lookup k m ≡ none) × HasDistinctKeys m

  pub delete_absent : (k : Text) (m : Map V) → lookup k m ≡ none → delete k m ≡ m
  delete_absent k [] h = refl
  delete_absent k ((j, v) ∷ m) h = elim (Bool-cases (text_eq j k)) [
    | inl same ↦ absurd (clash (rw same at h))
    | inr other ↦ rw other (ap (◌∷◌ (j, v)) (delete_absent k m (rw other at h)))
  ]
    where
      clash : ◌≡◌ {A = Option V} (some v) none → ⊥
      clash e = cc

  pub lookup-delete_self : (k : Text) (m : Map V) → lookup k (delete k m) ≡ none
  lookup-delete_self k [] = refl
  lookup-delete_self k ((j, v) ∷ m) = elim (Bool-cases (text_eq j k)) [
    | inl same ↦ rw same (lookup-delete_self k m)
    | inr other ↦ rw other (rw other (lookup-delete_self k m))
  ]

  pub lookup-delete_absent :
      (j k : Text) (m : Map V) → lookup j m ≡ none → lookup j (delete k m) ≡ none
  lookup-delete_absent j k [] h = refl
  lookup-delete_absent j k ((i, v) ∷ m) h = ground (arith, lookup-delete_absent j k m)

  pub lookup-insert_self : (k : Text) (v : V) (m : Map V) → lookup k (insert k v m) ≡ some v
  lookup-insert_self k v m = rw (text_eq_refl k) refl

  pub lookup-delete_other :
      (j k : Text) (m : Map V) → text_eq k j ≡ false → lookup j (delete k m) ≡ lookup j m
  lookup-delete_other j k [] h = refl
  lookup-delete_other j k ((i, v) ∷ m) h = elim (Bool-cases (text_eq i k)) [
    | inl same ↦
        rw same
          (rw (ap (λ x. text_eq x j) ((text_eq_iff i k).0 same), h) (lookup-delete_other j k m h))
    | inr other ↦ rw other (ground (arith, lookup-delete_other j k m h))
  ]

  pub lookup-insert_other :
      (j k : Text) (v : V) (m : Map V) → text_eq k j ≡ false → lookup j (insert k v m) ≡ lookup j m
  lookup-insert_other j k v m h = rw h (lookup-delete_other j k m h)

  pub delete-HasDistinctKeys :
      (k : Text) (m : Map V) → HasDistinctKeys m → HasDistinctKeys (delete k m)
  delete-HasDistinctKeys k [] h = tt
  delete-HasDistinctKeys k ((j, v) ∷ m) (fresh, h) = elim (Bool-cases (text_eq j k)) [
    | inl same ↦ rw same (delete-HasDistinctKeys k m h)
    | inr other ↦ rw other (lookup-delete_absent j k m fresh, delete-HasDistinctKeys k m h)
  ]

  pub lookup_hit :
      (j k : Text) (w v : V) (m : Map V)
      → text_eq j k ≡ true
      → lookup k ((j, w) ∷ m) ≡ some v
      → w ≡ v
  lookup_hit j k w v m same e = ground arith

  -- The entry of a key is the only one.
  pub values-delete-perm :
      (k : Text) (v : V) (m : Map V)
      → HasDistinctKeys m
      → lookup k m ≡ some v
      → Perm (values m) (v ∷ values (delete k m))
  values-delete-perm k v [] h e = cc
  values-delete-perm k v ((j, w) ∷ m) (fresh, h) e = elim (Bool-cases (text_eq j k)) [
    | inl same ↦
        rw (same, delete_absent k m (rw ((text_eq_iff j k).0 same) at fresh))
          (rw (lookup_hit j k w v m same e) (Perm.refl (v ∷ values m)))
    | inr other ↦
        rw other
          (Perm.trans (Perm.cons w (values-delete-perm k v m h (rw other at e))) (Perm.swap v w _))
  ]

module _ {ℓ} {V : Type ℓ} where
  pub keys-delete-perm :
      (k : Text) (v : V) (m : Map V)
      → HasDistinctKeys m
      → lookup k m ≡ some v
      → Perm (keys m) (k ∷ keys (delete k m))
  keys-delete-perm k v [] h e = cc
  keys-delete-perm k v ((j, w) ∷ m) (fresh, h) e = elim (Bool-cases (text_eq j k)) [
    | inl same ↦
        rw (same, delete_absent k m (rw ((text_eq_iff j k).0 same) at fresh))
          (rw ((text_eq_iff j k).0 same) (Perm.refl (k ∷ keys m)))
    | inr other ↦
        rw other
          (Perm.trans (Perm.cons j (keys-delete-perm k v m h (rw other at e))) (Perm.swap k j _))
  ]

  -- A key has an entry.
  pub lookup_of_mem-keys : (k : Text) (m : Map V) → Mem k (keys m) → (v : V) × (lookup k m ≡ some v)
  lookup_of_mem-keys k [] h = absurd (not-mem-nil h)
  lookup_of_mem-keys k ((j, w) ∷ m) h = elim (Bool-cases (text_eq j k)) [
    | inl same ↦ (w, rw same)
    | inr other ↦
        let (v, e) = lookup_of_mem-keys k m (mem_later k j (keys m) other h) in (v, rw other e)
  ]
    where
      mem_later : (k j : Text) (ks : List Text) → text_eq j k ≡ false → Mem k (j ∷ ks) → Mem k ks
      mem_later k j ks other h = Or.elim Mem-prop (mem-cons.0 h) (λ e. absurd (clash e)) (λ m. m)
        where
          clash : k ≡ j → ⊥
          clash e = let same : text_eq j k ≡ true = (text_eq_iff j k).1 (sym e) in cc

module _ {ℓ κ} {V : Type ℓ} (P : Text × V → Type κ) where
  pub All-delete : (k : Text) (m : Map V) → All P m → All P (delete k m)
  All-delete k [] h = tt
  All-delete k ((j, v) ∷ m) (p, h) = elim (Bool-cases (text_eq j k)) [
    | inl same ↦ rw same (All-delete k m h)
    | inr other ↦ rw other (p, All-delete k m h)
  ]

  pub All-lookup : (k : Text) (v : V) (m : Map V) → All P m → lookup k m ≡ some v → P (k, v)
  All-lookup k v [] h e = cc
  All-lookup k v ((j, w) ∷ m) (p, h) e = elim (Bool-cases (text_eq j k)) [
    | inl same ↦ subst P (λ i. ((text_eq_iff j k).0 same i, lookup_hit j k w v m same e i)) p
    | inr other ↦ All-lookup k v m h (rw other at e)
  ]
