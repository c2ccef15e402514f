-- ===== src/Splitter/Recursion/Candidates.antt =====
-- Which label the recursion of internal/splitter/splitter.go splits by.
use mathlib.Core.List.{Mem, mem-cons_self, mem-cons_of_mem}
use mathlib.Core.List.Perm
use mathlib.Core.Bool.{Bool-set}
use victoriametrics_data_mig.Prelude.{
  ℕ, ◌≤◌, ◌<◌, ◌≡◌, inl, inr, Bool, true, false, not, ◌||◌, List, [], ◌∷◌, ◌++◌, Perm, arith, Text,
  text_eq, text_eq_refl, text_eq_iff, ap, All, All-mem, keep, length, Bool-cases, Result, Float,
  err, ok, ltb,
}
use victoriametrics_data_mig.Types.{LabelValueCount}
use victoriametrics_data_mig.Splitter.Recursion.{
  Client, LabelScore, Sorts, Splitter, elem, filter_labels, score_one, score_labels,
  find_best_split_label, best_of,
}

pub All-of_mem {ℓ κ} :
    {A : Type ℓ} {P : A → Type κ} (xs : List A) → ((a : A) → Mem a xs → P a) → All P xs
All-of_mem [] h = tt
All-of_mem (x ∷ xs) h = (h x mem-cons_self, All-of_mem xs (λ a m. h a (mem-cons_of_mem x m)))

-- A test that all elements pass is passed by all of a rearrangement.
All-perm {ℓ} :
    {A : Type ℓ} (p : A → Bool) {xs ys : List A}
    → Perm xs ys
    → All (λ a. p a ≡ true) ys
    → All (λ a. p a ≡ true) xs
All-perm p {xs} {ys} r h =
    All-of_mem xs (λ a m. All-mem (λ b. Bool-set (p b) true) ys h a (Perm.subset r a m))

All-keep {ℓ} : {A : Type ℓ} (p : A → Bool) (xs : List A) → All (λ a. p a ≡ true) (keep p xs)
All-keep p [] = tt
All-keep p (x ∷ xs) = elim (Bool-cases (p x)) [
  | inl e ↦ rw e (e, All-keep p xs)
  | inr e ↦ rw e (All-keep p xs)
]

All-keep_both {ℓ} :
    {A : Type ℓ} (p q : A → Bool) (xs : List A)
    → All (λ a. q a ≡ true) xs
    → All (λ a. q a ≡ true) (keep p xs)
All-keep_both p q [] h = tt
All-keep_both p q (x ∷ xs) (e, h) = elim (Bool-cases (p x)) [
  | inl t ↦ rw t (e, All-keep_both p q xs h)
  | inr t ↦ rw t (All-keep_both p q xs h)
]

-- How many labels of `universe` are not used.
abbrev pub unused : List Text → List Text → ℕ
unused universe used = length (keep (λ l. not (elem l used)) universe)

elem-snoc : (x l : Text) (used : List Text) → elem x (used ++ l ∷ []) ≡ (elem x used || text_eq x l)
elem-snoc x l [] = ground arith
elem-snoc x l (u ∷ used) = ground (arith, elem-snoc x l used)

unused_le :
    (universe used : List Text) (l : Text) → unused universe (used ++ l ∷ []) ≤ unused universe used
unused_le [] used l = omega arith
unused_le (k ∷ ks) used l = ground (arith, unused_le ks used l, elem-snoc k l used)

pub unused_bound : (universe used : List Text) → unused universe used ≤ length universe
unused_bound [] used = omega arith
unused_bound (k ∷ ks) used = ground (arith, unused_bound ks used)

-- A known label that is used next leaves fewer.
pub unused_less :
    (universe used : List Text) (l : Text)
    → elem l universe ≡ true
    → elem l used ≡ false
    → unused universe (used ++ l ∷ []) < unused universe used
unused_less [] used l known fresh = cc
unused_less (k ∷ ks) used l known fresh = elim (Bool-cases (text_eq l k)) [
  | inl same ↦
      let e = (text_eq_iff l k).0 same in
      ground (
        arith,
        unused_le ks used l,
        elem-snoc k l used,
        ap (λ x. elem x used) e,
        ap (λ x. text_eq x l) e,
        text_eq_refl l,
      )
  | inr other ↦ ground (arith, unused_less ks used l, unused_le ks used l, elem-snoc k l used)
]

module _ (F : Float) (sorts : Sorts F) (client : Client) (s : Splitter) where
  -- Candidates are labels that are found, and neither excluded nor used.
  pub filter_labels_lem :
      (p : Text → Bool) (labels used : List Text)
      → All (λ l. p l ≡ true) labels
      → All (λ l. p l ≡ true) (filter_labels F sorts client s labels used)
        × All
            (λ l. not (elem l s.exclude_labels || elem l used) ≡ true)
            (filter_labels F sorts client s labels used)
  unfolding filter_labels
  filter_labels_lem p labels used h = elim (Bool-cases (ltb 0 (length s.prefer_labels))) [
    | inl e ↦ rw e (
      All-perm p (sorts.stable-perm _ _) (All-keep_both _ p labels h),
      All-perm (λ l. not (elem l s.exclude_labels || elem l used)) (sorts.stable-perm _ _)
          (All-keep _ labels),
    )
    | inr e ↦ rw e (All-keep_both _ p labels h, All-keep _ labels)
  ]

  score_labels_lem :
      (p : Text → Bool) (match : Text) (labels : List Text)
      → All (λ l. p l ≡ true) labels
      → All (λ c. p c.label ≡ true) (score_labels F sorts client s match labels)
  unfolding score_labels score_one
  score_labels_lem p match [] h = tt
  score_labels_lem p match (l ∷ ls) (e, h) =
      scored (client.get_series_distribution match l) (score_labels_lem p match ls h)
    where
      scored :
          (d : Result (List LabelValueCount))
          → All (λ c. p c.label ≡ true) (score_labels F sorts client s match ls)
          → All
              (λ c. p c.label ≡ true)
              (score_one F sorts client s l d (score_labels F sorts client s match ls))
      scored (err m) rest = rest
      scored (ok []) rest = rest
      scored (ok (v ∷ vs)) rest = (e, rest)

  best_of_lem :
      (p : Text → Bool) (metric : Text) (scores : List (LabelScore F)) (best : Text)
      (distribution : List LabelValueCount)
      → All (λ c. p c.label ≡ true) scores
      → best_of F sorts client s metric scores ≡ ok (best, distribution)
      → p best ≡ true
  best_of_lem p metric [] best distribution h e = cc
  best_of_lem p metric (c ∷ cs) best distribution (hc, h) e = cc

  -- The label that is found is one of the candidates.
  pub find_best_split_label_lem :
      (p : Text → Bool) (metric base : Text) (labels : List Text) (best : Text)
      (distribution : List LabelValueCount)
      → All (λ l. p l ≡ true) labels
      → find_best_split_label F sorts client s metric base labels ≡ ok (best, distribution)
      → p best ≡ true
  unfolding find_best_split_label
  find_best_split_label_lem p metric base labels best distribution h e =
      best_of_lem p metric _ best distribution
        (All-perm (λ c. p c.label) (sorts.scores-perm _) (score_labels_lem p _ labels h)) e
