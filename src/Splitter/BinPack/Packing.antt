-- ===== src/Splitter/BinPack/Packing.antt =====
-- `bin_pack` loses no value and counts none twice.
use mathlib.Core.List.{perm_middle, map-append, perm_append_singleton}
use mathlib.Core.List.Perm
use victoriametrics_data_mig.Prelude.{
  ℕ, ◌+◌, ◌≡◌, refl, ap, inl, inr, Bool, true, false, List, [], ◌∷◌, ◌++◌, map, append_assoc,
  append-nil, Perm, keep, keep-perm, arith, Bool-cases, ltb, leb, if◌then◌else◌,
}
use victoriametrics_data_mig.Types.{LabelValueCount}
use victoriametrics_data_mig.Splitter.BinPack.{
  Sort, Bin, Bins, fits, put, place, round, rounds, bin_pack,
}

abbrev pub concat {ℓ} : {A : Type ℓ} → List (List A) → List A
concat [] = []
concat (xs ∷ xss) = xs ++ concat xss

abbrev pub total : List LabelValueCount → ℕ
total [] = 0
total (v ∷ vs) = v.value + total vs

-- The bin that holds a group of values.
abbrev pub bin_of : List LabelValueCount → Bin
bin_of g = record { label_values = map (λ v. v.name) g; series_count = total g }

abbrev pub has_series : LabelValueCount → Bool
has_series v = ltb 0 v.value

total-append : (g h : List LabelValueCount) → total (g ++ h) ≡ total g + total h
total-append [] h = omega arith
total-append (v ∷ g) h = omega (arith, total-append g h)

-- The groups of the values behind `r`: together with what is oversized they are `vs`, rearranged.
pub record IsPacking (vs : List LabelValueCount) (r : Bins) : Type 0 where
  pub groups : List (List LabelValueCount)
  pub filled : r.bins ≡ map bin_of groups
  pub conserved : Perm (concat groups ++ r.oversized) vs

keep_split :
    (done vs : List LabelValueCount) (v : LabelValueCount)
    → done ++ keep has_series (v ∷ vs)
      ≡ (done ++ (if has_series v then v ∷ [] else [])) ++ keep has_series vs
keep_split done vs v = elim (Bool-cases (has_series v)) [
  | inl e ↦ rw (e, append_assoc)
  | inr e ↦ rw (e, append-nil)
]

module _ (max_series max_values : ℕ) where
  bin_of-put :
      (g : List LabelValueCount) (v : LabelValueCount)
      → put max_series max_values (bin_of g) v ≡ bin_of (g ++ v ∷ [])
  unfolding put
  bin_of-put g v =
      ground
        (arith, map-append (λ (w : LabelValueCount). w.name) g (v ∷ []), total-append g (v ∷ []))

  place_groups :
      (gs : List (List LabelValueCount)) (v : LabelValueCount)
      → (hs : List (List LabelValueCount)) × (place max_series max_values (map bin_of gs) v
          ≡ map bin_of hs)
        × Perm (concat hs) (v ∷ concat gs)
  unfolding place
  place_groups [] v = ((v ∷ []) ∷ [], ground arith, Perm.refl _)
  place_groups (g ∷ gs) v = elim (Bool-cases (fits max_series max_values (bin_of g) v)) [
    | inl taken ↦
        ((g ++ v ∷ []) ∷ gs, rw taken (rw bin_of-put), rw append_assoc (perm_middle g (concat gs)))
    | inr other ↦
        let (hs, e, p) = place_groups gs v in
        (
          g ∷ hs,
          rw other (ap (◌∷◌ (bin_of g)) e),
          Perm.trans (Perm.append_left g p) (perm_middle g (concat gs)),
        )
  ]

  round-IsPacking :
      (vs : List LabelValueCount) (r : Bins) (v : LabelValueCount)
      → IsPacking vs r
      → IsPacking (vs ++ (if has_series v then v ∷ [] else [])) (round max_series max_values r v)
  unfolding round
  round-IsPacking vs r v p = elim (Bool-cases (leb v.value 0)) [
    | inl zero_count ↦
        let none_there : has_series v ≡ false = ground arith in
        rw (zero_count, none_there, append-nil) p
    | inr positive ↦
        let there : has_series v ≡ true = ground arith in
        elim (Bool-cases (ltb max_series v.value)) [
          | inl large ↦
              rw (positive, large, there)
                (record {
                  groups = p.groups;
                  filled = p.filled;
                  conserved = rw (← append_assoc) (Perm.append_right (v ∷ []) p.conserved);
                })
          | inr small ↦
              let (hs, e, q) = place_groups p.groups v in
              rw (positive, small, there)
                (record {
                  groups = hs;
                  filled = rw p.filled e;
                  conserved = Perm.trans (Perm.append_right r.oversized q) (
                      Perm.trans (Perm.cons v p.conserved)
                        (Perm.symm (perm_append_singleton v vs)));
                })
        ]
  ]

  rounds-IsPacking :
      (done : List LabelValueCount) (r : Bins) (vs : List LabelValueCount)
      → IsPacking done r
      → IsPacking (done ++ keep has_series vs) (rounds max_series max_values r vs)
  unfolding rounds
  rounds-IsPacking done r [] p = rw append-nil p
  rounds-IsPacking done r (v ∷ vs) p = rw keep_split (
      rounds-IsPacking (done ++ (if has_series v then v ∷ [] else []))
        (round max_series max_values r v) vs (round-IsPacking done r v p))

  -- `BinPack` spreads the values that have series over its bins and the oversized values, each
  -- exactly once and under its own count: the bins are those of groups which, with the oversized
  -- values, rearrange the values of `vs` that have a series.
  pub bin_pack-IsPacking :
      (sort : Sort) (vs : List LabelValueCount)
      → IsPacking (keep has_series vs) (bin_pack max_series max_values sort vs)
  unfolding bin_pack
  bin_pack-IsPacking sort [] = record { groups = []; filled = refl; conserved = Perm.refl [] }
  bin_pack-IsPacking sort (v ∷ vs) =
      let p =
        rounds-IsPacking [] (record { bins = []; oversized = [] }) (sort.apply (v ∷ vs))
          (record { groups = []; filled = refl; conserved = Perm.refl [] }) in
      record {
        groups = p.groups;
        filled = p.filled;
        conserved = Perm.trans p.conserved (keep-perm has_series (sort.apply-perm (v ∷ vs)));
      }
