-- ===== src/Splitter/Recursion/Occurrences.antt =====
-- How often a label value stands in the bins and the oversized values of `BinPack`.
use mathlib.Core.List.{map-append}
use mathlib.Core.List.Perm
use victoriametrics_data_mig.Prelude.{
  ℕ, ◌+◌, ◌≤◌, ◌<◌, ◌≡◌, refl, sym, ◌∙◌, Bool, true, List, [], ◌∷◌, ◌++◌, map, Perm, arith, Text,
  text_eq, text_eq_refl, All, keep, keep-perm, length, length-perm,
}
use victoriametrics_data_mig.Types.{LabelValueCount}
use victoriametrics_data_mig.Splitter.BinPack.{Sort, Bin, bin_pack}
use victoriametrics_data_mig.Splitter.BinPack.Packing.{concat, bin_of, bin_pack-IsPacking}
use victoriametrics_data_mig.Splitter.Recursion.{elem}
use victoriametrics_data_mig.Splitter.Recursion.Meaning.{ind, occurrences, names, present}

occurrences-append :
    (x : Text) (ys zs : List Text) → occurrences x (ys ++ zs) ≡ occurrences x ys + occurrences x zs
occurrences-append x [] zs = omega arith
occurrences-append x (y ∷ ys) zs = omega (arith, occurrences-append x ys zs)

occurrences-keep : (x : Text) (ys : List Text) → occurrences x ys ≡ length (keep (text_eq x) ys)
occurrences-keep x [] = refl
occurrences-keep x (y ∷ ys) = ground (arith, occurrences-keep x ys)

occurrences-perm : (x : Text) {ys zs : List Text} → Perm ys zs → occurrences x ys ≡ occurrences x zs
occurrences-perm x {ys} {zs} p =
    occurrences-keep x ys ∙ length-perm (keep-perm (text_eq x) p) ∙ sym (occurrences-keep x zs)

-- A text that stands in a list at most once is there as often as it is a member.
pub ind-elem :
    (x : Text) (ys : List Text) → occurrences x ys ≤ 1 → ind (elem x ys) ≡ occurrences x ys
ind-elem x [] h = refl
ind-elem x (y ∷ ys) h = ground (arith, ind-elem x ys)

-- What holds of all texts in a list holds of its members.
pub All-of_occurrences :
    (ys : List Text) (p : Text → Bool)
    → ((x : Text) → 0 < occurrences x ys → p x ≡ true)
    → All (λ y. p y ≡ true) ys
All-of_occurrences [] p h = tt
All-of_occurrences (y ∷ ys) p h =
    (h y (ground (arith, text_eq_refl y)), All-of_occurrences ys p (λ x there. h x (omega arith)))

abbrev pub in_bins : Text → List Bin → ℕ
in_bins x [] = 0
in_bins x (b ∷ bs) = occurrences x b.label_values + in_bins x bs

in_bins-bin_of :
    (x : Text) (gs : List (List LabelValueCount))
    → in_bins x (map bin_of gs) ≡ occurrences x (names (concat gs))
in_bins-bin_of x [] = refl
in_bins-bin_of x (g ∷ gs) =
    rw (map-append (λ (v : LabelValueCount). v.name) g (concat gs), occurrences-append)
      (omega (arith, in_bins-bin_of x gs))

-- The bins and the oversized values hold a value as often as the distribution has it with series.
pub in_bins-bin_pack :
    (max_series max_values : ℕ) (sort : Sort) (dist : List LabelValueCount) (x : Text)
    → in_bins x (bin_pack max_series max_values sort dist).bins
        + occurrences x (names (bin_pack max_series max_values sort dist).oversized)
      ≡ occurrences x (present dist)
in_bins-bin_pack max_series max_values sort dist x =
    let p = bin_pack-IsPacking max_series max_values sort dist in
    let over = (bin_pack max_series max_values sort dist).oversized in
    let same = occurrences-perm x (Perm.map (λ (v : LabelValueCount). v.name) p.conserved) in
    let split =
      rw (map-append (λ (v : LabelValueCount). v.name) (concat p.groups) over, occurrences-append)
        at same in
    rw p.filled (omega (arith, split, in_bins-bin_of x p.groups))
