-- ===== src/Splitter/BinPack/Tests.antt =====
-- Runs of internal/splitter/binpack.go, with an insertion sort for the library's.
use mathlib.Core.List.Perm
use victoriametrics_data_mig.Prelude.{
  ℕ, ◌≤◌, inl, inr, List, [], ◌∷◌, Perm, All, All-map, arith, codes, leb, keep, if◌then◌else◌,
  Bool-cases,
}
use victoriametrics_data_mig.Types.{LabelValueCount}
use victoriametrics_data_mig.Splitter.BinPack.{Sort, IsDescending, bin_pack}
use victoriametrics_data_mig.Splitter.BinPack.Bounds.{IsBin, IsOversized, bin_pack_bounds}
use victoriametrics_data_mig.Splitter.BinPack.Packing.{IsPacking, has_series, bin_pack-IsPacking}
use victoriametrics_data_mig.Splitter.BinPack.FirstFit.{IsTight, bin_pack-IsTight}

abbrev insert_sorted : LabelValueCount → List LabelValueCount → List LabelValueCount
insert_sorted v [] = v ∷ []
insert_sorted v (w ∷ ws) = if leb w.value v.value then v ∷ w ∷ ws else w ∷ insert_sorted v ws

abbrev insertion_sort : List LabelValueCount → List LabelValueCount
insertion_sort [] = []
insertion_sort (v ∷ vs) = insert_sorted v (insertion_sort vs)

insert_sorted-perm :
    (v : LabelValueCount) (ws : List LabelValueCount) → Perm (insert_sorted v ws) (v ∷ ws)
insert_sorted-perm v [] = Perm.refl _
insert_sorted-perm v (w ∷ ws) = elim (Bool-cases (leb w.value v.value)) [
  | inl e ↦ rw e (Perm.refl _)
  | inr e ↦ rw e (Perm.trans (Perm.cons w (insert_sorted-perm v ws)) (Perm.swap v w ws))
]

pub insertion_sort-perm : (vs : List LabelValueCount) → Perm (insertion_sort vs) vs
insertion_sort-perm [] = Perm.refl []
insertion_sort-perm (v ∷ vs) =
    Perm.trans (insert_sorted-perm v (insertion_sort vs)) (Perm.cons v (insertion_sort-perm vs))

insert_sorted_below :
    (n : ℕ) (v : LabelValueCount) (ws : List LabelValueCount)
    → v.value ≤ n
    → All (λ w. w.value ≤ n) ws
    → All (λ w. w.value ≤ n) (insert_sorted v ws)
insert_sorted_below n v [] h hs = (h, tt)
insert_sorted_below n v (w ∷ ws) h (k, hs) = elim (Bool-cases (leb w.value v.value)) [
  | inl e ↦ rw e (h, (k, hs))
  | inr e ↦ rw e (k, insert_sorted_below n v ws h hs)
]

insert_sorted-IsDescending :
    (v : LabelValueCount) (ws : List LabelValueCount)
    → IsDescending ws
    → IsDescending (insert_sorted v ws)
insert_sorted-IsDescending v [] h = (tt, tt)
insert_sorted-IsDescending v (w ∷ ws) (low, h) = elim (Bool-cases (leb w.value v.value)) [
  | inl e ↦ rw e ((ground arith, All-map (λ u le. ground arith) ws low), (low, h))
  | inr e ↦
      rw e (insert_sorted_below w.value v ws (ground arith) low, insert_sorted-IsDescending v ws h)
]

pub insertion_sort-IsDescending : (vs : List LabelValueCount) → IsDescending (insertion_sort vs)
insertion_sort-IsDescending [] = tt
insertion_sort-IsDescending (v ∷ vs) =
    insert_sorted-IsDescending v (insertion_sort vs) (insertion_sort-IsDescending vs)

abbrev pub by_insertion : Sort
by_insertion = record {
  apply = insertion_sort;
  apply-perm = insertion_sort-perm;
  apply-IsDescending = insertion_sort-IsDescending;
}

-- One value too large, one without series, and three that need two bins.
abbrev five_values : List LabelValueCount
five_values =
    record { name = codes "a"; value = 40 }
    ∷ record { name = codes "b"; value = 150 }
    ∷ record { name = codes "c"; value = 70 }
    ∷ record { name = codes "d"; value = 0 }
    ∷ record { name = codes "e"; value = 20 }
    ∷ []

bin_pack_bounds_example :
    All (IsBin 100 200) (bin_pack 100 200 by_insertion five_values).bins
    × All (IsOversized 100 200) (bin_pack 100 200 by_insertion five_values).oversized
bin_pack_bounds_example = bin_pack_bounds 100 200 by_insertion five_values

bin_pack-IsPacking_example :
    IsPacking (keep has_series five_values) (bin_pack 100 200 by_insertion five_values)
bin_pack-IsPacking_example = bin_pack-IsPacking 100 200 by_insertion five_values

bin_pack-IsTight_example : IsTight 100 200 (bin_pack 100 200 by_insertion five_values).bins
bin_pack-IsTight_example = bin_pack-IsTight 100 200 by_insertion five_values
