-- ===== src/Splitter/BinPack.antt =====
-- internal/splitter/binpack.go: first-fit packing of label values into bins.
pub mod Bounds
pub mod Packing
pub mod FirstFit
pub mod Tests
use mathlib.Core.List.Perm
use victoriametrics_data_mig.Prelude.{
  ℕ, ◌+◌, ◌≤◌, ◌≡◌, Bool, true, false, ◌&&◌, List, [], ◌∷◌, ◌++◌, map, Perm, Option, none, some,
  Text, All, ltb, leb, ◌==◌, if◌then◌else◌, length,
}
use victoriametrics_data_mig.Types.{LabelValueCount}

-- What `sort.Slice(sorted, func(i, j int) bool { return sorted[i].Value > sorted[j].Value })`
-- promises: a rearrangement, larger values first, values that are equal in any order.
abbrev pub IsDescending : List LabelValueCount → Type 0
IsDescending [] = Unit
IsDescending (v ∷ vs) = All (λ w. w.value ≤ v.value) vs × IsDescending vs

pub record Sort : Type 0 where
  pub apply : List LabelValueCount → List LabelValueCount
  pub apply-perm : (vs : List LabelValueCount) → Perm (apply vs) vs
  pub apply-IsDescending : (vs : List LabelValueCount) → IsDescending (apply vs)

pub record Bin : Type 0 where
  pub label_values : List Text
  pub series_count : ℕ

pub record Bins : Type 0 where
  pub bins : List Bin
  pub oversized : List LabelValueCount

module _ (max_series max_values : ℕ) where
  -- `bins[i].SeriesCount+v.Value <= maxSeries && len(bins[i].LabelValues) < maxValues`.
  unfoldable pub fits : Bin → LabelValueCount → Bool
  fits b v = leb (b.series_count + v.value) max_series && ltb (length b.label_values) max_values

  unfoldable pub put : Bin → LabelValueCount → Bin
  put b v = record b {
    label_values = b.label_values ++ v.name ∷ [];
    series_count = b.series_count + v.value;
  }

  -- The inner loop over the bins, and the new bin behind them if none was `placed`.
  pub place : List Bin → LabelValueCount → List Bin
  unfolding fits put
  place [] v = record { label_values = v.name ∷ []; series_count = v.value } ∷ []
  place (b ∷ bs) v = if fits b v then put b v ∷ bs else b ∷ place bs v

  -- One round of the loop over the sorted values.
  pub round : Bins → LabelValueCount → Bins
  unfolding place
  round r v =
      if leb v.value 0
      then r
      else if ltb max_series v.value
      then record r { oversized = r.oversized ++ v ∷ [] }
      else record r { bins = place r.bins v }

  pub rounds : Bins → List LabelValueCount → Bins
  unfolding round
  rounds r [] = r
  rounds r (v ∷ vs) = rounds (round r v) vs

  pub bin_pack : Sort → List LabelValueCount → Bins
  bin_pack sort [] = record { bins = []; oversized = [] }
  bin_pack sort (v ∷ vs) = rounds (record { bins = []; oversized = [] }) (sort.apply (v ∷ vs))
