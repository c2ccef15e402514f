-- ===== src/Splitter/BinPack/FirstFit.antt =====
-- First fit opens a bin only when it must: no two bins could be one.
use victoriametrics_data_mig.Prelude.{
  ℕ, ◌+◌, ◌≤◌, ◌<◌, ◌≡◌, ◌⊎◌, inl, inr, false, List, [], ◌∷◌, All, arith, Bool-cases, length,
  length-append,
}
use victoriametrics_data_mig.Types.{LabelValueCount}
use victoriametrics_data_mig.Splitter.BinPack.{
  Sort, Bin, Bins, fits, put, place, round, rounds, bin_pack,
}

module _ (max_series max_values : ℕ) where
  -- The bins together would have too many series, or the first has no place for another value.
  abbrev Apart : Bin → Bin → Type 0
  Apart b c = (max_series < b.series_count + c.series_count) ⊎ (max_values ≤ length b.label_values)

  abbrev pub IsTight : List Bin → Type 0
  IsTight [] = Unit
  IsTight (b ∷ bs) = All (Apart b) bs × IsTight bs

  -- A bin that refused `v` stays apart from the bin that takes it.
  place-Apart :
      (b : Bin) (bs : List Bin) (v : LabelValueCount)
      → fits max_series max_values b v ≡ false
      → All (Apart b) bs
      → All (Apart b) (place max_series max_values bs v)
  unfolding place
  place-Apart b [] v refused h = (ground arith, tt)
  place-Apart b (c ∷ bs) v refused (hc, h) = elim (Bool-cases (fits max_series max_values c v)) [
    | inl taken ↦ rw taken (ground arith, h)
    | inr other ↦ rw other (hc, place-Apart b bs v refused h)
  ]

  put-Apart :
      (b : Bin) (v : LabelValueCount) (bs : List Bin)
      → All (Apart b) bs
      → All (Apart (put max_series max_values b v)) bs
  unfolding put
  put-Apart b v [] h = tt
  put-Apart b v (c ∷ bs) (hc, h) =
      (ground (arith, length-append b.label_values (v.name ∷ [])), put-Apart b v bs h)

  place-IsTight :
      (bs : List Bin) (v : LabelValueCount)
      → IsTight bs
      → IsTight (place max_series max_values bs v)
  unfolding place
  place-IsTight [] v h = (tt, tt)
  place-IsTight (b ∷ bs) v (hb, h) = elim (Bool-cases (fits max_series max_values b v)) [
    | inl taken ↦ rw taken (put-Apart b v bs hb, h)
    | inr other ↦ rw other (place-Apart b bs v other hb, place-IsTight bs v h)
  ]

  rounds-IsTight :
      (r : Bins) (vs : List LabelValueCount)
      → IsTight r.bins
      → IsTight (rounds max_series max_values r vs).bins
  unfolding rounds round
  rounds-IsTight r [] h = h
  rounds-IsTight r (v ∷ vs) h =
      rounds-IsTight (round max_series max_values r v) vs (ground (arith, place-IsTight r.bins v h))

  -- For any two bins that `BinPack` returns, the first is full by its number of values, or the
  -- two together exceed `max_series`.
  pub bin_pack-IsTight :
      (sort : Sort) (vs : List LabelValueCount)
      → IsTight (bin_pack max_series max_values sort vs).bins
  unfolding bin_pack
  bin_pack-IsTight sort [] = tt
  bin_pack-IsTight sort (v ∷ vs) = rounds-IsTight _ (sort.apply (v ∷ vs)) tt
