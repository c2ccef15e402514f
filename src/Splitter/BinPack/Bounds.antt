-- ===== src/Splitter/BinPack/Bounds.antt =====
-- Every bin of `bin_pack` keeps both limits, and what is set aside is beyond the limit.
use victoriametrics_data_mig.Prelude.{
  ℕ, ◌≤◌, ◌<◌, ◌≡◌, refl, ◌⊎◌, inl, inr, List, [], ◌∷◌, All, All-append, arith, Bool-cases, ltb,
  leb, length, length-append,
}
use victoriametrics_data_mig.Types.{LabelValueCount}
use victoriametrics_data_mig.Splitter.BinPack.{Sort, Bin, Bins, place, round, rounds, bin_pack}

module _ (max_series max_values : ℕ) where
  -- A bin holds a value, within both limits; a single value is let in where the second limit is 0.
  abbrev pub IsBin : Bin → Type 0
  IsBin b =
      (0 < length b.label_values)
      × (b.series_count ≤ max_series)
      × ((length b.label_values ≤ max_values) ⊎ (length b.label_values ≡ 1))

  abbrev pub IsOversized : LabelValueCount → Type 0
  IsOversized v = max_series < v.value

  place-IsBin :
      (bs : List Bin) (v : LabelValueCount)
      → v.value ≤ max_series
      → All IsBin bs
      → All IsBin (place max_series max_values bs v)
  unfolding place
  place-IsBin [] v small h = ((omega arith, small, inr refl), tt)
  place-IsBin (b ∷ bs) v small (hb, hbs) =
      ground (arith, place-IsBin bs v small hbs, length-append b.label_values (v.name ∷ []))

  round_bounds :
      (r : Bins) (v : LabelValueCount)
      → All IsBin r.bins × All IsOversized r.oversized
      → All IsBin (round max_series max_values r v).bins
        × All IsOversized (round max_series max_values r v).oversized
  unfolding round
  round_bounds r v (hb, ho) = elim (Bool-cases (leb v.value 0)) [
    | inl zero_count ↦ rw zero_count (hb, ho)
    | inr positive ↦ elim (Bool-cases (ltb max_series v.value)) [
      | inl large ↦
          rw (positive, large)
            (hb, All-append IsOversized r.oversized (v ∷ []) ho (ground arith, tt))
      | inr small ↦ rw (positive, small) (place-IsBin r.bins v (ground arith) hb, ho)
    ]
  ]

  rounds_bounds :
      (r : Bins) (vs : List LabelValueCount)
      → All IsBin r.bins × All IsOversized r.oversized
      → All IsBin (rounds max_series max_values r vs).bins
        × All IsOversized (rounds max_series max_values r vs).oversized
  unfolding rounds
  rounds_bounds r [] h = h
  rounds_bounds r (v ∷ vs) h =
      rounds_bounds (round max_series max_values r v) vs (round_bounds r v h)

  -- Every bin that `BinPack` returns holds at least one value, at most `max_series` series, and
  -- at most `max_values` values or a single one; every value that it sets aside as oversized has
  -- more than `max_series` series.
  pub bin_pack_bounds :
      (sort : Sort) (vs : List LabelValueCount)
      → All IsBin (bin_pack max_series max_values sort vs).bins
        × All IsOversized (bin_pack max_series max_values sort vs).oversized
  unfolding bin_pack
  bin_pack_bounds sort [] = (tt, tt)
  bin_pack_bounds sort (v ∷ vs) = rounds_bounds _ (sort.apply (v ∷ vs)) (tt, tt)
