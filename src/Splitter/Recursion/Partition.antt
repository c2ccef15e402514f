-- ===== src/Splitter/Recursion/Partition.antt =====
-- The selectors of a split select every series of the metric exactly once.
use victoriametrics_data_mig.Prelude.{
  ℕ, ◌+◌, ◌≤◌, ◌<◌, ◌≡◌, refl, inl, inr, Bool, true, false, List, [], ◌∷◌, ◌++◌, map, Option, none,
  some, arith, ap, Text, All, All-map, text_eq_refl, is_empty, length, Bool-cases, if◌then◌else◌,
  Result, Float, err, ok, ltb,
}
use victoriametrics_data_mig.Types.{LabelValueCount}
use victoriametrics_data_mig.Splitter.Selector.{
  SelectorInfo, build_match, append_regex_selector, append_exact_selector,
  append_empty_label_selector,
}
use victoriametrics_data_mig.Splitter.BinPack.{Bin, bin_pack}
use victoriametrics_data_mig.Splitter.BinPack.Bounds.{bin_pack_bounds}
use victoriametrics_data_mig.Splitter.Recursion.{
  Client, Sorts, Splitter, elem, wrap, then_append, and_then, split_oversized, remainder_of,
  split_bins, Split, oversized_error, bin_selector,
}
use victoriametrics_data_mig.Splitter.Recursion.Meaning.{
  ind, occurrences, names, present, Store, times, IsFresh, IsServed,
}
use victoriametrics_data_mig.Splitter.Recursion.Occurrences.{
  ind-elem, All-of_occurrences, in_bins, in_bins-bin_pack,
}

module _ (F : Float) (sorts : Sorts F) (client : Client) (s : Splitter) (metric : Text)
    (max_series : ℕ) (st : Store) (universe values : List Text) (Reads : Text → List Text → Type 0)
    (served : IsServed client s metric st universe values Reads) (x : st.Series) where
  abbrev pub is_selected : Text → Bool
  is_selected base = st.selects (build_match metric base) x

  -- Selectors that are returned select the series `n` times.
  abbrev pub Gives : ℕ → Option (Result (List SelectorInfo)) → Type 0
  Gives n none = Unit
  Gives n (some (err e)) = Unit
  Gives n (some (ok sels)) = times st x sels ≡ n

  times-append : (a b : List SelectorInfo) → times st x (a ++ b) ≡ times st x a + times st x b
  times-append [] b = omega arith
  times-append (sel ∷ a) b = omega (arith, times-append a b)

  Gives-wrap :
      (n : ℕ) (m : Text) (o : Option (Result (List SelectorInfo))) → Gives n o → Gives n (wrap m o)
  Gives-wrap n m none h = tt
  Gives-wrap n m (some (err e)) h = tt
  Gives-wrap n m (some (ok sels)) h = h

  Gives-then_append :
      (m n : ℕ) (sels : List SelectorInfo) (o : Option (Result (List SelectorInfo)))
      → times st x sels ≡ m
      → Gives n o
      → Gives (m + n) (then_append sels o)
  Gives-then_append m n sels none e h = tt
  Gives-then_append m n sels (some (err w)) e h = tt
  Gives-then_append m n sels (some (ok more)) e h = omega (arith, times-append sels more)

  Gives-and_then :
      (m n : ℕ) (o : Option (Result (List SelectorInfo)))
      (f : List SelectorInfo → Option (Result (List SelectorInfo)))
      → Gives m o
      → ((sels : List SelectorInfo) → times st x sels ≡ m → Gives n (f sels))
      → Gives n (and_then o f)
  Gives-and_then m n none f h k = tt
  Gives-and_then m n (some (err e)) f h k = tt
  Gives-and_then m n (some (ok sels)) f h k = k sels h

  module _ (base : Text) (used : List Text) (label : Text) (reads : Reads base used)
      (fresh : IsFresh client s metric st universe used label) where
    -- The series has the label's value `v` and is selected by the base.
    abbrev here : ℕ → ℕ
    here n = if is_selected base then n else 0

    bin_times :
        (b : Bin)
        → 0 < length b.label_values
        → ((v : Text) → 0 < occurrences v b.label_values → elem v values ≡ true)
        → ((v : Text) → occurrences v b.label_values ≤ 1)
        → ind (is_selected (append_regex_selector base label b.label_values))
          ≡ here (occurrences (st.value x label) b.label_values)
    bin_times b some_value known once =
        let reading =
          served.regex base used label b.label_values reads fresh some_value
            (All-of_occurrences b.label_values (λ v. elem v values) known) once x in
        let member = ind-elem (st.value x label) b.label_values (once (st.value x label)) in
        elim (Bool-cases (is_selected base)) [
          | inl e ↦ rw (reading, e) member
          | inr e ↦ rw (reading, e)
        ]

    bins_times :
        (bins : List Bin)
        → All (λ b. 0 < length b.label_values) bins
        → ((v : Text) → 0 < in_bins v bins → elem v values ≡ true)
        → ((v : Text) → in_bins v bins ≤ 1)
        → times st x (map (bin_selector F sorts client s metric max_series base label) bins)
          ≡ here (in_bins (st.value x label) bins)
    bins_times [] filled known once = elim (Bool-cases (is_selected base)) [
      | inl e ↦ rw e
      | inr e ↦ rw e
    ]
    bins_times (b ∷ bs) (some_value, filled) known once =
        let head =
          bin_times b some_value (λ v there. known v (omega arith)) (λ v. omega (arith, once v)) in
        let rest =
          bins_times bs filled (λ v there. known v (omega arith)) (λ v. omega (arith, once v)) in
        ground (arith, head, rest)

    -- A selected series is in the bins, among the oversized values or without the label.
    split_times :
        (dist : List LabelValueCount)
        → client.get_series_distribution (build_match metric base) label ≡ ok dist
        → here (
              in_bins
                (st.value x label)
                (bin_pack max_series s.max_regex_values sorts.values dist).bins)
            + here (
                occurrences
                  (st.value x label)
                  (names (bin_pack max_series s.max_regex_values sorts.values dist).oversized))
            + ind (is_selected (append_empty_label_selector base label))
          ≡ ind (is_selected base)
    split_times dist got =
        let v = st.value x label in
        let whole = in_bins-bin_pack max_series s.max_regex_values sorts.values dist v in
        let once = served.distinct base used label dist reads got v in
        let reading = served.empty base used label reads fresh x in
        elim (Bool-cases (is_selected base)) [
          | inr e ↦ ground (arith, reading)
          | inl e ↦ elim (Bool-cases (is_empty v)) [
            | inl blank ↦
                let gone = served.nonempty base used label dist reads got in
                let never = ap (λ t. occurrences t (present dist)) (empty_text v blank) in
                rw e (rw (reading, e, blank) (omega (arith, whole, gone, never)))
            | inr filled ↦
                let there = served.complete base used label dist reads got x e filled in
                rw e (rw (reading, e, filled) (omega (arith, whole, there, once)))
          ]
        ]
      where
        empty_text : (t : Text) → is_empty t ≡ true → t ≡ []
        empty_text [] h = refl
        empty_text (c ∷ t) h = cc

    module _ (again : Split F sorts client s metric max_series)
        (exact_again : (v : Text)
          → elem v values ≡ true
          → Gives
              (ind (is_selected (append_exact_selector base label v)))
              (again (append_exact_selector base label v) (used ++ label ∷ [])))
        (empty_again : Gives
          (ind (is_selected (append_empty_label_selector base label)))
          (again (append_empty_label_selector base label) (used ++ label ∷ []))) where
      oversized_times :
          (vs : List LabelValueCount)
          → ((v : Text) → 0 < occurrences v (names vs) → elem v values ≡ true)
          → Gives
              (here (occurrences (st.value x label) (names vs)))
              (split_oversized F sorts client s metric max_series again base used label vs)
      unfolding split_oversized
      oversized_times [] known = ground arith
      oversized_times (v ∷ vs) known =
          let is_known : elem v.name values ≡ true =
            known v.name (ground (arith, text_eq_refl v.name)) in
          let reading = served.exact base used label v.name reads fresh is_known x in
          let count : here (occurrences (st.value x label) (names (v ∷ vs)))
              ≡ ind (is_selected (append_exact_selector base label v.name))
                + here (occurrences (st.value x label) (names vs)) =
            ground (arith, reading) in
          rw count (
            Gives-and_then (ind (is_selected (append_exact_selector base label v.name))) _ _ _
              (Gives-wrap _ (oversized_error F sorts client s metric max_series label v) _
                (exact_again v.name is_known))
              (λ sels e.
                Gives-then_append _ _ sels _ e
                  (oversized_times vs (λ w there. known w (omega arith)))))

      remainder_times :
          (m : ℕ) (sels : List SelectorInfo) (n : ℕ)
          → client.get_series_count (build_match metric (append_empty_label_selector base label))
            ≡ ok n
          → (n ≡ 0 → is_selected (append_empty_label_selector base label) ≡ false)
          → times st x sels ≡ m
          → Gives
              (m + ind (is_selected (append_empty_label_selector base label)))
              (remainder_of F sorts client s metric max_series again base used label sels (ok n))
      unfolding remainder_of
      remainder_times m sels n counted none_there e = elim (Bool-cases (ltb 0 n)) [
        | inl some_left ↦ elim (Bool-cases (ltb max_series n)) [
          | inl many ↦ rw (some_left, many) (Gives-then_append m _ sels _ e empty_again)
          | inr few ↦
              rw (some_left, few)
                (omega (
                  arith,
                  times-append sels (
                      record {
                        selector = build_match metric (append_empty_label_selector base label);
                        est_series_count = n;
                      }
                      ∷ []),
                ))
        ]
        | inr nothing ↦ let gone = none_there (ground arith) in rw nothing (ground (arith, gone))
      ]

      pub bins_give :
          (dist : List LabelValueCount)
          → client.get_series_distribution (build_match metric base) label ≡ ok dist
          → Gives (ind (is_selected base)) (
              split_bins F sorts client s metric max_series again base used label
                (bin_pack max_series s.max_regex_values sorts.values dist))
      unfolding split_bins
      bins_give dist got =
          let packed = bin_pack max_series s.max_regex_values sorts.values dist in
          let v = st.value x label in
          let whole = in_bins-bin_pack max_series s.max_regex_values sorts.values dist in
          let (n, counted, none_there) =
            served.count (append_empty_label_selector base label) (used ++ label ∷ [])
              (served.empty-Reads base used label reads fresh) in
          let bins =
            bins_times packed.bins
              (All-map (λ b h. h.0) packed.bins
                (bin_pack_bounds max_series s.max_regex_values sorts.values dist).0)
              (λ w there. served.known base used label dist reads got w (omega (arith, whole w)))
              (λ w. omega (arith, whole w, served.distinct base used label dist reads got w)) in
          Gives-and_then (here (occurrences v (names packed.oversized))) _ _ _
            (oversized_times packed.oversized
              (λ w there. served.known base used label dist reads got w (omega (arith, whole w))))
            (λ subs over.
              rw (counted, ← split_times dist got)
                (remainder_times _ _ n counted (λ z. none_there z x)
                  (omega (
                    arith,
                    bins,
                    over,
                    times-append
                        (map (bin_selector F sorts client s metric max_series base label)
                          packed.bins)
                        subs,
                  ))))
