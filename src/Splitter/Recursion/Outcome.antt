-- ===== src/Splitter/Recursion/Outcome.antt =====
-- What the recursion of internal/splitter/splitter.go returns, and that it ends.
use victoriametrics_data_mig.Prelude.{
  ℕ, zero, suc, ◌≤◌, ◌<◌, ◌≡◌, refl, ◌⊎◌, inl, inr, true, false, not, ◌||◌, List, [], ◌∷◌, ◌++◌,
  map, Option, none, some, arith, Text, All, All-append, length, Bool-cases, Result, Float, err, ok,
  Result-cases, ok_injective, err_not_ok, ltb, subst,
}
use victoriametrics_data_mig.Types.{LabelValueCount}
use victoriametrics_data_mig.Splitter.Selector.{
  SelectorInfo, build_match, append_exact_selector, append_empty_label_selector,
}
use victoriametrics_data_mig.Splitter.BinPack.{Bin, Bins}
use victoriametrics_data_mig.Splitter.BinPack.Bounds.{IsBin, bin_pack_bounds}
use victoriametrics_data_mig.Splitter.Recursion.{
  Client, Sorts, Splitter, SplitResult, elem, wrap, then_append, and_then, filter_labels,
  find_best_split_label, split_oversized, remainder_of, split_bins, split_best, split_candidates,
  split_labels, recursive_split, split_metric, bin_selector, Split, oversized_error, result_of,
  split_count, leaf,
}
use victoriametrics_data_mig.Splitter.Recursion.Candidates.{
  unused, unused_less, unused_bound, filter_labels_lem, find_best_split_label_lem,
}

-- The matchers that the recursion comes to from those of the metric, with the labels that it has split
-- by on the way: of each a value, or that it is missing.
pub data Narrows (root : Text) : Text → List Text → Type 0 where
  unsplit : Narrows root root []
  by_value :
      {base : Text} {used : List Text} (label value : Text)
      → Narrows root base used
      → Narrows root (append_exact_selector base label value) (used ++ label ∷ [])
  by_absence :
      {base : Text} {used : List Text} (label : Text)
      → Narrows root base used
      → Narrows root (append_empty_label_selector base label) (used ++ label ∷ [])

module _ (F : Float) (sorts : Sorts F) (client : Client) (s : Splitter) (metric : Text)
    (max_series : ℕ) (root : Text) where
  -- A selector whose estimate is at most `max_series`, or one for whose matchers the server has no
  -- label left that is neither excluded nor one of those that they were split by.
  abbrev pub IsSplit : SelectorInfo → Type 0
  IsSplit sel =
      (sel.est_series_count ≤ max_series)
      ⊎ (base : Text) × (used : List Text) × (labels : List Text) × Narrows root base used
        × (sel ≡ leaf F sorts client s metric max_series base)
        × (client.discover_labels metric base ≡ ok labels)
        × (filter_labels F sorts client s labels used ≡ [])

  -- The fuel did not run out, and without an error all selectors are split.
  abbrev pub Ends : Option (Result (List SelectorInfo)) → Type 0
  Ends none = ⊥
  Ends (some (err e)) = Unit
  Ends (some (ok sels)) = All IsSplit sels

  Ends-wrap : (m : Text) (o : Option (Result (List SelectorInfo))) → Ends o → Ends (wrap m o)
  Ends-wrap m none h = elim h [ ]
  Ends-wrap m (some (err e)) h = tt
  Ends-wrap m (some (ok sels)) h = h

  Ends-then_append :
      (sels : List SelectorInfo) (o : Option (Result (List SelectorInfo)))
      → All IsSplit sels
      → Ends o
      → Ends (then_append sels o)
  Ends-then_append sels none hs h = elim h [ ]
  Ends-then_append sels (some (err e)) hs h = tt
  Ends-then_append sels (some (ok more)) hs h = All-append IsSplit sels more hs h

  Ends-and_then :
      (o : Option (Result (List SelectorInfo)))
      (f : List SelectorInfo → Option (Result (List SelectorInfo)))
      → Ends o
      → ((sels : List SelectorInfo) → All IsSplit sels → Ends (f sels))
      → Ends (and_then o f)
  Ends-and_then none f h k = elim h [ ]
  Ends-and_then (some (err e)) f h k = tt
  Ends-and_then (some (ok sels)) f h k = k sels h

  module _ (again : Split F sorts client s metric max_series) (base : Text) (used : List Text)
      (label : Text) (there : Narrows root base used)
      (h : (b : Text)
        → Narrows root b (used ++ label ∷ [])
        → Ends (again b (used ++ label ∷ []))) where
    split_oversized-Ends :
        (vs : List LabelValueCount)
        → Ends (split_oversized F sorts client s metric max_series again base used label vs)
    unfolding split_oversized
    split_oversized-Ends [] = tt
    split_oversized-Ends (v ∷ vs) =
        Ends-and_then _ _
          (Ends-wrap (oversized_error F sorts client s metric max_series label v) _
            (h (append_exact_selector base label v.name) (by_value label v.name there)))
          (λ sels hs. Ends-then_append sels _ hs (split_oversized-Ends vs))

    remainder-Ends :
        (sels : List SelectorInfo) (count : Result ℕ)
        → All IsSplit sels
        → Ends (remainder_of F sorts client s metric max_series again base used label sels count)
    unfolding remainder_of
    remainder-Ends sels (err e) hs = hs
    remainder-Ends sels (ok n) hs = elim (Bool-cases (ltb 0 n)) [
      | inl some_left ↦ elim (Bool-cases (ltb max_series n)) [
        | inl many ↦
            rw (some_left, many)
              (Ends-then_append sels _ hs
                (h (append_empty_label_selector base label) (by_absence label there)))
        | inr few ↦ rw (some_left, few) (All-append IsSplit sels _ hs (inl (ground arith), tt))
      ]
      | inr nothing ↦ rw nothing hs
    ]

    bins-IsSplit :
        (max_values : ℕ) (bins : List Bin)
        → All (IsBin max_series max_values) bins
        → All IsSplit (map (bin_selector F sorts client s metric max_series base label) bins)
    bins-IsSplit max_values [] hs = tt
    bins-IsSplit max_values (b ∷ bs) (hb, hs) = (inl hb.1, bins-IsSplit max_values bs hs)

    split_bins-Ends :
        (max_values : ℕ) (packed : Bins)
        → All (IsBin max_series max_values) packed.bins
        → Ends (split_bins F sorts client s metric max_series again base used label packed)
    unfolding split_bins
    split_bins-Ends max_values packed hs =
        Ends-and_then _ _ (split_oversized-Ends packed.oversized) (λ subs hsub.
          remainder-Ends _
            (client.get_series_count (build_match metric (append_empty_label_selector base label)))
            (All-append IsSplit _ subs (bins-IsSplit max_values packed.bins hs) hsub))

  -- The labels of the server are among those of `universe`.
  module _ (universe : List Text)
      (known : (base : Text) (labels : List Text)
        → client.discover_labels metric base ≡ ok labels
        → All (λ l. elem l universe ≡ true) labels) where
    split_candidates-Ends :
        (again : Split F sorts client s metric max_series) (base : Text)
        (used candidates : List Text)
        → Narrows root base used
        → ((label b : Text)
            → elem label universe ≡ true
            → elem label used ≡ false
            → Narrows root b (used ++ label ∷ [])
            → Ends (again b (used ++ label ∷ [])))
        → All (λ l. elem l universe ≡ true) candidates
        → All (λ l. not (elem l s.exclude_labels || elem l used) ≡ true) candidates
        → ((candidates ≡ []) → IsSplit (leaf F sorts client s metric max_series base))
        → Ends (split_candidates F sorts client s metric max_series again base used candidates)
    unfolding split_candidates split_best
    split_candidates-Ends again base used [] path h there fresh last = (last refl, tt)
    split_candidates-Ends again base used (l ∷ ls) path h there fresh last =
        elim (Result-cases (find_best_split_label F sorts client s metric base (l ∷ ls))) [
          | inl (e, failed) ↦ rw (failed, split_best) tt
          | inr ((label, distribution), found) ↦
              let a =
                find_best_split_label_lem F sorts client s (λ l. elem l universe) metric base
                  (l ∷ ls) label distribution there found in
              let b =
                find_best_split_label_lem F sorts client s
                  (λ l. not (elem l s.exclude_labels || elem l used)) metric base (l ∷ ls) label
                  distribution fresh found in
              rw (found, split_best)
                (split_bins-Ends again base used label path (λ c p. h label c a (ground arith) p)
                  s.max_regex_values _
                  (bin_pack_bounds max_series s.max_regex_values sorts.values distribution).0)
        ]

    recursive_split-Ends :
        (fuel : ℕ) (base : Text) (used : List Text)
        → Narrows root base used
        → unused universe used < fuel
        → Ends (recursive_split F sorts client s metric max_series fuel base used)
    unfolding recursive_split split_labels
    recursive_split-Ends zero base used path enough = omega arith
    recursive_split-Ends (suc fuel) base used path enough =
        elim (Result-cases (client.discover_labels metric base)) [
          | inl (e, failed) ↦ rw (failed, split_labels) tt
          | inr (labels, found) ↦
              let (there, fresh) =
                filter_labels_lem F sorts client s (λ l. elem l universe) labels used
                  (known base labels found) in
              rw (found, split_labels)
                (split_candidates-Ends
                  (λ b u. recursive_split F sorts client s metric max_series fuel b u) base used _
                  path
                  (λ label b k f p.
                    recursive_split-Ends fuel b (used ++ label ∷ []) p
                      (omega (arith, unused_less universe used label k f)))
                  there fresh (λ stop. inr (base, used, labels, path, refl, found, stop)))
        ]

    IsSplit-found :
        (total : ℕ) (o : Option (Result (List SelectorInfo)))
        → Ends o
        → (r : Result SplitResult) × (and_then o
              (λ sels. some (ok (result_of F sorts client s metric max_series total sels)))
            ≡ some r)
          × ((result : SplitResult) → r ≡ ok result → All IsSplit result.selectors)
    IsSplit-found total none h = elim h [ ]
    IsSplit-found total (some (err e)) h =
        (err e, refl, (λ result same. absurd (err_not_ok e result same)))
    IsSplit-found total (some (ok sels)) h = (
      ok (result_of F sorts client s metric max_series total sels),
      refl,
      (λ result same.
          subst (λ (x : SplitResult). All IsSplit x.selectors) (ok_injective _ result same) h),
    )

    -- Where the labels that the server returns are among those of `universe`, a split of a metric
    -- returns with one more unit of fuel than `universe` has labels; if it returns no error, then
    -- each of its selectors has an estimate of at most `max_series` series, or has those matchers of
    -- the metric, narrowed by a value or the absence of each label that was split by, for which the
    -- server has no label left that is neither excluded nor one of these; its estimate is then the
    -- server's count, or 0 where that fails.
    pub split_metric_outcome :
        (fuel : ℕ)
        → length universe < fuel
        → (r : Result SplitResult) × (split_metric F sorts client s metric max_series fuel root
            ≡ some r)
          × ((result : SplitResult) → r ≡ ok result → All IsSplit result.selectors)
    unfolding split_metric
    split_metric_outcome fuel enough =
        elim (Result-cases (client.get_series_count (build_match metric root))) [
          | inl (e, failed) ↦
              rw (failed, split_count)
                (err _, refl, (λ result same. absurd (err_not_ok _ result same)))
          | inr (total, counted) ↦ elim (Bool-cases (ltb max_series total)) [
            | inl many ↦
                rw (counted, split_count)
                  (rw many (
                    IsSplit-found total _ (
                      recursive_split-Ends fuel root [] unsplit
                        (omega (arith, unused_bound universe [])))))
            | inr few ↦
                rw (counted, split_count)
                  (rw few (
                    IsSplit-found total
                      (some (
                        ok (
                          record { selector = build_match metric root; est_series_count = total }
                          ∷ [])))
                      (inl (ground arith), tt)))
          ]
        ]
