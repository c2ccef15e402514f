-- ===== src/Splitter/Recursion/Cover.antt =====
-- `SplitMetric` of internal/splitter/splitter.go loses no series and selects none twice.
use victoriametrics_data_mig.Prelude.{
  ℕ, zero, suc, ◌<◌, ◌≡◌, inl, inr, true, not, ◌||◌, List, [], ◌∷◌, ◌++◌, Option, none, some, arith,
  Text, codes, All, ap, ◌∙◌, length, Bool-cases, Result, Float, err, ok, Result-cases, ltb,
}
use victoriametrics_data_mig.Splitter.Selector.{SelectorInfo, build_match}
use victoriametrics_data_mig.Splitter.Recursion.{
  Client, Sorts, Splitter, SplitResult, elem, and_then, find_best_split_label, split_best,
  split_candidates, split_labels, recursive_split, Split, result_of, split_count, split_metric,
}
use victoriametrics_data_mig.Splitter.Recursion.Candidates.{
  filter_labels_lem, find_best_split_label_lem,
}
use victoriametrics_data_mig.Splitter.Recursion.Best.{find_best_split_label_answered}
use victoriametrics_data_mig.Splitter.Recursion.Meaning.{ind, Store, times, IsServed}
use victoriametrics_data_mig.Splitter.Recursion.Outcome.{split_metric_outcome}
use victoriametrics_data_mig.Splitter.Recursion.Partition.{Gives, bins_give}

module _ (F : Float) (sorts : Sorts F) (client : Client) (s : Splitter) (metric : Text)
    (max_series : ℕ) (st : Store) (universe values : List Text) (Reads : Text → List Text → Type 0)
    (served : IsServed client s metric st universe values Reads) where
  module _ (x : st.Series) where
    abbrev Once : Text → Option (Result (List SelectorInfo)) → Type 0
    Once base o =
        Gives F sorts client s metric max_series st universe values Reads served x
          (ind (st.selects (build_match metric base) x)) o

    candidates-Once :
        (again : Split F sorts client s metric max_series) (base : Text)
        (used candidates : List Text)
        → Reads base used
        → ((b : Text) (label : Text)
            → Reads b (used ++ label ∷ [])
            → Once b (again b (used ++ label ∷ [])))
        → All (λ l. elem l universe ≡ true) candidates
        → All (λ l. not (elem l s.exclude_labels || elem l used) ≡ true) candidates
        → Once base (split_candidates F sorts client s metric max_series again base used candidates)
    unfolding split_candidates split_best
    candidates-Once again base used [] reads h there fresh = omega arith
    candidates-Once again base used (l ∷ ls) reads h there fresh =
        elim (Result-cases (find_best_split_label F sorts client s metric base (l ∷ ls))) [
          | inl (e, failed) ↦ rw (failed, split_best) tt
          | inr ((label, dist), found) ↦
              let a =
                find_best_split_label_lem F sorts client s (λ k. elem k universe) metric base
                  (l ∷ ls) label dist there found in
              let b =
                find_best_split_label_lem F sorts client s
                  (λ k. not (elem k s.exclude_labels || elem k used)) metric base (l ∷ ls) label
                  dist fresh found in
              rw (found, split_best)
                (bins_give F sorts client s metric max_series st universe values Reads served x base
                  used label reads (a, b) again
                  (λ v known. h _ label (served.exact-Reads base used label v reads (a, b) known))
                  (h _ label (served.empty-Reads base used label reads (a, b))) dist
                  (find_best_split_label_answered F sorts client s metric base (l ∷ ls) label dist
                    found))
        ]

    recursive_split-Once :
        (fuel : ℕ) (base : Text) (used : List Text)
        → Reads base used
        → Once base (recursive_split F sorts client s metric max_series fuel base used)
    unfolding recursive_split split_labels
    recursive_split-Once zero base used reads = tt
    recursive_split-Once (suc fuel) base used reads =
        elim (Result-cases (client.discover_labels metric base)) [
          | inl (e, failed) ↦ rw (failed, split_labels) tt
          | inr (labels, found) ↦
              let (there, fresh) =
                filter_labels_lem F sorts client s (λ l. elem l universe) labels used
                  (served.discovers base labels found) in
              rw (found, split_labels)
                (candidates-Once
                  (λ b u. recursive_split F sorts client s metric max_series fuel b u) base used _
                  reads (λ b label r. recursive_split-Once fuel b (used ++ label ∷ []) r) there
                  fresh)
        ]

    result_once :
        (total n : ℕ) (o : Option (Result (List SelectorInfo))) (result : SplitResult)
        → Gives F sorts client s metric max_series st universe values Reads served x n o
        → and_then o (λ sels. some (ok (result_of F sorts client s metric max_series total sels)))
          ≡ some (ok result)
        → times st x result.selectors ≡ n
    result_once total n none result h e = cc
    result_once total n (some (err w)) result h e = cc
    result_once total n (some (ok sels)) result h e = ground (arith, h)

    split_metric_once :
        (fuel : ℕ) (base : Text) (result : SplitResult)
        → Reads base []
        → split_metric F sorts client s metric max_series fuel base ≡ some (ok result)
        → times st x result.selectors ≡ ind (st.selects (build_match metric base) x)
    unfolding split_metric
    split_metric_once fuel base result reads e =
        elim (Result-cases (client.get_series_count (build_match metric base))) [
          | inl (w, failed) ↦ absurd (clash w (rw (failed, split_count) at e))
          | inr (total, counted) ↦ elim (Bool-cases (ltb max_series total)) [
            | inl many ↦
                result_once total _
                  (recursive_split F sorts client s metric max_series fuel base []) result
                  (recursive_split-Once fuel base [] reads)
                  (rw many at (rw (counted, split_count) at e))
            | inr few ↦ single total (rw few at (rw (counted, split_count) at e))
          ]
        ]
      where
        clash :
            (w : Text)
            → ¬ ◌≡◌ {A = Option (Result SplitResult)}
                (some (err (codes "getting series count for " ++ (metric ++ (codes ": " ++ w)))))
                (some (ok result))
        clash w h = cc

        single :
            (total : ℕ)
            → ◌≡◌ {A = Option (Result SplitResult)}
                (some (
                  ok (
                    result_of F sorts client s metric max_series total (
                      record { selector = build_match metric base; est_series_count = total }
                      ∷ []))))
                (some (ok result))
            → times st x result.selectors ≡ ind (st.selects (build_match metric base) x)
        single total h = ground arith

  -- Where the server answers for the base selectors that the split meets as `IsServed` says, a split
  -- of a metric returns with one more unit of fuel than the server has labels; if it returns no
  -- error, then every series of the server that the base selects is selected by exactly one of the
  -- selectors, and no other series by any.
  pub split_metric_partition :
      (fuel : ℕ) (base : Text)
      → Reads base []
      → length universe < fuel
      → (r : Result SplitResult) × (split_metric F sorts client s metric max_series fuel base
          ≡ some r)
        × ((result : SplitResult)
            → r ≡ ok result
            → (x : st.Series)
            → times st x result.selectors ≡ ind (st.selects (build_match metric base) x))
  split_metric_partition fuel base reads enough =
      let (r, returns, _) =
        split_metric_outcome F sorts client s metric max_series base universe served.discovers fuel
          enough in
      (r, returns, λ result e x. split_metric_once x fuel base result reads (returns ∙ ap some e))
