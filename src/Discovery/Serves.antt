-- ===== src/Discovery/Serves.antt =====
-- The discovery client of internal/discovery/client.go serves the splitter of
-- internal/splitter/splitter.go.
use victoriametrics_data_mig.Prelude.{
  ℕ, ◌≡◌, inl, inr, false, List, [], ◌∷◌, Option, some, none, Text, codes, is_empty, contains,
  trim_space, Bool-cases, Result, Result-cases, ok, err, ltb, append_assoc, Float, ◌∙◌,
}
use victoriametrics_data_mig.Scheduler.Calendar.{Time}
use victoriametrics_data_mig.Splitter.Selector.{SelectorInfo, strip_braces, build_match}
use victoriametrics_data_mig.Splitter.Recursion.{
  Sorts, Splitter, SplitResult, split_metric, split_count, and_then, result_of, recursive_split,
}
use victoriametrics_data_mig.Splitter.Recursion
use victoriametrics_data_mig.Discovery.{Http, Json, Client, TsdbStatus, build_match_selector}
use victoriametrics_data_mig.Discovery.Queries.{
  discover_labels, get_series_count, get_series_distribution,
}
use victoriametrics_data_mig.Orchestrator.Selectors.Agreement.{strip_braces_blank}
use victoriametrics_data_mig.Discovery.Counts.{IsTsdbStatus, tsdb_params, tsdb_counts_iff}

-- The queries of the splitter for one time range.
abbrev pub client_of : Http → Json → Client → Time → Time → Recursion.Client
client_of http json c start end = record {
  get_series_count = λ match_text. get_series_count http json c match_text start end;
  discover_labels = λ metric base. discover_labels http json c metric base start end;
  get_series_distribution =
      λ match_text label. get_series_distribution http json c match_text label start end;
}

-- The labels of a metric are asked for with the selector that its series are counted with, where
-- the base selector does not contain the text `__name__`.
pub build_match_selector-build_match :
    (metric base : Text)
    → contains (codes "__name__") (strip_braces base) ≡ false
    → build_match_selector metric base ≡ build_match metric base
unfolding build_match_selector build_match trim_space
build_match_selector-build_match metric [] clear = simp append_assoc
build_match_selector-build_match metric (b ∷ base) clear =
    elim (Bool-cases (is_empty (trim_space (b ∷ base)))) [
      | inl blank ↦ rw (blank, strip_braces_blank (b ∷ base) blank) (simp append_assoc)
      | inr some_text ↦ elim (Bool-cases (is_empty (strip_braces (b ∷ base)))) [
        | inl bare ↦ rw (some_text, clear, bare) (simp append_assoc)
        | inr full ↦ rw (some_text, clear, full) (simp append_assoc)
      ]
    ]

module _ (F : Float) (sorts : Sorts F) (http : Http) (json : Json) (c : Client) (s : Splitter)
    (start end : Time) where
  -- A split of a metric that returns a result has as its total the series that the server counted
  -- for the base selector, in an answer with the status 200.
  pub split_metric_served :
      (metric : Text) (max_series fuel : ℕ) (base : Text) (result : SplitResult)
      → split_metric F sorts (client_of http json c start end) s metric max_series fuel base
        ≡ some (ok result)
      → (result.metric_name ≡ metric)
        × ((status : TsdbStatus) × IsTsdbStatus http json c
              (tsdb_params http json c (build_match metric base) [] 1 start end)
              status
            × (status.total_series ≡ result.total_series))
  unfolding split_metric
  split_metric_served metric max_series fuel base result e =
      elim (Result-cases (get_series_count http json c (build_match metric base) start end)) [
        | inl (message, failed) ↦ absurd (failing _ (rw (failed, split_count) at e))
        | inr (total, counted) ↦
            let counts = rw (counted, split_count) at e in
            let (named, same) : (result.metric_name ≡ metric) × (total ≡ result.total_series) =
              elim (Bool-cases (ltb max_series total)) [
                | inl many ↦
                    outcome total
                      (recursive_split F sorts (client_of http json c start end) s metric max_series
                        fuel base [])
                      (rw many at counts)
                | inr few ↦
                    outcome total
                      (some (
                        ok (
                          record { selector = build_match metric base; est_series_count = total }
                          ∷ [])))
                      (rw few at counts)
              ] in
            let (status, got, read) =
              (tsdb_counts_iff http json c (build_match metric base) [] start end total []).0.0
                counted in
            (named, (status, got, read ∙ same))
      ]
    where
      failing :
          (message : Text)
          → ◌≡◌ {A = Option (Result SplitResult)} (some (err message)) (some (ok result))
          → ⊥
      failing message same = cc

      outcome :
          (total : ℕ) (o : Option (Result (List SelectorInfo)))
          → and_then o (λ sels. some (
              ok (
                result_of F sorts
                  (client_of http json c start end)
                  s
                  metric
                  max_series
                  total
                  sels)))
            ≡ some (ok result)
          → (result.metric_name ≡ metric) × (total ≡ result.total_series)
      outcome total none h = cc
      outcome total (some (err message)) h = cc
      outcome total (some (ok sels)) h = (cc, cc)
