-- ===== src/Discovery/Queries.antt =====
-- The queries of internal/discovery/client.go.
use victoriametrics_data_mig.Prelude.{
  ℕ, List, [], ◌∷◌, ◌++◌, Option, none, some, Text, codes, text_eq, Map, insert, ltb, if◌then◌else◌,
  Result, err, ok, wrapped, then_ok, ℤ, pos, decimal,
}
use victoriametrics_data_mig.Scheduler.Calendar.{Time}
use victoriametrics_data_mig.Types.{LabelValueCount}
use victoriametrics_data_mig.Discovery.{
  Http, Json, Client, RawMessage, ApiResponse, TsdbStatus, do_request, set_time, set_text,
  build_match_selector,
}

module _ (http : Http) (json : Json) (c : Client) where
  -- A request, and the answer as JSON.
  abbrev pub fetch : Text → Text → Text → Map Text → Result ApiResponse
  fetch failed unparsed path params =
      then_ok (wrapped failed (do_request http c path params))
        (λ body. wrapped unparsed (json.response body))

  abbrev pub successful : Text → ApiResponse → Result RawMessage
  successful api_error resp =
      if text_eq resp.status (codes "success")
      then ok resp.raw_data
      else err (api_error ++ resp.error)

  -- The same, where the code asks for the status `success`.
  abbrev pub fetch_successful : Text → Text → Text → Text → Map Text → Result RawMessage
  fetch_successful failed unparsed api_error path params =
      then_ok (fetch failed unparsed path params) (successful api_error)

  unfoldable pub discover_metrics : Text → Time → Time → Result (List Text)
  discover_metrics match_text start end =
      then_ok
        (fetch_successful (codes "discovering metrics: ") (codes "parsing metrics response: ")
          (codes "API error discovering metrics: ") (codes "/api/v1/label/__name__/values")
          (set_time (codes "end") end
            (set_time (codes "start") start (set_text (codes "match[]") match_text []))))
        (λ raw. wrapped (codes "parsing metrics data: ") (json.strings raw))

  abbrev pub match_params : Text → Time → Time → Map Text
  match_params match_text start end =
      set_time (codes "end") end
        (set_time (codes "start") start (insert (codes "match[]") match_text []))

  unfoldable pub discover_labels : Text → Text → Time → Time → Result (List Text)
  discover_labels metric base start end =
      then_ok
        (fetch_successful (codes "discovering labels for " ++ (metric ++ codes ": "))
          (codes "parsing labels response: ") (codes "API error discovering labels: ")
          (codes "/api/v1/labels") (match_params (build_match_selector metric base) start end))
        (λ raw. wrapped (codes "parsing labels data: ") (json.strings raw))

  unfoldable pub get_label_values : Text → Text → Text → Time → Time → Result (List Text)
  get_label_values label_name metric base start end =
      then_ok
        (fetch_successful
          (codes "getting label values for "
            ++ (metric ++ (codes "/" ++ (label_name ++ codes ": "))))
          (codes "parsing label values response: ") (codes "API error getting label values: ")
          (codes "/api/v1/label/" ++ (http.path_escape label_name ++ codes "/values"))
          (match_params (build_match_selector metric base) start end))
        (λ raw. wrapped (codes "parsing label values data: ") (json.strings raw))

  abbrev pub set_top_n : ℕ → Map Text → Map Text
  set_top_n top_n params =
      if ltb 0 top_n then insert (codes "topN") (decimal top_n) params else params

  -- This query does not ask for the status `success`.
  unfoldable pub get_tsdb_status : Text → Text → ℕ → Time → Time → Result TsdbStatus
  get_tsdb_status match_text focus_label top_n start end =
      then_ok
        (fetch (codes "getting TSDB status: ") (codes "parsing TSDB status response: ")
          (codes "/api/v1/status/tsdb")
          (set_time (codes "end") end (
            set_time (codes "start") start (
              set_top_n top_n (
                set_text (codes "focusLabel") focus_label
                  (set_text (codes "match[]") match_text []))))))
        (λ resp. wrapped (codes "parsing TSDB status data: ") (json.tsdb_status resp.raw_data))

  unfoldable pub get_series_count : Text → Time → Time → Result ℕ
  unfolding get_tsdb_status
  get_series_count match_text start end =
      then_ok (get_tsdb_status match_text [] 1 start end) (λ status. ok status.total_series)

  unfoldable pub get_series_distribution : Text → Text → Time → Time → Result (List LabelValueCount)
  unfolding get_tsdb_status
  get_series_distribution match_text focus_label start end =
      then_ok (get_tsdb_status match_text focus_label 100_000 start end)
        (λ status. ok status.series_count_by_focus_label_value)

  -- The text of the count, the second value of the first result.
  abbrev pub count_text : List (List RawMessage) → Option RawMessage
  count_text ((at_time ∷ count ∷ more) ∷ results) = some count
  count_text _ = none

  abbrev pub read_count : Option RawMessage → Result ℤ
  read_count none = ok (pos 0)
  read_count (some raw) =
      then_ok (wrapped (codes "parsing count value: ") (json.string raw)) (λ text.
        wrapped (codes "converting count " ++ (json.quoted text ++ codes " to int: "))
          (json.atoi text))

  unfoldable pub get_series_count_fast : Text → Time → Result ℤ
  get_series_count_fast match_text end =
      then_ok
        (fetch_successful (codes "fast series count for " ++ (match_text ++ codes ": "))
          (codes "parsing fast count response: ") (codes "API error in fast count: ")
          (codes "/api/v1/query")
          (insert (codes "step") (codes "86400") (
            set_time (codes "time") end
              (insert (codes "query") (codes "count(" ++ (match_text ++ codes ")")) []))))
        (λ raw.
          then_ok (wrapped (codes "parsing fast count data: ") (json.query_result raw))
            (λ results. read_count (count_text results)))
