-- ===== src/Discovery/Counts.antt =====
-- When the queries for counts of internal/discovery/client.go return no error.
use victoriametrics_data_mig.Prelude.{
  inl, inr, ◌⊎◌, ◌∷◌, length, ◌<◌, arith, refl, ℕ, ◌≡◌, ◌↔◌, List, [], ◌++◌, Option, none, some,
  Text, codes, Map, ok, then_ok, wrapped, then_ok_iff, then_wrapped_iff, wrapped_iff, ok_injective,
  ap, insert, ℤ, pos,
}
use victoriametrics_data_mig.Scheduler.Calendar.{Time}
use victoriametrics_data_mig.Types.{LabelValueCount}
use victoriametrics_data_mig.Discovery.{
  Http, Json, Client, RawMessage, ApiResponse, TsdbStatus, set_time, set_text,
}
use victoriametrics_data_mig.Discovery.Queries.{
  fetch, fetch_successful, get_tsdb_status, get_series_count, get_series_distribution,
  get_series_count_fast, count_text, read_count, set_top_n,
}
use victoriametrics_data_mig.Discovery.Answers.{IsBody, IsAnswer, fetch_iff, fetch_successful_iff}

module _ (http : Http) (json : Json) (c : Client) where
  abbrev pub tsdb_params : Text → Text → ℕ → Time → Time → Map Text
  tsdb_params match_text focus_label top_n start end = set_time (codes "end") end (
      set_time (codes "start") start (
        set_top_n http json c top_n
          (set_text (codes "focusLabel") focus_label (set_text (codes "match[]") match_text []))))

  -- The server's answer with the status 200 has a TSDB status, whatever the answer's own status is.
  abbrev pub IsTsdbStatus : Map Text → TsdbStatus → Type 0
  IsTsdbStatus params status =
      (resp : ApiResponse) × ((body : Text) × IsBody http json c (codes "/api/v1/status/tsdb")
          params body
        × (json.response body ≡ ok resp))
      × (json.tsdb_status resp.raw_data ≡ ok status)

  get_tsdb_status_iff :
      (match_text focus_label : Text) (top_n : ℕ) (start end : Time) (status : TsdbStatus)
      → (get_tsdb_status http json c match_text focus_label top_n start end ≡ ok status)
        ↔ IsTsdbStatus (tsdb_params match_text focus_label top_n start end) status
  unfolding get_tsdb_status
  get_tsdb_status_iff match_text focus_label top_n start end status =
      let params = tsdb_params match_text focus_label top_n start end in
      let failed = codes "getting TSDB status: " in
      let unparsed = codes "parsing TSDB status response: " in
      let bad_data = codes "parsing TSDB status data: " in
      let path = codes "/api/v1/status/tsdb" in
      let parts =
        then_ok_iff (fetch http json c failed unparsed path params)
          (λ resp. wrapped bad_data (json.tsdb_status resp.raw_data)) status in
      (
        (λ h.
            let (resp, fetched, read) = parts.0 h in
            (
              resp,
              (fetch_iff http json c failed unparsed path params resp).0 fetched,
              (wrapped_iff bad_data (json.tsdb_status resp.raw_data) status).0 read,
            )),
        λ (resp, fetched, read). parts.1 (
          resp,
          (fetch_iff http json c failed unparsed path params resp).1 fetched,
          (wrapped_iff bad_data (json.tsdb_status resp.raw_data) status).1 read,
        ),
      )

  -- A field of the status.
  field_iff {ℓ} :
      {A : Type ℓ} (match_text focus_label : Text) (top_n : ℕ) (start end : Time)
      (field : TsdbStatus → A) (a : A)
      → (then_ok
            (get_tsdb_status http json c match_text focus_label top_n start end)
            (λ status. ok (field status))
          ≡ ok a)
        ↔ ((status : TsdbStatus) × IsTsdbStatus
              (tsdb_params match_text focus_label top_n start end)
              status
            × (field status ≡ a))
  field_iff match_text focus_label top_n start end field a =
      let parts =
        then_ok_iff (get_tsdb_status http json c match_text focus_label top_n start end)
          (λ status. ok (field status)) a in
      let status_iff = get_tsdb_status_iff match_text focus_label top_n start end in
      (
        (λ h.
            let (status, got, same) = parts.0 h in
            (status, (status_iff status).0 got, ok_injective _ a same)),
        λ (status, got, same). parts.1 (status, (status_iff status).1 got, ap ok same),
      )

  abbrev IsNumber : Option RawMessage → ℤ → Type 0
  IsNumber none n = pos 0 ≡ n
  IsNumber (some raw) n = (text : Text) × (json.string raw ≡ ok text) × (json.atoi text ≡ ok n)

  read_count_iff :
      (o : Option RawMessage) (n : ℤ) → (read_count http json c o ≡ ok n) ↔ IsNumber o n
  read_count_iff none n = ((λ h. ok_injective (pos 0) n h), λ h. ap ok h)
  read_count_iff (some raw) n =
      let message =
        λ (text : Text). codes "converting count " ++ (json.quoted text ++ codes " to int: ") in
      let parts =
        then_wrapped_iff (codes "parsing count value: ") (json.string raw)
          (λ text. wrapped (message text) (json.atoi text)) n in
      (
        (λ h.
            let (text, read, number) = parts.0 h in
            (text, read, (wrapped_iff (message text) (json.atoi text) n).0 number)),
        λ (text, read, number).
            parts.1 (text, read, (wrapped_iff (message text) (json.atoi text) n).1 number),
      )

  -- The number in the results: the second value of the first one, a string that `Atoi` reads, or 0
  -- where there is no result or the first has fewer than two values.
  abbrev pub IsCount : List (List RawMessage) → ℤ → Type 0
  IsCount results n =
      ((time : RawMessage) × (value : RawMessage) × (more : List RawMessage) × (rest : List
          (List RawMessage))
        × (results ≡ (time ∷ value ∷ more) ∷ rest)
        × ((text : Text) × (json.string value ≡ ok text) × (json.atoi text ≡ ok n)))
      ⊎ ((results ≡ [])
          ⊎ (values : List RawMessage) × (rest : List (List RawMessage)) × (results ≡ values ∷ rest)
            × (length values < 2))
        × (pos 0 ≡ n)

  first_value_iff :
      (results : List (List RawMessage)) (n : ℤ)
      → (read_count http json c (count_text http json c results) ≡ ok n) ↔ IsCount results n
  first_value_iff [] n = (
    (λ h. inr (inl refl, (read_count_iff none n).0 h)),
    λ e. elim e [
      | inl (t, v, more, rest, same, _) ↦ cc
      | inr (_, zero_there) ↦ (read_count_iff none n).1 zero_there
    ],
  )
  first_value_iff ([] ∷ rs) n = (
    (λ h. inr (inr ([], rs, refl, omega arith), (read_count_iff none n).0 h)),
    λ e. elim e [
      | inl (t, v, more, rest, same, _) ↦ cc
      | inr (_, zero_there) ↦ (read_count_iff none n).1 zero_there
    ],
  )
  first_value_iff ((t ∷ []) ∷ rs) n = (
    (λ h. inr (inr (t ∷ [], rs, refl, omega arith), (read_count_iff none n).0 h)),
    λ e. elim e [
      | inl (t', v, more, rest, same, _) ↦ cc
      | inr (_, zero_there) ↦ (read_count_iff none n).1 zero_there
    ],
  )
  first_value_iff ((t ∷ v ∷ vs) ∷ rs) n = (
    (λ h. inl (t, v, vs, rs, refl, (read_count_iff (some v) n).0 h)),
    λ e. elim e [
      | inl (t', v', more, rest, same, number) ↦
          let there : v ≡ v' = cc in (read_count_iff (some v) n).1 (rw there number)
      | inr (inl none_there, _) ↦ cc
      | inr (inr (values, rest, same, few), _) ↦
          let there : values ≡ t ∷ v ∷ vs = cc in
          let small : length (t ∷ v ∷ vs) < 2 = rw there at few in
          let never : ⊥ = omega (arith, small) in absurd never
    ],
  )

  -- The fast count of a selector is a number exactly where the server's answer to the instant query
  -- of its count is read whole, with status 200 and the API status `success`, and that number is the
  -- second value of the first result, or zero where there is none.
  pub get_series_count_fast_iff :
      (match_text : Text) (end : Time) (n : ℤ)
      → (get_series_count_fast http json c match_text end ≡ ok n) ↔ (
          (raw : RawMessage) × IsAnswer http json c
            (codes "/api/v1/query")
            (insert (codes "step") (codes "86400") (
              set_time
                (codes "time")
                end
                (insert (codes "query") (codes "count(" ++ (match_text ++ codes ")")) [])))
            raw
          × ((results : List (List RawMessage)) × (json.query_result raw ≡ ok results)
              × IsCount results n))
  unfolding get_series_count_fast
  get_series_count_fast_iff match_text end n =
      let params = insert (codes "step") (codes "86400") (
        set_time (codes "time") end
          (insert (codes "query") (codes "count(" ++ (match_text ++ codes ")")) [])) in
      let failed = codes "fast series count for " ++ (match_text ++ codes ": ") in
      let unparsed = codes "parsing fast count response: " in
      let api_error = codes "API error in fast count: " in
      let path = codes "/api/v1/query" in
      let fetched = fetch_successful_iff http json c failed unparsed api_error path params in
      let inner = λ (raw : RawMessage).
        then_wrapped_iff (codes "parsing fast count data: ") (json.query_result raw)
          (λ results. read_count http json c (count_text http json c results)) n in
      let outer =
        then_ok_iff (fetch_successful http json c failed unparsed api_error path params)
          (λ raw.
            then_ok (wrapped (codes "parsing fast count data: ") (json.query_result raw))
              (λ results. read_count http json c (count_text http json c results)))
          n in
      (
        (λ h.
            let (raw, got, rest) = outer.0 h in
            let (results, parsed, counted) = (inner raw).0 rest in
            (raw, (fetched raw).0 got, (results, parsed, (first_value_iff results n).0 counted))),
        λ (raw, got, (results, parsed, counted)). outer.1 (
          raw,
          (fetched raw).1 got,
          (inner raw).1 (results, parsed, (first_value_iff results n).1 counted),
        ),
      )

  -- The count of a selector's series and the counts of a label's values are a number and a list
  -- exactly where the server's answer is read whole with status 200 and its data is a TSDB status
  -- with that total and that list. Whether the answer calls itself an error makes no difference.
  pub tsdb_counts_iff :
      (match_text label : Text) (start end : Time) (n : ℕ) (dist : List LabelValueCount)
      → ((get_series_count http json c match_text start end ≡ ok n) ↔ (
          (status : TsdbStatus) × IsTsdbStatus (tsdb_params match_text [] 1 start end) status
          × (status.total_series ≡ n)))
        × ((get_series_distribution http json c match_text label start end ≡ ok dist) ↔ (
            (status : TsdbStatus) × IsTsdbStatus
              (tsdb_params match_text label 100_000 start end)
              status
            × (status.series_count_by_focus_label_value ≡ dist)))
  unfolding get_series_count get_series_distribution
  tsdb_counts_iff match_text label start end n dist = (
    field_iff match_text [] 1 start end (λ status. status.total_series) n,
    field_iff match_text label 100_000 start end
        (λ status. status.series_count_by_focus_label_value) dist,
  )
