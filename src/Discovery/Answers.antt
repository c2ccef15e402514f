-- ===== src/Discovery/Answers.antt =====
-- When the queries of internal/discovery/client.go return no error.
use victoriametrics_data_mig.Prelude.{
  some_not_none, ◌≡◌, refl, ◌↔◌, List, [], ◌++◌, Option, none, some, Text, codes, Map, text_eq,
  text_eq_iff, ◌==◌, ==_iff, ok, then_ok, wrapped, then_ok_iff, then_wrapped_iff, wrapped_iff,
  guarded_iff, err_not_ok, ap, ◌∙◌, sym,
}
use victoriametrics_data_mig.Scheduler.Calendar.{Time}
use victoriametrics_data_mig.Discovery.{
  Http, Json, Client, Request, Response, ApiResponse, RawMessage, request_url, request_headers,
  send_request, body_of, status_error, status_of, do_request, build_match_selector, set_time,
  set_text,
}
use victoriametrics_data_mig.Discovery.Queries.{
  successful, fetch_successful, fetch, match_params, discover_metrics, discover_labels,
  get_label_values,
}

module _ (http : Http) (json : Json) (c : Client) where
  -- The request for a path with its parameters.
  abbrev pub request_of : Text → Map Text → Request
  request_of path params = record {
    url = request_url http c path params;
    headers = request_headers http c;
  }

  -- The server's answer to the request is read whole and has the status 200.
  abbrev pub IsBody : Text → Map Text → Text → Type 0
  IsBody path params body =
      (http.url_error (request_url http c path params) ≡ none)
      × ((resp : Response) × (http.send c.insecure_skip_verify (request_of path params) ≡ ok resp)
          × (resp.body ≡ ok body)
          × (resp.status_code ≡ 200))

  -- Its body is an answer of the API with the status `success` and the data `raw`.
  abbrev pub IsAnswer : Text → Map Text → RawMessage → Type 0
  IsAnswer path params raw =
      (body : Text) × IsBody path params body
      × ((resp : ApiResponse) × (json.response body ≡ ok resp)
          × (resp.status ≡ codes "success")
          × (resp.raw_data ≡ raw))

  body_of_iff :
      (url : Text) (resp : Response) (body : Text)
      → (body_of http url resp ≡ ok body) ↔ ((resp.body ≡ ok body) × (resp.status_code ≡ 200))
  body_of_iff url resp body =
      let parts =
        then_wrapped_iff (codes "reading response body: ") resp.body
          (status_of resp.status_code url) body in
      let test = λ (text : Text).
        guarded_iff (resp.status_code == 200) text body (status_error resp.status_code url text) in
      (
        (λ h.
            let (text, read, good) = parts.0 h in
            let (fine, same) = (test text).0 good in
            (read ∙ ap ok same, (==_iff resp.status_code 200).0 fine)),
        (λ (read, good).
            parts.1 (body, read, (test body).1 ((==_iff resp.status_code 200).1 good, refl))),
      )

  do_request_iff :
      (path : Text) (params : Map Text) (body : Text)
      → (do_request http c path params ≡ ok body) ↔ IsBody path params body
  unfolding do_request
  do_request_iff path params body = sent (http.url_error (request_url http c path params)) refl
    where
      sent :
          (o : Option Text)
          → http.url_error (request_url http c path params) ≡ o
          → (send_request http c (request_url http c path params) o ≡ ok body)
            ↔ IsBody path params body
      sent (some e) h = (
        (λ bad. absurd (err_not_ok _ body bad)),
        λ (clear, _). absurd (some_not_none e (sym h ∙ clear)),
      )
      sent none h =
          let url = request_url http c path params in
          let answer = http.send c.insecure_skip_verify (request_of path params) in
          let parts =
            then_wrapped_iff (codes "executing request to " ++ (url ++ codes ": ")) answer
              (body_of http url) body in
          (
            (λ good.
                let (resp, sent_it, read) = parts.0 good in
                let (whole, fine) = (body_of_iff url resp body).0 read in
                (h, (resp, sent_it, whole, fine))),
            λ (_, (resp, sent_it, whole, fine)).
                parts.1 (resp, sent_it, (body_of_iff url resp body).1 (whole, fine)),
          )

  pub fetch_iff :
      (failed unparsed path : Text) (params : Map Text) (resp : ApiResponse)
      → (fetch http json c failed unparsed path params ≡ ok resp)
        ↔ ((body : Text) × IsBody path params body × (json.response body ≡ ok resp))
  fetch_iff failed unparsed path params resp =
      let parts =
        then_wrapped_iff failed (do_request http c path params)
          (λ body. wrapped unparsed (json.response body)) resp in
      (
        (λ h.
            let (body, got, read) = parts.0 h in
            (
              body,
              (do_request_iff path params body).0 got,
              (wrapped_iff unparsed (json.response body) resp).0 read,
            )),
        λ (body, got, read). parts.1 (
          body,
          (do_request_iff path params body).1 got,
          (wrapped_iff unparsed (json.response body) resp).1 read,
        ),
      )

  pub fetch_successful_iff :
      (failed unparsed api_error path : Text) (params : Map Text) (raw : RawMessage)
      → (fetch_successful http json c failed unparsed api_error path params ≡ ok raw)
        ↔ IsAnswer path params raw
  fetch_successful_iff failed unparsed api_error path params raw =
      let parts =
        then_ok_iff (fetch http json c failed unparsed path params)
          (successful http json c api_error) raw in
      let test = λ (resp : ApiResponse).
        guarded_iff (text_eq resp.status (codes "success")) resp.raw_data raw
          (api_error ++ resp.error) in
      (
        (λ h.
            let (resp, fetched, good) = parts.0 h in
            let (body, got, read) = (fetch_iff failed unparsed path params resp).0 fetched in
            let (fine, same) = (test resp).0 good in
            (body, got, (resp, read, (text_eq_iff resp.status (codes "success")).0 fine, same))),
        λ (body, got, (resp, read, fine, same)). parts.1 (
          resp,
          (fetch_iff failed unparsed path params resp).1 (body, got, read),
          (test resp).1 ((text_eq_iff resp.status (codes "success")).1 fine, same),
        ),
      )

  -- What a query of a list of texts returns.
  texts_iff :
      (failed unparsed api_error bad_data path : Text) (params : Map Text) (texts : List Text)
      → (then_ok
            (fetch_successful http json c failed unparsed api_error path params)
            (λ raw. wrapped bad_data (json.strings raw))
          ≡ ok texts)
        ↔ ((raw : RawMessage) × IsAnswer path params raw × (json.strings raw ≡ ok texts))
  texts_iff failed unparsed api_error bad_data path params texts =
      let parts =
        then_ok_iff (fetch_successful http json c failed unparsed api_error path params)
          (λ raw. wrapped bad_data (json.strings raw)) texts in
      let fetched = fetch_successful_iff failed unparsed api_error path params in
      (
        (λ h.
            let (raw, got, read) = parts.0 h in
            (raw, (fetched raw).0 got, (wrapped_iff bad_data (json.strings raw) texts).0 read)),
        λ (raw, got, read).
            parts.1
              (raw, (fetched raw).1 got, (wrapped_iff bad_data (json.strings raw) texts).1 read),
      )

  -- Each query for metrics, labels or label values returns a list exactly where the request can be
  -- made, the server's answer is read whole with status 200, it is an API answer with the status
  -- `success`, and its data is that list.
  pub text_queries_iff :
      (metric base label_name : Text) (start end : Time) (texts : List Text)
      → ((discover_metrics http json c base start end ≡ ok texts) ↔ (
          (raw : RawMessage) × IsAnswer
            (codes "/api/v1/label/__name__/values")
            (set_time
              (codes "end")
              end
              (set_time (codes "start") start (set_text (codes "match[]") base [])))
            raw
          × (json.strings raw ≡ ok texts)))
        × ((discover_labels http json c metric base start end ≡ ok texts) ↔ (
            (raw : RawMessage) × IsAnswer
              (codes "/api/v1/labels")
              (match_params http json c (build_match_selector metric base) start end)
              raw
            × (json.strings raw ≡ ok texts)))
        × ((get_label_values http json c label_name metric base start end ≡ ok texts) ↔ (
            (raw : RawMessage) × IsAnswer
              (codes "/api/v1/label/" ++ (http.path_escape label_name ++ codes "/values"))
              (match_params http json c (build_match_selector metric base) start end)
              raw
            × (json.strings raw ≡ ok texts)))
  unfolding discover_metrics discover_labels get_label_values
  text_queries_iff metric base label_name start end texts = (
    texts_iff (codes "discovering metrics: ") (codes "parsing metrics response: ")
        (codes "API error discovering metrics: ") (codes "parsing metrics data: ") _ _ texts,
    texts_iff (codes "discovering labels for " ++ (metric ++ codes ": "))
        (codes "parsing labels response: ") (codes "API error discovering labels: ")
        (codes "parsing labels data: ") _ _ texts,
    texts_iff
        (codes "getting label values for " ++ (metric ++ (codes "/" ++ (label_name ++ codes ": "))))
        (codes "parsing label values response: ") (codes "API error getting label values: ")
        (codes "parsing label values data: ") _ _ texts,
  )
