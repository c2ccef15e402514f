-- ===== src/Discovery.antt =====
-- internal/discovery/client.go: the queries of VictoriaMetrics' HTTP APIs. The network, package
-- net/http with net/url and the JSON decoder are parameters.
pub mod Auth
pub mod Queries
pub mod Answers
pub mod Counts
pub mod Serves
mod Tests
use mathlib.Core.List.{reverse}
use victoriametrics_data_mig.Prelude.{
  ℕ, ◌+◌, ◌-◌, ◌*◌, ◌/◌, Bool, true, false, not, ◌&&◌, List, [], ◌∷◌, ◌++◌, Option, none, some,
  Text, codes, is_empty, text_eq, trim_prefix, trim_suffix, trim_space, join, Map, insert, leb, ltb,
  ◌==◌, if◌then◌else◌, length, Result, err, ok, wrapped, then_ok, ℤ, pos, negsuc, show_int, decimal,
}
use victoriametrics_data_mig.Scheduler.Calendar.{Time, instant, day}
use victoriametrics_data_mig.Types.{LabelValueCount}
use victoriametrics_data_mig.Splitter.Selector.{strip_braces}
use victoriametrics_data_mig.Config.{BasicAuthConfig, SourceConfig}

-- A GET request: its URL and the headers that are set.
pub record Request : Type 0 where
  pub url : Text
  pub headers : Map Text

-- The body is an error where it cannot be read.
pub record Response : Type 0 where
  pub status_code : ℕ
  pub body : Result Text

-- `url.Values.Encode`, `url.PathEscape`, the key that `http.Header.Set` writes, the value that
-- `SetBasicAuth` writes, the error of `http.NewRequest` for a URL, and the network with or without
-- the verification of certificates.
pub record Http : Type 0 where
  pub encode : Map Text → Text
  pub path_escape : Text → Text
  pub canonical : Text → Text
  pub basic : Text → Text → Text
  pub url_error : Text → Option Text
  pub send : Bool → Request → Result Response

-- Some JSON that is read later.
abbrev pub RawMessage : Type 0
RawMessage = Text

pub record ApiResponse : Type 0 where
  pub status : Text
  pub raw_data : RawMessage
  pub error : Text

-- The fields of `types.TSDBStatus` that the client reads.
pub record TsdbStatus : Type 0 where
  pub total_series : ℕ
  pub series_count_by_focus_label_value : List LabelValueCount

-- `json.Unmarshal` at the types that the client reads, the values of a query's results among them,
-- `strconv.Atoi`, and the verb `%q`.
pub record Json : Type 0 where
  pub response : Text → Result ApiResponse
  pub strings : RawMessage → Result (List Text)
  pub tsdb_status : RawMessage → Result TsdbStatus
  pub query_result : RawMessage → Result (List (List RawMessage))
  pub string : RawMessage → Result Text
  pub atoi : Text → Result ℤ
  pub quoted : Text → Text

pub record Client : Type 0 where
  pub base_url : Text
  pub insecure_skip_verify : Bool
  pub headers : Map Text
  pub bearer_token : Text
  pub basic_auth : BasicAuthConfig

abbrev drop_slashes : Text → Text
drop_slashes [] = []
drop_slashes (c ∷ s) = if c == b'/' then drop_slashes s else c ∷ s

pub new_client : SourceConfig → Client
new_client cfg = record {
  base_url = reverse (drop_slashes (reverse cfg.vmselect_url));
  insecure_skip_verify = cfg.tls.insecure_skip_verify;
  headers = cfg.headers;
  bearer_token = cfg.bearer_token;
  basic_auth = cfg.basic_auth;
}

unfoldable pub build_match_selector : Text → Text → Text
build_match_selector metric base =
    let name = codes "__name__=\"" ++ (metric ++ codes "\"") in
    let sel = strip_braces base in
    let parts =
      if is_empty base then name ∷ [] else if is_empty sel then name ∷ [] else name ∷ sel ∷ [] in
    codes "{" ++ (join (codes ",") parts ++ codes "}")

-- `t.IsZero()`: the first of January of the year 1, 306 days after the calendar's start.
abbrev pub is_zero_time : Time → Bool
is_zero_time t = instant t == 307 * day

-- `t.Unix()`, the seconds since 1970, which starts 719468 days after the calendar does.
abbrev pub unix : Time → ℤ
unix t =
    let s = instant t / 1_000_000_000 in
    let epoch = 719_469 * 86_400 in if leb epoch s then pos (s - epoch) else negsuc (epoch - s - 1)

abbrev pub set_time : Text → Time → Map Text → Map Text
set_time k t params = if is_zero_time t then params else insert k (show_int (unix t)) params

abbrev pub set_text : Text → Text → Map Text → Map Text
set_text k v params = if is_empty v then params else insert k v params

abbrev pub status_error : ℕ → Text → Text → Text
status_error status_code url body =
    codes "unexpected status "
    ++ (decimal status_code ++ (codes " from " ++ (url ++ (codes ": " ++ body))))

abbrev pub status_of : ℕ → Text → Text → Result Text
status_of status_code url body =
    if status_code == 200 then ok body else err (status_error status_code url body)

module _ (http : Http) where
  abbrev pub set_header : Text → Text → Map Text → Map Text
  set_header k v headers = insert (http.canonical k) v headers

  abbrev pub set_headers : Map Text → Map Text → Map Text
  set_headers [] headers = headers
  set_headers ((k, v) ∷ more) headers = set_headers more (set_header k v headers)

  abbrev pub set_bearer : Text → Map Text → Map Text
  set_bearer token headers =
      if is_empty token
      then headers
      else set_header (codes "Authorization") (codes "Bearer " ++ token) headers

  abbrev pub set_basic_auth : BasicAuthConfig → Map Text → Map Text
  set_basic_auth auth headers =
      if is_empty auth.username
      then headers
      else set_header (codes "Authorization") (http.basic auth.username auth.password) headers

  -- The headers of a request, with the configured ones in the order of the loop over the map.
  unfoldable pub request_headers : Client → Map Text
  request_headers c =
      set_headers c.headers (set_basic_auth c.basic_auth (set_bearer c.bearer_token []))

  abbrev pub request_url : Client → Text → Map Text → Text
  request_url c path [] = c.base_url ++ path
  request_url c path (p ∷ params) = (c.base_url ++ path) ++ (codes "?" ++ http.encode (p ∷ params))

  abbrev pub body_of : Text → Response → Result Text
  body_of url resp =
      then_ok (wrapped (codes "reading response body: ") resp.body) (status_of resp.status_code url)

  abbrev pub send_request : Client → Text → Option Text → Result Text
  send_request c url (some e) = err (codes "creating request: " ++ e)
  send_request c url none =
      then_ok
        (wrapped (codes "executing request to " ++ (url ++ codes ": "))
          (http.send c.insecure_skip_verify (record { url = url; headers = request_headers c })))
        (body_of url)

  unfoldable pub do_request : Client → Text → Map Text → Result Text
  do_request c path params =
      let url = request_url c path params in send_request c url (http.url_error url)
