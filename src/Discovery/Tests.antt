-- ===== src/Discovery/Tests.antt =====
-- Runs of the queries of internal/discovery/client.go against a server that knows one metric.
use victoriametrics_data_mig.Prelude.{
  thousandths, ◌≡◌, refl, false, ◌↔◌, List, [], ◌∷◌, ◌++◌, none, some, Text, codes, contains, Map,
  lookup, ok, err, pos, join, map, text_eq, if◌then◌else◌, is_space, trim_prefix, trim_suffix,
  trim_space,
}
use victoriametrics_data_mig.Scheduler.Calendar.{Time, instant}
use victoriametrics_data_mig.Splitter.Selector.{strip_braces, build_match}
use victoriametrics_data_mig.Splitter.Recursion.{SplitResult, split_metric}
use victoriametrics_data_mig.Splitter.Recursion.Tests.{sorts, splitter}
use victoriametrics_data_mig.Discovery.{
  Http, Json, Client, new_client, request_headers, build_match_selector, do_request, set_time,
  TsdbStatus, RawMessage,
}
use victoriametrics_data_mig.Discovery.Queries.{
  discover_metrics, discover_labels, get_label_values, get_series_count_fast, get_tsdb_status,
  get_series_count, get_series_distribution, match_params,
}
use victoriametrics_data_mig.Discovery.Auth.{configured, credentials, request_headers-configured}
use victoriametrics_data_mig.Discovery.Answers.{IsAnswer, text_queries_iff}
use victoriametrics_data_mig.Discovery.Counts.{
  IsCount, IsTsdbStatus, tsdb_params, get_series_count_fast_iff, tsdb_counts_iff,
}
use victoriametrics_data_mig.Discovery.Serves.{
  client_of, build_match_selector-build_match, split_metric_served,
}

-- Parameters are written without escapes, and every answer has the status 200 and its URL as body.
abbrev http : Http
http = record {
  encode =
      λ params. join (codes "&") (map (λ ((k, v) : Text × Text). k ++ (codes "=" ++ v)) params);
  path_escape = λ s. s;
  canonical = λ k. k;
  basic = λ user password. codes "Basic " ++ (user ++ (codes ":" ++ password));
  url_error = λ url. none;
  send = λ insecure request. ok (record { status_code = 200; body = ok request.url });
}

abbrev json : Json
json = record {
  response = λ body. ok (record { status = codes "success"; raw_data = body; error = [] });
  strings = λ raw. ok (codes "up" ∷ []);
  tsdb_status = λ raw. ok (record { total_series = 7; series_count_by_focus_label_value = [] });
  query_result = λ raw. ok ((codes "0" ∷ codes "42" ∷ []) ∷ []);
  string = λ raw. ok raw;
  atoi = λ text. if text_eq text (codes "42") then ok (pos 42) else err (codes "not a number");
  quoted = λ text. codes "\"" ++ (text ++ codes "\"");
}

abbrev client : Client
client = new_client (record {
  vmselect_url = codes "http://vm:8481/";
  bearer_token = codes "abc";
  basic_auth = record { username = codes "me"; password = codes "secret" };
  headers = (codes "X-Scope", codes "1") ∷ [];
  tls = record { insecure_skip_verify = false; ca_file = []; cert_file = []; key_file = [] };
})

abbrev noon : Time
noon = record { wall = 63_000_000_000_000_000_000; zone = 86_400_000_000_000 }

request_headers-configured_example :
    lookup (codes "Authorization") (request_headers http client)
    ≡ configured http (codes "Authorization") client.headers (credentials http client)
request_headers-configured_example = request_headers-configured http client refl

basic_wins :
    configured http (codes "Authorization") client.headers (credentials http client)
    ≡ some (codes "Basic me:secret")
unfolding new_client
basic_wins = refl

abbrev base : Text
base = codes " {job=\"a\"} "

clear : contains (codes "__name__") (strip_braces base) ≡ false
unfolding strip_braces trim_space trim_suffix trim_prefix is_space
clear = refl

same_selector : build_match_selector (codes "up") base ≡ build_match (codes "up") base
same_selector = build_match_selector-build_match (codes "up") base clear

counts_42 : get_series_count_fast http json client (codes "up") noon ≡ ok (pos 42)
unfolding get_series_count_fast do_request new_client request_headers
counts_42 = refl

get_series_count_fast_iff_example :
    (get_series_count_fast http json client (codes "up") noon ≡ ok (pos 42)) ↔ (
      (raw : RawMessage) × IsAnswer http json client
        (codes "/api/v1/query")
        ((codes "step", codes "86400")
          ∷ set_time (codes "time") noon ((codes "query", codes "count(up)") ∷ []))
        raw
      × ((results : List (List RawMessage)) × (json.query_result raw ≡ ok results)
          × IsCount http json client results (pos 42)))
unfolding instant
get_series_count_fast_iff_example =
    get_series_count_fast_iff http json client (codes "up") noon (pos 42)

tsdb_counts_iff_example :
    ((get_series_count http json client (codes "up") noon noon ≡ ok 7) ↔ (
      (status : TsdbStatus) × IsTsdbStatus http json client
        (tsdb_params http json client (codes "up") [] 1 noon noon)
        status
      × (status.total_series ≡ 7)))
    × ((get_series_distribution http json client (codes "up") (codes "job") noon noon ≡ ok []) ↔ (
        (status : TsdbStatus) × IsTsdbStatus http json client
          (tsdb_params http json client (codes "up") (codes "job") 100_000 noon noon)
          status
        × (status.series_count_by_focus_label_value ≡ [])))
tsdb_counts_iff_example = tsdb_counts_iff http json client (codes "up") (codes "job") noon noon 7 []

abbrev one_metric : List Text
one_metric = codes "up" ∷ []

abbrev Answers : Text → Map Text → Type 0
Answers path params =
    (raw : RawMessage) × IsAnswer http json client path params raw
    × (json.strings raw ≡ ok one_metric)

text_queries_iff_example :
    ((discover_metrics http json client base noon noon ≡ ok one_metric)
      ↔ Answers
          (codes "/api/v1/label/__name__/values")
          (match_params http json client base noon noon))
    × ((discover_labels http json client (codes "up") base noon noon ≡ ok one_metric)
        ↔ Answers
            (codes "/api/v1/labels")
            (match_params http json client (build_match_selector (codes "up") base) noon noon))
    × ((get_label_values http json client (codes "job") (codes "up") base noon noon ≡ ok one_metric)
        ↔ Answers
            (codes "/api/v1/label/job/values")
            (match_params http json client (build_match_selector (codes "up") base) noon noon))
text_queries_iff_example =
    text_queries_iff http json client (codes "up") base (codes "job") noon noon one_metric

abbrev whole : SplitResult
whole = record {
  metric_name = codes "up";
  selectors = record { selector = build_match (codes "up") base; est_series_count = 7 } ∷ [];
  total_series = 7;
}

small :
    split_metric thousandths sorts
      (client_of http json client noon noon)
      splitter
      (codes "up")
      100
      3
      base
    ≡ some (ok whole)
unfolding split_metric get_series_count get_tsdb_status do_request new_client request_headers
small = refl

split_metric_served_example :
    (codes "up" ≡ codes "up")
    × ((status : TsdbStatus) × IsTsdbStatus http json client
          (tsdb_params http json client (build_match (codes "up") base) [] 1 noon noon)
          status
        × (status.total_series ≡ 7))
split_metric_served_example =
    split_metric_served thousandths sorts http json client splitter noon noon (codes "up") 100 3
      base whole small
