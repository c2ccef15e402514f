-- ===== src/Splitter/Recursion/Tests.antt =====
-- Runs of internal/splitter/splitter.go against a server with one metric.
use mathlib.Core.List.Perm
use victoriametrics_data_mig.Prelude.{
  thousandths, ◌≡◌, refl, true, List, [], ◌∷◌, some, Text, codes, arith, All, text_eq,
  if◌then◌else◌, Result, ok, ok_injective, subst,
}
use victoriametrics_data_mig.Splitter.BinPack.Tests.{by_insertion}
use victoriametrics_data_mig.Splitter.Recursion.{
  Client, Sorts, Splitter, SplitResult, elem, split_metric,
}
use victoriametrics_data_mig.Splitter.Recursion.Outcome.{IsSplit, split_metric_outcome}

-- Sorts that suit lists of one label.
abbrev pub sorts : Sorts thousandths
sorts = record {
  values = by_insertion;
  scores = λ s. s;
  scores-perm = λ s. Perm.refl s;
  stable = λ less l. l;
  stable-perm = λ less l. Perm.refl l;
}

abbrev labels : List Text
labels = codes "__name__" ∷ codes "job" ∷ []

-- 150 series of the job a, and 30 of the job b.
abbrev client : Client
client = record {
  get_series_count = λ match. if text_eq match (codes "{__name__=\"up\"}") then ok 180 else ok 0;
  discover_labels = λ metric base. ok labels;
  get_series_distribution = λ match label.
      ok (record { name = codes "a"; value = 150 } ∷ record { name = codes "b"; value = 30 } ∷ []);
}

abbrev pub splitter : Splitter
splitter = record {
  max_regex_values = 200;
  exclude_labels = codes "__name__" ∷ [];
  prefer_labels = [];
}

known :
    (base : Text) (found : List Text)
    → client.discover_labels (codes "up") base ≡ ok found
    → All (λ l. elem l labels ≡ true) found
known base found e =
    subst (All (λ l. elem l labels ≡ true)) (ok_injective labels found e) (refl, (refl, tt))

split_metric_outcome_example :
    (r : Result SplitResult) × (split_metric thousandths sorts client splitter (codes "up") 100 3 []
      ≡ some r)
    × ((result : SplitResult)
        → r ≡ ok result
        → All (IsSplit thousandths sorts client splitter (codes "up") 100 []) result.selectors)
split_metric_outcome_example =
    split_metric_outcome thousandths sorts client splitter (codes "up") 100 [] labels known 3
      (omega arith)
