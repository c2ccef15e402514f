-- ===== src/Splitter/Recursion/Best.antt =====
-- The distribution that the split uses is the server's for the label that it chose.
use mathlib.Core.List.Perm
use native.Mathlib.Decide.{ℕ_discrete}
use victoriametrics_data_mig.Prelude.{
  ◌≡◌, refl, List, [], ◌∷◌, Text, All, All-mem, Result, Float, err, ok,
}
use victoriametrics_data_mig.Types.{LabelValueCount}
use victoriametrics_data_mig.Splitter.Selector.{build_match}
use victoriametrics_data_mig.Splitter.Recursion.Candidates.{All-of_mem}
use victoriametrics_data_mig.Splitter.Recursion.{
  Client, LabelScore, Sorts, Splitter, score_one, score_labels, find_best_split_label, best_of,
}

LabelValueCount-discrete : Discrete LabelValueCount
LabelValueCount-discrete = hlevel (ℕ_discrete)

Result-discrete : Discrete (Result (List LabelValueCount))
Result-discrete = hlevel (ℕ_discrete, LabelValueCount-discrete)

Result-set : IsSet (Result (List LabelValueCount))
Result-set = hlevel (Result-discrete)

module _ (F : Float) (sorts : Sorts F) (client : Client) (s : Splitter) where
  abbrev IsAnswered : Text → LabelScore F → Type 0
  IsAnswered match c = client.get_series_distribution match c.label ≡ ok c.distribution

  score_labels-All :
      (match : Text) (labels : List Text)
      → All (IsAnswered match) (score_labels F sorts client s match labels)
  unfolding score_labels score_one
  score_labels-All match [] = tt
  score_labels-All match (l ∷ ls) =
      scored (client.get_series_distribution match l) refl (score_labels-All match ls)
    where
      scored :
          (d : Result (List LabelValueCount))
          → client.get_series_distribution match l ≡ d
          → All (IsAnswered match) (score_labels F sorts client s match ls)
          → All
              (IsAnswered match)
              (score_one F sorts client s l d (score_labels F sorts client s match ls))
      scored (err m) e rest = rest
      scored (ok []) e rest = rest
      scored (ok (v ∷ vs)) e rest = (e, rest)

  best_of-IsAnswered :
      (match metric : Text) (scores : List (LabelScore F)) (best : Text)
      (dist : List LabelValueCount)
      → All (IsAnswered match) scores
      → best_of F sorts client s metric scores ≡ ok (best, dist)
      → client.get_series_distribution match best ≡ ok dist
  best_of-IsAnswered match metric [] best dist h e = cc
  best_of-IsAnswered match metric (c ∷ cs) best dist (hc, h) e = cc

  pub find_best_split_label_answered :
      (metric base : Text) (labels : List Text) (best : Text) (dist : List LabelValueCount)
      → find_best_split_label F sorts client s metric base labels ≡ ok (best, dist)
      → client.get_series_distribution (build_match metric base) best ≡ ok dist
  unfolding find_best_split_label
  find_best_split_label_answered metric base labels best dist e =
      let match = build_match metric base in
      let scores = score_labels F sorts client s match labels in
      best_of-IsAnswered match metric (sorts.scores scores) best dist
        (All-of_mem (sorts.scores scores) (λ c m.
          All-mem
            (λ (d : LabelScore F).
              Result-set (client.get_series_distribution match d.label) (ok d.distribution))
            scores (score_labels-All match labels) c (Perm.subset (sorts.scores-perm scores) c m)))
        e
