-- ===== src/Orchestrator/Cardinality.antt =====
-- `isCardinalityRelatedError` of internal/orchestrator/orchestrator.go.
use victoriametrics_data_mig.Prelude.{
  Bool, true, false, List, [], ◌∷◌, ◌≡◌, refl, Text, codes, is_empty, contains, lower, to_lower,
  if◌then◌else◌,
}

patterns : List Text
patterns = codes "timeseries exceeds" ∷ codes "series exceeds" ∷ codes "search.max" ∷ []

any_contained : Text → List Text → Bool
any_contained s [] = false
any_contained s (p ∷ ps) = if contains (to_lower p) s then true else any_contained s ps

unfoldable pub is_cardinality_related_error : Text → Bool
unfolding patterns any_contained lower
is_cardinality_related_error msg =
    if is_empty msg then false else any_contained (to_lower msg) patterns

limit_hit :
    is_cardinality_related_error (codes "the number of matching Timeseries exceeds 300000") ≡ true
unfolding is_cardinality_related_error
limit_hit = refl

timed_out : is_cardinality_related_error (codes "context deadline exceeded") ≡ false
unfolding is_cardinality_related_error
timed_out = refl
