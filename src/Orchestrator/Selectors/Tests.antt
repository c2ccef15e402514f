-- ===== src/Orchestrator/Selectors/Tests.antt =====
-- Runs of the selectors of internal/orchestrator/orchestrator.go.
use victoriametrics_data_mig.Prelude.{
  ◌≡◌, refl, false, [], ◌∷◌, Text, codes, contains, is_space, trim_prefix, trim_suffix, trim_space,
}
use victoriametrics_data_mig.Splitter.Selector.{strip_braces, build_match}
use victoriametrics_data_mig.Orchestrator.Selectors.{
  build_optimistic_selector, extract_base_selector, split_matchers, split_from,
}
use victoriametrics_data_mig.Orchestrator.Selectors.Agreement.{
  build_optimistic_selector-build_match,
}
use victoriametrics_data_mig.Orchestrator.Selectors.Matchers.{IsSplitOf, split_matchers-IsSplitOf}

abbrev base : Text
base = codes " {job=\"a,b\",env=~\"x|y\"} "

clear : contains (codes "__name__") (strip_braces base) ≡ false
unfolding strip_braces trim_space trim_suffix trim_prefix is_space
clear = refl

build_optimistic_selector-build_match_example :
    build_optimistic_selector (codes "up") base ≡ build_match (codes "up") base
build_optimistic_selector-build_match_example =
    build_optimistic_selector-build_match (codes "up") base clear

split_matchers-IsSplitOf_example : IsSplitOf (split_matchers base) base
split_matchers-IsSplitOf_example = split_matchers-IsSplitOf base

-- A comma in quotes does not end a matcher.
quoted_comma : split_matchers (codes "a=\"x,y\",b=\"z\"") ≡ codes "a=\"x,y\"" ∷ codes "b=\"z\"" ∷ []
unfolding split_matchers split_from
quoted_comma = refl

base_of_filter :
    extract_base_selector (codes "{__name__=~\"node_.*\", job=\"a\"}") ≡ codes "job=\"a\""
unfolding extract_base_selector split_matchers split_from trim_space trim_suffix trim_prefix
    is_space
base_of_filter = refl
