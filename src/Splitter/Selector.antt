-- ===== src/Splitter/Selector.antt =====
-- The selector text of internal/splitter/splitter.go.
use victoriametrics_data_mig.Prelude.{
  ℕ, Bool, false, List, [], ◌∷◌, ◌++◌, map, Text, codes, is_empty, contains, trim_prefix,
  trim_suffix, trim_space, join, if◌then◌else◌, ◌==◌, ◌||◌,
}

pub record SelectorInfo : Type 0 where
  pub selector : Text
  pub est_series_count : ℕ

-- The braces of a selector, and the spaces around it and within them, taken off.
unfoldable pub strip_braces : Text → Text
strip_braces s = trim_space (trim_suffix (codes "}") (trim_prefix (codes "{") (trim_space s)))

unfoldable pub build_match : Text → Text → Text
build_match metric selector =
    if is_empty (trim_space selector)
    then codes "{__name__=\"" ++ (metric ++ codes "\"}")
    else if contains (codes "__name__") (strip_braces selector)
    then codes "{" ++ (strip_braces selector ++ codes "}")
    else if is_empty (strip_braces selector)
    then codes "{__name__=\"" ++ (metric ++ codes "\"}")
    else codes "{__name__=\"" ++ (metric ++ (codes "\"," ++ (strip_braces selector ++ codes "}")))

unfoldable pub join_selector : Text → Text → Text
join_selector base matcher =
    if is_empty (strip_braces base) then matcher else strip_braces base ++ (codes "," ++ matcher)

-- The characters of `special`.
unfoldable pub is_special : ℕ → List ℕ → Bool
is_special c [] = false
is_special c (d ∷ ds) = c == d || is_special c ds

unfoldable pub escape_regex : Text → Text
unfolding is_special
escape_regex [] = []
escape_regex (c ∷ s) =
    if is_special c (codes "\\.+*?^${}()[]|")
    then b'\\' ∷ c ∷ escape_regex s
    else c ∷ escape_regex s

unfoldable pub append_regex_selector : Text → Text → List Text → Text
append_regex_selector base label values =
    join_selector base
      (label ++ (codes "=~\"" ++ (join (codes "|") (map escape_regex values) ++ codes "\"")))

unfoldable pub append_exact_selector : Text → Text → Text → Text
append_exact_selector base label value =
    join_selector base (label ++ (codes "=\"" ++ (value ++ codes "\"")))

unfoldable pub append_empty_label_selector : Text → Text → Text
append_empty_label_selector base label = join_selector base (label ++ codes "=\"\"")
