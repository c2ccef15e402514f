-- ===== src/Orchestrator/Selectors/Agreement.antt =====
-- The selectors of internal/orchestrator/orchestrator.go and internal/splitter/splitter.go agree.
use victoriametrics_data_mig.Prelude.{
  ◌≡◌, refl, inl, inr, true, false, [], ◌∷◌, Text, codes, is_empty, contains, trim_prefix,
  trim_suffix, trim_space, Bool-cases,
}
use victoriametrics_data_mig.Splitter.Selector.{strip_braces, build_match}
use victoriametrics_data_mig.Orchestrator.Selectors.{build_optimistic_selector}

-- Nothing is left of a blank selector without its braces.
pub strip_braces_blank :
    (s : Text) → is_empty (trim_space s) ≡ true → is_empty (strip_braces s) ≡ true
unfolding strip_braces trim_space trim_suffix trim_prefix
strip_braces_blank s e = blank (trim_space s) e
  where
    blank :
        (t : Text)
        → is_empty t ≡ true
        → is_empty (trim_space (trim_suffix (codes "}") (trim_prefix (codes "{") t))) ≡ true
    blank [] h = refl
    blank (c ∷ t) h = cc

-- The selector of a metric's first task is the one that its split starts from, where the base
-- selector does not contain the text `__name__`.
pub build_optimistic_selector-build_match :
    (metric base : Text)
    → contains (codes "__name__") (strip_braces base) ≡ false
    → build_optimistic_selector metric base ≡ build_match metric base
unfolding build_optimistic_selector build_match
build_optimistic_selector-build_match metric base clear =
    elim (Bool-cases (is_empty (trim_space base))) [
      | inl blank ↦ rw (blank, strip_braces_blank base blank)
      | inr some_text ↦ rw (some_text, clear)
    ]
