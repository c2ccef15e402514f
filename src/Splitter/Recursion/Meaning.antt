-- ===== src/Splitter/Recursion/Meaning.antt =====
-- What the selectors of internal/splitter/splitter.go select: the reading of selectors by the
-- server and what its answers say of its series, as the code relies on them.
use victoriametrics_data_mig.Prelude.{
  ℕ, ◌+◌, ◌≤◌, ◌<◌, ◌≡◌, Bool, true, false, not, ◌||◌, ◌&&◌, List, [], ◌∷◌, ◌++◌, map, Text, All,
  text_eq, is_empty, keep, length, if◌then◌else◌, ok,
}
use victoriametrics_data_mig.Types.{LabelValueCount}
use victoriametrics_data_mig.Splitter.BinPack.Packing.{has_series}
use victoriametrics_data_mig.Splitter.Selector.{
  SelectorInfo, build_match, append_regex_selector, append_exact_selector,
  append_empty_label_selector,
}
use victoriametrics_data_mig.Splitter.Recursion.{Client, Splitter, elem}

abbrev pub ind : Bool → ℕ
ind b = if b then 1 else 0

-- How often a text is in a list.
abbrev pub occurrences : Text → List Text → ℕ
occurrences x [] = 0
occurrences x (y ∷ ys) = ind (text_eq x y) + occurrences x ys

abbrev pub names : List LabelValueCount → List Text
names vs = map (λ v. v.name) vs

-- The names that the bins and the oversized values are filled from.
abbrev pub present : List LabelValueCount → List Text
present vs = names (keep has_series vs)

-- The server: its series, the value of a label in a series, empty where the series does not have
-- the label, and which series the text of a selector selects.
pub record Store : Type 1 where
  pub Series : Type 0
  pub value : Series → Text → Text
  pub selects : Text → Series → Bool

-- How many of the selectors select a series.
abbrev pub times : (st : Store) → st.Series → List SelectorInfo → ℕ
times st x [] = 0
times st x (sel ∷ sels) = ind (st.selects sel.selector x) + times st x sels

module _ (client : Client) (s : Splitter) (metric : Text) (st : Store) where
  -- A label that the split of a metric may use next.
  abbrev pub IsFresh : List Text → List Text → Text → Type 0
  IsFresh universe used label =
      (elem label universe ≡ true) × (not (elem label s.exclude_labels || elem label used) ≡ true)

  -- `Reads base used` names the base selectors that the split meets, with the labels used on the way
  -- there. For these, the server reads an appended matcher as one more condition; it counts the
  -- series of a selector, and no series only where there is none; and the distribution of a label
  -- has each value once, none of them empty, and every value of a selected series.
  pub record IsServed (universe values : List Text) (Reads : Text → List Text → Type 0)
      : Type 0 where
    pub discovers :
        (base : Text) (labels : List Text)
        → client.discover_labels metric base ≡ ok labels
        → All (λ l. elem l universe ≡ true) labels
    pub exact-Reads :
        (base : Text) (used : List Text) (label v : Text)
        → Reads base used
        → IsFresh universe used label
        → elem v values ≡ true
        → Reads (append_exact_selector base label v) (used ++ label ∷ [])
    pub empty-Reads :
        (base : Text) (used : List Text) (label : Text)
        → Reads base used
        → IsFresh universe used label
        → Reads (append_empty_label_selector base label) (used ++ label ∷ [])
    pub exact :
        (base : Text) (used : List Text) (label v : Text)
        → Reads base used
        → IsFresh universe used label
        → elem v values ≡ true
        → (x : st.Series)
        → st.selects (build_match metric (append_exact_selector base label v)) x
          ≡ (st.selects (build_match metric base) x && text_eq (st.value x label) v)
    pub empty :
        (base : Text) (used : List Text) (label : Text)
        → Reads base used
        → IsFresh universe used label
        → (x : st.Series)
        → st.selects (build_match metric (append_empty_label_selector base label)) x
          ≡ (st.selects (build_match metric base) x && is_empty (st.value x label))
    pub regex :
        (base : Text) (used : List Text) (label : Text) (vs : List Text)
        → Reads base used
        → IsFresh universe used label
        → 0 < length vs
        → All (λ v. elem v values ≡ true) vs
        → ((v : Text) → occurrences v vs ≤ 1)
        → (x : st.Series)
        → st.selects (build_match metric (append_regex_selector base label vs)) x
          ≡ (st.selects (build_match metric base) x && elem (st.value x label) vs)
    pub count :
        (base : Text) (used : List Text)
        → Reads base used
        → (n : ℕ) × (client.get_series_count (build_match metric base) ≡ ok n)
          × (n ≡ 0 → (x : st.Series) → st.selects (build_match metric base) x ≡ false)
    pub known :
        (base : Text) (used : List Text) (label : Text) (dist : List LabelValueCount)
        → Reads base used
        → client.get_series_distribution (build_match metric base) label ≡ ok dist
        → (v : Text) → 0 < occurrences v (present dist)
        → elem v values ≡ true
    pub distinct :
        (base : Text) (used : List Text) (label : Text) (dist : List LabelValueCount)
        → Reads base used
        → client.get_series_distribution (build_match metric base) label ≡ ok dist
        → (v : Text) → occurrences v (present dist) ≤ 1
    pub nonempty :
        (base : Text) (used : List Text) (label : Text) (dist : List LabelValueCount)
        → Reads base used
        → client.get_series_distribution (build_match metric base) label ≡ ok dist
        → occurrences [] (present dist) ≡ 0
    pub complete :
        (base : Text) (used : List Text) (label : Text) (dist : List LabelValueCount)
        → Reads base used
        → client.get_series_distribution (build_match metric base) label ≡ ok dist
        → (x : st.Series) → st.selects (build_match metric base) x ≡ true
        → is_empty (st.value x label) ≡ false
        → 0 < occurrences (st.value x label) (present dist)
