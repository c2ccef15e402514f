-- ===== src/Splitter/Recursion.antt =====
-- The recursion of internal/splitter/splitter.go. The discovery client's queries for the time range
-- of the split, float64 and the sorts of package sort are parameters; the server's answers do not
-- change during the split.
mod Labels
pub mod Candidates
pub mod Outcome
pub mod Meaning
pub mod Occurrences
pub mod Partition
pub mod Best
pub mod Cover
pub mod Tests
pub mod CoverTests
use mathlib.Core.List.Perm
use victoriametrics_data_mig.Prelude.{
  ℕ, zero, suc, ◌+◌, ◌≤◌, ◌<◌, Bool, true, false, not, ◌||◌, ◌&&◌, List, [], ◌∷◌, ◌++◌, map, Perm,
  Option, none, some, Text, codes, text_eq, ltb, ◌==◌, if◌then◌else◌, length, keep, Result, err, ok,
  Float, pos,
}
use victoriametrics_data_mig.Types.{LabelValueCount}
use victoriametrics_data_mig.Splitter.BinPack.{Sort, Bin, Bins, bin_pack}
use victoriametrics_data_mig.Splitter.Selector.{
  SelectorInfo, build_match, append_regex_selector, append_exact_selector,
  append_empty_label_selector,
}
pub use Labels.*
unfoldable pub use Labels.{
  filter_labels, score_label_distribution, score_one, score_labels, find_best_split_label,
}

module _ (F : Float) (sorts : Sorts F) (client : Client) (s : Splitter) where
  module _ (metric : Text) (max_series : ℕ) where
    abbrev Split : Type 0
    Split = Text → List Text → Option (Result (List SelectorInfo))

    -- The selectors for normal bins.
    abbrev bin_selector : Text → Text → Bin → SelectorInfo
    bin_selector base label bin = record {
      selector = build_match metric (append_regex_selector base label bin.label_values);
      est_series_count = bin.series_count;
    }

    abbrev pub oversized_error : Text → LabelValueCount → Text
    oversized_error label v =
        codes "recursive split for " ++ (label ++ (codes "=" ++ (v.name ++ codes ": ")))

    -- The loop over the oversized values; `again` is the recursive call.
    pub split_oversized :
        Split → Text → List Text → Text → List LabelValueCount → Option (Result (List SelectorInfo))
    split_oversized again base used label [] = some (ok [])
    split_oversized again base used label (v ∷ vs) =
        and_then
          (wrap (oversized_error label v)
            (again (append_exact_selector base label v.name) (used ++ label ∷ [])))
          (λ sels. then_append sels (split_oversized again base used label vs))

    -- The series that do not have the split label, behind the selectors so far.
    remainder_of :
        Split
        → Text
        → List Text
        → Text
        → List SelectorInfo
        → Result ℕ
        → Option (Result (List SelectorInfo))
    remainder_of again base used label sels (err e) = some (ok sels)
    remainder_of again base used label sels (ok count) =
        if ltb 0 count
        then if ltb max_series count
          then then_append sels
              (again (append_empty_label_selector base label) (used ++ label ∷ []))
          else some (
              ok (
                sels
                ++ record {
                  selector = build_match metric (append_empty_label_selector base label);
                  est_series_count = count;
                }
                  ∷ []))
        else some (ok sels)

    pub split_bins : Split → Text → List Text → Text → Bins → Option (Result (List SelectorInfo))
    unfolding split_oversized remainder_of
    split_bins again base used label packed =
        and_then (split_oversized again base used label packed.oversized) (λ subs.
          remainder_of again base used label (map (bin_selector base label) packed.bins ++ subs)
            (client.get_series_count (build_match metric (append_empty_label_selector base label))))

    split_best :
        Split
        → Text
        → List Text
        → Result (Text × List LabelValueCount)
        → Option (Result (List SelectorInfo))
    unfolding split_bins
    split_best again base used (err e) = some (err e)
    split_best again base used (ok (label, distribution)) =
        split_bins again base used label
          (bin_pack max_series s.max_regex_values sorts.values distribution)

    -- The selector that no label is left to split.
    abbrev pub leaf : Text → SelectorInfo
    leaf base = record {
      selector = build_match metric base;
      est_series_count = count_or_zero (client.get_series_count (build_match metric base));
    }

    split_candidates : Split → Text → List Text → List Text → Option (Result (List SelectorInfo))
    unfolding split_best
    split_candidates again base used [] = some (ok (leaf base ∷ []))
    split_candidates again base used (l ∷ ls) =
        split_best again base used (find_best_split_label F sorts client s metric base (l ∷ ls))

    split_labels :
        Split → Text → List Text → Result (List Text) → Option (Result (List SelectorInfo))
    unfolding split_candidates
    split_labels again base used (err e) =
        some (err (codes "discovering labels for " ++ (metric ++ (codes ": " ++ e))))
    split_labels again base used (ok labels) =
        split_candidates again base used (filter_labels F sorts client s labels used)

    -- `none` means that the fuel ran out.
    pub recursive_split : ℕ → Text → List Text → Option (Result (List SelectorInfo))
    unfolding split_labels
    recursive_split zero base used = none
    recursive_split (suc fuel) base used =
        split_labels (λ b u. recursive_split fuel b u) base used
          (client.discover_labels metric base)

    abbrev pub result_of : ℕ → List SelectorInfo → SplitResult
    result_of total sels = record { metric_name = metric; selectors = sels; total_series = total }

    abbrev pub split_count : ℕ → Text → Result ℕ → Option (Result SplitResult)
    split_count fuel base (err e) =
        some (err (codes "getting series count for " ++ (metric ++ (codes ": " ++ e))))
    split_count fuel base (ok total) =
        if ltb max_series total
        then and_then (recursive_split fuel base []) (λ sels. some (ok (result_of total sels)))
        else some (
            ok (
              result_of total
                (record { selector = build_match metric base; est_series_count = total } ∷ [])))

    unfoldable pub split_metric : ℕ → Text → Option (Result SplitResult)
    split_metric fuel base =
        split_count fuel base (client.get_series_count (build_match metric base))
