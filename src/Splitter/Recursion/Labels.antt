-- ===== src/Splitter/Recursion/Labels.antt =====
-- What internal/splitter/splitter.go reads of the server, and its choice of the label to split by. The
-- discovery client's queries for the time range of the split, float64 and the sorts of package sort
-- are parameters.
use victoriametrics_data_mig.Prelude.{
  ℕ, suc, ◌+◌, Bool, true, false, not, ◌||◌, ◌&&◌, List, [], ◌∷◌, ◌++◌, Perm, Option, none, some,
  Text, codes, text_eq, ltb, ◌==◌, if◌then◌else◌, length, keep, Result, err, ok, Float, pos,
}
use victoriametrics_data_mig.Types.{LabelValueCount}
use victoriametrics_data_mig.Splitter.BinPack.{Sort}
use victoriametrics_data_mig.Splitter.Selector.{SelectorInfo, build_match}

-- `GetSeriesCount`, `DiscoverLabels` and `GetSeriesDistribution`.
pub record Client : Type 0 where
  pub get_series_count : Text → Result ℕ
  pub discover_labels : Text → Text → Result (List Text)
  pub get_series_distribution : Text → Text → Result (List LabelValueCount)

pub record LabelScore (F : Float) : Type 0 where
  pub label : Text
  pub distribution : List LabelValueCount
  pub score : F.Carrier

-- `sort.Slice` on scores and on label values, and `sort.SliceStable` on labels.
pub record Sorts (F : Float) : Type 0 where
  pub values : Sort
  pub scores : List (LabelScore F) → List (LabelScore F)
  pub scores-perm : (s : List (LabelScore F)) → Perm (scores s) s
  pub stable : (Text → Text → Bool) → List Text → List Text
  pub stable-perm : (less : Text → Text → Bool) (l : List Text) → Perm (stable less l) l

pub record SplitResult : Type 0 where
  pub metric_name : Text
  pub selectors : List SelectorInfo
  pub total_series : ℕ

-- The sets `map[string]bool` are lists of their members.
pub record Splitter : Type 0 where
  pub max_regex_values : ℕ
  pub exclude_labels : List Text
  pub prefer_labels : List Text

abbrev pub elem : Text → List Text → Bool
elem l [] = false
elem l (k ∷ ks) = text_eq l k || elem l ks

-- The order of Go's strings; that of UTF-8 bytes is that of code points.
abbrev pub text_ltb : Text → Text → Bool
text_ltb s [] = false
text_ltb [] (d ∷ t) = true
text_ltb (c ∷ s) (d ∷ t) = ltb c d || c == d && text_ltb s t

abbrev pub later_index : ℕ → Option ℕ → Option ℕ
later_index i none = some i
later_index i (some j) = some j

-- `preferIdx[l]`: the last index of `l`.
abbrev pub prefer_idx : ℕ → Text → List Text → Option ℕ
prefer_idx i l [] = none
prefer_idx i l (k ∷ ks) =
    let later = prefer_idx (suc i) l ks in if text_eq k l then later_index i later else later

abbrev pub prefers : Text → Text → Option ℕ → Option ℕ → Bool
prefers a b (some i) (some j) = ltb i j
prefers a b (some i) none = true
prefers a b none (some j) = false
prefers a b none none = text_ltb a b

abbrev pub and_then {ℓ κ} :
    {A : Type ℓ} {B : Type κ} → Option (Result A) → (A → Option (Result B)) → Option (Result B)
and_then none f = none
and_then (some (err e)) f = some (err e)
and_then (some (ok a)) f = f a

-- `fmt.Errorf` around an error that the code passes on.
abbrev pub wrap {ℓ} : {A : Type ℓ} → Text → Option (Result A) → Option (Result A)
wrap message none = none
wrap message (some (err e)) = some (err (message ++ e))
wrap message (some (ok a)) = some (ok a)

abbrev pub then_append :
    List SelectorInfo → Option (Result (List SelectorInfo)) → Option (Result (List SelectorInfo))
then_append sels none = none
then_append sels (some (err e)) = some (err e)
then_append sels (some (ok more)) = some (ok (sels ++ more))

-- `total, _ := ...`: the client returns 0 with an error.
abbrev pub count_or_zero : Result ℕ → ℕ
count_or_zero (err e) = 0
count_or_zero (ok n) = n

abbrev pub sum_values : List LabelValueCount → ℕ
sum_values [] = 0
sum_values (v ∷ vs) = v.value + sum_values vs

-- The loop that raises `maxVal`.
abbrev pub max_value : ℕ → List LabelValueCount → ℕ
max_value m [] = m
max_value m (v ∷ vs) = max_value (if ltb m v.value then v.value else m) vs

module _ (F : Float) (sorts : Sorts F) (client : Client) (s : Splitter) where
  unfoldable pub filter_labels : List Text → List Text → List Text
  filter_labels labels used_labels =
      let candidates = keep (λ l. not (elem l s.exclude_labels || elem l used_labels)) labels in
      if ltb 0 (length s.prefer_labels)
      then sorts.stable
          (λ a b. prefers a b (prefer_idx 0 a s.prefer_labels) (prefer_idx 0 b s.prefer_labels))
          candidates
      else candidates

  unfoldable pub score_label_distribution : List LabelValueCount → F.Carrier
  score_label_distribution [] = F.ratio 0 1
  score_label_distribution (v ∷ vs) =
      let num_values = F.of_int (pos (length (v ∷ vs))) in
      let total = sum_values (v ∷ vs) in
      let evenness =
        F.div (F.div (F.of_int (pos total)) num_values) (F.of_int (pos (max_value 0 (v ∷ vs)))) in
      if total == 0
      then F.ratio 0 1
      else F.mul num_values (F.add (F.ratio 1 2) (F.mul (F.ratio 1 2) evenness))

  unfoldable pub score_one :
      Text → Result (List LabelValueCount) → List (LabelScore F) → List (LabelScore F)
  score_one label (err e) rest = rest
  score_one label (ok []) rest = rest
  score_one label (ok (v ∷ vs)) rest =
      record { label = label; distribution = v ∷ vs; score = score_label_distribution (v ∷ vs) }
      ∷ rest

  -- The loop over the candidates.
  unfoldable pub score_labels : Text → List Text → List (LabelScore F)
  unfolding score_one
  score_labels match [] = []
  score_labels match (l ∷ ls) =
      score_one l (client.get_series_distribution match l) (score_labels match ls)

  abbrev pub best_of : Text → List (LabelScore F) → Result (Text × List LabelValueCount)
  best_of metric [] = err (codes "no suitable labels found for splitting metric " ++ metric)
  best_of metric (best ∷ rest) = ok (best.label, best.distribution)

  unfoldable pub find_best_split_label :
      Text → Text → List Text → Result (Text × List LabelValueCount)
  unfolding score_labels
  find_best_split_label metric base_selector candidates =
      best_of metric (sorts.scores (score_labels (build_match metric base_selector) candidates))
