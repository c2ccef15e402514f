-- ===== src/Splitter/Recursion/CoverTests.antt =====
-- A split of a metric with three series, of which one does not have the label to split by.
use victoriametrics_data_mig.Prelude.{
  thousandths, ℕ, ◌≤◌, ◌<◌, ◌≡◌, refl, sym, ◌⊎◌, inl, inr, Bool, true, false, ◌||◌, ◌&&◌, List, [],
  ◌∷◌, some, arith, Text, codes, All, subst, text_eq, text_eq_iff, is_empty, length, if◌then◌else◌,
  Result, err, ok, ok_injective, err_not_ok, Bool-cases, trim_prefix, trim_suffix, trim_space,
  is_space,
}
use victoriametrics_data_mig.Types.{LabelValueCount}
use victoriametrics_data_mig.Splitter.Selector.{
  build_match, strip_braces, join_selector, escape_regex, is_special, append_regex_selector,
  append_exact_selector, append_empty_label_selector,
}
use victoriametrics_data_mig.Splitter.Recursion.{Client, Splitter, SplitResult, elem, split_metric}
use victoriametrics_data_mig.Splitter.Recursion.Tests.{sorts}
use victoriametrics_data_mig.Splitter.Recursion.Meaning.{
  ind, occurrences, present, Store, times, IsFresh, IsServed,
}
use victoriametrics_data_mig.Splitter.Recursion.Cover.{split_metric_partition}

pub data TestSeries : Type 0 where
  web_1 web_2 other : TestSeries

abbrev pub up : Text
up = codes "up"

abbrev job : Text
job = codes "job"

abbrev job_of : TestSeries → Text
job_of web_1 = codes "a"
job_of web_2 = codes "a"
job_of other = []

abbrev all_series : Text
all_series = codes "{__name__=\"up\"}"

abbrev selects : Text → TestSeries → Bool
selects match x =
    if text_eq match all_series
    then true
    else if text_eq match (codes "{__name__=\"up\",job=\"a\"}")
        || text_eq match (codes "{__name__=\"up\",job=~\"a\"}")
    then text_eq (job_of x) (codes "a")
    else if text_eq match (codes "{__name__=\"up\",job=\"\"}")
    then is_empty (job_of x)
    else false

abbrev pub store : Store
store = record {
  Series = TestSeries;
  value = λ x label. if text_eq label job then job_of x else [];
  selects = selects;
}

abbrev pub client : Client
client = record {
  get_series_count = λ match.
      if text_eq match all_series
      then ok 3
      else if text_eq match (codes "{__name__=\"up\",job=\"a\"}")
      then ok 2
      else ok 1;
  discover_labels = λ metric base. ok (codes "__name__" ∷ job ∷ []);
  get_series_distribution = λ match label.
      if text_eq match all_series && text_eq label job
      then ok (record { name = codes "a"; value = 2 } ∷ [])
      else err (codes "not asked");
}

abbrev pub splitter : Splitter
splitter = record {
  max_regex_values = 200;
  exclude_labels = codes "__name__" ∷ [];
  prefer_labels = [];
}

abbrev pub universe : List Text
universe = codes "__name__" ∷ job ∷ []

abbrev pub values : List Text
values = codes "a" ∷ []

-- The base, and the two that its split by the job appends to.
abbrev pub Reads : Text → List Text → Type 0
Reads base used =
    (base ≡ []) × (used ≡ [])
    ⊎ ((base ≡ codes "job=\"a\"") ⊎ (base ≡ codes "job=\"\"")) × (used ≡ job ∷ [])

fresh_job : (label : Text) → IsFresh client splitter up store universe [] label → label ≡ job
fresh_job label (there, unused) = (text_eq_iff label job).0 (ground arith)

none-IsFresh : (label : Text) → ¬ IsFresh client splitter up store universe (job ∷ []) label
none-IsFresh label (there, unused) = ground arith

fresh_only :
    (base : Text) (used : List Text) (label : Text)
    → Reads base used
    → IsFresh client splitter up store universe used label
    → (base ≡ []) × (used ≡ []) × (label ≡ job)
fresh_only base used label (inl (e, u)) fresh = (e, u, fresh_job label (rw u at fresh))
fresh_only base used label (inr (e, u)) fresh = absurd (none-IsFresh label (rw u at fresh))

only_value : (v : Text) → elem v values ≡ true → v ≡ codes "a"
only_value v h = (text_eq_iff v (codes "a")).0 (ground arith)

only_values :
    (vs : List Text)
    → 0 < length vs
    → All (λ v. elem v values ≡ true) vs
    → occurrences (codes "a") vs ≤ 1
    → vs ≡ codes "a" ∷ []
only_values [] some_value known once = absurd (omega arith)
only_values (v ∷ []) some_value (k, _) once = rw (only_value v k)
only_values (v ∷ w ∷ vs) some_value (k, (j, _)) once =
    absurd (twice (rw (only_value v k, only_value w j) at once))
  where
    twice : ¬ (occurrences (codes "a") (codes "a" ∷ codes "a" ∷ vs) ≤ 1)
    twice h = omega arith

exact_text : append_exact_selector [] job (codes "a") ≡ codes "job=\"a\""
unfolding append_exact_selector join_selector strip_braces trim_prefix trim_suffix trim_space
    is_space
exact_text = refl

empty_text : append_empty_label_selector [] job ≡ codes "job=\"\""
unfolding append_empty_label_selector join_selector strip_braces trim_prefix trim_suffix trim_space
    is_space
empty_text = refl

exact_read :
    (x : TestSeries)
    → selects (build_match up (append_exact_selector [] job (codes "a"))) x
      ≡ (selects (build_match up []) x && text_eq (store.value x job) (codes "a"))
unfolding build_match append_exact_selector join_selector strip_braces trim_prefix trim_suffix
    trim_space is_space
exact_read web_1 = refl
exact_read web_2 = refl
exact_read other = refl

empty_read :
    (x : TestSeries)
    → selects (build_match up (append_empty_label_selector [] job)) x
      ≡ (selects (build_match up []) x && is_empty (store.value x job))
unfolding build_match append_empty_label_selector join_selector strip_braces trim_prefix trim_suffix
    trim_space is_space
empty_read web_1 = refl
empty_read web_2 = refl
empty_read other = refl

regex_read :
    (x : TestSeries)
    → selects (build_match up (append_regex_selector [] job values)) x
      ≡ (selects (build_match up []) x && elem (store.value x job) values)
unfolding build_match append_regex_selector join_selector strip_braces escape_regex is_special
    trim_prefix trim_suffix trim_space is_space
regex_read web_1 = refl
regex_read web_2 = refl
regex_read other = refl

counted :
    (base : Text) (used : List Text)
    → Reads base used
    → (n : ℕ) × (client.get_series_count (build_match up base) ≡ ok n)
      × (n ≡ 0 → (x : TestSeries) → selects (build_match up base) x ≡ false)
unfolding build_match strip_braces trim_prefix trim_suffix trim_space is_space
counted base used (inl (e, u)) = rw e (3, refl, λ z. absurd (omega arith))
counted base used (inr (inl e, u)) = rw e (2, refl, λ z. absurd (omega arith))
counted base used (inr (inr e, u)) = rw e (1, refl, λ z. absurd (omega arith))

-- The one distribution that the client has.
only_answer :
    (base : Text) (used : List Text) (label : Text) (dist : List LabelValueCount)
    → Reads base used
    → client.get_series_distribution (build_match up base) label ≡ ok dist
    → (dist ≡ record { name = codes "a"; value = 2 } ∷ []) × (label ≡ job)
unfolding build_match strip_braces trim_prefix trim_suffix trim_space is_space
only_answer base used label dist (inl (e, u)) got = elim (Bool-cases (text_eq label job)) [
  | inl same ↦ (sym (ok_injective _ dist (rw (e, same) at got)), (text_eq_iff label job).0 same)
  | inr differs ↦ absurd (err_not_ok _ dist (rw (e, differs) at got))
]
only_answer base used label dist (inr (inl e, u)) got = absurd (err_not_ok _ dist (rw e at got))
only_answer base used label dist (inr (inr e, u)) got = absurd (err_not_ok _ dist (rw e at got))

abbrev found : List LabelValueCount
found = record { name = codes "a"; value = 2 } ∷ []

value_of : (v : Text) → 0 < occurrences v (present found) → elem v values ≡ true
value_of v h = ground arith

once : (v : Text) → occurrences v (present found) ≤ 1
once v = ground arith

has_value :
    (x : TestSeries)
    → is_empty (store.value x job) ≡ false
    → 0 < occurrences (store.value x job) (present found)
has_value web_1 h = omega arith
has_value web_2 h = omega arith
has_value other h = cc

pub served : IsServed client splitter up store universe values Reads
served = record {
  discovers = λ base labels e.
      subst (All (λ l. elem l universe ≡ true)) (ok_injective universe labels e) (refl, (refl, tt));
  exact-Reads = λ base used label v reads fresh known.
      let (b, u, l) = fresh_only base used label reads fresh in
      inr (inl (rw (b, l, only_value v known) exact_text), rw (u, l));
  empty-Reads = λ base used label reads fresh.
      let (b, u, l) = fresh_only base used label reads fresh in
      inr (inr (rw (b, l) empty_text), rw (u, l));
  exact = λ base used label v reads fresh known x.
      let (b, u, l) = fresh_only base used label reads fresh in
      rw (b, l, only_value v known) (exact_read x);
  empty = λ base used label reads fresh x.
      let (b, u, l) = fresh_only base used label reads fresh in rw (b, l) (empty_read x);
  regex = λ base used label vs reads fresh some_value known few x.
      let (b, u, l) = fresh_only base used label reads fresh in
      rw (b, l, only_values vs some_value known (few (codes "a"))) (regex_read x);
  count = counted;
  known = λ base used label dist reads got v there.
      value_of v (rw (only_answer base used label dist reads got).0 at there);
  distinct = λ base used label dist reads got v.
      rw (only_answer base used label dist reads got).0 (once v);
  nonempty = λ base used label dist reads got. rw (only_answer base used label dist reads got).0;
  complete = λ base used label dist reads got x chosen filled.
      let (d, l) = only_answer base used label dist reads got in
      rw (d, l) (has_value x (rw l at filled));
}

split_metric_partition_example :
    (r : Result SplitResult) × (split_metric thousandths sorts client splitter up 1 3 [] ≡ some r)
    × ((result : SplitResult)
        → r ≡ ok result
        → (x : TestSeries) → times store x result.selectors ≡ ind (selects (build_match up []) x))
split_metric_partition_example =
    split_metric_partition thousandths sorts client splitter up 1 store universe values Reads served
      3 [] (inl (refl, refl)) (omega arith)
