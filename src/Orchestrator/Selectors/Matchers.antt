-- ===== src/Orchestrator/Selectors/Matchers.antt =====
-- `splitMatchers` of internal/orchestrator/orchestrator.go loses nothing.
use victoriametrics_data_mig.Prelude.{
  ℕ, arith, ◌≡◌, refl, sym, ap, ◌∙◌, ◌⊎◌, inl, inr, Bool, true, false, not, ◌&&◌, List, [], ◌∷◌,
  ◌++◌, append-nil, append_assoc, Text, codes, is_empty, join, Bool-cases, ◌==◌,
}
use victoriametrics_data_mig.Orchestrator.Selectors.{split_from, split_matchers}

-- The pieces joined by commas are the text, or the text but for a comma at its end.
abbrev pub IsSplitOf : List Text → Text → Type 0
IsSplitOf pieces s = (join (codes ",") pieces ≡ s) ⊎ (join (codes ",") pieces ++ codes "," ≡ s)

abbrev Filled : List Text → Type 0
Filled pieces = (p : Text) × (ps : List Text) × (pieces ≡ p ∷ ps)

snoc_some : (current : Text) (c : ℕ) → is_empty (current ++ c ∷ []) ≡ false
snoc_some [] c = refl
snoc_some (d ∷ current) c = refl

-- Where something is read or left to read, there is a piece.
split_from-Filled :
    (current : Text) (q e : Bool) (s : Text)
    → (is_empty current ≡ false) ⊎ (is_empty s ≡ false)
    → Filled (split_from current q e s)
unfolding split_from
split_from-Filled current q e [] (inl h) = (current, [], rw h)
split_from-Filled current q e [] (inr h) = cc
split_from-Filled current q true (c ∷ s) h =
    split_from-Filled (current ++ c ∷ []) q false s (inl (snoc_some current c))
split_from-Filled current q false (c ∷ s) h = elim (Bool-cases (c == b'\\')) [
  | inl slash ↦
      rw (slash, split_from)
        (split_from-Filled (current ++ c ∷ []) q true s (inl (snoc_some current c)))
  | inr other ↦ elim (Bool-cases (c == b'"')) [
    | inl quote ↦
        rw (other, quote, split_from)
          (split_from-Filled (current ++ c ∷ []) (not q) false s (inl (snoc_some current c)))
    | inr plain ↦ elim (Bool-cases ((c == b',') && not q)) [
      | inl ends ↦ rw (other, plain, ends, split_from) (current, split_from [] q false s, refl)
      | inr inside ↦
          rw (other, plain, inside, split_from)
            (split_from-Filled (current ++ c ∷ []) q false s (inl (snoc_some current c)))
    ]
  ]
]

-- A matcher ends at a comma.
cut :
    (current : Text) (q : Bool) (s : Text)
    → IsSplitOf (split_from [] q false s) s
    → IsSplitOf (current ∷ split_from [] q false s) (current ++ b',' ∷ s)
cut current q [] h = inr (unfold split_from in refl)
cut current q (c ∷ s) h =
    let (p, ps, e) = split_from-Filled [] q false (c ∷ s) (inr refl) in
    rw e (longer p ps (rw e at h))
  where
    longer :
        (p : Text) (ps : List Text)
        → IsSplitOf (p ∷ ps) (c ∷ s)
        → IsSplitOf (current ∷ p ∷ ps) (current ++ b',' ∷ c ∷ s)
    longer p ps (inl k) = inl (ap (λ t. current ++ b',' ∷ t) k)
    longer p ps (inr k) = inr (append_assoc current _ _ ∙ ap (λ t. current ++ b',' ∷ t) k)

-- A character is added to the matcher so far.
kept :
    (current : Text) (c : ℕ) (q e : Bool) (s : Text)
    → IsSplitOf (split_from (current ++ c ∷ []) q e s) ((current ++ c ∷ []) ++ s)
    → IsSplitOf (split_from (current ++ c ∷ []) q e s) (current ++ c ∷ s)
kept current c q e s h = rw append_assoc at h

split_from-IsSplitOf :
    (current : Text) (q e : Bool) (s : Text) → IsSplitOf (split_from current q e s) (current ++ s)
unfolding split_from
split_from-IsSplitOf [] q e [] = inl refl
split_from-IsSplitOf (c ∷ current) q e [] = inl (sym (append-nil (c ∷ current)))
split_from-IsSplitOf current q true (c ∷ s) =
    kept current c q false s (split_from-IsSplitOf (current ++ c ∷ []) q false s)
split_from-IsSplitOf current q false (c ∷ s) = elim (Bool-cases (c == b'\\')) [
  | inl slash ↦
      rw (slash, split_from)
        (kept current c q true s (split_from-IsSplitOf (current ++ c ∷ []) q true s))
  | inr other ↦ elim (Bool-cases (c == b'"')) [
    | inl quote ↦
        rw (other, quote, split_from)
          (kept current c (not q) false s
            (split_from-IsSplitOf (current ++ c ∷ []) (not q) false s))
    | inr plain ↦ elim (Bool-cases ((c == b',') && not q)) [
      | inl ends ↦
          let is_comma : c ≡ b',' = ground arith in
          rw (other, plain, ends, split_from)
            (rw is_comma (cut current q s (split_from-IsSplitOf [] q false s)))
      | inr inside ↦
          rw (other, plain, inside, split_from)
            (kept current c q false s (split_from-IsSplitOf (current ++ c ∷ []) q false s))
    ]
  ]
]

-- `splitMatchers` loses no character: its pieces joined by commas are the text that it was given, or
-- that text but for one comma at its end.
pub split_matchers-IsSplitOf : (s : Text) → IsSplitOf (split_matchers s) s
unfolding split_matchers
split_matchers-IsSplitOf s = split_from-IsSplitOf [] false false s
