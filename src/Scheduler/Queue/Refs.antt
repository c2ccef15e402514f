-- ===== src/Scheduler/Queue/Refs.antt =====
-- Pointers into the heap of tasks: what a write through one pointer leaves alone.
use mathlib.Core.List.{Mem, Nodup, Nodup-cons, mem-cons_self, mem-cons_of_mem, mem-map_of_mem}
use mathlib.Core.Path.{fun_ext}
use victoriametrics_data_mig.Prelude.{
  ◌≡◌, ◌≢◌, refl, subst, ap, lookup_hit, List, [], ◌∷◌, map, some, inl, inr, All, Map, Text, values,
  lookup, text_eq, Bool-cases, ◌==◌, ==_iff,
}
use victoriametrics_data_mig.Types.{Task}
use victoriametrics_data_mig.Scheduler.Queue.{Ref, Heap, update}

pub update_self : (heap : Heap) (r : Ref) (t : Task) → update heap r t r ≡ t
update_self heap r t = rw ((==_iff r r).1 refl)

pub update_ne : (heap : Heap) (r : Ref) (t : Task) (j : Ref) → r ≢ j → update heap r t j ≡ heap j
update_ne heap r t j ne = elim (Bool-cases (r == j)) [
  | inl same ↦ absurd (ne ((==_iff r j).0 same))
  | inr other ↦ rw other
]

abbrev pub ids : Heap → List Ref → List Text
ids heap rs = map (λ r. (heap r).id) rs

pub ids-update :
    (heap : Heap) (r : Ref) (t : Task) (rs : List Ref)
    → t.id ≡ (heap r).id
    → ids (update heap r t) rs ≡ ids heap rs
ids-update heap r t rs same_id = ap (λ f. map f rs) (fun_ext same)
  where
    same : (j : Ref) → (update heap r t j).id ≡ (heap j).id
    same j = elim (Bool-cases (r == j)) [
      | inl e ↦ rw e (rw ((==_iff r j).0 e) at same_id)
      | inr e ↦ rw e
    ]

-- The first of tasks with distinct identifiers is none of the others.
pub head-not-mem : (heap : Heap) (r : Ref) (rs : List Ref) → Nodup (ids heap (r ∷ rs)) → ¬ Mem r rs
head-not-mem heap r rs distinct m = (Nodup-cons.0 distinct).0 (mem-map_of_mem (λ j. (heap j).id) m)

module _ {ℓ} (P : Task → Type ℓ) (heap : Heap) (r : Ref) (t : Task) where
  pub All-update :
      (rs : List Ref) → ¬ Mem r rs → All (λ j. P (heap j)) rs → All (λ j. P (update heap r t j)) rs
  All-update [] absent h = tt
  All-update (j ∷ rs) absent (p, h) =
      let ne : r ≢ j = λ e. absent (rw e mem-cons_self) in
      (rw (update_ne heap r t j ne) p, All-update rs (λ m. absent (mem-cons_of_mem j m)) h)

module _ {ℓ} (P : Text → Task → Type ℓ) (heap : Heap) (r : Ref) (t : Task) where
  pub All-update_map :
      (m : Map Ref)
      → ¬ Mem r (values m)
      → All (λ e. P e.0 (heap e.1)) m
      → All (λ e. P e.0 (update heap r t e.1)) m
  All-update_map [] absent h = tt
  All-update_map ((k, j) ∷ m) absent (p, h) =
      let ne : r ≢ j = λ e. absent (rw e mem-cons_self) in
      (rw (update_ne heap r t j ne) p, All-update_map m (λ i. absent (mem-cons_of_mem j i)) h)

pub mem-values_of_lookup :
    (k : Text) (r : Ref) (m : Map Ref) → lookup k m ≡ some r → Mem r (values m)
mem-values_of_lookup k r [] e = cc
mem-values_of_lookup k r ((j, s) ∷ m) e = elim (Bool-cases (text_eq j k)) [
  | inl same ↦ subst (λ x. Mem x (s ∷ values m)) (lookup_hit j k s r m same e) mem-cons_self
  | inr other ↦ mem-cons_of_mem s (mem-values_of_lookup k r m (rw other at e))
]

pub ids-update_absent :
    (heap : Heap) (r : Ref) (t : Task) (rs : List Ref)
    → ¬ Mem r rs
    → ids (update heap r t) rs ≡ ids heap rs
ids-update_absent heap r t [] absent = refl
ids-update_absent heap r t (j ∷ rs) absent = cc (
  update_ne heap r t j (λ e. absent (rw e mem-cons_self)),
  ids-update_absent heap r t rs (λ m. absent (mem-cons_of_mem j m)),
)
