-- ===== src/Scheduler/Queue/Moves.antt =====
-- How a task moves between the lists of the queue, its identifier kept.
use mathlib.Core.List.{
  Mem, Nodup, Nodup-cons, mem-append_left, mem-append_right, mem-map_of_mem, perm_middle,
}
use mathlib.Core.List.Perm
use mathlib.Core.List.{exists_of_mem-map}
use mathlib.Core.Logic.{∥∥₁_elim}
use mathlib.Core.HLevel.{⊥_prop}
use victoriametrics_data_mig.Prelude.{
  ◌≡◌, subst, sym, List, [], ◌∷◌, ◌++◌, Perm, append_assoc, some, Text, Map, All, All-append,
  All-delete, lookup, delete, insert, values, HasDistinctKeys, lookup-delete_self,
  delete-HasDistinctKeys, values-delete-perm, delete_absent,
}
use victoriametrics_data_mig.Types.{Task}
use victoriametrics_data_mig.Scheduler.Queue.{Ref, Heap, update}
use victoriametrics_data_mig.Scheduler.Queue.Refs.{ids, update_self, All-update, All-update_map}
use victoriametrics_data_mig.Scheduler.Queue.Invariant.{
  IsWaiting, IsRunning, IsSucceeded, IsAbandoned, IsReplaced, live, IsSound, distinct_moved,
  not_among_others, lookup_fresh,
}

-- Something that stands in a part of a list stands in the whole.
module _ {r : Ref} (waiting : List Ref) (active : Map Ref) (done given_up gone : List Ref)
    (absent : ¬ Mem r (live waiting active done given_up gone)) where
  pub not-mem-waiting : ¬ Mem r waiting
  not-mem-waiting m = absent (mem-append_left (values active ++ (done ++ (given_up ++ gone))) m)

  pub not-mem-active : ¬ Mem r (values active)
  not-mem-active m =
      absent (mem-append_right waiting (mem-append_left (done ++ (given_up ++ gone)) m))

  pub not-mem-done : ¬ Mem r done
  not-mem-done m = absent (
      mem-append_right waiting
        (mem-append_right (values active) (mem-append_left (given_up ++ gone) m)))

  pub not-mem-given_up : ¬ Mem r given_up
  not-mem-given_up m = absent (
      mem-append_right waiting
        (mem-append_right (values active) (mem-append_right done (mem-append_left gone m))))

  pub not-mem-gone : ¬ Mem r gone
  not-mem-gone m = absent (
      mem-append_right waiting
        (mem-append_right (values active) (mem-append_right done (mem-append_right given_up m))))

pub perm_into :
    {r : Ref} (xs : List Ref) {ys zs : List Ref}
    → Perm ys (r ∷ zs)
    → Perm (xs ++ ys) (r ∷ (xs ++ zs))
perm_into xs {ys} {zs} p = Perm.trans (Perm.append_left xs p) (perm_middle xs zs)

pub snoc_into : {r : Ref} (xs ys : List Ref) → Perm ((xs ++ r ∷ []) ++ ys) (r ∷ (xs ++ ys))
snoc_into xs ys = rw append_assoc (perm_middle xs ys)

-- The key of the head of the queue is not in `running` yet.
module _ {heap : Heap} {rest : List Ref} {active : Map Ref} {done given_up gone : List Ref}
    (r : Ref) (sound : IsSound heap (r ∷ rest) active done given_up gone) where
  not-mem-rest : ¬ Mem r (live rest active done given_up gone)
  not-mem-rest = not_among_others sound r _ (Perm.refl _)

  unused : ¬ Mem (heap r).id (ids heap (values active))
  unused m = ∥∥₁_elim (exists_of_mem-map m) ⊥_prop λ (j, there, e).
      (Nodup-cons.0 sound.distinct).0 (
        rw e at (
          mem-map_of_mem (λ i. (heap i).id)
            (mem-append_right rest (mem-append_left (done ++ (given_up ++ gone)) there))))

  pub delete_unused : delete (heap r).id active ≡ active
  delete_unused = delete_absent _ active (lookup_fresh heap _ active sound.runs unused)

-- The head of the queue starts to run.
pub started :
    {heap : Heap} {rest : List Ref} {active : Map Ref} {done given_up gone : List Ref} (r : Ref)
    (t : Task)
    → IsSound heap (r ∷ rest) active done given_up gone
    → t.id ≡ (heap r).id
    → IsRunning (heap r).id t
    → IsSound (update heap r t) rest (insert (heap r).id r active) done given_up gone
started {heap} {rest} {active} {done} {given_up} {gone} r t sound same_id now_runs = record {
  distinct =
      rw (delete_unused r sound)
        (distinct_moved sound r _ (Perm.refl _) t _ same_id (perm_middle rest _));
  keys =
      (lookup-delete_self (heap r).id active, delete-HasDistinctKeys (heap r).id active sound.keys);
  waits =
      All-update IsWaiting heap r t rest
        (not-mem-waiting rest active done given_up gone (not-mem-rest r sound)) sound.waits.1;
  runs = (
    subst (IsRunning (heap r).id) (sym (update_self heap r t)) now_runs,
    rw (delete_unused r sound) (
        All-update_map IsRunning heap r t active
          (not-mem-active rest active done given_up gone (not-mem-rest r sound)) sound.runs),
  );
  succeeds =
      All-update IsSucceeded heap r t done
        (not-mem-done rest active done given_up gone (not-mem-rest r sound)) sound.succeeds;
  replaced =
      All-update IsReplaced heap r t gone
        (not-mem-gone rest active done given_up gone (not-mem-rest r sound)) sound.replaced;
  gives_up =
      All-update IsAbandoned heap r t given_up
        (not-mem-given_up rest active done given_up gone (not-mem-rest r sound)) sound.gives_up;
}

-- A running task leaves the running tasks.
module _ {heap : Heap} {waiting : List Ref} {active : Map Ref} {done given_up gone : List Ref}
    (id : Text) (r : Ref) (t : Task) (found : lookup id active ≡ some r)
    (sound : IsSound heap waiting active done given_up gone) (same_id : t.id ≡ (heap r).id) where
  left : Map Ref
  left = delete id active

  others : List Ref
  unfolding left
  others = live waiting left done given_up gone

  from_running : Perm (live waiting active done given_up gone) (r ∷ others)
  unfolding others
  from_running = perm_into waiting (
      Perm.append_right (done ++ (given_up ++ gone))
        (values-delete-perm id r active sound.keys found))

  absent : ¬ Mem r (live waiting left done given_up gone)
  unfolding others
  absent = not_among_others sound r others from_running

  distinct_left :
      (after : List Ref)
      → Perm after (r ∷ live waiting left done given_up gone)
      → Nodup (ids (update heap r t) after)
  unfolding others
  distinct_left after p = distinct_moved sound r others from_running t after same_id p

  pub relist :
      (tasks after : List Ref)
      → Perm tasks (live waiting active done given_up gone)
      → Perm after (r ∷ live waiting (delete id active) done given_up gone)
      → Perm tasks after
  unfolding left others
  relist tasks after p q = Perm.trans p (Perm.trans from_running (Perm.symm q))

  waits_left : All (λ j. IsWaiting (update heap r t j)) waiting
  waits_left =
      All-update IsWaiting heap r t waiting (not-mem-waiting waiting left done given_up gone absent)
        sound.waits

  runs_left : All (λ e. IsRunning e.0 (update heap r t e.1)) left
  unfolding left
  runs_left =
      All-update_map IsRunning heap r t left (not-mem-active waiting left done given_up gone absent)
        (All-delete (λ e. IsRunning e.0 (heap e.1)) id active sound.runs)

  keys_left : HasDistinctKeys left
  unfolding left
  keys_left = delete-HasDistinctKeys id active sound.keys

  succeeds_left : All (λ j. IsSucceeded (update heap r t j)) done
  succeeds_left =
      All-update IsSucceeded heap r t done (not-mem-done waiting left done given_up gone absent)
        sound.succeeds

  gives_up_left : All (λ j. IsAbandoned (update heap r t j)) given_up
  gives_up_left =
      All-update IsAbandoned heap r t given_up
        (not-mem-given_up waiting left done given_up gone absent) sound.gives_up

  IsReplaced-left : All (λ j. IsReplaced (update heap r t j)) gone
  IsReplaced-left =
      All-update IsReplaced heap r t gone (not-mem-gone waiting left done given_up gone absent)
        sound.replaced

  at_end :
      (P : Task → Type 0) (rs : List Ref)
      → All (λ j. P (update heap r t j)) rs
      → P t
      → All (λ j. P (update heap r t j)) (rs ++ r ∷ [])
  at_end P rs h p =
      All-append (λ j. P (update heap r t j)) rs (r ∷ []) h
        (subst P (sym (update_self heap r t)) p, tt)

  pub retried :
      IsWaiting t
      → IsSound (update heap r t) (waiting ++ r ∷ []) (delete id active) done given_up gone
  unfolding left
  retried now_waits = record {
    distinct = distinct_left _ (snoc_into waiting _);
    keys = keys_left;
    waits = at_end IsWaiting waiting waits_left now_waits;
    runs = runs_left;
    succeeds = succeeds_left;
    replaced = IsReplaced-left;
    gives_up = gives_up_left;
  }

  pub completed :
      IsSucceeded t
      → IsSound (update heap r t) waiting (delete id active) (done ++ r ∷ []) given_up gone
  unfolding left
  completed now_done = record {
    distinct =
        distinct_left _
          (perm_into waiting (perm_into (values left) (snoc_into done (given_up ++ gone))));
    keys = keys_left;
    waits = waits_left;
    runs = runs_left;
    succeeds = at_end IsSucceeded done succeeds_left now_done;
    replaced = IsReplaced-left;
    gives_up = gives_up_left;
  }

  pub gave_up :
      IsAbandoned t
      → IsSound (update heap r t) waiting (delete id active) done (given_up ++ r ∷ []) gone
  unfolding left
  gave_up now_abandoned = record {
    distinct =
        distinct_left _
          (perm_into waiting (perm_into (values left) (perm_into done (snoc_into given_up gone))));
    keys = keys_left;
    waits = waits_left;
    runs = runs_left;
    succeeds = succeeds_left;
    replaced = IsReplaced-left;
    gives_up = at_end IsAbandoned given_up gives_up_left now_abandoned;
  }

  pub was_replaced :
      IsReplaced t → IsSound (update heap r t) waiting (delete id active) done given_up (r ∷ gone)
  unfolding left
  was_replaced now_replaced = record {
    distinct =
        distinct_left _ (
          perm_into waiting (perm_into (values left) (perm_into done (perm_middle given_up gone))));
    keys = keys_left;
    waits = waits_left;
    runs = runs_left;
    succeeds = succeeds_left;
    replaced = (subst IsReplaced (sym (update_self heap r t)) now_replaced, IsReplaced-left);
    gives_up = gives_up_left;
  }
