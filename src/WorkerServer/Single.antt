-- ===== src/WorkerServer/Single.antt =====
-- A worker of internal/workerserver/server.go runs one vmctl at a time.
use victoriametrics_data_mig.Prelude.{
  ◌≤◌, ◌≡◌, refl, inl, inr, Bool, true, false, [], ◌∷◌, ◌++◌, arith, Text, err, ok, ok_injective,
  err_not_ok, length, length-append, Bool-cases, if◌then◌else◌, ap, sym,
}
use victoriametrics_data_mig.WorkerServer.{Server, State, Step, Run, accept, new_server}

-- As many requests run as the busy flag says.
abbrev pub IsSingle : State → Type 0
IsSingle s = length s.runs ≡ (if s.server.busy then 1 else 0)

-- A request that is accepted finds the worker idle and leaves it busy.
accept-ok : (s t : Server) → accept s ≡ ok t → (s.busy ≡ false) × (t.busy ≡ true)
unfolding accept
accept-ok s t e = elim (Bool-cases s.busy) [
  | inl busy ↦ absurd (err_not_ok _ t (rw busy at e))
  | inr idle ↦ (
    idle,
    sym (ap (λ (u : Server). u.busy) (ok_injective (record s { busy = true }) t (rw idle at e))),
  )
]

accept-err : (s : Server) (e : Text) → accept s ≡ err e → s.busy ≡ true
unfolding accept
accept-err s e h = elim (Bool-cases s.busy) [
  | inl busy ↦ busy
  | inr idle ↦ absurd (err_not_ok e (record s { busy = true }) (sym (rw idle at h)))
]

Step-IsSingle : {s t : State} → Step s t → IsSingle s → IsSingle t
Step-IsSingle {s} (Step.refuses req e refused) h = h
Step-IsSingle {s} (Step.starts req server accepted) h =
    let (idle, busy) = accept-ok s.server server accepted in rw busy (omega (arith, rw idle at h))
Step-IsSingle {s} (Step.ends req front back e) h = ended s.server.busy h
  where
    ended : (b : Bool) → length s.runs ≡ (if b then 1 else 0) → length (front ++ back) ≡ 0
    ended true h =
        omega (arith, rw e at h, length-append front back, length-append front (req ∷ back))
    ended false h =
        omega (arith, rw e at h, length-append front back, length-append front (req ∷ back))

-- However calls of a worker's `ExecuteTask` overlap, at most one vmctl runs, the busy flag says
-- whether one does, and a call is refused exactly while one does.
pub Run-single :
    (vmctl_path hostname : Text) (s : State)
    → Run (record { server = new_server vmctl_path hostname; runs = [] }) s
    → (length s.runs ≤ 1)
      × (length s.runs ≡ (if s.server.busy then 1 else 0))
      × ((e : Text) → accept s.server ≡ err e → length s.runs ≡ 1)
      × ((t : Server) → accept s.server ≡ ok t → length s.runs ≡ 0)
unfolding accept new_server
Run-single vmctl_path hostname s r =
    let h = single r in
    (
      at_most s.server.busy h,
      h,
      (λ e refused. rw (accept-err s.server e refused) at h),
      λ t accepted. rw (accept-ok s.server t accepted).0 at h,
    )
  where
    single :
        {t : State}
        → Run (record { server = new_server vmctl_path hostname; runs = [] }) t
        → IsSingle t
    single Run.here = refl
    single (Run.next r st) = Step-IsSingle st (single r)

    at_most : (b : Bool) → length s.runs ≡ (if b then 1 else 0) → length s.runs ≤ 1
    at_most true h = omega arith
    at_most false h = omega arith
