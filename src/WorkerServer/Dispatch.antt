-- ===== src/WorkerServer/Dispatch.antt =====
-- `DispatchTask` of internal/worker/manager.go, which calls a worker of
-- internal/workerserver/server.go.
use victoriametrics_data_mig.Prelude.{
  ◌<◌, ◌^◌, ◌≡◌, refl, inl, inr, true, false, ◌++◌, List, Text, codes, Result, err, ok, wrapped,
  then_ok, ℤ, pos, negsuc, arith, ap, sym, ◌-◌, ◌%◌, Bool-cases, ltb,
}
use victoriametrics_data_mig.Types.{Task}
use victoriametrics_data_mig.Worker.Pool.{WorkerConn}
use victoriametrics_data_mig.Worker.Deploy.{to_int32}
use victoriametrics_data_mig.Worker.Deploy.Agreement.{to_int32_small}
use victoriametrics_data_mig.Orchestrator.Execute.{TaskResult}
use victoriametrics_data_mig.WorkerServer.Vmctl.{VmctlResult, Scanner, Launch, run_vmctl}
use victoriametrics_data_mig.WorkerServer.{Server, TaskRequest, TaskResponse, accept, execute_task}

abbrev pub task_result_of : TaskResponse → TaskResult
task_result_of resp = record {
  exit_code = resp.exit_code;
  logs = resp.logs;
  error_message = resp.error_message;
  bytes_transferred = resp.bytes_transferred;
}

abbrev pub request_of : (Task → List Text) → Task → TaskRequest
request_of args task = record { task_id = task.id; vmctl_args = args task }

-- `args` builds the arguments of vmctl, and `call` is the worker's answer to a request.
unfoldable pub dispatch_task :
    (Task → List Text) → (TaskRequest → Result TaskResponse) → WorkerConn → Task → Result TaskResult
dispatch_task args call w task =
    then_ok
      (wrapped
        (codes "executing task "
          ++ (task.id ++ (codes " on worker " ++ (w.pod_name ++ codes ": "))))
        (call (request_of args task)))
      (λ resp. ok (task_result_of resp))

abbrev pub busy_error : Server → WorkerConn → Task → Text
busy_error server w task =
    (codes "executing task " ++ (task.id ++ (codes " on worker " ++ (w.pod_name ++ codes ": "))))
    ++ (codes "worker " ++ (server.worker_id ++ codes " is busy"))

-- What a `TaskResult` of a run of vmctl holds.
abbrev pub received : VmctlResult → TaskResult
received result = record {
  exit_code = result.exit_code;
  logs = result.logs;
  error_message = result.error_message;
  bytes_transferred = result.bytes_transferred;
}

-- An exit code that an `int32` holds.
abbrev pub IsExitCode : ℤ → Type 0
IsExitCode (pos n) = n < 2 ^ 31
IsExitCode (negsuc n) = n < 2 ^ 31

to_int32_id : (n : ℤ) → IsExitCode n → to_int32 n ≡ n
unfolding to_int32
to_int32_id (pos n) h = to_int32_small n h
to_int32_id (negsuc n) h =
    let same : n % 2 ^ 32 ≡ n = omega arith in
    let back : 2 ^ 32 - 1 - (2 ^ 32 - 1 - n) ≡ n = omega arith in
    elim (Bool-cases (ltb (2 ^ 32 - 1 - n) (2 ^ 31))) [
      | inl small ↦ absurd (ground arith)
      | inr large ↦ rw (same, large, back) refl
    ]

-- Where the call of gRPC gets through, a task that is dispatched to an idle worker gets back what the
-- run of the worker's vmctl with the task's arguments returned, where the exit code fits into 32
-- bits, and the worker is idle again.
dispatch_task-idle :
    (scanner : Scanner) (launch : Text → List Text → Launch) (server : Server)
    (args : Task → List Text) (call : TaskRequest → Result TaskResponse) (w : WorkerConn)
    (task : Task)
    → call (request_of args task) ≡ (execute_task scanner launch server (request_of args task)).0
    → IsExitCode (run_vmctl scanner (launch server.vmctl_path (args task))).exit_code
    → server.busy ≡ false
    → (dispatch_task args call w task
        ≡ ok (received (run_vmctl scanner (launch server.vmctl_path (args task)))))
      × ((execute_task scanner launch server (request_of args task)).1 ≡ server)
unfolding dispatch_task execute_task accept
dispatch_task-idle scanner launch server args call w task delivered fits idle =
    let result = run_vmctl scanner (launch server.vmctl_path (args task)) in
    let fine : accept server ≡ ok (record server { busy = true }) = rw idle refl in
    (
      rw (delivered, fine, execute_task) (rw (to_int32_id result.exit_code fits) refl),
      rw (fine, execute_task) (ap (λ b. record server { busy = b }) (sym idle)),
    )

-- One that is dispatched to a busy worker gets the error that says so.
dispatch_task-busy :
    (scanner : Scanner) (launch : Text → List Text → Launch) (server : Server)
    (args : Task → List Text) (call : TaskRequest → Result TaskResponse) (w : WorkerConn)
    (task : Task)
    → call (request_of args task) ≡ (execute_task scanner launch server (request_of args task)).0
    → server.busy ≡ true
    → dispatch_task args call w task ≡ err (busy_error server w task)
unfolding dispatch_task execute_task accept
dispatch_task-busy scanner launch server args call w task delivered busy =
    let refused : accept server ≡ err (codes "worker " ++ (server.worker_id ++ codes " is busy")) =
      rw busy refl in
    rw (delivered, refused, execute_task) refl
