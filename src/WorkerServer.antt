-- ===== src/WorkerServer.antt =====
-- internal/workerserver/server.go: the gRPC server of a worker, which runs one task at a time. The
-- mutex makes each of the two locked sections of `ExecuteTask` one step; between them vmctl runs.
pub mod Vmctl
pub mod Failure
pub mod Single
pub mod Dispatch
mod Tests
use mathlib.Core.Option
use victoriametrics_data_mig.Prelude.{
  ℕ, ◌≡◌, Bool, true, false, List, [], ◌∷◌, ◌++◌, Text, codes, Result, err, ok, if◌then◌else◌, ℤ,
  Option, none, some, show_int,
}
use victoriametrics_data_mig.Worker.Deploy.{to_int32}
use victoriametrics_data_mig.WorkerServer.Vmctl.{VmctlResult, Launch, Scanner, run_vmctl}

pub record TaskRequest : Type 0 where
  pub task_id : Text
  pub vmctl_args : List Text

-- The exit code is an `int32`.
pub record TaskResponse : Type 0 where
  pub exit_code : ℤ
  pub logs : Text
  pub error_message : Text
  pub bytes_transferred : ℕ

pub record Server : Type 0 where
  pub vmctl_path : Text
  pub worker_id : Text
  pub busy : Bool

pub new_server : Text → Text → Server
new_server vmctl_path hostname = record {
  vmctl_path = vmctl_path;
  worker_id = hostname;
  busy = false;
}

-- The first locked section.
unfoldable pub accept : Server → Result Server
accept s =
    if s.busy
    then err (codes "worker " ++ (s.worker_id ++ codes " is busy"))
    else ok (record s { busy = true })

-- The deferred one.
abbrev pub release : Server → Server
release s = record s { busy = false }

abbrev pub response_of : VmctlResult → TaskResponse
response_of result = record {
  exit_code = to_int32 result.exit_code;
  logs = result.logs;
  error_message = result.error_message;
  bytes_transferred = result.bytes_transferred;
}

-- A call that no other call overlaps: the answer, and the server after it. `launch` is what becomes
-- of a subprocess of a path and arguments.
unfoldable pub execute_task :
    Scanner → (Text → List Text → Launch) → Server → TaskRequest → Result TaskResponse × Server
unfolding accept
execute_task scanner launch s req = elim (accept s) [
  | err e ↦ (err e, s)
  | ok s' ↦ (ok (response_of (run_vmctl scanner (launch s'.vmctl_path req.vmctl_args))), release s')
]

unfoldable pub ping : Server → Text
ping s = s.worker_id

-- `Run`, from the errors of `net.Listen` and of the gRPC server's `Serve`, which returns once the
-- context is cancelled.
unfoldable pub serve : ℤ → Option Text → Option Text → Option Text
serve port (some e) served =
    some (codes "failed to listen on port " ++ (show_int port ++ (codes ": " ++ e)))
serve port none served = Option.map (λ e. codes "gRPC server error: " ++ e) served

-- Calls that may overlap: the server, and the requests whose vmctl runs.
pub record State : Type 0 where
  pub server : Server
  pub runs : List TaskRequest

pub data Step (s : State) : State → Type 0 where
  refuses : (req : TaskRequest) (e : Text) → accept s.server ≡ err e → Step s s
  starts :
      (req : TaskRequest) (server : Server)
      → accept s.server ≡ ok server
      → Step s (record { server = server; runs = req ∷ s.runs })
  ends :
      (req : TaskRequest) (front back : List TaskRequest)
      → s.runs ≡ front ++ req ∷ back
      → Step s (record { server = release s.server; runs = front ++ back })

pub data Run (s : State) : State → Type 0 where
  here : Run s s
  next : {t u : State} → Run s t → Step t u → Run s u
