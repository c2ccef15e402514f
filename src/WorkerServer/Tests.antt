-- ===== src/WorkerServer/Tests.antt =====
-- Runs of a worker of internal/workerserver.
use victoriametrics_data_mig.Prelude.{
  ℤ, negsuc, ℕ, ◌*◌, ◌-◌, ◌≤◌, ◌≡◌, refl, true, [], ◌∷◌, none, some, Text, codes, err, ok, length,
  join, pos, Option, is_space, trim_prefix, trim_suffix, trim_space,
}
use victoriametrics_data_mig.WorkerServer.{
  Server, State, Step, Run, TaskRequest, accept, new_server,
}
use victoriametrics_data_mig.WorkerServer.Vmctl.{
  Exit, runs, exit_error, other_error, Scanner, units, run_vmctl, parse_human_bytes, wait_text,
}
use victoriametrics_data_mig.WorkerServer.Failure.{IsLastError, run_vmctl-IsLastError}
use victoriametrics_data_mig.WorkerServer.Single.{Run-single}

-- Numbers of one digit.
abbrev digit : Text → Option ℕ
digit [] = none
digit (c ∷ s) = some (c - b'0')

abbrev scanner : Scanner
scanner = record { Number = ℕ; scan = digit; scaled = λ n unit. n * unit; multipliers = units }

megabytes : parse_human_bytes scanner (codes " 7 mb ") ≡ 7_340_032
unfolding parse_human_bytes trim_space trim_suffix trim_prefix is_space
megabytes = refl

abbrev failed_exit : Exit
failed_exit = record {
  lines =
      codes "start" ∷ codes " no route to host " ∷ codes "VictoriaMetrics importer stopped" ∷ [];
  wait = some (exit_error (pos 1) (codes "exit status 1"));
}

run_vmctl-IsLastError_example :
    ((run_vmctl scanner (runs failed_exit)).logs ≡ join (codes "\n") failed_exit.lines)
    × (failed_exit.wait ≡ none
        → ((run_vmctl scanner (runs failed_exit)).exit_code ≡ pos 0)
          × ((run_vmctl scanner (runs failed_exit)).error_message ≡ []))
    × ((code : ℤ) (text : Text)
        → failed_exit.wait ≡ some (exit_error code text)
        → (run_vmctl scanner (runs failed_exit)).exit_code ≡ code)
    × ((text : Text)
        → failed_exit.wait ≡ some (other_error text)
        → (run_vmctl scanner (runs failed_exit)).exit_code ≡ negsuc 0)
    × (¬ (run_vmctl scanner (runs failed_exit)).exit_code ≡ pos 0
        → IsLastError
            (wait_text failed_exit.wait)
            failed_exit.lines
            (run_vmctl scanner (runs failed_exit)).error_message)
run_vmctl-IsLastError_example = run_vmctl-IsLastError scanner failed_exit

no_route : (run_vmctl scanner (runs failed_exit)).error_message ≡ codes "no route to host"
unfolding run_vmctl trim_space is_space
no_route = refl

abbrev request : TaskRequest
request = record { task_id = codes "t1"; vmctl_args = [] }

abbrev idle : Server
idle = new_server (codes "/vmctl") (codes "w0")

abbrev works : State
works = record {
  server = record { vmctl_path = codes "/vmctl"; worker_id = codes "w0"; busy = true };
  runs = request ∷ [];
}

turned : Run (record { server = idle; runs = [] }) works
unfolding accept new_server
turned = Run.next Run.here (Step.starts request works.server refl)

Run-single_example :
    (length works.runs ≤ 1)
    × (length works.runs ≡ 1)
    × ((e : Text) → accept works.server ≡ err e → length works.runs ≡ 1)
    × ((t : Server) → accept works.server ≡ ok t → length works.runs ≡ 0)
Run-single_example = Run-single (codes "/vmctl") (codes "w0") works turned
