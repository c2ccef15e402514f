-- ===== src/Orchestrator/Lifecycle/Tests.antt =====
-- Runs of internal/orchestrator/orchestrator.go over three days, each with one metric.
use victoriametrics_data_mig.Prelude.{
  ltb, if◌then◌else◌, ◌≡◌, refl, true, false, List, [], ◌∷◌, none, some, Text, codes, Result, ok,
  thousandths, pos, show_int, decimal, text_eq,
}
use victoriametrics_data_mig.Scheduler.TimeRange.{TimeRange}
use victoriametrics_data_mig.Types.{Task}
use victoriametrics_data_mig.Splitter.Selector.{SelectorInfo}
use victoriametrics_data_mig.Orchestrator.Execute.{Exec, Flight, Outcome, dispatch_error}
use victoriametrics_data_mig.Config.Defaults.{apply_defaults, int_or}
use victoriametrics_data_mig.Config.Tests.{two_dates, loads, loaded, minimal}
use victoriametrics_data_mig.Worker.Pool.{WorkerConn}
use victoriametrics_data_mig.Worker.Deploy.{ready_replicas, to_int32, grpc_port, wait_for_workers}
use victoriametrics_data_mig.Worker.Connect.{connect_pods, connect_to_workers, deploy_workers}
use victoriametrics_data_mig.Progress.Report.{MigrationReport}
use victoriametrics_data_mig.Progress.Report.Tests.{blank}
use victoriametrics_data_mig.Orchestrator.Execute.Tests.{noon, env, heap, success}
use victoriametrics_data_mig.Orchestrator.Migration.{compile_exclude_patterns}
use victoriametrics_data_mig.Orchestrator.Lifecycle.{Cluster, Libraries, Ended, Runs}
use victoriametrics_data_mig.Scheduler.Queue.{absent}
use victoriametrics_data_mig.Orchestrator.Lifecycle.Completes.{Answered, Runs-completes}

-- A pattern matches only itself.
abbrev libs : Libraries thousandths
libs = record {
  formats = blank;
  time_text = two_dates;
  duration = λ s. pos 30_000_000_000;
  compile = λ p. ok (text_eq p);
}

abbrev cluster : Cluster
cluster = record {
  net = record { dials = λ a. true; answers = λ a. true };
  created = none;
  polls = ready_replicas (pos 0) ∷ ready_replicas (pos 100) ∷ [];
  pods = ok (record { name = codes "w0"; phase = codes "Running"; pod_ip = codes "10.0.0.1" } ∷ []);
}

abbrev discover : TimeRange → Result (List Text)
discover tr = ok (codes "up" ∷ [])

abbrev workers : List WorkerConn
workers = record { pod_name = codes "w0"; addr = codes "10.0.0.1:9091"; busy = false } ∷ []

deploys : deploy_workers loaded cluster.net cluster.created cluster.polls cluster.pods ≡ ok workers
unfolding deploy_workers connect_to_workers connect_pods wait_for_workers grpc_port show_int decimal
    to_int32 apply_defaults int_or
deploys = refl

compiles : compile_exclude_patterns libs.compile two_dates.quote loaded.exclude_metrics ≡ ok []
unfolding compile_exclude_patterns apply_defaults
compiles = refl

-- No worker answers until a task was retried.
abbrev answer : Exec → Flight → Outcome
answer s f = if ltb 0 s.counters.task_retries then success else dispatch_error (codes "unreachable")

abbrev plan : Exec → Task → List SelectorInfo
plan s task = []

completed :
    (e : Ended) × (r : MigrationReport) × (run : Runs libs loaded false cluster discover noon noon
      heap [] absent e)
    × Answered libs loaded cluster discover noon noon heap [] absent env answer plan run
    × (e.report ≡ some r)
completed =
    Runs-completes libs loaded cluster discover noon noon heap [] absent env answer plan (ok [])
      (λ s. ok minimal) workers [] loads deploys compiles

abbrev ended : Ended
ended = completed.0

abbrev report : MigrationReport
report = completed.1
