-- ===== src/Orchestrator/Lifecycle/OnceTests.antt =====
-- A whole run over the two time ranges, the second of which cannot be discovered.
use victoriametrics_data_mig.Prelude.{
  ◌≡◌, refl, true, false, [], ◌∷◌, none, some, codes, ok, thousandths, pos, show_int, decimal,
  text_eq, if◌then◌else◌, arith, sum_of,
}
use victoriametrics_data_mig.Scheduler.Calendar.{instant}
use victoriametrics_data_mig.Scheduler.Queue.{absent}
use victoriametrics_data_mig.Scheduler.Queue.Mass.{weight}
use victoriametrics_data_mig.Scheduler.TimeRange.Tests.{two_days}
use victoriametrics_data_mig.Config.{Config}
use victoriametrics_data_mig.Config.Validate.{TimeText, parse_date}
use victoriametrics_data_mig.Config.Tests.{minimal}
use victoriametrics_data_mig.Worker.Deploy.{ready_replicas, to_int32, grpc_port, wait_for_workers}
use victoriametrics_data_mig.Worker.Connect.{connect_pods, connect_to_workers, deploy_workers}
use victoriametrics_data_mig.Progress.Report.{MigrationReport, generate_report}
use victoriametrics_data_mig.Progress.Report.Tests.{blank}
use victoriametrics_data_mig.Orchestrator.Execute.Tests.{noon, heap, initial}
use victoriametrics_data_mig.Orchestrator.Migration.{compile_exclude_patterns, run_error}
use victoriametrics_data_mig.Orchestrator.Migration.Once.{sampled}
use victoriametrics_data_mig.Orchestrator.Migration.Tests.{
  second, discover, ranges, after_loop, migrated, named, keeps, no_error, store, at,
}
use victoriametrics_data_mig.Orchestrator.Lifecycle.{
  Cluster, Libraries, Ended, Runs, begin_run, deploy, prepare, retries_of,
}
use victoriametrics_data_mig.Orchestrator.Lifecycle.Once.{Keeps, Runs-migrates_once}

-- Knows two dates.
abbrev dates : TimeText
dates = record {
  parse = λ layout s.
      if text_eq s (codes "2024-02-28")
      then some noon
      else if text_eq s (codes "2024-03-02")
      then some second.end
      else none;
  duration_error = λ s. none;
  quote = λ s. s;
}

abbrev libs : Libraries thousandths
libs = record {
  formats = blank;
  time_text = dates;
  duration = λ s. pos 30_000_000_000;
  compile = λ p. ok (text_eq p);
}

abbrev cfg : Config thousandths
cfg = record minimal {
  migration = record (minimal.migration) { time_step = codes "day"; reverse_order = false };
  workers = record (minimal.workers) { count = pos 1; grpc_port = pos 9091 };
  retry = record (minimal.retry) { max_retries = pos 3 };
}

abbrev cluster : Cluster
cluster = record {
  net = record { dials = λ a. true; answers = λ a. true };
  created = none;
  polls = ready_replicas (pos 1) ∷ [];
  pods = ok (record { name = codes "w0"; phase = codes "Running"; pod_ip = codes "10.0.0.1" } ∷ []);
}

deploys : deploy libs cfg false cluster ≡ ok initial.workers
unfolding deploy deploy_workers connect_to_workers wait_for_workers grpc_port show_int decimal
    to_int32 connect_pods
deploys = refl

starts : parse_date dates cfg.migration.start_date ≡ ok noon
unfolding parse_date
starts = refl

ends : parse_date dates cfg.migration.end_date ≡ ok second.end
unfolding parse_date
ends = refl

prepares : prepare libs cfg false ≡ ok (some ranges, [])
unfolding prepare compile_exclude_patterns
prepares = rw (starts, ends, two_days) refl

abbrev report : MigrationReport
report =
    generate_report thousandths blank noon after_loop.total_metrics after_loop.tracker
      after_loop.exec.queue

abbrev ended : Ended
ended = record {
  error = run_error after_loop.exec.queue;
  queue = after_loop.exec.queue;
  report = some report;
}

runs : Runs libs cfg false cluster discover noon noon heap [] absent ended
unfolding begin_run retries_of
runs = Runs.finished initial.workers ranges [] after_loop deploys prepares refl migrated

runs-Keeps : Keeps libs cfg cluster discover noon noon heap [] absent store 0 at runs
unfolding runs
runs-Keeps = (named, keeps)

Runs-migrates_once_example :
    sum_of (λ i. weight (sampled store 0 at) (ended.queue.heap i)) ended.queue.done ≡ 1
Runs-migrates_once_example =
    Runs-migrates_once libs cfg cluster discover noon noon heap [] absent store 0 at noon second.end
      ended report starts ends (unfold instant in omega arith) (unfold instant in omega arith) runs
      runs-Keeps refl no_error
