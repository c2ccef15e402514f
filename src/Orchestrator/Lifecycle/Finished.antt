-- ===== src/Orchestrator/Lifecycle/Finished.antt =====
-- What a run of internal/orchestrator/orchestrator.go has done when it returns with its report.
use victoriametrics_data_mig.Prelude.{
  ◌≡◌, ◌<◌, ◌⊎◌, false, List, [], codes, ok, wrapped_iff, length, Float,
}
use victoriametrics_data_mig.Scheduler.TimeRange.{TimeRange}
use victoriametrics_data_mig.Scheduler.Queue.{TaskQueue}
use victoriametrics_data_mig.Config.{Config}
use victoriametrics_data_mig.Worker.Pool.{WorkerConn}
use victoriametrics_data_mig.Worker.Pool.Busy.{busy_workers}
use victoriametrics_data_mig.Worker.Connect.Ready.{deploy_workers_iff}
use victoriametrics_data_mig.Progress.Tracker.{Tracker}
use victoriametrics_data_mig.Progress.Report.{MigrationReport}
use victoriametrics_data_mig.Orchestrator.Lifecycle.{Cluster, Libraries, deploy}

-- Workers that were deployed: there is one at least, and none is busy.
pub deploy-idle :
    {F : Float} (libs : Libraries F) (cfg : Config F) (k : Cluster) (ws : List WorkerConn)
    → deploy libs cfg false k ≡ ok ws
    → (0 < length ws) × (busy_workers ws ≡ [])
unfolding deploy
deploy-idle libs cfg k ws deployed =
    let (_, _, (items, _, (_, staffed, idle))) =
      (deploy_workers_iff cfg k.net k.created k.polls k.pods ws).0
        ((wrapped_iff (codes "deploying workers: ") _ ws).0 deployed) in
    (staffed, idle)

-- The report's numbers, from the queue.
abbrev pub IsReported : TaskQueue → MigrationReport → Type 0
IsReported q r =
    (r.succeeded ≡ length q.done)
    × (r.failed ≡ 0)
    × (r.abandoned ≡ length q.failed)
    × (length r.failed_task_details ≡ length q.failed)
    × ((r.time_ranges_total ≡ 0) ⊎ (r.time_ranges_done ≡ r.time_ranges_total))
