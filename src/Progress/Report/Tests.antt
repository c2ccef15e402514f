-- ===== src/Progress/Report/Tests.antt =====
-- A report of internal/progress/tracker.go, with dates left blank.
use victoriametrics_data_mig.Prelude.{thousandths, ◌+◌, ◌≡◌, ◌≤◌, codes, [], length, pos}
use victoriametrics_data_mig.Scheduler.Queue.{absent}
use victoriametrics_data_mig.Scheduler.Queue.Tests.{noon, heap, failed_once, run, run-AddNew}
use victoriametrics_data_mig.Progress.Tracker.{Tracker, new_tracker}
use victoriametrics_data_mig.Progress.Report.{Formats, MigrationReport, generate_report}
use victoriametrics_data_mig.Progress.Report.Counts.{generate_report_lem}

abbrev pub blank : Formats thousandths
blank = record { date = λ t. []; elapsed = λ t u. []; two_digits = λ x. [] }

abbrev tracker : Tracker
tracker = new_tracker noon (pos 30_000_000_000) 1

abbrev report : MigrationReport
report = generate_report thousandths blank noon 1 tracker failed_once

generate_report_lem_example :
    (length report.failed_task_details ≡ report.abandoned)
    × (report.retried ≤ report.succeeded)
    × (report.succeeded + report.abandoned ≤ report.total_tasks)
generate_report_lem_example =
    generate_report_lem thousandths blank noon 1 tracker heap (codes "state.json") absent run
      run-AddNew
