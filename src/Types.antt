-- ===== src/Types.antt =====
-- internal/types/types.go: the types that the packages share.
use victoriametrics_data_mig.Prelude.{ℕ, Bool, Text, Option}
use victoriametrics_data_mig.Scheduler.Calendar.{Time}

pub data TaskStatus : Type 0 where
  pending running succeeded failed retrying abandoned : TaskStatus

-- Counts of series, attempts and bytes are numbers that do not wrap: they stay below 2 ^ 63.
pub record Task : Type 0 where
  pub id : Text
  pub metric_name : Text
  pub selector : Text
  pub time_start : Time
  pub time_end : Time
  pub est_series_count : ℕ
  pub status : TaskStatus
  pub attempts : ℕ
  pub max_retries : ℕ
  pub worker_id : Text
  pub error : Text
  pub started_at : Option Time
  pub completed_at : Option Time
  pub bytes_transferred : ℕ
  pub split_attempted : Bool

pub record LabelValueCount : Type 0 where
  pub name : Text
  pub value : ℕ
