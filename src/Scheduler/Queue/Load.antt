-- ===== src/Scheduler/Queue/Load.antt =====
-- `LoadState` of internal/scheduler/task.go, which reads what `persistState` wrote. The decoder of JSON
-- is a parameter, over a type of the bytes of a file.
use victoriametrics_data_mig.Prelude.{
  ◌++◌, Option, none, some, Text, codes, Result, err, ok, wrapped, then_ok,
}
use victoriametrics_data_mig.Scheduler.Queue.{MigrationState}

-- What reading the file gives: no file, another error, or its bytes.
pub data ReadFile (Bytes : Type 0) : Type 0 where
  not_exist : ReadFile Bytes
  failed_read : Text → ReadFile Bytes
  contents : Bytes → ReadFile Bytes

-- `none` stands for the nil state that a missing file gives.
unfoldable pub load_state :
    {Bytes : Type 0}
    → (Bytes → Result MigrationState)
    → ReadFile Bytes
    → Result (Option MigrationState)
load_state decode not_exist = ok none
load_state decode (failed_read e) = err (codes "reading state file: " ++ e)
load_state decode (contents bytes) =
    then_ok (wrapped (codes "parsing state file: ") (decode bytes)) (λ state. ok (some state))
