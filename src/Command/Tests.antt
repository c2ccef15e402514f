-- ===== src/Command/Tests.antt =====
-- Runs of the commands of cmd/vm-migrator/main.go.
use victoriametrics_data_mig.Prelude.{
  ◌≡◌, refl, true, false, List, [], ◌∷◌, none, some, codes, Result, err, ok,
}
use victoriametrics_data_mig.Config.Tests.{minimal}
use victoriametrics_data_mig.Command.{
  Level, DirEntry, default_migrate_flags, default_worker_flags, exit_code_of, info_level,
  is_state_file, level_of, new_logger, override_level, print_states, run_migrate, run_status,
  run_worker,
}
use victoriametrics_data_mig.WorkerServer.{serve}

abbrev build : Level → Result Level
build level = ok level

-- A level that is not known is `info`.
unknown_level : level_of (codes "trace") ≡ info_level
unfolding level_of
unknown_level = refl

abbrev files : List DirEntry
files =
    record { name = codes "migration-state-1f.json"; is_dir = false }
    ∷ record { name = codes "migration-state-"; is_dir = false }
    ∷ record { name = codes "migration-state-old"; is_dir = true }
    ∷ record { name = codes "vm-migrator.yaml"; is_dir = false }
    ∷ []

status_prints :
    run_status build (ok minimal) files (λ name. ok name)
    ≡ ok (codes "migration-state-1f.json" ∷ [])
unfolding run_status print_states is_state_file new_logger
status_prints = refl

-- The flag's level is the logger's.
flag_wins :
    run_migrate build
      (record default_migrate_flags { log_level = codes "info" })
      (λ file. ok minimal)
      (λ cfg logger dry. err cfg.logging.level)
      (λ orch. orch)
    ≡ some (codes "creating orchestrator: info")
unfolding run_migrate override_level new_logger default_migrate_flags
flag_wins = refl

-- A worker whose port is taken ends with the exit code 1.
port_taken :
    exit_code_of (
      run_worker build default_worker_flags
        (λ logger path port. serve port (some (codes "in use")) none))
    ≡ 1
unfolding exit_code_of run_worker new_logger serve default_worker_flags
port_taken = refl
