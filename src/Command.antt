-- ===== src/Command.antt =====
-- The commands of cmd/vm-migrator/main.go, with their flags parsed. The logger's library, the
-- directory and the orchestrator's run are arguments; the handlers of signals, which cancel the
-- context, are left out.
mod Tests
use victoriametrics_data_mig.Prelude.{
  ℕ, zero, suc, ◌&&◌, Bool, true, false, not, List, [], ◌∷◌, ◌++◌, Option, none, some, Text, codes,
  is_empty, text_eq, ltb, length, if◌then◌else◌, Result, err, ok, wrapped, then_ok, Float, ℤ, pos,
}
use victoriametrics_data_mig.Config.{Config}
use victoriametrics_data_mig.Worker.Deploy.{take_text}

pub record MigrateFlags : Type 0 where
  pub config_file : Text
  pub dry_run : Bool
  pub log_level : Text

pub record WorkerFlags : Type 0 where
  pub port : ℤ
  pub vmctl_path : Text
  pub log_level : Text

-- The flags that are not given.
unfoldable pub default_migrate_flags : MigrateFlags
default_migrate_flags = record {
  config_file = codes "vm-migrator.yaml";
  dry_run = false;
  log_level = [];
}

unfoldable pub default_worker_flags : WorkerFlags
default_worker_flags = record {
  port = pos 9091;
  vmctl_path = codes "/usr/local/bin/vmctl";
  log_level = codes "info";
}

pub data Level : Type 0 where
  debug_level info_level warn_level error_level : Level

-- The `switch` of `newLogger`.
unfoldable pub level_of : Text → Level
level_of level =
    if text_eq level (codes "debug")
    then debug_level
    else if text_eq level (codes "info")
    then info_level
    else if text_eq level (codes "warn")
    then warn_level
    else if text_eq level (codes "error")
    then error_level
    else info_level

-- `build` is `zap.Config.Build` for a level.
unfoldable pub new_logger : {Logger : Type 0} → (Level → Result Logger) → Text → Result Logger
new_logger build level = build (level_of level)

-- The flag's level, where it is given.
unfoldable pub override_level : {F : Float} → Text → Config F → Config F
override_level level cfg =
    if is_empty level then cfg else record cfg { logging = record (cfg.logging) { level = level } }

-- An entry of the working directory.
pub record DirEntry : Type 0 where
  pub name : Text
  pub is_dir : Bool

-- The guard of `runStatus`. A name that starts with the 16 characters is longer than 16 bytes exactly
-- where it is longer than 16 characters.
unfoldable pub is_state_file : Text → Bool
is_state_file name = ltb 16 (length name) && text_eq (take_text 16 name) (codes "migration-state-")

-- The texts that the loop over the entries prints; a file that cannot be read is skipped.
unfoldable pub print_states : (Text → Result Text) → List DirEntry → List Text
print_states read [] = []
print_states read (f ∷ files) =
    let rest = print_states read files in
    if not f.is_dir && is_state_file f.name
    then elim (read f.name) [ err e ↦ rest | ok state ↦ state ∷ rest ]
    else rest

module _ {Logger : Type 0} (build : Level → Result Logger) where
  abbrev pub with_logger : Text → Result Logger
  with_logger level = wrapped (codes "initializing logger: ") (new_logger build level)

  -- `create` is `orchestrator.New`, and `run` what `Run` returns.
  unfoldable pub run_migrate :
      {F : Float} {Orchestrator : Type 0}
      → MigrateFlags
      → (Text → Result (Config F))
      → (Config F → Logger → Bool → Result Orchestrator)
      → (Orchestrator → Option Text)
      → Option Text
  run_migrate flags load create run =
      elim (then_ok (wrapped (codes "loading config: ") (load flags.config_file)) (λ loaded.
        let cfg = override_level flags.log_level loaded in
        then_ok (with_logger cfg.logging.level) (λ logger.
          wrapped (codes "creating orchestrator: ") (create cfg logger flags.dry_run)))) [
            | err e ↦ some e
            | ok orch ↦ run orch
          ]

  -- `serve` is what the worker's server returns when it ends.
  unfoldable pub run_worker : WorkerFlags → (Logger → Text → ℤ → Option Text) → Option Text
  run_worker flags serve = elim (with_logger flags.log_level) [
    | err e ↦ some e
    | ok logger ↦ serve logger flags.vmctl_path flags.port
  ]

  unfoldable pub run_status :
      {F : Float} → Result (Config F) → List DirEntry → (Text → Result Text) → Result (List Text)
  run_status loaded files read =
      then_ok (wrapped (codes "loading config: ") loaded)
        (λ cfg. then_ok (with_logger cfg.logging.level) (λ logger. ok (print_states read files)))

-- The exit code of the process, from the error that the command returns.
unfoldable pub exit_code_of : Option Text → ℕ
exit_code_of none = 0
exit_code_of (some e) = 1
