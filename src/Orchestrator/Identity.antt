-- ===== src/Orchestrator/Identity.antt =====
-- `New` and `generateMigrationID` of internal/orchestrator/orchestrator.go: the name of a migration, and
-- what is named after it. SHA-256, of the UTF-8 encoding of a text, and the Kubernetes libraries are
-- parameters.
pub mod Names
mod Tests
use victoriametrics_data_mig.Prelude.{
  ℕ, zero, suc, ◌+◌, ◌-◌, ◌/◌, ◌%◌, Bool, true, false, List, [], ◌∷◌, ◌++◌, Option, none, some,
  Text, codes, ltb, if◌then◌else◌, Result, ok, wrapped, then_ok, Float,
}
use victoriametrics_data_mig.Config.{Config}
use victoriametrics_data_mig.Scheduler.Queue.{
  TaskQueue, MigrationState, StateFile, Heap, new_task_queue,
}
use victoriametrics_data_mig.Worker.Manager.{Manager, new_manager}

-- The verb `%x` on a slice of bytes.
abbrev pub hex_digit : ℕ → ℕ
hex_digit d = if ltb d 10 then b'0' + d else b'a' + (d - 10)

abbrev pub hex : List ℕ → Text
hex [] = []
hex (b ∷ bytes) = hex_digit (b / 16) ∷ hex_digit (b % 16) ∷ hex bytes

-- `sum[:n]`.
abbrev pub first_bytes : ℕ → List ℕ → List ℕ
first_bytes zero bytes = []
first_bytes (suc n) [] = []
first_bytes (suc n) (b ∷ bytes) = b ∷ first_bytes n bytes

-- The texts that are written to the hash, one after the other.
abbrev pub identity_text : {F : Float} → Config F → Text
identity_text cfg =
    cfg.source.vmselect_url
    ++ (cfg.destination.vminsert_url ++ (cfg.migration.start_date ++ cfg.migration.end_date))

unfoldable pub generate_migration_id : {F : Float} → (Text → List ℕ) → Config F → Text
generate_migration_id sha256 cfg = hex (first_bytes 6 (sha256 (identity_text cfg)))

-- `fmt.Sprintf("migration-state-%s.json", migrationID)`.
unfoldable pub state_file_name : Text → Text
state_file_name migration_id = codes "migration-state-" ++ (migration_id ++ codes ".json")

-- The parts of `Orchestrator` that do not only repeat the configuration.
pub record Orchestrator (Clientset : Type 0) : Type 0 where
  pub queue : TaskQueue
  pub worker_mgr : Option (Manager Clientset)
  pub migration_id : Text
  pub dry_run : Bool

-- A dry run has no manager.
unfoldable pub new_orchestrator :
    {F : Float} {RestConfig Clientset : Type 0}
    → (Text → List ℕ)
    → Config F
    → Bool
    → Result RestConfig
    → Result RestConfig
    → (RestConfig → Result Clientset)
    → Heap
    → StateFile
    → Result (Orchestrator Clientset)
new_orchestrator sha256 cfg dry_run in_cluster kubeconfig new_for_config heap disk =
    let id = generate_migration_id sha256 cfg in
    let queue = new_task_queue heap (state_file_name id) disk in
    if dry_run
    then ok (record { queue = queue; worker_mgr = none; migration_id = id; dry_run = true })
    else then_ok
        (wrapped (codes "creating worker manager: ")
          (new_manager in_cluster kubeconfig new_for_config cfg.workers.namespace id))
        (λ mgr.
          ok (record { queue = queue; worker_mgr = some mgr; migration_id = id; dry_run = false }))
