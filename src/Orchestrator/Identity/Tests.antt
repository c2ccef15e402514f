-- ===== src/Orchestrator/Identity/Tests.antt =====
-- The names of the migration of a configuration, with a digest that is made up.
use victoriametrics_data_mig.Prelude.{
  ℕ, ◌≤◌, ◌≡◌, refl, true, false, List, [], ◌∷◌, ◌++◌, Text, codes, length, arith, All, Result, err,
  ok,
}
use victoriametrics_data_mig.Scheduler.Queue.{absent}
use victoriametrics_data_mig.Config.Tests.{minimal}
use victoriametrics_data_mig.Orchestrator.Execute.Tests.{heap}
use victoriametrics_data_mig.Worker.Deploy.{deployment_name}
use victoriametrics_data_mig.Worker.Manager.{new_manager}
use victoriametrics_data_mig.Command.{is_state_file}
use victoriametrics_data_mig.Orchestrator.Identity.{
  generate_migration_id, state_file_name, new_orchestrator,
}
use victoriametrics_data_mig.Orchestrator.Identity.Names.{IsHexDigit, generate_migration_id-names}

abbrev repeat : ℕ → List ℕ
repeat b = b ∷ b ∷ b ∷ b ∷ b ∷ b ∷ b ∷ b ∷ []

-- The digest of every text.
abbrev sha256 : Text → List ℕ
sha256 s = repeat 0x1f ++ (repeat 7 ++ (repeat 8 ++ repeat 255))

identifier : generate_migration_id sha256 minimal ≡ codes "1f1f1f1f1f1f"
unfolding generate_migration_id
identifier = refl

generate_migration_id-names_example :
    let id = generate_migration_id sha256 minimal in
    (length id ≡ 12)
    × All IsHexDigit id
    × (deployment_name id ≡ codes "vm-migrator-workers-" ++ id)
    × (length (deployment_name id) ≤ 63)
    × (is_state_file (state_file_name id) ≡ true)
generate_migration_id-names_example =
    generate_migration_id-names sha256 (λ s. refl) (λ s. ground arith) minimal

-- Outside a cluster and without a kubeconfig no orchestrator is made, but for a dry run.
unable : Result ℕ
unable = err (codes "no configuration")

not_made :
    new_orchestrator sha256 minimal false unable unable (λ c. ok c) heap absent
    ≡ err (codes "creating worker manager: unable to get kubernetes config: no configuration")
unfolding new_orchestrator new_manager unable
not_made = refl
