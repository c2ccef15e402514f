-- ===== src/Worker/Deploy/Tests.antt =====
-- Runs of the deployment of internal/worker/manager.go.
use victoriametrics_data_mig.Prelude.{
  thousandths, ◌≡◌, refl, List, [], ◌∷◌, none, Text, codes, pos, show_int, ◌++◌, arith,
}
use victoriametrics_data_mig.Config.Tests.{minimal}
use victoriametrics_data_mig.Worker.Deploy.{
  Poll, check_failed, ready_replicas, cancelled, wait_for_workers, build_deployment,
  deployment_name, grpc_port, label_selector,
}
use victoriametrics_data_mig.Worker.Deploy.Agreement.{selector_text, build_deployment-agrees}

abbrev polls : List Poll
polls =
    check_failed (codes "timeout")
    ∷ ready_replicas (pos 1)
    ∷ ready_replicas (pos 3)
    ∷ cancelled (codes "stop")
    ∷ []

ready : wait_for_workers (pos 2) polls ≡ none
unfolding wait_for_workers
ready = refl

abbrev id : Text
id = codes "0123456789ab"

build_deployment-agrees_example :
    let d = build_deployment Text (λ q. q) thousandths id minimal in
    (d.match_labels ≡ d.template_labels)
    × (label_selector id ≡ selector_text d.template_labels)
    × (d.container.container_port ≡ grpc_port minimal)
    × (d.container.args
        ≡ codes "worker"
          ∷ (codes "--port=" ++ show_int (grpc_port minimal))
          ∷ (codes "--vmctl-path=" ++ minimal.workers.pod.vmctl_path)
          ∷ [])
    × (d.replicas ≡ minimal.workers.count)
build_deployment-agrees_example =
    build_deployment-agrees Text (λ q. q) thousandths id minimal 0 0 refl (omega arith) refl
      (omega arith)

name_of : deployment_name id ≡ codes "vm-migrator-workers-0123456789ab"
unfolding deployment_name
name_of = refl
