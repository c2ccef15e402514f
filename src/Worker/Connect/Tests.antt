-- ===== src/Worker/Connect/Tests.antt =====
-- A run of `DeployWorkers` of internal/worker/manager.go with three pods.
use victoriametrics_data_mig.Prelude.{
  ◌≡◌, ◌↔◌, refl, true, false, not, List, [], ◌∷◌, Option, none, Text, codes, Result, ok, text_eq,
  decimal, show_int, pos,
}
use victoriametrics_data_mig.Config.Tests.{minimal}
use victoriametrics_data_mig.Worker.Pool.{WorkerConn}
use victoriametrics_data_mig.Worker.Deploy.{
  Poll, check_failed, ready_replicas, to_int32, grpc_port, wait_for_workers,
}
use victoriametrics_data_mig.Worker.Deploy.Wait.{IsReadyIn}
use victoriametrics_data_mig.Worker.Connect.{
  Pod, Network, connect_pods, connect_to_workers, deploy_workers,
}
use victoriametrics_data_mig.Worker.Connect.Ready.{IsConnected, deploy_workers_iff}

-- Every address can be dialled, and one worker does not answer.
abbrev net : Network
net = record { dials = λ a. true; answers = λ a. not (text_eq a (codes "10.0.0.3:9091")) }

abbrev pod : Text → Text → Text → Pod
pod name phase ip = record { name = name; phase = phase; pod_ip = ip }

abbrev pods : Result (List Pod)
pods = ok (
    pod (codes "w0") (codes "Running") (codes "10.0.0.1")
    ∷ pod (codes "w1") (codes "Pending") []
    ∷ pod (codes "w2") (codes "Running") (codes "10.0.0.3")
    ∷ [])

abbrev polls : List Poll
polls = check_failed (codes "timeout") ∷ ready_replicas (pos 1) ∷ []

abbrev workers : List WorkerConn
workers = record { pod_name = codes "w0"; addr = codes "10.0.0.1:9091"; busy = false } ∷ []

abbrev created : Option Text
created = none

one_worker : deploy_workers minimal net created polls pods ≡ ok workers
unfolding deploy_workers connect_to_workers connect_pods wait_for_workers grpc_port show_int decimal
    to_int32
one_worker = refl

deploy_workers_iff_example : (deploy_workers minimal net created polls pods ≡ ok workers) ↔ (
    (created ≡ none)
    × IsReadyIn (to_int32 minimal.workers.count) polls
    × ((items : List Pod) × (pods ≡ ok items) × IsConnected net (grpc_port minimal) items workers))
deploy_workers_iff_example = deploy_workers_iff minimal net created polls pods workers
