-- ===== src/Worker/Connect.antt =====
-- The connections that internal/worker/manager.go makes to the workers. Kubernetes and gRPC are
-- arguments: the pods that a listing returns, and which addresses can be dialled and pinged.
pub mod Ready
mod Tests
use victoriametrics_data_mig.Prelude.{
  Bool, true, false, not, ◌&&◌, List, [], ◌∷◌, ◌++◌, map, Option, none, some, Text, codes, is_empty,
  text_eq, if◌then◌else◌, keep, Result, err, ok, wrapped, then_ok, ℤ, show_int, Float,
}
use victoriametrics_data_mig.Config.{Config}
use victoriametrics_data_mig.Worker.Pool.{WorkerConn}
use victoriametrics_data_mig.Worker.Deploy.{to_int32, Poll, wait_for_workers, grpc_port}

pub record Pod : Type 0 where
  pub name : Text
  pub phase : Text
  pub pod_ip : Text

-- `fmt.Sprintf("%s:%d", ip, port)`.
abbrev pub addr_of : ℤ → Pod → Text
addr_of port pod = pod.pod_ip ++ (codes ":" ++ show_int port)

-- Whether an address can be dialled, and whether the worker there answers a ping.
pub record Network : Type 0 where
  pub dials : Text → Bool
  pub answers : Text → Bool

-- The loop over the pods; what it skips, it only logs.
unfoldable pub connect_pods : Network → ℤ → List Pod → List WorkerConn
connect_pods net port [] = []
connect_pods net port (pod ∷ pods) =
    let rest = connect_pods net port pods in
    if not (text_eq pod.phase (codes "Running"))
    then rest
    else if is_empty pod.pod_ip
    then rest
    else if not (net.dials (addr_of port pod))
    then rest
    else if not (net.answers (addr_of port pod))
    then rest
    else record { pod_name = pod.name; addr = addr_of port pod; busy = false } ∷ rest

abbrev pub some_workers : List WorkerConn → Result (List WorkerConn)
some_workers [] = err (codes "no workers available")
some_workers (w ∷ ws) = ok (w ∷ ws)

-- The workers after the call, from those before it.
unfoldable pub connect_to_workers :
    Network → ℤ → Result (List Pod) → List WorkerConn → Result (List WorkerConn)
connect_to_workers net port pods workers =
    then_ok (wrapped (codes "listing worker pods: ") pods)
      (λ items. some_workers (workers ++ connect_pods net port items))

abbrev failing : Option Text → Text → Result (List WorkerConn) → Result (List WorkerConn)
failing none message next = next
failing (some e) message next = err (message ++ e)

-- `created` is the error of creating the Deployment, and `polls` what the rounds of the wait meet.
unfoldable pub deploy_workers :
    {F : Float}
    → Config F
    → Network
    → Option Text
    → List Poll
    → Result (List Pod)
    → Result (List WorkerConn)
deploy_workers cfg net created polls pods = failing created (codes "creating worker deployment: ") (
    failing (wait_for_workers (to_int32 cfg.workers.count) polls) (codes "waiting for workers: ")
      (wrapped (codes "connecting to workers: ") (connect_to_workers net (grpc_port cfg) pods [])))
