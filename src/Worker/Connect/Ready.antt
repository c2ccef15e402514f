-- ===== src/Worker/Connect/Ready.antt =====
-- What `DeployWorkers` of internal/worker/manager.go leaves when it returns no error.
use victoriametrics_data_mig.Prelude.{
  some_not_none, ℕ, suc, ◌<◌, ◌≡◌, ◌↔◌, refl, Bool, false, not, ◌&&◌, List, [], ◌∷◌, map, Option,
  none, some, Text, codes, is_empty, text_eq, keep, Result, ok, wrapped, err_not_ok, ok_injective,
  then_wrapped_iff, wrapped_iff, length, arith, ap, sym, ◌∙◌, ℤ, Float,
}
use victoriametrics_data_mig.Config.{Config}
use victoriametrics_data_mig.Worker.Pool.{WorkerConn}
use victoriametrics_data_mig.Worker.Pool.Busy.{busy_from, busy_workers}
use victoriametrics_data_mig.Worker.Deploy.{to_int32, Poll, wait_for_workers, grpc_port}
use victoriametrics_data_mig.Worker.Deploy.Wait.{IsReadyIn, wait_for_workers_iff}
use victoriametrics_data_mig.Worker.Connect.{
  Pod, Network, addr_of, connect_pods, some_workers, connect_to_workers, deploy_workers, failing,
}

-- A running pod with an address that can be dialled and answers.
abbrev pub is_usable : Network → ℤ → Pod → Bool
is_usable net port pod =
    text_eq pod.phase (codes "Running")
    && not (is_empty pod.pod_ip)
    && net.dials (addr_of port pod)
    && net.answers (addr_of port pod)

abbrev pub conn_of : ℤ → Pod → WorkerConn
conn_of port pod = record { pod_name = pod.name; addr = addr_of port pod; busy = false }

connect_pods-map :
    (net : Network) (port : ℤ) (pods : List Pod)
    → connect_pods net port pods ≡ map (conn_of port) (keep (is_usable net port) pods)
unfolding connect_pods
connect_pods-map net port [] = refl
connect_pods-map net port (pod ∷ pods) = ground (arith, connect_pods-map net port pods)

none_busy : (i : ℕ) (port : ℤ) (pods : List Pod) → busy_from i (map (conn_of port) pods) ≡ []
none_busy i port [] = refl
none_busy i port (pod ∷ pods) = none_busy (suc i) port pods

-- The workers are those of the usable pods, in the order of the listing; there is one at least, and
-- none is busy.
abbrev pub IsConnected : Network → ℤ → List Pod → List WorkerConn → Type 0
IsConnected net port pods ws =
    (ws ≡ map (conn_of port) (keep (is_usable net port) pods))
    × (0 < length ws)
    × (busy_workers ws ≡ [])

failing_iff :
    (o : Option Text) (message : Text) (r : Result (List WorkerConn)) (ws : List WorkerConn)
    → (failing o message r ≡ ok ws) ↔ ((o ≡ none) × (r ≡ ok ws))
failing_iff none message r ws = ((λ h. (refl, h)), λ (_, h). h)
failing_iff (some e) message r ws =
    ((λ h. absurd (err_not_ok _ ws h)), λ (h, _). absurd (some_not_none e h))

some_workers_iff :
    (ws vs : List WorkerConn) → (some_workers ws ≡ ok vs) ↔ ((ws ≡ vs) × (0 < length ws))
some_workers_iff [] vs = ((λ h. absurd (err_not_ok _ vs h)), λ (_, h). absurd (omega arith))
some_workers_iff (w ∷ ws) vs =
    ((λ h. (ok_injective (w ∷ ws) vs h, omega arith)), λ (same, _). ap ok same)

connect_to_workers_iff :
    (net : Network) (port : ℤ) (pods : Result (List Pod)) (ws : List WorkerConn)
    → (connect_to_workers net port pods [] ≡ ok ws)
      ↔ ((items : List Pod) × (pods ≡ ok items) × IsConnected net port items ws)
unfolding connect_to_workers
connect_to_workers_iff net port pods ws =
    let parts =
      then_wrapped_iff (codes "listing worker pods: ") pods
        (λ items. some_workers (connect_pods net port items)) ws in
    (
      (λ h.
          let (items, listed, good) = parts.0 h in
          let (same, some_left) = (some_workers_iff (connect_pods net port items) ws).0 good in
          let e = sym same ∙ connect_pods-map net port items in
          (
            items,
            listed,
            (
              e,
              rw same at some_left,
              ap busy_workers e ∙ none_busy 0 port (keep (is_usable net port) items),
            ),
          )),
      λ (items, listed, (e, some_left, _)).
          let same = connect_pods-map net port items ∙ sym e in
          parts.1 (
            items,
            listed,
            (some_workers_iff (connect_pods net port items) ws).1 (same, rw same some_left),
          ),
    )

-- `DeployWorkers` returns no error exactly where the Deployment is created, some round of the wait
-- before the deadline sees as many ready replicas as are configured and no earlier one is cancelled,
-- the pods are listed, and one of them at least is running with an address that can be dialled and
-- answers a ping. The workers are then those pods, each with its address and the configured port, and
-- all idle.
pub deploy_workers_iff :
    {F : Float} (cfg : Config F) (net : Network) (created : Option Text) (polls : List Poll)
    (pods : Result (List Pod)) (ws : List WorkerConn)
    → (deploy_workers cfg net created polls pods ≡ ok ws) ↔ (
        (created ≡ none)
        × IsReadyIn (to_int32 cfg.workers.count) polls
        × ((items : List Pod) × (pods ≡ ok items) × IsConnected net (grpc_port cfg) items ws))
unfolding deploy_workers
deploy_workers_iff cfg net created polls pods ws =
    let desired = to_int32 cfg.workers.count in
    let connected = connect_to_workers net (grpc_port cfg) pods [] in
    let inner = wrapped (codes "connecting to workers: ") connected in
    let waited = failing (wait_for_workers desired polls) (codes "waiting for workers: ") inner in
    let create_iff = failing_iff created (codes "creating worker deployment: ") waited ws in
    let wait_iff =
      failing_iff (wait_for_workers desired polls) (codes "waiting for workers: ") inner ws in
    let wrap_iff = wrapped_iff (codes "connecting to workers: ") connected ws in
    let connect_iff = connect_to_workers_iff net (grpc_port cfg) pods ws in
    (
      (λ h.
          let (made, rest) = create_iff.0 h in
          let (ready, more) = wait_iff.0 rest in
          (made, (wait_for_workers_iff desired polls).0 ready, connect_iff.0 (wrap_iff.0 more))),
      λ (made, ready, more). create_iff.1 (
        made,
        wait_iff.1 ((wait_for_workers_iff desired polls).1 ready, wrap_iff.1 (connect_iff.1 more)),
      ),
    )
