-- ===== src/Worker/Manager.antt =====
-- `NewManager` and `Cleanup` of internal/worker/manager.go. The configurations of the cluster and the
-- clientset are the Kubernetes libraries'.
use victoriametrics_data_mig.Prelude.{
  List, [], ◌++◌, Option, none, some, Text, codes, Result, err, ok, wrapped, then_ok,
}
use victoriametrics_data_mig.Worker.Pool.{WorkerConn}

-- `Manager`, less its configuration and its logger.
pub record Manager (Clientset : Type 0) : Type 0 where
  pub clientset : Clientset
  pub namespace : Text
  pub migration_id : Text
  pub workers : List WorkerConn

-- The configuration in the cluster, or else the one of kubeconfig.
abbrev first_config :
    {RestConfig : Type 0} → Result RestConfig → Result RestConfig → Result RestConfig
first_config (ok found) kubeconfig = ok found
first_config (err e) kubeconfig = wrapped (codes "unable to get kubernetes config: ") kubeconfig

unfoldable pub new_manager :
    {RestConfig Clientset : Type 0}
    → Result RestConfig
    → Result RestConfig
    → (RestConfig → Result Clientset)
    → Text
    → Text
    → Result (Manager Clientset)
new_manager in_cluster kubeconfig new_for_config namespace migration_id =
    then_ok (first_config in_cluster kubeconfig) (λ rest_config.
      then_ok (wrapped (codes "creating kubernetes clientset: ") (new_for_config rest_config))
        (λ clientset. ok (record {
          clientset = clientset;
          namespace = namespace;
          migration_id = migration_id;
          workers = [];
        })))

-- The connections are closed, an error of which is only logged, and the Deployment is deleted:
-- `deleted` is the error of that.
unfoldable pub cleanup : Option Text → Option Text
cleanup none = none
cleanup (some e) = some (codes "deleting worker deployment: " ++ e)
