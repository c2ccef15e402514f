-- ===== src/Worker/Deploy.antt =====
-- The Deployment that internal/worker/manager.go creates for the workers, and the wait for it. The
-- parser of resource quantities, which panics on a bad one, is a parameter.
pub mod Agreement
pub mod Wait
mod Tests
use victoriametrics_data_mig.Prelude.{
  ℕ, suc, zero, ◌+◌, ◌-◌, ◌%◌, ◌^◌, Bool, true, false, not, ◌&&◌, List, [], ◌∷◌, ◌++◌, map, Option,
  none, some, Text, codes, is_empty, Map, if◌then◌else◌, ltb, leb, length, ℤ, pos, negsuc, show_int,
  Float, join, arith,
}
use victoriametrics_data_mig.Config.{Config, Toleration, ResourceSpec, int_below}

-- The conversion of an `int` to an `int32`.
unfoldable pub to_int32 : ℤ → ℤ
to_int32 (pos n) = let m = n % 2 ^ 32 in if ltb m (2 ^ 31) then pos m else negsuc (2 ^ 32 - 1 - m)
to_int32 (negsuc n) =
    let m = 2 ^ 32 - 1 - n % 2 ^ 32 in if ltb m (2 ^ 31) then pos m else negsuc (2 ^ 32 - 1 - m)

abbrev pub take_text : ℕ → Text → Text
take_text zero s = []
take_text (suc n) [] = []
take_text (suc n) (c ∷ s) = c ∷ take_text n s

-- Identifiers of migrations are hexadecimal, so that a character is a byte.
unfoldable pub deployment_name : Text → Text
deployment_name migration_id = take_text 63 (codes "vm-migrator-workers-" ++ migration_id)

unfoldable pub grpc_port : {F : Float} → Config F → ℤ
grpc_port cfg = if int_below cfg.workers.grpc_port 1 then pos 9091 else cfg.workers.grpc_port

-- The labels of the workers' pods, and the text that `connectToWorkers` lists them by.
abbrev pub pod_labels : Text → Map Text
pod_labels migration_id =
    (codes "app", codes "vm-migrator")
    ∷ (codes "component", codes "worker")
    ∷ (codes "migration-id", migration_id)
    ∷ []

unfoldable pub label_selector : Text → Text
label_selector migration_id = codes "app=vm-migrator,component=worker,migration-id=" ++ migration_id

-- Resource requests or limits, by the name of the resource.
pub record ResourceRequirements (Quantity : Type 0) : Type 0 where
  pub requests : Map Quantity
  pub limits : Map Quantity

pub record Container (Quantity : Type 0) : Type 0 where
  pub name : Text
  pub image : Text
  pub command : List Text
  pub args : List Text
  pub resources : ResourceRequirements Quantity
  pub container_port : ℤ
  pub image_pull_policy : Text

pub record Deployment (Quantity : Type 0) : Type 0 where
  pub name : Text
  pub namespace : Text
  pub labels : Map Text
  pub replicas : ℤ
  pub match_labels : Map Text
  pub template_labels : Map Text
  pub service_account_name : Text
  pub container : Container Quantity
  pub node_selector : Map Text
  pub tolerations : List Toleration
  pub image_pull_secrets : List Text

module _ (Quantity : Type 0) (must_parse : Text → Quantity) (F : Float) where
  abbrev quantity : Text → Text → Map Quantity
  quantity name text = if is_empty text then [] else (name, must_parse text) ∷ []

  abbrev resource_list : ResourceSpec → Map Quantity
  resource_list spec = quantity (codes "cpu") spec.cpu ++ quantity (codes "memory") spec.memory

  -- The optional parts of a Deployment that are left out stand as empty here.
  unfoldable pub build_deployment : Text → Config F → Deployment Quantity
  build_deployment migration_id cfg =
      let pod = cfg.workers.pod in
      let port = to_int32 (grpc_port cfg) in
      record {
        name = deployment_name migration_id;
        namespace = cfg.workers.namespace;
        labels = pod_labels migration_id;
        replicas = to_int32 cfg.workers.count;
        match_labels = pod_labels migration_id;
        template_labels = pod_labels migration_id;
        service_account_name = pod.service_account;
        container = record {
          name = codes "worker";
          image = pod.image;
          command = codes "vm-migrator" ∷ [];
          args =
              codes "worker"
              ∷ (codes "--port=" ++ show_int port)
              ∷ (codes "--vmctl-path=" ++ pod.vmctl_path)
              ∷ [];
          resources = record {
            requests = resource_list pod.resources.requests;
            limits = resource_list pod.resources.limits;
          };
          container_port = port;
          image_pull_policy = pod.image_pull_policy;
        };
        node_selector = pod.node_selector;
        tolerations = pod.tolerations;
        image_pull_secrets =
            if is_empty pod.image_pull_secret then [] else pod.image_pull_secret ∷ [];
      }

-- What one round of the loop of `waitForWorkers` meets, while the deadline has not passed.
pub data Poll : Type 0 where
  cancelled : Text → Poll
  check_failed : Text → Poll
  ready_replicas : ℤ → Poll

abbrev pub int_leb : ℤ → ℤ → Bool
int_leb (pos m) (pos n) = leb m n
int_leb (pos m) (negsuc n) = false
int_leb (negsuc m) (pos n) = true
int_leb (negsuc m) (negsuc n) = leb n m

abbrev pub wait_timed_out : ℤ → Text
wait_timed_out desired =
    codes "timed out waiting for "
    ++ (show_int desired ++ codes " workers to be ready (timeout: 5m0s)")

-- The error, if there is one, from what the rounds meet before the deadline. A round sleeps for two
-- seconds, and the deadline is five minutes off: there are 150 rounds at most.
unfoldable pub wait_for_workers : ℤ → List Poll → Option Text
wait_for_workers desired [] = some (wait_timed_out desired)
wait_for_workers desired (cancelled e ∷ polls) = some e
wait_for_workers desired (check_failed e ∷ polls) = wait_for_workers desired polls
wait_for_workers desired (ready_replicas n ∷ polls) =
    if int_leb desired n then none else wait_for_workers desired polls
