-- ===== src/NodeUpgrade.antt =====
-- Upgrades of nodes over SSH: modules/cvo/internal/upgrader/control_plane_upgrader.go and
-- worker_node_upgrader.go beside it. The API server, the SSH manager of modules/cvo/pkg/ssh and the
-- polling of k8s.io/apimachinery are the fields of a platform over a world. The text of a script
-- stands as the values that are formatted into it.
pub mod Drain
pub mod Containerd
pub mod Workloads
pub mod ControlPlane
pub mod Worker
pub mod Moves
pub mod Drained
pub mod Failures
pub mod Outcome
pub mod Scripts
pub mod Nodes
pub mod Checks
pub mod Workers
mod Samples
use cluster_api_provider_bar.Prelude.{
  ℕ, zero, suc, String, Text, Bool, Option, List, Result, ok, err,
}
use cluster_api_provider_bar.Effects.{Action, pure, fail, ◌>>=◌}
use cluster_api_provider_bar.Conditions.{Node}

pub data Script : Type 0 where
  etcd_backup etcd_health etcd_restore : Script
  hook_command : String → Script
  containerd_upgrade : (service : String) (version : Text) (method archive : String) → Script
  -- The script of a worker node does not name a version.
  worker_containerd_upgrade : (service method archive : String) → Script
  kubelet_upgrade : (version : Text) → Script

pub data NodeError : Type 0 where
  api_failed no_clientset timed_out ssh_failed execution_failed : NodeError
  connect_failed : (host : String) → NodeError
  script_failed : (exit_code : ℕ) → NodeError
  evict_failed : (namespace pod : String) → NodeError
  node_not_ready : (node : String) → NodeError
  pod_not_running : (namespace pod : String) → NodeError
  too_few_control_plane_nodes : ℕ → NodeError
  no_control_plane_nodes : NodeError
  no_desired_update : NodeError
  hook_failed : (hook : String) → NodeError
  backup_failed : (node : String) → NodeError → NodeError
  upgrade_failed : (node : String) → NodeError → NodeError
  rollback_failed : (node : String) → NodeError → NodeError → NodeError
  checks_failed kcp_failed : NodeError → NodeError
  batch_failed : ℕ → NodeError → NodeError

pub record Pod : Type 0 where
  pub namespace : String
  pub name : String
  pub owner_kinds : List String
  pub phase : String

-- A DaemonSet or a Deployment: the images of its containers.
pub record Workload : Type 0 where
  pub namespace : String
  pub name : String
  pub images : List Text

pub data Eviction : Type 0 where
  evicted too_many_requests refused : Eviction

pub record LabelledNode : Type 0 where
  pub node : Node
  pub labels : List (String × String)

pub record Platform (Conn W : Type 0) : Type 0 where
  -- Whether the upgrader has a clientset.
  pub clientset : Bool
  -- To port 22 with empty credentials.
  pub connect : (host : String) → Action NodeError W Conn
  pub close : Conn → W → W
  -- The exit code.
  pub execute_script : Conn → Script → (timeout : Option ℕ) → Action NodeError W ℕ
  pub list_nodes : Action NodeError W (List LabelledNode)
  pub select_nodes : (label value : String) → Action NodeError W (List Node)
  pub get_node : (name : String) → Action NodeError W Node
  pub pods_on : (node : String) → Action NodeError W (List Pod)
  pub select_pods : (namespace label value : String) → Action NodeError W (List Pod)
  pub evict : (namespace pod : String) → W → Eviction × W
  pub uncordon : (node : String) → Action NodeError W (Unit {0})
  pub daemon_sets : (namespace : String) → Action NodeError W (List Workload)
  pub deployments : (namespace : String) → Action NodeError W (List Workload)
  pub patch_daemon_set : Workload → Action NodeError W (Unit {0})
  pub patch_deployment : Workload → Action NodeError W (Unit {0})
  pub list_namespaces : Action NodeError W (Unit {0})
  -- `wait.PollUntilContextTimeout` that tries at once.
  pub poll : (interval timeout : ℕ) → Action NodeError W Bool → Action NodeError W (Unit {0})

module _ {Conn W : Type 0} (p : Platform Conn W) where
  open p use {connect, close, execute_script}

  -- `Connect`, then a body at whose end the connection is closed, however it ends.
  unfoldable pub with_connection :
      {A : Type 0} → String → (Conn → Action NodeError W A) → Action NodeError W A
  with_connection host body w =
      let (c, w') = connect host w in
      elim c [
        | err e ↦ (err (connect_failed host), w')
        | ok conn ↦ let (r, w'') = body conn w' in (r, close conn w'')
      ]

  abbrev pub check_exit : ℕ → Action NodeError W (Unit {0})
  check_exit zero = pure tt
  check_exit (suc code) = fail (script_failed (suc code))

  -- Connect, run the script, and fail unless it exits with zero.
  unfoldable pub run_script :
      (host : String) → Script → (timeout : Option ℕ) → Action NodeError W (Unit {0})
  run_script host script timeout =
      with_connection host (λ conn. execute_script conn script timeout >>= check_exit)
