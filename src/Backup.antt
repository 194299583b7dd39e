-- ===== src/Backup.antt =====
-- Backups and rollbacks of components on the nodes of a cluster:
-- modules/cvo/internal/upgrader/backup_rollback.go. The API server, the SSH manager, the file system and
-- the clock are the fields of a platform over a world; the order in which Go visits a map is an argument.
pub mod Hooks
pub mod Moves
pub mod Health
pub mod Executor
pub mod Checked
pub mod Rollbacks
mod Samples
use cluster_api_provider_bar.Prelude.{
  ℕ, zero, suc, String, Text, Bool, Option, List, Result, ok, err,
}
use cluster_api_provider_bar.Prelude.Integers.{ℤ}
use cluster_api_provider_bar.Effects.{Action, pure, fail, ◌>>=◌}
use cluster_api_provider_bar.Api.{AddonHook}
use cluster_api_provider_bar.NodeUpgrade.{LabelledNode}

pub data Script : Type 0 where
  backup_item : (path type : String) → Script
  etcd_snapshot : Script
  -- A command, or the content of a file.
  shell : String → Script

pub data BackupError : Type 0 where
  api_failed connect_failed execution_failed read_failed no_upgrade_config no_script : BackupError
  no_control_plane_nodes nil_result no_error : BackupError
  script_failed : (exit_code : ℕ) → BackupError
  hook_failed : (hook : String) → BackupError
  pre_hooks_failed post_hooks_failed backup_failed unhealthy : BackupError → BackupError
  rollback_failed health_check_failed : BackupError → BackupError
  rollback_and_hooks_failed : BackupError → BackupError → BackupError

pub data CreateOutcome : Type 0 where
  created already_exists other_failure : CreateOutcome

pub record BackupItem : Type 0 where
  pub path : String
  pub type : String

pub record UpgradeConfig : Type 0 where
  pub backup_enabled : Bool
  pub backup_config : List BackupItem
  pub etcd_snapshot : Bool
  pub rollback_script : String
  pub rollback_timeout : Option ℕ
  pub health_command : String
  pub health_timeout : Option ℕ
  pub health_retries : ℤ

-- The fields that the components of a release share.
pub record Component : Type 0 where
  pub name : Text
  pub upgrade : Option UpgradeConfig
  pub pre_hooks : List AddonHook
  pub post_hooks : List AddonHook

pub record Release : Type 0 where
  pub kubernetes : Component
  pub containerd : Component
  pub addons : List Component

pub record Platform (Conn W : Type 0) : Type 0 where
  -- The nodes with the label of the cluster.
  pub cluster_nodes : Action BackupError W (List LabelledNode)
  -- To port 22 with empty credentials.
  pub connect : (host : String) → Action BackupError W Conn
  pub close : Conn → W → W
  -- The exit code and the output.
  pub execute_script : Conn → Script → (timeout : Option ℕ) → Action BackupError W (ℕ × Text)
  pub read_file : (path : String) → Action BackupError W String
  -- The name of a backup, with the time in it.
  pub backup_name : W → Text
  pub create_config_map : (name : Text) (node : String) → BackupItem → Text → W → CreateOutcome × W
  pub get_config_map : (name : Text) → Action BackupError W (Unit {0})
  pub update_config_map :
      (name : Text) (node : String) → BackupItem → Text → Action BackupError W (Unit {0})
  pub create_secret : (name : Text) (node : String) → Text → W → CreateOutcome × W
  pub sleep : (seconds : ℕ) → W → W

module _ {Conn W : Type 0} (p : Platform Conn W) where
  open p use {connect, close, execute_script}

  abbrev pub check_exit : ℕ × Text → Action BackupError W Text
  check_exit (zero, out) = pure out
  check_exit (suc code, out) = fail (script_failed (suc code))

  -- Connect, do something over the connection, and close it.
  unfoldable pub with_connection :
      {A : Type 0} → String → (Conn → Action BackupError W A) → Action BackupError W A
  with_connection host body w =
      let (c, w') = connect host w in
      elim c [
        | err e ↦ (err connect_failed, w')
        | ok conn ↦ let (r, w'') = body conn w' in (r, close conn w'')
      ]

  -- The output of a script that exits with zero.
  unfoldable pub run_script :
      (host : String) → Script → (timeout : Option ℕ) → Action BackupError W Text
  run_script host script timeout =
      with_connection host (λ conn. execute_script conn script timeout >>= check_exit)
