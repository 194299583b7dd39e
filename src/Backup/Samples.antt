-- ===== src/Backup/Samples.antt =====
-- A component that is rolled back on two nodes, over a platform on which everything works.
use cluster_api_provider_bar.Prelude.{
  ℕ, ◌+◌, ◌≡◌, refl, ap, String, codes, text_beq, true, false, none, some, [], ◌∷◌, ◌==◌, string_eq,
  ok,
}
use cluster_api_provider_bar.Prelude.Integers.{pos}
use cluster_api_provider_bar.NodeUpgrade.{LabelledNode}
use cluster_api_provider_bar.Addon.Upgrader.{rounds_of}
use cluster_api_provider_bar.Backup.{
  Platform, created, UpgradeConfig, Component, Release, with_connection, run_script,
}
use cluster_api_provider_bar.Backup.Hooks.{
  get_component_upgrade_config, component_hooks, get_component_pre_hooks, get_component_post_hooks,
  execute_hooks_on_nodes,
}
use cluster_api_provider_bar.Backup.Health.{
  check_node, check_nodes, health_rounds, run_health_check,
}
use cluster_api_provider_bar.Backup.Executor.{
  execute_rollback_script, rollback_nodes, rollback_with, rollback_component,
}
use cluster_api_provider_bar.Backup.Checked.{CheckedAll}
use cluster_api_provider_bar.Backup.Rollbacks.{RolledBackAll, rollback_component-RolledBackAll}

abbrev node : String → LabelledNode
node name = record { node = record { name = name; conditions = [] }; labels = [] }

-- The world counts the scripts.
abbrev calm : Platform String ℕ
calm = record {
  cluster_nodes = λ w. (ok (node "a" ∷ node "b" ∷ []), w);
  connect = λ host w. (ok host, w);
  close = λ conn w. w;
  execute_script = λ conn script timeout w. (ok (0, []), w + 1);
  read_file = λ path w. (ok "true", w);
  backup_name = λ w. [];
  create_config_map = λ name n item content w. (created, w);
  get_config_map = λ name w. (ok tt, w);
  update_config_map = λ name n item content w. (ok tt, w);
  create_secret = λ name n content w. (created, w);
  sleep = λ seconds w. w;
}

abbrev config : UpgradeConfig
config = record {
  backup_enabled = true;
  backup_config = [];
  etcd_snapshot = false;
  rollback_script = "undo";
  rollback_timeout = none;
  health_command = "true";
  health_timeout = none;
  health_retries = pos 0;
}

abbrev containerd : Component
containerd = record {
  name = codes "containerd";
  upgrade = some config;
  pre_hooks = [];
  post_hooks = [];
}

abbrev release : Release
release = record {
  kubernetes = record {
    name = codes "kubernetes";
    upgrade = none;
    pre_hooks = [];
    post_hooks = [];
  };
  containerd = containerd;
  addons = [];
}

-- Two rollbacks, then one round of two checks.
four-scripts : rollback_component calm release (codes "containerd") 0 ≡ (ok tt, 4)
unfolding text_beq with_connection run_script get_component_upgrade_config component_hooks
    get_component_pre_hooks get_component_post_hooks execute_hooks_on_nodes check_node check_nodes
    health_rounds run_health_check rounds_of execute_rollback_script rollback_nodes rollback_with
    rollback_component
four-scripts = refl

rollback_component-RolledBackAll_example :
    (c : UpgradeConfig) × (get_component_upgrade_config release (codes "containerd") ≡ some c)
    × ((c.rollback_script == "") ≡ false)
    × (v : ℕ) × RolledBackAll calm c v
    × CheckedAll calm c v
rollback_component-RolledBackAll_example =
    rollback_component-RolledBackAll calm release (codes "containerd") 0
      (ap (λ r. r.0) four-scripts)
