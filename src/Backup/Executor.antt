-- ===== src/Backup/Executor.antt =====
-- `BackupComponents` and `RollbackComponent`.
use cluster_api_provider_bar.Prelude.{
  Text, none, some, List, [], ◌∷◌, ◌==◌, string_eq, if◌then◌else◌, any, ok, err,
}
use cluster_api_provider_bar.Effects.{Action, fail, wrap, when, ◌>>=◌, ◌>>◌, for_each}
use cluster_api_provider_bar.NodeUpgrade.{LabelledNode}
use cluster_api_provider_bar.Addon.Jobs.{seconds_or_default}
use cluster_api_provider_bar.Backup.{
  Platform, BackupError, api_failed, no_upgrade_config, no_script, no_control_plane_nodes,
  pre_hooks_failed, post_hooks_failed, backup_failed, unhealthy, rollback_failed,
  rollback_and_hooks_failed, created, already_exists, other_failure, BackupItem, UpgradeConfig,
  Release, backup_item, etcd_snapshot, shell, check_exit, with_connection, run_script,
}
use cluster_api_provider_bar.Backup.Hooks.{
  get_component_upgrade_config, get_component_upgrade_configs_with_names, get_component_pre_hooks,
  get_component_post_hooks, execute_hooks_on_nodes,
}
use cluster_api_provider_bar.Backup.Health.{run_health_check}

-- The nodes with the label of the control plane.
unfoldable pub control_plane_nodes : List LabelledNode → List LabelledNode
control_plane_nodes [] = []
control_plane_nodes (n ∷ nodes) =
    let rest = control_plane_nodes nodes in
    if any (λ l. l.0 == "node-role.kubernetes.io/control-plane") n.labels then n ∷ rest else rest

module _ {Conn W : Type 0} (p : Platform Conn W) where
  open p use {
    cluster_nodes, execute_script, read_file, backup_name, create_config_map, get_config_map,
    update_config_map, create_secret,
  }

  -- The first node makes the config map, the others add their entries to it.
  unfoldable pub store_item :
      Text → LabelledNode → BackupItem → Text → Action BackupError W (Unit {0})
  store_item name n item content w =
      let (r, w') = create_config_map name n.node.name item content w in
      elim r [
        | created ↦ (ok tt, w')
        | already_exists ↦
            (get_config_map name >> update_config_map name n.node.name item content) w'
        | other_failure ↦ (err api_failed, w')
      ]

  unfoldable pub backup_on_node : Text → BackupItem → LabelledNode → Action BackupError W (Unit {0})
  backup_on_node name item n = do
    content ← run_script p n.node.name (backup_item item.path item.type) none
    store_item name n item content

  unfoldable pub backup_config_item : Text → BackupItem → Action BackupError W (Unit {0})
  backup_config_item name item = do nodes ← cluster_nodes; for_each (backup_on_node name item) nodes

  -- A secret that exists already is left as it is.
  unfoldable pub store_snapshot : Text → LabelledNode → Text → Action BackupError W (Unit {0})
  store_snapshot name n content w =
      let (r, w') = create_secret name n.node.name content w in
      elim r [
        | created ↦ (ok tt, w')
        | already_exists ↦ (ok tt, w')
        | other_failure ↦ (err api_failed, w')
      ]

  abbrev pub snapshot_on : Text → List LabelledNode → Action BackupError W (Unit {0})
  snapshot_on name [] = fail no_control_plane_nodes
  snapshot_on name (n ∷ _) =
      with_connection p n.node.name (λ conn.
        (execute_script conn etcd_snapshot none >>= check_exit p) >>= store_snapshot name n)

  unfoldable pub create_etcd_snapshot : Text → Action BackupError W (Unit {0})
  create_etcd_snapshot name = do nodes ← cluster_nodes; snapshot_on name (control_plane_nodes nodes)

  unfoldable pub backup_component : UpgradeConfig → Action BackupError W (Unit {0})
  backup_component config w =
      (for_each (backup_config_item (backup_name w)) config.backup_config
          >> when config.etcd_snapshot (create_etcd_snapshot (backup_name w)))
        w

  -- One component that is to be backed up, between its hooks.
  unfoldable pub backup_named :
      Release → List LabelledNode → Text × UpgradeConfig → Action BackupError W (Unit {0})
  backup_named release nodes (name, config) = when config.backup_enabled (
      wrap pre_hooks_failed (execute_hooks_on_nodes p nodes (get_component_pre_hooks release name))
      >> (wrap backup_failed (backup_component config)
          >> wrap post_hooks_failed
              (execute_hooks_on_nodes p nodes (get_component_post_hooks release name))))

  unfoldable pub backup_components :
      (visit : List (Text × UpgradeConfig) → List (Text × UpgradeConfig))
      → Release
      → Action BackupError W (Unit {0})
  backup_components visit release = do
    nodes ← cluster_nodes
    for_each (backup_named release nodes) (visit (get_component_upgrade_configs_with_names release))

  -- The connection is made before the file of the script is read.
  unfoldable pub execute_rollback_script : UpgradeConfig → LabelledNode → Action BackupError W Text
  execute_rollback_script config n = with_connection p n.node.name (λ conn.
      read_file config.rollback_script >>= λ content.
      execute_script conn (shell content) (some (seconds_or_default config.rollback_timeout))
      >>= check_exit p)

  -- After a failed rollback the hooks run all the same.
  unfoldable pub clean_up :
      Release → Text → List LabelledNode → BackupError → Action BackupError W (Unit {0})
  clean_up release name nodes e w =
      let (r, w') = execute_hooks_on_nodes p nodes (get_component_post_hooks release name) w in
      elim r [
        | ok _ ↦ (err (rollback_failed e), w')
        | err e' ↦ (err (rollback_and_hooks_failed e e'), w')
      ]

  -- The loop over the nodes that are left, among all nodes.
  unfoldable pub rollback_nodes :
      Release
      → Text
      → UpgradeConfig
      → (nodes left : List LabelledNode) → Action BackupError W (Unit {0})
  rollback_nodes release name config nodes [] w = (ok tt, w)
  rollback_nodes release name config nodes (n ∷ left) w =
      let (r, w') = execute_rollback_script config n w in
      let rest = rollback_nodes release name config nodes left w' in
      elim r [ ok _ ↦ rest | err e ↦ clean_up release name nodes e w' ]

  unfoldable pub rollback_with : Release → Text → UpgradeConfig → Action BackupError W (Unit {0})
  rollback_with release name config = do
    nodes ← cluster_nodes
    wrap pre_hooks_failed (execute_hooks_on_nodes p nodes (get_component_pre_hooks release name))
    rollback_nodes release name config nodes nodes
    wrap post_hooks_failed (execute_hooks_on_nodes p nodes (get_component_post_hooks release name))
    wrap unhealthy (run_health_check p config)

  unfoldable pub rollback_component : Release → Text → Action BackupError W (Unit {0})
  rollback_component release name = elim (get_component_upgrade_config release name) [
    | none ↦ fail no_upgrade_config
    | some config ↦
        if config.rollback_script == "" then fail no_script else rollback_with release name config
  ]
