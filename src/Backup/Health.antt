-- ===== src/Backup/Health.antt =====
-- The health check after a rollback: `runHealthCheck`.
use cluster_api_provider_bar.Prelude.{
  ℕ, zero, suc, Text, Option, none, some, List, [], ◌∷◌, ◌==◌, string_eq, if◌then◌else◌, Result, ok,
  err,
}
use cluster_api_provider_bar.Effects.{Action, pure, ◌>>=◌}
use cluster_api_provider_bar.NodeUpgrade.{LabelledNode}
use cluster_api_provider_bar.Addon.Jobs.{seconds_or_default}
use cluster_api_provider_bar.Addon.Upgrader.{rounds_of}
use cluster_api_provider_bar.Backup.{
  Platform, BackupError, connect_failed, nil_result, script_failed, health_check_failed, no_error,
  shell, UpgradeConfig,
}

module _ {Conn W : Type 0} (p : Platform Conn W) (config : UpgradeConfig) where
  open p use {cluster_nodes, connect, close, execute_script, sleep}

  -- The exit code of the command on one node, or what went wrong before it ended.
  abbrev pub judge : Result BackupError (ℕ × Text) → Result BackupError (Option BackupError)
  judge (ok (zero, _)) = ok none
  judge (ok (suc code, _)) = ok (some (script_failed (suc code)))
  judge (err e) = err nil_result

  -- The failure of the check on a node, if there is one. When the command cannot be run, the code reads
  -- the output of a result that is nil, and panics.
  unfoldable pub check_node : LabelledNode → Action BackupError W (Option BackupError)
  check_node n w =
      let (c, w') = connect n.node.name w in
      elim c [
        | err e ↦ (ok (some connect_failed), w')
        | ok conn ↦
            let (r, w'') =
              execute_script conn (shell config.health_command)
                (some (seconds_or_default config.health_timeout)) w' in
            (judge r, close conn w'')
      ]

  -- A round stops at the first node that fails.
  unfoldable pub check_nodes : List LabelledNode → Action BackupError W (Option BackupError)
  check_nodes [] w = (ok none, w)
  check_nodes (node ∷ nodes) w =
      let (r, w') = check_node node w in
      let rest = check_nodes nodes w' in
      elim r [ err e ↦ (err e, w') | ok (some e) ↦ (ok (some e), w') | ok none ↦ rest ]

  -- The rounds that are left, and the last error.
  unfoldable pub health_rounds :
      ℕ → BackupError → List LabelledNode → Action BackupError W (Unit {0})
  health_rounds zero last nodes w = (err (health_check_failed last), w)
  health_rounds (suc n) last nodes w =
      let (r, w') = check_nodes nodes w in
      let again : BackupError → Result BackupError (Unit {0}) × W =
        λ e. health_rounds n e nodes (sleep 10 w') in
      elim r [ err e ↦ (err e, w') | ok none ↦ (ok tt, w') | ok (some e) ↦ again e ]

  unfoldable pub run_health_check : Action BackupError W (Unit {0})
  run_health_check =
      if config.health_command == ""
      then pure tt
      else do nodes ← cluster_nodes; health_rounds (rounds_of config.health_retries) no_error nodes
