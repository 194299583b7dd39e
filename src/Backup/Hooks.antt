-- ===== src/Backup/Hooks.antt =====
-- The hooks and the configurations of components: `executeHooksOnNodes`, `getComponentUpgradeConfig` and
-- their kin.
use cluster_api_provider_bar.Prelude.Maps.{insert}
use cluster_api_provider_bar.Prelude.{
  ℕ, Text, Bool, true, false, ◌&&◌, Option, none, some, List, [], ◌∷◌, ◌==◌, text_eq, if◌then◌else◌,
  codes, find?, ok, err,
}
use cluster_api_provider_bar.Effects.{Action, pure, ◌>>◌}
use cluster_api_provider_bar.Api.{AddonHook, stops_on_failure}
use cluster_api_provider_bar.NodeUpgrade.{LabelledNode}
use cluster_api_provider_bar.Backup.{
  Platform, BackupError, hook_failed, shell, UpgradeConfig, Component, Release, run_script,
}

-- Five minutes by default.
abbrev pub hook_timeout : AddonHook → ℕ
hook_timeout hook = elim hook.timeout [ none ↦ 300 | some t ↦ t ]

abbrev has_upgrade : Component → Bool
has_upgrade c = elim c.upgrade [ none ↦ false | some _ ↦ true ]

abbrev upgrade_of : Option Component → Option UpgradeConfig
upgrade_of none = none
upgrade_of (some c) = c.upgrade

-- Kubernetes and containerd first, if they have a configuration; then the addons.
unfoldable pub get_component_upgrade_config : Release → Text → Option UpgradeConfig
get_component_upgrade_config release name =
    if name == codes "kubernetes" && has_upgrade release.kubernetes
    then release.kubernetes.upgrade
    else if name == codes "containerd" && has_upgrade release.containerd
    then release.containerd.upgrade
    else upgrade_of (find? (λ c. c.name == name && has_upgrade c) release.addons)

abbrev pub put_config :
    Text → Option UpgradeConfig → List (Text × UpgradeConfig) → List (Text × UpgradeConfig)
put_config name none configs = configs
put_config name (some config) configs = insert name config configs

unfoldable pub add_configs :
    List (Text × UpgradeConfig) → List Component → List (Text × UpgradeConfig)
add_configs configs [] = configs
add_configs configs (addon ∷ addons) =
    add_configs (put_config addon.name addon.upgrade configs) addons

unfoldable pub get_component_upgrade_configs_with_names : Release → List (Text × UpgradeConfig)
get_component_upgrade_configs_with_names release =
    add_configs
      (put_config (codes "containerd") release.containerd.upgrade
        (put_config (codes "kubernetes") release.kubernetes.upgrade []))
      release.addons

-- The hooks of a component that is looked up by its name.
unfoldable pub component_hooks : (Component → List AddonHook) → Release → Text → List AddonHook
component_hooks hooks release name =
    if name == codes "kubernetes"
    then hooks release.kubernetes
    else if name == codes "containerd"
    then hooks release.containerd
    else elim (find? (λ c. c.name == name) release.addons) [ none ↦ [] | some c ↦ hooks c ]

unfoldable pub get_component_pre_hooks : Release → Text → List AddonHook
get_component_pre_hooks = component_hooks (λ c. c.pre_hooks)

unfoldable pub get_component_post_hooks : Release → Text → List AddonHook
get_component_post_hooks = component_hooks (λ c. c.post_hooks)

module _ {Conn W : Type 0} (p : Platform Conn W) where
  unfoldable pub execute_hook_on_node : AddonHook → LabelledNode → Action BackupError W Text
  execute_hook_on_node hook n =
      run_script p n.node.name (shell hook.command) (some (hook_timeout hook))

  -- The inner loop: one hook on every node.
  unfoldable pub hook_on_nodes : AddonHook → List LabelledNode → Action BackupError W (Unit {0})
  hook_on_nodes hook [] w = (ok tt, w)
  hook_on_nodes hook (node ∷ nodes) w =
      let (r, w') = execute_hook_on_node hook node w in
      let rest = hook_on_nodes hook nodes w' in
      elim r [
        | ok _ ↦ rest
        | err e ↦ if stops_on_failure hook then (err (hook_failed hook.name), w') else rest
      ]

  unfoldable pub execute_hooks_on_nodes :
      List LabelledNode → List AddonHook → Action BackupError W (Unit {0})
  execute_hooks_on_nodes nodes [] = pure tt
  execute_hooks_on_nodes nodes (hook ∷ hooks) =
      hook_on_nodes hook nodes >> execute_hooks_on_nodes nodes hooks
