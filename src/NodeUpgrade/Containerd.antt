-- ===== src/NodeUpgrade/Containerd.antt =====
-- The upgrade of containerd on a control-plane node, with the hooks of the component:
-- `executeComponentPreHooks`, `executeComponentPostHooks` and `upgradeContainerd`.
use cluster_api_provider_bar.Prelude.{
  ℕ, String, Text, Bool, false, not, Option, none, some, List, [], ◌∷◌, ◌==◌, string_eq,
  if◌then◌else◌, ok, err,
}
use cluster_api_provider_bar.Effects.{Action, ◌>>◌}
use cluster_api_provider_bar.Api.{AddonHook, stops_on_failure}
use cluster_api_provider_bar.Conditions.{Node}
use cluster_api_provider_bar.NodeUpgrade.{
  Platform, NodeError, hook_failed, hook_command, containerd_upgrade, run_script,
}
use cluster_api_provider_bar.NodeUpgrade.Drain.{drain_node}

pub record BinaryInstallStrategy : Type 0 where
  pub timeout : Option ℕ
  pub method : String
  pub service_name : String

pub record BinaryUpgradeStrategy : Type 0 where
  pub type : String
  pub timeout : Option ℕ
  pub drain : Bool

pub record BinaryComponent : Type 0 where
  pub version : Text
  pub archive : String
  pub install_strategy : Option BinaryInstallStrategy
  pub upgrade_strategy : Option BinaryUpgradeStrategy
  pub pre_hooks : List AddonHook
  pub post_hooks : List AddonHook

abbrev pub default_upgrade_strategy : BinaryUpgradeStrategy
default_upgrade_strategy = record { type = "Rolling"; timeout = some 600; drain = false }

abbrev pub default_install_strategy : BinaryInstallStrategy
default_install_strategy = record {
  timeout = some 300;
  method = "package";
  service_name = "containerd";
}

abbrev pub or_default : {A : Type 0} → A → Option A → A
or_default d none = d
or_default d (some a) = a

abbrev pub service_of : BinaryInstallStrategy → String
service_of install = if not (install.service_name == "") then install.service_name else "containerd"

module _ {Conn W : Type 0} (p : Platform Conn W) where
  unfoldable pub execute_hook_on_node : Node → AddonHook → Action NodeError W (Unit {0})
  execute_hook_on_node node hook =
      run_script p node.name (hook_command hook.command) (some (or_default 300 hook.timeout))

  -- The loop of both kinds of hooks: a failed hook stops it unless it is to be ignored.
  unfoldable pub execute_component_hooks : Node → List AddonHook → Action NodeError W (Unit {0})
  execute_component_hooks node [] w = (ok tt, w)
  execute_component_hooks node (hook ∷ hooks) w =
      let (r, w') = execute_hook_on_node node hook w in
      let rest = execute_component_hooks node hooks w' in
      elim r [
        | ok _ ↦ rest
        | err e ↦ if stops_on_failure hook then (err (hook_failed hook.name), w') else rest
      ]

  unfoldable pub upgrade_containerd_rolling :
      Node
      → BinaryComponent
      → BinaryUpgradeStrategy
      → BinaryInstallStrategy
      → Action NodeError W (Unit {0})
  upgrade_containerd_rolling node c strategy install =
      run_script p node.name
        (containerd_upgrade (service_of install) c.version install.method c.archive)
        (some (or_default 600 strategy.timeout))

  unfoldable pub upgrade_containerd_drain_and_upgrade :
      (drain_timeout : ℕ)
      → Node
      → BinaryComponent
      → BinaryUpgradeStrategy
      → BinaryInstallStrategy
      → Action NodeError W (Unit {0})
  upgrade_containerd_drain_and_upgrade drain_timeout node c strategy install =
      drain_node p drain_timeout node >> upgrade_containerd_rolling node c strategy install

  unfoldable pub upgrade_containerd_parallel :
      Node
      → BinaryComponent
      → BinaryUpgradeStrategy
      → BinaryInstallStrategy
      → Action NodeError W (Unit {0})
  upgrade_containerd_parallel node c strategy install =
      upgrade_containerd_rolling node c strategy install

  unfoldable pub upgrade_containerd :
      (drain_timeout : ℕ) → Node → BinaryComponent → Action NodeError W (Unit {0})
  upgrade_containerd drain_timeout node c =
      let strategy : BinaryUpgradeStrategy =
        or_default default_upgrade_strategy c.upgrade_strategy in
      let install : BinaryInstallStrategy =
        or_default default_install_strategy c.install_strategy in
      if strategy.type == "Rolling"
      then upgrade_containerd_rolling node c strategy install
      else if strategy.type == "DrainAndUpgrade"
      then upgrade_containerd_drain_and_upgrade drain_timeout node c strategy install
      else if strategy.type == "Parallel"
      then upgrade_containerd_parallel node c strategy install
      else upgrade_containerd_rolling node c strategy install
