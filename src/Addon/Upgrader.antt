-- ===== src/Addon/Upgrader.antt =====
-- The upgrader of addons: `Upgrade` of upgrader.go, with the backup, the rollback and the health check.
use cluster_api_provider_bar.Prelude.{
  ℕ, zero, suc, Text, Bool, false, not, Option, none, some, ◌++◌, ◌==◌, string_eq, if◌then◌else◌,
  codes, Result, ok, err,
}
use cluster_api_provider_bar.Prelude.Integers.{ℤ, pos, negsuc}
use cluster_api_provider_bar.Effects.{Action, pure, fail, wrap, when, ◌>>◌}
use cluster_api_provider_bar.ClusterVersion.Resource.{installed}
use cluster_api_provider_bar.Addon.{
  Platform, AddonError, Job, ClusterAddon, AddonDefinition, ComponentUpgradeConfig, Release,
  hooks_failed, backup_failed, upgrade_failed, rollback_failed, unhealthy, health_check_failed,
  no_error, nil_definition, addon_not_found, shell,
}
use cluster_api_provider_bar.Addon.Content.{find_addon_definition}
use cluster_api_provider_bar.Addon.Jobs.{create_and_wait, execute_hooks, seconds_or_default}
use cluster_api_provider_bar.Addon.Strategies.{kubectl_job, perform_upgrade}

-- Zero retries stand for three; a negative number is no round.
unfoldable pub rounds_of : ℤ → ℕ
rounds_of (pos zero) = 3
rounds_of (pos (suc n)) = suc n
rounds_of (negsuc n) = 0

abbrev pub asks_backup : AddonDefinition → Bool
asks_backup def = elim def.upgrade [ none ↦ false | some u ↦ u.backup_enabled ]

-- The addon with the status of an upgrade that succeeded.
unfoldable pub upgraded_addon : AddonDefinition → ClusterAddon → ClusterAddon
upgraded_addon def addon = record addon {
  version = def.version;
  phase = installed;
  last_applied_revision = def.version;
}

module _ {W : Type 0} (p : Platform W) where
  open p use {create_config_map, update_status, now, decimal}

  -- The version that is saved is that of the definition in the current release; without one the code
  -- dereferences nil.
  unfoldable pub backup_addon :
      ClusterAddon → (current : Option AddonDefinition) → Action AddonError W (Unit {0})
  backup_addon addon none w = (err nil_definition, w)
  backup_addon addon (some def) w =
      create_config_map
        (record {
          name = codes "backup-" ++ addon.name ++ codes "-" ++ decimal (now w);
          namespace = addon.namespace;
          content = addon.addon_name;
          data_text = def.version;
        })
        w

  unfoldable pub rollback_addon :
      ClusterAddon → ComponentUpgradeConfig → Action AddonError W (Unit {0})
  rollback_addon addon config =
      create_and_wait p (kubectl_job p "rollback-" addon (shell config.rollback_script) 1)
        (some (seconds_or_default config.rollback_timeout))

  abbrev pub health_job : ClusterAddon → ComponentUpgradeConfig → W → Job
  health_job addon config w = record {
    name = codes "healthcheck-" ++ addon.name ++ codes "-" ++ decimal (now w);
    namespace = addon.namespace;
    image = "DefaultKubectlImage";
    command = shell config.health_command;
    backoff_limit = 0;
    active_deadline = none;
  }

  -- One round of the health check.
  unfoldable pub check_once : ClusterAddon → ComponentUpgradeConfig → Action AddonError W (Unit {0})
  check_once addon config w =
      create_and_wait p (health_job addon config w)
        (some (seconds_or_default config.health_timeout)) w

  -- The rounds that are left, and the last error.
  unfoldable pub health_rounds :
      ℕ → AddonError → ClusterAddon → ComponentUpgradeConfig → Action AddonError W (Unit {0})
  health_rounds zero last addon config w = (err (health_check_failed last), w)
  health_rounds (suc n) last addon config w =
      let (r, w') = check_once addon config w in
      let again : AddonError → Result AddonError (Unit {0}) × W =
        λ e. health_rounds n e addon config w' in
      elim r [ ok _ ↦ (ok tt, w') | err e ↦ again e ]

  unfoldable pub run_health_check :
      ClusterAddon → ComponentUpgradeConfig → Action AddonError W (Unit {0})
  run_health_check addon config =
      health_rounds (rounds_of config.health_retries) no_error addon config

  -- After a failed upgrade: the rollback, if the definition has a script for it.
  unfoldable pub give_up :
      ClusterAddon → AddonDefinition → AddonError → Action AddonError W (Unit {0})
  give_up addon def e w = elim def.upgrade [
    | none ↦ (err (upgrade_failed e), w)
    | some config ↦
        if config.rollback_script == ""
        then (err (upgrade_failed e), w)
        else let (r, w') = rollback_addon addon config w in
          elim r [ ok _ ↦ (err (upgrade_failed e), w') | err e' ↦ (err (rollback_failed e e'), w') ]
  ]

  abbrev pub perform_or_give_up :
      (server : Text) → ClusterAddon → AddonDefinition → Release → Action AddonError W (Unit {0})
  perform_or_give_up server addon def target w =
      let (r, w') = perform_upgrade p server addon def target w in
      elim r [ ok _ ↦ (ok tt, w') | err e ↦ give_up addon def e w' ]

  abbrev pub health_checked : ClusterAddon → AddonDefinition → Action AddonError W (Unit {0})
  health_checked addon def = elim def.upgrade [
    | none ↦ pure tt
    | some config ↦
        when (not (config.health_command == "")) (wrap unhealthy (run_health_check addon config))
  ]

  abbrev pub upgrade_to :
      (server : Text)
      → ClusterAddon
      → (current : Option AddonDefinition) → AddonDefinition
      → Release
      → Action AddonError W (Unit {0})
  upgrade_to server addon current def target = do
    wrap hooks_failed (execute_hooks p "DefaultKubectlImage" addon def.pre_hooks)
    when (asks_backup def) (wrap backup_failed (backup_addon addon current))
    perform_or_give_up server addon def target
    wrap hooks_failed (execute_hooks p "DefaultKubectlImage" addon def.post_hooks)
    health_checked addon def
    update_status (upgraded_addon def addon)

  unfoldable pub upgrade :
      (server : Text)
      → ClusterAddon
      → (current : Option Release) → (target : Release) → Action AddonError W (Unit {0})
  upgrade server addon current target =
      elim (find_addon_definition (some target) addon.addon_name) [
        | none ↦ fail addon_not_found
        | some def ↦
            upgrade_to server addon (find_addon_definition current addon.addon_name) def target
      ]
