-- ===== src/Addon/Strategies.antt =====
-- The strategies of the upgrader of addons: `performUpgrade` of upgrader.go and what it calls.
use cluster_api_provider_bar.Prelude.{
  ℕ, String, Text, Bool, true, false, none, some, ◌++◌, ◌==◌, string_eq, if◌then◌else◌, codes, ok,
}
use cluster_api_provider_bar.Prelude.Integers.{pos}
use cluster_api_provider_bar.Effects.{Action, pure, fail, wrap, attempt, ◌>>=◌, ◌>>◌, for_each}
use cluster_api_provider_bar.ClusterVersion.Resource.{AddonPhase, installed}
use cluster_api_provider_bar.Addon.{
  Platform, AddonError, Job, Command, ClusterAddon, AddonDefinition, AddonUpgradeStrategy, Release,
  Service, template_failed, marshal_failed, traffic_failed, nil_map, unsupported_type, helm_upgrade,
  kubectl_apply, kubectl_delete, no_command, delete_addon,
}
use cluster_api_provider_bar.Addon.Content.{new_content_fetcher, fetch_from_release_image}
use cluster_api_provider_bar.Addon.Jobs.{
  retry_limit, create_and_wait, create_or_keep, parse_timeout_seconds, timeout_text, namespace_of,
}
use cluster_api_provider_bar.Addon.Installer.{or_fail, values_of, helm_config_map}

abbrev pub default_strategy : AddonUpgradeStrategy
default_strategy = record { type = "Rolling"; timeout = some 300; retry_count = pos 3 }

abbrev pub strategy_of : AddonDefinition → AddonUpgradeStrategy
strategy_of def = elim def.upgrade_strategy [ none ↦ default_strategy | some s ↦ s ]

abbrev pub is_installed : AddonPhase → Bool
is_installed installed = true
is_installed _ = false

-- The copy of an addon that a blue-green upgrade installs.
unfoldable pub green : ClusterAddon → ClusterAddon
green addon = record addon {
  name = addon.name ++ codes "-green";
  addon_name = addon.addon_name ++ codes "-green";
}

module _ {W : Type 0} (p : Platform W) where
  open p use {
    create_job, create_config_map, get_config_map, update_config_map, update_status, get_phase,
    services, patch_service, sleep, now, decimal, marshal_yaml, process, replace_once, poll,
  }

  abbrev pub kubectl_job : (prefix : String) → ClusterAddon → Command → (backoff_limit : ℕ) → Job
  kubectl_job prefix addon command backoff_limit = record {
    name = codes prefix ++ addon.name;
    namespace = addon.namespace;
    image = "DefaultKubectlImage";
    command = command;
    backoff_limit = backoff_limit;
    active_deadline = none;
  }

  abbrev pub upgrade_command : ClusterAddon → AddonDefinition → AddonUpgradeStrategy → Command
  upgrade_command addon def strategy =
      if def.type == "helm"
      then helm_upgrade addon.addon_name (namespace_of p addon) (timeout_text p strategy.timeout)
      else if def.type == "manifest"
      then kubectl_apply
      else no_command

  unfoldable pub build_upgrade_job : ClusterAddon → AddonDefinition → AddonUpgradeStrategy → Job
  build_upgrade_job addon def strategy =
      record (kubectl_job "upgrade-" addon (upgrade_command addon def strategy)
        (retry_limit strategy.retry_count)) {
          active_deadline = some (parse_timeout_seconds p (timeout_text p strategy.timeout));
        }

  abbrev pub run_upgrade_job :
      ClusterAddon → AddonDefinition → AddonUpgradeStrategy → Action AddonError W (Unit {0})
  run_upgrade_job addon def strategy =
      create_and_wait p (build_upgrade_job addon def strategy) strategy.timeout

  unfoldable pub rolling_upgrade_helm :
      (server : Text)
      → ClusterAddon
      → AddonDefinition
      → Release
      → AddonUpgradeStrategy
      → Action AddonError W (Unit {0})
  rolling_upgrade_helm server addon def release strategy = do
    values ← or_fail p marshal_failed (marshal_yaml (values_of p addon def))
    chart ← fetch_from_release_image p (new_content_fetcher server) release addon.addon_name
    create_or_keep p (helm_config_map p addon chart values)
    run_upgrade_job addon def strategy

  -- The write of an entry into a config map without data.
  abbrev pub check_data : Bool → Action AddonError W (Unit {0})
  check_data true = pure tt
  check_data false = fail nil_map

  unfoldable pub rolling_upgrade_manifest :
      (server : Text)
      → ClusterAddon
      → AddonDefinition
      → Release
      → AddonUpgradeStrategy
      → Action AddonError W (Unit {0})
  rolling_upgrade_manifest server addon def release strategy = do
    content ← fetch_from_release_image p (new_content_fetcher server) release addon.addon_name
    manifest ← or_fail p template_failed (process content (values_of p addon def))
    has_data ← get_config_map addon.namespace (addon.name ++ codes "-manifest")
    check_data has_data
    update_config_map addon.namespace (addon.name ++ codes "-manifest") manifest
    run_upgrade_job addon def strategy

  unfoldable pub rolling_upgrade :
      (server : Text)
      → ClusterAddon
      → AddonDefinition
      → Release
      → AddonUpgradeStrategy
      → Action AddonError W (Unit {0})
  rolling_upgrade server addon def release strategy =
      if def.type == "helm"
      then rolling_upgrade_helm server addon def release strategy
      else if def.type == "manifest"
      then rolling_upgrade_manifest server addon def release strategy
      else fail unsupported_type

  unfoldable pub recreate_upgrade :
      (server : Text)
      → ClusterAddon
      → AddonDefinition
      → Release
      → AddonUpgradeStrategy
      → Action AddonError W (Unit {0})
  recreate_upgrade server addon def release strategy = do
    create_and_wait p (kubectl_job "delete-" addon kubectl_delete 1) strategy.timeout
    rolling_upgrade server addon def release strategy

  unfoldable pub verify_addon : ClusterAddon → Action AddonError W (Unit {0})
  verify_addon addon = poll 5 300 (λ w.
      let (r, w') = get_phase addon.namespace addon.name w in
      elim r [ none ↦ (ok false, w') | some phase ↦ (ok (is_installed phase), w') ])

  abbrev pub switched : (old new : ClusterAddon) → Service → Service
  switched old new svc = elim svc.version [
    | none ↦ svc
    | some v ↦ record svc { version = some (replace_once v old.addon_name new.addon_name) }
  ]

  -- A service that cannot be patched is only logged.
  unfoldable pub switch_traffic : (old new : ClusterAddon) → Action AddonError W (Unit {0})
  switch_traffic old new = do
    found ← services old.namespace old.addon_name
    for_each (λ svc. attempt (patch_service (switched old new svc))) found

  unfoldable pub blue_green_upgrade :
      (server : Text)
      → ClusterAddon
      → AddonDefinition
      → Release
      → AddonUpgradeStrategy
      → Action AddonError W (Unit {0})
  blue_green_upgrade server addon def release strategy = do
    rolling_upgrade server (green addon) def release strategy
    verify_addon (green addon)
    wrap traffic_failed (switch_traffic addon (green addon))
    λ w. (ok tt, sleep 30 w)
    create_job (record (kubectl_job "delete-" addon (delete_addon addon.name) 1) {
      image = "bitnami/kubectl:1.31.0";
    })

  unfoldable pub perform_upgrade :
      (server : Text) → ClusterAddon → AddonDefinition → Release → Action AddonError W (Unit {0})
  perform_upgrade server addon def release =
      let strategy : AddonUpgradeStrategy = strategy_of def in
      if strategy.type == "Rolling"
      then rolling_upgrade server addon def release strategy
      else if strategy.type == "Recreate"
      then recreate_upgrade server addon def release strategy
      else if strategy.type == "BlueGreen"
      then blue_green_upgrade server addon def release strategy
      else rolling_upgrade server addon def release strategy
