-- ===== src/Addon/Installer.antt =====
-- The installers of Helm charts and of manifests: `Install` of helm_installer.go and of
-- manifest_installer.go.
use cluster_api_provider_bar.Prelude.{
  ℕ, Text, Bool, true, false, not, Option, none, some, [], ◌++◌, if◌then◌else◌, codes,
}
use cluster_api_provider_bar.Effects.{Action, pure, fail, wrap, when, ◌>>=◌, ◌>>◌}
use cluster_api_provider_bar.Addon.{
  Platform, AddonError, Job, ConfigMap, ClusterAddon, AddonDefinition, AddonInstallStrategy,
  Release, invalid_values, marshal_failed, template_failed, hooks_failed, helm_install,
  kubectl_apply,
}
use cluster_api_provider_bar.Addon.Values.{Fields, validate_variables, merge_values}
use cluster_api_provider_bar.Addon.Content.{new_content_fetcher, fetch_from_release_image}
use cluster_api_provider_bar.Addon.Jobs.{
  retry_limit, wait_for_job, create_or_keep, execute_hooks, parse_timeout_seconds, timeout_text,
  namespace_of,
}

-- The retries of a strategy, if there is one.
abbrev pub install_retries : Option AddonInstallStrategy → ℕ
install_retries none = 3
install_retries (some strategy) = retry_limit strategy.retry_count

abbrev pub install_timeout : Option AddonInstallStrategy → Option ℕ
install_timeout none = none
install_timeout (some strategy) = strategy.timeout

abbrev pub creates_namespace : Option AddonInstallStrategy → Bool
creates_namespace none = true
creates_namespace (some strategy) = strategy.create_namespace

abbrev pub helm_waits : Option AddonInstallStrategy → Bool
helm_waits none = true
helm_waits (some strategy) = strategy.wait

-- A job is only waited for if there is a strategy that says so.
abbrev pub waits_for_job : Option AddonInstallStrategy → Bool
waits_for_job none = false
waits_for_job (some strategy) = strategy.wait

module _ {W : Type 0} (p : Platform W) where
  open p use {unmarshal, marshal_yaml, process, create_job, duration_text}

  -- What is decoded or formatted, or an error.
  abbrev pub or_fail : {A : Type 0} → AddonError → Option A → Action AddonError W A
  or_fail e none = fail e
  or_fail e (some a) = pure a

  abbrev pub check_values : ClusterAddon → AddonDefinition → Action AddonError W (Unit {0})
  check_values addon def =
      if not (validate_variables unmarshal addon.values def.variables)
      then fail invalid_values
      else pure tt

  abbrev pub values_of : ClusterAddon → AddonDefinition → Fields
  values_of addon def = merge_values unmarshal def.default_values addon.values

  unfoldable pub helm_config_map : ClusterAddon → (chart values : Text) → ConfigMap
  helm_config_map addon chart values = record {
    name = addon.name ++ codes "-helm";
    namespace = addon.namespace;
    content = chart;
    data_text = values;
  }

  unfoldable pub manifest_config_map : ClusterAddon → (manifest : Text) → ConfigMap
  manifest_config_map addon manifest = record {
    name = addon.name ++ codes "-manifest";
    namespace = addon.namespace;
    content = [];
    data_text = manifest;
  }

  unfoldable pub build_helm_job : ClusterAddon → Option AddonInstallStrategy → Job
  build_helm_job addon strategy = record {
    name = codes "install-" ++ addon.name;
    namespace = addon.namespace;
    image = "DefaultHelmImage";
    command =
        helm_install addon.addon_name (namespace_of p addon) (creates_namespace strategy)
          (helm_waits strategy) (timeout_text p (install_timeout strategy));
    backoff_limit = install_retries strategy;
    active_deadline = none;
  }

  unfoldable pub build_apply_job : ClusterAddon → Option AddonInstallStrategy → Job
  build_apply_job addon strategy = record {
    name = codes "install-" ++ addon.name;
    namespace = addon.namespace;
    image = "addon.DefaultKubectlImage";
    command = kubectl_apply;
    backoff_limit = install_retries strategy;
    active_deadline = some (parse_timeout_seconds p (timeout_text p (install_timeout strategy)));
  }

  unfoldable pub wait_if_asked : Job → Option AddonInstallStrategy → Action AddonError W (Unit {0})
  wait_if_asked job strategy =
      when (waits_for_job strategy) (wait_for_job p job (install_timeout strategy))

  unfoldable pub install_helm :
      (server : Text) → ClusterAddon → Release → AddonDefinition → Action AddonError W (Unit {0})
  install_helm server addon release def = do
    check_values addon def
    wrap hooks_failed (execute_hooks p "DefaultKubectlImage" addon def.pre_hooks)
    values ← or_fail marshal_failed (marshal_yaml (values_of addon def))
    chart ← fetch_from_release_image p (new_content_fetcher server) release addon.addon_name
    create_or_keep p (helm_config_map addon chart values)
    create_job (build_helm_job addon def.install_strategy)
    wait_if_asked (build_helm_job addon def.install_strategy) def.install_strategy
    execute_hooks p "DefaultKubectlImage" addon def.post_hooks

  unfoldable pub install_manifest :
      (server : Text) → ClusterAddon → Release → AddonDefinition → Action AddonError W (Unit {0})
  install_manifest server addon release def = do
    check_values addon def
    wrap hooks_failed (execute_hooks p "addon.DefaultKubectlImage" addon def.pre_hooks)
    content ← fetch_from_release_image p (new_content_fetcher server) release addon.addon_name
    manifest ← or_fail template_failed (process content (values_of addon def))
    create_or_keep p (manifest_config_map addon manifest)
    create_job (build_apply_job addon def.install_strategy)
    wait_if_asked (build_apply_job addon def.install_strategy) def.install_strategy
    execute_hooks p "addon.DefaultKubectlImage" addon def.post_hooks
