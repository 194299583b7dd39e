-- ===== src/Addon/Samples.antt =====
-- An addon that is upgraded over a platform on which everything works.
use cluster_api_provider_bar.Prelude.{
  ℕ, ◌+◌, codes, ◌≡◌, ◌≢◌, refl, Bool, true, false, none, some, [], ◌∷◌, string_eq, text_eq,
  text_beq, if◌then◌else◌, arith, ok, err, Result,
}
use cluster_api_provider_bar.Prelude.Integers.{pos}
use cluster_api_provider_bar.Effects.{Action}
use cluster_api_provider_bar.Conditions.{is_true}
use cluster_api_provider_bar.ClusterVersion.Resource.{installed, pending}
use cluster_api_provider_bar.Addon.{
  Platform, AddonError, timed_out, AddonDefinition, ComponentUpgradeConfig, Release, ClusterAddon,
}
use cluster_api_provider_bar.Addon.Values.{
  null, number, object, Fields, no_fields, field, get_field, put_field, deep_merge, merge_fields,
}
use cluster_api_provider_bar.Addon.Content.{
  find_definition, find_addon_definition, new_content_fetcher, fetch_from_release_image,
}
use cluster_api_provider_bar.Addon.Jobs.{
  job_state, job_done, wait_for_job, create_and_wait, create_or_keep, execute_hooks,
}
use cluster_api_provider_bar.Addon.Installer.{install_helm, install_manifest}
use cluster_api_provider_bar.Addon.Strategies.{
  rolling_upgrade_helm, rolling_upgrade, perform_upgrade,
}
use cluster_api_provider_bar.Addon.Upgrader.{
  rounds_of, backup_addon, check_once, health_rounds, run_health_check, upgrade,
}
use cluster_api_provider_bar.Addon.Completed.{PollHolds}
use cluster_api_provider_bar.Addon.Outcome.{UpgradedTo, upgrade-UpgradedTo}
use cluster_api_provider_bar.Addon.Controller.{Store, missing, present}
use cluster_api_provider_bar.Addon.Unserved.{StaysBehind, upgrade-install-Fails}
use cluster_api_provider_bar.Addon.Merging.{AreDistinctFields, leaf_at, chosen, deep_merge-chosen}

-- One round.
abbrev poll_once :
    {W : Type 0}
    → (interval timeout : ℕ) → Action AddonError W Bool
    → Action AddonError W (Unit {0})
poll_once interval timeout condition w =
    let (r, w') = condition w in
    (elim r [ ok met ↦ if met then ok tt else err timed_out | err e ↦ err e ], w')

-- The world counts the jobs.
abbrev calm : Platform ℕ
calm = record {
  create_job = λ job w. (ok tt, w + 1);
  job_conditions =
      λ namespace name w. (some (record { type = "Complete"; status = is_true } ∷ []), w);
  create_config_map = λ map w. (ok tt, w);
  get_config_map = λ namespace name w. (ok true, w);
  update_config_map = λ namespace name content w. (ok tt, w);
  update_status = λ addon w. (ok tt, w);
  get_phase = λ namespace name w. (some installed, w);
  services = λ namespace name w. (ok [], w);
  patch_service = λ svc w. (ok tt, w);
  read_file = λ dir path w. (none, w);
  http_get = λ server path w. (ok (codes "chart"), w);
  sleep = λ n w. w;
  now = λ w. w;
  has_already_exists = λ e. false;
  unmarshal = λ raw. some null;
  marshal_yaml = λ values. some [];
  process = λ content values. some content;
  decimal = λ n. [];
  duration_text = λ n. [];
  scan_seconds = λ t. none;
  replace_once = λ t old new. t;
  poll = poll_once;
}

calm-PollHolds : PollHolds calm
calm-PollHolds interval timeout condition w h = (w, met (condition w).0 refl)
  where
    met : (r : Result AddonError Bool) → (condition w).0 ≡ r → (condition w).0 ≡ ok true
    met (ok true) e = e
    met (ok false) e = ground (arith, e, h)
    met (err x) e = ground (arith, e, h)

abbrev careful : ComponentUpgradeConfig
careful = record {
  backup_enabled = true;
  rollback_script = "";
  rollback_timeout = none;
  health_command = "true";
  health_timeout = none;
  health_retries = pos 0;
}

abbrev calico : AddonDefinition
calico = record {
  name = codes "calico";
  type = "helm";
  version = codes "v3";
  content_path = codes "calico.tgz";
  variables = [];
  default_values = [];
  install_strategy = none;
  upgrade_strategy = none;
  pre_hooks = [];
  post_hooks = [];
  upgrade = some careful;
}

abbrev release : Release
release = record { name = codes "v2"; addons = calico ∷ [] }

abbrev addon : ClusterAddon
addon = record {
  name = codes "calico";
  namespace = codes "capbm";
  addon_name = codes "calico";
  target_namespace = [];
  values = [];
  version = codes "v1";
  phase = pending;
  last_applied_revision = [];
}

upgrade-UpgradedTo_example :
    (def : AddonDefinition) × (find_addon_definition (some release) addon.addon_name ≡ some def)
    × UpgradedTo calm addon def
unfolding text_beq find_definition find_addon_definition fetch_from_release_image
    new_content_fetcher job_state job_done wait_for_job create_and_wait create_or_keep execute_hooks
    rolling_upgrade_helm rolling_upgrade perform_upgrade rounds_of backup_addon check_once
    health_rounds run_health_check upgrade
upgrade-UpgradedTo_example =
    upgrade-UpgradedTo calm calm-PollHolds (codes "http") addon (some release) release 0 refl

-- The store of a resource that does not change.
abbrev quiet : Store ℕ
quiet = record {
  get_resource = λ w. (missing, w);
  update_resource = λ resource w. (ok tt, w);
  get_release = λ name w. (present release, w);
  reread = λ a w. (ok tt, w);
  list_jobs = λ namespace name w. (ok [], w);
}

upgrade-install-Fails_example :
    ((upgrade calm [] addon none release 0).0 ≢ ok tt)
    × ((install_helm calm [] addon release calico 0).0 ≢ ok tt)
    × ((install_manifest calm [] addon release calico 0).0 ≢ ok tt)
    × StaysBehind calm quiet addon calico release 0
upgrade-install-Fails_example = upgrade-install-Fails calm quiet addon none release calico 0

abbrev sizes : Fields
sizes =
    field (codes "cpu") (object (field (codes "a") (number "1") no_fields))
      (field (codes "gpu") (number "0") no_fields)

abbrev limits : Fields
limits = field (codes "cpu") (object (field (codes "b") (number "2") no_fields)) no_fields

merged-sizes :
    merge_fields sizes limits
    ≡ field
        (codes "cpu")
        (object (field (codes "a") (number "1") (field (codes "b") (number "2") no_fields)))
        (field (codes "gpu") (number "0") no_fields)
unfolding text_beq get_field put_field deep_merge
merged-sizes = refl

deep_merge-chosen_example :
    leaf_at (codes "cpu" ∷ codes "b" ∷ []) (deep_merge (object sizes) (object limits))
    ≡ chosen (object sizes) (object limits) (codes "cpu" ∷ codes "b" ∷ [])
unfolding get_field AreDistinctFields
deep_merge-chosen_example =
    deep_merge-chosen (codes "cpu" ∷ codes "b" ∷ []) (object sizes) (object limits)
      (refl, (refl, tt, tt), tt)
