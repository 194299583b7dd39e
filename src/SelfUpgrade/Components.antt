-- ===== src/SelfUpgrade/Components.antt =====
-- Upgrading, backing up and rolling back one component of the operator. The API server, the file
-- system and the clock are the fields of a platform over a world `W`; the entries of a config map
-- come in the order in which `range` visits them. Object names and file names are texts.
use Prim.Native.Nat.{◌%◌, ◌^◌}
use cluster_api_provider_bar.Prelude.{
  suc, ℕ, String, Text, Bool, not, ◌||◌, Option, none, some, List, [], ◌∷◌, ◌++◌, ltb, ◌==◌, nat_eq,
  text_eq, string_eq, if◌then◌else◌, codes, take, starts_with, ends_with, Result, ok, err,
}
use cluster_api_provider_bar.Effects.{Action, pure, fail, wrap, attempt, ◌>>=◌, ◌>>◌, for_each}
use cluster_api_provider_bar.Version.{safe_image_name}
use cluster_api_provider_bar.Api.{HealthCheck}
use cluster_api_provider_bar.Conditions.{Node}
use cluster_api_provider_bar.SelfUpgrade.Resource.{
  crd, rbac, webhook, deployment, unknown, Strategy, SelfUpgradeComponent, SelfUpgrade,
}

pub data UpgradeError : Type 0 where
  list_failed get_failed patch_failed read_failed decode_failed create_failed : UpgradeError
  not_ready not_established command_failed : UpgradeError
  node_not_ready : String → UpgradeError
  health_check_required no_previous_revision no_backup : UpgradeError
  unknown_component_type unknown_health_check : String → UpgradeError

-- The image of the first container, if there is one, and the fields that an upgrade sets; an int32
-- stands as its residue modulo 2 ^ 32.
pub record Deployment : Type 0 where
  pub image : Option Text
  pub strategy_type : String
  pub max_unavailable : Option ℕ
  pub max_surge : Option ℕ
  pub min_ready_seconds : ℕ
  pub observed_generation : ℕ

abbrev pub Backup : Type 0
Backup = List (Text × String)

pub data CreateOutcome : Type 0 where
  created already_exists other_failure : CreateOutcome

pub record Platform (W : Type 0) : Type 0 where
  pub nodes : Action UpgradeError W (List Node)
  pub run_command : (command : String) (timeout : ℕ) → Action UpgradeError W (Unit {0})
  -- The names of the operator's CRDs, each with its YAML unless it cannot be marshalled.
  pub crds : Action UpgradeError W (List (Text × Option String))
  pub annotate_crd : (name version : Text) → Action UpgradeError W (Unit {0})
  pub wait_crd_established : (name : Text) (timeout : ℕ) → Action UpgradeError W (Unit {0})
  pub is_missing : Text → W → Bool
  pub read_dir : Text → Action UpgradeError W (List Text)
  pub read_file : (dir name : Text) → Action UpgradeError W String
  pub decode : String → Result UpgradeError String
  pub patch : String → Action UpgradeError W (Unit {0})
  pub get_deployment : (namespace name : String) → Action UpgradeError W Deployment
  pub deployment_yaml : (namespace name : String) → Action UpgradeError W String
  pub patch_deployment : (namespace name : String) → Deployment → Action UpgradeError W (Unit {0})
  pub wait_deployment_ready :
      (namespace name : String) (timeout : ℕ) → Action UpgradeError W (Unit {0})
  pub wait_daemon_set_ready :
      (namespace name : String) (timeout : ℕ) → Action UpgradeError W (Unit {0})
  pub create_backup : SelfUpgrade → Backup → W → CreateOutcome × W
  pub backups : SelfUpgrade → Action UpgradeError W (List Backup)

-- `fmt.Sprintf("%s:%s", image, version)`
unfoldable pub tag_image : Text → Text → Text
tag_image image version = image ++ b':' ∷ version

-- `strings.LastIndex(image, ":")`
unfoldable pub last_colon : Text → Option ℕ
last_colon [] = none
last_colon (c ∷ t) = elim (last_colon t) [
  | some i ↦ some (suc i)
  | none ↦ if c == b':' then some 0 else none
]

-- The image of a rollback: what stands before the last colon, if that is not the first character.
unfoldable pub untag_image : Text → Text
unfolding last_colon
untag_image image = elim (last_colon image) [
  | none ↦ image
  | some i ↦ if ltb 0 i then take i image else image
]

unfoldable pub upgraded_deployment : Text → Strategy → Deployment → Deployment
upgraded_deployment version strategy d = record d {
  image = elim d.image [ none ↦ none | some image ↦ some (tag_image image version) ];
  strategy_type = "RollingUpdate";
  max_unavailable = some strategy.max_unavailable;
  max_surge = some strategy.max_surge;
  min_ready_seconds =
      if ltb 0 strategy.min_ready_seconds
      then strategy.min_ready_seconds % 2 ^ 32
      else d.min_ready_seconds;
}

unfoldable pub rolled_back_deployment : Deployment → Deployment
rolled_back_deployment d = record d {
  image = elim d.image [ none ↦ none | some image ↦ some (untag_image image) ];
}

abbrev pub prefixed : Text → Backup → Backup
prefixed prefix [] = []
prefixed prefix ((key, content) ∷ rest) =
    if starts_with key prefix then (key, content) ∷ prefixed prefix rest else prefixed prefix rest

abbrev pub is_yaml : Text → Bool
is_yaml name = ends_with name (codes ".yaml") || ends_with name (codes ".yml")

module _ {W : Type 0} (p : Platform W) where
  open p use {
    crds, annotate_crd, wait_crd_established, is_missing, read_dir, read_file, decode, patch,
    get_deployment, deployment_yaml, patch_deployment, wait_deployment_ready, wait_daemon_set_ready,
    create_backup, backups,
  }

  upgrade_crds : SelfUpgrade → Action UpgradeError W (Unit {0})
  upgrade_crds su = do
    found ← wrap (λ _. list_failed) crds
    for_each
        (λ crd. do
          wrap (λ _. patch_failed) (annotate_crd crd.0 su.spec.target_version)
          wrap (λ _. not_established) (wait_crd_established crd.0 60))
        found

  apply_file : Text → Text → Action UpgradeError W (Unit {0})
  apply_file dir name = if not (is_yaml name) then pure tt else do
    content ← wrap (λ _. read_failed) (read_file dir name)
    obj ← wrap (λ _. decode_failed) (λ w. (decode content, w))
    wrap (λ _. patch_failed) (patch obj)

  upgrade_rbac : SelfUpgrade → Action UpgradeError W (Unit {0})
  unfolding apply_file
  upgrade_rbac su w =
      let dir =
        codes "/tmp/capbm-upgrade/release-"
        ++ safe_image_name su.spec.release_image
        ++ codes "/rbac" in
      if is_missing dir w
      then (ok tt, w)
      else (do entries ← wrap (λ _. read_failed) (read_dir dir); for_each (apply_file dir) entries)
          w

  upgrade_webhooks : SelfUpgrade → Action UpgradeError W (Unit {0})
  unfolding apply_file
  upgrade_webhooks su w =
      let dir =
        codes "/tmp/capbm-upgrade/release-"
        ++ safe_image_name su.spec.release_image
        ++ codes "/webhooks" in
      if is_missing dir w
      then (ok tt, w)
      else (do entries ← wrap (λ _. read_failed) (read_dir dir); for_each (apply_file dir) entries)
          w

  upgrade_deployment_of : SelfUpgrade → Option HealthCheck → Action UpgradeError W (Unit {0})
  upgrade_deployment_of su none = fail health_check_required
  upgrade_deployment_of su (some hc) =
      if hc.namespace == "" || hc.name == "" then fail health_check_required else do
        d ← wrap (λ _. get_failed) (get_deployment hc.namespace hc.name)
        wrap (λ _. patch_failed)
            (patch_deployment hc.namespace hc.name
              (upgraded_deployment su.spec.target_version su.spec.strategy d))
        wrap (λ _. not_ready)
            (wait_deployment_ready hc.namespace hc.name
              (if hc.timeout == 0 then 300 else hc.timeout))

  unfoldable pub upgrade_component :
      SelfUpgrade → SelfUpgradeComponent → Action UpgradeError W (Unit {0})
  unfolding upgrade_crds upgrade_rbac upgrade_webhooks upgrade_deployment_of
  upgrade_component su comp = elim comp.type [
    | crd ↦ upgrade_crds su
    | rbac ↦ upgrade_rbac su
    | webhook ↦ upgrade_webhooks su
    | deployment ↦ upgrade_deployment_of su comp.health_check
    | unknown type ↦ fail (unknown_component_type type)
  ]

  -- The CRDs that can be marshalled, under the keys `crd-NAME.yaml`.
  unfoldable pub crd_entries : List (Text × Option String) → Backup
  crd_entries [] = []
  crd_entries ((name, none) ∷ rest) = crd_entries rest
  crd_entries ((name, some yaml) ∷ rest) =
      (codes "crd-" ++ name ++ codes ".yaml", yaml) ∷ crd_entries rest

  -- A deployment that cannot be read or marshalled is left out.
  unfoldable pub deployment_entry : (namespace name : String) → W → Backup × W
  deployment_entry namespace name w =
      let (r, w') = deployment_yaml namespace name w in
      elim r [
        | err _ ↦ ([], w')
        | ok yaml ↦ (
          (codes "deployment-" ++ codes namespace ++ codes "-" ++ codes name ++ codes ".yaml", yaml)
              ∷ [],
          w',
        )
      ]

  unfoldable pub backup_data : List (Text × Option String) → W → Backup × W
  backup_data found w =
      let (cvo, w₁) = deployment_entry "cvo-system" "cvo-controller-manager" w in
      let (capbm, w₂) = deployment_entry "capbm-system" "capbm-controller-manager" w₁ in
      (crd_entries found ++ cvo ++ capbm, w₂)

  unfoldable pub backup_current_config : SelfUpgrade → Action UpgradeError W (Unit {0})
  unfolding backup_data
  backup_current_config su = do
    found ← wrap (λ _. list_failed) crds
    λ w.
        let (entries, w') = backup_data found w in
        let (outcome, w'') = create_backup su entries w' in
        elim outcome [ other_failure ↦ (err create_failed, w'') | _ ↦ (ok tt, w'') ]

  -- Entries that cannot be decoded or applied are logged and passed over.
  unfoldable pub restore : Text → Backup → Action UpgradeError W (Unit {0})
  restore prefix data' =
      for_each (λ entry. attempt (do obj ← (λ w. (decode entry.1, w)); patch obj))
        (prefixed prefix data')

  restore_latest :
      Text → Result UpgradeError (Unit {0}) → List Backup → Action UpgradeError W (Unit {0})
  restore_latest prefix missing [] w = (missing, w)
  restore_latest prefix missing (latest ∷ older) w = restore prefix latest w

  rollback_deployment_of : Option HealthCheck → Action UpgradeError W (Unit {0})
  rollback_deployment_of none = fail health_check_required
  rollback_deployment_of (some hc) =
      if hc.namespace == "" || hc.name == "" then fail health_check_required else do
        d ← wrap (λ _. get_failed) (get_deployment hc.namespace hc.name)
        if ltb d.observed_generation 2
            then fail no_previous_revision
            else wrap (λ _. patch_failed)
                (patch_deployment hc.namespace hc.name (rolled_back_deployment d))

  restore_from :
      SelfUpgrade → Text → Result UpgradeError (Unit {0}) → Action UpgradeError W (Unit {0})
  unfolding restore_latest
  restore_from su prefix missing = do
    found ← wrap (λ _. list_failed) (backups su)
    restore_latest prefix missing found

  unfoldable pub rollback_component :
      SelfUpgrade → SelfUpgradeComponent → Action UpgradeError W (Unit {0})
  unfolding rollback_deployment_of restore_from
  rollback_component su comp = elim comp.type [
    | deployment ↦ rollback_deployment_of comp.health_check
    | crd ↦ restore_from su (codes "crd-") (err no_backup)
    | rbac ↦ restore_from su (codes "rbac-") (err no_backup)
    | webhook ↦ restore_from su (codes "webhook-") (err no_backup)
    | unknown type ↦ restore_from su (codes comp.name ++ codes "-") (ok tt)
  ]
