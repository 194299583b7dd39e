-- ===== src/Addon.antt =====
-- Addons: modules/cvo/internal/addon (upgrader.go, helm_installer.go, manifest_installer.go,
-- values.go) and clusteraddon_controller.go of modules/cvo/internal/controllers. The API server, the
-- file system, HTTP, YAML, templates and the clock are the fields of a platform over a world. Names
-- are texts, since names of jobs are put together from them.
pub mod Values
pub mod Content
pub mod Jobs
pub mod Installer
pub mod Strategies
pub mod Upgrader
pub mod Controller
pub mod Outcome
pub mod Completed
pub mod Unserved
pub mod Merging
mod Samples
use cluster_api_provider_bar.Prelude.{
  ℕ, String, Text, Bool, Option, List, ◌==◌, string_eq, ◌||◌, not,
}
use cluster_api_provider_bar.Prelude.Integers.{ℤ}
use cluster_api_provider_bar.Effects.{Action}
use cluster_api_provider_bar.Api.{AddonHook}
use cluster_api_provider_bar.Conditions.{ConditionStatus}
use cluster_api_provider_bar.ClusterVersion.Resource.{AddonPhase}
use cluster_api_provider_bar.Addon.Values.{Json, Fields, AddonVariable}

pub data AddonError : Type 0 where
  api_failed already_exists timed_out template_failed marshal_failed : AddonError
  fetch_failed no_content_source nil_definition nil_map : AddonError
  invalid_values job_failed addon_not_found unsupported_type no_error : AddonError
  hook_failed : (name : String) → AddonError
  health_check_failed hooks_failed backup_failed traffic_failed upgrade_failed unhealthy :
      AddonError → AddonError
  rollback_failed : AddonError → AddonError → AddonError

-- What the shell of a job runs.
pub data Command : Type 0 where
  helm_install : (name namespace : Text) (create_namespace wait : Bool) (timeout : Text) → Command
  helm_upgrade : (name namespace timeout : Text) → Command
  kubectl_apply kubectl_delete no_command : Command
  delete_addon : (name : Text) → Command
  shell : String → Command

pub record Job : Type 0 where
  pub name : Text
  pub namespace : Text
  pub image : String
  pub command : Command
  pub backoff_limit : ℕ
  pub active_deadline : Option ℤ

pub record JobCondition : Type 0 where
  pub type : String
  pub status : ConditionStatus

pub record ConfigMap : Type 0 where
  pub name : Text
  pub namespace : Text
  pub content : Text
  pub data_text : Text

pub record AddonInstallStrategy : Type 0 where
  pub timeout : Option ℕ
  pub retry_count : ℤ
  pub create_namespace : Bool
  pub wait : Bool

pub record AddonUpgradeStrategy : Type 0 where
  pub type : String
  pub timeout : Option ℕ
  pub retry_count : ℤ

pub record ComponentUpgradeConfig : Type 0 where
  pub backup_enabled : Bool
  pub rollback_script : String
  pub rollback_timeout : Option ℕ
  pub health_command : String
  pub health_timeout : Option ℕ
  pub health_retries : ℤ

pub record AddonDefinition : Type 0 where
  pub name : Text
  pub type : String
  pub version : Text
  pub content_path : Text
  pub variables : List AddonVariable
  pub default_values : List (Text × String)
  pub install_strategy : Option AddonInstallStrategy
  pub upgrade_strategy : Option AddonUpgradeStrategy
  pub pre_hooks : List AddonHook
  pub post_hooks : List AddonHook
  pub upgrade : Option ComponentUpgradeConfig

pub record Release : Type 0 where
  pub name : Text
  pub addons : List AddonDefinition

pub record ClusterAddon : Type 0 where
  pub name : Text
  pub namespace : Text
  pub addon_name : Text
  pub target_namespace : Text
  pub values : List (Text × String)
  pub version : Text
  pub phase : AddonPhase
  pub last_applied_revision : Text

-- A service of an addon: the version in its selector, if there is one.
pub record Service : Type 0 where
  pub name : Text
  pub version : Option Text

pub record Platform (W : Type 0) : Type 0 where
  pub create_job : Job → Action AddonError W (Unit {0})
  -- The conditions of a job that can be read.
  pub job_conditions : (namespace name : Text) → W → Option (List JobCondition) × W
  pub create_config_map : ConfigMap → Action AddonError W (Unit {0})
  -- Whether the map that was read has data, and the write of its `addon.yaml`.
  pub get_config_map : (namespace name : Text) → Action AddonError W Bool
  pub update_config_map : (namespace name content : Text) → Action AddonError W (Unit {0})
  pub update_status : ClusterAddon → Action AddonError W (Unit {0})
  pub get_phase : (namespace name : Text) → W → Option AddonPhase × W
  pub services : (namespace addon_name : Text) → Action AddonError W (List Service)
  pub patch_service : Service → Action AddonError W (Unit {0})
  pub read_file : (dir path : Text) → W → Option Text × W
  pub http_get : (server path : Text) → Action AddonError W Text
  -- `time.Sleep`, in seconds.
  pub sleep : ℕ → W → W
  pub now : W → ℕ
  -- Whether an error's type has a method `IsAlreadyExists`.
  pub has_already_exists : AddonError → Bool
  pub unmarshal : String → Option Json
  pub marshal_yaml : Fields → Option Text
  pub process : Text → Fields → Option Text
  -- `%d`, `Duration.String` of a number of seconds, and `fmt.Sscanf` with `%ds`.
  pub decimal : ℕ → Text
  pub duration_text : ℕ → Text
  pub scan_seconds : Text → Option ℤ
  -- `strings.Replace` with the count one.
  pub replace_once : (text old new : Text) → Text
  -- `wait.PollUntilContextTimeout` that tries at once.
  pub poll : (interval timeout : ℕ) → Action AddonError W Bool → Action AddonError W (Unit {0})
