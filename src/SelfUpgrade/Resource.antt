-- ===== src/SelfUpgrade/Resource.antt =====
-- The resource, with the fields that the controller uses. A duration is a number of seconds, and
-- `none` where the resource leaves it out; a time is the clock's reading.
use cluster_api_provider_bar.Prelude.{
  ℕ, String, Text, Bool, true, false, ◌&&◌, Option, none, some, List, [], ◌∷◌, ◌==◌, string_eq,
  if◌then◌else◌,
}
use cluster_api_provider_bar.Api.{HealthCheck}
use cluster_api_provider_bar.Conditions.{Condition}

pub data Phase : Type 0 where
  empty pending validating pre_upgrade upgrading verifying completed rolling_back failed : Phase
  other : String → Phase

pub data ComponentType : Type 0 where
  crd rbac webhook deployment : ComponentType
  unknown : String → ComponentType

pub record Strategy : Type 0 where
  pub max_unavailable : ℕ
  pub max_surge : ℕ
  pub min_ready_seconds : ℕ
  pub auto_rollback : Bool

pub record Hook : Type 0 where
  pub name : String
  pub command : String
  pub timeout : Option ℕ
  pub on_failure : String

pub record SelfUpgradeComponent : Type 0 where
  pub name : String
  pub type : ComponentType
  pub blocking : Bool
  pub depends_on : List String
  pub health_check : Option HealthCheck

pub record Spec : Type 0 where
  pub target_version : Text
  pub release_image : Text
  pub strategy : Strategy
  pub pre_upgrade_hooks : List Hook
  pub post_upgrade_hooks : List Hook
  pub components : List SelfUpgradeComponent
  pub paused : Bool

pub record ComponentUpgradeStatus : Type 0 where
  pub name : String
  pub phase : String
  pub started_time : ℕ
  pub completed_time : Option ℕ

pub record Status : Type 0 where
  pub phase : Phase
  pub started_time : Option ℕ
  pub completed_time : Option ℕ
  pub current_version : Text
  pub component_status : List ComponentUpgradeStatus
  pub conditions : List Condition

pub record SelfUpgrade : Type 0 where
  pub name : String
  pub namespace : String
  pub finalizers : List String
  pub deleting : Bool
  pub spec : Spec
  pub status : Status

-- `isComponentCompleted`: the phase of some status of that name is "Completed".
unfoldable pub is_component_completed : List ComponentUpgradeStatus → String → Bool
is_component_completed [] name = false
is_component_completed (s ∷ statuses) name =
    if s.name == name && s.phase == "Completed" then true else is_component_completed statuses name

abbrev pub completion : String → ℕ → Option ℕ → Option ℕ
completion phase now old = if phase == "Completed" then some now else old

-- `updateComponentStatus`: the first status of that name is changed, or a new one is appended.
unfoldable pub update_component_status :
    (name phase : String) (now : ℕ) → List ComponentUpgradeStatus → List ComponentUpgradeStatus
update_component_status name phase now [] =
    record {
      name = name;
      phase = phase;
      started_time = now;
      completed_time = completion phase now none;
    }
    ∷ []
update_component_status name phase now (s ∷ statuses) =
    if s.name == name
    then record s { phase = phase; completed_time = completion phase now s.completed_time }
      ∷ statuses
    else s ∷ update_component_status name phase now statuses
