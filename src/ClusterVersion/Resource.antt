-- ===== src/ClusterVersion/Resource.antt =====
-- The resource of a cluster version and the release image, with the fields that the controller uses,
-- and the history of updates.
use cluster_api_provider_bar.Prelude.{
  ℕ, String, Text, Bool, true, false, not, ◌&&◌, Option, some, List, [], ◌∷◌, ◌==◌, text_eq,
  if◌then◌else◌, is_empty,
}
use cluster_api_provider_bar.Api.{Update, Release, UpgradePhase}
use cluster_api_provider_bar.Conditions.{Condition}

pub data UpdateState : Type 0 where
  completed partial : UpdateState

pub record UpdateHistory : Type 0 where
  pub state : UpdateState
  pub version : Text
  pub image : Text
  pub verified : Bool
  pub started_time : ℕ
  pub completion_time : Option ℕ

pub record ComponentStatus : Type 0 where
  pub name : String
  pub version : Text
  pub target_version : Text
  pub phase : String

pub data AddonPhase : Type 0 where
  pending installing installed upgrading failed deleting : AddonPhase

pub record AddonVersionStatus : Type 0 where
  pub name : String
  pub version : Text
  pub target_version : Text
  pub phase : AddonPhase
  pub last_transition_time : ℕ

pub record AddonDefinition : Type 0 where
  pub name : String
  pub version : Text
  pub namespace : String
  pub dependencies : List String

pub record ReleaseImageSpec : Type 0 where
  pub version : Text
  pub image : Text
  pub containerd : Text
  pub kubernetes : Text
  pub addons : List AddonDefinition
  pub upgrade_graph : List UpgradePhase

pub record Status : Type 0 where
  pub desired : Release
  pub actual_version : Text
  pub history : List UpdateHistory
  pub conditions : List Condition
  pub available_updates : List Release
  pub component_status : List ComponentStatus
  pub addon_status : List AddonVersionStatus

pub record ClusterVersion : Type 0 where
  pub name : String
  pub namespace : String
  pub finalizers : List String
  pub deleting : Bool
  pub paused : Bool
  pub desired_update : Option Update
  pub status : Status

abbrev pub is_partial : UpdateState → Bool
is_partial partial = true
is_partial completed = false

-- A partial update to the same version at the head is kept.
unfoldable pub prepend_history : List UpdateHistory → UpdateHistory → List UpdateHistory
prepend_history [] entry = entry ∷ []
prepend_history (latest ∷ history) entry =
    if latest.version == entry.version && is_partial latest.state
    then latest ∷ history
    else entry ∷ latest ∷ history

unfoldable pub complete_history : ℕ → List UpdateHistory → List UpdateHistory
complete_history now [] = []
complete_history now (latest ∷ history) =
    record latest { state = completed; completion_time = some now } ∷ history

abbrev pub pending_component : String → Text → ComponentStatus
pending_component name version = record {
  name = name;
  version = version;
  target_version = version;
  phase = "Pending";
}

abbrev pub when_versioned : String → Text → List ComponentStatus → List ComponentStatus
when_versioned name version rest =
    if not (is_empty version) then pending_component name version ∷ rest else rest

addon_statuses : List AddonDefinition → List ComponentStatus
addon_statuses [] = []
addon_statuses (def ∷ addons) = when_versioned def.name def.version (addon_statuses addons)

unfoldable pub init_component_status : ReleaseImageSpec → List ComponentStatus
unfolding addon_statuses
init_component_status r =
    when_versioned "containerd" r.containerd
      (when_versioned "kubernetes" r.kubernetes (addon_statuses r.addons))
