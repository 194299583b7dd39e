-- ===== src/Api.antt =====
-- The resources of modules/cvo/api/v1beta1 that the operations below read and write, with the
-- fields that they use. Versions and image references are texts, all other strings names.
-- A duration is a number of seconds.
use cluster_api_provider_bar.Prelude.{
  ℕ, String, Text, Bool, not, ◌||◌, ◌==◌, string_eq, Option, List,
}
use cluster_api_provider_bar.Prelude.Integers.{ℤ}

pub record GraphEdge : Type 0 where
  pub from : Text
  pub to : Text
  pub recommended : Bool

pub record BlockedUpgrade : Type 0 where
  pub from : Text
  pub to : Text
  pub reason : String

pub record UpgradePathSpec : Type 0 where
  pub image : Text
  pub edges : List GraphEdge
  pub blocked_upgrades : List BlockedUpgrade

pub record ReleaseEntry : Type 0 where
  pub version : Text
  pub image : Text

pub record Release : Type 0 where
  pub version : Text
  pub image : Text

pub record Update : Type 0 where
  pub version : Text
  pub image : Text
  pub force : Bool

pub record HealthCheck : Type 0 where
  pub type : String
  pub namespace : String
  pub name : String
  pub label_selector : String
  pub endpoint : String
  pub timeout : ℕ

pub record UpgradeComponent : Type 0 where
  pub name : String
  pub manifests : List String
  pub scripts : List String
  pub blocking : Bool
  pub depends_on : List String
  pub health_check : Option HealthCheck

pub record UpgradePhase : Type 0 where
  pub name : String
  pub order : ℤ
  pub blocking : Bool
  pub components : List UpgradeComponent

pub record AddonHook : Type 0 where
  pub name : String
  pub command : String
  pub timeout : Option ℕ
  pub on_failure : String

-- Whether a hook that failed stops what it belongs to.
abbrev pub stops_on_failure : AddonHook → Bool
stops_on_failure hook = not (hook.on_failure == "Ignore" || hook.on_failure == "Continue")
