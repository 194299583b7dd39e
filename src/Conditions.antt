-- ===== src/Conditions.antt =====
-- Status conditions: `setCVCondition` of
-- modules/cvo/internal/controllers/clusterversion_controller.go, `setCondition` of
-- selfupgrade_controller.go beside it, and `setMachineCondition` of
-- modules/capbm/internal/controllers/baremetalmachine_controller.go. Messages are left out.
pub mod Lookup
mod Samples
use cluster_api_provider_bar.Prelude.{
  ℕ, String, Bool, true, false, not, ◌&&◌, ◌||◌, Option, none, some, List, [], ◌∷◌, ◌==◌, string_eq,
  if◌then◌else◌,
}

pub data ConditionStatus : Type 0 where
  is_true is_false is_unknown : ConditionStatus

pub record Condition : Type 0 where
  pub type : String
  pub status : ConditionStatus
  pub reason : String
  pub last_transition_time : ℕ

-- The first condition of the same type is replaced; without one the condition is appended.
unfoldable pub set_condition : Condition → List Condition → List Condition
set_condition c [] = c ∷ []
set_condition c (d ∷ conditions) =
    if d.type == c.type then c ∷ conditions else d ∷ set_condition c conditions

unfoldable pub set_cv_condition :
    (type : String) (status : ConditionStatus) (reason : String) (now : ℕ)
    → List Condition
    → List Condition
unfolding set_condition
set_cv_condition type status reason now =
    set_condition
      (record { type = type; status = status; reason = reason; last_transition_time = now })

unfoldable pub set_machine_condition :
    (type : String) (status : ConditionStatus) (reason : String) (now : ℕ)
    → List Condition
    → List Condition
unfolding set_condition
set_machine_condition type status reason now =
    set_condition
      (record { type = type; status = status; reason = reason; last_transition_time = now })

unfoldable pub mark_machine_condition_false :
    (type reason : String) (now : ℕ) → List Condition → List Condition
mark_machine_condition_false type reason = set_machine_condition type is_false reason

unfoldable pub mark_machine_condition_true :
    (type : String) (now : ℕ) → List Condition → List Condition
mark_machine_condition_true type = set_machine_condition type is_true ""

pub record Node : Type 0 where
  pub name : String
  pub conditions : List Condition

abbrev pub has_true : ConditionStatus → Bool
has_true is_true = true
has_true _ = false

-- The loop over a node's conditions that looks for Ready with status True.
unfoldable pub node_ready : List Condition → Bool
node_ready [] = false
node_ready (c ∷ conditions) = (c.type == "Ready" && has_true c.status) || node_ready conditions

-- The name of the first node that is not ready.
unfoldable pub first_not_ready : List Node → Option String
first_not_ready [] = none
first_not_ready (node ∷ nodes) =
    if not (node_ready node.conditions) then some node.name else first_not_ready nodes
