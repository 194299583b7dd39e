-- ===== src/Conditions/Samples.antt =====
-- Conditions that are set, and a node that is not ready.
use cluster_api_provider_bar.Prelude.{
  ◌≡◌, ◌↔◌, refl, some, none, [], ◌∷◌, String, ◌==◌, string_eq, if◌then◌else◌, All,
}
use cluster_api_provider_bar.Conditions.{
  Condition, is_true, is_false, set_condition, Node, first_not_ready,
}
use cluster_api_provider_bar.Conditions.Lookup.{
  find_condition, HasDistinctTypes, set_condition_lem, IsReady, first_not_ready_iff,
}

abbrev ready : Condition
ready = record { type = "Ready"; status = is_true; reason = "Fine"; last_transition_time = 3 }

abbrev unready : Condition
unready = record { type = "Ready"; status = is_false; reason = "Broken"; last_transition_time = 9 }

set_condition_lem_example :
    HasDistinctTypes (set_condition unready (ready ∷ []))
    × ((type : String)
        → find_condition type (set_condition unready (ready ∷ []))
          ≡ (if "Ready" == type then some unready else find_condition type (ready ∷ [])))
set_condition_lem_example =
    set_condition_lem unready (ready ∷ []) (unfold find_condition in refl, tt)

abbrev node : Node
node = record { name = "n1"; conditions = unready ∷ [] }

first_not_ready_iff_example : (first_not_ready (node ∷ []) ≡ none) ↔ All IsReady (node ∷ [])
first_not_ready_iff_example = first_not_ready_iff (node ∷ [])
