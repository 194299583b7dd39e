-- ===== src/TopologicalSort.antt =====
-- `topologicalSort` of modules/cvo/internal/upgrader/graph_executor.go, and the same traversal of
-- the addons in modules/cvo/internal/controllers/clusterversion_controller.go.
--
-- A Go map is the list of its entries; the order in which `range` visits the keys is not fixed by
-- the language and is an argument. The recursion takes fuel: the names on the stack are distinct
-- keys of the graph, so one more than the number of keys is enough.
pub mod Marking
pub mod Total
pub mod Order
mod Samples
use cluster_api_provider_bar.Prelude.{
  ℕ, zero, suc, ◌+◌, String, Bool, true, Option, none, some, List, [], ◌∷◌, ◌++◌, map, ◌==◌,
  string_eq, if◌then◌else◌, length, contains, remove, and_then,
}

-- The names with the names that each depends on.
abbrev pub DepGraph : Type 0
DepGraph = List (String × List String)

-- `graph[name] = deps`
unfoldable pub put : String → List String → DepGraph → DepGraph
put name deps [] = (name, deps) ∷ []
put name deps ((key, old) ∷ graph) =
    if key == name then (name, deps) ∷ graph else (key, old) ∷ put name deps graph

-- The dependencies of a name; a name that is no key has none.
unfoldable pub deps_of : DepGraph → String → List String
deps_of [] name = []
deps_of ((key, deps) ∷ graph) name = if key == name then deps else deps_of graph name

abbrev pub keys : DepGraph → List String
keys graph = map (λ entry. entry.0) graph

pub record Marks : Type 0 where
  pub visited : List String
  pub in_progress : List String
  pub result : List String

abbrev pub unmarked : Marks
unmarked = record { visited = []; in_progress = []; result = [] }

abbrev pub enter : String → Marks → Marks
enter name s = record s { in_progress = name ∷ s.in_progress }

abbrev pub leave : String → Marks → Marks
leave name s = record {
  visited = name ∷ s.visited;
  in_progress = remove s.in_progress name;
  result = s.result ++ name ∷ [];
}

-- A loop of calls over a list of names.
unfoldable pub each : (String → Marks → Option Marks) → List String → Marks → Option Marks
each visit [] s = some s
each visit (name ∷ names) s = and_then (visit name s) (each visit names)

unfoldable pub visit : DepGraph → ℕ → String → Marks → Option Marks
visit graph zero name s = none
visit graph (suc fuel) name s =
    let down = each (visit graph fuel) (deps_of graph name) (enter name s) in
    if contains s.visited name
    then some s
    else if contains s.in_progress name
    then some s
    else and_then down (λ s'. some (leave name s'))

abbrev pub enough : DepGraph → ℕ
enough graph = suc (length graph)

-- `order` lists the keys in the order of the iteration.
unfoldable pub topological_sort : DepGraph → List String → Option (List String)
unfolding each visit
topological_sort graph order =
    and_then (each (visit graph (enough graph)) order unmarked) (λ s. some s.result)
