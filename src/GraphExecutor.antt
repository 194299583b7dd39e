-- ===== src/GraphExecutor.antt =====
-- `ExecuteUpgradeGraph` of modules/cvo/internal/upgrader/graph_executor.go and what it calls.
--
-- The API server, the files of a release, the nodes and the health checker are the fields of a
-- `Platform` over a world `W`. Its `iteration` is the order in which `range` visits a Go map.
pub mod Dependencies
mod Samples
use cluster_api_provider_bar.Prelude.{
  ℕ, String, Text, Bool, true, false, not, ◌&&◌, Option, none, some, List, [], ◌∷◌, ◌++◌, map, ltb,
  ◌==◌, if◌then◌else◌, is_empty, string_eq, nat_eq, find?, Result, ok, err, contains,
}
use cluster_api_provider_bar.Prelude.Integers.{int_ltb}
use cluster_api_provider_bar.Effects.{Action, pure, fail, wrap, ◌>>=◌, ◌>>◌, when, for_each}
use cluster_api_provider_bar.TopologicalSort.{DepGraph, put, topological_sort}
use cluster_api_provider_bar.Api.{HealthCheck, UpgradeComponent, UpgradePhase}

pub data ExecError : Type 0 where
  manifest_dir_failed scripts_dir_failed nodes_unavailable : ExecError
  file_not_found unreadable undecodable patch_failed : String → ExecError
  connection_failed script_error script_failed : String → ExecError
  not_healthy : ExecError
  unknown_health_check : String → ExecError
  health_check_failed : String → ExecError → ExecError
  dependency_not_completed : (dep component : String) → ExecError
  component_failed phase_failed : String → ExecError → ExecError

pub record Platform (W : Type 0) : Type 0 where
  pub iteration : DepGraph → List String
  -- Where `sort.Slice` puts the phases, which is not stable: phases of one order come in any order.
  pub arrange : List UpgradePhase → List UpgradePhase
  pub manifest_dir : Text → Action ExecError W String
  pub scripts_dir : Text → Action ExecError W String
  pub join : String → String → String
  pub is_missing : String → W → Bool
  pub read_file : String → Action ExecError W String
  pub decode : String → Result ExecError String
  pub patch : String → Action ExecError W (Unit {0})
  pub nodes : Action ExecError W (List String)
  pub connect : String → Action ExecError W (Unit {0})
  -- The exit code.
  pub run_script : (node content : String) → Action ExecError W ℕ
  pub close : String → W → W
  pub pods_ready : (namespace selector : String) → ℕ → Action ExecError W (Unit {0})
  pub daemon_set_ready : (namespace name : String) → ℕ → Action ExecError W (Unit {0})
  pub deployment_ready : (namespace name : String) → ℕ → Action ExecError W (Unit {0})
  pub endpoint_healthy : (endpoint : String) → ℕ → Action ExecError W (Unit {0})
  pub crd_established : (name : String) → ℕ → Action ExecError W (Unit {0})
  pub service_running : (name : String) → ℕ → Action ExecError W (Unit {0})

-- The executor: which of its optional parts are set, and the image of the release.
pub record Executor : Type 0 where
  pub health_checker : Bool
  pub ssh_manager : Bool
  pub image : Text

-- A later component of the same name replaces the dependencies of an earlier one.
unfoldable pub add_components : DepGraph → List UpgradeComponent → DepGraph
add_components graph [] = graph
add_components graph (comp ∷ comps) = add_components (put comp.name comp.depends_on graph) comps

unfoldable pub build_dependency_graph : List UpgradeComponent → DepGraph
unfolding add_components
build_dependency_graph components = add_components [] components

unfoldable pub find_component : List UpgradeComponent → String → Option UpgradeComponent
find_component [] name = none
find_component (comp ∷ comps) name =
    if comp.name == name then some comp else find_component comps name

abbrev pub component_names : UpgradePhase → List String
component_names phase = map (λ comp. comp.name) phase.components

unfoldable pub phase_less : UpgradePhase → UpgradePhase → Bool
phase_less a b = int_ltb a.order b.order

-- The sort never runs out of fuel, so the empty list stands for no outcome.
unfoldable pub sorted_names : DepGraph → List String → List String
sorted_names graph order = elim (topological_sort graph order) [ none ↦ [] | some names ↦ names ]

-- `for _, dep := range comp.DependsOn { if !completed[dep] { return ... } }`
unfoldable pub check_dependencies : List String → String → List String → Result ExecError (Unit {0})
check_dependencies completed name [] = ok tt
check_dependencies completed name (dep ∷ deps) =
    if not (contains completed dep)
    then err (dependency_not_completed dep name)
    else check_dependencies completed name deps

module _ {W : Type 0} (p : Platform W) where
  open p use {
    iteration, arrange, manifest_dir, scripts_dir, join, is_missing, read_file, decode, patch,
    nodes, connect, run_script, close, pods_ready, daemon_set_ready, deployment_ready,
    endpoint_healthy, crd_established, service_running,
  }

  apply_manifest : String → String → Action ExecError W (Unit {0})
  apply_manifest dir manifest w =
      let path = join dir manifest in
      if is_missing path w
      then (err (file_not_found path), w)
      else (do
        content ← wrap (λ _. unreadable path) (read_file path)
        obj ← wrap (λ _. undecodable path) (λ w'. (decode content, w'))
        wrap (λ _. patch_failed path) (patch obj))
          w

  apply_manifests : Executor → List String → Action ExecError W (Unit {0})
  unfolding apply_manifest
  apply_manifests e manifests = do
    dir ← wrap (λ _. manifest_dir_failed) (manifest_dir e.image)
    for_each (apply_manifest dir) manifests

  -- The connection is closed before the outcome is looked at.
  run_on_node : String → String → Action ExecError W (Unit {0})
  run_on_node content node = do
    wrap (λ _. connection_failed node) (connect node)
    code ←
        wrap (λ _. script_error node)
          λ w. let (r, w') = run_script node content w in (r, close node w')
    if code == 0 then pure tt else fail (script_failed node)

  execute_script : Executor → String → String → Action ExecError W (Unit {0})
  unfolding run_on_node
  execute_script e dir script w =
      let path = join dir script in
      if is_missing path w
      then (err (file_not_found path), w)
      else (do
        content ← wrap (λ _. unreadable path) (read_file path)
        when e.ssh_manager do
          targets ← wrap (λ _. nodes_unavailable) nodes
          for_each (run_on_node content) targets)
          w

  execute_scripts : Executor → List String → Action ExecError W (Unit {0})
  unfolding execute_script
  execute_scripts e scripts = do
    dir ← wrap (λ _. scripts_dir_failed) (scripts_dir e.image)
    for_each (execute_script e dir) scripts

  run_health_check : Executor → HealthCheck → Action ExecError W (Unit {0})
  run_health_check e hc =
      let timeout = if hc.timeout == 0 then 300 else hc.timeout in
      if not e.health_checker
      then pure tt
      else if hc.type == "PodReady"
      then pods_ready hc.namespace hc.label_selector timeout
      else if hc.type == "DaemonSetReady"
      then daemon_set_ready hc.namespace hc.name timeout
      else if hc.type == "DeploymentReady"
      then deployment_ready hc.namespace hc.name timeout
      else if hc.type == "EndpointHealthy"
      then endpoint_healthy hc.endpoint timeout
      else if hc.type == "CRDEstablished"
      then crd_established hc.name timeout
      else if hc.type == "ServiceRunning"
      then service_running hc.name timeout
      else fail (unknown_health_check hc.type)

  check_component : Executor → UpgradeComponent → Option HealthCheck → Action ExecError W (Unit {0})
  unfolding run_health_check
  check_component e comp none = pure tt
  check_component e comp (some hc) =
      when e.health_checker (wrap (health_check_failed comp.name) (run_health_check e hc))

  unfoldable pub execute_component : Executor → UpgradeComponent → Action ExecError W (Unit {0})
  unfolding apply_manifests execute_scripts check_component
  execute_component e comp = do
    when (not (is_empty comp.manifests)) (apply_manifests e comp.manifests)
    when (not (is_empty comp.scripts)) (execute_scripts e comp.scripts)
    check_component e comp comp.health_check

  unfoldable pub run_component :
      Executor → List String → Option UpgradeComponent → Action ExecError W (Unit {0})
  run_component e completed none = pure tt
  run_component e completed (some comp) = do
    λ w. (check_dependencies completed comp.name comp.depends_on, w)
    λ w.
        let (r, w') = execute_component e comp w in
        elim r [
          | ok _ ↦ (ok tt, w')
          | err x ↦ (if comp.blocking then err (component_failed comp.name x) else ok tt, w')
        ]

  unfoldable pub execute_phase :
      Executor → UpgradePhase → List String → Action ExecError W (Unit {0})
  execute_phase e phase completed =
      let graph = build_dependency_graph phase.components in
      for_each (λ name. run_component e completed (find_component phase.components name))
        (sorted_names graph (iteration graph))

  -- The names that are completed once a phase is over, whatever came of it.
  unfoldable pub execute_phases :
      Executor → List UpgradePhase → List String → Action ExecError W (Unit {0})
  execute_phases e [] completed w = (ok tt, w)
  execute_phases e (phase ∷ phases) completed w =
      let (r, w') = execute_phase e phase completed w in
      let rest = execute_phases e phases (completed ++ component_names phase) w' in
      elim r [
        | ok _ ↦ rest
        | err x ↦ if phase.blocking then (err (phase_failed phase.name x), w') else rest
      ]

  unfoldable pub execute_upgrade_graph :
      Executor → List UpgradePhase → Action ExecError W (Unit {0})
  execute_upgrade_graph e upgrade_graph = execute_phases e (arrange upgrade_graph) []
