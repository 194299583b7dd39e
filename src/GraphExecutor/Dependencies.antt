-- ===== src/GraphExecutor/Dependencies.antt =====
-- What a run of the upgrade graph checks of the dependencies.
use mathlib.Core.Bool.{false≢true}
use cluster_api_provider_bar.Prelude.{
  String, ◌≡◌, refl, sym, ap, ◌∙◌, subst, ◌↔◌, ◌==◌, if◌then◌else◌, Bool-cases, ◌≢◌, ◌⊎◌, inl, inr,
  true, false, some, List, [], ◌∷◌, ◌++◌, map, arith, ==_iff, string_eq, ok, contains, In, All-In,
  All,
}
use cluster_api_provider_bar.Effects.{>>=-eq-ok, for_each-eq-ok}
use cluster_api_provider_bar.TopologicalSort.{DepGraph, put, keys, topological_sort}
use cluster_api_provider_bar.TopologicalSort.Total.{
  topological_sort_total, topological_sort-IsDistinct,
}
use cluster_api_provider_bar.Api.{UpgradeComponent, UpgradePhase}
use cluster_api_provider_bar.GraphExecutor.{
  Platform, Executor, add_components, build_dependency_graph, find_component, component_names,
  sorted_names, check_dependencies, run_component, execute_phase, execute_phases,
  execute_upgrade_graph,
}

sorted_names-eq :
    (graph : DepGraph) (order sorted : List String)
    → topological_sort graph order ≡ some sorted
    → sorted ≡ sorted_names graph order
unfolding sorted_names
sorted_names-eq graph order sorted e = ground arith

In-sorted_names :
    (graph : DepGraph) (order : List String) (name : String)
    → In name order
    → In name (sorted_names graph order)
In-sorted_names graph order name i =
    let (sorted, e) = topological_sort_total graph order in
    subst (In name) (sorted_names-eq graph order sorted e)
      ((topological_sort-IsDistinct graph order sorted e).1 name i)

In-keys-put :
    (name key : String) (deps : List String) (graph : DepGraph)
    → (key ≡ name) ⊎ In name (keys graph)
    → In name (keys (put key deps graph))
unfolding put
In-keys-put name key deps [] i = ground arith
In-keys-put name key deps ((k, old) ∷ graph) i =
    ground (arith, In-keys-put name key deps graph, ==_iff k key)

In-keys-add_components :
    (name : String) (comps : List UpgradeComponent) (graph : DepGraph)
    → In name (keys graph) ⊎ In name (map (λ c. c.name) comps)
    → In name (keys (add_components graph comps))
unfolding add_components
In-keys-add_components name [] graph i = ground arith
In-keys-add_components name (c ∷ comps) graph i =
    In-keys-add_components name comps (put c.name c.depends_on graph)
      (ground (arith, In-keys-put name c.name c.depends_on graph))

In-names :
    (comps : List UpgradeComponent) (comp : UpgradeComponent)
    → In comp comps
    → In comp.name (map (λ c. c.name) comps)
In-names [] comp i = absurd i
In-names (c ∷ comps) comp i = elim i [
  | inl same ↦ inl (ap (λ (x : UpgradeComponent). x.name) same)
  | inr later ↦ inr (In-names comps comp later)
]

-- No two of the components have one name.
abbrev pub HasDistinctNames : List UpgradeComponent → Type 0
HasDistinctNames [] = Unit
HasDistinctNames (c ∷ comps) =
    ((d : UpgradeComponent) → In d comps → c.name ≢ d.name) × HasDistinctNames comps

find_component-In :
    (comps : List UpgradeComponent) (comp : UpgradeComponent)
    → HasDistinctNames comps
    → In comp comps
    → find_component comps comp.name ≡ some comp
unfolding find_component
find_component-In [] comp d i = absurd i
find_component-In (c ∷ comps) comp (differs, d) i = elim i [
  | inl same ↦
      subst
        (λ (x : UpgradeComponent).
          (if c.name == x.name then some c else find_component comps x.name) ≡ some x)
        same (rw ((==_iff c.name c.name).1 refl) refl)
  | inr later ↦ elim (Bool-cases (c.name == comp.name)) [
    | inl equal ↦ absurd (differs comp later ((==_iff c.name comp.name).0 equal))
    | inr other ↦ rw other (find_component-In comps comp d later)
  ]
]

check_dependencies-ok :
    (completed : List String) (name : String) (deps : List String)
    → check_dependencies completed name deps ≡ ok tt
    → All (λ d. contains completed d ≡ true) deps
unfolding check_dependencies
check_dependencies-ok completed name [] h = tt
check_dependencies-ok completed name (d ∷ deps) h =
    ground (arith, check_dependencies-ok completed name deps)

-- The iteration over a map visits every key.
abbrev pub VisitsKeys : {W : Type 0} → Platform W → Type 0
VisitsKeys p =
    (graph : DepGraph) (name : String) → In name (keys graph) → In name (p.iteration graph)

-- The sort of the phases gives the same phases.
abbrev pub Arranges : {W : Type 0} → Platform W → Type 0
Arranges p =
    (phases : List UpgradePhase) (phase : UpgradePhase)
    → In phase (p.arrange phases) ↔ In phase phases

module _ {W : Type 0} (p : Platform W) (visits : VisitsKeys p) (e : Executor) where
  -- Every component of the phase has its dependencies among `completed`.
  abbrev pub DependenciesMet : List String → UpgradePhase → Type 0
  DependenciesMet completed phase =
      (comp : UpgradeComponent)
      → In comp phase.components
      → All (λ d. contains completed d ≡ true) comp.depends_on

  run_component-ok :
      (completed : List String) (comp : UpgradeComponent) (w : W)
      → (run_component p e completed (some comp) w).0 ≡ ok tt
      → All (λ d. contains completed d ≡ true) comp.depends_on
  unfolding run_component
  run_component-ok completed comp w h =
      let (_, checked, _) =
        >>=-eq-ok (λ (w : W). (check_dependencies completed comp.name comp.depends_on, w)) _ w h in
      check_dependencies-ok completed comp.name comp.depends_on checked

  pub execute_phase-ok :
      (phase : UpgradePhase) (completed : List String) (w : W)
      → HasDistinctNames phase.components
      → (execute_phase p e phase completed w).0 ≡ ok tt
      → DependenciesMet completed phase
  unfolding execute_phase
  execute_phase-ok phase completed w distinct h comp listed =
      let name = comp.name in
      let found = find_component-In phase.components comp distinct listed in
      let graph = build_dependency_graph phase.components in
      let key : In name (keys graph) =
        unfold build_dependency_graph in
        In-keys-add_components name phase.components []
          (inr (In-names phase.components comp listed)) in
      let (w', ran) =
        for_each-eq-ok
          (λ (n : String). run_component p e completed (find_component phase.components n))
          (sorted_names graph (p.iteration graph)) w name h
          (In-sorted_names graph (p.iteration graph) name (visits graph name key)) in
      run_component-ok completed comp w' (rw found at ran)

  -- If no two components of a phase have one name, the phase fails if it has a component one of whose
  -- dependencies no earlier phase has completed, also when the dependency is a component of the phase.
  pub execute_phase-ne-ok :
      (phase : UpgradePhase) (completed : List String) (w : W) (dep : String)
      (comp : UpgradeComponent)
      → HasDistinctNames phase.components
      → In comp phase.components
      → In dep comp.depends_on
      → contains completed dep ≡ false
      → (execute_phase p e phase completed w).0 ≢ ok tt
  execute_phase-ne-ok phase completed w dep comp distinct listed needs missing h = false≢true (
      sym missing
      ∙ All-In (λ d. contains completed d ≡ true) comp.depends_on dep
          (execute_phase-ok phase completed w distinct h comp listed) needs)

  -- Each blocking phase meets its dependencies by the phases before it.
  abbrev pub AllMet : List String → List UpgradePhase → Type 0
  AllMet completed [] = Unit
  AllMet completed (phase ∷ phases) =
      (phase.blocking ≡ true → DependenciesMet completed phase)
      × AllMet (completed ++ component_names phase) phases

  -- What a run of the phases comes to once the first of them is over.
  execute_phases-cons :
      (phase : UpgradePhase) (phases : List UpgradePhase) (completed : List String) (w : W)
      → (execute_phases p e (phase ∷ phases) completed w).0 ≡ ok tt
      → (phase.blocking ≡ true → (execute_phase p e phase completed w).0 ≡ ok tt)
        × ((execute_phases p e phases
              (completed ++ component_names phase)
              (execute_phase p e phase completed w).1).0
            ≡ ok tt)
  unfolding execute_phases
  execute_phases-cons phase phases completed w h = ground arith

  execute_phases-AllMet :
      (phases : List UpgradePhase) (completed : List String) (w : W)
      → ((phase : UpgradePhase) → In phase phases → HasDistinctNames phase.components)
      → (execute_phases p e phases completed w).0 ≡ ok tt
      → AllMet completed phases
  execute_phases-AllMet [] completed w distinct h = tt
  execute_phases-AllMet (phase ∷ phases) completed w distinct h =
      let (ran, rest) = execute_phases-cons phase phases completed w h in
      (
        λ b. execute_phase-ok phase completed w (distinct phase (inl refl)) (ran b),
        execute_phases-AllMet phases (completed ++ component_names phase)
            (execute_phase p e phase completed w).1 (λ q i. distinct q (inr i)) rest,
      )

  -- Let the sort of the phases leave out none and add none, and let no two components of a phase have
  -- one name. If the run of an upgrade graph succeeds, then every phase is among those that ran, and in
  -- the order in which they ran, whatever the sort does with phases of one order, every component of a
  -- blocking phase has all its dependencies among the components of earlier phases.
  pub execute_upgrade_graph-AllMet :
      Arranges p
      → (upgrade_graph : List UpgradePhase) (w : W)
      → ((phase : UpgradePhase) → In phase upgrade_graph → HasDistinctNames phase.components)
      → (execute_upgrade_graph p e upgrade_graph w).0 ≡ ok tt
      → ((phase : UpgradePhase) → In phase upgrade_graph → In phase (p.arrange upgrade_graph))
        × AllMet [] (p.arrange upgrade_graph)
  unfolding execute_upgrade_graph
  execute_upgrade_graph-AllMet arranges upgrade_graph w distinct h = (
    λ phase i. (arranges upgrade_graph phase).1 i,
    execute_phases-AllMet (p.arrange upgrade_graph) [] w
        (λ phase i. distinct phase ((arranges upgrade_graph phase).0 i)) h,
  )

module _ {W : Type 0} (p : Platform W) (e : Executor) where
  -- The world after all of the phases were executed in turn, whatever came of each.
  abbrev pub run_each : List UpgradePhase → List String → W → W
  run_each [] completed w = w
  run_each (phase ∷ phases) completed w =
      run_each phases (completed ++ component_names phase) (execute_phase p e phase completed w).1

  execute_phases-no_blocking :
      (phases : List UpgradePhase) (completed : List String) (w : W)
      → ((phase : UpgradePhase) → In phase phases → phase.blocking ≡ false)
      → execute_phases p e phases completed w ≡ (ok tt, run_each phases completed w)
  unfolding execute_phases
  execute_phases-no_blocking [] completed w free = refl
  execute_phases-no_blocking (phase ∷ phases) completed w free =
      let (r, w') = execute_phase p e phase completed w in
      ground (
        arith,
        free phase (inl refl),
        execute_phases-no_blocking phases (completed ++ component_names phase) w'
            (λ q i. free q (inr i)),
      )

-- If the sort of the phases adds none, a run in which no phase is blocking executes all phases in
-- turn, whatever fails inside of them, and succeeds.
pub execute_upgrade_graph-no_blocking :
    {W : Type 0} (p : Platform W) (e : Executor) (upgrade_graph : List UpgradePhase) (w : W)
    → Arranges p
    → ((phase : UpgradePhase) → In phase upgrade_graph → phase.blocking ≡ false)
    → execute_upgrade_graph p e upgrade_graph w
      ≡ (ok tt, run_each p e (p.arrange upgrade_graph) [] w)
unfolding execute_upgrade_graph
execute_upgrade_graph-no_blocking p e upgrade_graph w arranges free =
    execute_phases-no_blocking p e (p.arrange upgrade_graph) [] w
      (λ phase i. free phase ((arranges upgrade_graph phase).0 i))
