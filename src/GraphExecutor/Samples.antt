-- ===== src/GraphExecutor/Samples.antt =====
-- A platform on which everything works, and two small upgrade graphs.
use cluster_api_provider_bar.Prelude.{
  subst, sym, ◌∙◌, inr, ◌+◌, ap, Result, ℕ, String, ◌≡◌, ◌≢◌, refl, inl, true, false, none, List,
  [], ◌∷◌, ok, err, In, codes, string_eq, arith,
}
use cluster_api_provider_bar.Prelude.Sorting.{sort_by, In-sort_by}
use cluster_api_provider_bar.Prelude.Integers.{pos}
use cluster_api_provider_bar.Effects.{for_each}
use cluster_api_provider_bar.TopologicalSort.{put, keys, deps_of, topological_sort}
use cluster_api_provider_bar.Api.{UpgradeComponent, UpgradePhase}
use cluster_api_provider_bar.GraphExecutor.{
  ExecError, Platform, Executor, dependency_not_completed, phase_failed, build_dependency_graph,
  find_component, phase_less, sorted_names, check_dependencies, run_component, execute_component,
  execute_phase, execute_phases, execute_upgrade_graph,
}
use cluster_api_provider_bar.GraphExecutor.Dependencies.{
  VisitsKeys, Arranges, HasDistinctNames, AllMet, run_each, execute_phase-ne-ok,
  execute_upgrade_graph-AllMet, execute_upgrade_graph-no_blocking,
}

-- The world counts the patches.
abbrev sunny : Platform ℕ
sunny = record {
  iteration = keys;
  arrange = sort_by phase_less;
  manifest_dir = λ image w. (ok "m", w);
  scripts_dir = λ image w. (ok "s", w);
  join = λ dir name. name;
  is_missing = λ path w. false;
  read_file = λ path w. (ok path, w);
  decode = λ content. ok content;
  patch = λ obj w. (ok tt, w + 1);
  nodes = λ w. (ok ("n1" ∷ []), w);
  connect = λ node w. (ok tt, w);
  run_script = λ node content w. (ok 0, w);
  close = λ node w. w;
  pods_ready = λ namespace selector timeout w. (ok tt, w);
  daemon_set_ready = λ namespace name timeout w. (ok tt, w);
  deployment_ready = λ namespace name timeout w. (ok tt, w);
  endpoint_healthy = λ endpoint timeout w. (ok tt, w);
  crd_established = λ name timeout w. (ok tt, w);
  service_running = λ name timeout w. (ok tt, w);
}

sunny-VisitsKeys : VisitsKeys sunny
sunny-VisitsKeys graph name i = i

abbrev executor : Executor
executor = record { health_checker = false; ssh_manager = false; image = codes "r" }

abbrev component : String → List String → UpgradeComponent
component name deps = record {
  name = name;
  manifests = "a.yaml" ∷ [];
  scripts = [];
  blocking = true;
  depends_on = deps;
  health_check = none;
}

abbrev early : UpgradePhase
early = record {
  name = "early";
  order = pos 1;
  blocking = true;
  components = component "etcd" [] ∷ [];
}

abbrev late : UpgradePhase
late = record {
  name = "late";
  order = pos 2;
  blocking = true;
  components = component "api" ("etcd" ∷ []) ∷ [];
}

-- Both components in one phase.
abbrev together : UpgradePhase
together = record {
  name = "all";
  order = pos 1;
  blocking = true;
  components = component "etcd" [] ∷ component "api" ("etcd" ∷ []) ∷ [];
}

abbrev optional : UpgradePhase
optional = record together { blocking = false }

run : Unit {0}
unfolding execute_upgrade_graph execute_phases execute_phase run_component execute_component
    check_dependencies sorted_names build_dependency_graph find_component phase_less
    topological_sort deps_of put for_each sort_by
run = tt

split-runs : execute_upgrade_graph sunny executor (late ∷ early ∷ []) 0 ≡ (ok tt, 2)
unfolding run
split-runs = refl

together-fails :
    execute_upgrade_graph sunny executor (together ∷ []) 0
    ≡ (err (phase_failed "all" (dependency_not_completed "etcd" "api")), 1)
unfolding run
together-fails = refl

sunny-Arranges : Arranges sunny
sunny-Arranges phases phase = In-sort_by phase_less phase phases

two-distinct :
    (phase : UpgradePhase) → In phase (late ∷ early ∷ []) → HasDistinctNames phase.components
two-distinct phase (inl same) =
    subst (λ (q : UpgradePhase). HasDistinctNames q.components) same (λ d i. absurd i, tt)
two-distinct phase (inr (inl same)) =
    subst (λ (q : UpgradePhase). HasDistinctNames q.components) same (λ d i. absurd i, tt)
two-distinct phase (inr (inr none_left)) = absurd none_left

together-distinct : HasDistinctNames together.components
together-distinct = (
  λ d i. elim i [
    | inl same ↦ λ equal. no-etcd (equal ∙ ap (λ (x : UpgradeComponent). x.name) (sym same))
    | inr more ↦ absurd more
  ],
  (λ d i. absurd i, tt),
)
  where
    no-etcd : Path String "etcd" "api" → ⊥
    no-etcd e = cc

execute_upgrade_graph-AllMet_example :
    ((phase : UpgradePhase)
      → In phase (late ∷ early ∷ [])
      → In phase (sort_by phase_less (late ∷ early ∷ [])))
    × AllMet sunny sunny-VisitsKeys executor [] (sort_by phase_less (late ∷ early ∷ []))
execute_upgrade_graph-AllMet_example =
    execute_upgrade_graph-AllMet sunny sunny-VisitsKeys executor sunny-Arranges (late ∷ early ∷ [])
      0 two-distinct (ap (λ (r : Result ExecError (Unit {0}) × ℕ). r.0) split-runs)

execute_phase-ne-ok_example : (execute_phase sunny executor together [] 0).0 ≢ ok tt
execute_phase-ne-ok_example =
    execute_phase-ne-ok sunny sunny-VisitsKeys executor together [] 0 "etcd"
      (component "api" ("etcd" ∷ [])) together-distinct (inr (inl refl)) (inl refl) refl

execute_upgrade_graph-no_blocking_example :
    execute_upgrade_graph sunny executor (optional ∷ []) 0
    ≡ (ok tt, run_each sunny executor (sort_by phase_less (optional ∷ [])) [] 0)
execute_upgrade_graph-no_blocking_example =
    execute_upgrade_graph-no_blocking sunny executor (optional ∷ []) 0 sunny-Arranges optional_only
  where
    optional_only : (phase : UpgradePhase) → In phase (optional ∷ []) → phase.blocking ≡ false
    optional_only phase i = ground arith
