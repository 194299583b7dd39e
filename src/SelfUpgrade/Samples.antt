-- ===== src/SelfUpgrade/Samples.antt =====
-- A platform on which everything works, and what self-upgrades do on it.
use cluster_api_provider_bar.Prelude.{
  ℕ, ◌+◌, String, codes, contains, nat_eq, ◌≡◌, ◌≢◌, refl, inl, inr, subst, Bool, true, false, none,
  some, List, [], ◌∷◌, ok, string_eq, In,
}
use cluster_api_provider_bar.Effects.{for_each}
use cluster_api_provider_bar.SelfUpgrade.Resource.{
  Phase, pending, upgrading, verifying, Strategy, crd, SelfUpgradeComponent, Spec, SelfUpgrade,
  is_component_completed,
}
use cluster_api_provider_bar.SelfUpgrade.Sorting.{validate_components, sort_components}
use cluster_api_provider_bar.SelfUpgrade.Components.{
  Platform, created, Deployment, upgrade_component, upgraded_deployment, rolled_back_deployment,
  backup_data, restore,
}
use cluster_api_provider_bar.SelfUpgrade.Handlers.{
  Outcome, upgrade_next, execute_upgrade, finished, after,
}
use cluster_api_provider_bar.SelfUpgrade.Controller.{dispatch, reconcile}
use cluster_api_provider_bar.SelfUpgrade.Cycles.{IsCycle, sort_components-cycle}
use cluster_api_provider_bar.SelfUpgrade.Phases.{Moves, reconcile-Moves}
use cluster_api_provider_bar.SelfUpgrade.Progress.{Advances, execute_upgrade-Advances}
use cluster_api_provider_bar.SelfUpgrade.Pausing.{now_on, edited, paused-pending}
use cluster_api_provider_bar.SelfUpgrade.Images.{
  rolled_back_deployment-upgraded_deployment, restore-backup_data,
}

abbrev web : Deployment
web = record {
  image = some (codes "web");
  strategy_type = "Recreate";
  max_unavailable = none;
  max_surge = none;
  min_ready_seconds = 0;
  observed_generation = 4;
}

-- The world counts the changes.
abbrev calm : Platform ℕ
calm = record {
  nodes = λ w. (ok [], w);
  run_command = λ command timeout w. (ok tt, w);
  crds = λ w. (ok ((codes "hosts", some "yaml") ∷ []), w);
  annotate_crd = λ name version w. (ok tt, w + 1);
  wait_crd_established = λ name timeout w. (ok tt, w);
  is_missing = λ path w. false;
  read_dir = λ path w. (ok [], w);
  read_file = λ dir name w. (ok "yaml", w);
  decode = λ content. ok content;
  patch = λ obj w. (ok tt, w + 1);
  get_deployment = λ namespace name w. (ok web, w);
  deployment_yaml = λ namespace name w. (ok "yaml", w);
  patch_deployment = λ namespace name d w. (ok tt, w + 1);
  wait_deployment_ready = λ namespace name timeout w. (ok tt, w);
  wait_daemon_set_ready = λ namespace name timeout w. (ok tt, w);
  create_backup = λ su entries w. (created, w + 1);
  backups = λ su w. (ok [], w);
}

abbrev strategy : Strategy
strategy = record {
  max_unavailable = 1;
  max_surge = 1;
  min_ready_seconds = 0;
  auto_rollback = true;
}

abbrev component : String → List String → SelfUpgradeComponent
component name deps = record {
  name = name;
  type = crd;
  blocking = true;
  depends_on = deps;
  health_check = none;
}

abbrev spec : Bool → List SelfUpgradeComponent → Spec
spec paused components = record {
  target_version = codes "v2";
  release_image = codes "r";
  strategy = strategy;
  pre_upgrade_hooks = [];
  post_upgrade_hooks = [];
  components = components;
  paused = paused;
}

abbrev upgrade : Phase → Spec → SelfUpgrade
upgrade phase s = record {
  name = "su";
  namespace = "ns";
  finalizers = "selfupgrade.cvo.capbm.io" ∷ [];
  deleting = false;
  spec = s;
  status = record {
    phase = phase;
    started_time = none;
    completed_time = none;
    current_version = [];
    component_status = [];
    conditions = [];
  };
}

abbrev cycle : List SelfUpgradeComponent
cycle = component "a" ("b" ∷ []) ∷ component "b" ("a" ∷ []) ∷ []

abbrev everything : String → Bool
everything name = true

cycle-IsCycle : IsCycle cycle everything
cycle-IsCycle c (inl same) b = (
  component "b" ("a" ∷ []),
  inr (inl refl),
  subst (λ (x : SelfUpgradeComponent). In "b" x.depends_on) same (inl refl),
  refl,
)
cycle-IsCycle c (inr (inl same)) b = (
  component "a" ("b" ∷ []),
  inl refl,
  subst (λ (x : SelfUpgradeComponent). In "a" x.depends_on) same (inl refl),
  refl,
)
cycle-IsCycle c (inr (inr i)) b = absurd i

cycle-valid : validate_components cycle ≡ ok tt
unfolding validate_components
cycle-valid = refl

sort_components-cycle_example : sort_components 1000 cycle ≡ none
sort_components-cycle_example =
    sort_components-cycle cycle everything cycle-IsCycle (component "a" ("b" ∷ [])) (inl refl) refl
      1000

chain : List SelfUpgradeComponent
chain = component "a" ("b" ∷ []) ∷ component "b" [] ∷ []

chain-sorted : sort_components 3 chain ≡ some (component "b" [] ∷ component "a" ("b" ∷ []) ∷ [])
unfolding chain sort_components
chain-sorted = refl

abbrev running : SelfUpgrade
running = upgrade upgrading (spec false chain)

abbrev result : SelfUpgrade → Outcome × ℕ
result su = elim (reconcile calm 9 5 su 0) [ none ↦ ((su, finished), 0) | some out ↦ out ]

running-result : reconcile calm 9 5 running 0 ≡ some (result running)
unfolding chain sort_components execute_upgrade dispatch reconcile
running-result = refl

running-patches : ((result running).1 ≡ 1) × ((result running).0.1 ≡ after 2)
unfolding chain sort_components execute_upgrade dispatch reconcile upgrade_next upgrade_component
    for_each is_component_completed
running-patches = (refl, refl)

reconcile-Moves_example : Moves running (result running).0.0
reconcile-Moves_example =
    reconcile-Moves calm 9 5 running 0 (result running) refl refl running-result

abbrev advanced : Outcome × ℕ
advanced = elim (execute_upgrade calm 9 5 running 0) [
  | none ↦ ((running, finished), 0)
  | some out ↦ out
]

running-advanced : execute_upgrade calm 9 5 running 0 ≡ some advanced
unfolding chain sort_components execute_upgrade
running-advanced = refl

execute_upgrade-Advances_example :
    (sorted : List SelfUpgradeComponent) × (sort_components 9 chain ≡ some sorted)
    × Advances sorted running advanced.0.0
execute_upgrade-Advances_example =
    execute_upgrade-Advances calm 9 5 running 0 advanced refl running-advanced

abbrev halted : SelfUpgrade
halted = upgrade verifying (spec true chain)

halted-result : reconcile calm 9 5 halted 0 ≡ some (result halted)
unfolding reconcile
halted-result = refl

paused-pending_example :
    (record (result halted).0.0 { spec = spec false chain }).status.phase ≡ pending
paused-pending_example =
    paused-pending calm 9 5 halted 0 (result halted) refl refl halted-result
      (record (result halted).0.0 { spec = spec false chain }) (edited (spec false chain) now_on)

web-named : codes "web" ≢ []
web-named h = cc

v2-plain : contains (codes "v2") b':' ≡ false
v2-plain = refl

rolled_back_deployment-upgraded_deployment_example :
    (rolled_back_deployment (upgraded_deployment (codes "v2") strategy web)).image
    ≡ some (codes "web")
rolled_back_deployment-upgraded_deployment_example =
    rolled_back_deployment-upgraded_deployment (codes "v2") strategy web (codes "web") refl
      web-named v2-plain

restore-backup_data_example :
    (restore calm (codes "rbac-") (backup_data calm ((codes "hosts", some "yaml") ∷ []) 0).0 7
      ≡ (ok tt, 7))
    × (restore calm (codes "webhook-") (backup_data calm ((codes "hosts", some "yaml") ∷ []) 0).0 7
        ≡ (ok tt, 7))
restore-backup_data_example = restore-backup_data calm ((codes "hosts", some "yaml") ∷ []) 0 7
