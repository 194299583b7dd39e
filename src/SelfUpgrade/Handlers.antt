-- ===== src/SelfUpgrade/Handlers.antt =====
-- The handlers of the phases of a self-upgrade. A handler is given the clock's
-- reading and how deep calls may nest, and returns the changed resource with what is asked of the
-- queue; `none` is a crash of the program. Events, logs and the messages of conditions are left out.
use cluster_api_provider_bar.Prelude.{
  ℕ, String, Bool, true, false, not, ◌||◌, Option, none, some, List, [], ◌∷◌, ◌++◌, ◌==◌, string_eq,
  nat_eq, if◌then◌else◌, is_empty, contains, and_then, ok, err,
}
use mathlib.Core.List.{reverse}
use cluster_api_provider_bar.Effects.{Action, pure, fail, wrap, ◌>>=◌, for_each}
use cluster_api_provider_bar.Api.{HealthCheck}
use cluster_api_provider_bar.Conditions.{is_true, set_condition, first_not_ready}
use cluster_api_provider_bar.SelfUpgrade.Resource.{
  Phase, validating, pre_upgrade, upgrading, verifying, completed, rolling_back, failed, Hook,
  SelfUpgradeComponent, SelfUpgrade, is_component_completed, update_component_status,
}
use cluster_api_provider_bar.SelfUpgrade.Sorting.{validate_components, sort_components}
use cluster_api_provider_bar.SelfUpgrade.Components.{
  UpgradeError, list_failed, node_not_ready, unknown_health_check, Platform, upgrade_component,
  backup_current_config, rollback_component,
}

-- What the queue is asked: nothing more, at once, or after some seconds.
pub data Requeue : Type 0 where
  finished immediately : Requeue
  after : ℕ → Requeue

abbrev pub finalizer : String
finalizer = "selfupgrade.cvo.capbm.io"

abbrev pub add : String → List String → List String
add f finalizers = if contains finalizers f then finalizers else finalizers ++ f ∷ []

abbrev pub without : String → List String → List String
without f [] = []
without f (x ∷ finalizers) = if x == f then without f finalizers else x ∷ without f finalizers

abbrev pub set_phase : Phase → SelfUpgrade → SelfUpgrade
set_phase phase su = record su { status = record su.status { phase = phase } }

abbrev pub condition : (type reason : String) (now : ℕ) → SelfUpgrade → SelfUpgrade
condition type reason now su = record su {
  status = record su.status {
    conditions =
        set_condition
          (record { type = type; status = is_true; reason = reason; last_transition_time = now })
          su.status.conditions;
  };
}

abbrev pub mark_component : (name phase : String) (now : ℕ) → SelfUpgrade → SelfUpgrade
mark_component name phase now su = record su {
  status = record su.status {
    component_status = update_component_status name phase now su.status.component_status;
  };
}

abbrev pub close : (phase : Phase) (type reason : String) (now : ℕ) → SelfUpgrade → SelfUpgrade
close phase type reason now su = condition type reason now (set_phase phase su)

abbrev pub Outcome : Type 0
Outcome = SelfUpgrade × Requeue

unfoldable pub initialize_upgrade : ℕ → SelfUpgrade → Outcome
initialize_upgrade now su =
    let started : Option ℕ = elim su.status.started_time [ none ↦ some now | some t ↦ some t ] in
    (
      close validating "Validating" "Initializing" now
          (record su { status = record su.status { started_time = started } }),
      immediately,
    )

module _ {W : Type 0} (p : Platform W) where
  open p use {nodes, run_command, wait_deployment_ready, wait_daemon_set_ready}

  unfoldable pub validate_cluster_health : Action UpgradeError W (Unit {0})
  validate_cluster_health = do
    found ← wrap (λ _. list_failed) nodes
    elim (first_not_ready found) [ none ↦ pure tt | some name ↦ fail (node_not_ready name) ]

  unfoldable pub validate_upgrade : ℕ → SelfUpgrade → W → Outcome × W
  validate_upgrade now su w =
      let reject : Outcome = (close failed "Failed" "ValidationFailed" now su, finished) in
      if is_empty su.spec.target_version
      then (reject, w)
      else if is_empty su.spec.components
      then (reject, w)
      else elim (validate_components su.spec.components) [
        | err _ ↦ (reject, w)
        | ok _ ↦
            let (r, w') = validate_cluster_health w in
            elim r [
              | err _ ↦ (reject, w')
              | ok _ ↦ ((close pre_upgrade "PreUpgrade" "PreUpgrade" now su, immediately), w')
            ]
      ]

  -- A failure that the hook says to ignore is no failure.
  unfoldable pub execute_hook : Hook → Action UpgradeError W (Unit {0})
  execute_hook hook w =
      if hook.command == ""
      then (ok tt, w)
      else let (r, w') =
          run_command hook.command (elim hook.timeout [ none ↦ 300 | some t ↦ t ]) w in
        elim r [
          | ok _ ↦ (ok tt, w')
          | err e ↦ (
            if hook.on_failure == "Ignore" || hook.on_failure == "Continue" then ok tt else err e,
            w',
          )
        ]

  abbrev pub aborts : Hook → Bool
  aborts hook = hook.on_failure == "Abort" || hook.on_failure == ""

  -- The loop over the hooks: whether one of them failed in a way that aborts the upgrade.
  unfoldable pub run_pre_hooks : List Hook → W → Bool × W
  run_pre_hooks [] w = (false, w)
  run_pre_hooks (hook ∷ hooks) w =
      let (r, w') = execute_hook hook w in
      let rest = run_pre_hooks hooks w' in
      elim r [ ok _ ↦ rest | err _ ↦ if aborts hook then (true, w') else rest ]

  unfoldable pub execute_pre_upgrade : ℕ → SelfUpgrade → W → Outcome × W
  execute_pre_upgrade now su w =
      let (aborted, w') = run_pre_hooks su.spec.pre_upgrade_hooks w in
      if aborted
      then (
        if su.spec.strategy.auto_rollback
            then (close rolling_back "RollingBack" "RollingBack" now su, immediately)
            else (close failed "Failed" "PreUpgradeFailed" now su, finished),
        w',
      )
      else let (r, w'') = backup_current_config p su w' in
        let proceed : Outcome = (close upgrading "Upgrading" "Upgrading" now su, immediately) in
        elim r [
          | ok _ ↦ (proceed, w'')
          | err _ ↦ (
            if su.spec.strategy.auto_rollback
                then (set_phase rolling_back su, immediately)
                else proceed,
            w'',
          )
        ]

  -- The loop over the sorted components. After a component that is not the last one the handler
  -- returns, and the next reconciliation goes on.
  unfoldable pub upgrade_next : ℕ → List SelfUpgradeComponent → SelfUpgrade → W → Outcome × W
  upgrade_next now [] su w = ((close verifying "Verifying" "Verifying" now su, immediately), w)
  upgrade_next now (component ∷ components) su w =
      let skip = upgrade_next now components su w in
      let (r, w') = upgrade_component p su component w in
      let after_failure = mark_component component.name "Failed" now su in
      let go_on = λ (su' : SelfUpgrade).
        (let done = mark_component component.name "Completed" now su' in
          if is_empty components
          then ((close verifying "Verifying" "Verifying" now done, immediately), w')
          else ((done, after 2), w')) in
      if is_component_completed su.status.component_status component.name then skip else elim r [
        | ok _ ↦ go_on su
        | err _ ↦
            if component.blocking || su.spec.strategy.auto_rollback
            then (
              (close rolling_back "RollingBack" "RollingBack" now after_failure, immediately),
              w',
            )
            else go_on after_failure
      ]

  unfoldable pub execute_upgrade : (stack : ℕ) → ℕ → SelfUpgrade → W → Option (Outcome × W)
  execute_upgrade stack now su w =
      and_then (sort_components stack su.spec.components)
        (λ sorted. some (upgrade_next now sorted su w))

  unfoldable pub run_health_check :
      SelfUpgradeComponent → Option HealthCheck → Action UpgradeError W (Unit {0})
  run_health_check comp none = pure tt
  run_health_check comp (some hc) =
      if hc.type == "DeploymentReady"
      then wait_deployment_ready hc.namespace hc.name hc.timeout
      else if hc.type == "DaemonSetReady"
      then wait_daemon_set_ready hc.namespace hc.name hc.timeout
      else if hc.type == "CRDEstablished"
      then pure tt
      else if hc.type == "EndpointHealthy"
      then pure tt
      else fail (unknown_health_check hc.type)

  -- Whether all components pass; the loop stops at the first that does not.
  unfoldable pub check_components : List SelfUpgradeComponent → W → Bool × W
  check_components [] w = (true, w)
  check_components (c ∷ components) w =
      let (r, w') = run_health_check c c.health_check w in
      let rest = check_components components w' in elim r [ ok _ ↦ rest | err _ ↦ (false, w') ]

  unfoldable pub run_post_hooks : List Hook → W → W
  run_post_hooks [] w = w
  run_post_hooks (hook ∷ hooks) w = run_post_hooks hooks (execute_hook hook w).1

  unfoldable pub verify_upgrade : ℕ → SelfUpgrade → W → Outcome × W
  verify_upgrade now su w =
      let (healthy, w') = check_components su.spec.components w in
      if not healthy
      then (
        if su.spec.strategy.auto_rollback
            then (set_phase rolling_back su, immediately)
            else (close failed "Failed" "VerificationFailed" now su, finished),
        w',
      )
      else let done = record su {
        status = record su.status {
          current_version = su.spec.target_version;
          completed_time = some now;
        };
      } in
        (
          (close completed "Completed" "Completed" now done, finished),
          run_post_hooks su.spec.post_upgrade_hooks w',
        )

  -- The loop of the rollback over the components, the last one first.
  unfoldable pub rollback_all :
      SelfUpgrade → List SelfUpgradeComponent → Action UpgradeError W (Unit {0})
  rollback_all su components = for_each (rollback_component p su) (reverse components)

  unfoldable pub execute_rollback : ℕ → SelfUpgrade → W → Outcome × W
  execute_rollback now su w =
      let (r, w') = rollback_all su su.spec.components w in
      elim r [
        | err _ ↦ ((close failed "Failed" "RollbackFailed" now su, finished), w')
        | ok _ ↦
            let done = record su { status = record su.status { completed_time = some now } } in
            ((close failed "Failed" "RolledBack" now done, finished), w')
      ]
