-- ===== src/Backup/Rollbacks.antt =====
-- What a rollback that succeeds has done.
use cluster_api_provider_bar.Prelude.{
  ℕ, zero, suc, ◌≡◌, refl, subst, ap, sym, ◌∙◌, String, Text, false, Option, some, List, [], ◌∷◌,
  ◌==◌, string_eq, arith, Result, ok, err, In, inl, inr, Bool-cases, Option-cases,
}
use cluster_api_provider_bar.Effects.{Action, wrap, and_then, ◌>>=◌, ◌>>◌, >>=-eq-ok, err-ne-ok}
use cluster_api_provider_bar.Effects.Later.{
  Later, here, next, trans, once, Moves, bind-Later, bind-Moves,
}
use cluster_api_provider_bar.NodeUpgrade.{LabelledNode}
use cluster_api_provider_bar.Addon.Jobs.{seconds_or_default}
use cluster_api_provider_bar.Backup.{
  Platform, BackupError, unhealthy, pre_hooks_failed, post_hooks_failed, shell, UpgradeConfig,
  Release, check_exit, with_connection,
}
use cluster_api_provider_bar.Backup.Hooks.{
  get_component_upgrade_config, get_component_pre_hooks, get_component_post_hooks,
  execute_hooks_on_nodes,
}
use cluster_api_provider_bar.Backup.Moves.{
  Step, closes, reads_file, with_connection-Moves, check_exit-Moves, execute-Moves,
  execute_hooks_on_nodes-Moves,
}
use cluster_api_provider_bar.Backup.Health.{run_health_check}
use cluster_api_provider_bar.Backup.Executor.{
  execute_rollback_script, clean_up, rollback_nodes, rollback_with, rollback_component,
}
use cluster_api_provider_bar.Backup.Checked.{CheckedAll, run_health_check-CheckedAll}

module _ {Conn W : Type 0} (p : Platform Conn W) where
  open p use {connect, execute_script, cluster_nodes, read_file}

  -- Before the moment `v` the content of the file was run on the node, and exited with zero.
  abbrev pub RolledBack : UpgradeConfig → LabelledNode → W → Type 0
  RolledBack config n v =
      (content : String) × (w : W) × ((read_file config.rollback_script w).0 ≡ ok content)
      × (timeout : Option ℕ) × (u : W) × (conn : Conn) × (out : Text) × (u' : W) × ((connect
            n.node.name u).0
          ≡ ok conn)
      × ((execute_script conn (shell content) timeout u').0 ≡ ok (0, out))
      × Later (Step p) (execute_script conn (shell content) timeout u').1 v

  RolledBack-Later :
      (config : UpgradeConfig) (n : LabelledNode) (u v : W)
      → RolledBack config n u
      → Later (Step p) u v
      → RolledBack config n v
  RolledBack-Later config n u v (content, w, read, timeout, x, conn, out, x', made, ran, before) l =
      (content, w, read, timeout, x, conn, out, x', made, ran, trans before l)

  script-Moves :
      (config : UpgradeConfig) (n : LabelledNode)
      → Moves (Step p) (execute_rollback_script p config n)
  unfolding execute_rollback_script
  script-Moves config n = with_connection-Moves p n.node.name _ (λ conn.
      bind-Moves (Step p) (λ w. read_file config.rollback_script w)
        (λ content.
          execute_script conn (shell content) (some (seconds_or_default config.rollback_timeout))
          >>= check_exit p)
        (λ w. once (reads_file config.rollback_script w)) (λ content. execute-Moves p conn _ _))

  exit_zero : (code : ℕ) (out t : Text) (w : W) → (check_exit p (code, out) w).0 ≡ ok t → code ≡ 0
  exit_zero zero out t w h = refl
  exit_zero (suc code) out t w h = absurd (err-ne-ok h)

  script-RolledBack :
      (config : UpgradeConfig) (n : LabelledNode) (t : Text) (w : W)
      → (execute_rollback_script p config n w).0 ≡ ok t
      → RolledBack config n (execute_rollback_script p config n w).1
  unfolding execute_rollback_script with_connection
  script-RolledBack config n t w h = split (connect n.node.name w).0 refl
    where
      timeout : Option ℕ
      timeout = some (seconds_or_default config.rollback_timeout)

      split :
          (r : Result BackupError Conn)
          → (connect n.node.name w).0 ≡ r
          → RolledBack config n (execute_rollback_script p config n w).1
      split (err e) same =
          absurd (err-ne-ok (rw (same, execute_rollback_script, with_connection) at h))
      split (ok conn) same =
          let w1 : W = (connect n.node.name w).1 in
          let run : String → Action BackupError W Text =
            λ content. execute_script conn (shell content) timeout >>= check_exit p in
          let (content, read, h1) =
            >>=-eq-ok (read_file config.rollback_script) run w1
              (rw (same, execute_rollback_script, with_connection) at h) in
          let w2 : W = (read_file config.rollback_script w1).1 in
          let ((code, out), ran, checked) =
            >>=-eq-ok (execute_script conn (shell content) timeout) (check_exit p) w2 h1 in
          let zeroed : code ≡ 0 =
            exit_zero code out t (execute_script conn (shell content) timeout w2).1 checked in
          (
            content,
            w1,
            read,
            timeout,
            w,
            conn,
            out,
            w2,
            same,
            subst (λ c. (execute_script conn (shell content) timeout w2).0 ≡ ok (c, out)) zeroed
                ran,
            rw (same, execute_rollback_script, with_connection)
                (next
                  (subst
                    (λ (r : Result BackupError String).
                      Later (Step p) (execute_script conn (shell content) timeout w2).1
                        (and_then r run w2).1)
                    (sym read)
                    (bind-Later (Step p) (execute_script conn (shell content) timeout)
                      (check_exit p) w2 (check_exit-Moves p)))
                  (closes conn _)),
          )

  clean_up-err :
      (release : Release) (name : Text) (nodes : List LabelledNode) (e : BackupError) (w : W)
      → (clean_up p release name nodes e w).0 ≡ ok tt
      → ⊥
  unfolding clean_up
  clean_up-err release name nodes e w h = ground (arith, h)

  rollback_nodes_first :
      (release : Release) (name : Text) (config : UpgradeConfig) (nodes : List LabelledNode)
      (x : LabelledNode) (left : List LabelledNode) (w : W)
      → (rollback_nodes p release name config nodes (x ∷ left) w).0 ≡ ok tt
      → (t : Text) × ((execute_rollback_script p config x w).0 ≡ ok t)
        × (rollback_nodes p release name config nodes (x ∷ left) w
            ≡ rollback_nodes p release name config nodes left
                (execute_rollback_script p config x w).1)
  unfolding rollback_nodes
  rollback_nodes_first release name config nodes x left w h =
      split (execute_rollback_script p config x w).0 refl
    where
      w' : W
      w' = (execute_rollback_script p config x w).1

      split :
          (r : Result BackupError Text)
          → (execute_rollback_script p config x w).0 ≡ r
          → (t : Text) × ((execute_rollback_script p config x w).0 ≡ ok t)
            × (rollback_nodes p release name config nodes (x ∷ left) w
                ≡ rollback_nodes p release name config nodes left w')
      split (err e) same =
          absurd (clean_up-err release name nodes e w' (rw (same, rollback_nodes) at h))
      split (ok t) same = (t, same, rw (same, rollback_nodes) refl)

  rollback_nodes-RolledBack :
      (release : Release) (name : Text) (config : UpgradeConfig) (nodes left : List LabelledNode)
      (w : W)
      → (rollback_nodes p release name config nodes left w).0 ≡ ok tt
      → let v = (rollback_nodes p release name config nodes left w).1 in
        Later (Step p) w v × ((n : LabelledNode) → In n left → RolledBack config n v)
  unfolding rollback_nodes
  rollback_nodes-RolledBack release name config nodes [] w h = (here, λ n i. absurd i)
  rollback_nodes-RolledBack release name config nodes (x ∷ left) w h =
      let (t, did, rest) = rollback_nodes_first release name config nodes x left w h in
      let w' = (execute_rollback_script p config x w).1 in
      let v = (rollback_nodes p release name config nodes (x ∷ left) w).1 in
      let (ends, all) =
        rollback_nodes-RolledBack release name config nodes left w'
          (ap (λ r. r.0) (sym rest) ∙ h) in
      let same : (rollback_nodes p release name config nodes left w').1 ≡ v =
        ap (λ r. r.1) (sym rest) in
      let over : Later (Step p) w' v = subst (Later (Step p) w') same ends in
      (
        trans (script-Moves config x w) over,
        λ n i. elim i [
          | inl is_first ↦
              subst (λ m. RolledBack config m v) is_first
                (RolledBack-Later config x w' v (script-RolledBack config x t w did) over)
          | inr later ↦ subst (RolledBack config n) same (all n later)
        ],
      )

  wrap-eq-ok :
      (f : BackupError → BackupError) (m : Action BackupError W (Unit {0})) (w : W)
      → (wrap f m w).0 ≡ ok tt
      → (m w).0 ≡ ok tt
  wrap-eq-ok f m w h = ground (arith, h)

  wrap_world :
      {A : Type 0} (f : BackupError → BackupError) (m : Action BackupError W A) (w : W)
      → (wrap f m w).1 ≡ (m w).1
  wrap_world f m w = ground arith

  abbrev pub RolledBackAll : UpgradeConfig → W → Type 0
  RolledBackAll config v =
      (nodes : List LabelledNode) × (w : W) × ((cluster_nodes w).0 ≡ ok nodes)
      × ((n : LabelledNode) → In n nodes → RolledBack config n v)

  rollback_with-RolledBackAll :
      (release : Release) (name : Text) (config : UpgradeConfig) (w : W)
      → (rollback_with p release name config w).0 ≡ ok tt
      → (v : W) × RolledBackAll config v × CheckedAll p config v
  unfolding rollback_with
  rollback_with-RolledBackAll release name config w h =
      let healthy : Action BackupError W (Unit {0}) = wrap unhealthy (run_health_check p config) in
      let before : List LabelledNode → Action BackupError W (Unit {0}) = λ nodes.
        wrap pre_hooks_failed
          (execute_hooks_on_nodes p nodes (get_component_pre_hooks release name)) in
      let behind : List LabelledNode → Action BackupError W (Unit {0}) = λ nodes.
        wrap post_hooks_failed
          (execute_hooks_on_nodes p nodes (get_component_post_hooks release name)) in
      let roll : List LabelledNode → Action BackupError W (Unit {0}) =
        λ nodes. rollback_nodes p release name config nodes nodes in
      let (nodes, listed, h1) =
        >>=-eq-ok cluster_nodes (λ nodes. before nodes >> (roll nodes >> (behind nodes >> healthy)))
          w h in
      let w1 = (cluster_nodes w).1 in
      let (_, _, h2) =
        >>=-eq-ok (before nodes) (λ _. roll nodes >> (behind nodes >> healthy)) w1 h1 in
      let w2 = (before nodes w1).1 in
      let (_, rolled, h3) = >>=-eq-ok (roll nodes) (λ _. behind nodes >> healthy) w2 h2 in
      let w3 = (roll nodes w2).1 in
      let (_, _, h4) = >>=-eq-ok (behind nodes) (λ _. healthy) w3 h3 in
      let w4 = (behind nodes w3).1 in
      let hooks = get_component_post_hooks release name in
      let behind_moves : Later (Step p) w3 w4 =
        subst (Later (Step p) w3)
          (sym (wrap_world post_hooks_failed (execute_hooks_on_nodes p nodes hooks) w3))
          (execute_hooks_on_nodes-Moves p nodes hooks w3) in
      let (_, all) = rollback_nodes-RolledBack release name config nodes nodes w2 rolled in
      (
        w4,
        (nodes, w, listed, λ n i. RolledBack-Later config n w3 w4 (all n i) behind_moves),
        run_health_check-CheckedAll p config w4
            (wrap-eq-ok unhealthy (run_health_check p config) w4 h4),
      )

  -- A rollback of a component that succeeds has found a configuration with a script, has run the content
  -- of the script's file on every node of the cluster to an exit with zero; and at a moment after all of
  -- these runs, if there is a command of the health check, the nodes were listed for it, and it was run
  -- on each of them to an exit with zero. Moments are worlds, and the later ones are reached from the
  -- earlier by operations of the platform.
  pub rollback_component-RolledBackAll :
      (release : Release) (name : Text) (w : W)
      → (rollback_component p release name w).0 ≡ ok tt
      → (config : UpgradeConfig) × (get_component_upgrade_config release name ≡ some config)
        × ((config.rollback_script == "") ≡ false)
        × (v : W) × RolledBackAll config v
        × CheckedAll p config v
  unfolding rollback_component
  rollback_component-RolledBackAll release name w h =
      elim (Option-cases (get_component_upgrade_config release name)) [
        | inl lacks ↦ absurd (err-ne-ok (rw (lacks, rollback_component) at h))
        | inr (config, found) ↦ elim (Bool-cases (config.rollback_script == "")) [
          | inl empty ↦ absurd (err-ne-ok (rw (found, empty, rollback_component) at h))
          | inr given ↦
              let (v, all, checked) =
                rollback_with-RolledBackAll release name config w
                  (rw (found, given, rollback_component) at h) in
              (config, found, given, v, all, checked)
        ]
      ]
