-- ===== src/Backup/Checked.antt =====
-- What a health check that succeeds has run.
use cluster_api_provider_bar.Prelude.{
  ℕ, zero, suc, ◌≡◌, refl, subst, Text, false, Option, none, some, List, [], ◌∷◌, ◌==◌, string_eq,
  arith, Result, ok, err, In, inl, inr,
}
use cluster_api_provider_bar.Effects.{>>=-eq-ok, err-ne-ok}
use cluster_api_provider_bar.NodeUpgrade.{LabelledNode}
use cluster_api_provider_bar.Addon.Jobs.{seconds_or_default}
use cluster_api_provider_bar.Addon.Upgrader.{rounds_of}
use cluster_api_provider_bar.Backup.{Platform, BackupError, no_error, Script, shell, UpgradeConfig}
use cluster_api_provider_bar.Backup.Health.{
  judge, check_node, check_nodes, health_rounds, run_health_check,
}

module _ {Conn W : Type 0} (p : Platform Conn W) where
  open p use {connect, execute_script, cluster_nodes, read_file}

  -- A script that was run over a connection to the node and exited with zero.
  abbrev pub Ran : Script → LabelledNode → Type 0
  Ran script n =
      (timeout : Option ℕ) × (w : W) × (conn : Conn) × (out : Text) × (w' : W) × ((connect
          n.node.name w).0
        ≡ ok conn)
      × ((execute_script conn script timeout w').0 ≡ ok (0, out))

  check_node-Ran :
      (config : UpgradeConfig) (n : LabelledNode) (w : W)
      → (check_node p config n w).0 ≡ ok none
      → Ran (shell config.health_command) n
  unfolding check_node
  check_node-Ran config n w h = split (connect n.node.name w).0 refl
    where
      timeout : Option ℕ
      timeout = some (seconds_or_default config.health_timeout)

      w' : W
      w' = (connect n.node.name w).1

      judged :
          (conn : Conn) (r : Result BackupError (ℕ × Text))
          → (connect n.node.name w).0 ≡ ok conn
          → (execute_script conn (shell config.health_command) timeout w').0 ≡ r
          → judge p config r ≡ ok none
          → Ran (shell config.health_command) n
      judged conn (ok (zero, out)) made ran e = (timeout, w, conn, out, w', made, ran)
      judged conn (ok (suc code, out)) made ran e = ground (arith, e)
      judged conn (err x) made ran e = ground (arith, e)

      split :
          (r : Result BackupError Conn)
          → (connect n.node.name w).0 ≡ r
          → Ran (shell config.health_command) n
      split (err e) same = ground (arith, h, same)
      split (ok conn) same =
          judged conn (execute_script conn (shell config.health_command) timeout w').0 same refl
            (rw (same, check_node) at h)

  check_nodes-Ran :
      (config : UpgradeConfig) (nodes : List LabelledNode) (w : W)
      → (check_nodes p config nodes w).0 ≡ ok none
      → (n : LabelledNode) → In n nodes
      → Ran (shell config.health_command) n
  unfolding check_nodes
  check_nodes-Ran config [] w h n i = absurd i
  check_nodes-Ran config (x ∷ nodes) w h n i =
      split (check_node p config x w).0 refl
        (λ later. check_nodes-Ran config nodes (check_node p config x w).1 later n)
    where
      split :
          (r : Result BackupError (Option BackupError))
          → (check_node p config x w).0 ≡ r
          → ((check_nodes p config nodes (check_node p config x w).1).0 ≡ ok none
              → In n nodes
              → Ran (shell config.health_command) n)
          → Ran (shell config.health_command) n
      split (err e) same later = ground (arith, h, same)
      split (ok (some e)) same later = ground (arith, h, same)
      split (ok none) same later = elim i [
        | inl here ↦ subst (Ran (shell config.health_command)) here (check_node-Ran config x w same)
        | inr rest ↦ later (rw (same, check_nodes) at h) rest
      ]

  health_rounds-Ran :
      (config : UpgradeConfig) (k : ℕ) (last : BackupError) (nodes : List LabelledNode) (w : W)
      → (health_rounds p config k last nodes w).0 ≡ ok tt
      → (n : LabelledNode) → In n nodes
      → Ran (shell config.health_command) n
  unfolding health_rounds
  health_rounds-Ran config zero last nodes w h n i = absurd (err-ne-ok h)
  health_rounds-Ran config (suc k) last nodes w h n i =
      split (check_nodes p config nodes w).0 refl (λ e later.
        health_rounds-Ran config k e nodes (p.sleep 10 (check_nodes p config nodes w).1) later n i)
    where
      split :
          (r : Result BackupError (Option BackupError))
          → (check_nodes p config nodes w).0 ≡ r
          → ((e : BackupError)
              → (health_rounds p config k e nodes (p.sleep 10 (check_nodes p config nodes w).1)).0
                ≡ ok tt
              → Ran (shell config.health_command) n)
          → Ran (shell config.health_command) n
      split (err e) same later = absurd (err-ne-ok (rw (same, health_rounds) at h))
      split (ok (some e)) same later = later e (rw (same, health_rounds) at h)
      split (ok none) same later = check_nodes-Ran config nodes w same n i

  -- If there is a command of the health check, the nodes were listed for it at the moment `w`, and it
  -- was run with success on each of them.
  abbrev pub CheckedAll : UpgradeConfig → W → Type 0
  CheckedAll config w =
      (config.health_command == "") ≡ false
      → (nodes : List LabelledNode) × ((cluster_nodes w).0 ≡ ok nodes)
        × ((n : LabelledNode) → In n nodes → Ran (shell config.health_command) n)

  pub run_health_check-CheckedAll :
      (config : UpgradeConfig) (w : W)
      → (run_health_check p config w).0 ≡ ok tt
      → CheckedAll config w
  unfolding run_health_check
  run_health_check-CheckedAll config w h asked =
      let (nodes, listed, checked) =
        >>=-eq-ok cluster_nodes (health_rounds p config (rounds_of config.health_retries) no_error)
          w (rw (asked, run_health_check) at h) in
      (
        nodes,
        listed,
        health_rounds-Ran config (rounds_of config.health_retries) no_error nodes
            (cluster_nodes w).1 checked,
      )
