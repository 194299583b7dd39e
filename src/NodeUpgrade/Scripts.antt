-- ===== src/NodeUpgrade/Scripts.antt =====
-- What has been run on a node whose upgrade succeeds.
use cluster_api_provider_bar.Prelude.{
  ℕ, zero, suc, ◌≡◌, refl, String, false, Option, some, ◌==◌, string_eq, if◌then◌else◌, arith,
  Result, ok, err, inl, inr, Bool-cases,
}
use cluster_api_provider_bar.Effects.{pure, fail, >>=-eq-ok, err-ne-ok}
use cluster_api_provider_bar.Effects.Later.{Later, next, trans, bind-Later}
use cluster_api_provider_bar.Conditions.{Node}
use cluster_api_provider_bar.NodeUpgrade.{
  Platform, NodeError, Script, containerd_upgrade, node_not_ready, check_exit, with_connection,
  run_script,
}
use cluster_api_provider_bar.NodeUpgrade.Drain.{reports_not_ready, drain_node, verify_node_upgrade}
use cluster_api_provider_bar.NodeUpgrade.Moves.{Step, closes, check_exit-Moves}
use cluster_api_provider_bar.NodeUpgrade.Containerd.{
  BinaryComponent, BinaryInstallStrategy, BinaryUpgradeStrategy, default_install_strategy,
  default_upgrade_strategy, or_default, service_of, upgrade_containerd_rolling,
  upgrade_containerd_drain_and_upgrade, upgrade_containerd_parallel, upgrade_containerd,
}

module _ {Conn W : Type 0} (p : Platform Conn W) where
  open p use {connect, close, execute_script, get_node}

  -- A script was run over a connection to the host and exited with zero, before the moment `v`.
  abbrev pub Ran : String → Script → W → Type 0
  Ran host script v =
      (timeout : Option ℕ) × (w : W) × (conn : Conn) × (w' : W) × ((connect host w).0 ≡ ok conn)
      × ((execute_script conn script timeout w').0 ≡ ok 0)
      × Later (Step p) (execute_script conn script timeout w').1 v

  pub Ran-Later :
      (host : String) (script : Script) (u v : W)
      → Ran host script u
      → Later (Step p) u v
      → Ran host script v
  Ran-Later host script u v (timeout, w, conn, w', made, ran, before) l =
      (timeout, w, conn, w', made, ran, trans before l)

  -- The node, read at the moment `w`, has no Ready condition that is not True.
  abbrev pub SeenReady : Node → W → Type 0
  SeenReady node w =
      (updated : Node) × ((get_node node.name w).0 ≡ ok updated)
      × (reports_not_ready updated.conditions ≡ false)

  exit_zero : (code : ℕ) (w : W) → (check_exit p code w).0 ≡ ok tt → code ≡ 0
  exit_zero zero w h = refl
  exit_zero (suc code) w h = absurd (err-ne-ok h)

  pub run_script-Ran :
      (host : String) (script : Script) (timeout : Option ℕ) (w : W)
      → (run_script p host script timeout w).0 ≡ ok tt
      → Ran host script (run_script p host script timeout w).1
  unfolding run_script with_connection
  run_script-Ran host script timeout w h = split (connect host w).0 refl
    where
      split :
          (r : Result NodeError Conn)
          → (connect host w).0 ≡ r
          → Ran host script (run_script p host script timeout w).1
      split (err e) same = absurd (err-ne-ok (rw (same, run_script, with_connection) at h))
      split (ok conn) same =
          let w' : W = (connect host w).1 in
          let (code, ran, checked) =
            >>=-eq-ok (execute_script conn script timeout) (check_exit p) w'
              (rw (same, run_script, with_connection) at h) in
          (
            timeout,
            w,
            conn,
            w',
            same,
            rw (exit_zero code (execute_script conn script timeout w').1 checked) at ran,
            rw (same, run_script, with_connection)
                (next
                  (bind-Later (Step p) (execute_script conn script timeout) (check_exit p) w'
                    (check_exit-Moves p))
                  (closes conn _)),
          )

  pub verify_node_upgrade-SeenReady :
      (node : Node) (w : W) → (verify_node_upgrade p node w).0 ≡ ok tt → SeenReady node w
  unfolding verify_node_upgrade
  verify_node_upgrade-SeenReady node w h =
      let (updated, got, checked) =
        >>=-eq-ok (get_node node.name)
          (λ updated.
            if reports_not_ready updated.conditions
            then fail (node_not_ready node.name)
            else pure tt)
          w h in
      (updated, got, ground (arith, checked))

  abbrev upgrade_of : BinaryComponent → BinaryUpgradeStrategy
  upgrade_of c = or_default default_upgrade_strategy c.upgrade_strategy

  abbrev pub install_of : BinaryComponent → BinaryInstallStrategy
  install_of c = or_default default_install_strategy c.install_strategy

  -- The script that installs the version of the component with its method.
  abbrev pub script_of : BinaryComponent → Script
  script_of c =
      containerd_upgrade (service_of (install_of c)) c.version (install_of c).method c.archive

  rolling-Ran :
      (node : Node) (c : BinaryComponent) (w : W)
      → (upgrade_containerd_rolling p node c (upgrade_of c) (install_of c) w).0 ≡ ok tt
      → Ran node.name
          (script_of c)
          (upgrade_containerd_rolling p node c (upgrade_of c) (install_of c) w).1
  unfolding upgrade_containerd_rolling
  rolling-Ran node c w h =
      run_script-Ran node.name (script_of c) (some (or_default 600 (upgrade_of c).timeout)) w h

  draining-Ran :
      (drain_timeout : ℕ) (node : Node) (c : BinaryComponent) (w : W)
      → (upgrade_containerd_drain_and_upgrade p drain_timeout node c
          (upgrade_of c)
          (install_of c)
          w).0
        ≡ ok tt
      → Ran node.name
          (script_of c)
          (upgrade_containerd_drain_and_upgrade p drain_timeout node c
            (upgrade_of c)
            (install_of c)
            w).1
  unfolding upgrade_containerd_drain_and_upgrade
  draining-Ran drain_timeout node c w h =
      let (_, drained, rolled) =
        >>=-eq-ok (drain_node p drain_timeout node)
          (λ _. upgrade_containerd_rolling p node c (upgrade_of c) (install_of c)) w h in
      rw drained (rolling-Ran node c (drain_node p drain_timeout node w).1 rolled)

  -- Whatever the type of the strategy is, the script is run.
  pub upgrade_containerd-Ran :
      (drain_timeout : ℕ) (node : Node) (c : BinaryComponent) (w : W)
      → (upgrade_containerd p drain_timeout node c w).0 ≡ ok tt
      → Ran node.name (script_of c) (upgrade_containerd p drain_timeout node c w).1
  unfolding upgrade_containerd upgrade_containerd_parallel
  upgrade_containerd-Ran drain_timeout node c w h =
      elim (Bool-cases ((upgrade_of c).type == "Rolling")) [
        | inl is_rolling ↦ rw (is_rolling) (rolling-Ran node c w (rw (is_rolling) at h))
        | inr a ↦ elim (Bool-cases ((upgrade_of c).type == "DrainAndUpgrade")) [
          | inl drains ↦ rw (a, drains) (draining-Ran drain_timeout node c w (rw (a, drains) at h))
          | inr b ↦ elim (Bool-cases ((upgrade_of c).type == "Parallel")) [
            | inl is_parallel ↦
                rw (a, b, is_parallel) (rolling-Ran node c w (rw (a, b, is_parallel) at h))
            | inr d ↦ rw (a, b, d) (rolling-Ran node c w (rw (a, b, d) at h))
          ]
        ]
      ]
