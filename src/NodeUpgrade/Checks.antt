-- ===== src/NodeUpgrade/Checks.antt =====
-- What the checks before an upgrade of the control plane have seen when they pass.
use cluster_api_provider_bar.Prelude.{
  ◌≤◌, ◌≡◌, ltb, Bool, true, false, none, List, [], ◌∷◌, text_eq, arith, length, ok, In, inl, inr,
  subst, Bool-cases,
}
use cluster_api_provider_bar.Effects.Later.{
  Later, here, once, Moves, bind-Later, bind-Moves, then-Moves,
}
use cluster_api_provider_bar.Effects.{Action, pure, fail, when, wrap, ◌>>=◌, ◌>>◌, >>=-eq-ok}
use cluster_api_provider_bar.Conditions.{Node, node_ready, first_not_ready}
use cluster_api_provider_bar.NodeUpgrade.{
  Platform, LabelledNode, etcd_health, too_few_control_plane_nodes,
}
use cluster_api_provider_bar.NodeUpgrade.Drain.{check_ready}
use cluster_api_provider_bar.NodeUpgrade.Moves.{Step, selects_nodes, test-Moves, run_script-Moves}
use cluster_api_provider_bar.NodeUpgrade.ControlPlane.{
  check_first, ControlPlaneUpgradeConfig, names_of, get_control_plane_nodes, check_cluster_health,
  check_count, check_etcd_health, pre_upgrade_checks,
}

module _ {E W : Type 0} where
  -- A wrapped error is an error.
  pub wrap-eq-ok :
      {A : Type 0} (f : E → E) (m : Action E W A) (w : W) {a : A}
      → (wrap f m w).0 ≡ ok a
      → (m w).0 ≡ ok a
  wrap-eq-ok f m w h = ground (arith, h)

  pub wrap_world : {A : Type 0} (f : E → E) (m : Action E W A) (w : W) → (wrap f m w).1 ≡ (m w).1
  wrap_world f m w = ground arith

  pub when-eq-ok :
      (c : Bool) (m : Action E W (Unit {0})) (w : W)
      → c ≡ true
      → (when c m w).0 ≡ ok tt
      → (m w).0 ≡ ok tt
  when-eq-ok true m w e h = h
  when-eq-ok false m w e h = ground (arith, e)

all_ready :
    (nodes : List Node)
    → first_not_ready nodes ≡ none
    → (node : Node) → In node nodes
    → node_ready node.conditions ≡ true
unfolding first_not_ready
all_ready [] h node i = absurd i
all_ready (x ∷ nodes) h node i = elim (Bool-cases (node_ready x.conditions)) [
  | inr no_ready ↦ ground (arith, h, no_ready)
  | inl ready ↦ elim i [
    | inl same ↦ subst (λ (n : Node). node_ready n.conditions ≡ true) same ready
    | inr later ↦ all_ready nodes (ground (arith, h, ready)) node later
  ]
]

checked_ready :
    {W : Type 0} (nodes : List Node) (w : W)
    → (check_ready nodes w).0 ≡ ok tt
    → first_not_ready nodes ≡ none
unfolding check_ready
checked_ready nodes w h = ground (arith, h)

module _ {Conn W : Type 0} (p : Platform Conn W) (config : ControlPlaneUpgradeConfig) where
  open p use {list_nodes}

  -- What the checks that start at the moment `w` have seen before the moment `v`: all nodes ready, and
  -- three control-plane nodes.
  abbrev pub SeenHealthy : W → W → Type 0
  SeenHealthy w v =
      (nodes : List LabelledNode) × ((list_nodes w).0 ≡ ok nodes)
      × ((node : Node) → In node (names_of nodes) → node_ready node.conditions ≡ true)
      × (w' : W) × (masters : List Node) × ((get_control_plane_nodes p config w').0 ≡ ok masters)
      × (3 ≤ length masters)
      × Later (Step p) (get_control_plane_nodes p config w').1 v

  pub get_control_plane_nodes-Moves : Moves (Step p) (get_control_plane_nodes p config)
  unfolding get_control_plane_nodes
  get_control_plane_nodes-Moves w = once (selects_nodes _ _ w)

  check_first-Moves : (nodes : List Node) → Moves (Step p) (check_first p config nodes)
  check_first-Moves [] w = here
  check_first-Moves (node ∷ nodes) w = run_script-Moves p node.name etcd_health none w

  check_etcd_health-Moves : Moves (Step p) (check_etcd_health p config)
  unfolding check_etcd_health
  check_etcd_health-Moves =
      bind-Moves (Step p) (get_control_plane_nodes p config) (check_first p config)
        get_control_plane_nodes-Moves check_first-Moves

  checks_end :
      (nodes : List Node)
      → Moves (Step p) (check_count p config nodes >> check_etcd_health p config)
  checks_end nodes =
      then-Moves (Step p) (check_count p config nodes) (check_etcd_health p config)
        (test-Moves p (ltb (length nodes) 3) (fail (too_few_control_plane_nodes (length nodes)))
          (pure tt) (λ w. here) (λ w. here))
        check_etcd_health-Moves

  check_cluster_health-eq-ok :
      (w : W)
      → (check_cluster_health p config w).0 ≡ ok tt
      → (nodes : List LabelledNode) × ((list_nodes w).0 ≡ ok nodes)
        × ((node : Node) → In node (names_of nodes) → node_ready node.conditions ≡ true)
  unfolding check_cluster_health
  check_cluster_health-eq-ok w h =
      let (nodes, listed, h') = >>=-eq-ok list_nodes (λ nodes. check_ready (names_of nodes)) w h in
      (
        nodes,
        listed,
        all_ready (names_of nodes) (checked_ready (names_of nodes) (list_nodes w).1 h'),
      )

  enough : (nodes : List Node) (w : W) → (check_count p config nodes w).0 ≡ ok tt → 3 ≤ length nodes
  enough nodes w h = ground (arith, h)

  pub pre_upgrade_checks-SeenHealthy :
      (w : W)
      → (pre_upgrade_checks p config w).0 ≡ ok tt
      → SeenHealthy w (pre_upgrade_checks p config w).1
  unfolding pre_upgrade_checks
  pre_upgrade_checks-SeenHealthy w h =
      let (_, healthy, h1) =
        >>=-eq-ok (check_cluster_health p config)
          (λ _. get_control_plane_nodes p config >>= λ nodes.
            check_count p config nodes >> check_etcd_health p config)
          w h in
      let (nodes, listed, ready) = check_cluster_health-eq-ok w healthy in
      let w1 = (check_cluster_health p config w).1 in
      let (masters, found, h2) =
        >>=-eq-ok (get_control_plane_nodes p config)
          (λ nodes. check_count p config nodes >> check_etcd_health p config) w1 h1 in
      let w2 = (get_control_plane_nodes p config w1).1 in
      let (_, counted, _) =
        >>=-eq-ok (check_count p config masters) (λ _. check_etcd_health p config) w2 h2 in
      (
        nodes,
        listed,
        ready,
        w1,
        masters,
        found,
        enough masters w2 counted,
        rw healthy (
            bind-Later (Step p) (get_control_plane_nodes p config)
              (λ nodes. check_count p config nodes >> check_etcd_health p config) w1 checks_end),
      )
