-- ===== src/NodeUpgrade/Drain.antt =====
-- Draining a node: `drainNode`, `uncordonNode` and `verifyNodeUpgrade`.
use cluster_api_provider_bar.Prelude.{
  ℕ, Bool, true, false, not, ◌&&◌, none, some, List, [], ◌∷◌, ◌==◌, string_eq, if◌then◌else◌, any,
  all, ok, err,
}
use cluster_api_provider_bar.Effects.{Action, pure, fail, ◌>>=◌, ◌>>◌, for_each}
use cluster_api_provider_bar.Conditions.{Condition, has_true, Node, first_not_ready}
use cluster_api_provider_bar.NodeUpgrade.{
  Platform, NodeError, Pod, evicted, too_many_requests, refused, no_clientset, evict_failed,
  node_not_ready,
}

-- Whether an owner is a DaemonSet.
unfoldable pub is_daemon_set : Pod → Bool
is_daemon_set pod = any (λ kind. kind == "DaemonSet") pod.owner_kinds

-- Whether some Ready condition is not True; a node without a Ready condition passes.
unfoldable pub reports_not_ready : List Condition → Bool
reports_not_ready [] = false
reports_not_ready (c ∷ conditions) =
    if c.type == "Ready" && not (has_true c.status) then true else reports_not_ready conditions

-- An error that names the first node that is not ready.
unfoldable pub check_ready : {W : Type 0} → List Node → Action NodeError W (Unit {0})
check_ready nodes = elim (first_not_ready nodes) [
  | some name ↦ fail (node_not_ready name)
  | none ↦ pure tt
]

module _ {Conn W : Type 0} (p : Platform Conn W) where
  open p use {clientset, pods_on, evict, poll, uncordon, get_node}

  -- An eviction that is refused for now is passed over.
  unfoldable pub evict_pod : Pod → Action NodeError W (Unit {0})
  evict_pod pod w =
      if is_daemon_set pod
      then (ok tt, w)
      else let (r, w') = evict pod.namespace pod.name w in
        elim r [
          | evicted ↦ (ok tt, w')
          | too_many_requests ↦ (ok tt, w')
          | refused ↦ (err (evict_failed pod.namespace pod.name), w')
        ]

  -- What is polled for after the evictions.
  unfoldable pub is_drained : Node → Action NodeError W Bool
  is_drained node = do pods ← pods_on node.name; pure (all is_daemon_set pods)

  unfoldable pub drain_node : (timeout : ℕ) → Node → Action NodeError W (Unit {0})
  drain_node timeout node =
      if not clientset
      then fail no_clientset
      else do pods ← pods_on node.name; for_each evict_pod pods; poll 5 timeout (is_drained node)

  unfoldable pub uncordon_node : Node → Action NodeError W (Unit {0})
  uncordon_node node = if not clientset then fail no_clientset else uncordon node.name

  unfoldable pub verify_node_upgrade : Node → Action NodeError W (Unit {0})
  verify_node_upgrade node = do
    updated ← get_node node.name
    if reports_not_ready updated.conditions then fail (node_not_ready node.name) else pure tt
