-- ===== src/NodeUpgrade/Drained.antt =====
-- What a drain that succeeds has evicted, and what it has seen afterwards.
use cluster_api_provider_bar.Prelude.{
  ℕ, ◌≡◌, ◌≢◌, true, false, List, arith, all, ok, In, inl, inr, Bool-cases,
}
use cluster_api_provider_bar.Effects.{pure, ◌>>◌, >>=-eq-ok, for_each, err-ne-ok}
use cluster_api_provider_bar.Effects.Later.{Later, trans, for_each-Later}
use cluster_api_provider_bar.Conditions.{Node}
use cluster_api_provider_bar.NodeUpgrade.{Platform, Pod, refused}
use cluster_api_provider_bar.NodeUpgrade.Drain.{is_daemon_set, evict_pod, is_drained, drain_node}
use cluster_api_provider_bar.NodeUpgrade.Moves.{Step, evict_pod-Moves, PollHolds}

module _ {Conn W : Type 0} (p : Platform Conn W) where
  open p use {clientset, pods_on, evict, poll}

  -- Before the moment `v`, the eviction of a pod was asked for and not refused.
  abbrev pub EvictionAccepted : Pod → W → Type 0
  EvictionAccepted pod v =
      (u : W) × ((evict pod.namespace pod.name u).0 ≢ refused)
      × Later (Step p) (evict pod.namespace pod.name u).1 v

  evict_pod_accepted :
      (pod : Pod) (w : W)
      → (evict_pod p pod w).0 ≡ ok tt
      → is_daemon_set pod ≡ false
      → ((evict pod.namespace pod.name w).0 ≢ refused)
        × ((evict_pod p pod w).1 ≡ (evict pod.namespace pod.name w).1)
  unfolding evict_pod
  evict_pod_accepted pod w h other = (λ no. ground (arith, h, other, no), ground (arith, h, other))

  check_drained :
      (node : Node) (w : W)
      → (is_drained p node w).0 ≡ ok true
      → (pods : List Pod) × ((pods_on node.name w).0 ≡ ok pods) × (all is_daemon_set pods ≡ true)
  unfolding is_drained
  check_drained node w h =
      let (pods, listed, ok_all) =
        >>=-eq-ok (pods_on node.name) (λ pods. pure (all is_daemon_set pods)) w h in
      (pods, listed, ground (arith, ok_all))

  -- If a polling wait that succeeds has seen its condition hold after it began, a drain that succeeds
  -- has listed the pods of the node at its start; the eviction of each of them that is not a pod of a
  -- DaemonSet was asked for and not refused; and at a moment after all these evictions the node was
  -- listed with no pods but those of DaemonSets.
  pub drain_node-EvictionAccepted :
      PollHolds p
      → (timeout : ℕ) (node : Node) (w : W) → (drain_node p timeout node w).0 ≡ ok tt
      → (pods : List Pod) × ((pods_on node.name w).0 ≡ ok pods)
        × (v : W) × ((pod : Pod) → In pod pods → is_daemon_set pod ≡ false → EvictionAccepted pod v)
        × (left : List Pod) × ((pods_on node.name v).0 ≡ ok left)
        × (all is_daemon_set left ≡ true)
  unfolding drain_node is_drained evict_pod for_each
  drain_node-EvictionAccepted holds timeout node w h = elim (Bool-cases clientset) [
    | inr lacks ↦ absurd (err-ne-ok (rw (lacks) at h))
    | inl given ↦
        let (pods, listed, h1) =
          >>=-eq-ok (pods_on node.name)
            (λ pods. for_each (evict_pod p) pods >> poll 5 timeout (is_drained p node)) w
            (rw (given) at h) in
        let w1 = (pods_on node.name w).1 in
        let (_, evicted_all, h2) =
          >>=-eq-ok (for_each (evict_pod p) pods) (λ _. poll 5 timeout (is_drained p node)) w1 h1 in
        let (v, began, drained) =
          holds 5 timeout (is_drained p node) (for_each (evict_pod p) pods w1).1 h2 in
        let (left, seen, ds) = check_drained node v drained in
        (
          pods,
          listed,
          v,
          λ pod i other.
              let (u, did, l) =
                for_each-Later (Step p) (evict_pod p) pods w1 pod (evict_pod-Moves p) evicted_all
                  i in
              let (accepted, same) = evict_pod_accepted pod u did other in
              (u, accepted, trans (rw same at l) began),
          left,
          seen,
          ds,
        )
  ]
