-- ===== src/UpgradePath/Acceptance.antt =====
-- What `ValidateUpgradePath` accepts.
use cluster_api_provider_bar.Prelude.{
  Text, ◌≡◌, refl, ap, ◌↔◌, ◌⊎◌, inl, inr, ◌≢◌, Bool, true, false, some, List, [], ◌∷◌, ◌++◌, arith,
  ◌==◌, ==_iff, text_eq, ok, All, Bool-cases,
}
use cluster_api_provider_bar.Api.{GraphEdge, BlockedUpgrade, UpgradePathSpec, Update}
use cluster_api_provider_bar.UpgradePath.{
  edge_covers, blocked_covers, check_edges, check_blocked, check_path, validate_upgrade_path,
}

module _ (from to : Text) where
  -- The first edge that leads from `from` to `to` is a recommended one.
  abbrev pub FirstIsRecommended : List GraphEdge → Type 0
  FirstIsRecommended edges =
      (before : List GraphEdge) × (edge : GraphEdge) × (after : List GraphEdge) × (edges
        ≡ before ++ edge ∷ after)
      × All (λ e. edge_covers e from to ≡ false) before
      × (edge_covers edge from to ≡ true)
      × (edge.recommended ≡ true)

  -- What is accepted from `from` to `to`: no change at all; or no blocking rule covers it and it is
  -- forced or recommended.
  abbrev pub Accepts : Bool → UpgradePathSpec → Type 0
  Accepts force path =
      (from ≡ to)
      ⊎ All (λ b. blocked_covers b from to ≡ false) path.blocked_upgrades
        × ((force ≡ true) ⊎ FirstIsRecommended path.edges)

  check_blocked_iff :
      (rules : List BlockedUpgrade)
      → (check_blocked from to rules ≡ ok tt) ↔ All (λ b. blocked_covers b from to ≡ false) rules
  unfolding check_blocked
  check_blocked_iff [] = (λ _. tt, λ _. refl)
  check_blocked_iff (b ∷ rules) =
      (λ h. ground (arith, check_blocked_iff rules), λ h. ground (arith, check_blocked_iff rules))

  check_edges-forced :
      (edges : List GraphEdge) → (found : Bool) × (check_edges true from to edges ≡ ok found)
  unfolding check_edges
  check_edges-forced [] = (false, refl)
  check_edges-forced (e ∷ edges) = elim (Bool-cases (edge_covers e from to)) [
    | inl h ↦ (true, ground arith)
    | inr h ↦ let (found, eq) = check_edges-forced edges in (found, ground arith)
  ]

  check_edges-unforced :
      (edges : List GraphEdge)
      → check_edges false from to edges ≡ ok true
      → FirstIsRecommended edges
  unfolding check_edges
  check_edges-unforced [] h = cc
  check_edges-unforced (e ∷ edges) h = elim (Bool-cases (edge_covers e from to)) [
    | inl c ↦ ([], e, edges, refl, tt, c, ground arith)
    | inr c ↦
        let (before, edge, after, split, none_before, covered, good) =
          check_edges-unforced edges (ground arith) in
        (e ∷ before, edge, after, ap (λ l. e ∷ l) split, (c, none_before), covered, good)
  ]

  FirstIsRecommended-found :
      (before : List GraphEdge) (edge : GraphEdge) (after : List GraphEdge)
      → All (λ e. edge_covers e from to ≡ false) before
      → edge_covers edge from to ≡ true
      → edge.recommended ≡ true
      → check_edges false from to (before ++ edge ∷ after) ≡ ok true
  unfolding check_edges
  FirstIsRecommended-found [] edge after none_before c r = ground arith
  FirstIsRecommended-found (e ∷ before) edge after none_before c r =
      rw none_before.0 (FirstIsRecommended-found before edge after none_before.1 c r)

  check_edges-unforced-true :
      (edges : List GraphEdge)
      → FirstIsRecommended edges
      → check_edges false from to edges ≡ ok true
  check_edges-unforced-true edges (before, edge, after, split, none_before, covered, good) =
      rw split (FirstIsRecommended-found before edge after none_before covered good)

module _ (path : UpgradePathSpec) (from : Text) (update : Update) where
  check_path-Accepts :
      check_path path from update ≡ ok tt → Accepts from update.version update.force path
  unfolding check_path
  check_path-Accepts h = elim (Bool-cases (from == update.version)) [
    | inl same ↦ inl ((==_iff from update.version).0 same)
    | inr other ↦ elim (Bool-cases update.force) [
      | inl forced ↦
          let (found, eq) = check_edges-forced from update.version path.edges in
          inr (
            ground (arith, check_blocked_iff from update.version path.blocked_upgrades),
            inl forced,
          )
      | inr free ↦ inr (
        ground (arith, check_blocked_iff from update.version path.blocked_upgrades),
        inr (check_edges-unforced from update.version path.edges (ground arith)),
      )
    ]
  ]

  Accepts-check_path :
      Accepts from update.version update.force path → check_path path from update ≡ ok tt
  unfolding check_path
  Accepts-check_path (inl same) = ground (arith, ==_iff from update.version)
  Accepts-check_path (inr (clear, inl forced)) =
      let (found, eq) = check_edges-forced from update.version path.edges in
      ground (arith, check_blocked_iff from update.version path.blocked_upgrades)
  Accepts-check_path (inr (clear, inr first)) =
      let (found, eq) = check_edges-forced from update.version path.edges in
      ground (
        arith,
        check_blocked_iff from update.version path.blocked_upgrades,
        check_edges-unforced-true from update.version path.edges first,
      )

-- With an upgrade path at hand and a version asked for, validation passes exactly when the version
-- stays the same, or no blocking rule covers the change and it is forced or the first edge that
-- covers it is recommended.
pub validate_upgrade_path_iff :
    (path : UpgradePathSpec) (from : Text) (update : Update)
    → update.version ≢ []
    → (validate_upgrade_path (ok path) from (some update) ≡ ok tt)
      ↔ Accepts from update.version update.force path
unfolding validate_upgrade_path
validate_upgrade_path_iff path from update asked = (
  λ h. check_path-Accepts path from update (ground arith),
  λ a. ground (arith, Accepts-check_path path from update a),
)
