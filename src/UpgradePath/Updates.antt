-- ===== src/UpgradePath/Updates.antt =====
-- What `ComputeAvailableUpdates` offers.
use cluster_api_provider_bar.Prelude.{
  Text, ◌≡◌, refl, ap, ◌↔◌, ◌⊎◌, inl, inr, ◌≢◌, Bool, true, false, some, List, [], ◌∷◌, arith,
  subst, In-append, text_eq, nat_eq, ok, err, In, Bool-cases,
}
use cluster_api_provider_bar.Prelude.Sorting.{sort_by, In-sort_by, IsSortedBy, sort_by-IsSortedBy}
use cluster_api_provider_bar.Version.{match_version}
use cluster_api_provider_bar.Api.{GraphEdge, UpgradePathSpec, ReleaseEntry, Release, BlockedUpgrade}
use cluster_api_provider_bar.UpgradePath.{
  no_valid_path, text_less, offer, collect, release_less, compute_available_updates, edge_covers,
  check_edges, check_blocked, check_path, check_found, validate_upgrade_path,
}

text_less_asym : (a b : Text) → text_less a b ≡ true → text_less b a ≡ false
unfolding text_less
text_less_asym a [] h = cc
text_less_asym [] (y ∷ ys) h = refl
text_less_asym (x ∷ xs) (y ∷ ys) h = ground (arith, text_less_asym xs ys)

release_less_asym : (a b : Release) → release_less a b ≡ true → release_less b a ≡ false
unfolding release_less
release_less_asym a b = text_less_asym a.version b.version

abbrev pub release_of : ReleaseEntry → Release
release_of entry = record { version = entry.version; image = entry.image }

-- `u` is the release of an entry that an edge from `from` leads to.
abbrev pub IsOffered : Text → List GraphEdge → List ReleaseEntry → Release → Type 0
IsOffered from edges entries u =
    (edge : GraphEdge) × (entry : ReleaseEntry) × In edge edges
    × In entry entries
    × (match_version edge.from from ≡ true)
    × (match_version edge.to entry.version ≡ true)
    × (u ≡ release_of entry)

-- Some listed release has a version that the edge leads to.
abbrev pub HasOffer : GraphEdge → List Release → Type 0
HasOffer edge us = (u : Release) × In u us × (match_version edge.to u.version ≡ true)

offer_sound :
    (edge : GraphEdge) (entries : List ReleaseEntry) (u : Release)
    → In u (offer edge entries)
    → (entry : ReleaseEntry) × In entry entries
      × (match_version edge.to entry.version ≡ true)
      × (u ≡ release_of entry)
unfolding offer
offer_sound edge [] u i = absurd i
offer_sound edge (e ∷ entries) u i = elim (Bool-cases (match_version edge.to e.version)) [
  | inl m ↦ (e, inl refl, m, ground arith)
  | inr m ↦
      let (entry, there, match', same) = offer_sound edge entries u (rw m at i) in
      (entry, inr there, match', same)
]

offer_complete :
    (edge : GraphEdge) (entries : List ReleaseEntry) (entry : ReleaseEntry)
    → In entry entries
    → match_version edge.to entry.version ≡ true
    → HasOffer edge (offer edge entries)
unfolding offer
offer_complete edge [] entry i m = absurd i
offer_complete edge (e ∷ entries) entry i m = elim (Bool-cases (match_version edge.to e.version)) [
  | inl h ↦ (release_of e, ground arith, h)
  | inr h ↦ rw h (offer_complete edge entries entry (ground arith) m)
]

module _ (from : Text) (entries : List ReleaseEntry) where
  In-collect :
      (e : GraphEdge) (edges : List GraphEdge) (u : Release)
      → In u (collect from entries (e ∷ edges)) ↔ (
          (match_version e.from from ≡ true) × In u (offer e entries)
          ⊎ In u (collect from entries edges))
  unfolding collect
  In-collect e edges u = (
    λ i. ground (arith, In-append u (offer e entries) (collect from entries edges)),
    λ i. ground (arith, In-append u (offer e entries) (collect from entries edges)),
  )

  collect_sound :
      (edges : List GraphEdge) (u : Release)
      → In u (collect from entries edges)
      → IsOffered from edges entries u
  unfolding collect
  collect_sound [] u i = absurd i
  collect_sound (e ∷ edges) u i = elim ((In-collect e edges u).0 i) [
    | inl (leaves, here) ↦
        let (entry, listed, leads, same) = offer_sound e entries u here in
        (e, entry, inl refl, listed, leaves, leads, same)
    | inr more ↦
        let (edge, entry, i', listed, leaves, leads, same) = collect_sound edges u more in
        (edge, entry, inr i', listed, leaves, leads, same)
  ]

  collect_complete :
      (edges : List GraphEdge) (edge : GraphEdge) (entry : ReleaseEntry)
      → In edge edges
      → In entry entries
      → match_version edge.from from ≡ true
      → match_version edge.to entry.version ≡ true
      → HasOffer edge (collect from entries edges)
  unfolding collect
  collect_complete [] edge entry i j m n = absurd i
  collect_complete (e ∷ edges) edge entry (inl same) j m n =
      let (u, there, leads) = offer_complete edge entries entry j n in
      (u, (In-collect e edges u).1 (inl (rw same m, rw same there)), leads)
  collect_complete (e ∷ edges) edge entry (inr i) j m n =
      let (u, there, leads) = collect_complete edges edge entry i j m n in
      (u, (In-collect e edges u).1 (inr there), leads)

-- The updates that are computed are sorted by version; each is a release of the catalogue that an
-- edge from the current version leads to; and whenever an edge from the current version leads to
-- some release of the catalogue, an update that this edge leads to is among them.
pub compute_available_updates_lem :
    (path : UpgradePathSpec) (entries : List ReleaseEntry) (from : Text) (us : List Release)
    → compute_available_updates (ok path) (ok entries) from ≡ ok us
    → IsSortedBy release_less us
      × ((u : Release) → In u us → IsOffered from path.edges entries u)
      × ((edge : GraphEdge) (entry : ReleaseEntry)
          → In edge path.edges
          → In entry entries
          → match_version edge.from from ≡ true
          → match_version edge.to entry.version ≡ true
          → HasOffer edge us)
unfolding compute_available_updates
compute_available_updates_lem path entries from us h =
    let found = collect from entries path.edges in
    let same : sort_by release_less found ≡ us = ground arith in
    (
      subst (IsSortedBy release_less) same
          (sort_by-IsSortedBy release_less release_less_asym found),
      λ u i.
          collect_sound from entries path.edges u
            ((In-sort_by release_less u found).0 (rw (← same) at i)),
      λ edge entry i j m n.
          let (u, there, leads) = collect_complete from entries path.edges edge entry i j m n in
          (u, subst (In u) same ((In-sort_by release_less u found).1 there), leads),
    )

covered-found :
    (force : Bool) (from to : Text) (edges : List GraphEdge) (edge : GraphEdge)
    → In edge edges
    → edge_covers edge from to ≡ true
    → check_edges force from to edges ≢ ok false
unfolding check_edges
covered-found force from to [] edge i c = absurd i
covered-found force from to (e ∷ edges) edge (inl same) c =
    ground (arith, ap (λ (x : GraphEdge). edge_covers x from to) same)
covered-found force from to (e ∷ edges) edge (inr i) c =
    ground (arith, covered-found force from to edges edge i c)

check_edges-ne-no_valid_path :
    (force : Bool) (from to : Text) (edges : List GraphEdge)
    → check_edges force from to edges ≢ err no_valid_path
unfolding check_edges
check_edges-ne-no_valid_path force from to [] = ground arith
check_edges-ne-no_valid_path force from to (e ∷ edges) =
    ground (arith, check_edges-ne-no_valid_path force from to edges)

check_blocked-ne-no_valid_path :
    (from to : Text) (rules : List BlockedUpgrade) → check_blocked from to rules ≢ err no_valid_path
unfolding check_blocked
check_blocked-ne-no_valid_path from to [] = ground arith
check_blocked-ne-no_valid_path from to (b ∷ rules) =
    ground (arith, check_blocked-ne-no_valid_path from to rules)

-- Validation never refuses an update that was offered for having no valid path, forced or not.
pub offered-has_path :
    (path : UpgradePathSpec) (entries : List ReleaseEntry) (from : Text) (us : List Release)
    (u : Release) (force : Bool)
    → compute_available_updates (ok path) (ok entries) from ≡ ok us
    → In u us
    → validate_upgrade_path
        (ok path)
        from
        (some (record { version = u.version; image = u.image; force = force }))
      ≢ err no_valid_path
unfolding validate_upgrade_path check_path check_found edge_covers
offered-has_path path entries from us u force h i =
    let (sorted, sound, complete) = compute_available_updates_lem path entries from us h in
    let (edge, entry, i', listed, leaves, leads, same) = sound u i in
    ground (
      arith,
      covered-found force from u.version path.edges edge i' (ground arith),
      check_edges-ne-no_valid_path force from u.version path.edges,
      check_blocked-ne-no_valid_path from u.version path.blocked_upgrades,
    )
