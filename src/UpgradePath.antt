-- ===== src/UpgradePath.antt =====
-- `ValidateUpgradePath` and `ComputeAvailableUpdates` of
-- modules/cvo/internal/upgrader/graph_executor.go. The answers of the API server are arguments.
pub mod Acceptance
pub mod Updates
mod Samples
use cluster_api_provider_bar.Prelude.{
  ℕ, String, Text, Bool, true, false, not, ◌&&◌, Option, none, some, List, [], ◌∷◌, ◌++◌, ltb, ◌==◌,
  if◌then◌else◌, is_empty, text_eq, nat_eq, find?, Result, ok, err, ◌>>=◌, ◌>>◌,
}
use cluster_api_provider_bar.Prelude.Sorting.{sort_by}
use cluster_api_provider_bar.Version.{match_version}
use cluster_api_provider_bar.Api.{
  GraphEdge, BlockedUpgrade, UpgradePathSpec, ReleaseEntry, Release, Update,
}

pub data PathError : Type 0 where
  upgrade_path_unavailable catalog_unavailable not_recommended no_valid_path : PathError
  blocked : String → PathError

unfoldable pub edge_covers : GraphEdge → Text → Text → Bool
edge_covers edge from to = match_version edge.from from && match_version edge.to to

unfoldable pub blocked_covers : BlockedUpgrade → Text → Text → Bool
blocked_covers rule from to = match_version rule.from from && match_version rule.to to

-- The loop over the edges: whether one was found, or the refusal by the first that fits.
check_edges : Bool → Text → Text → List GraphEdge → Result PathError Bool
check_edges force from to [] = ok false
check_edges force from to (edge ∷ edges) =
    if edge_covers edge from to
    then (if not edge.recommended && not force then err not_recommended else ok true)
    else check_edges force from to edges

check_blocked : Text → Text → List BlockedUpgrade → Result PathError (Unit {0})
check_blocked from to [] = ok tt
check_blocked from to (rule ∷ rules) =
    if blocked_covers rule from to then err (blocked rule.reason) else check_blocked from to rules

check_found : Bool → Bool → Result PathError (Unit {0})
check_found found force = if not found && not force then err no_valid_path else ok tt

check_path : UpgradePathSpec → Text → Update → Result PathError (Unit {0})
unfolding check_edges check_blocked check_found
check_path path from update = if from == update.version then ok tt else do
  found ← check_edges update.force from update.version path.edges
  check_found found update.force
  check_blocked from update.version path.blocked_upgrades

-- `desired` is cv.Spec.DesiredUpdate and `from` is cv.Status.ActualVersion.
unfoldable pub validate_upgrade_path :
    Result PathError UpgradePathSpec → Text → Option Update → Result PathError (Unit {0})
unfolding check_path
validate_upgrade_path fetched from none = ok tt
validate_upgrade_path fetched from (some update) =
    if is_empty update.version then ok tt else do path ← fetched; check_path path from update

-- Go's `<` on strings.
unfoldable pub text_less : Text → Text → Bool
text_less xs [] = false
text_less [] (y ∷ ys) = true
text_less (x ∷ xs) (y ∷ ys) = let rest = text_less xs ys in if x == y then rest else ltb x y

-- The inner loop: the first entry that the edge leads to, if there is one, is appended.
unfoldable pub offer : GraphEdge → List ReleaseEntry → List Release
offer edge [] = []
offer edge (entry ∷ entries) =
    if match_version edge.to entry.version
    then record { version = entry.version; image = entry.image } ∷ []
    else offer edge entries

unfoldable pub collect : Text → List ReleaseEntry → List GraphEdge → List Release
collect from entries [] = []
collect from entries (edge ∷ edges) =
    if match_version edge.from from
    then offer edge entries ++ collect from entries edges
    else collect from entries edges

unfoldable pub release_less : Release → Release → Bool
release_less a b = text_less a.version b.version

unfoldable pub compute_available_updates :
    Result PathError UpgradePathSpec
    → Result PathError (List ReleaseEntry)
    → Text
    → Result PathError (List Release)
compute_available_updates fetched_path fetched_catalog from = do
  path ← fetched_path
  releases ← fetched_catalog
  ok (sort_by release_less (collect from releases path.edges))
