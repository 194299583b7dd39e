-- ===== src/UpgradePath/Samples.antt =====
-- A small upgrade path, and what the program does with it.
use cluster_api_provider_bar.Prelude.{
  Text, ◌≡◌, ◌≢◌, ◌↔◌, refl, inl, true, false, some, List, [], ◌∷◌, ok, err, codes, In, arith,
  text_beq, text_eq,
}
use cluster_api_provider_bar.Prelude.Sorting.{sort_by, IsSortedBy}
use cluster_api_provider_bar.Version.{match_version}
use cluster_api_provider_bar.Api.{GraphEdge, UpgradePathSpec, ReleaseEntry, Release, Update}
use cluster_api_provider_bar.UpgradePath.{
  blocked, no_valid_path, not_recommended, edge_covers, blocked_covers, text_less, offer, collect,
  release_less, validate_upgrade_path, compute_available_updates,
}
use cluster_api_provider_bar.UpgradePath.Acceptance.{Accepts, validate_upgrade_path_iff}
use cluster_api_provider_bar.UpgradePath.Updates.{
  IsOffered, HasOffer, compute_available_updates_lem, offered-has_path,
}

abbrev path : UpgradePathSpec
path = record {
  image = codes "up";
  edges =
      record { from = codes "v1.30.*"; to = codes "v1.31.1"; recommended = true }
      ∷ record { from = codes "v1.30.*"; to = codes "v1.31.0"; recommended = false }
      ∷ [];
  blocked_upgrades = record { from = codes "v1.30.0"; to = codes "v1.31.1"; reason = "etcd" } ∷ [];
}

abbrev releases : List ReleaseEntry
releases =
    record { version = codes "v1.31.1"; image = codes "b" }
    ∷ record { version = codes "v1.31.0"; image = codes "a" }
    ∷ []

abbrev to_version : Text → Update
to_version v = record { version = v; image = []; force = false }

abbrev offered : List Release
offered =
    record { version = codes "v1.31.0"; image = codes "a" }
    ∷ record { version = codes "v1.31.1"; image = codes "b" }
    ∷ []

program : Unit {0}
unfolding validate_upgrade_path compute_available_updates edge_covers blocked_covers match_version
    text_beq text_less offer collect release_less sort_by
program = tt

validate-runs :
    (validate_upgrade_path (ok path) (codes "v1.30.2") (some (to_version (codes "v1.31.1")))
      ≡ ok tt)
    × (validate_upgrade_path (ok path) (codes "v1.30.2") (some (to_version (codes "v1.31.0")))
        ≡ err not_recommended)
    × (validate_upgrade_path (ok path) (codes "v1.30.0") (some (to_version (codes "v1.31.1")))
        ≡ err (blocked "etcd"))
    × (validate_upgrade_path (ok path) (codes "v1.29.0") (some (to_version (codes "v1.31.1")))
        ≡ err no_valid_path)
unfolding program
validate-runs = (refl, refl, refl, refl)

compute-runs : compute_available_updates (ok path) (ok releases) (codes "v1.30.0") ≡ ok offered
unfolding program
compute-runs = refl

validate_upgrade_path_iff_example :
    (validate_upgrade_path (ok path) (codes "v1.30.2") (some (to_version (codes "v1.31.1")))
      ≡ ok tt)
    ↔ Accepts (codes "v1.30.2") (codes "v1.31.1") false path
validate_upgrade_path_iff_example =
    validate_upgrade_path_iff path (codes "v1.30.2") (to_version (codes "v1.31.1"))
      (λ e. ground arith)

compute_available_updates_lem_example :
    IsSortedBy release_less offered
    × ((u : Release) → In u offered → IsOffered (codes "v1.30.0") path.edges releases u)
    × ((edge : GraphEdge) (entry : ReleaseEntry)
        → In edge path.edges
        → In entry releases
        → match_version edge.from (codes "v1.30.0") ≡ true
        → match_version edge.to entry.version ≡ true
        → HasOffer edge offered)
compute_available_updates_lem_example =
    compute_available_updates_lem path releases (codes "v1.30.0") offered compute-runs

offered-has_path_example :
    validate_upgrade_path
      (ok path)
      (codes "v1.30.0")
      (some (record { version = codes "v1.31.0"; image = codes "a"; force = false }))
    ≢ err no_valid_path
offered-has_path_example =
    offered-has_path path releases (codes "v1.30.0") offered
      (record { version = codes "v1.31.0"; image = codes "a" }) false compute-runs (inl refl)
