-- ===== src/Rolling/Samples.antt =====
-- Three nodes that are upgraded two at a time.
use cluster_api_provider_bar.Prelude.{ℕ, ◌+◌, String, ◌≡◌, refl, some, List, [], ◌∷◌, All, ok}
use cluster_api_provider_bar.Prelude.Integers.{pos, negsuc}
use cluster_api_provider_bar.Effects.{Action}
use cluster_api_provider_bar.Rolling.{new_rolling_upgrade_coordinator, batches_from, create_batches}
use cluster_api_provider_bar.Rolling.Batches.{concat, IsBatch, create_batches-IsBatch}

abbrev nodes : List String
nodes = "a" ∷ "b" ∷ "c" ∷ []

abbrev in_order : List String → List String
in_order batch = batch

-- The world counts the calls.
abbrev counted : String → Action String ℕ (Unit {0})
counted node w = (ok tt, w + 1)

nodes-batched :
    create_batches (new_rolling_upgrade_coordinator (pos 2) (negsuc 0)) nodes
    ≡ some (("a" ∷ "b" ∷ []) ∷ ("c" ∷ []) ∷ [])
unfolding batches_from create_batches new_rolling_upgrade_coordinator
nodes-batched = refl

create_batches-IsBatch_example :
    (batches : List (List String)) × (create_batches
        (new_rolling_upgrade_coordinator (pos 2) (negsuc 0))
        nodes
      ≡ some batches)
    × (concat batches ≡ nodes)
    × All (IsBatch (new_rolling_upgrade_coordinator (pos 2) (negsuc 0)).max_unavailable) batches
create_batches-IsBatch_example = create_batches-IsBatch (pos 2) (negsuc 0) nodes
