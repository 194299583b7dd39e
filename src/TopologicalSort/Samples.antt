-- ===== src/TopologicalSort/Samples.antt =====
-- Small graphs, and what the sort makes of them.
use cluster_api_provider_bar.Prelude.{
  ℕ, ◌<◌, subst, String, ◌≡◌, refl, some, List, [], ◌∷◌, arith, In, inl, inr, if◌then◌else◌, ◌==◌,
  string_eq, ==_iff, Bool-cases, All,
}
use cluster_api_provider_bar.TopologicalSort.{DepGraph, deps_of, topological_sort}
use cluster_api_provider_bar.TopologicalSort.Total.{
  topological_sort_total, topological_sort-IsDistinct, IsDistinct,
}
use cluster_api_provider_bar.TopologicalSort.Order.{IsRanked, IsOrdered, topological_sort-IsOrdered}

abbrev chain : DepGraph
chain = ("app", "db" ∷ "net" ∷ []) ∷ ("db", "net" ∷ []) ∷ ("net", []) ∷ []

abbrev chain_order : List String
chain_order = "app" ∷ "net" ∷ "db" ∷ []

abbrev cycle : DepGraph
cycle = ("a", "b" ∷ []) ∷ ("b", "a" ∷ []) ∷ []

chain-sorted : topological_sort chain chain_order ≡ some ("net" ∷ "db" ∷ "app" ∷ [])
unfolding topological_sort deps_of
chain-sorted = refl

cycle-sorted : topological_sort cycle ("a" ∷ "b" ∷ []) ≡ some ("b" ∷ "a" ∷ [])
unfolding topological_sort deps_of
cycle-sorted = refl

topological_sort_total_example :
    (sorted : List String) × (topological_sort cycle ("a" ∷ "b" ∷ []) ≡ some sorted)
topological_sort_total_example = topological_sort_total cycle ("a" ∷ "b" ∷ [])

topological_sort-IsDistinct_example :
    IsDistinct ("b" ∷ "a" ∷ [])
    × ((name : String) → In name ("a" ∷ "b" ∷ []) → In name ("b" ∷ "a" ∷ []))
topological_sort-IsDistinct_example =
    topological_sort-IsDistinct cycle ("a" ∷ "b" ∷ []) ("b" ∷ "a" ∷ []) cycle-sorted

depth : String → ℕ
depth name = if name == "app" then 2 else if name == "db" then 1 else 0

abbrev RankedAt : String → Type 0
RankedAt name = All (λ d. depth d < depth name) (deps_of chain name)

chain-IsRanked : IsRanked chain depth
unfolding depth deps_of
chain-IsRanked name = elim (Bool-cases ("app" == name)) [
  | inl e ↦ subst RankedAt ((==_iff "app" name).0 e) (omega arith)
  | inr e ↦ elim (Bool-cases ("db" == name)) [
    | inl e' ↦ subst RankedAt ((==_iff "db" name).0 e') (omega arith)
    | inr e' ↦ rw (e, e') (ground arith)
  ]
]

topological_sort-IsOrdered_example : IsOrdered chain [] ("net" ∷ "db" ∷ "app" ∷ [])
topological_sort-IsOrdered_example =
    topological_sort-IsOrdered chain chain_order ("net" ∷ "db" ∷ "app" ∷ []) depth chain-IsRanked
      chain-sorted
