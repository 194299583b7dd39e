-- ===== src/TopologicalSort/Order.antt =====
-- In a graph without cycles the sort puts every name behind the names that it depends on.
use mathlib.Core.Bool.{false≢true}
use cluster_api_provider_bar.Prelude.{
  and_then-eq-some, ℕ, zero, suc, ◌<◌, String, ◌≡◌, refl, ◌∙◌, sym, subst, true, false, ◌||◌, some,
  List, [], ◌∷◌, ◌++◌, arith, ◌==◌, ==_iff, string_eq, contains, Bool-cases, inl, inr, All, All-map,
}
use cluster_api_provider_bar.TopologicalSort.{
  DepGraph, deps_of, Marks, unmarked, enter, each, visit, enough, topological_sort,
}
use cluster_api_provider_bar.TopologicalSort.Marking.{
  visit-Keeps, each-Keeps, visit-visited, visit_cases, old, busy, done,
}
use cluster_api_provider_bar.TopologicalSort.Total.{leave-IsListed, IsListed}

module _ (graph : DepGraph) where
  -- Every name of the list depends only on `seen` and on the names before it.
  abbrev pub IsOrdered : List String → List String → Type 0
  IsOrdered seen [] = Unit
  IsOrdered seen (x ∷ xs) =
      All (λ d. contains seen d ≡ true) (deps_of graph x) × IsOrdered (x ∷ seen) xs

  -- A number for each name that falls along the dependencies: the graph has no cycle.
  abbrev pub IsRanked : (String → ℕ) → Type 0
  IsRanked rank = (name : String) → All (λ d. rank d < rank name) (deps_of graph name)

  IsOrdered-snoc :
      (seen xs : List String) (a : String)
      → IsOrdered seen xs
      → All (λ d. contains xs d || contains seen d ≡ true) (deps_of graph a)
      → IsOrdered seen (xs ++ a ∷ [])
  IsOrdered-snoc seen [] a o h = (h, tt)
  IsOrdered-snoc seen (x ∷ xs) a o h =
      (o.0, IsOrdered-snoc (x ∷ seen) xs a o.1 (swap (deps_of graph a) h))
    where
      swap :
          (ds : List String)
          → All (λ d. contains (x ∷ xs) d || contains seen d ≡ true) ds
          → All (λ d. contains xs d || contains (x ∷ seen) d ≡ true) ds
      swap [] h = tt
      swap (d ∷ ds) h = (ground (arith, h.0), swap ds h.1)

  module _ (rank : String → ℕ) (ranked : IsRanked rank) where
    -- The names in progress are those that wait for the name.
    abbrev IsAbove : String → Marks → Type 0
    IsAbove name s = (x : String) → contains s.in_progress x ≡ true → rank name < rank x

    IsAbove-idle :
        (name : String) (s : Marks) → IsAbove name s → contains s.in_progress name ≡ false
    IsAbove-idle name s above = elim (Bool-cases (contains s.in_progress name)) [
      | inl e ↦ absurd (omega (arith, above name e))
      | inr e ↦ e
    ]

    IsAbove-enter :
        (name d : String) (s : Marks)
        → IsAbove name s
        → rank d < rank name
        → IsAbove d (enter name s)
    IsAbove-enter name d s above less x e = elim (Bool-cases (name == x)) [
      | inl same ↦ subst (λ (y : String). rank d < rank y) ((==_iff name x).0 same) less
      | inr other ↦ omega (arith, above x (ground arith))
    ]

    record IsSound (s : Marks) : Type 0 where
      listed : IsListed s
      ordered : IsOrdered [] s.result

    abbrev Sound : ℕ → Type 0
    Sound fuel =
        (name : String) (s s' : Marks)
        → visit graph fuel name s ≡ some s'
        → IsAbove name s
        → IsSound s
        → IsSound s'

    -- After the loop over the dependencies all of them are visited.
    each-IsSound :
        (fuel : ℕ)
        → Sound fuel
        → (names : List String) (s s' : Marks) → each (visit graph fuel) names s ≡ some s'
        → All (λ d. IsAbove d s) names
        → IsSound s
        → IsSound s' × All (λ d. contains s'.visited d ≡ true) names
    unfolding each
    each-IsSound fuel one [] s s' h above v = (ground arith, tt)
    each-IsSound fuel one (n ∷ names) s s' h above v =
        let (t, first, rest) =
          and_then-eq-some (visit graph fuel n s) (each (visit graph fuel) names) h in
        let k = visit-Keeps graph fuel n s t first in
        let (v', seen) =
          each-IsSound fuel one names t s' rest
            (All-map (λ d. IsAbove d s) (λ d. IsAbove d t) names
              (λ d a x e. a x (sym (k.progress x) ∙ e)) above.1)
            (one n s t first above.0 v) in
        (
          v',
          (
            (each-Keeps graph fuel names t s' rest).more n
                (visit-visited graph fuel n s t first (IsAbove-idle n s above.0)),
            seen,
          ),
        )

    visit-IsSound : (fuel : ℕ) → Sound fuel
    unfolding visit
    visit-IsSound zero name s s' h above v = cc
    visit-IsSound (suc fuel) name s s' h above v = elim (visit_cases graph fuel name s s' h) [
      | old _ same ↦ subst IsSound same v
      | busy _ same ↦ subst IsSound same v
      | done new free t run left ↦
          let lower =
            All-map (λ d. rank d < rank name) (λ d. IsAbove d (enter name s)) (deps_of graph name)
              (λ d. IsAbove-enter name d s above) (ranked name) in
          let start : IsSound (enter name s) = record {
            listed = record { distinct = v.listed.distinct; same = v.listed.same };
            ordered = v.ordered;
          } in
          let (v', seen) =
            each-IsSound fuel (visit-IsSound fuel) (deps_of graph name) (enter name s) t run lower
              start in
          let k = each-Keeps graph fuel (deps_of graph name) (enter name s) t run in
          let unseen : contains t.visited name ≡ false =
            k.held name (ground (arith, ==_iff name name)) ∙ new in
          subst IsSound left (record {
            listed = leave-IsListed name t unseen v'.listed;
            ordered = IsOrdered-snoc [] t.result name v'.ordered (
                All-map (λ d. contains t.visited d ≡ true)
                  (λ d. contains t.result d || contains [] d ≡ true) (deps_of graph name)
                  (λ d e. ground (arith, v'.listed.same d)) seen);
          })
    ]

    order-IsSound :
        (fuel : ℕ) (names : List String) (s s' : Marks)
        → each (visit graph fuel) names s ≡ some s'
        → ((x : String) → contains s.in_progress x ≡ false)
        → IsSound s
        → IsSound s'
    order-IsSound fuel names s s' h idle v =
        (each-IsSound fuel (visit-IsSound fuel) names s s' h (above names) v).0
      where
        above : (ns : List String) → All (λ d. IsAbove d s) ns
        above [] = tt
        above (n ∷ ns) = (λ x e. absurd (false≢true (sym (idle x) ∙ e)), above ns)

-- If a number can be given to each name that falls along every dependency, so that the graph has no
-- cycle, every sorted name stands behind all the names that it depends on.
pub topological_sort-IsOrdered :
    (graph : DepGraph) (order sorted : List String) (rank : String → ℕ)
    → IsRanked graph rank
    → topological_sort graph order ≡ some sorted
    → IsOrdered graph [] sorted
unfolding topological_sort
topological_sort-IsOrdered graph order sorted rank ranked h =
    let (s, run, out) =
      and_then-eq-some (each (visit graph (enough graph)) order unmarked)
        (λ (s : Marks). some s.result) h in
    let start : IsSound graph rank ranked unmarked = record {
      listed = record { distinct = tt; same = λ x. refl };
      ordered = tt;
    } in
    let same : s.result ≡ sorted = ground arith in
    subst (IsOrdered graph []) same
      (order-IsSound graph rank ranked (enough graph) order unmarked s run (λ x. refl)
        start).ordered
