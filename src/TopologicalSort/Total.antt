-- ===== src/TopologicalSort/Total.antt =====
-- The traversal ends, and visits each name once.
use cluster_api_provider_bar.Prelude.{
  and_then-eq-some, ℕ, zero, suc, ◌≤◌, ◌<◌, String, ◌≡◌, refl, Bool, true, false, ◌||◌, Option,
  some, List, [], ◌∷◌, ◌++◌, arith, ==_iff, string_eq, if◌then◌else◌, contains, length, Bool-cases,
  ◌⊎◌, inl, inr, In, contains_iff, contains-append, subst, ◌∙◌,
}
use cluster_api_provider_bar.TopologicalSort.{
  DepGraph, deps_of, Marks, unmarked, enter, leave, each, visit, enough, topological_sort,
}
use cluster_api_provider_bar.TopologicalSort.Marking.{
  Keeps, Keeps-refl, Keeps-trans, Keeps-leave, visit_ind, each_ind, visit-Keeps, each-Keeps,
  visit-visited,
}

abbrev marked : Marks → String → Bool
marked s x = contains s.visited x || contains s.in_progress x

-- How many entries of the graph have an unmarked name.
count_free : DepGraph → Marks → ℕ
count_free [] s = 0
count_free ((key, deps) ∷ graph) s =
    if marked s key then count_free graph s else suc (count_free graph s)

count_free-le : (graph : DepGraph) (s : Marks) → count_free graph s ≤ length graph
unfolding count_free
count_free-le [] s = omega arith
count_free-le ((key, deps) ∷ graph) s = ground (arith, count_free-le graph s)

count_free_mono :
    (graph : DepGraph) (s s' : Marks)
    → ((x : String) → marked s x ≡ true → marked s' x ≡ true)
    → count_free graph s' ≤ count_free graph s
unfolding count_free
count_free_mono [] s s' h = omega arith
count_free_mono ((key, deps) ∷ graph) s s' h = ground (arith, count_free_mono graph s s' h, h key)

-- Entering an unmarked name that has dependencies leaves fewer.
count_free-enter :
    (graph : DepGraph) (name : String) (s : Marks)
    → marked s name ≡ false
    → (deps_of graph name ≡ []) ⊎ (count_free graph (enter name s) < count_free graph s)
unfolding count_free deps_of
count_free-enter [] name s free = inl refl
count_free-enter ((key, deps) ∷ graph) name s free = ground (
  arith,
  count_free-enter graph name s free,
  ==_iff key name,
  ==_iff name key,
  count_free_mono graph s (enter name s) (λ (x : String) h. ground (arith, h)),
)

marked-Keeps : {s s' : Marks} → Keeps s s' → (x : String) → marked s x ≡ true → marked s' x ≡ true
marked-Keeps k x h = ground (arith, k.progress x, k.more x)

module _ (graph : DepGraph) where
  abbrev Returns : (String → Marks → Option Marks) → ℕ → Type 0
  Returns f fuel =
      (name : String) (s : Marks) → count_free graph s < fuel → (s' : Marks) × (f name s ≡ some s')

  each_total :
      (fuel : ℕ)
      → Returns (visit graph fuel) fuel
      → (names : List String) (s : Marks) → count_free graph s < fuel
      → (s' : Marks) × (each (visit graph fuel) names s ≡ some s')
  unfolding each
  each_total fuel one [] s h = (s, refl)
  each_total fuel one (name ∷ names) s h =
      let (t, first) = one name s h in
      let k = visit-Keeps graph fuel name s t first in
      let (s', rest) =
        each_total fuel one names t (omega (arith, count_free_mono graph s t (marked-Keeps k))) in
      (s', rw first rest)

  visit_total : (fuel : ℕ) → Returns (visit graph fuel) fuel
  unfolding visit
  visit_total zero name s h = absurd (omega arith)
  visit_total (suc fuel) name s h = elim (Bool-cases (contains s.visited name)) [
    | inl old ↦ (s, ground arith)
    | inr new ↦ elim (Bool-cases (contains s.in_progress name)) [
      | inl busy ↦ (s, ground arith)
      | inr free ↦ elim (count_free-enter graph name s (ground arith)) [
        | inl leaf ↦ (leave name (enter name s), unfold each in rw (new, free, leaf))
        | inr less ↦
            let (t, down) =
              each_total fuel (visit_total fuel) (deps_of graph name) (enter name s)
                (omega arith) in
            (leave name t, rw (new, free, down))
      ]
    ]
  ]

-- With one more unit of fuel than the graph has entries the sort returns, whatever the graph, with
-- cycles or without, and in whatever order its keys are visited.
pub topological_sort_total :
    (graph : DepGraph) (order : List String)
    → (sorted : List String) × (topological_sort graph order ≡ some sorted)
unfolding topological_sort
topological_sort_total graph order =
    let (s, run) =
      each_total graph (enough graph) (visit_total graph (enough graph)) order unmarked
        (omega (arith, count_free-le graph unmarked)) in
    (s.result, rw run)

-- No name stands twice.
abbrev pub IsDistinct : List String → Type 0
IsDistinct [] = Unit
IsDistinct (x ∷ xs) = (contains xs x ≡ false) × IsDistinct xs

IsDistinct-snoc :
    (xs : List String) (a : String)
    → IsDistinct xs
    → contains xs a ≡ false
    → IsDistinct (xs ++ a ∷ [])
IsDistinct-snoc [] a d h = (refl, tt)
IsDistinct-snoc (x ∷ xs) a d h = (
  ground (arith, contains-append xs (a ∷ []) x, ==_iff x a, ==_iff a x),
  IsDistinct-snoc xs a d.1 (ground arith),
)

-- The result holds the visited names, each once.
pub record IsListed (s : Marks) : Type 0 where
  pub distinct : IsDistinct s.result
  pub same : (x : String) → contains s.result x ≡ contains s.visited x

record Lists (s s' : Marks) : Type 0 where
  keeps : Keeps s s'
  listed : IsListed s → IsListed s'

pub leave-IsListed :
    (name : String) (s : Marks)
    → contains s.visited name ≡ false
    → IsListed s
    → IsListed (leave name s)
leave-IsListed name s new l = record {
  distinct = IsDistinct-snoc s.result name l.distinct (ground (arith, l.same name));
  same = λ x. ground (arith, contains-append s.result (name ∷ []) x, l.same x);
}

pub each-IsListed :
    (graph : DepGraph) (fuel : ℕ) (names : List String) (s s' : Marks)
    → each (visit graph fuel) names s ≡ some s'
    → IsListed s
    → IsListed s'
each-IsListed graph fuel names s s' h =
    (each_ind stay chain (visit graph fuel) (visit_ind stay chain around graph fuel) names s s'
      h).listed
  where
    stay : (s : Marks) → Lists s s
    stay s = record { keeps = Keeps-refl s; listed = λ l. l }

    chain : (s t u : Marks) → Lists s t → Lists t u → Lists s u
    chain s t u a b = record {
      keeps = Keeps-trans a.keeps b.keeps;
      listed = λ l. b.listed (a.listed l);
    }

    around :
        (name : String) (s s' : Marks)
        → contains s.visited name ≡ false
        → contains s.in_progress name ≡ false
        → Lists (enter name s) s'
        → Lists s (leave name s')
    around name s s' new free down = record {
      keeps = Keeps-leave free down.keeps;
      listed = λ l.
          leave-IsListed name s' (down.keeps.held name (ground (arith, ==_iff name name)) ∙ new)
            (down.listed (record { distinct = l.distinct; same = l.same }));
    }

pub each-visited :
    (graph : DepGraph) (fuel : ℕ) (names : List String) (s s' : Marks)
    → each (visit graph fuel) names s ≡ some s'
    → ((x : String) → contains s.in_progress x ≡ false)
    → (name : String) → In name names
    → contains s'.visited name ≡ true
unfolding each
each-visited graph fuel [] s s' h idle name i = absurd i
each-visited graph fuel (n ∷ names) s s' h idle name i =
    let (t, first, rest) =
      and_then-eq-some (visit graph fuel n s) (each (visit graph fuel) names) h in
    let k = visit-Keeps graph fuel n s t first in
    elim i [
      | inl same ↦ (each-Keeps graph fuel names t s' rest).more name (
          subst (λ (x : String). contains t.visited x ≡ true) same
            (visit-visited graph fuel n s t first (idle n)))
      | inr i' ↦ each-visited graph fuel names t s' rest (λ x. k.progress x ∙ idle x) name i'
    ]

-- The sorted names are distinct, and every key that the iteration visits is among them.
pub topological_sort-IsDistinct :
    (graph : DepGraph) (order sorted : List String)
    → topological_sort graph order ≡ some sorted
    → IsDistinct sorted × ((name : String) → In name order → In name sorted)
unfolding topological_sort
topological_sort-IsDistinct graph order sorted h =
    let (s, run, out) =
      and_then-eq-some (each (visit graph (enough graph)) order unmarked)
        (λ (s : Marks). some s.result) h in
    let l =
      each-IsListed graph (enough graph) order unmarked s run
        (record { distinct = tt; same = λ x. refl }) in
    let same : s.result ≡ sorted = ground arith in
    (
      subst IsDistinct same l.distinct,
      λ name i. subst (In name) same (
          (contains_iff s.result name).0 (
            l.same name
            ∙ each-visited graph (enough graph) order unmarked s run (λ x. refl) name i)),
    )
