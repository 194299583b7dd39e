-- ===== src/Conditions/Lookup.antt =====
-- Reading conditions after one was set.
use cluster_api_provider_bar.Prelude.{
  String, ◌≡◌, ◌↔◌, refl, true, Option, none, some, List, [], ◌∷◌, arith, ◌==◌, ==_iff, string_eq,
  if◌then◌else◌, All, In, inl, inr, ap, ◌∙◌, ◌&&◌, Bool-cases,
}
use cluster_api_provider_bar.Conditions.{
  Condition, ConditionStatus, is_true, is_false, is_unknown, has_true, set_condition, Node,
  node_ready, first_not_ready,
}

unfoldable pub find_condition : String → List Condition → Option Condition
find_condition type [] = none
find_condition type (c ∷ conditions) =
    if c.type == type then some c else find_condition type conditions

-- No two conditions have one type.
abbrev pub HasDistinctTypes : List Condition → Type 0
HasDistinctTypes [] = Unit
HasDistinctTypes (c ∷ conditions) =
    (find_condition c.type conditions ≡ none) × HasDistinctTypes conditions

find_condition-set_condition :
    (c : Condition) (conditions : List Condition) (type : String)
    → find_condition type (set_condition c conditions)
      ≡ (if c.type == type then some c else find_condition type conditions)
unfolding find_condition set_condition
find_condition-set_condition c [] type = refl
find_condition-set_condition c (d ∷ conditions) type = ground (
  arith,
  find_condition-set_condition c conditions type,
  ==_iff d.type c.type,
  ==_iff d.type type,
  ==_iff c.type type,
)

set_condition-HasDistinctTypes :
    (c : Condition) (conditions : List Condition)
    → HasDistinctTypes conditions
    → HasDistinctTypes (set_condition c conditions)
unfolding set_condition
set_condition-HasDistinctTypes c [] h = (unfold find_condition in refl, tt)
set_condition-HasDistinctTypes c (d ∷ conditions) h = ground (
  arith,
  set_condition-HasDistinctTypes c conditions h.1,
  find_condition-set_condition c conditions d.type,
  ==_iff d.type c.type,
  ==_iff c.type d.type,
)

-- After a condition was set, its type reads as that condition and every other type as before; and
-- if no two conditions had one type, no two have afterwards.
pub set_condition_lem :
    (c : Condition) (conditions : List Condition)
    → HasDistinctTypes conditions
    → HasDistinctTypes (set_condition c conditions)
      × ((type : String)
          → find_condition type (set_condition c conditions)
            ≡ (if c.type == type then some c else find_condition type conditions))
set_condition_lem c conditions h =
    (set_condition-HasDistinctTypes c conditions h, find_condition-set_condition c conditions)

has_true-eq : (status : ConditionStatus) → has_true status ≡ true → status ≡ is_true
has_true-eq is_true h = refl
has_true-eq is_false h = ground (arith, h)
has_true-eq is_unknown h = ground (arith, h)

has_true_of : (status : ConditionStatus) → status ≡ is_true → has_true status ≡ true
has_true_of status e = rw e refl

-- Among the conditions of the node is one of type Ready with status True.
abbrev pub HasReady : List Condition → Type 0
HasReady conditions = (c : Condition) × In c conditions × (c.type ≡ "Ready") × (c.status ≡ is_true)

abbrev pub IsReady : Node → Type 0
IsReady n = HasReady n.conditions

node_ready-HasReady :
    (conditions : List Condition) → node_ready conditions ≡ true → HasReady conditions
unfolding node_ready
node_ready-HasReady [] h = ground (arith, h)
node_ready-HasReady (c ∷ conditions) h =
    elim (Bool-cases (c.type == "Ready" && has_true c.status)) [
      | inl good ↦ (
        c,
        inl refl,
        (==_iff c.type "Ready").0 (ground (arith, good)),
        has_true-eq c.status (ground (arith, good)),
      )
      | inr other ↦
          let (d, i, t, s) = node_ready-HasReady conditions (ground (arith, h, other)) in
          (d, inr i, t, s)
    ]

HasReady-node_ready :
    (conditions : List Condition) (c : Condition)
    → In c conditions
    → c.type ≡ "Ready"
    → c.status ≡ is_true
    → node_ready conditions ≡ true
unfolding node_ready
HasReady-node_ready [] c i t s = absurd i
HasReady-node_ready (d ∷ conditions) c i t s = elim i [
  | inl same ↦ ground (
    arith,
    (==_iff d.type "Ready").1 (ap (λ (x : Condition). x.type) same ∙ t),
    has_true_of d.status (ap (λ (x : Condition). x.status) same ∙ s),
  )
  | inr later ↦ ground (arith, HasReady-node_ready conditions c later t s)
]

-- No node is named as not ready exactly when every node has, among its conditions, one of type Ready
-- with status True.
pub first_not_ready_iff : (nodes : List Node) → (first_not_ready nodes ≡ none) ↔ All IsReady nodes
unfolding first_not_ready
first_not_ready_iff [] = (λ _. tt, λ _. refl)
first_not_ready_iff (n ∷ nodes) = (
  λ h. elim (Bool-cases (node_ready n.conditions)) [
    | inl ready ↦ (
      node_ready-HasReady n.conditions ready,
      (first_not_ready_iff nodes).0 (ground (arith, h, ready)),
    )
    | inr lacks ↦ ground (arith, h, lacks)
  ],
  λ h.
      let (c, i, t, s) = h.0 in
      let ready = HasReady-node_ready n.conditions c i t s in
      ground (arith, ready, (first_not_ready_iff nodes).1 h.1),
)
