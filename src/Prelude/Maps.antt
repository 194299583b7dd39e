-- ===== src/Prelude/Maps.antt =====
-- Maps of Go as the lists of their entries: the lookups after each operation, and keys that occur once.
use cluster_api_provider_bar.Prelude.{
  ◌≡◌, refl, sym, ◌∙◌, subst, Text, Bool, true, false, Option, none, some, List, [], ◌∷◌, ◌==◌,
  ==_iff, text_eq, if◌then◌else◌, arith, inl, inr, Bool-cases,
}

module _ {A : Type 0} where
  unfoldable pub lookup : Text → List (Text × A) → Option A
  lookup k [] = none
  lookup k ((name, a) ∷ entries) = if name == k then some a else lookup k entries

  unfoldable pub insert : Text → A → List (Text × A) → List (Text × A)
  insert k a [] = (k, a) ∷ []
  insert k a ((name, old) ∷ entries) =
      let rest = insert k a entries in if name == k then (name, a) ∷ entries else (name, old) ∷ rest

  unfoldable pub delete : Text → List (Text × A) → List (Text × A)
  delete k [] = []
  delete k ((name, a) ∷ entries) =
      let rest = delete k entries in if name == k then rest else (name, a) ∷ rest

module _ {A : Type 0} where
  pub lookup-insert : (k : Text) (a : A) (es : List (Text × A)) → lookup k (insert k a es) ≡ some a
  unfolding lookup insert
  lookup-insert k a [] = rw ((==_iff k k).1 refl) refl
  lookup-insert k a ((name, old) ∷ es) = ground (arith, lookup-insert k a es)

  pub lookup-insert_other :
      (k k' : Text) (a : A) (es : List (Text × A))
      → (k == k') ≡ false
      → lookup k' (insert k a es) ≡ lookup k' es
  unfolding lookup insert
  lookup-insert_other k k' a [] h = rw h refl
  lookup-insert_other k k' a ((name, old) ∷ es) h = elim (Bool-cases (name == k)) [
    | inl same ↦
        let differs : (name == k') ≡ false =
          subst (λ m. (m == k') ≡ false) (sym ((==_iff name k).0 same)) h in
        ground (arith, same, differs)
    | inr other ↦ ground (arith, other, lookup-insert_other k k' a es h)
  ]

  pub lookup-delete : (k : Text) (es : List (Text × A)) → lookup k (delete k es) ≡ none
  unfolding lookup delete
  lookup-delete k [] = refl
  lookup-delete k ((name, a) ∷ es) = ground (arith, lookup-delete k es)

  pub lookup-delete_other :
      (k k' : Text) (es : List (Text × A))
      → (k == k') ≡ false
      → lookup k' (delete k es) ≡ lookup k' es
  unfolding lookup delete
  lookup-delete_other k k' [] h = refl
  lookup-delete_other k k' ((name, a) ∷ es) h = elim (Bool-cases (name == k)) [
    | inl same ↦
        let differs : (name == k') ≡ false =
          subst (λ m. (m == k') ≡ false) (sym ((==_iff name k).0 same)) h in
        ground (arith, same, differs, lookup-delete_other k k' es h)
    | inr other ↦ ground (arith, other, lookup-delete_other k k' es h)
  ]

abbrev pub DistinctKeys : {A : Type 0} → List (Text × A) → Type 0
DistinctKeys [] = Unit
DistinctKeys ((k, a) ∷ es) = (lookup k es ≡ none) × DistinctKeys es

pub other_key : (a b : Text) → (a == b) ≡ false → (b == a) ≡ false
other_key a b h = elim (Bool-cases (b == a)) [
  | inr differ ↦ differ
  | inl same ↦ absurd (true_false (sym ((==_iff a b).1 (sym ((==_iff b a).0 same))) ∙ h))
]
  where
    true_false : true ≡ false → ⊥
    true_false e = ground (arith, e)

module _ {A : Type 0} where
  pub none-ne-some : (a : A) → none ≡ some a → ⊥
  none-ne-some a h = ground (arith, h)

  pub if-DistinctKeys :
      (b : Bool) (xs ys : List (Text × A))
      → (b ≡ true → DistinctKeys xs)
      → (b ≡ false → DistinctKeys ys)
      → DistinctKeys (if b then xs else ys)
  if-DistinctKeys true xs ys t f = t refl
  if-DistinctKeys false xs ys t f = f refl

  pub insert-DistinctKeys :
      (k : Text) (a : A) (es : List (Text × A)) → DistinctKeys es → DistinctKeys (insert k a es)
  unfolding insert lookup
  insert-DistinctKeys k a [] d = (refl, tt)
  insert-DistinctKeys k a ((name, old) ∷ es) (fresh, d) =
      if-DistinctKeys (name == k) ((name, a) ∷ es) ((name, old) ∷ insert k a es)
        (λ same. (fresh, d))
        (λ other. (
          lookup-insert_other k name a es (other_key name k other) ∙ fresh,
          insert-DistinctKeys k a es d,
        ))

  delete-fresh :
      (k name : Text) (es : List (Text × A))
      → lookup name es ≡ none
      → lookup name (delete k es) ≡ none
  delete-fresh k name es fresh = elim (Bool-cases (k == name)) [
    | inl same ↦
        subst (λ m. lookup name (delete m es) ≡ none) (sym ((==_iff k name).0 same))
          (lookup-delete name es)
    | inr other ↦ lookup-delete_other k name es other ∙ fresh
  ]

  pub delete-DistinctKeys :
      (k : Text) (es : List (Text × A)) → DistinctKeys es → DistinctKeys (delete k es)
  unfolding delete
  delete-DistinctKeys k [] d = tt
  delete-DistinctKeys k ((name, a) ∷ es) (fresh, d) =
      if-DistinctKeys (name == k) (delete k es) ((name, a) ∷ delete k es)
        (λ same. delete-DistinctKeys k es d)
        (λ other. (delete-fresh k name es fresh, delete-DistinctKeys k es d))
