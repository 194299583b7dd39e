-- ===== src/Addon/Merging.antt =====
-- What a merge of two objects holds under each name.
use cluster_api_provider_bar.Prelude.{
  ◌≡◌, refl, sym, ap, subst, ◌∙◌, Text, false, Option, none, some, ◌==◌, ==_iff, text_eq, arith,
  inl, inr, Bool-cases, some-eq, List, [], ◌∷◌,
}
use cluster_api_provider_bar.Addon.Values.{
  Json, null, boolean, number, string, array, object, Fields, no_fields, field, get_field,
  put_field, deep_merge, merge_fields, merge_value,
}

get_field-put_field : (k : Text) (v : Json) (fs : Fields) → get_field k (put_field k v fs) ≡ some v
unfolding get_field put_field
get_field-put_field k v no_fields = rw ((==_iff k k).1 refl) refl
get_field-put_field k v (field n old rest) = ground (arith, get_field-put_field k v rest)

get_field_other :
    (k name : Text) (v : Json) (fs : Fields)
    → (name == k) ≡ false
    → get_field k (put_field name v fs) ≡ get_field k fs
unfolding get_field put_field
get_field_other k name v no_fields h = rw h refl
get_field_other k name v (field n old rest) h = elim (Bool-cases (n == name)) [
  | inl same ↦
      let differs : (n == k) ≡ false =
        subst (λ m. (m == k) ≡ false) (sym ((==_iff n name).0 same)) h in
      ground (arith, same, differs)
  | inr other ↦ ground (arith, other, get_field_other k name v rest h)
]

-- The names of an object are distinct.
abbrev pub DistinctNames : Fields → Type 0
DistinctNames no_fields = Unit
DistinctNames (field name v rest) = (get_field name rest ≡ none) × DistinctNames rest

-- The value of a merged object under a name, from those of the two objects.
abbrev pub merged : Option Json → Option Json → Option Json
merged base none = base
merged base (some v) = some (merge_value base v)

abbrev merged_field : Text → Json → Fields → Json
merged_field k v result = elim (get_field k result) [
  | none ↦ v
  | some existing ↦ deep_merge existing v
]

merged_field_value :
    (k : Text) (v : Json) (result : Fields)
    → merged_field k v result ≡ merge_value (get_field k result) v
merged_field_value k v result = ground arith

merged_here :
    (k : Text) (v : Json) (base rest : Fields)
    → get_field k rest ≡ none
    → merged (get_field k (put_field k (merged_field k v base) base)) (get_field k rest)
      ≡ merged (get_field k base) (some v)
merged_here k v base rest fresh =
    rw (get_field-put_field k (merged_field k v base) base, fresh)
      (ap (λ (j : Json). some j) (merged_field_value k v base))

merge_fields-merged :
    (k : Text) (base override : Fields)
    → DistinctNames override
    → get_field k (merge_fields base override) ≡ merged (get_field k base) (get_field k override)
unfolding get_field merge_fields deep_merge
merge_fields-merged k base no_fields d = refl
merge_fields-merged k base (field n v rest) (fresh, d) =
    merge_fields-merged k (put_field n (merged_field n v base) base) rest d ∙ step
  where
    step :
        merged (get_field k (put_field n (merged_field n v base) base)) (get_field k rest)
        ≡ merged (get_field k base) (get_field k (field n v rest))
    step = elim (Bool-cases (n == k)) [
      | inl same ↦ rw (same) (
          subst
            (λ m.
              get_field m rest ≡ none
              → merged (get_field k (put_field m (merged_field m v base) base)) (get_field k rest)
                ≡ merged (get_field k base) (some v))
            (sym ((==_iff n k).0 same)) (merged_here k v base rest) fresh)
      | inr other ↦ rw (get_field_other k n (merged_field n v base) base other, other) refl
    ]

unfoldable mutual
  -- The names of every object inside are distinct.
  pub AreDistinct : Json → Type 0
  AreDistinct null = Unit
  AreDistinct (boolean b) = Unit
  AreDistinct (number n) = Unit
  AreDistinct (string s) = Unit
  AreDistinct (array items) = Unit
  AreDistinct (object fs) = AreDistinctFields fs

  pub AreDistinctFields : Fields → Type 0
  AreDistinctFields no_fields = Unit
  AreDistinctFields (field name v rest) =
      (get_field name rest ≡ none) × AreDistinct v × AreDistinctFields rest

AreDistinctFields-names : (fs : Fields) → AreDistinctFields fs → DistinctNames fs
unfolding AreDistinctFields
AreDistinctFields-names no_fields d = tt
AreDistinctFields-names (field name v rest) (fresh, _, d) = (fresh, AreDistinctFields-names rest d)

AreDistinctFields-value :
    (k : Text) (fs : Fields) (v : Json)
    → AreDistinctFields fs
    → get_field k fs ≡ some v
    → AreDistinct v
unfolding get_field AreDistinctFields
AreDistinctFields-value k no_fields v d h = cc
AreDistinctFields-value k (field name old rest) v (_, here, d) h = elim (Bool-cases (name == k)) [
  | inl same ↦ subst AreDistinct (some-eq (rw same at h)) here
  | inr other ↦ AreDistinctFields-value k rest v d (rw other at h)
]

-- The value that is not an object, if there is one, at the end of a path of names.
abbrev pub leaf_at : List Text → Json → Option Json
leaf_at (k ∷ path) (object fs) = elim (get_field k fs) [ none ↦ none | some v ↦ leaf_at path v ]
leaf_at [] (object fs) = none
leaf_at [] j = some j
leaf_at (k ∷ path) j = none

-- What a merge is to hold there: where both are objects, the value of the second if it has the name,
-- that of the first if not, and so on below a name that both have; otherwise that of the second.
abbrev pub chosen : Json → Json → List Text → Option Json
chosen (object base) (object override) (k ∷ path) = elim (get_field k override) [
  | none ↦ leaf_at (k ∷ path) (object base)
  | some v ↦ elim (get_field k base) [ none ↦ leaf_at path v | some old ↦ chosen old v path ]
]
chosen (object base) (object override) [] = none
chosen base override path = leaf_at path override

-- The value at a name and then along a path, from the values that the two objects have there.
chosen_below :
    (path : List Text) (base override : Option Json)
    → ((old v : Json)
        → base ≡ some old
        → override ≡ some v
        → leaf_at path (deep_merge old v) ≡ chosen old v path)
    → (elim (merged base override) as (λ _. Option Json) [ none ↦ none | some v ↦ leaf_at path v ])
      ≡ (elim override as (λ _. Option Json) [
        | none ↦ elim base as (λ _. Option Json) [ none ↦ none | some v ↦ leaf_at path v ]
        | some v ↦ elim base as (λ _. Option Json) [
          | none ↦ leaf_at path v
          | some old ↦ chosen old v path
        ]
      ])
chosen_below path base none below = refl
chosen_below path none (some v) below = refl
chosen_below path (some old) (some v) below = below old v refl refl

-- If the names of every object inside the second value are distinct, then merging it into the first
-- gives, at the end of every path, the value of the second where it has one, that of the first where
-- both are objects down to a name that the second lacks, and nothing of the first otherwise.
pub deep_merge-chosen :
    (path : List Text) (base override : Json)
    → AreDistinct override
    → leaf_at path (deep_merge base override) ≡ chosen base override path
unfolding deep_merge AreDistinctFields get_field
deep_merge-chosen path null override d = refl
deep_merge-chosen path (boolean b) override d = refl
deep_merge-chosen path (number n) override d = refl
deep_merge-chosen path (string s) override d = refl
deep_merge-chosen path (array items) override d = refl
deep_merge-chosen path (object base) null d = refl
deep_merge-chosen path (object base) (boolean b) d = refl
deep_merge-chosen path (object base) (number n) d = refl
deep_merge-chosen path (object base) (string s) d = refl
deep_merge-chosen path (object base) (array items) d = refl
deep_merge-chosen [] (object base) (object override) d = refl
deep_merge-chosen (k ∷ path) (object base) (object override) d =
    let held = merge_fields-merged k base override (AreDistinctFields-names override d) in
    rw held (
      chosen_below path (get_field k base) (get_field k override) (λ old v both has.
        deep_merge-chosen path old v (AreDistinctFields-value k override v d has)))
