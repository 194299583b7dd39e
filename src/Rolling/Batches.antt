-- ===== src/Rolling/Batches.antt =====
-- The batches cut the nodes into pieces of the right size, and all of them are made.
use cluster_api_provider_bar.Prelude.{
  ℕ, zero, suc, ◌+◌, ◌-◌, ◌<◌, ◌≤◌, ◌≡◌, refl, sym, subst, ◌∙◌, ap, false, some, List, [], ◌∷◌,
  ◌++◌, arith, ltb, ltb→lt, length, take, drop, take-append-drop, All, Bool-cases, inl, inr,
}
use cluster_api_provider_bar.Prelude.Integers.{ℤ, pos, negsuc}
use cluster_api_provider_bar.Rolling.{
  at_least_one, new_rolling_upgrade_coordinator, slice, batch_end, batches_from, create_batches,
}

not_less_le : {a b : ℕ} → ltb a b ≡ false → b ≤ a
not_less_le h = ground (arith, h)

at_least_one_le : (n : ℤ) → 1 ≤ at_least_one n
at_least_one_le (pos zero) = omega arith
at_least_one_le (pos (suc n)) = omega arith
at_least_one_le (negsuc n) = omega arith

module _ {N : Type 0} where
  abbrev pub concat : List (List N) → List N
  concat [] = []
  concat (batch ∷ batches) = batch ++ concat batches

  length-drop : (i : ℕ) (xs : List N) → length (drop i xs) ≡ length xs - i
  length-drop zero xs = omega arith
  length-drop (suc i) [] = omega arith
  length-drop (suc i) (x ∷ xs) = omega (arith, length-drop i xs)

  take_all : (k : ℕ) (xs : List N) → length xs ≤ k → take k xs ≡ xs
  take_all zero [] h = refl
  take_all zero (x ∷ xs) h = absurd (ground (arith, h))
  take_all (suc k) [] h = refl
  take_all (suc k) (x ∷ xs) h = ap (λ l. x ∷ l) (take_all k xs (omega (arith, h)))

  drop_none : (k : ℕ) → drop {A = N} k [] ≡ []
  drop_none zero = refl
  drop_none (suc k) = refl

  drop_add : (i k : ℕ) (xs : List N) → drop (i + k) xs ≡ drop k (drop i xs)
  drop_add zero k xs = ap (λ n. drop n xs) (omega arith)
  drop_add (suc i) k [] = drop_none (suc i + k) ∙ sym (drop_none k)
  drop_add (suc i) k (x ∷ xs) =
      let step : suc i + k ≡ suc (i + k) = omega arith in
      ap (λ n. drop n (x ∷ xs)) step ∙ drop_add i k xs

  length-take : (k : ℕ) (xs : List N) → length (take k xs) ≤ k
  length-take zero xs = omega arith
  length-take (suc k) [] = omega arith
  length-take (suc k) (x ∷ xs) = omega (arith, length-take k xs)

  -- A slice up to the end of a batch is what the size takes.
  slice_lem :
      (size i : ℕ) (xs : List N)
      → i < length xs
      → slice xs i (batch_end size i xs) ≡ take size (drop i xs)
  slice_lem size i xs h = elim (Bool-cases (ltb (length xs) (i + size))) [
    | inl short ↦
        let n = length xs in
        let b : n < i + size = ltb→lt n (i + size) short in
        rw short (
          take_all (n - i) (drop i xs) (omega (arith, length-drop i xs))
          ∙ sym (take_all size (drop i xs) (omega (arith, length-drop i xs, b, h))))
    | inr long ↦
        let span : i + size - i ≡ size = omega arith in rw long (ap (λ k. take k (drop i xs)) span)
  ]

  abbrev pub IsBatch : ℕ → List N → Type 0
  IsBatch size batch = (1 ≤ length batch) × (length batch ≤ size)

  take-IsBatch : (size : ℕ) (xs : List N) → 1 ≤ size → 1 ≤ length xs → IsBatch size (take size xs)
  take-IsBatch zero xs b h = absurd (ground (arith, b))
  take-IsBatch (suc size) [] b h = absurd (ground (arith, h))
  take-IsBatch (suc size) (x ∷ xs) b h = (omega arith, length-take (suc size) (x ∷ xs))

  length_zero : (xs : List N) → length xs ≤ 0 → xs ≡ []
  length_zero [] h = refl
  length_zero (x ∷ xs) h = absurd (ground (arith, h))

  -- The batches from an index on are made of the nodes from there on.
  abbrev Covers : (fuel size i : ℕ) → List N → Type 0
  Covers fuel size i nodes =
      (batches : List (List N)) × (batches_from fuel size i nodes ≡ some batches)
      × (concat batches ≡ drop i nodes)
      × All (IsBatch size) batches

  batches_from-Covers :
      (fuel size i : ℕ) (nodes : List N)
      → 1 ≤ size
      → 1 ≤ fuel
      → length nodes < i + fuel
      → Covers fuel size i nodes
  unfolding batches_from
  batches_from-Covers zero size i nodes b f h = absurd (ground (arith, f))
  batches_from-Covers (suc fuel) size i nodes b f h = elim (Bool-cases (ltb i (length nodes))) [
    | inr past ↦
        let none_left =
          length_zero (drop i nodes) (omega (arith, length-drop i nodes, not_less_le past)) in
        ([], rw past refl, sym none_left, tt)
    | inl more ↦
        let here = ltb→lt i (length nodes) more in
        let (batches, made, all, sizes) =
          batches_from-Covers fuel size (i + size) nodes b (omega (arith, h, here))
            (omega (arith, h, b)) in
        let cut = slice_lem size i nodes here in
        (
          slice nodes i (batch_end size i nodes) ∷ batches,
          rw (more, made) refl,
          ap (λ l. l ++ concat batches) cut
              ∙ ap (λ l. take size (drop i nodes) ++ l) (all ∙ drop_add i size nodes)
              ∙ take-append-drop size (drop i nodes),
          (
            subst (IsBatch size) (sym cut)
                (take-IsBatch size (drop i nodes) b (omega (arith, length-drop i nodes, here))),
            sizes,
          ),
        )
  ]

  -- Whatever numbers a coordinator is made of, it cuts the nodes into batches: they hold all nodes in
  -- their order, none of them is empty, and none is larger than what may be unavailable.
  pub create_batches-IsBatch :
      (max_unavailable max_concurrent : ℤ) (nodes : List N)
      → let c = new_rolling_upgrade_coordinator max_unavailable max_concurrent in
        (batches : List (List N)) × (create_batches c nodes ≡ some batches)
        × (concat batches ≡ nodes)
        × All (IsBatch c.max_unavailable) batches
  unfolding create_batches new_rolling_upgrade_coordinator
  create_batches-IsBatch max_unavailable max_concurrent nodes =
      batches_from-Covers (suc (length nodes)) (at_least_one max_unavailable) 0 nodes
        (at_least_one_le max_unavailable) (omega arith) (omega arith)
