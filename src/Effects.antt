-- ===== src/Effects.antt =====
-- Operations on the world outside of the program that may fail. The world is a parameter; what a
-- failing operation has changed stays changed.
pub mod Later
use cluster_api_provider_bar.Prelude.{
  ◌≡◌, refl, inl, inr, Bool, true, false, List, [], ◌∷◌, Result, ok, err, In,
}

abbrev pub Action : Type 0 → Type 0 → Type 0 → Type 0
Action E W A = W → Result E A × W

module _ {E W A : Type 0} where
  abbrev pub pure : A → Action E W A
  pure a w = (ok a, w)

  abbrev pub fail : E → Action E W A
  fail e w = (err e, w)

  -- `fmt.Errorf("...: %w", err)`
  abbrev pub wrap : (E → E) → Action E W A → Action E W A
  wrap f m w = let (r, w') = m w in elim r [ ok a ↦ (ok a, w') | err e ↦ (err (f e), w') ]

pub err-ne-ok : {E A : Type 0} {a : A} {e : E} → err e ≡ ok a → ⊥
err-ne-ok h = cc

-- A failure that is only logged.
abbrev pub attempt : {E W : Type 0} → Action E W (Unit {0}) → Action E W (Unit {0})
attempt m w = (ok tt, (m w).1)

module _ {E W A B : Type 0} where
  abbrev pub and_then : Result E A → (A → Action E W B) → Action E W B
  and_then (ok a) f = f a
  and_then (err e) f = fail e

  infixl 5 ◌>>=◌ ◌>>◌
  abbrev pub ◌>>=◌ : Action E W A → (A → Action E W B) → Action E W B
  m >>= f = λ w. let (r, w') = m w in and_then r f w'

  abbrev pub ◌>>◌ : Action E W A → Action E W B → Action E W B
  m >> n = m >>= λ _. n

module _ {E W : Type 0} where
  -- `if c { if err := m(); err != nil { return err } }`
  abbrev pub when : Bool → Action E W (Unit {0}) → Action E W (Unit {0})
  when true m = m
  when false m = pure tt

  -- A loop that stops at the first failure.
  unfoldable pub for_each :
      {A : Type 0} → (A → Action E W (Unit {0})) → List A → Action E W (Unit {0})
  for_each f [] = pure tt
  for_each f (x ∷ xs) = f x >> for_each f xs

  -- A chain that succeeds has both parts succeed.
  pub >>=-eq-ok :
      {A B : Type 0} (m : Action E W A) (f : A → Action E W B) (w : W) {b : B}
      → ((m >>= f) w).0 ≡ ok b
      → (a : A) × ((m w).0 ≡ ok a) × ((f a (m w).1).0 ≡ ok b)
  >>=-eq-ok {A} {B} m f w {b} h = split (m w).0 refl
    where
      split : (r : Result E A) → (m w).0 ≡ r → (a : A) × ((m w).0 ≡ ok a) × ((f a (m w).1).0 ≡ ok b)
      split (ok a) e = (a, e, rw e at h)
      split (err x) e = absurd (err-ne-ok (rw e at h))

  -- A loop that succeeds has each round succeed.
  pub for_each-eq-ok :
      {A : Type 0} (f : A → Action E W (Unit {0})) (xs : List A) (w : W) (x : A)
      → (for_each f xs w).0 ≡ ok tt
      → In x xs
      → (w' : W) × ((f x w').0 ≡ ok tt)
  unfolding for_each
  for_each-eq-ok f [] w x h i = absurd i
  for_each-eq-ok f (y ∷ ys) w x h i =
      let (_, first, rest) = >>=-eq-ok (f y) (λ _. for_each f ys) w h in
      elim i [
        | inl same ↦ (w, rw (← same) first)
        | inr i' ↦ for_each-eq-ok f ys (f y w).1 x rest i'
      ]
