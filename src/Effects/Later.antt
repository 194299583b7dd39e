-- ===== src/Effects/Later.antt =====
-- Worlds that come later in a run: those that are reached by the operations of a platform, of which
-- `Step` says what each of them makes of a world.
use cluster_api_provider_bar.Prelude.{
  ◌≡◌, Bool, true, false, List, [], ◌∷◌, Result, ok, err, In, inl, inr, subst,
}
use cluster_api_provider_bar.Effects.{
  Action, wrap, when, and_then, ◌>>=◌, ◌>>◌, for_each, >>=-eq-ok,
}

pub data Later {W : Type 0} (Step : W → W → Type 0) (w : W) : W → Type 0 where
  here : Later Step w w
  next : {u v : W} → Later Step w u → Step u v → Later Step w v

module _ {W : Type 0} {Step : W → W → Type 0} where
  pub trans : {u v w : W} → Later Step u v → Later Step v w → Later Step u w
  trans l here = l
  trans l (next m s) = next (trans l m) s

  pub once : {u v : W} → Step u v → Later Step u v
  once s = next here s

module _ {E W : Type 0} (Step : W → W → Type 0) where
  -- An action that changes the world by the operations alone.
  abbrev pub Moves : {A : Type 0} → Action E W A → Type 0
  Moves m = (w : W) → Later Step w (m w).1

  -- The end of a chain comes later than the end of its first part.
  pub bind-Later :
      {A B : Type 0} (m : Action E W A) (f : A → Action E W B) (w : W)
      → ((a : A) → Moves (f a))
      → Later Step (m w).1 ((m >>= f) w).1
  bind-Later {A} {B} m f w moves = rest (m w).0
    where
      rest : (r : Result E A) → Later Step (m w).1 (and_then r f (m w).1).1
      rest (ok a) = moves a (m w).1
      rest (err e) = here

  pub bind-Moves :
      {A B : Type 0} (m : Action E W A) (f : A → Action E W B)
      → Moves m
      → ((a : A) → Moves (f a))
      → Moves (m >>= f)
  bind-Moves m f move moves w = trans (move w) (bind-Later m f w moves)

  pub then-Moves :
      {A B : Type 0} (m : Action E W A) (n : Action E W B) → Moves m → Moves n → Moves (m >> n)
  then-Moves m n move moves = bind-Moves m (λ _. n) move (λ _. moves)

  wrapped_world :
      {A : Type 0} (f : E → E) (r : Result E A) (u v : W)
      → Later Step u v
      → Later Step u (wrap f (λ _. (r, v)) u).1
  wrapped_world f (ok a) u v l = l
  wrapped_world f (err e) u v l = l

  pub wrap-Moves : {A : Type 0} (f : E → E) (m : Action E W A) → Moves m → Moves (wrap f m)
  wrap-Moves f m move w = wrapped_world f (m w).0 w (m w).1 (move w)

  pub when-Moves : (c : Bool) (m : Action E W (Unit {0})) → Moves m → Moves (when c m)
  when-Moves true m move w = move w
  when-Moves false m move w = here

  pub for_each-Moves :
      {A : Type 0} (f : A → Action E W (Unit {0})) (xs : List A)
      → ((x : A) → Moves (f x))
      → Moves (for_each f xs)
  unfolding for_each
  for_each-Moves f [] moves w = here
  for_each-Moves f (x ∷ xs) moves w =
      then-Moves (f x) (for_each f xs) (moves x) (for_each-Moves f xs moves) w

  -- A loop that succeeds has each round succeed, at a moment before the loop is over.
  pub for_each-Later :
      {A : Type 0} (f : A → Action E W (Unit {0})) (xs : List A) (w : W) (x : A)
      → ((x : A) → Moves (f x))
      → (for_each f xs w).0 ≡ ok tt
      → In x xs
      → (u : W) × ((f x u).0 ≡ ok tt) × Later Step (f x u).1 (for_each f xs w).1
  unfolding for_each
  for_each-Later f [] w x moves h i = absurd i
  for_each-Later {A} f (y ∷ ys) w x moves h i =
      let (_, first, rest) = >>=-eq-ok (f y) (λ _. for_each f ys) w h in
      let ends : Later Step (f y w).1 (for_each f (y ∷ ys) w).1 =
        bind-Later (f y) (λ _. for_each f ys) w (λ _. for_each-Moves f ys moves) in
      elim i [
        | inl same ↦
            subst
              (λ (z : A).
                (u : W) × ((f z u).0 ≡ ok tt) × Later Step (f z u).1 (for_each f (y ∷ ys) w).1)
              same (w, first, ends)
        | inr i' ↦
            let (u, done, l) = for_each-Later f ys (f y w).1 x moves rest i' in
            (u, done, rw first l)
      ]
