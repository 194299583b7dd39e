-- ===== src/Prelude/Lists.antt =====
-- Lists measured and indexed by native numbers, membership tests and predicates over lists.
use Prim.Native.Nat.{ℕ, zero, suc, ◌+◌, ◌-◌}
use mathlib.Core.Path.{◌≡◌, refl, ap, subst}
use mathlib.Core.Logic.{◌↔◌, ◌⊎◌, inl, inr}
use mathlib.Core.Bool.{Bool, true, false, not, ◌&&◌, ◌||◌}
use mathlib.Core.Option.{Option, none, some}
use mathlib.Core.List.{List, [], ◌∷◌, ◌++◌}
use native.Mathlib.Omega.{arith}
use cluster_api_provider_bar.Prelude.Tests.{
  Text, leb, text_eq, Comparable, ◌==◌, ==_iff, if◌then◌else◌,
}

module _ {ℓ} {A : Type ℓ} where
  abbrev pub length : List A → ℕ
  length [] = 0
  length (x ∷ xs) = suc (length xs)

  abbrev pub is_empty : List A → Bool
  is_empty [] = true
  is_empty (x ∷ xs) = false

  abbrev pub get_elem? : List A → ℕ → Option A
  get_elem? [] i = none
  get_elem? (x ∷ xs) zero = some x
  get_elem? (x ∷ xs) (suc i) = get_elem? xs i

  -- A write out of bounds changes nothing.
  abbrev pub set : List A → ℕ → A → List A
  set [] i v = []
  set (x ∷ xs) zero v = v ∷ xs
  set (x ∷ xs) (suc i) v = x ∷ set xs i v

  abbrev pub take : ℕ → List A → List A
  take zero xs = []
  take (suc n) [] = []
  take (suc n) (x ∷ xs) = x ∷ take n xs

  abbrev pub drop : ℕ → List A → List A
  drop zero xs = xs
  drop (suc n) [] = []
  drop (suc n) (x ∷ xs) = drop n xs

  abbrev pub replicate : ℕ → A → List A
  replicate zero a = []
  replicate (suc n) a = a ∷ replicate n a

  -- The first element that passes a test.
  abbrev pub find? : (A → Bool) → List A → Option A
  find? p [] = none
  find? p (x ∷ xs) = if p x then some x else find? p xs

  abbrev pub any : (A → Bool) → List A → Bool
  any p [] = false
  any p (x ∷ xs) = p x || any p xs

  abbrev pub all : (A → Bool) → List A → Bool
  all p [] = true
  all p (x ∷ xs) = p x && all p xs

  pub length-append : (xs ys : List A) → length (xs ++ ys) ≡ length xs + length ys
  length-append [] ys = omega arith
  length-append (x ∷ xs) ys = omega (arith, length-append xs ys)

  pub take-append-drop : (n : ℕ) (xs : List A) → take n xs ++ drop n xs ≡ xs
  take-append-drop zero xs = refl
  take-append-drop (suc n) [] = refl
  take-append-drop (suc n) (x ∷ xs) = ap (λ l. x ∷ l) (take-append-drop n xs)

  pub take-append_length : (xs ys : List A) → take (length xs) (xs ++ ys) ≡ xs
  take-append_length [] ys = refl
  take-append_length (x ∷ xs) ys = ap (λ l. x ∷ l) (take-append_length xs ys)

-- A property of each element; it computes to a tuple.
abbrev pub All {ℓ κ} : {A : Type ℓ} → (A → Type κ) → List A → Type κ
All P [] = Unit
All P (x ∷ xs) = P x × All P xs

pub All-map {ℓ κ μ} :
    {A : Type ℓ} (P : A → Type κ) (Q : A → Type μ) (xs : List A)
    → ((x : A) → P x → Q x)
    → All P xs
    → All Q xs
All-map P Q [] f h = tt
All-map P Q (x ∷ xs) f h = (f x h.0, All-map P Q xs f h.1)

-- Membership by recursion, which computes to a sum.
abbrev pub In : {A : Type 0} → A → List A → Type 0
In a [] = ⊥
In a (x ∷ xs) = (x ≡ a) ⊎ In a xs

pub All-In {κ} : {A : Type 0} (P : A → Type κ) (xs : List A) (a : A) → All P xs → In a xs → P a
All-In P [] a h i = absurd i
All-In P (x ∷ xs) a h (inl same) = subst P same h.0
All-In P (x ∷ xs) a h (inr i) = All-In P xs a h.1 i

pub In-append : {A : Type 0} (a : A) (xs ys : List A) → In a (xs ++ ys) ↔ (In a xs ⊎ In a ys)
In-append a [] ys = (λ h. inr h, λ h. ground arith)
In-append a (x ∷ xs) ys =
    (λ h. ground (arith, In-append a xs ys), λ h. ground (arith, In-append a xs ys))

module _ {ℓ} {A : Type ℓ} ⦃c : Comparable A⦄ where
  -- A Go `map[A]bool` that holds `true` at the keys of a list.
  abbrev pub contains : List A → A → Bool
  contains [] a = false
  contains (x ∷ xs) a = x == a || contains xs a

  -- `m[a] = false` on such a map.
  abbrev pub remove : List A → A → List A
  remove [] a = []
  remove (x ∷ xs) a = if x == a then remove xs a else x ∷ remove xs a

  pub contains-append :
      (xs ys : List A) (a : A) → contains (xs ++ ys) a ≡ contains xs a || contains ys a
  contains-append [] ys a = refl
  contains-append (x ∷ xs) ys a = ground (arith, contains-append xs ys a)

  pub contains-remove :
      (xs : List A) (a b : A) → contains (remove xs a) b ≡ contains xs b && not (a == b)
  contains-remove [] a b = refl
  contains-remove (x ∷ xs) a b =
      ground (arith, contains-remove xs a b, ==_iff x a, ==_iff x b, ==_iff a b)

-- The test is membership.
pub contains_iff :
    {A : Type 0} ⦃c : Comparable A⦄ (xs : List A) (a : A) → (contains xs a ≡ true) ↔ In a xs
contains_iff [] a = (λ h. cc, λ h. absurd h)
contains_iff (x ∷ xs) a = (
  λ h. ground (arith, ==_iff x a, contains_iff xs a),
  λ h. ground (arith, ==_iff x a, contains_iff xs a),
)

-- `strings.HasPrefix` and `strings.HasSuffix`.
abbrev pub starts_with : Text → Text → Bool
starts_with t prefix = take (length prefix) t == prefix

abbrev pub ends_with : Text → Text → Bool
ends_with t suffix = leb (length suffix) (length t) && drop (length t - length suffix) t == suffix

-- `strings.Contains`
abbrev pub contains_text : Text → Text → Bool
contains_text [] pattern_text = starts_with [] pattern_text
contains_text (c ∷ t) pattern_text =
    starts_with (c ∷ t) pattern_text || contains_text t pattern_text
