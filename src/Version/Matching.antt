-- ===== src/Version/Matching.antt =====
-- `matchVersion` against the language of its patterns.
use cluster_api_provider_bar.Prelude.{
  Text, ◌≡◌, refl, ap, sym, ◌∙◌, subst, ◌≢◌, ◌↔◌, ◌⊎◌, inl, inr, true, false, [], ◌∷◌, ◌++◌, arith,
  ==_iff, length, take, is_empty, Bool-cases, drop, take-append-drop, take-append_length,
  length-append, nat_eq, text_eq,
}
use cluster_api_provider_bar.Version.{star, ends_in_star, drop_last, match_version}

-- The texts that a pattern stands for: itself, or every extension of what precedes a last `*`.
abbrev pub Matches : Text → Text → Type 0
Matches pattern' version =
    (pattern' ≢ []) × (pattern' ≡ version)
    ⊎ ((prefix : Text) × (rest : Text) × (pattern' ≡ prefix ++ star ∷ [])
        × (version ≡ prefix ++ rest)
        × (version ≢ []))

drop_last-star : (p : Text) → ends_in_star p ≡ true → p ≡ drop_last p ++ star ∷ []
unfolding ends_in_star drop_last
drop_last-star [] h = ground arith
drop_last-star (c ∷ []) h = ground arith
drop_last-star (c ∷ d ∷ r) h = ap (λ l. c ∷ l) (drop_last-star (d ∷ r) h)

ends_in_star-append : (q : Text) → ends_in_star (q ++ star ∷ []) ≡ true
unfolding ends_in_star
ends_in_star-append [] = refl
ends_in_star-append (c ∷ []) = refl
ends_in_star-append (c ∷ d ∷ r) = ends_in_star-append (d ∷ r)

drop_last-append : (q : Text) → drop_last (q ++ star ∷ []) ≡ q
unfolding drop_last
drop_last-append [] = refl
drop_last-append (c ∷ []) = refl
drop_last-append (c ∷ d ∷ r) = ap (λ l. c ∷ l) (drop_last-append (d ∷ r))

-- A prefix test of the length is a prefix.
take_eq : (q v : Text) → take (length q) v ≡ q → v ≡ q ++ drop (length q) v
take_eq q v e = sym (take-append-drop (length q) v) ∙ ap (λ l. l ++ drop (length q) v) e

is_empty-false : (p : Text) → is_empty p ≡ false → p ≢ []
is_empty-false p h e = ground arith

ne_nil-is_empty : (p : Text) → p ≢ [] → is_empty p ≡ false
ne_nil-is_empty p h = ground arith

match_version-Matches : (p v : Text) → match_version p v ≡ true → Matches p v
unfolding match_version
match_version-Matches p v h = elim (Bool-cases (ends_in_star p)) [
  | inl e ↦ inr (
    drop_last p,
    drop (length (drop_last p)) v,
    drop_last-star p e,
    take_eq (drop_last p) v (ground (arith, ==_iff (take (length (drop_last p)) v) (drop_last p))),
    ground arith,
  )
  | inr e ↦ inl (ground arith, ground (arith, ==_iff p v))
]

append_star : (q : Text) → is_empty (q ++ star ∷ []) ≡ false
append_star [] = refl
append_star (c ∷ q) = refl

match_version-append : (q r : Text) → q ++ r ≢ [] → match_version (q ++ star ∷ []) (q ++ r) ≡ true
unfolding match_version
match_version-append q r h =
    rw (ends_in_star-append q, drop_last-append q, append_star q, take-append_length q r)
      (ground (arith, length-append q r, ==_iff q q, ne_nil-is_empty (q ++ r)))

match_version_self : (p : Text) → p ≢ [] → match_version p p ≡ true
unfolding match_version
match_version_self p h = elim (Bool-cases (ends_in_star p)) [
  | inl e ↦
      let split : p ≡ drop_last p ++ star ∷ [] = drop_last-star p e in
      subst (λ (t : Text). match_version t t ≡ true) (sym split)
        (match_version-append (drop_last p) (star ∷ []) (λ n. h (split ∙ n)))
  | inr e ↦ ground (arith, ==_iff p p)
]

Matches-match_version : (p v : Text) → Matches p v → match_version p v ≡ true
Matches-match_version p v (inl (h, e)) = rw (← e) (match_version_self p h)
Matches-match_version p v (inr (q, r, e, e', h)) =
    rw (e, e') (match_version-append q r (λ n. h (e' ∙ n)))

-- A pattern matches a version exactly when both are not empty and the version is the pattern, or
-- the pattern ends in a star and the version begins with what stands before the star.
pub match_version_iff : (p v : Text) → (match_version p v ≡ true) ↔ Matches p v
match_version_iff p v = (match_version-Matches p v, Matches-match_version p v)
