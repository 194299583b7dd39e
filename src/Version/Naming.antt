-- ===== src/Version/Naming.antt =====
-- The object names that `versionToName` and `safeImageName` derive.
use cluster_api_provider_bar.Prelude.{
  ℕ, Text, ◌≡◌, ◌≤◌, refl, ◌↔◌, ◌⊎◌, inl, inr, false, [], ◌∷◌, arith,
}
use cluster_api_provider_bar.Version.{is_alphanumeric, safe_char, version_to_name, safe_image_name}

-- The code of an ASCII letter or digit.
abbrev pub IsAlphanumeric : ℕ → Type 0
IsAlphanumeric c = ((b'a' ≤ c) × (c ≤ b'z')) ⊎ ((b'A' ≤ c) × (c ≤ b'Z')) ⊎ ((b'0' ≤ c) × (c ≤ b'9'))

is_alphanumeric-false : (c : ℕ) → (is_alphanumeric c ≡ false) ↔ (¬ IsAlphanumeric c)
unfolding is_alphanumeric
is_alphanumeric-false c = (λ h a. ground (arith, h, a), λ h. ground (arith, h))

-- Letter by letter the same, or both outside of the letters and digits.
abbrev pub Alike : Text → Text → Type 0
Alike [] [] = Unit
Alike (x ∷ xs) (y ∷ ys) = ((x ≡ y) ⊎ (¬ IsAlphanumeric x) × (¬ IsAlphanumeric y)) × Alike xs ys
Alike _ _ = ⊥

safe_char_iff :
    (x y : ℕ)
    → (safe_char x ≡ safe_char y)
      ↔ ((x ≡ y) ⊎ (is_alphanumeric x ≡ false) × (is_alphanumeric y ≡ false))
unfolding safe_char
safe_char_iff x y = (λ h. ground arith, λ h. ground arith)

safe_char-Alike :
    (x y : ℕ)
    → (safe_char x ≡ safe_char y) ↔ ((x ≡ y) ⊎ (¬ IsAlphanumeric x) × (¬ IsAlphanumeric y))
safe_char-Alike x y = (
  λ h. elim ((safe_char_iff x y).0 h) [
    | inl same ↦ inl same
    | inr (a, b) ↦ inr ((is_alphanumeric-false x).0 a, (is_alphanumeric-false y).0 b)
  ],
  λ h. elim h [
    | inl same ↦ (safe_char_iff x y).1 (inl same)
    | inr (a, b) ↦
        (safe_char_iff x y).1 (inr ((is_alphanumeric-false x).1 a, (is_alphanumeric-false y).1 b))
  ],
)

-- Two versions get the same object name exactly when they are alike: equally long, and at every
-- place either the same or both neither an ASCII letter nor a digit.
pub version_to_name_iff : (v w : Text) → (version_to_name v ≡ version_to_name w) ↔ Alike v w
unfolding version_to_name
version_to_name_iff [] [] = (λ _. tt, λ _. refl)
version_to_name_iff [] (y ∷ ys) = (λ h. cc, λ h. absurd h)
version_to_name_iff (x ∷ xs) [] = (λ h. cc, λ h. absurd h)
version_to_name_iff (x ∷ xs) (y ∷ ys) =
    let (there, back) = safe_char-Alike x y in
    let (more, less) = version_to_name_iff xs ys in
    (λ h. (there (cc), more (cc)), λ h. cc (back h.0, less h.1))

safe_char_idem : (x : ℕ) → safe_char (safe_char x) ≡ safe_char x
unfolding safe_char
safe_char_idem x = ground arith

-- The name of a name is the name, and both functions give the same.
pub safe_image_name-version_to_name :
    (v : Text) → safe_image_name (version_to_name v) ≡ version_to_name v
unfolding version_to_name safe_image_name
safe_image_name-version_to_name [] = refl
safe_image_name-version_to_name (x ∷ xs) = cc (safe_char_idem x, safe_image_name-version_to_name xs)
