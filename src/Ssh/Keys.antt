-- ===== src/Ssh/Keys.antt =====
-- The keys of the pool tell hosts and ports apart, and what the operations of a map do to its lookups.
use cluster_api_provider_bar.Prelude.{
  ℕ, ◌≡◌, refl, sym, ap, ◌∙◌, Text, false, some, [], ◌∷◌, ◌++◌, text_eq, nat_eq, arith, contains,
  length, take, drop, take-append_length,
}
use cluster_api_provider_bar.SelfUpgrade.Components.{last_colon}
use cluster_api_provider_bar.SelfUpgrade.Images.{last_colon-append}
use cluster_api_provider_bar.Ssh.{Platform, key}

-- Decimals are written without a colon, and differ for different numbers.
abbrev pub IsDecimal : (ℕ → Text) → Type 0
IsDecimal decimal =
    ((n : ℕ) → contains (decimal n) b':' ≡ false) × ((n m : ℕ) → decimal n ≡ decimal m → n ≡ m)

drop-append_length : (xs ys : Text) → drop (length xs) (xs ++ ys) ≡ ys
drop-append_length [] ys = refl
drop-append_length (x ∷ xs) ys = drop-append_length xs ys

some_length : (a b : ℕ) → some a ≡ some b → a ≡ b
some_length a b h = ground (arith, h)

tail_eq : (c d : ℕ) (xs ys : Text) → c ∷ xs ≡ d ∷ ys → xs ≡ ys
tail_eq c d xs ys h = ap (λ (t : Text). drop 1 t) h

module _ {Client W : Type 0} (p : Platform Client W) where
  open p use {decimal}

  pub key_injective :
      IsDecimal decimal
      → (host host' : Text) (port port' : ℕ) → key p host port ≡ key p host' port'
      → (host ≡ host') × (port ≡ port')
  unfolding key
  key_injective (plain, distinct) host host' port port' h =
      let at : last_colon (key p host port) ≡ some (length host) =
        last_colon-append host (decimal port) (plain port) in
      let at' : last_colon (key p host' port') ≡ some (length host') =
        last_colon-append host' (decimal port') (plain port') in
      let lengths : length host ≡ length host' =
        some_length (length host) (length host') (sym at ∙ ap last_colon h ∙ at') in
      let hosts : host ≡ host' =
        sym (take-append_length host (b':' ∷ decimal port))
        ∙ ap (take (length host)) h
        ∙ ap (λ n. take n (key p host' port')) lengths
        ∙ take-append_length host' (b':' ∷ decimal port') in
      let rests : b':' ∷ decimal port ≡ b':' ∷ decimal port' =
        sym (drop-append_length host (b':' ∷ decimal port))
        ∙ ap (drop (length host)) h
        ∙ ap (λ n. drop n (key p host' port')) lengths
        ∙ drop-append_length host' (b':' ∷ decimal port') in
      (hosts, distinct port port' (tail_eq b':' b':' (decimal port) (decimal port') rests))
