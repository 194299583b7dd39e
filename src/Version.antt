-- ===== src/Version.antt =====
-- Version strings: `matchVersion` of modules/cvo/internal/upgrader/graph_executor.go and the name
-- that modules/cvo/internal/controllers/clusterversion_controller.go derives from a version.
pub mod Matching
pub mod Naming
mod Samples
use cluster_api_provider_bar.Prelude.{
  ℕ, Text, Bool, true, false, ◌&&◌, ◌||◌, List, [], ◌∷◌, map, leb, ◌==◌, if◌then◌else◌, length,
  take, is_empty, nat_eq, text_eq,
}

-- The byte of `*`.
abbrev pub star : ℕ
star = b'*'

-- `pattern[len(pattern)-1] == '*'`
ends_in_star : Text → Bool
ends_in_star [] = false
ends_in_star (c ∷ []) = c == star
ends_in_star (c ∷ d ∷ r) = ends_in_star (d ∷ r)

-- `pattern[:len(pattern)-1]`
drop_last : Text → Text
drop_last [] = []
drop_last (c ∷ []) = []
drop_last (c ∷ d ∷ r) = c ∷ drop_last (d ∷ r)

unfoldable pub match_version : Text → Text → Bool
unfolding ends_in_star drop_last
match_version pattern' version =
    if is_empty pattern' || is_empty version
    then false
    else if ends_in_star pattern'
    then (let prefix = drop_last pattern' in
        leb (length prefix) (length version) && take (length prefix) version == prefix)
    else pattern' == version

unfoldable pub is_alphanumeric : ℕ → Bool
is_alphanumeric c =
    (leb b'a' c && leb c b'z') || (leb b'A' c && leb c b'Z') || (leb b'0' c && leb c b'9')

unfoldable pub safe_char : ℕ → ℕ
unfolding is_alphanumeric
safe_char c = if is_alphanumeric c then c else b'-'

unfoldable pub version_to_name : Text → Text
version_to_name version = map safe_char version

-- `safeImageName` has the loop of `versionToName`.
unfoldable pub safe_image_name : Text → Text
safe_image_name image = map safe_char image
