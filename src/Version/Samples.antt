-- ===== src/Version/Samples.antt =====
-- Small versions, and what the program does on them.
use cluster_api_provider_bar.Prelude.{text_beq, ◌≡◌, refl, ◌↔◌, true, false, codes}
use cluster_api_provider_bar.Version.{match_version, version_to_name, safe_char, is_alphanumeric}
use cluster_api_provider_bar.Version.Matching.{Matches, match_version_iff}
use cluster_api_provider_bar.Version.Naming.{Alike, version_to_name_iff}

runs :
    (match_version (codes "v1.30.*") (codes "v1.30.2") ≡ true)
    × (match_version (codes "*") (codes "") ≡ false)
    × (match_version (codes "v1.30") (codes "v1.30.2") ≡ false)
    × (version_to_name (codes "v1.31.1") ≡ codes "v1-31-1")
unfolding match_version version_to_name safe_char is_alphanumeric text_beq
runs = (refl, refl, refl, refl)

match_version_iff_example :
    (match_version (codes "v1.*") (codes "v1.31.1") ≡ true)
    ↔ Matches (codes "v1.*") (codes "v1.31.1")
match_version_iff_example = match_version_iff (codes "v1.*") (codes "v1.31.1")

version_to_name_iff_example :
    (version_to_name (codes "1.2") ≡ version_to_name (codes "1-2"))
    ↔ Alike (codes "1.2") (codes "1-2")
version_to_name_iff_example = version_to_name_iff (codes "1.2") (codes "1-2")
