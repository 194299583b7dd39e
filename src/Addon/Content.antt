-- ===== src/Addon/Content.antt =====
-- The content of an addon: `FetchFromReleaseImage`, and the lookup of a definition in a release.
use cluster_api_provider_bar.Prelude.{
  Text, not, Option, none, some, List, [], ◌==◌, text_eq, if◌then◌else◌, is_empty, find?, ok,
}
use cluster_api_provider_bar.Effects.{Action, fail}
use cluster_api_provider_bar.Addon.{
  Platform, AddonError, AddonDefinition, Release, addon_not_found, no_content_source,
}

unfoldable pub find_definition : List AddonDefinition → Text → Option AddonDefinition
find_definition addons name = find? (λ def. def.name == name) addons

-- `findAddonDefinition` of the upgrader, for a release that may be nil.
unfoldable pub find_addon_definition : Option Release → Text → Option AddonDefinition
unfolding find_definition
find_addon_definition none name = none
find_addon_definition (some release) name = find_definition release.addons name

pub record ContentFetcher : Type 0 where
  pub release_server : Text
  pub local_dir : Text

unfoldable pub new_content_fetcher : Text → ContentFetcher
new_content_fetcher server = record { release_server = server; local_dir = [] }

module _ {W : Type 0} (p : Platform W) where
  open p use {read_file, http_get}

  abbrev pub fetch_remote : ContentFetcher → AddonDefinition → Action AddonError W Text
  fetch_remote f def =
      if not (is_empty f.release_server)
      then http_get f.release_server def.content_path
      else fail no_content_source

  -- The local directory first, then the server.
  abbrev pub fetch_definition : ContentFetcher → AddonDefinition → Action AddonError W Text
  fetch_definition f def w =
      if is_empty f.local_dir
      then fetch_remote f def w
      else let (r, w') = read_file f.local_dir def.content_path w in
        elim r [ some content ↦ (ok content, w') | none ↦ fetch_remote f def w' ]

  unfoldable pub fetch_from_release_image :
      ContentFetcher → Release → (name : Text) → Action AddonError W Text
  fetch_from_release_image f release name = elim (find_definition release.addons name) [
    | none ↦ fail addon_not_found
    | some def ↦ fetch_definition f def
  ]
