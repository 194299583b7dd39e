-- ===== src/ClusterVersion/Addons.antt =====
-- The addons of a release: whether they need an upgrade, the order of their upgrade, and their status.
use cluster_api_provider_bar.Prelude.{
  ℕ, String, Text, Bool, true, false, not, Option, none, some, List, [], ◌∷◌, ◌==◌, text_eq,
  string_eq, if◌then◌else◌, is_empty, find?, ok, err,
}
use cluster_api_provider_bar.Effects.{Action, pure, wrap, ◌>>=◌, ◌>>◌, for_each}
use cluster_api_provider_bar.Version.{version_to_name}
use cluster_api_provider_bar.TopologicalSort.{DepGraph, put, topological_sort}
use cluster_api_provider_bar.ClusterVersion.Resource.{
  pending, installed, upgrading, AddonVersionStatus, AddonDefinition,
}
use cluster_api_provider_bar.ClusterVersion.Releases.{
  VersionError, api_failed, addon_failed, sort_failed, Lookup, found, missing, unreadable, Platform,
}

-- A later definition of the same name replaces the dependencies of an earlier one.
unfoldable pub add_addons : DepGraph → List AddonDefinition → DepGraph
add_addons graph [] = graph
add_addons graph (def ∷ addons) = add_addons (put def.name def.dependencies graph) addons

unfoldable pub build_addon_dependency_graph : List AddonDefinition → DepGraph
unfolding add_addons
build_addon_dependency_graph addons = add_addons [] addons

unfoldable pub find_addon_def_by_name : List AddonDefinition → String → Option AddonDefinition
find_addon_def_by_name addons name = find? (λ def. def.name == name) addons

-- What `updateAddonStatus` writes for an addon, by what is found of it.
abbrev pub addon_version_status : ℕ → AddonDefinition → Lookup Text → AddonVersionStatus
addon_version_status now def missing = record {
  name = def.name;
  version = [];
  target_version = def.version;
  phase = pending;
  last_transition_time = now;
}
addon_version_status now def (found version) = record {
  name = def.name;
  version = version;
  target_version = def.version;
  phase = if version == def.version then installed else upgrading;
  last_transition_time = now;
}
addon_version_status now def unreadable = record {
  name = def.name;
  version = [];
  target_version = def.version;
  phase = installed;
  last_transition_time = now;
}

module _ {W : Type 0} (p : Platform W) where
  open p use {get_addon, create_addon, upgrade_addon, get_release, iteration}

  -- The loop stops at the first addon that is missing or reports another version.
  unfoldable pub needs_addon_upgrade : String → List AddonDefinition → W → Bool × W
  needs_addon_upgrade namespace [] w = (false, w)
  needs_addon_upgrade namespace (def ∷ addons) w =
      let (r, w') = get_addon namespace def.name w in
      let skip = needs_addon_upgrade namespace addons w in
      let rest = needs_addon_upgrade namespace addons w' in
      if is_empty def.version then skip else elim r [
        | missing ↦ (true, w')
        | unreadable ↦ rest
        | found version ↦ if not (version == def.version) then (true, w') else rest
      ]

  unfoldable pub update_addon_status :
      ℕ → String → List AddonDefinition → W → List AddonVersionStatus × W
  update_addon_status now namespace [] w = ([], w)
  update_addon_status now namespace (def ∷ addons) w =
      let (r, w') = get_addon namespace def.name w in
      let skip = update_addon_status now namespace addons w in
      let (rest, w'') = update_addon_status now namespace addons w' in
      if is_empty def.version then skip else (addon_version_status now def r ∷ rest, w'')

  -- The addon's version, after it was created if it was missing.
  abbrev pub ensure_addon : String → AddonDefinition → Action VersionError W Text
  ensure_addon namespace def w =
      let (r, w') = get_addon namespace def.name w in
      elim r [
        | found version ↦ (ok version, w')
        | unreadable ↦ (err api_failed, w')
        | missing ↦ (wrap (λ _. addon_failed def.name) (create_addon namespace def) >> pure []) w'
      ]

  unfoldable pub upgrade_one :
      String
      → (current : Lookup (Unit {0})) → List AddonDefinition
      → String
      → Action VersionError W (Unit {0})
  upgrade_one namespace current addons name = elim (find_addon_def_by_name addons name) [
    | none ↦ pure tt
    | some def ↦ do
      version ← ensure_addon namespace def
      if version == def.version
          then pure tt
          else wrap (λ _. addon_failed name) (upgrade_addon namespace current def)
  ]

  -- The sort always returns, so the error of a failed sort is never met.
  unfoldable pub execute_addon_upgrades :
      String → (from : Text) → List AddonDefinition → Action VersionError W (Unit {0})
  execute_addon_upgrades namespace from addons w =
      let graph = build_addon_dependency_graph addons in
      elim (topological_sort graph (iteration graph)) [
        | none ↦ (err sort_failed, w)
        | some sorted ↦
            let (current, w') = get_release (version_to_name from) w in
            for_each (upgrade_one namespace current addons) sorted w'
      ]
