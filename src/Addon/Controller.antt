-- ===== src/Addon/Controller.antt =====
-- `Reconcile` of cluster addons: modules/cvo/internal/controllers/clusteraddon_controller.go. The
-- status is changed in memory before it is saved, so an upgrade returns the addon as it is then.
use cluster_api_provider_bar.Prelude.{
  ℕ, String, Text, Bool, true, false, not, none, some, List, [], ◌∷◌, ◌++◌, ◌==◌, text_eq,
  string_eq, if◌then◌else◌, contains, remove, Result, ok, err,
}
use cluster_api_provider_bar.Effects.{Action, pure, fail, ◌>>=◌, ◌>>◌}
use cluster_api_provider_bar.ClusterVersion.Resource.{AddonPhase, upgrading, failed}
use cluster_api_provider_bar.Addon.{
  Platform, AddonError, api_failed, job_failed, unsupported_type, JobCondition, ClusterAddon,
  AddonDefinition, Release,
}
use cluster_api_provider_bar.Addon.Content.{find_definition}
use cluster_api_provider_bar.Addon.Jobs.{
  JobState, complete, failed, running, job_state, seconds_or_default,
}
use cluster_api_provider_bar.Addon.Installer.{
  install_timeout, waits_for_job, install_helm, install_manifest,
}
use cluster_api_provider_bar.Addon.Upgrader.{upgraded_addon}

pub data Found (A : Type 0) : Type 0 where
  present : A → Found A
  missing unreadable : Found A

-- The resource, and the name of the release image that it refers to.
pub record AddonResource : Type 0 where
  pub addon : ClusterAddon
  pub finalizers : List String
  pub deleting : Bool
  pub release_image : Text

pub record Store (W : Type 0) : Type 0 where
  pub get_resource : W → Found AddonResource × W
  pub update_resource : AddonResource → Action AddonError W (Unit {0})
  pub get_release : (name : Text) → W → Found Release × W
  pub reread : ClusterAddon → Action AddonError W (Unit {0})
  -- The conditions of each job with the label of the addon.
  pub list_jobs : (namespace addon_name : Text) → Action AddonError W (List (List JobCondition))

abbrev pub addon_finalizer : String
addon_finalizer = "clusteraddon.cvo.capbm.io"

-- The first job that has come to an end decides.
unfoldable pub jobs_state : List (List JobCondition) → JobState
jobs_state [] = running
jobs_state (conditions ∷ jobs) =
    let rest = jobs_state jobs in
    elim (job_state conditions) [ complete ↦ complete | failed ↦ failed | running ↦ rest ]

module _ {W : Type 0} (p : Platform W) (store : Store W) where
  open p use {update_status, poll}
  open store use {get_resource, update_resource, get_release, reread, list_jobs}

  abbrev pub as_round : JobState → Action AddonError W Bool
  as_round complete = pure true
  as_round failed = fail job_failed
  as_round running = pure false

  unfoldable pub jobs_done : ClusterAddon → Action AddonError W Bool
  jobs_done addon = do
    reread addon
    jobs ← list_jobs addon.namespace addon.addon_name
    as_round (jobs_state jobs)

  -- Only waited for if the strategy says so.
  unfoldable pub wait_for_addon_ready :
      ClusterAddon → AddonDefinition → Action AddonError W (Unit {0})
  wait_for_addon_ready addon def =
      if not (waits_for_job def.install_strategy)
      then pure tt
      else poll 5 (seconds_or_default (install_timeout def.install_strategy)) (jobs_done addon)

  -- The installers are built without a release server.
  unfoldable pub install : ClusterAddon → AddonDefinition → Release → Action AddonError W (Unit {0})
  install addon def release =
      if def.type == "helm"
      then install_helm p [] addon release def
      else if def.type == "manifest"
      then install_manifest p [] addon release def
      else fail unsupported_type

  abbrev pub Upgrade : Type 0
  Upgrade = Result AddonError (Unit {0}) × ClusterAddon × W

  abbrev pub in_phase : AddonPhase → ClusterAddon → ClusterAddon
  in_phase phase addon = record addon { phase = phase }

  -- The save of the last status, which has been set before it.
  abbrev pub save_upgraded :
      ClusterAddon → Result AddonError (Unit {0}) × W → (before : ClusterAddon) → Upgrade
  save_upgraded done (err e, w) before = (err e, before, w)
  save_upgraded done (ok _, w) before = let (r, w') = update_status done w in (r, done, w')

  unfoldable pub upgrade_addon : ClusterAddon → AddonDefinition → Release → W → Upgrade
  upgrade_addon addon def release w =
      let busy : ClusterAddon = in_phase upgrading addon in
      let steps : Action AddonError W (Unit {0}) =
        update_status busy >> (install busy def release >> wait_for_addon_ready busy def) in
      save_upgraded (upgraded_addon def busy) (steps w) busy

  -- The seconds after which the resource is looked at again.
  unfoldable pub upgrade_if_needed :
      ClusterAddon → AddonDefinition → Release → Action AddonError W ℕ
  upgrade_if_needed addon def release w =
      if addon.version == def.version
      then (ok 300, w)
      else let (r, addon', w') = upgrade_addon addon def release w in
        elim r [
          | ok _ ↦ (ok 300, w')
          | err e ↦ let (_, w'') = update_status (in_phase failed addon') w' in (err e, w'')
        ]

  unfoldable pub reconcile_release : ClusterAddon → Release → Action AddonError W ℕ
  reconcile_release addon release = elim (find_definition release.addons addon.addon_name) [
    | none ↦ pure 60
    | some def ↦ upgrade_if_needed addon def release
  ]

  unfoldable pub reconcile_present : AddonResource → Action AddonError W ℕ
  reconcile_present resource w =
      let (r, w') = get_release resource.release_image w in
      elim r [
        | missing ↦ (ok 30, w')
        | unreadable ↦ (err api_failed, w')
        | present release ↦ reconcile_release resource.addon release w'
      ]

  unfoldable pub reconcile_delete : AddonResource → Action AddonError W ℕ
  reconcile_delete resource =
      update_resource (record resource { finalizers = remove resource.finalizers addon_finalizer })
      >> pure 0

  abbrev pub ensure_finalizer : AddonResource → Action AddonError W (Unit {0})
  ensure_finalizer resource =
      if contains resource.finalizers addon_finalizer
      then pure tt
      else update_resource
          (record resource { finalizers = resource.finalizers ++ addon_finalizer ∷ [] })

  unfoldable pub reconcile : Action AddonError W ℕ
  reconcile w =
      let (r, w') = get_resource w in
      elim r [
        | missing ↦ (ok 0, w')
        | unreadable ↦ (err api_failed, w')
        | present resource ↦
            if resource.deleting
            then reconcile_delete resource w'
            else (ensure_finalizer resource >> reconcile_present resource) w'
      ]
