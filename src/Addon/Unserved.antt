-- ===== src/Addon/Unserved.antt =====
-- What becomes of addons without a source of content. Every controller builds the installers and the
-- upgrader with an empty release server, and the fetchers that these make have no local directory.
use cluster_api_provider_bar.Prelude.{
  ◌≡◌, ◌≢◌, [], Text, Option, some, ◌==◌, string_eq, refl, ap, arith, Result, ok, err, inl, inr,
  Bool-cases, Option-cases,
}
use cluster_api_provider_bar.Effects.{Action, wrap, when, ◌>>=◌, ◌>>◌, >>=-eq-ok, err-ne-ok}
use cluster_api_provider_bar.Addon.{
  Platform, AddonError, ClusterAddon, AddonDefinition, AddonUpgradeStrategy, Release,
  marshal_failed, hooks_failed, backup_failed, kubectl_delete,
}
use cluster_api_provider_bar.Addon.Content.{
  find_definition, find_addon_definition, new_content_fetcher, fetch_from_release_image,
}
use cluster_api_provider_bar.Addon.Jobs.{create_and_wait, create_or_keep, execute_hooks}
use cluster_api_provider_bar.Addon.Installer.{
  or_fail, check_values, values_of, helm_config_map, install_helm, install_manifest,
}
use cluster_api_provider_bar.Addon.Strategies.{
  strategy_of, green, kubectl_job, run_upgrade_job, rolling_upgrade_helm, rolling_upgrade_manifest,
  rolling_upgrade, recreate_upgrade, blue_green_upgrade, perform_upgrade,
}
use cluster_api_provider_bar.Addon.Upgrader.{
  asks_backup, backup_addon, perform_or_give_up, upgrade_to, upgrade, upgraded_addon,
}
use cluster_api_provider_bar.Addon.Outcome.{performed}
use cluster_api_provider_bar.ClusterVersion.Resource.{upgrading}
use cluster_api_provider_bar.Addon.Controller.{
  Store, install, in_phase, wait_for_addon_ready, save_upgraded, upgrade_addon,
}

module _ {W : Type 0} (p : Platform W) where
  -- An action that fails in every world.
  abbrev Fails : {A : Type 0} → Action AddonError W A → Type 0
  Fails {A} m = (w : W) (a : A) → (m w).0 ≡ ok a → ⊥

  first-Fails :
      {A B : Type 0} (m : Action AddonError W A) (f : A → Action AddonError W B)
      → Fails m
      → Fails (m >>= f)
  first-Fails m f bad w b h = let (a, first, _) = >>=-eq-ok m f w h in bad w a first

  later-Fails :
      {A B : Type 0} (m : Action AddonError W A) (f : A → Action AddonError W B)
      → ((a : A) → Fails (f a))
      → Fails (m >>= f)
  later-Fails m f bad w b h = let (a, _, later) = >>=-eq-ok m f w h in bad a (m w).1 b later

  fetch-Fails :
      (release : Release) (name : Text)
      → Fails (fetch_from_release_image p (new_content_fetcher []) release name)
  unfolding fetch_from_release_image new_content_fetcher
  fetch-Fails release name w a h = elim (Option-cases (find_definition release.addons name)) [
    | inl lacks ↦ err-ne-ok (rw (lacks, fetch_from_release_image) at h)
    | inr (def, found) ↦ err-ne-ok (rw (found, fetch_from_release_image) at h)
  ]

  module _ (addon : ClusterAddon) (def : AddonDefinition) (release : Release) where
    abbrev fetch : Action AddonError W Text
    fetch = fetch_from_release_image p (new_content_fetcher []) release addon.addon_name

    helm-Fails :
        (strategy : AddonUpgradeStrategy)
        → Fails (rolling_upgrade_helm p [] addon def release strategy)
    unfolding rolling_upgrade_helm
    helm-Fails strategy =
        later-Fails (or_fail p marshal_failed (p.marshal_yaml (values_of p addon def)))
          (λ values. fetch >>= λ chart.
            create_or_keep p (helm_config_map p addon chart values)
            >> run_upgrade_job p addon def strategy)
          (λ values.
            first-Fails fetch
              (λ chart.
                create_or_keep p (helm_config_map p addon chart values)
                >> run_upgrade_job p addon def strategy)
              (fetch-Fails release addon.addon_name))

    manifest-Fails :
        (strategy : AddonUpgradeStrategy)
        → Fails (rolling_upgrade_manifest p [] addon def release strategy)
    unfolding rolling_upgrade_manifest
    manifest-Fails strategy = first-Fails fetch _ (fetch-Fails release addon.addon_name)

    rolling-Fails :
        (strategy : AddonUpgradeStrategy) → Fails (rolling_upgrade p [] addon def release strategy)
    unfolding rolling_upgrade
    rolling-Fails strategy w a h = elim (Bool-cases (def.type == "helm")) [
      | inl charts ↦ helm-Fails strategy w a (rw (charts) at h)
      | inr x ↦ elim (Bool-cases (def.type == "manifest")) [
        | inl applies ↦ manifest-Fails strategy w a (rw (x, applies) at h)
        | inr y ↦ err-ne-ok (rw (x, y) at h)
      ]
    ]

    install_helm-Fails : Fails (install_helm p [] addon release def)
    unfolding install_helm
    install_helm-Fails = later-Fails (check_values p addon def) _ (λ _.
        later-Fails (wrap hooks_failed (execute_hooks p "DefaultKubectlImage" addon def.pre_hooks))
          _
          (λ _.
            later-Fails (or_fail p marshal_failed (p.marshal_yaml (values_of p addon def))) _
              (λ values. first-Fails fetch _ (fetch-Fails release addon.addon_name))))

    install_manifest-Fails : Fails (install_manifest p [] addon release def)
    unfolding install_manifest
    install_manifest-Fails = later-Fails (check_values p addon def) _ (λ _.
        later-Fails
          (wrap hooks_failed (execute_hooks p "addon.DefaultKubectlImage" addon def.pre_hooks)) _
          (λ _. first-Fails fetch _ (fetch-Fails release addon.addon_name)))

  recreate-Fails :
      (addon : ClusterAddon) (def : AddonDefinition) (release : Release)
      (strategy : AddonUpgradeStrategy)
      → Fails (recreate_upgrade p [] addon def release strategy)
  unfolding recreate_upgrade
  recreate-Fails addon def release strategy =
      later-Fails
        (create_and_wait p (kubectl_job p "delete-" addon kubectl_delete 1) strategy.timeout) _
        (λ _. rolling-Fails addon def release strategy)

  blue_green-Fails :
      (addon : ClusterAddon) (def : AddonDefinition) (release : Release)
      (strategy : AddonUpgradeStrategy)
      → Fails (blue_green_upgrade p [] addon def release strategy)
  unfolding blue_green_upgrade
  blue_green-Fails addon def release strategy =
      first-Fails (rolling_upgrade p [] (green addon) def release strategy) _
        (rolling-Fails (green addon) def release strategy)

  perform-Fails :
      (addon : ClusterAddon) (def : AddonDefinition) (release : Release)
      → Fails (perform_upgrade p [] addon def release)
  unfolding perform_upgrade
  perform-Fails addon def release w a h =
      let s : AddonUpgradeStrategy = strategy_of def in
      elim (Bool-cases (s.type == "Rolling")) [
        | inl rolls ↦ rolling-Fails addon def release s w a (rw (rolls) at h)
        | inr x ↦ elim (Bool-cases (s.type == "Recreate")) [
          | inl recreates ↦ recreate-Fails addon def release s w a (rw (x, recreates) at h)
          | inr y ↦ elim (Bool-cases (s.type == "BlueGreen")) [
            | inl copies ↦ blue_green-Fails addon def release s w a (rw (x, y, copies) at h)
            | inr z ↦ rolling-Fails addon def release s w a (rw (x, y, z) at h)
          ]
        ]
      ]

  upgrade_to-Fails :
      (addon : ClusterAddon) (current : Option AddonDefinition) (def : AddonDefinition)
      (release : Release)
      → Fails (upgrade_to p [] addon current def release)
  upgrade_to-Fails addon current def release =
      later-Fails (wrap hooks_failed (execute_hooks p "DefaultKubectlImage" addon def.pre_hooks)) _
        (λ _.
          later-Fails (when (asks_backup def) (wrap backup_failed (backup_addon p addon current))) _
            (λ _. first-Fails (perform_or_give_up p [] addon def release) _ (λ w a h.
              perform-Fails addon def release w a (performed p [] addon def release w h))))

  install-Fails :
      (store : Store W) (addon : ClusterAddon) (def : AddonDefinition) (release : Release)
      → Fails (install p store addon def release)
  unfolding install
  install-Fails store addon def release w a h = elim (Bool-cases (def.type == "helm")) [
    | inl charts ↦ install_helm-Fails addon def release w a (rw (charts) at h)
    | inr x ↦ elim (Bool-cases (def.type == "manifest")) [
      | inl applies ↦ install_manifest-Fails addon def release w a (rw (x, applies) at h)
      | inr y ↦ err-ne-ok (rw (x, y) at h)
    ]
  ]

  -- The update of the status to the phase Upgrading, and then the install.
  abbrev pub start_install :
      Store W → ClusterAddon → AddonDefinition → Release → Action AddonError W (Unit {0})
  start_install store addon def release =
      p.update_status (in_phase p store upgrading addon)
      >> install p store (in_phase p store upgrading addon) def release

  -- The version and everything but the phase stays as it is, in the addon that is returned and, since
  -- nothing happens after the install, in the API server.
  abbrev pub StaysBehind : Store W → ClusterAddon → AddonDefinition → Release → W → Type 0
  StaysBehind store addon def release w =
      (e : AddonError) × (upgrade_addon p store addon def release w
        ≡ (err e, in_phase p store upgrading addon, (start_install store addon def release w).1))

  after_err :
      (m n o : Action AddonError W (Unit {0})) (w : W)
      → ((m >> n) w).0 ≢ ok tt
      → (e : AddonError) × ((m >> (n >> o)) w ≡ (err e, ((m >> n) w).1))
  after_err m n o w fails = first (m w).0 refl
    where
      second :
          (r : Result AddonError (Unit {0}))
          → (m w).0 ≡ ok tt
          → (n (m w).1).0 ≡ r
          → (e : AddonError) × ((m >> (n >> o)) w ≡ (err e, ((m >> n) w).1))
      second (ok _) same did = absurd (fails (ground (arith, same, did)))
      second (err e) same failed = (e, ground (arith, same, failed))

      first :
          (r : Result AddonError (Unit {0}))
          → (m w).0 ≡ r
          → (e : AddonError) × ((m >> (n >> o)) w ≡ (err e, ((m >> n) w).1))
      first (ok _) same = second (n (m w).1).0 same refl
      first (err e) failed = (e, ground (arith, failed))

  upgrade_addon-StaysBehind :
      (store : Store W) (addon : ClusterAddon) (def : AddonDefinition) (release : Release) (w : W)
      → StaysBehind store addon def release w
  unfolding upgrade_addon
  upgrade_addon-StaysBehind store addon def release w =
      let busy : ClusterAddon = in_phase p store upgrading addon in
      let (e, same) =
        after_err (p.update_status busy) (install p store busy def release)
          (wait_for_addon_ready p store busy def) w
          (λ h.
            let (_, _, did) =
              >>=-eq-ok (p.update_status busy) (λ _. install p store busy def release) w h in
            install-Fails store busy def release (p.update_status busy w).1 tt did) in
      (e, ap (λ out. save_upgraded p store (upgraded_addon def busy) out busy) same)

  -- With an empty release server no install of an addon succeeds and no upgrade. The upgrade by the
  -- controller of cluster addons fails, and what it does to the world is the update of the status to the
  -- phase Upgrading and the install that fails; the addon that it returns differs from the given one in
  -- its phase alone, so the version of the release is not written.
  pub upgrade-install-Fails :
      (store : Store W) (addon : ClusterAddon) (current : Option Release) (release : Release)
      (def : AddonDefinition) (w : W)
      → ((upgrade p [] addon current release w).0 ≢ ok tt)
        × ((install_helm p [] addon release def w).0 ≢ ok tt)
        × ((install_manifest p [] addon release def w).0 ≢ ok tt)
        × StaysBehind store addon def release w
  unfolding upgrade
  upgrade-install-Fails store addon current release def w = (
    λ h. elim (Option-cases (find_addon_definition (some release) addon.addon_name)) [
      | inl lacks ↦ err-ne-ok (rw (lacks, upgrade) at h)
      | inr (target, found) ↦
          upgrade_to-Fails addon (find_addon_definition current addon.addon_name) target release w
            tt (rw (found, upgrade) at h)
    ],
    install_helm-Fails addon def release w tt,
    install_manifest-Fails addon def release w tt,
    upgrade_addon-StaysBehind store addon def release w,
  )
