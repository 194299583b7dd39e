-- ===== src/Addon/Outcome.antt =====
-- What an upgrade of an addon that succeeds has done.
use cluster_api_provider_bar.Prelude.{
  ℕ, zero, suc, ◌≡◌, inl, inr, refl, Text, false, Option, some, ◌==◌, string_eq, arith, Result, ok,
  err, Option-cases,
}
use cluster_api_provider_bar.Effects.{Action, wrap, when, ◌>>◌, >>=-eq-ok, err-ne-ok}
use cluster_api_provider_bar.ClusterVersion.Resource.{installed}
use cluster_api_provider_bar.Addon.{
  Platform, AddonError, ClusterAddon, AddonDefinition, ComponentUpgradeConfig, Release,
  hooks_failed, backup_failed, unhealthy, no_error,
}
use cluster_api_provider_bar.Addon.Content.{find_addon_definition}
use cluster_api_provider_bar.Addon.Jobs.{seconds_or_default, execute_hooks}
use cluster_api_provider_bar.Addon.Strategies.{perform_upgrade}
use cluster_api_provider_bar.Addon.Upgrader.{
  rounds_of, asks_backup, upgraded_addon, backup_addon, health_job, check_once, health_rounds,
  run_health_check, give_up, perform_or_give_up, health_checked, upgrade_to, upgrade,
}
use cluster_api_provider_bar.Addon.Completed.{
  PollHolds, Completed, create_and_wait-Completed, AnyCompleted, perform_upgrade-Completed,
}

module _ {W : Type 0} (p : Platform W) where
  open p use {update_status}

  -- Some job of the health check completed.
  abbrev pub Healthy : ClusterAddon → ComponentUpgradeConfig → Type 0
  Healthy addon config = (w : W) × Completed p (health_job p addon config w)

  health_rounds-Healthy :
      PollHolds p
      → (n : ℕ) (last : AddonError) (addon : ClusterAddon) (config : ComponentUpgradeConfig) (w : W)
      → (health_rounds p n last addon config w).0 ≡ ok tt
      → Healthy addon config
  unfolding health_rounds check_once
  health_rounds-Healthy holds zero last addon config w h = absurd (err-ne-ok h)
  health_rounds-Healthy holds (suc n) last addon config w h =
      round (check_once p addon config w).0 refl
        (λ e. health_rounds-Healthy holds n e addon config (check_once p addon config w).1)
    where
      round :
          (r : Result AddonError (Unit {0}))
          → (check_once p addon config w).0 ≡ r
          → ((e : AddonError)
              → (health_rounds p n e addon config (check_once p addon config w).1).0 ≡ ok tt
              → Healthy addon config)
          → Healthy addon config
      round (ok _) same again = (
        w,
        create_and_wait-Completed p holds (health_job p addon config w)
            (some (seconds_or_default config.health_timeout)) w same,
      )
      round (err e) same again = again e (rw (same, health_rounds) at h)

  wrap-eq-ok :
      (f : AddonError → AddonError) (m : Action AddonError W (Unit {0})) (w : W)
      → (wrap f m w).0 ≡ ok tt
      → (m w).0 ≡ ok tt
  wrap-eq-ok f m w h = ground (arith, h)

  give_up-err :
      (addon : ClusterAddon) (def : AddonDefinition) (e : AddonError) (w : W)
      → (give_up p addon def e w).0 ≡ ok tt
      → ⊥
  unfolding give_up
  give_up-err addon def e w h = ground (arith, h)

  pub performed :
      (server : Text) (addon : ClusterAddon) (def : AddonDefinition) (target : Release) (w : W)
      → (perform_or_give_up p server addon def target w).0 ≡ ok tt
      → (perform_upgrade p server addon def target w).0 ≡ ok tt
  performed server addon def target w h = split (perform_upgrade p server addon def target w).0 refl
    where
      split :
          (r : Result AddonError (Unit {0}))
          → (perform_upgrade p server addon def target w).0 ≡ r
          → (perform_upgrade p server addon def target w).0 ≡ ok tt
      split (ok _) same = same
      split (err e) same = absurd (
          give_up-err addon def e (perform_upgrade p server addon def target w).1
            (rw (same, perform_or_give_up) at h))

  health_checked-Healthy :
      PollHolds p
      → (addon : ClusterAddon) (def : AddonDefinition) (w : W)
      → (health_checked p addon def w).0 ≡ ok tt
      → (config : ComponentUpgradeConfig) → def.upgrade ≡ some config
      → (config.health_command == "") ≡ false
      → Healthy addon config
  unfolding run_health_check
  health_checked-Healthy holds addon def w h config given asked =
      health_rounds-Healthy holds (rounds_of config.health_retries) no_error addon config w
        (wrap-eq-ok unhealthy (run_health_check p addon config) w (rw (given, asked) at h))

  -- What an upgrade to a definition that succeeds has done.
  abbrev pub UpgradedTo : ClusterAddon → AddonDefinition → Type 0
  UpgradedTo addon def =
      AnyCompleted p def addon
      × ((config : ComponentUpgradeConfig)
          → def.upgrade ≡ some config
          → (config.health_command == "") ≡ false
          → Healthy addon config)
      × (saved : ClusterAddon) × (saved.addon_name ≡ addon.addon_name)
      × (saved.version ≡ def.version)
      × (saved.phase ≡ installed)
      × (w : W) × ((update_status saved w).0 ≡ ok tt)

  upgrade_to-UpgradedTo :
      PollHolds p
      → (server : Text) (addon : ClusterAddon) (current : Option AddonDefinition)
        (def : AddonDefinition) (target : Release) (w : W)
      → (upgrade_to p server addon current def target w).0 ≡ ok tt
      → UpgradedTo addon def
  unfolding upgraded_addon
  upgrade_to-UpgradedTo holds server addon current def target w h =
      let save : Action AddonError W (Unit {0}) = update_status (upgraded_addon def addon) in
      let healthy : Action AddonError W (Unit {0}) = health_checked p addon def in
      let hook_with : Action AddonError W (Unit {0}) =
        wrap hooks_failed (execute_hooks p "DefaultKubectlImage" addon def.post_hooks) in
      let perform : Action AddonError W (Unit {0}) = perform_or_give_up p server addon def target in
      let backup : Action AddonError W (Unit {0}) =
        when (asks_backup def) (wrap backup_failed (backup_addon p addon current)) in
      let before : Action AddonError W (Unit {0}) =
        wrap hooks_failed (execute_hooks p "DefaultKubectlImage" addon def.pre_hooks) in
      let (_, _, h1) =
        >>=-eq-ok before (λ _. backup >> (perform >> (hook_with >> (healthy >> save)))) w h in
      let w1 = (before w).1 in
      let (_, _, h2) = >>=-eq-ok backup (λ _. perform >> (hook_with >> (healthy >> save))) w1 h1 in
      let w2 = (backup w1).1 in
      let (_, did, h3) = >>=-eq-ok perform (λ _. hook_with >> (healthy >> save)) w2 h2 in
      let w3 = (perform w2).1 in
      let (_, _, h4) = >>=-eq-ok hook_with (λ _. healthy >> save) w3 h3 in
      let w4 = (hook_with w3).1 in
      let (_, checked, saved) = >>=-eq-ok healthy (λ _. save) w4 h4 in
      (
        perform_upgrade-Completed p holds server def target addon w2
            (performed server addon def target w2 did),
        health_checked-Healthy holds addon def w4 checked,
        upgraded_addon def addon,
        refl,
        refl,
        refl,
        (healthy w4).1,
        saved,
      )

  -- If a polling wait that succeeds has seen its condition hold, an upgrade that succeeds has found
  -- the addon in the target release, has created its upgrade job, or that of its green copy, and has
  -- seen it complete, has seen a job of the health check complete if the release asks for one, and has
  -- saved a status of the addon with the version of the target and the phase Installed.
  pub upgrade-UpgradedTo :
      PollHolds p
      → (server : Text) (addon : ClusterAddon) (current : Option Release) (target : Release) (w : W)
      → (upgrade p server addon current target w).0 ≡ ok tt
      → (def : AddonDefinition) × (find_addon_definition (some target) addon.addon_name ≡ some def)
        × UpgradedTo addon def
  unfolding upgrade
  upgrade-UpgradedTo holds server addon current target w h =
      elim (Option-cases (find_addon_definition (some target) addon.addon_name)) [
        | inl lacks ↦ absurd (err-ne-ok (rw (lacks, upgrade) at h))
        | inr (def, found) ↦ (
          def,
          found,
          upgrade_to-UpgradedTo holds server addon (find_addon_definition current addon.addon_name)
              def target w (rw (found, upgrade) at h),
        )
      ]
