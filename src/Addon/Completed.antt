-- ===== src/Addon/Completed.antt =====
-- The jobs that an upgrade of an addon has seen complete.
use cluster_api_provider_bar.Prelude.{
  ℕ, ◌≡◌, ◌⊎◌, inl, inr, Text, Bool, true, Option, some, List, ◌==◌, ◌++◌, codes, string_eq, arith,
  ok, Bool-cases, Option-cases,
}
use cluster_api_provider_bar.Effects.{Action, wrap, ◌>>=◌, ◌>>◌, >>=-eq-ok, err-ne-ok}
use cluster_api_provider_bar.Addon.{
  Platform, AddonError, Job, JobCondition, ClusterAddon, AddonDefinition, AddonUpgradeStrategy,
  Release, marshal_failed, template_failed, traffic_failed, kubectl_delete, delete_addon,
}
use cluster_api_provider_bar.Addon.Content.{new_content_fetcher, fetch_from_release_image}
use cluster_api_provider_bar.Addon.Jobs.{
  job_state, complete, job_done, wait_for_job, create_and_wait, create_or_keep, seconds_or_default,
}
use cluster_api_provider_bar.Addon.Installer.{or_fail, values_of, helm_config_map}
use cluster_api_provider_bar.Addon.Strategies.{
  strategy_of, green, kubectl_job, build_upgrade_job, run_upgrade_job, check_data,
  rolling_upgrade_helm, rolling_upgrade_manifest, rolling_upgrade, recreate_upgrade,
  blue_green_upgrade, perform_upgrade, verify_addon, switch_traffic,
}

module _ {W : Type 0} (p : Platform W) where
  open p use {create_job, job_conditions, poll}

  -- What a polling wait promises: if it succeeds, the condition held in some round.
  abbrev pub PollHolds : Type 0
  PollHolds =
      (interval timeout : ℕ) (condition : Action AddonError W Bool) (w : W)
      → (poll interval timeout condition w).0 ≡ ok tt
      → (w' : W) × ((condition w').0 ≡ ok true)

  -- A job that was created, and whose conditions were read when they told of its completion.
  abbrev pub Completed : Job → Type 0
  Completed job =
      (w : W) × ((create_job job w).0 ≡ ok tt)
      × (w' : W) × (conditions : List JobCondition) × ((job_conditions job.namespace job.name w').0
          ≡ some conditions)
      × (job_state conditions ≡ complete)

  job_done-complete :
      (job : Job) (w : W)
      → (job_done p job w).0 ≡ ok true
      → (conditions : List JobCondition) × ((job_conditions job.namespace job.name w).0
          ≡ some conditions)
        × (job_state conditions ≡ complete)
  unfolding job_done
  job_done-complete job w h = elim (Option-cases (job_conditions job.namespace job.name w).0) [
    | inl lacks ↦ ground (arith, lacks, h)
    | inr (conditions, seen) ↦ (conditions, seen, ground (arith, seen, h))
  ]

  pub create_and_wait-Completed :
      PollHolds
      → (job : Job) (timeout : Option ℕ) (w : W) → (create_and_wait p job timeout w).0 ≡ ok tt
      → Completed job
  unfolding create_and_wait wait_for_job
  create_and_wait-Completed holds job timeout w h =
      let (_, created, waited) = >>=-eq-ok (create_job job) (λ _. wait_for_job p job timeout) w h in
      let (w', done) =
        holds 5 (seconds_or_default timeout) (job_done p job) (create_job job w).1 waited in
      let (conditions, seen, finished) = job_done-complete job w' done in
      (w, created, w', conditions, seen, finished)

  -- The upgrade job of the addon or of its green copy.
  abbrev pub AnyCompleted : AddonDefinition → ClusterAddon → Type 0
  AnyCompleted def addon =
      Completed (build_upgrade_job p addon def (strategy_of def))
      ⊎ Completed (build_upgrade_job p (green addon) def (strategy_of def))

  module _ (holds : PollHolds) (server : Text) (def : AddonDefinition) (release : Release) where
    abbrev upgrade_job : ClusterAddon → AddonUpgradeStrategy → Job
    upgrade_job addon strategy = build_upgrade_job p addon def strategy

    run_upgrade_job-Completed :
        (addon : ClusterAddon) (strategy : AddonUpgradeStrategy) (w : W)
        → (run_upgrade_job p addon def strategy w).0 ≡ ok tt
        → Completed (upgrade_job addon strategy)
    run_upgrade_job-Completed addon strategy w h =
        create_and_wait-Completed holds (upgrade_job addon strategy) strategy.timeout w h

    helm-Completed :
        (addon : ClusterAddon) (strategy : AddonUpgradeStrategy) (w : W)
        → (rolling_upgrade_helm p server addon def release strategy w).0 ≡ ok tt
        → Completed (upgrade_job addon strategy)
    unfolding rolling_upgrade_helm
    helm-Completed addon strategy w h =
        let run : Action AddonError W (Unit {0}) = run_upgrade_job p addon def strategy in
        let fetch : Action AddonError W Text =
          fetch_from_release_image p (new_content_fetcher server) release addon.addon_name in
        let marshal : Action AddonError W Text =
          or_fail p marshal_failed (p.marshal_yaml (values_of p addon def)) in
        let (values, _, h1) =
          >>=-eq-ok marshal
            (λ values.
              fetch >>= λ chart. create_or_keep p (helm_config_map p addon chart values) >> run)
            w h in
        let (chart, _, h2) =
          >>=-eq-ok fetch (λ chart. create_or_keep p (helm_config_map p addon chart values) >> run)
            (marshal w).1 h1 in
        let w2 = (fetch (marshal w).1).1 in
        let (_, _, h3) =
          >>=-eq-ok (create_or_keep p (helm_config_map p addon chart values)) (λ _. run) w2 h2 in
        run_upgrade_job-Completed addon strategy
          (create_or_keep p (helm_config_map p addon chart values) w2).1 h3

    manifest-Completed :
        (addon : ClusterAddon) (strategy : AddonUpgradeStrategy) (w : W)
        → (rolling_upgrade_manifest p server addon def release strategy w).0 ≡ ok tt
        → Completed (upgrade_job addon strategy)
    unfolding rolling_upgrade_manifest
    manifest-Completed addon strategy w h =
        let name : Text = addon.name ++ codes "-manifest" in
        let run : Action AddonError W (Unit {0}) = run_upgrade_job p addon def strategy in
        let update : Text → Action AddonError W (Unit {0}) =
          p.update_config_map addon.namespace name in
        let get : Action AddonError W Bool = p.get_config_map addon.namespace name in
        let render : Text → Action AddonError W Text =
          λ content. or_fail p template_failed (p.process content (values_of p addon def)) in
        let write : Text → Action AddonError W (Unit {0}) =
          λ manifest. get >>= λ has_data. check_data p has_data >> (update manifest >> run) in
        let fetch : Action AddonError W Text =
          fetch_from_release_image p (new_content_fetcher server) release addon.addon_name in
        let (content, _, h1) = >>=-eq-ok fetch (λ content. render content >>= write) w h in
        let (manifest, _, h2) = >>=-eq-ok (render content) write (fetch w).1 h1 in
        let w2 = (render content (fetch w).1).1 in
        let (has_data, _, h3) =
          >>=-eq-ok get (λ has_data. check_data p has_data >> (update manifest >> run)) w2 h2 in
        let w3 = (get w2).1 in
        let (_, _, h4) = >>=-eq-ok (check_data p has_data) (λ _. update manifest >> run) w3 h3 in
        let w4 = (check_data p has_data w3).1 in
        let (_, _, h5) = >>=-eq-ok (update manifest) (λ _. run) w4 h4 in
        run_upgrade_job-Completed addon strategy (update manifest w4).1 h5

    rolling-Completed :
        (addon : ClusterAddon) (strategy : AddonUpgradeStrategy) (w : W)
        → (rolling_upgrade p server addon def release strategy w).0 ≡ ok tt
        → Completed (upgrade_job addon strategy)
    unfolding rolling_upgrade
    rolling-Completed addon strategy w h = elim (Bool-cases (def.type == "helm")) [
      | inl charts ↦ helm-Completed addon strategy w (rw (charts) at h)
      | inr a ↦ elim (Bool-cases (def.type == "manifest")) [
        | inl applies ↦ manifest-Completed addon strategy w (rw (a, applies) at h)
        | inr b ↦ absurd (err-ne-ok (rw (a, b) at h))
      ]
    ]

    recreate-Completed :
        (addon : ClusterAddon) (strategy : AddonUpgradeStrategy) (w : W)
        → (recreate_upgrade p server addon def release strategy w).0 ≡ ok tt
        → Completed (upgrade_job addon strategy)
    unfolding recreate_upgrade
    recreate-Completed addon strategy w h =
        let delete : Action AddonError W (Unit {0}) =
          create_and_wait p (kubectl_job p "delete-" addon kubectl_delete 1) strategy.timeout in
        let (_, _, h1) =
          >>=-eq-ok delete (λ _. rolling_upgrade p server addon def release strategy) w h in
        rolling-Completed addon strategy (delete w).1 h1

    blue_green-Completed :
        (addon : ClusterAddon) (strategy : AddonUpgradeStrategy) (w : W)
        → (blue_green_upgrade p server addon def release strategy w).0 ≡ ok tt
        → Completed (upgrade_job (green addon) strategy)
    unfolding blue_green_upgrade
    blue_green-Completed addon strategy w h =
        let roll : Action AddonError W (Unit {0}) =
          rolling_upgrade p server (green addon) def release strategy in
        let finish : Action AddonError W (Unit {0}) =
          verify_addon p (green addon)
          >> (wrap traffic_failed (switch_traffic p addon (green addon))
              >> ((λ w. (ok tt, p.sleep 30 w))
                  >> p.create_job
                      (record (kubectl_job p "delete-" addon (delete_addon addon.name) 1) {
                        image = "bitnami/kubectl:1.31.0";
                      }))) in
        let (_, rolled, _) = >>=-eq-ok roll (λ _. finish) w h in
        rolling-Completed (green addon) strategy w rolled

    pub perform_upgrade-Completed :
        (addon : ClusterAddon) (w : W)
        → (perform_upgrade p server addon def release w).0 ≡ ok tt
        → AnyCompleted def addon
    unfolding perform_upgrade
    perform_upgrade-Completed addon w h =
        let s : AddonUpgradeStrategy = strategy_of def in
        elim (Bool-cases (s.type == "Rolling")) [
          | inl rolls ↦ inl (rolling-Completed addon s w (rw (rolls) at h))
          | inr a ↦ elim (Bool-cases (s.type == "Recreate")) [
            | inl recreates ↦ inl (recreate-Completed addon s w (rw (a, recreates) at h))
            | inr b ↦ elim (Bool-cases (s.type == "BlueGreen")) [
              | inl copies ↦ inr (blue_green-Completed addon s w (rw (a, b, copies) at h))
              | inr c ↦ inl (rolling-Completed addon s w (rw (a, b, c) at h))
            ]
          ]
        ]
