-- ===== src/ClusterVersion/Gates.antt =====
-- When a reconciliation may change the version that a cluster is said to have.
use cluster_api_provider_bar.Prelude.{
  ℕ, ◌≡◌, ◌⊎◌, refl, sym, ◌∙◌, subst, inl, inr, ap, true, false, Option, none, some, arith, ◌==◌,
  ==_iff, text_eq, Bool-cases, Result, ok, err,
}
use cluster_api_provider_bar.Api.{Update}
use cluster_api_provider_bar.Conditions.{is_true}
use cluster_api_provider_bar.ClusterVersion.Resource.{ReleaseImageSpec, ClusterVersion}
use cluster_api_provider_bar.ClusterVersion.Releases.{
  VersionError, Platform, sync_upgrade_path, sync_release_catalog, fetch_release_image,
}
use cluster_api_provider_bar.ClusterVersion.Addons.{needs_addon_upgrade}
use cluster_api_provider_bar.ClusterVersion.Controller.{
  Outcome, condition, update_available, validate_upgrade, pre_upgrade_health_check, proceed,
  finalizer, add, gate, decide, fetched_release, desire, reconcile,
}
use cluster_api_provider_bar.ClusterVersion.Checks.{
  Arrives, proceed-KeepsOrArrives, IsChecked, validate_upgrade-IsChecked,
  pre_upgrade_health_check-IsChecked,
}

module _ {W : Type 0} (p : Platform W) where
  -- A reconciliation stage keeps the version, or arrives at the update after the checks.
  abbrev pub IsJustified : Update → ClusterVersion → ClusterVersion → Type 0
  IsJustified update cv cv' =
      (cv'.status.actual_version ≡ cv.status.actual_version)
      ⊎ (Arrives update cv' × IsChecked p update cv.status.actual_version)

  -- What passes the checks, and what is done then.
  gate_cases :
      (now : ℕ) (r : ReleaseImageSpec) (update : Update) (cv : ClusterVersion) (w : W)
      → let w' = (validate_upgrade p cv.status.actual_version update w).1 in
        ((gate p now r update cv w).0.0.status.actual_version ≡ cv.status.actual_version)
        ⊎ (((validate_upgrade p cv.status.actual_version update w).0 ≡ ok tt)
            × ((pre_upgrade_health_check p w').0 ≡ ok tt)
            × (gate p now r update cv w
                ≡ proceed p now true r update
                    (condition "Upgradeable" is_true "PreconditionsPassed" now cv)
                    (pre_upgrade_health_check p w').1))
  unfolding gate
  gate_cases now r update cv w = ground arith

  gate-IsJustified :
      (now : ℕ) (r : ReleaseImageSpec) (update : Update) (cv : ClusterVersion) (w : W)
      → IsJustified update cv (gate p now r update cv w).0.0
  gate-IsJustified now r update cv w = elim (gate_cases now r update cv w) [
    | inl kept ↦ inl kept
    | inr (path, health, same) ↦
        let w' = (validate_upgrade p cv.status.actual_version update w).1 in
        let cv' = condition "Upgradeable" is_true "PreconditionsPassed" now cv in
        let checks : IsChecked p update cv.status.actual_version = (
          validate_upgrade-IsChecked p cv.status.actual_version update w path,
          pre_upgrade_health_check-IsChecked p w' health,
        ) in
        subst (λ (o : Outcome × W). IsJustified update cv o.0.0) (sym same)
          (elim (proceed-KeepsOrArrives p now true r update cv' (pre_upgrade_health_check p w').1) [
            | inl kept ↦ inl kept
            | inr arrives ↦ inr (arrives, checks)
          ])
  ]

  decide-IsJustified :
      (now : ℕ) (r : ReleaseImageSpec) (update : Update) (cv : ClusterVersion) (w : W)
      → IsJustified update cv (decide p now r update cv w).0.0
  unfolding decide
  decide-IsJustified now r update cv w =
      let cv' : ClusterVersion = record cv {
        status = record cv.status { desired = record { version = r.version; image = r.image } };
      } in
      let w' = (needs_addon_upgrade p cv.namespace r.addons w).1 in
      elim (Bool-cases (cv.status.actual_version == update.version)) [
        | inr differs ↦ rw differs (gate-IsJustified now r update cv' w')
        | inl same ↦
            let at_version = (==_iff cv.status.actual_version update.version).0 same in
            elim (Bool-cases (needs_addon_upgrade p cv.namespace r.addons w).0) [
              | inr current ↦ rw (same, current) (inl refl)
              | inl outdated ↦
                  rw (same, outdated)
                    (elim (proceed-KeepsOrArrives p now false r update cv' w') [
                      | inl kept ↦ inl kept
                      | inr arrives ↦ inl (arrives.0 ∙ sym at_version)
                    ])
            ]
      ]

  fetched_release-IsJustified :
      (now : ℕ) (fetched : Result VersionError ReleaseImageSpec) (update : Update)
      (cv : ClusterVersion) (w : W)
      → IsJustified update cv (fetched_release p now fetched update cv w).0.0
  unfolding fetched_release
  fetched_release-IsJustified now (err e) update cv w = inl refl
  fetched_release-IsJustified now (ok r) update cv w = decide-IsJustified now r update cv w

  -- Either the version stays, or an update is desired, the resource is neither deleted nor paused, and
  -- the stages above are gone through.
  abbrev pub HasCause : ClusterVersion → ClusterVersion → Type 0
  HasCause cv cv' =
      (update : Update) × (cv.desired_update ≡ some update)
      × (cv.deleting ≡ false)
      × (cv.paused ≡ false)
      × Arrives update cv'
      × IsChecked p update cv.status.actual_version

  update_available_status :
      (now : ℕ) (cv : ClusterVersion) (w : W)
      → (update_available p now cv w).0.status.actual_version ≡ cv.status.actual_version
  unfolding update_available
  update_available_status now cv w = ground arith

  desire-HasCause :
      (now : ℕ) (desired : Option Update) (cv : ClusterVersion) (w : W)
      → ((desire p now desired cv w).0.0.status.actual_version ≡ cv.status.actual_version)
        ⊎ ((update : Update) × (desired ≡ some update)
            × Arrives update (desire p now desired cv w).0.0
            × IsChecked p update cv.status.actual_version)
  unfolding desire
  desire-HasCause now none cv w = inl refl
  desire-HasCause now (some update) cv w =
      elim (fetched_release-IsJustified now (fetch_release_image p update w).0 update cv
        (fetch_release_image p update w).1) [
          | inl kept ↦ inl kept
          | inr (arrives, checks) ↦ inr (update, refl, arrives, checks)
        ]

  reconcile_cases :
      (now : ℕ) (cv : ClusterVersion) (w : W)
      → let kept = record cv { finalizers = add finalizer cv.finalizers } in
        let w'' = (sync_release_catalog p (sync_upgrade_path p w).1).1 in
        let (cv', w₃) = update_available p now kept w'' in
        ((reconcile p now cv w).0.0.status.actual_version ≡ cv.status.actual_version)
        ⊎ ((cv.deleting ≡ false)
            × (cv.paused ≡ false)
            × (reconcile p now cv w ≡ desire p now cv.desired_update cv' w₃))
  unfolding reconcile
  reconcile_cases now cv w = ground arith

  -- A reconciliation changes the version that the cluster is said to have only if the resource is
  -- neither deleted nor paused and desires an update: it has the version of that update afterwards,
  -- the last entry of its history is to that version and completed, the upgrade path that the API
  -- server gave accepts the update, where there is a puller and the update names a version, and the
  -- nodes were listed with success, each with a Ready condition that is True.
  pub reconcile-HasCause :
      (now : ℕ) (cv : ClusterVersion) (w : W)
      → ((reconcile p now cv w).0.0.status.actual_version ≡ cv.status.actual_version)
        ⊎ HasCause cv (reconcile p now cv w).0.0
  reconcile-HasCause now cv w = elim (reconcile_cases now cv w) [
    | inl kept ↦ inl kept
    | inr (alive, running, same) ↦
        let start = record cv { finalizers = add finalizer cv.finalizers } in
        let w'' = (sync_release_catalog p (sync_upgrade_path p w).1).1 in
        let next = update_available p now start w'' in
        let unchanged = update_available_status now start w'' in
        elim (desire-HasCause now cv.desired_update next.0 next.1) [
          | inl kept ↦
              inl (ap (λ (o : Outcome × W). o.0.0.status.actual_version) same ∙ kept ∙ unchanged)
          | inr (update, desired, arrives, checks) ↦ inr (
            update,
            desired,
            alive,
            running,
            subst (λ (o : Outcome × W). Arrives update o.0.0) (sym same) arrives,
            subst (IsChecked p update) unchanged checks,
          )
        ]
  ]
