-- ===== src/ClusterVersion/Checks.antt =====
-- What the stages of a reconciliation do to the version and the history, and what the checks show.
use cluster_api_provider_bar.Prelude.{
  ℕ, Text, ◌≡◌, ◌⊎◌, refl, sym, ◌∙◌, subst, is_empty, inl, inr, Bool, true, false, some, List, [],
  ◌∷◌, All, arith, ==_iff, text_eq, Result, ok, err,
}
use cluster_api_provider_bar.Api.{Update}
use cluster_api_provider_bar.Conditions.{Node}
use cluster_api_provider_bar.Conditions.Lookup.{IsReady, first_not_ready_iff}
use cluster_api_provider_bar.UpgradePath.{validate_upgrade_path}
use cluster_api_provider_bar.ClusterVersion.Resource.{
  completed, UpdateHistory, ReleaseImageSpec, ClusterVersion, prepend_history, complete_history,
}
use cluster_api_provider_bar.ClusterVersion.Releases.{VersionError, Platform}
use cluster_api_provider_bar.ClusterVersion.Controller.{
  partial_update, fetched_path, validate_upgrade, pre_upgrade_health_check, upgrade_components,
  execute_upgrade, begin_update, end_update, proceed,
}

-- The last update of the history is to that version, and completed.
abbrev pub IsCompleted : Text → List UpdateHistory → Type 0
IsCompleted version [] = ⊥
IsCompleted version (latest ∷ history) = (latest.state ≡ completed) × (latest.version ≡ version)

prepend_history-IsCompleted :
    (now : ℕ) (history : List UpdateHistory) (entry : UpdateHistory)
    → IsCompleted entry.version (complete_history now (prepend_history history entry))
unfolding prepend_history complete_history
prepend_history-IsCompleted now [] entry = (refl, refl)
prepend_history-IsCompleted now (latest ∷ history) entry =
    ground (arith, ==_iff latest.version entry.version)

-- The resource has the version of the update, and its history says that this is completed.
abbrev pub Arrives : Update → ClusterVersion → Type 0
Arrives update cv =
    (cv.status.actual_version ≡ update.version) × IsCompleted update.version cv.status.history

abbrev pub KeepsOrArrives : Update → ClusterVersion → ClusterVersion → Type 0
KeepsOrArrives update cv cv' =
    (cv'.status.actual_version ≡ cv.status.actual_version) ⊎ Arrives update cv'

begin_update_status :
    (now : ℕ) (needs_k8s : Bool) (r : ReleaseImageSpec) (update : Update) (cv : ClusterVersion)
    → let cv' = begin_update now needs_k8s r update cv in
      (cv'.status.actual_version ≡ cv.status.actual_version)
      × (cv'.status.history ≡ prepend_history cv.status.history (partial_update now update r))
unfolding begin_update
begin_update_status now true r update cv = (refl, refl)
begin_update_status now false r update cv = (refl, refl)

end_update-KeepsOrArrives :
    (now : ℕ) (r : ReleaseImageSpec) (update : Update) (old cv : ClusterVersion)
    (result : Result VersionError (Unit {0}))
    → cv.status.actual_version ≡ old.status.actual_version
    → cv.status.history ≡ prepend_history old.status.history (partial_update now update r)
    → KeepsOrArrives update old (end_update now update cv result).0
unfolding end_update
end_update-KeepsOrArrives now r update old cv (err e) kept h = inl kept
end_update-KeepsOrArrives now r update old cv (ok _) kept h = inr (
  refl,
  subst (λ (l : List UpdateHistory). IsCompleted update.version (complete_history now l)) (sym h)
      (prepend_history-IsCompleted now old.status.history (partial_update now update r)),
)

module _ {W : Type 0} (p : Platform W) where
  execute_upgrade_status :
      (now : ℕ) (needs_k8s : Bool) (r : ReleaseImageSpec) (cv : ClusterVersion) (w : W)
      → let cv' = (execute_upgrade p now needs_k8s r cv w).0.0 in
        (cv'.status.actual_version ≡ cv.status.actual_version)
        × (cv'.status.history ≡ cv.status.history)
  unfolding execute_upgrade upgrade_components
  execute_upgrade_status now needs_k8s r cv w = ground arith

  pub proceed-KeepsOrArrives :
      (now : ℕ) (needs_k8s : Bool) (r : ReleaseImageSpec) (update : Update) (cv : ClusterVersion)
      (w : W)
      → KeepsOrArrives update cv (proceed p now needs_k8s r update cv w).0.0
  unfolding proceed
  proceed-KeepsOrArrives now needs_k8s r update cv w =
      let begun = begin_update now needs_k8s r update cv in
      let (b_actual, b_history) = begin_update_status now needs_k8s r update cv in
      let (actual, history) = execute_upgrade_status now needs_k8s r begun w in
      end_update-KeepsOrArrives now r update cv (execute_upgrade p now needs_k8s r begun w).0.0
        (execute_upgrade p now needs_k8s r begun w).0.1 (actual ∙ b_actual) (history ∙ b_history)

  -- Where there is a puller and the update names a version, the upgrade path that the API server gave
  -- accepts the update; and a listing of the nodes showed each of them to be ready.
  abbrev pub IsChecked : Update → Text → Type 0
  IsChecked update from =
      ((p.puller ≡ true)
        → is_empty update.version ≡ false
        → (w : W) × (validate_upgrade_path (fetched_path p (p.get_path w).0) from (some update)
            ≡ ok tt))
      × ((w : W) × (nodes : List Node) × ((p.nodes w).0 ≡ ok nodes) × All IsReady nodes)

  pub validate_upgrade-IsChecked :
      (from : Text) (update : Update) (w : W)
      → (validate_upgrade p from update w).0 ≡ ok tt
      → p.puller ≡ true
      → is_empty update.version ≡ false
      → (w : W) × (validate_upgrade_path (fetched_path p (p.get_path w).0) from (some update)
          ≡ ok tt)
  unfolding validate_upgrade
  validate_upgrade-IsChecked from update w h has named = (w, ground arith)

  pub pre_upgrade_health_check-IsChecked :
      (w : W)
      → (pre_upgrade_health_check p w).0 ≡ ok tt
      → (w : W) × (nodes : List Node) × ((p.nodes w).0 ≡ ok nodes) × All IsReady nodes
  unfolding pre_upgrade_health_check
  pre_upgrade_health_check-IsChecked w h = split (p.nodes w).0 refl
    where
      split :
          (r : Result VersionError (List Node))
          → (p.nodes w).0 ≡ r
          → (w : W) × (nodes : List Node) × ((p.nodes w).0 ≡ ok nodes) × All IsReady nodes
      split (ok nodes) e = (w, nodes, e, (first_not_ready_iff nodes).0 (ground (arith, e, h)))
      split (err x) e = absurd (ground (arith, e, h))
