-- ===== src/SelfUpgrade/Progress.antt =====
-- What one reconciliation in the phase Upgrading achieves.
use cluster_api_provider_bar.Prelude.{
  ℕ, suc, ◌<◌, ◌≤◌, String, ◌≡◌, ◌⊎◌, inl, inr, refl, sym, subst, Bool, true, false, some, List, [],
  ◌∷◌, arith, Bool-cases, ◌==◌, ==_iff, string_eq, if◌then◌else◌, All,
}
use cluster_api_provider_bar.SelfUpgrade.Resource.{
  upgrading, verifying, rolling_back, SelfUpgradeComponent, ComponentUpgradeStatus, SelfUpgrade,
  is_component_completed, update_component_status,
}
use cluster_api_provider_bar.SelfUpgrade.Sorting.{sort_components}
use cluster_api_provider_bar.SelfUpgrade.Components.{Platform}
use cluster_api_provider_bar.SelfUpgrade.Handlers.{Outcome, upgrade_next, execute_upgrade}
use cluster_api_provider_bar.SelfUpgrade.Phases.{execute_upgrade-eq-some}

is_component_completed-update_component_status :
    (name : String) (now : ℕ) (l : List ComponentUpgradeStatus) (x : String)
    → is_component_completed (update_component_status name "Completed" now l) x
      ≡ (if name == x then true else is_component_completed l x)
unfolding is_component_completed update_component_status
is_component_completed-update_component_status name now [] x = ground arith
is_component_completed-update_component_status name now (s ∷ l) x = ground (
  arith,
  is_component_completed-update_component_status name now l x,
  ==_iff s.name name,
  ==_iff s.name x,
  ==_iff name x,
)

-- Marking a component as failed changes nothing for the others.
is_component_completed_failed :
    (name : String) (now : ℕ) (l : List ComponentUpgradeStatus) (x : String)
    → (name == x) ≡ false
    → is_component_completed (update_component_status name "Failed" now l) x
      ≡ is_component_completed l x
unfolding is_component_completed update_component_status
is_component_completed_failed name now [] x h = ground (arith, h)
is_component_completed_failed name now (s ∷ l) x h = ground (
  arith,
  is_component_completed_failed name now l x h,
  ==_iff s.name name,
  ==_iff s.name x,
  ==_iff name x,
  h,
)

abbrev pub is_done : SelfUpgrade → SelfUpgradeComponent → Bool
is_done su c = is_component_completed su.status.component_status c.name

-- How many of the components are not completed.
unfoldable pub remaining : SelfUpgrade → List SelfUpgradeComponent → ℕ
remaining su [] = 0
remaining su (c ∷ components) =
    if is_done su c then remaining su components else suc (remaining su components)

abbrev Keeps : SelfUpgrade → SelfUpgrade → Type 0
Keeps su su' =
    (x : String)
    → is_component_completed su.status.component_status x ≡ true
    → is_component_completed su'.status.component_status x ≡ true

remaining-Keeps :
    (su su' : SelfUpgrade) (components : List SelfUpgradeComponent)
    → Keeps su su'
    → remaining su' components ≤ remaining su components
unfolding remaining
remaining-Keeps su su' [] k = omega arith
remaining-Keeps su su' (c ∷ components) k =
    ground (arith, remaining-Keeps su su' components k, k c.name)

-- An upgrade is rolled back, has completed all components and is verified next, or goes on with
-- fewer components left.
abbrev pub Advances : List SelfUpgradeComponent → SelfUpgrade → SelfUpgrade → Type 0
Advances components su su' =
    (su'.status.phase ≡ rolling_back)
    ⊎ ((su'.status.phase ≡ verifying)
        × All (λ (c : SelfUpgradeComponent). is_done su' c ≡ true) components)
    ⊎ ((su'.status.phase ≡ upgrading) × (remaining su' components < remaining su components))

fewer :
    (su su' : SelfUpgrade) (c : SelfUpgradeComponent) (components : List SelfUpgradeComponent)
    → Keeps su su'
    → is_done su c ≡ false
    → is_done su' c ≡ true
    → remaining su' (c ∷ components) < remaining su (c ∷ components)
unfolding remaining
fewer su su' c components keeps fresh done =
    ground (arith, remaining-Keeps su su' components keeps, fresh, done)

-- A completed component in front changes nothing.
later :
    (su su' : SelfUpgrade) (c : SelfUpgradeComponent) (components : List SelfUpgradeComponent)
    → Keeps su su'
    → is_done su c ≡ true
    → Advances components su su'
    → Advances (c ∷ components) su su'
later su su' c components keeps old (inl back) = inl back
later su su' c components keeps old (inr (inl (at_end, all))) =
    inr (inl (at_end, (keeps c.name old, all)))
later su su' c components keeps old (inr (inr (on, less))) =
    inr (inr (on, unfold remaining in ground (arith, old, keeps c.name old, less)))

module _ {W : Type 0} (p : Platform W) where
  -- What the round at a component that is not completed leaves.
  round_cases :
      (now : ℕ) (c : SelfUpgradeComponent) (components : List SelfUpgradeComponent)
      (su : SelfUpgrade) (w : W)
      → su.status.phase ≡ upgrading
      → is_done su c ≡ false
      → let su' = (upgrade_next p now (c ∷ components) su w).0.0 in
        let l = su.status.component_status in
        let l' = su'.status.component_status in
        ((su'.status.phase ≡ rolling_back) × (l' ≡ update_component_status c.name "Failed" now l))
        ⊎ (((l' ≡ update_component_status c.name "Completed" now l)
              ⊎ (l'
                  ≡ update_component_status c.name "Completed" now
                      (update_component_status c.name "Failed" now l)))
            × (((su'.status.phase ≡ verifying) × (components ≡ []))
                ⊎ (su'.status.phase ≡ upgrading)))
  unfolding upgrade_next
  round_cases now c components su w e h = ground (arith, e, h)

  completes :
      (now : ℕ) (c : SelfUpgradeComponent) (su su' : SelfUpgrade)
      → is_done su c ≡ false
      → let l = su.status.component_status in
        let l' = su'.status.component_status in
        ((l' ≡ update_component_status c.name "Completed" now l)
          ⊎ (l'
              ≡ update_component_status c.name "Completed" now
                  (update_component_status c.name "Failed" now l)))
        → Keeps su su' × (is_done su' c ≡ true)
  completes now c su su' fresh (inl e) = (
    λ x d. ground (
      arith,
      e,
      d,
      is_component_completed-update_component_status c.name now su.status.component_status x,
    ),
    ground (
      arith,
      e,
      is_component_completed-update_component_status c.name now su.status.component_status c.name,
      ==_iff c.name c.name,
    ),
  )
  completes now c su su' fresh (inr e) =
      let failed_first = update_component_status c.name "Failed" now su.status.component_status in
      (
        λ x d. ground (
          arith,
          e,
          d,
          is_component_completed-update_component_status c.name now failed_first x,
          is_component_completed_failed c.name now su.status.component_status x,
        ),
        ground (
          arith,
          e,
          is_component_completed-update_component_status c.name now failed_first c.name,
          ==_iff c.name c.name,
        ),
      )

  upgrade_next_skip :
      (now : ℕ) (c : SelfUpgradeComponent) (components : List SelfUpgradeComponent)
      (su : SelfUpgrade) (w : W)
      → is_done su c ≡ true
      → upgrade_next p now (c ∷ components) su w ≡ upgrade_next p now components su w
  unfolding upgrade_next
  upgrade_next_skip now c components su w h = rw h refl

  upgrade_next-Advances :
      (now : ℕ) (components : List SelfUpgradeComponent) (su : SelfUpgrade) (w : W)
      → su.status.phase ≡ upgrading
      → Keeps su (upgrade_next p now components su w).0.0
        × Advances components su (upgrade_next p now components su w).0.0
  unfolding upgrade_next
  upgrade_next-Advances now [] su w e = (λ x d. d, inr (inl (refl, tt)))
  upgrade_next-Advances now (c ∷ components) su w e = elim (Bool-cases (is_done su c)) [
    | inl old ↦
        let (keeps, advances) = upgrade_next-Advances now components su w e in
        subst (λ (o : Outcome × W). Keeps su o.0.0 × Advances (c ∷ components) su o.0.0)
          (sym (upgrade_next_skip now c components su w old))
          (keeps, later su (upgrade_next p now components su w).0.0 c components keeps old advances)
    | inr fresh ↦
        let su' = (upgrade_next p now (c ∷ components) su w).0.0 in
        elim (round_cases now c components su w e fresh) [
          | inl (back, marked) ↦ (
            λ x d. ground (
              arith,
              marked,
              d,
              fresh,
              is_component_completed_failed c.name now su.status.component_status x,
              ==_iff c.name x,
            ),
            inl back,
          )
          | inr (marked, next) ↦
              let (keeps, done) = completes now c su su' fresh marked in
              (
                keeps,
                elim next [
                  | inl (at_end, last) ↦ inr (
                      inl (
                        at_end,
                        (
                          done,
                          subst (All (λ (d : SelfUpgradeComponent). is_done su' d ≡ true))
                              (sym last) tt,
                        ),
                      ))
                  | inr on ↦ inr (inr (on, fewer su su' c components keeps fresh done))
                ],
              )
        ]
  ]

  -- A reconciliation in the phase Upgrading that returns has sorted the components; then it rolls
  -- back, or verifies next with all of them marked as completed, or goes on upgrading with fewer of
  -- them left.
  pub execute_upgrade-Advances :
      (stack now : ℕ) (su : SelfUpgrade) (w : W) (out : Outcome × W)
      → su.status.phase ≡ upgrading
      → execute_upgrade p stack now su w ≡ some out
      → (sorted : List SelfUpgradeComponent) × (sort_components stack su.spec.components
          ≡ some sorted)
        × Advances sorted su out.0.0
  execute_upgrade-Advances stack now su w out e h =
      let (sorted, found, same) = execute_upgrade-eq-some p stack now su w out h in
      (
        sorted,
        found,
        subst (λ (o : Outcome × W). Advances sorted su o.0.0) same
            (upgrade_next-Advances now sorted su w e).1,
      )
