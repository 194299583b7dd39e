-- ===== src/Rolling/Completion.antt =====
-- What a rolling upgrade that succeeds has done.
use cluster_api_provider_bar.Prelude.{
  ℕ, suc, ◌≡◌, inl, inr, refl, sym, subst, some, List, [], ◌∷◌, arith, In, In-append, Result, ok,
}
use cluster_api_provider_bar.Prelude.Integers.{ℤ}
use cluster_api_provider_bar.Effects.{Action}
use cluster_api_provider_bar.Rolling.{
  new_rolling_upgrade_coordinator, run_all, execute_batch, execute_batches, execute_rolling_upgrade,
}
use cluster_api_provider_bar.Rolling.Batches.{concat, create_batches-IsBatch}

module _ {N E W : Type 0} (schedule : List N → List N) (upgrade : N → Action E W (Unit {0})) where
  abbrev pub Upgraded : N → Type 0
  Upgraded node = (w : W) × ((upgrade node w).0 ≡ ok tt)

  -- Every node of a batch is scheduled.
  abbrev pub Schedules : Type 0
  Schedules = (batch : List N) (node : N) → In node batch → In node (schedule batch)

  first-Upgraded :
      (node : N) (nodes : List N) (w : W)
      → (run_all schedule upgrade (node ∷ nodes) w).0 ≡ []
      → (upgrade node w).0 ≡ ok tt
  unfolding run_all
  first-Upgraded node nodes w h = ground (arith, h)

  run_all_rest :
      (node : N) (nodes : List N) (w : W)
      → (run_all schedule upgrade (node ∷ nodes) w).0 ≡ []
      → (run_all schedule upgrade nodes (upgrade node w).1).0 ≡ []
  unfolding run_all
  run_all_rest node nodes w h = ground (arith, h)

  run_all-Upgraded :
      (nodes : List N) (w : W)
      → (run_all schedule upgrade nodes w).0 ≡ []
      → (node : N) → In node nodes
      → Upgraded node
  run_all-Upgraded [] w h node i = absurd i
  run_all-Upgraded (x ∷ nodes) w h node (inl same) =
      subst Upgraded same (w, first-Upgraded x nodes w h)
  run_all-Upgraded (x ∷ nodes) w h node (inr i) =
      run_all-Upgraded nodes (upgrade x w).1 (run_all_rest x nodes w h) node i

  execute_batch_errors :
      (batch : List N) (w : W)
      → (execute_batch schedule upgrade batch w).0 ≡ ok tt
      → (run_all schedule upgrade (schedule batch) w).0 ≡ []
  unfolding execute_batch
  execute_batch_errors batch w h = ground (arith, h)

  batch_ok :
      (n : ℕ) (batch : List N) (batches : List (List N)) (w : W)
      → (execute_batches schedule upgrade n (batch ∷ batches) w).0 ≡ ok tt
      → ((execute_batch schedule upgrade batch w).0 ≡ ok tt)
        × ((execute_batches schedule upgrade
              (suc n)
              batches
              (execute_batch schedule upgrade batch w).1).0
            ≡ ok tt)
  unfolding execute_batches
  batch_ok n batch batches w h = ground (arith, h)

  execute_batches-Upgraded :
      Schedules
      → (n : ℕ) (batches : List (List N)) (w : W)
      → (execute_batches schedule upgrade n batches w).0 ≡ ok tt
      → (node : N) → In node (concat batches)
      → Upgraded node
  execute_batches-Upgraded all n [] w h node i = absurd i
  execute_batches-Upgraded all n (batch ∷ batches) w h node i =
      let (here, rest) = batch_ok n batch batches w h in
      elim ((In-append node batch (concat batches)).0 i) [
        | inl now ↦
            run_all-Upgraded (schedule batch) w (execute_batch_errors batch w here) node
              (all batch node now)
        | inr later ↦
            execute_batches-Upgraded all (suc n) batches (execute_batch schedule upgrade batch w).1
              rest node later
      ]

  -- If the scheduler leaves out no node of a batch, a rolling upgrade returns, and if it reports
  -- success, the upgrade of every node has succeeded.
  pub execute_rolling_upgrade-Upgraded :
      Schedules
      → (max_unavailable max_concurrent : ℤ) (nodes : List N) (w : W)
      → (out : Result (ℕ × E) (Unit {0}) × W) × (execute_rolling_upgrade schedule upgrade
            (new_rolling_upgrade_coordinator max_unavailable max_concurrent)
            nodes
            w
          ≡ some out)
        × (out.0 ≡ ok tt → (node : N) → In node nodes → Upgraded node)
  unfolding execute_rolling_upgrade
  execute_rolling_upgrade-Upgraded all max_unavailable max_concurrent nodes w =
      let (batches, made, cover, _) = create_batches-IsBatch max_unavailable max_concurrent nodes in
      (
        execute_batches schedule upgrade 0 batches w,
        rw made refl,
        λ h node i. execute_batches-Upgraded all 0 batches w h node (subst (In node) (sym cover) i),
      )
