-- ===== src/Inventory/Allocation.antt =====
-- Which host an allocation takes, and what the next allocation finds.
use cluster_api_provider_bar.Prelude.{
  ℕ, suc, ◌+◌, ◌<◌, ◌≤◌, String, ◌≡◌, ◌⊎◌, refl, sym, ap, ◌∙◌, subst, true, false, not, ◌&&◌,
  Option, none, some, List, [], ◌∷◌, arith, length, get_elem?, inl, inr, Bool-cases, Option-cases,
  some-eq, ◌==◌, ==_iff, string_eq, Result, ok, err,
}
use cluster_api_provider_bar.Effects.{pure, ◌>>=◌, >>=-eq-ok, err-ne-ok}
use cluster_api_provider_bar.Inventory.Hosts.{
  HostEntry, HostStatusEntry, Inventory, Machine, InventoryError, no_available_hosts, Platform,
  allocated_machine, is_open, take_host,
}
use cluster_api_provider_bar.Inventory.Controller.{
  get_allocated_machine, find_host, store, give, allocate_from,
}
use cluster_api_provider_bar.Inventory.Counting.{IsFree, allocated_machine-IsFree}
use cluster_api_provider_bar.Inventory.Statuses.{AllTaken, AllTaken-is_open, take_host-AllTaken}

-- A host that the test of the role lets through.
role_fits :
    (role : String) (host : HostEntry)
    → (not (role == "") && not (host.role == role)) ≡ false
    → (role ≡ "") ⊎ (host.role ≡ role)
role_fits role host h = ground (arith, ==_iff role "", ==_iff host.role role)

ok-eq : {A : Type 0} (a b : A) → Path (Result InventoryError A) (ok a) (ok b) → a ≡ b
ok-eq a b h = cc

module _ {W : Type 0} (p : Platform W) where
  -- Nothing is found where every host has a status and none is available.
  find_host-none :
      (inventory : Inventory) (l : List HostStatusEntry) (role : String) (i : ℕ)
      (hosts : List HostEntry) (w : W)
      → inventory.status.hosts_status ≡ some l
      → AllTaken l
      → i + length hosts ≤ length l
      → find_host p inventory role i hosts w ≡ (ok none, w)
  unfolding find_host
  find_host-none inventory l role i [] w e h b = refl
  find_host-none inventory l role i (host ∷ hosts) w e h b = ground (
    arith,
    find_host-none inventory l role (suc i) hosts w e h (ground (arith, b)),
    AllTaken-is_open l i h (ground (arith, b)),
  )

  -- A host that may be given to a machine of a role: it stands in the list that starts at index `i`,
  -- has the role if one is asked for, is open, and at some moment no live machine stood under its name.
  abbrev pub IsCandidate : Inventory → String → ℕ → List HostEntry → ℕ × HostEntry → Type 0
  IsCandidate inventory role i hosts (k, host) =
      (d : ℕ) × (k ≡ i + d)
      × (d < length hosts)
      × (get_elem? hosts d ≡ some host)
      × ((role ≡ "") ⊎ (host.role ≡ role))
      × (is_open inventory.status.hosts_status k ≡ true)
      × (w : W) × (machines : List Machine) × ((p.machines inventory.namespace w).0 ≡ ok machines)
      × IsFree host.name machines

  later_IsCandidate :
      (inventory : Inventory) (role : String) (i : ℕ) (x : HostEntry) (hosts : List HostEntry)
      (found : ℕ × HostEntry)
      → IsCandidate inventory role (suc i) hosts found
      → IsCandidate inventory role i (x ∷ hosts) found
  later_IsCandidate inventory role i x hosts (k, host) (d, e, b, g, r, o, w, ms, l, free) =
      (suc d, omega (arith, e), omega (arith, b), g, r, o, w, ms, l, free)

  -- What the choice at one host comes from, where no role and no status rules it out.
  chosen :
      (inventory : Inventory) (role : String) (i : ℕ) (host : HostEntry) (hosts : List HostEntry)
      (w : W) (found : ℕ × HostEntry)
      → ((w' : W)
          → (find_host p inventory role (suc i) hosts w').0 ≡ ok (some found)
          → IsCandidate inventory role i (host ∷ hosts) found)
      → ((role ≡ "") ⊎ (host.role ≡ role))
      → is_open inventory.status.hosts_status i ≡ true
      → ((get_allocated_machine p inventory.namespace host.name >>= λ (m : Option Machine). elim m [
        | none ↦ pure (some (i, host))
        | some _ ↦ find_host p inventory role (suc i) hosts
      ])
          w).0
        ≡ ok (some found)
      → IsCandidate inventory role i (host ∷ hosts) found
  unfolding get_allocated_machine
  chosen inventory role i host hosts w found later r o h =
      let (m, read, rest) =
        >>=-eq-ok (get_allocated_machine p inventory.namespace host.name)
          (λ (m : Option Machine). elim m [
            | none ↦ pure (some (i, host))
            | some _ ↦ find_host p inventory role (suc i) hosts
          ])
          w h in
      let (ms, listed, same) =
        >>=-eq-ok (p.machines inventory.namespace)
          (λ (ms : List Machine). pure (allocated_machine host.name ms)) w read in
      elim (Option-cases m) [
        | inr (other_machine, e) ↦
            later (get_allocated_machine p inventory.namespace host.name w).1 (rw e at rest)
        | inl e ↦
            let free : allocated_machine host.name ms ≡ none = cc in
            subst (IsCandidate inventory role i (host ∷ hosts))
              (some-eq (ok-eq (some (i, host)) (some found) (rw e at rest)))
              (
                0,
                omega arith,
                omega arith,
                refl,
                r,
                o,
                w,
                ms,
                listed,
                (allocated_machine-IsFree host.name ms).0 free,
              )
      ]

  find_host-IsCandidate :
      (inventory : Inventory) (role : String) (i : ℕ) (hosts : List HostEntry) (w : W)
      (found : ℕ × HostEntry)
      → (find_host p inventory role i hosts w).0 ≡ ok (some found)
      → IsCandidate inventory role i hosts found
  unfolding find_host
  find_host-IsCandidate inventory role i [] w found h = cc
  find_host-IsCandidate inventory role i (host ∷ hosts) w found h =
      let later =
        λ (w' : W) (g : (find_host p inventory role (suc i) hosts w').0 ≡ ok (some found)).
          later_IsCandidate inventory role i host hosts found
            (find_host-IsCandidate inventory role (suc i) hosts w' found g) in
      elim (Bool-cases (not (role == "") && not (host.role == role))) [
        | inl wrong ↦ later w (rw wrong at h)
        | inr right ↦ elim (Bool-cases (is_open inventory.status.hosts_status i)) [
          | inr shut ↦ later w (rw (right, shut) at h)
          | inl opened ↦
              chosen inventory role i host hosts w found later (role_fits role host right) opened
                (rw (right, opened) at h)
        ]
      ]

  stored_lem :
      (inventory : Inventory) (w : W)
      → (store p inventory w).0 ≡ ok tt
      → (p.update_status inventory w).0 ≡ ok tt
  stored_lem inventory w h = ground (arith, h)

  give-eq-ok :
      (m : Machine) (inventory : Inventory) (i : ℕ) (taken : HostEntry) (w : W) {host : HostEntry}
      {inventory' : Inventory}
      → (give p m inventory (some (i, taken)) w).0 ≡ ok (host, inventory')
      → (taken ≡ host)
        × (inventory' ≡ take_host m inventory i taken)
        × ((p.update_status (take_host m inventory i taken) w).0 ≡ ok tt)
  give-eq-ok m inventory i taken w {host} {inventory'} h =
      let after = take_host m inventory i taken in
      let (_, stored, last) =
        >>=-eq-ok (store p after) (λ (u : Unit {0}). pure (taken, after)) w h in
      let same = ok-eq (taken, after) (host, inventory') last in
      (
        ap (λ (x : HostEntry × Inventory). x.0) same,
        sym (ap (λ (x : HostEntry × Inventory). x.1) same),
        stored_lem after w stored,
      )

  pub allocate_from-IsCandidate :
      (m : Machine) (inventory inventory' : Inventory) (host : HostEntry) (w : W)
      → (allocate_from p m inventory w).0 ≡ ok (host, inventory')
      → (i : ℕ) × IsCandidate inventory m.role 0 inventory.hosts (i, host)
        × (inventory' ≡ take_host m inventory i host)
        × (u : W) × ((p.update_status inventory' u).0 ≡ ok tt)
  unfolding allocate_from
  allocate_from-IsCandidate m inventory inventory' host w h =
      let w' = (find_host p inventory m.role 0 inventory.hosts w).1 in
      let (found, search, rest) =
        >>=-eq-ok (find_host p inventory m.role 0 inventory.hosts) (give p m inventory) w h in
      elim (Option-cases found) [
        | inl e ↦ absurd (err-ne-ok (rw e at rest))
        | inr ((i, taken), e) ↦
            let (same, written, stored) = give-eq-ok m inventory i taken w' (rw e at rest) in
            (
              i,
              subst (λ (x : HostEntry). IsCandidate inventory m.role 0 inventory.hosts (i, x)) same
                  (find_host-IsCandidate inventory m.role 0 inventory.hosts w (i, taken)
                    (search ∙ ap (λ (o : Option (ℕ × HostEntry)). ok o) e)),
              written ∙ ap (λ (x : HostEntry). take_host m inventory i x) same,
              w',
              subst (λ (x : Inventory). (p.update_status x w').0 ≡ ok tt) (sym written) stored,
            )
      ]

  -- After an allocation from an inventory without statuses, every further allocation from the
  -- inventory as it was written back fails, whichever machine asks and however many hosts there are.
  pub allocate_from-no_available_hosts :
      (m : Machine) (inventory inventory' : Inventory) (host : HostEntry) (w : W)
      → inventory.status.hosts_status ≡ none
      → (allocate_from p m inventory w).0 ≡ ok (host, inventory')
      → (m' : Machine) (w' : W) → (allocate_from p m' inventory' w').0 ≡ err no_available_hosts
  unfolding allocate_from
  allocate_from-no_available_hosts m inventory inventory' host w none_yet h m' w' =
      let (i, candidate, written, _, _) =
        allocate_from-IsCandidate m inventory inventory' host w h in
      let (l, e, taken, long) =
        take_host-AllTaken m inventory i host none_yet (omega (arith, candidate.1, candidate.2)) in
      let nothing =
        find_host-none (take_host m inventory i host) l m'.role 0
          (take_host m inventory i host).hosts w' e taken long in
      rw (written, nothing) refl
