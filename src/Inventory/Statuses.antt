-- ===== src/Inventory/Statuses.antt =====
-- Statuses of which none says that its host is available.
use cluster_api_provider_bar.Prelude.{
  ℕ, zero, suc, ◌+◌, ◌-◌, ◌<◌, ◌≤◌, ◌≡◌, refl, ap, ◌∙◌, false, none, some, List, [], ◌∷◌, ◌++◌,
  arith, length, set, replicate, ltb, All, string_eq, if◌then◌else◌,
}
use cluster_api_provider_bar.Inventory.Hosts.{
  allocated, is_available, HostEntry, HostStatusEntry, Inventory, Machine, blank, is_open,
  write_status, take_host,
}

-- Every status says something else than that the host is available.
abbrev pub AllTaken : List HostStatusEntry → Type 0
AllTaken = All (λ (e : HostStatusEntry). is_available e.state ≡ false)

replicate-AllTaken : (n : ℕ) → AllTaken (replicate n blank)
replicate-AllTaken zero = tt
replicate-AllTaken (suc n) = (refl, replicate-AllTaken n)

set-AllTaken :
    (l : List HostStatusEntry) (i : ℕ) (e : HostStatusEntry)
    → AllTaken l
    → is_available e.state ≡ false
    → AllTaken (set l i e)
set-AllTaken [] i e h k = tt
set-AllTaken (x ∷ l) zero e h k = (k, h.1)
set-AllTaken (x ∷ l) (suc i) e h k = (h.0, set-AllTaken l i e h.1 k)

length-set :
    (l : List HostStatusEntry) (i : ℕ) (e : HostStatusEntry) → length (set l i e) ≡ length l
length-set [] i e = refl
length-set (x ∷ l) zero e = refl
length-set (x ∷ l) (suc i) e = ap suc (length-set l i e)

length-replicate : (n : ℕ) (e : HostStatusEntry) → length (replicate n e) ≡ n
length-replicate zero e = refl
length-replicate (suc n) e = ap suc (length-replicate n e)

pub AllTaken-is_open :
    (l : List HostStatusEntry) (i : ℕ) → AllTaken l → i < length l → is_open (some l) i ≡ false
unfolding is_open
AllTaken-is_open [] i h b = absurd (ground (arith, b))
AllTaken-is_open (x ∷ l) zero h b = h.0
AllTaken-is_open (x ∷ l) (suc i) h b = AllTaken-is_open l i h.1 (ground (arith, b))

write_status-AllTaken :
    (hosts i : ℕ) (e : HostStatusEntry)
    → i < hosts
    → is_available e.state ≡ false
    → AllTaken (write_status hosts none i e) × (length (write_status hosts none i e) ≡ hosts)
unfolding write_status
write_status-AllTaken hosts i e b k =
    let made = replicate hosts blank in
    let long : (if ltb i (length made) then made else made ++ replicate (i - length made + 1) blank)
        ≡ made =
      ground (arith, length-replicate hosts blank) in
    rw long (
      set-AllTaken made i e (replicate-AllTaken hosts) k,
      length-set made i e ∙ length-replicate hosts blank,
    )

pub take_host-AllTaken :
    (m : Machine) (inventory : Inventory) (i : ℕ) (host : HostEntry)
    → inventory.status.hosts_status ≡ none
    → i < length inventory.hosts
    → (l : List HostStatusEntry) × ((take_host m inventory i host).status.hosts_status ≡ some l)
      × AllTaken l
      × (0 + length (take_host m inventory i host).hosts ≤ length l)
unfolding take_host
take_host-AllTaken m inventory i host e b =
    let entry : HostStatusEntry = record {
      name = host.name;
      state = allocated;
      cluster_ref = some (record { name = m.cluster; namespace = m.namespace });
    } in
    let (taken, long) = write_status-AllTaken (length inventory.hosts) i entry b refl in
    (write_status (length inventory.hosts) none i entry, rw e refl, taken, omega (arith, long))
