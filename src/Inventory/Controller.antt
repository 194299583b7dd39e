-- ===== src/Inventory/Controller.antt =====
-- The operations on the inventory, with their calls of the API server in order.
use cluster_api_provider_bar.Prelude.{
  ℕ, suc, String, not, ◌&&◌, ◌||◌, Option, none, some, List, [], ◌∷◌, ◌==◌, string_eq,
  if◌then◌else◌, length, Result, ok, err,
}
use cluster_api_provider_bar.Prelude.Integers.{pos}
use cluster_api_provider_bar.Effects.{Action, pure, fail, wrap, ◌>>=◌, ◌>>◌}
use cluster_api_provider_bar.Inventory.Hosts.{
  HostEntry, Status, Inventory, Machine, InventoryError, not_found, update_failed,
  no_available_hosts, no_inventory_ref, Platform, allocated_machine, host_status, tally, is_open,
  release_host, take_host,
}

module _ {W : Type 0} (p : Platform W) where
  open p use {get_inventory, machines, update_status, update_machine}

  unfoldable pub get_allocated_machine : String → String → Action InventoryError W (Option Machine)
  get_allocated_machine namespace host_name = do
    found ← machines namespace
    pure (allocated_machine host_name found)

  -- The loop of `reconcileNormal` over the hosts. A listing that fails is only logged.
  unfoldable pub tally_hosts : String → List HostEntry → Status → W → Status × W
  tally_hosts namespace [] s w = (s, w)
  tally_hosts namespace (host ∷ hosts) s w =
      let (r, w') = machines namespace w in
      tally_hosts namespace hosts (tally (host_status host r) s) w'

  abbrev pub empty_status : List HostEntry → Status
  empty_status hosts = record {
    total_hosts = length hosts;
    available_hosts = pos 0;
    allocated_hosts = pos 0;
    hosts_status = none;
  }

  -- The new inventory, with how its update went.
  unfoldable pub reconcile_normal :
      Inventory → W → Inventory × (Result InventoryError (Unit {0}) × W)
  reconcile_normal inventory w =
      let (s, w') =
        tally_hosts inventory.namespace inventory.hosts (empty_status inventory.hosts) w in
      let inventory' = record inventory { status = s } in (inventory', update_status inventory' w')

  -- The loop of the allocation up to the first host that may be taken, with its index.
  unfoldable pub find_host :
      Inventory
      → (role : String) → ℕ
      → List HostEntry
      → Action InventoryError W (Option (ℕ × HostEntry))
  unfolding get_allocated_machine
  find_host inventory role i [] = pure none
  find_host inventory role i (host ∷ hosts) =
      let rest = find_host inventory role (suc i) hosts in
      if not (role == "") && not (host.role == role)
      then rest
      else if not (is_open inventory.status.hosts_status i)
      then rest
      else get_allocated_machine inventory.namespace host.name >>= λ found. elim found [
        | none ↦ pure (some (i, host))
        | some _ ↦ rest
      ]

  abbrev pub store : Inventory → Action InventoryError W (Unit {0})
  store inventory = wrap (λ _. update_failed) (update_status inventory)

  -- The end of the loop of the allocation.
  abbrev pub give :
      Machine → Inventory → Option (ℕ × HostEntry) → Action InventoryError W (HostEntry × Inventory)
  give m inventory none = fail no_available_hosts
  give m inventory (some (i, host)) =
      let inventory' = take_host m inventory i host in store inventory' >> pure (host, inventory')

  -- `allocateHostFromInventory` on an inventory that was read: the host, and the inventory that is
  -- written back.
  unfoldable pub allocate_from :
      Machine → Inventory → Action InventoryError W (HostEntry × Inventory)
  allocate_from m inventory = find_host inventory m.role 0 inventory.hosts >>= give m inventory

  unfoldable pub allocate_host : Machine → Action InventoryError W HostEntry
  allocate_host m = elim m.inventory_ref [
    | none ↦ fail no_inventory_ref
    | some ref ↦ do
      inventory ← get_inventory m.namespace ref
      (host, _) ← allocate_from m inventory
      pure host
  ]

  -- The part of the machine's `reconcileNormal` that looks for a host. A failure ends the
  -- reconciliation; the condition that then tells of it is left out.
  unfoldable pub ensure_host : Machine → Action InventoryError W Machine
  ensure_host m =
      if m.host_name == "" || m.ip_address == ""
      then (do
        host ← allocate_host m
        let m' : Machine = record m { host_name = host.host_name; ip_address = host.ip_address } in
            update_machine m' >> pure m')
      else pure m

  unfoldable pub release_to_inventory : Machine → String → Action InventoryError W (Unit {0})
  release_to_inventory m ref w =
      let (r, w') = get_inventory m.namespace ref w in
      elim r [
        | err not_found ↦ (ok tt, w')
        | err e ↦ (err e, w')
        | ok inventory ↦ elim (release_host m.host_name inventory) [
          | none ↦ (ok tt, w')
          | some inventory' ↦ store inventory' w'
        ]
      ]

  -- `reconcileDelete` of the machine. A release that fails is only logged.
  unfoldable pub delete_machine : Machine → Action InventoryError W (Unit {0})
  delete_machine m w =
      let released : W = elim m.inventory_ref [
        | none ↦ w
        | some ref ↦ if not (m.host_name == "") then (release_to_inventory m ref w).1 else w
      ] in
      update_machine m released
