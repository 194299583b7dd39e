-- ===== src/Inventory/Hosts.antt =====
-- Hosts, machines and the inventory, and what the operations write, without the API server.
use cluster_api_provider_bar.Prelude.{
  ℕ, zero, suc, ◌+◌, ◌-◌, String, Bool, true, false, not, ◌&&◌, Option, none, some, List, [], ◌∷◌,
  ◌++◌, ltb, ◌==◌, string_eq, if◌then◌else◌, length, get_elem?, set, replicate, find?, Result, ok,
  err,
}
use cluster_api_provider_bar.Prelude.Integers.{ℤ, pos, inc, dec}
use cluster_api_provider_bar.Effects.{Action}

pub data HostState : Type 0 where
  available allocated maintenance : HostState
  other : String → HostState

abbrev pub is_available : HostState → Bool
is_available available = true
is_available _ = false

abbrev pub is_allocated : HostState → Bool
is_allocated allocated = true
is_allocated _ = false

pub record HostEntry : Type 0 where
  pub name : String
  pub host_name : String
  pub ip_address : String
  pub role : String

pub record ObjectReference : Type 0 where
  pub name : String
  pub namespace : String

pub record HostStatusEntry : Type 0 where
  pub name : String
  pub state : HostState
  pub cluster_ref : Option ObjectReference

-- `none` is a nil slice.
pub record Status : Type 0 where
  pub total_hosts : ℕ
  pub available_hosts : ℤ
  pub allocated_hosts : ℤ
  pub hosts_status : Option (List HostStatusEntry)

pub record Inventory : Type 0 where
  pub name : String
  pub namespace : String
  pub hosts : List HostEntry
  pub status : Status

pub record Machine : Type 0 where
  pub name : String
  pub namespace : String
  -- The label that names the cluster.
  pub cluster : String
  pub role : String
  pub inventory_ref : Option String
  pub host_name : String
  pub ip_address : String
  pub deleting : Bool

pub data InventoryError : Type 0 where
  not_found list_failed update_failed no_available_hosts no_inventory_ref other_failure :
      InventoryError

pub record Platform (W : Type 0) : Type 0 where
  pub get_inventory : (namespace name : String) → Action InventoryError W Inventory
  pub machines : (namespace : String) → Action InventoryError W (List Machine)
  pub update_status : Inventory → Action InventoryError W (Unit {0})
  pub update_machine : Machine → Action InventoryError W (Unit {0})

-- What Go fills a new slice of statuses with.
abbrev pub blank : HostStatusEntry
blank = record { name = ""; state = other ""; cluster_ref = none }

-- `getAllocatedMachine`, over the machines that the API server lists.
unfoldable pub allocated_machine : String → List Machine → Option Machine
allocated_machine host_name = find? (λ m. m.host_name == host_name && not m.deleting)

abbrev pub host_status : HostEntry → Result InventoryError (List Machine) → HostStatusEntry
host_status host (err e) = record { name = host.name; state = maintenance; cluster_ref = none }
host_status host (ok machines) = elim (allocated_machine host.name machines) [
  | none ↦ record { name = host.name; state = available; cluster_ref = none }
  | some m ↦ record {
    name = host.name;
    state = allocated;
    cluster_ref = some (record { name = m.cluster; namespace = m.namespace });
  }
]

-- The status of the host is appended, and the host is counted as allocated or as available.
abbrev pub tally : HostStatusEntry → Status → Status
tally entry s =
    let statuses : List HostStatusEntry = elim s.hosts_status [
      | none ↦ entry ∷ []
      | some l ↦ l ++ entry ∷ []
    ] in
    if is_allocated entry.state
    then record s { hosts_status = some statuses; allocated_hosts = inc s.allocated_hosts }
    else record s { hosts_status = some statuses; available_hosts = inc s.available_hosts }

-- The index of a host is open if its status says that it is available, or is missing.
unfoldable pub is_open : Option (List HostStatusEntry) → ℕ → Bool
is_open none i = true
is_open (some statuses) i = elim (get_elem? statuses i) [
  | none ↦ true
  | some entry ↦ is_available entry.state
]

-- The statuses, long enough for the index, with the entry written.
unfoldable pub write_status :
    ℕ → Option (List HostStatusEntry) → ℕ → HostStatusEntry → List HostStatusEntry
write_status hosts statuses i entry =
    let made : List HostStatusEntry = elim statuses [ none ↦ replicate hosts blank | some l ↦ l ] in
    set (if ltb i (length made) then made else made ++ replicate (i - length made + 1) blank) i
      entry

-- The index of the first host of a name.
unfoldable pub index_of : String → List HostEntry → Option ℕ
index_of name [] = none
index_of name (host ∷ hosts) =
    if host.name == name
    then some 0
    else elim (index_of name hosts) [ none ↦ none | some i ↦ some (suc i) ]

abbrev pub free_at : List HostStatusEntry → ℕ → List HostStatusEntry
free_at [] i = []
free_at (entry ∷ entries) zero = record entry { state = available; cluster_ref = none } ∷ entries
free_at (entry ∷ entries) (suc i) = entry ∷ free_at entries i

abbrev pub dec_positive : ℤ → ℤ
dec_positive (pos (suc n)) = pos n
dec_positive n = n

-- What a release writes: the first host of that name, if there is one, is available again.
unfoldable pub release_host : String → Inventory → Option Inventory
release_host name inventory = elim (index_of name inventory.hosts) [
  | none ↦ none
  | some i ↦
      let s = inventory.status in
      some (record inventory {
        status = record s {
          hosts_status = elim s.hosts_status [ none ↦ none | some l ↦ some (free_at l i) ];
          available_hosts = inc s.available_hosts;
          allocated_hosts = dec_positive s.allocated_hosts;
        };
      })
]

unfoldable pub take_host : Machine → Inventory → ℕ → HostEntry → Inventory
take_host m inventory i host =
    let s = inventory.status in
    let entry : HostStatusEntry = record {
      name = host.name;
      state = allocated;
      cluster_ref = some (record { name = m.cluster; namespace = m.namespace });
    } in
    record inventory {
      status = record s {
        hosts_status = some (write_status (length inventory.hosts) s.hosts_status i entry);
        available_hosts = dec s.available_hosts;
        allocated_hosts = inc s.allocated_hosts;
      };
    }
