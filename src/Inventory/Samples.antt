-- ===== src/Inventory/Samples.antt =====
-- An inventory of two hosts, and what is allocated from it.
use cluster_api_provider_bar.Prelude.{
  ℕ, ◌+◌, String, ◌≡◌, refl, map, false, none, some, [], ◌∷◌, ok, err, string_eq,
}
use cluster_api_provider_bar.Prelude.Integers.{pos}
use cluster_api_provider_bar.Inventory.Hosts.{
  HostEntry, Inventory, Machine, no_available_hosts, Platform, allocated_machine, is_open,
  take_host,
}
use cluster_api_provider_bar.Inventory.Controller.{
  get_allocated_machine, find_host, reconcile_normal, allocate_from,
}
use cluster_api_provider_bar.Inventory.Counting.{
  IsCounted, AllAvailable, statuses, reconcile_normal-IsCounted, reconcile_normal-AllAvailable,
}
use cluster_api_provider_bar.Inventory.Allocation.{allocate_from-no_available_hosts}

abbrev host : String → String → HostEntry
host name host_name = record {
  name = name;
  host_name = host_name;
  ip_address = "10.0.0.1";
  role = "worker";
}

abbrev inventory : Inventory
inventory = record {
  name = "rack";
  namespace = "ns";
  hosts = host "h1" "h1.example.org" ∷ host "h2" "h2.example.org" ∷ [];
  status = record {
    total_hosts = 0;
    available_hosts = pos 0;
    allocated_hosts = pos 0;
    hosts_status = none;
  };
}

abbrev machine : String → Machine
machine host_name = record {
  name = "m";
  namespace = "ns";
  cluster = "c";
  role = "worker";
  inventory_ref = some "rack";
  host_name = host_name;
  ip_address = "";
  deleting = false;
}

-- An API server with one machine. The world counts the updates.
abbrev server : Machine → Platform ℕ
server m = record {
  get_inventory = λ namespace name w. (ok inventory, w);
  machines = λ namespace w. (ok (m ∷ []), w);
  update_status = λ inventory' w. (ok tt, w + 1);
  update_machine = λ m' w. (ok tt, w + 1);
}

abbrev taken : Inventory
taken = take_host (machine "") inventory 0 (host "h1" "h1.example.org")

first-taken :
    (allocate_from (server (machine "")) (machine "") inventory 0).0
    ≡ ok (host "h1" "h1.example.org", taken)
unfolding allocate_from find_host get_allocated_machine is_open allocated_machine
first-taken = refl

allocate_from-no_available_hosts_example :
    (allocate_from (server (machine "")) (machine "other") taken 5).0 ≡ err no_available_hosts
allocate_from-no_available_hosts_example =
    allocate_from-no_available_hosts (server (machine "")) (machine "") inventory taken
      (host "h1" "h1.example.org") 0 refl first-taken (machine "other") 5

reconcile_normal-IsCounted_example :
    let s = (reconcile_normal (server (machine "h2")) inventory 0).0.status in
    IsCounted s × (s.total_hosts ≡ 2) × (map (λ e. e.name) (statuses s) ≡ "h1" ∷ "h2" ∷ [])
reconcile_normal-IsCounted_example = reconcile_normal-IsCounted (server (machine "h2")) inventory 0

reconcile_normal-AllAvailable_example :
    let s = (reconcile_normal (server (machine "h1.example.org")) taken 0).0.status in
    (map (λ e. e.name) (statuses s) ≡ "h1" ∷ "h2" ∷ []) × AllAvailable s
unfolding take_host
reconcile_normal-AllAvailable_example =
    reconcile_normal-AllAvailable (server (machine "h1.example.org")) taken 0
      (machine "h1.example.org" ∷ []) (λ w. refl) ((((λ e. cc), tt)), (((λ e. cc), tt), tt))
