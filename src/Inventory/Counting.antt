-- ===== src/Inventory/Counting.antt =====
-- What the inventory's own reconciliation writes.
use mathlib.Core.List.{append-nil, append_assoc}
use cluster_api_provider_bar.Prelude.{
  ℕ, suc, ◌+◌, String, ◌≡◌, ◌↔◌, refl, sym, subst, ap, ◌∙◌, true, none, some, List, [], ◌∷◌, ◌++◌,
  map, arith, length, All, ==_iff, string_eq, Result, ok, err, if◌then◌else◌,
}
use cluster_api_provider_bar.Prelude.Integers.{pos, inc}
use cluster_api_provider_bar.Inventory.Hosts.{
  available, is_allocated, HostEntry, HostStatusEntry, Status, Inventory, Machine, InventoryError,
  Platform, allocated_machine, host_status, tally,
}
use cluster_api_provider_bar.Inventory.Controller.{tally_hosts, reconcile_normal, empty_status}

-- How many statuses say that the host is allocated.
unfoldable pub count_allocated : List HostStatusEntry → ℕ
count_allocated [] = 0
count_allocated (entry ∷ entries) =
    if is_allocated entry.state then suc (count_allocated entries) else count_allocated entries

-- How many statuses say something else.
unfoldable pub count_others : List HostStatusEntry → ℕ
count_others [] = 0
count_others (entry ∷ entries) =
    if is_allocated entry.state then count_others entries else suc (count_others entries)

abbrev pub statuses : Status → List HostStatusEntry
statuses s = elim s.hosts_status [ none ↦ [] | some l ↦ l ]

count_allocated-append :
    (l m : List HostStatusEntry) → count_allocated (l ++ m) ≡ count_allocated l + count_allocated m
unfolding count_allocated
count_allocated-append [] m = omega arith
count_allocated-append (e ∷ l) m = ground (arith, count_allocated-append l m)

count_others-append :
    (l m : List HostStatusEntry) → count_others (l ++ m) ≡ count_others l + count_others m
unfolding count_others
count_others-append [] m = omega arith
count_others-append (e ∷ l) m = ground (arith, count_others-append l m)

-- The counters count the statuses.
abbrev pub IsCounted : Status → Type 0
IsCounted s =
    (s.allocated_hosts ≡ pos (count_allocated (statuses s)))
    × (s.available_hosts ≡ pos (count_others (statuses s)))

abbrev host_names : List HostEntry → List String
host_names = map (λ h. h.name)

abbrev status_names : List HostStatusEntry → List String
status_names = map (λ e. e.name)

tally-IsCounted : (entry : HostStatusEntry) (s : Status) → IsCounted s → IsCounted (tally entry s)
unfolding count_allocated count_others
tally-IsCounted entry s h = ground (
  arith,
  count_allocated-append (statuses s) (entry ∷ []),
  count_others-append (statuses s) (entry ∷ []),
  ap pos,
  ap inc,
)

tally-statuses :
    (entry : HostStatusEntry) (s : Status) → statuses (tally entry s) ≡ statuses s ++ entry ∷ []
tally-statuses entry s = ground arith

tally_total : (entry : HostStatusEntry) (s : Status) → (tally entry s).total_hosts ≡ s.total_hosts
tally_total entry s = ground arith

host_status_name :
    (host : HostEntry) (r : Result InventoryError (List Machine))
    → (host_status host r).name ≡ host.name
host_status_name host (err e) = refl
host_status_name host (ok machines) = ground arith

status_names-append :
    (l m : List HostStatusEntry) → status_names (l ++ m) ≡ status_names l ++ status_names m
status_names-append [] m = refl
status_names-append (e ∷ l) m = ap (λ x. e.name ∷ x) (status_names-append l m)

module _ {W : Type 0} (p : Platform W) where
  -- What a status is after the hosts were tallied on top of a former one.
  abbrev Tallied : List HostEntry → Status → Status → Type 0
  Tallied hosts s s' =
      IsCounted s'
      × (s'.total_hosts ≡ s.total_hosts)
      × (status_names (statuses s') ≡ status_names (statuses s) ++ host_names hosts)

  tally_hosts-Tallied :
      (namespace : String) (hosts : List HostEntry) (s : Status) (w : W)
      → IsCounted s
      → Tallied hosts s (tally_hosts p namespace hosts s w).0
  unfolding tally_hosts
  tally_hosts-Tallied namespace [] s w h = (h, refl, sym (append-nil (status_names (statuses s))))
  tally_hosts-Tallied namespace (host ∷ hosts) s w h =
      let entry = host_status host (p.machines namespace w).0 in
      let (counted, total, named) =
        tally_hosts-Tallied namespace hosts (tally entry s) (p.machines namespace w).1
          (tally-IsCounted entry s h) in
      (
        counted,
        total ∙ tally_total entry s,
        named
            ∙ ap (λ (l : List HostStatusEntry). status_names l ++ host_names hosts)
                (tally-statuses entry s)
            ∙ ap (λ (l : List String). l ++ host_names hosts)
                (status_names-append (statuses s) (entry ∷ []))
            ∙ append_assoc (status_names (statuses s)) (entry.name ∷ []) (host_names hosts)
            ∙ ap (λ (n : String). status_names (statuses s) ++ n ∷ host_names hosts)
                (host_status_name host (p.machines namespace w).0),
      )

  -- A reconciliation of the inventory writes one status for each host, in their order and under their
  -- names, and the counters count these: all hosts, those that are Allocated, and as available all that
  -- are not Allocated, whatever else their status is.
  pub reconcile_normal-IsCounted :
      (inventory : Inventory) (w : W)
      → let s : Status = (reconcile_normal p inventory w).0.status in
        IsCounted s
        × (s.total_hosts ≡ length inventory.hosts)
        × (status_names (statuses s) ≡ host_names inventory.hosts)
  unfolding reconcile_normal
  reconcile_normal-IsCounted inventory w =
      tally_hosts-Tallied inventory.namespace inventory.hosts (empty_status p inventory.hosts) w
        (unfold count_allocated in refl, unfold count_others in refl)

-- No live machine among these stands under that host name.
abbrev pub IsFree : String → List Machine → Type 0
IsFree name = All (λ (m : Machine). (m.host_name ≡ name) → m.deleting ≡ true)

pub allocated_machine-IsFree :
    (name : String) (machines : List Machine)
    → (allocated_machine name machines ≡ none) ↔ IsFree name machines
unfolding allocated_machine
allocated_machine-IsFree name [] = (λ _. tt, λ _. refl)
allocated_machine-IsFree name (m ∷ machines) = (
  λ h. ground (arith, allocated_machine-IsFree name machines, ==_iff m.host_name name),
  λ h. ground (arith, allocated_machine-IsFree name machines, ==_iff m.host_name name),
)

host_status_available :
    (host : HostEntry) (machines : List Machine)
    → IsFree host.name machines
    → (host_status host (ok machines)).state ≡ available
host_status_available host machines free =
    ground (arith, (allocated_machine-IsFree host.name machines).1 free)

All-append :
    {A : Type 0} (P : A → Type 0) (xs : List A) (x : A) → All P xs → P x → All P (xs ++ x ∷ [])
All-append P [] x h k = (k, tt)
All-append P (y ∷ xs) x h k = (h.0, All-append P xs x h.1 k)

abbrev pub AllAvailable : Status → Type 0
AllAvailable s = All (λ (e : HostStatusEntry). e.state ≡ available) (statuses s)

module _ {W : Type 0} (p : Platform W) where
  tally_hosts-AllAvailable :
      (namespace : String) (hosts : List HostEntry) (s : Status) (w : W) (machines : List Machine)
      → ((w' : W) → (p.machines namespace w').0 ≡ ok machines)
      → All (λ (h : HostEntry). IsFree h.name machines) hosts
      → AllAvailable s
      → AllAvailable (tally_hosts p namespace hosts s w).0
  unfolding tally_hosts
  tally_hosts-AllAvailable namespace [] s w machines listed free a = a
  tally_hosts-AllAvailable namespace (host ∷ hosts) s w machines listed free a =
      let entry = host_status host (p.machines namespace w).0 in
      let open_now : entry.state ≡ available =
        rw (listed w) (host_status_available host machines free.0) in
      tally_hosts-AllAvailable namespace hosts (tally entry s) (p.machines namespace w).1 machines
        listed free.1
        (subst (All (λ (e : HostStatusEntry). e.state ≡ available)) (sym (tally-statuses entry s))
          (All-append (λ (e : HostStatusEntry). e.state ≡ available) (statuses s) entry a open_now))

  -- While the API server lists the same machines, none of which is live and stands under the name of
  -- a host of the inventory, a reconciliation of the inventory gives each host, in their order, one
  -- status under its name, and each of these is Available, whatever the status of the host was: a machine that was given a host stands under the host's host name.
  pub reconcile_normal-AllAvailable :
      (inventory : Inventory) (w : W) (machines : List Machine)
      → ((w' : W) → (p.machines inventory.namespace w').0 ≡ ok machines)
      → All (λ (h : HostEntry). IsFree h.name machines) inventory.hosts
      → let s : Status = (reconcile_normal p inventory w).0.status in
        (status_names (statuses s) ≡ host_names inventory.hosts) × AllAvailable s
  unfolding reconcile_normal
  reconcile_normal-AllAvailable inventory w machines listed free = (
    (let (_, _, named) = reconcile_normal-IsCounted p inventory w in named),
    tally_hosts-AllAvailable inventory.namespace inventory.hosts (empty_status p inventory.hosts) w
        machines listed free tt,
  )
