-- ===== src/Inventory.antt =====
-- The inventory of hosts: modules/capbm/internal/controllers/baremetalhostinventory_controller.go,
-- the allocation and the release of hosts in baremetalmachine_controller.go beside it, and the types
-- of modules/capbm/api/v1beta2/baremetalhostinventory_types.go. SSH ports and credentials are left
-- out; the API server is a platform over a world `W`.
pub mod Hosts
pub mod Controller
pub mod Counting
pub mod Statuses
pub mod Allocation
mod Samples
