-- ===== src/SelfUpgrade.antt =====
-- The self-upgrade of the operator:
-- modules/cvo/internal/controllers/selfupgrade_controller.go over
-- modules/cvo/api/v1beta1/selfupgrade_types.go.
pub mod Resource
pub mod Sorting
pub mod Components
pub mod Handlers
pub mod Controller
pub mod Requests
pub mod Cycles
pub mod Images
pub mod Pausing
pub mod Progress
pub mod Phases
mod Samples
