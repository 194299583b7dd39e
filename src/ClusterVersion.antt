-- ===== src/ClusterVersion.antt =====
-- The controller of cluster versions: modules/cvo/internal/controllers/clusterversion_controller.go
-- over modules/cvo/api/v1beta1/clusterversion_types.go and the types beside it.
pub mod Resource
pub mod Releases
pub mod Addons
pub mod Controller
pub mod Checks
pub mod Gates
mod Samples
