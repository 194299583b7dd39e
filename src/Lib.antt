-- ===== src/Lib.antt =====
-- A verification of cluster-api-provider-baremetal: the cluster version operator (modules/cvo) and
-- the infrastructure provider (modules/capbm).
--
-- Parts
--   Version.antt: `matchVersion`, `versionToName`, `safeImageName`
--     (modules/cvo/internal/upgrader/graph_executor.go and the two controllers of modules/cvo).
--   UpgradePath.antt: `ValidateUpgradePath` and `ComputeAvailableUpdates` of the same executor.
--   TopologicalSort.antt: `topologicalSort` of the executor and `topologicalSortAddons`.
--   GraphExecutor.antt: `ExecuteUpgradeGraph`, which runs the phases of a release image, sorts the
--     components of a phase by TopologicalSort and applies manifests, scripts and health checks.
--   Conditions.antt: the setters of status conditions that the controllers share, and the readiness
--     of nodes.
--   SelfUpgrade.antt: the controller of
--     modules/cvo/internal/controllers/selfupgrade_controller.go. Resource has its data, Sorting the
--     validation and the sort of the components, Components their upgrade, backup and rollback,
--     Handlers one function per phase, Controller the switch of `Reconcile`, Requests what is around
--     it.
--   Inventory.antt: the inventory of hosts (baremetalhostinventory_controller.go in
--     modules/capbm/internal/controllers) and the allocation and the release of hosts by
--     baremetalmachine_controller.go beside it. Both write the same status.
--   ClusterVersion.antt: the controller of
--     modules/cvo/internal/controllers/clusterversion_controller.go, which uses the models of
--     UpgradePath, GraphExecutor, TopologicalSort and Conditions. Resource has its data, Releases what
--     it asks of the API server and the image puller, Addons the addons, Controller the stages of
--     `Reconcile` between its early returns.
--   Retry.antt: the retry loops of modules/cvo/internal/upgrader/retry/retry.go.
--   Rolling.antt: the batches of modules/cvo/internal/upgrader/rolling_upgrade_coordinator.go.
--   NodeUpgrade.antt: the upgraders of modules/cvo/internal/upgrader/control_plane_upgrader.go and
--     worker_node_upgrader.go beside it. Drain, Containerd and Workloads hold the steps on one node,
--     ControlPlane and Worker the two `ExecuteUpgrade`, of which the latter uses Rolling; Moves
--     says what comes later in time, and Checks, Scripts, Drained, Nodes, Failures, Outcome and
--     Workers hold the proofs.
--   Addon.antt: modules/cvo/internal/addon. Values has the merge and the validation of values, Content
--     the fetch of content, Jobs the jobs and the hooks, Installer the two installers, Strategies and
--     Upgrader the upgrade of an addon, Controller `Reconcile` of
--     modules/cvo/internal/controllers/clusteraddon_controller.go; Completed, Outcome, Unserved and
--     Merging hold the proofs.
--   Ssh.antt: the pool of SSH connections of modules/cvo/internal/ssh/manager.go. Keys, Pool and
--     Refinement hold the proofs.
--   ComponentDiff.antt: `DiffComponents` of modules/cvo/internal/upgrader/diff_components.go; Needs
--     holds the proofs.
--   Backup.antt: modules/cvo/internal/upgrader/backup_rollback.go. Hooks has the configurations and the
--     hooks, Health the health check, Executor the backup and the rollback; Moves says what comes
--     later in time, and Checked and Rollbacks hold the proofs.
--   Api.antt: the resources of modules/cvo/api/v1beta1, with the fields that the models use.
--   Effects.antt, Prelude.antt: actions on the outside world, with the worlds that come later in a run
--     in Effects/Later, and shared names and lemmas.
--
-- Conventions
--   The API server, files, SSH, clocks and polling waits are the fields of a platform record over a
--   world; an operation takes the world and returns a result and the world afterwards, and a failing
--   operation keeps what it has changed. Where a theorem says that something happens later or
--   afterwards, its world is reached from the earlier one by operations of the platform. The order in which Go visits a map is an argument. Errors
--   are data types whose constructors stand for the messages. Versions and image references are
--   lists of code points. Counters that a program may count below zero are integers.
--
-- Fuel
--   The sort of the executor takes one unit more than the number of keys, which is proved enough. The
--   sort of the self-upgrade has no mark for what is in progress: its argument is how deep the calls
--   may nest, and running out of it stands for a stack overflow. The batches of a rolling upgrade take
--   one unit more than there are nodes, which is proved enough.
--
-- Not modelled
--   Logs, events, metrics and the messages of conditions; the bodies of the polling waits; the
--   decoding of YAML and OCI images; the text of shell scripts; the interleaving of the steps
--   inside a batch of a rolling upgrade; templates of addons; the installer, CNI, CSI, load
--   balancer, gateway and registry packages; sessions over SSH; the controllers of clusters and of
--   release images; the mains; generated deep copies.
pub mod Addon
pub mod Api
pub mod Backup
pub mod ClusterVersion
pub mod ComponentDiff
pub mod Conditions
pub mod Effects
pub mod GraphExecutor
pub mod Inventory
pub mod NodeUpgrade
pub mod Prelude
pub mod Retry
pub mod Rolling
pub mod SelfUpgrade
pub mod Ssh
pub mod TopologicalSort
pub mod UpgradePath
pub mod Version
