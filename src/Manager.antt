-- ===== src/Manager.antt =====
-- The resource manager (cmd/diff/diffprocessor/resource_manager.go): what the cluster has of a
-- rendered resource, the owners that it names, and the observed resources of an XR.
pub mod Owners
pub mod Fetch
pub mod Observed
pub mod Supplied
