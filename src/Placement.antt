-- ===== src/Placement.antt =====
-- The declarative placement engine: microceph/ceph/placement.go, microceph/ceph/control_readiness.go,
-- microceph/api/types/placement.go and microceph/database/placement_policy_extras.go.
pub mod Policy
pub mod Rgw
pub mod Errors
pub mod Table
pub mod Engine
pub mod Gateways
pub mod Reconcile
pub mod Store
pub mod Apply
pub mod Put
pub mod Status
