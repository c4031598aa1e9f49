-- ===== src/Cluster.antt =====
-- The cluster package, src/expra_connect/cluster.
pub mod Models
pub mod RoleState
pub mod Roles
pub mod Lease
pub mod Failover
pub mod History
pub mod Operations
pub mod Invites
pub mod Persisted
