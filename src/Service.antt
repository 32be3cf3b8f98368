-- ===== src/Service.antt =====
-- The CSI controller service: service/controller.go, service/protocolsecret.go,
-- service/screplica.go and storage/storageservice.go.
pub mod Secrets
pub mod Protocol
pub mod Classes
pub mod Replicas
pub mod Operations
pub mod Create
pub mod Delete
pub mod Publish
pub mod Rest
pub mod Listing
pub mod Groups
pub mod Snapshots
pub mod Replication
pub mod VolumeGroups
