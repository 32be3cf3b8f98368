-- ===== src/Volumes.antt =====
-- What the controllers of every block protocol share: storage/common/.
pub mod Delete
pub mod Hosts
pub mod Response
pub mod Clone
pub mod Snapshots
