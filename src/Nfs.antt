-- ===== src/Nfs.antt =====
-- The NFS controller: storage/nfs/nfscontroller.go and storage/nfs/nfspermissions.go.
pub mod Permissions
pub mod Create
pub mod Operations
pub mod Reverting
pub mod Rules
pub mod Marks
