-- ===== src/Fc.antt =====
-- The Fibre Channel controller: storage/fc/fccontroller.go.
pub mod Publish
pub mod Create
pub mod Rest
