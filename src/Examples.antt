-- ===== src/Examples.antt =====
-- The theorems at concrete inputs.
mod Quiet
mod Values
mod Handlers
mod More
mod Clusters
mod Service
mod Nfs
mod Groups
