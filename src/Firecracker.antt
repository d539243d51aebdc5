-- ===== src/Firecracker.antt =====
-- `internal/firecracker`: the API client, the VM processes, the jailer and the VM manager.
pub mod Registry
pub mod Quiet
pub mod Calm
pub mod Client
pub mod Process
pub mod Jailer
pub mod State
pub mod Create
pub mod Manager
pub mod Interleaving
