-- ===== src/Agent.antt =====
-- `internal/agent`: the event stream and the gRPC handlers.
pub mod Events
pub mod Watch
pub mod Server
pub mod Handlers
pub mod Service
