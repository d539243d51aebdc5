-- ===== src/Agent/Watch.antt =====
-- What the loop of `WatchVMEvents` skips, and how it ends.
pub mod Delivery
pub mod Session
use firecracker_agent.Base.{
  Bytes, Bool, true, false, not, ◌&&◌, List, [], ◌∷◌, ◌++◌, Option, none, some, ◌==◌, is_empty,
}
use firecracker_agent.Agent.Events.{VmEvent}

-- What the handler returns: nil, or the error of `Send`.
pub data Watching : Type 0 where
  finished : Watching
  broken : Bytes → Watching

-- `req.VmId != "" && event.VmId != req.VmId`
abbrev pub skips : Bytes → VmEvent → Bool
skips vm_id e = not (is_empty vm_id) && not (e.vm_id == vm_id)

-- `stream.Send`, which may answer by all that was sent before.
abbrev pub Send : Type 0
Send = List VmEvent → VmEvent → Option Bytes
