-- ===== src/Agent/Handlers/Requests.antt =====
-- Which requests `CreateVM` accepts.
use firecracker_agent.Base.{
  sym, ◌∙◌, true, false, Result, ok, err, pos, ◌≤ℤ◌, Bytes, Bool, ◌≡◌, ◌≢◌, ◌↔◌, refl, [], none,
  arith, inl, inr, Option-cases,
}
use mathlib.Core.Option.{none-ne-some}
use firecracker_agent.Host.{Host}
use firecracker_agent.Firecracker.State.{CreateVmRequest, VmInfo}
use firecracker_agent.Agent.Server.{
  Server, invalid_argument, Answer, status, broadcast_event, broadcast_error, after_broadcast,
}
use firecracker_agent.Agent.Handlers.{validate, create_vm, report_created, CreateVmResponse}

-- The documented limits of a request.
pub record IsAcceptable (req : CreateVmRequest) : Type 0 where
  pub named : req.vm_id ≢ []
  pub some_cpu : pos 1 ≤ℤ req.vcpu_count
  pub few_cpus : req.vcpu_count ≤ℤ pos 32
  pub enough_memory : pos 128 ≤ℤ req.memory_mb

validate_iff : (req : CreateVmRequest) → (validate req ≡ none) ↔ IsAcceptable req
unfolding validate
validate_iff req = ground arith

abbrev pub is_invalid : Answer CreateVmResponse → Bool
is_invalid (status invalid_argument _) = true
is_invalid _ = false

report_created_valid :
    (host : Host) (i : Bytes) (r : Result VmInfo) (s : Server)
    → is_invalid (report_created host i r s).0 ≡ false
unfolding report_created broadcast_event broadcast_error after_broadcast
report_created_valid host i (ok info) s = ground arith
report_created_valid host i (err e) s = ground arith

-- `CreateVM` refuses a request as invalid exactly if it breaks a limit: then the server is as it
-- was, and the VM manager and the host are not called.
pub create_vm-is_invalid :
    (host : Host) (req : CreateVmRequest) (s : Server)
    → (IsAcceptable req → is_invalid (create_vm host req s).0 ≡ false)
      × (¬ IsAcceptable req
          → (is_invalid (create_vm host req s).0 ≡ true) × ((create_vm host req s).1 ≡ s))
unfolding create_vm
create_vm-is_invalid host req s = elim (Option-cases (validate req)) [
  | inl valid ↦ (
    λ a. rw (valid, create_vm) (report_created_valid host req.vm_id _ _),
    λ no_good. absurd (no_good ((validate_iff req).0 valid)),
  )
  | inr (message, invalid) ↦ (
    λ a. absurd (none-ne-some message (sym ((validate_iff req).1 a) ∙ invalid)),
    λ no_good. rw (invalid, create_vm) (refl, refl),
  )
]
