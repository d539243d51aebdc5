-- ===== src/Firecracker/Client/Accepts.antt =====
-- When `put` succeeds.
use firecracker_agent.Base.{◌≤◌, ◌<◌, Bytes, ◌≡◌, ◌↔◌, none, ok, arith, ◌∷◌}
use firecracker_agent.Host.{Host, History, Reply, no_reply, reply, Body, requested}
use firecracker_agent.Firecracker.Client.{Client, put_request, put_answer, put}

-- A status from 200 to 299.
abbrev pub IsSuccess : Reply → Type 0
IsSuccess (no_reply e) = ⊥
IsSuccess (reply status body unread) = (200 ≤ status) × (status < 300)

put_answer-ok_iff : (r : Reply) → (put_answer r ≡ ok tt) ↔ IsSuccess r
unfolding put_answer
put_answer-ok_iff (no_reply e) = (λ h. cc, λ h. absurd h)
put_answer-ok_iff (reply status body unread) = ground arith

-- `put` succeeds exactly if the body could be encoded, the request built, and the answer came with a
-- status from 200 to 299; then the history has gained this exchange and nothing else.
pub put-ok_iff :
    (host : Host) (c : Client) (path : Bytes) (b : Body) (h : History)
    → let req = put_request path b in
      let answer = host.exchange h c.socket_path req in
      ((put host c path b h).0 ≡ ok tt) ↔ (
        (host.marshal b ≡ none)
        × (host.check_request req ≡ none)
        × IsSuccess answer
        × ((put host c path b h).1 ≡ requested c.socket_path req answer ∷ h))
unfolding put
put-ok_iff host c path b h =
    ground (arith, put_answer-ok_iff (host.exchange h c.socket_path (put_request path b)))
