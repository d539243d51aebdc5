-- ===== src/Firecracker/Client.antt =====
-- `internal/firecracker/client.go`: Firecracker's HTTP API over a Unix socket.
pub mod Accepts
use firecracker_agent.Base.{
  ℕ, Bytes, Bool, ◌||◌, ◌++◌, Option, none, some, Result, ok, err, Act, ⊤, pure, fail, ◌>>=◌, ◌>>◌,
  text, decimal, ltb, leb, if◌then◌else◌,
}
use firecracker_agent.Host.{
  Host, History, Request, Reply, no_reply, reply, BootSource, Drive, MachineConfig,
  NetworkInterface, Body, boot_source, drive, machine_config, network_interface, action, exchange,
}

pub record Client : Type 0 where
  pub socket_path : Bytes

unfoldable pub new_client : Bytes → Client
new_client socket = record { socket_path = socket }

abbrev check : Bytes → Option Bytes → Act History ⊤
check prefix none h = (ok tt, h)
check prefix (some e) h = (err (prefix ++ e), h)

abbrev refused : ℕ → Bool
refused status = ltb status 200 || leb 300 status

unfoldable pub api_failure : ℕ → Bytes → Bytes
api_failure status body =
    text "API request failed with status " ++ (decimal status ++ (text ": " ++ body))

-- What `put` makes of the answer. The error of reading the body is dropped.
unfoldable pub put_answer : Reply → Result ⊤
put_answer (no_reply e) = err (text "request failed: " ++ e)
put_answer (reply status body unread) =
    if refused status then err (api_failure status body) else ok tt

-- What `get` makes of the answer.
unfoldable pub get_answer : Reply → Result Bytes
get_answer (no_reply e) = err (text "request failed: " ++ e)
get_answer (reply status body (some e)) = err (text "failed to read response: " ++ e)
get_answer (reply status body none) =
    if refused status then err (api_failure status body) else ok body

unfoldable pub put_request : Bytes → Body → Request
put_request path body = record {
  method = text "PUT";
  url = text "http://localhost" ++ path;
  payload = some body;
}

unfoldable pub get_request : Bytes → Request
get_request path = record {
  method = text "GET";
  url = text "http://localhost" ++ path;
  payload = none;
}

unfoldable pub put : Host → Client → Bytes → Body → Act History ⊤
put host c path body = do
  check (text "failed to marshal request: ") (host.marshal body)
  check (text "failed to create request: ") (host.check_request (put_request path body))
  answer ← exchange host c.socket_path (put_request path body)
  λ h. (put_answer answer, h)

unfoldable pub get : Host → Client → Bytes → Act History Bytes
get host c path = do
  check (text "failed to create request: ") (host.check_request (get_request path))
  answer ← exchange host c.socket_path (get_request path)
  λ h. (get_answer answer, h)

unfoldable pub set_boot_source : Host → Client → BootSource → Act History ⊤
set_boot_source host c b = put host c (text "/boot-source") (boot_source b)

unfoldable pub set_machine_config : Host → Client → MachineConfig → Act History ⊤
set_machine_config host c b = put host c (text "/machine-config") (machine_config b)

unfoldable pub add_drive : Host → Client → Drive → Act History ⊤
add_drive host c b = put host c (text "/drives/" ++ b.drive_id) (drive b)

unfoldable pub add_network_interface : Host → Client → NetworkInterface → Act History ⊤
add_network_interface host c b =
    put host c (text "/network-interfaces/" ++ b.iface_id) (network_interface b)

unfoldable pub start_instance : Host → Client → Act History ⊤
start_instance host c =
    put host c (text "/actions") (action (record { action_type = text "InstanceStart" }))

unfoldable pub send_ctrl_alt_del : Host → Client → Act History ⊤
send_ctrl_alt_del host c =
    put host c (text "/actions") (action (record { action_type = text "SendCtrlAltDel" }))

-- `json.Unmarshal` is a parameter, over whatever stands for a decoded object.
unfoldable pub get_instance_info : {J : Type 0} → (Bytes → Result J) → Host → Client → Act History J
get_instance_info decode host c = do
  body ← get host c (text "/")
  elim (decode body) [ ok j ↦ pure j | err e ↦ fail (text "failed to parse response: " ++ e) ]
