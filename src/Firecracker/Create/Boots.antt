-- ===== src/Firecracker/Create/Boots.antt =====
-- What `CreateVM` asks of Firecracker.
use firecracker_agent.Base.{
  Act, ⊤, wrap, ◌>>◌, Bytes, true, false, ◌≡◌, sym, ap, ◌∙◌, List, [], ◌∷◌, ok, arith, text, ◌++◌,
}
use firecracker_agent.Host.{
  Host, History, Request, Reply, requested, Body, boot_source, drive, machine_config,
  network_interface, action,
}
use firecracker_agent.Firecracker.Client
use firecracker_agent.Firecracker.Client.{Client, put_request}
use firecracker_agent.Firecracker.Client.Accepts.{IsSuccess, put-ok_iff}
use firecracker_agent.Firecracker.State.{CreateVmRequest, Manager}
use firecracker_agent.Firecracker.Create.{Resources, boot_args, configure}

-- From `h` to `h'` exactly these requests were made of the socket, in this order, and each was
-- answered by a success.
abbrev pub Exchanged : Bytes → List Request → History → History → Type 0
Exchanged socket [] h h' = h' ≡ h
Exchanged socket (r ∷ rs) h h' =
    (a : Reply) × IsSuccess a × Exchanged socket rs (requested socket r a ∷ h) h'

module _ (host : Host) (m : Manager) (req : CreateVmRequest) (res : Resources) where
  abbrev pub kernel_body : Body
  kernel_body =
      boot_source
        (record { kernel_image_path = res.storage.kernel_path; boot_args = boot_args host m req })

  abbrev pub machine_body : Body
  machine_body =
      machine_config
        (record { vcpu_count = req.vcpu_count; mem_size_mib = req.memory_mb; smt = false })

  abbrev pub drive_body : Body
  drive_body = drive (record {
    drive_id = text "rootfs";
    path_on_host = res.storage.rootfs_path;
    is_root_device = true;
    is_read_only = false;
  })

  abbrev pub network_body : Body
  network_body =
      network_interface (record {
        iface_id = text "eth0";
        host_dev_name = res.tap_device;
        guest_mac = res.mac_addr;
      })

  abbrev pub start_body : Body
  start_body = action (record { action_type = text "InstanceStart" })

  -- The boot sequence of Firecracker's API: everything is configured before the instance starts.
  abbrev pub start_requests : List Request
  start_requests = put_request (text "/actions") start_body ∷ []

  abbrev pub network_requests : List Request
  network_requests =
      put_request (text "/network-interfaces/" ++ text "eth0") network_body ∷ start_requests

  abbrev pub drive_requests : List Request
  drive_requests = put_request (text "/drives/" ++ text "rootfs") drive_body ∷ network_requests

  abbrev pub machine_requests : List Request
  machine_requests = put_request (text "/machine-config") machine_body ∷ drive_requests

  abbrev pub boot_sequence : List Request
  boot_sequence = put_request (text "/boot-source") kernel_body ∷ machine_requests

-- A chain of steps that gave no error ran each of them.
wrap-ok :
    (prefix : Bytes) (m : Act History ⊤) (h : History)
    → (wrap prefix m h).0 ≡ ok tt
    → ((m h).0 ≡ ok tt) × ((wrap prefix m h).1 ≡ (m h).1)
wrap-ok prefix m h e = ground arith

then-ok :
    (prefix : Bytes) (m rest : Act History ⊤) (h : History)
    → ((wrap prefix m >> rest) h).0 ≡ ok tt
    → ((m h).0 ≡ ok tt) × ((wrap prefix m >> rest) h ≡ rest (m h).1)
then-ok prefix m rest h e = ground arith

module _ (host : Host) (c : Client) (path prefix : Bytes) (b : Body) where
  abbrev wrapped : Act History ⊤
  wrapped = wrap prefix (Client.put host c path b)

  put-Exchanged :
      (rs : List Request) (h h' : History)
      → (Client.put host c path b h).0 ≡ ok tt
      → Exchanged c.socket_path rs (Client.put host c path b h).1 h'
      → Exchanged c.socket_path (put_request path b ∷ rs) h h'
  put-Exchanged rs h h' e rest =
      let p = (put-ok_iff host c path b h).0 e in
      (host.exchange h c.socket_path (put_request path b), p.2, rw p.3 at rest)

  last-Exchanged :
      (h : History)
      → (wrapped h).0 ≡ ok tt
      → Exchanged c.socket_path (put_request path b ∷ []) h (wrapped h).1
  last-Exchanged h e =
      let (p, q) = wrap-ok prefix (Client.put host c path b) h e in put-Exchanged [] h _ p q

  then-Exchanged :
      (rs : List Request) (rest : Act History ⊤) (h : History)
      → ((h1 : History) → (rest h1).0 ≡ ok tt → Exchanged c.socket_path rs h1 (rest h1).1)
      → ((wrapped >> rest) h).0 ≡ ok tt
      → Exchanged c.socket_path (put_request path b ∷ rs) h ((wrapped >> rest) h).1
  then-Exchanged rs rest h go e =
      let (p, q) = then-ok prefix (Client.put host c path b) rest h e in
      rw q (put-Exchanged rs h _ p (go _ (ap (λ x. x.0) (sym q) ∙ e)))

-- If the configuration succeeds then it made exactly the five requests of the boot sequence, in that
-- order and over the VM's own socket, each answered by a success; the last one starts the instance.
pub configure-Exchanged :
    (host : Host) (m : Manager) (req : CreateVmRequest) (res : Resources) (h : History)
    → (configure host m req res h).0 ≡ ok tt
    → Exchanged res.process.client.socket_path
        (boot_sequence host m req res)
        h
        (configure host m req res h).1
unfolding configure Client.set_boot_source Client.set_machine_config Client.add_drive
    Client.add_network_interface Client.start_instance
configure-Exchanged host m req res h =
    let c = res.process.client in
    then-Exchanged host c _ (text "failed to set boot source: ") (kernel_body host m req res)
      (machine_requests host m req res) _ h
      λ h1.
        then-Exchanged host c _ (text "failed to set machine config: ")
          (machine_body host m req res) (drive_requests host m req res) _ h1
          λ h2.
            then-Exchanged host c _ (text "failed to add drive: ") (drive_body host m req res)
              (network_requests host m req res) _ h2
              λ h3.
                then-Exchanged host c _ (text "failed to add network interface: ")
                  (network_body host m req res) (start_requests host m req res) _ h3
                  λ h4.
                    last-Exchanged host c _ (text "failed to start instance: ")
                      (start_body host m req res) h4
