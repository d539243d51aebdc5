-- ===== src/Config/Complete.antt =====
-- What the defaults guarantee.
use firecracker_agent.Base.{
  is_empty, is_zero, ℤ, pos, negsuc, zero, suc, Bytes, Bool, true, false, ◌≡◌, ◌≢◌, ◌↔◌, refl, [],
  ◌∷◌, none, some, Option, Result, ok, arith, text, or_default,
}
use firecracker_agent.Config.{Config, set_defaults, load, int_or, flag_or}

-- Every setting that has a default is given.
pub record IsComplete (c : Config) : Type 0 where
  pub host : c.server.host ≢ []
  pub port : c.server.port ≢ pos 0
  pub level : c.log.level ≢ []
  pub format : c.log.format ≢ []
  pub bridge_name : c.network.bridge_name ≢ []
  pub tap_prefix : c.network.tap_prefix ≢ []
  pub bridge_ip : c.network.bridge_ip ≢ []
  pub vms_dir : c.storage.vms_dir ≢ []
  pub metrics_port : c.monitoring.metrics_port ≢ pos 0
  pub use_jailer : c.firecracker.use_jailer ≢ none
  pub jail_uid : c.firecracker.jail_uid ≢ pos 0
  pub jail_gid : c.firecracker.jail_gid ≢ pos 0

or_default-ne : (s d : Bytes) → is_empty d ≡ false → or_default s d ≢ []
or_default-ne [] d n e = ground arith
or_default-ne (c ∷ s) d n e = ground arith

or_default_keeps : (s d : Bytes) → s ≢ [] → or_default s d ≡ s
or_default_keeps [] d n = absurd (n refl)
or_default_keeps (c ∷ s) d n = refl

int_or-ne : (n d : ℤ) → is_zero d ≡ false → int_or n d ≢ pos 0
int_or-ne n d p e = ground arith

int_or_keeps : (n d : ℤ) → n ≢ pos 0 → int_or n d ≡ n
int_or_keeps (pos zero) d p = absurd (p refl)
int_or_keeps (pos (suc n)) d p = refl
int_or_keeps (negsuc n) d p = refl

flag_or-ne : (f : Option Bool) (b : Bool) → flag_or f b ≢ none
flag_or-ne none b = λ e. cc
flag_or-ne (some x) b = λ e. cc

flag_or_keeps : (f : Option Bool) (b : Bool) → f ≢ none → flag_or f b ≡ f
flag_or_keeps none b n = absurd (n refl)
flag_or_keeps (some x) b n = refl

set_defaults-IsComplete : (c : Config) → IsComplete (set_defaults c)
unfolding set_defaults text
set_defaults-IsComplete c = record {
  host = or_default-ne c.server.host (text "0.0.0.0") refl;
  port = int_or-ne c.server.port (pos 50051) refl;
  level = or_default-ne c.log.level (text "info") refl;
  format = or_default-ne c.log.format (text "json") refl;
  bridge_name = or_default-ne c.network.bridge_name (text "br0") refl;
  tap_prefix = or_default-ne c.network.tap_prefix (text "vmtap") refl;
  bridge_ip = or_default-ne c.network.bridge_ip (text "172.16.0.1/24") refl;
  vms_dir = or_default-ne c.storage.vms_dir (text "/srv/firecracker/vms") refl;
  metrics_port = int_or-ne c.monitoring.metrics_port (pos 9090) refl;
  use_jailer = flag_or-ne c.firecracker.use_jailer true;
  jail_uid = int_or-ne c.firecracker.jail_uid (pos 1000) refl;
  jail_gid = int_or-ne c.firecracker.jail_gid (pos 1000) refl;
}

-- A complete configuration is kept as it is, whatever its values.
pub set_defaults_keeps : (c : Config) → IsComplete c → set_defaults c ≡ c
unfolding set_defaults
set_defaults_keeps c v = ground (
  arith,
  or_default_keeps c.server.host (text "0.0.0.0") v.host,
  int_or_keeps c.server.port (pos 50051) v.port,
  or_default_keeps c.log.level (text "info") v.level,
  or_default_keeps c.log.format (text "json") v.format,
  or_default_keeps c.network.bridge_name (text "br0") v.bridge_name,
  or_default_keeps c.network.tap_prefix (text "vmtap") v.tap_prefix,
  or_default_keeps c.network.bridge_ip (text "172.16.0.1/24") v.bridge_ip,
  or_default_keeps c.storage.vms_dir (text "/srv/firecracker/vms") v.vms_dir,
  int_or_keeps c.monitoring.metrics_port (pos 9090) v.metrics_port,
  flag_or_keeps c.firecracker.use_jailer true v.use_jailer,
  int_or_keeps c.firecracker.jail_uid (pos 1000) v.jail_uid,
  int_or_keeps c.firecracker.jail_gid (pos 1000) v.jail_gid,
)

-- Setting the defaults again changes nothing, for any configuration.
pub set_defaults_idem : (c : Config) → set_defaults (set_defaults c) ≡ set_defaults c
set_defaults_idem c = set_defaults_keeps (set_defaults c) (set_defaults-IsComplete c)

jailer_off :
    (c : Config)
    → ((set_defaults c).firecracker.use_jailer ≡ some false)
      ↔ (c.firecracker.use_jailer ≡ some false)
unfolding set_defaults
jailer_off c = ground arith

-- Whatever the file holds, a configuration that `Load` returns is complete, and the jailer is off
-- exactly if the file said so.
pub load-IsComplete :
    (read_file : Bytes → Result Bytes) (unmarshal : Bytes → Result Config) (path : Bytes)
    {content : Bytes} {given c : Config}
    → read_file path ≡ ok content
    → unmarshal content ≡ ok given
    → load read_file unmarshal path ≡ ok c
    → IsComplete c
      × ((c.firecracker.use_jailer ≡ some false) ↔ (given.firecracker.use_jailer ≡ some false))
unfolding load
load-IsComplete read_file unmarshal path {content} {given} {c} p q e =
    let same : set_defaults given ≡ c = ground arith in
    rw (← same) (set_defaults-IsComplete given, jailer_off given)
