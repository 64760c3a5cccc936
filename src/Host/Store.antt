-- ===== src/Host/Store.antt =====
-- The bucket of hosts in dao/bolt/host.go and the cached Docker clients of docker/host.go. Whether the
-- transaction of a write succeeds is an argument.
use swirl_evo.Common.{
  ◌==◌, Bool, true, false, List, [], Option, none, some, Text, text_eq, if◌then◌else◌,
}
use swirl_evo.Common.Dict.{update_entry, Dict, lookup, replace, delete}
use swirl_evo.Common.Int.{ℤ, is_positive}
use swirl_evo.Host.{Host}

abbrev pub HostBucket : Type 0
HostBucket = Dict Text Host

unfoldable pub host_create : Bool → Host → HostBucket → Bool × HostBucket
unfolding replace
host_create wrote h m = if wrote then (true, replace h.id h m) else (false, m)

abbrev pub or_old : Text → Text → Text
or_old new old = if new == [] then old else new

-- What `HostUpdate` writes: the new host, with what it keeps of the old one.
abbrev pub merged : Host → Host → Host
merged old h = record h {
  created_at = old.created_at;
  created_by = old.created_by;
  status = old.status;
  engine_ver = old.engine_ver;
  os = old.os;
  arch = old.arch;
  cpus = old.cpus;
  memory = old.memory;
  tls_key = or_old h.tls_key old.tls_key;
  ssh_key = or_old h.ssh_key old.ssh_key;
  swirl_token = or_old h.swirl_token old.swirl_token;
  addon_config_extract = or_old h.addon_config_extract old.addon_config_extract;
  immutable = old.immutable;
}

unfoldable pub host_update : Bool → Host → HostBucket → Bool × HostBucket
unfolding update_entry
host_update wrote h m = update_entry wrote h.id (λ old. merged old h) m

-- What a daemon tells of itself.
pub record Info : Type 0 where
  pub swarm_state : Text
  pub control_available : Bool
  pub managers : List Text
  pub server_version : Text
  pub os_type : Text
  pub architecture : Text
  pub ncpu : ℤ
  pub mem_total : ℤ

-- `HostUpdateStatus` with what `syncHost` passes of an answer.
abbrev pub with_status : Text → Text → Info → Host → Host
with_status status error info old = record old {
  status = status;
  error = error;
  engine_ver = or_old info.server_version old.engine_ver;
  os = or_old info.os_type old.os;
  arch = or_old info.architecture old.arch;
  cpus = if is_positive info.ncpu then info.ncpu else old.cpus;
  memory = if is_positive info.mem_total then info.mem_total else old.memory;
}

unfoldable pub host_update_status :
    Bool → Text → Text → Text → Info → HostBucket → Bool × HostBucket
unfolding update_entry
host_update_status wrote id status error info m =
    update_entry wrote id (with_status status error info) m

unfoldable pub host_delete : Bool → Text → HostBucket → Bool × HostBucket
unfolding delete
host_delete wrote id m = if wrote then (true, delete id m) else (false, m)

-- `none` also where the record cannot be read.
unfoldable pub host_get : Bool → Text → HostBucket → Option Host
unfolding lookup
host_get reads id m = if reads then lookup id m else none

-- The endpoints of the cached clients.
abbrev pub Clients : Type 0
Clients = Dict Text Text

unfoldable pub get_client : Bool → Text → Text → Clients → Clients
unfolding lookup replace
get_client made id endpoint clients = elim (lookup id clients) [
  | some cached ↦ clients
  | none ↦ if made then replace id endpoint clients else clients
]
