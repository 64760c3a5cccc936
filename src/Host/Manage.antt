-- ===== src/Host/Manage.antt =====
-- The handlers of biz/host.go: `Create`, `Update`, `Delete`, `Test`, `Sync` and `ProbeHost`.
use swirl_evo.Common.{
  ◌==◌, ◌&&◌, ◌||◌, not, ℕ, Bool, false, List, [], ◌∷◌, select, Option, none, some, Text, codes,
  trim_space, trim_right, text_eq, if◌then◌else◌,
}
use swirl_evo.Common.Dict.{delete}
use swirl_evo.Common.Int.{pos}
use swirl_evo.Host.{
  Host, HostError, name_required, has_prefix, validate_and_normalize_host, trimmed,
}
use swirl_evo.Host.Store.{
  HostBucket, Clients, Info, host_create, host_update, host_update_status, host_delete, host_get,
  get_client,
}

pub data Action : Type 0 where
  created updated deleted : Action

pub record Hosts : Type 0 where
  pub bucket : HostBucket
  pub clients : Clients
  -- the audit log: the action, the host's id and its name
  pub events : List (Action × Text × Text)

-- What a call comes upon. `info` and `synced` are the answers of a daemon to `ProbeHost` and `syncHost`.
pub record Answers : Type 0 where
  pub reads : Bool
  pub info : Option Info
  pub wrote : Bool
  pub new_id : Text
  pub now : ℕ
  pub user : Text
  pub synced : Option Info
  pub sync_error : Text
  pub status_wrote : Bool
  pub client_made : Bool

pub data ProbeError : Type 0 where
  no_endpoint unreachable direct_manager : ProbeError
  worker_rejected : List Text → ProbeError

pub data Probe : Type 0 where
  classified : Text → Probe
  not_probed : ProbeError → Probe

pub data Result : Type 0 where
  success store_failed host_immutable : Result
  invalid : HostError → Result
  rejected : ProbeError → Result

abbrev pub swarm_via_swirl : Text
swarm_via_swirl = codes "swarm_via_swirl"

abbrev pub standalone : Text
standalone = codes "standalone"

abbrev pub active : Text
active = codes "active"

abbrev pub classify : Option Info → Probe
classify none = not_probed unreachable
classify (some info) =
    if info.swarm_state == active && not info.control_available
    then not_probed (worker_rejected (select (λ a. not (a == [])) info.managers))
    else if info.swarm_state == active && info.control_available
    then not_probed direct_manager
    else classified standalone

unfoldable pub probe_host : Option Info → Text → Probe
probe_host info endpoint =
    if trim_space endpoint == []
    then not_probed no_endpoint
    else if has_prefix (codes "http://") (trim_space endpoint)
        || has_prefix (codes "https://") (trim_space endpoint)
    then classified swarm_via_swirl
    else classify info

-- An answer of no daemon: empty texts and zeros, which `HostUpdateStatus` skips.
abbrev pub no_info : Info
no_info = record {
  swarm_state = [];
  control_available = false;
  managers = [];
  server_version = [];
  os_type = [];
  architecture = [];
  ncpu = pos 0;
  mem_total = pos 0;
}

unfoldable pub sync_host : Answers → Text → Text → Hosts → Hosts
unfolding host_update_status get_client
sync_host k id endpoint s = elim k.synced [
  | none ↦ record s {
    bucket = (host_update_status k.status_wrote id (codes "error") k.sync_error no_info s.bucket).1;
  }
  | some info ↦ record s {
    bucket = (host_update_status k.status_wrote id (codes "connected") [] info s.bucket).1;
    clients = get_client k.client_made id endpoint s.clients;
  }
]

abbrev pub with_type : Text → Host → Host
with_type t h =
    if t == swarm_via_swirl
    then record h {
      host_type = t;
      auth_method = codes "swirl";
      swirl_url = trim_right 47 h.endpoint;
    }
    else record h { host_type = t }

-- A host is synced unless it stands behind another Swirl.
abbrev pub synced_unless : Answers → Host → Hosts → Hosts
synced_unless k h s =
    let direct = sync_host k h.id h.endpoint s in
    if h.host_type == swarm_via_swirl then s else direct

abbrev pub created_host : Answers → Host → Host
created_host k h = record h {
  id = k.new_id;
  status = codes "disconnected";
  created_at = k.now;
  updated_at = k.now;
  created_by = k.user;
  updated_by = k.user;
}

unfoldable pub store_new : Answers → Host → Hosts → Result × Hosts
unfolding sync_host host_create
store_new k h s =
    let (stored, bucket) = host_create k.wrote h s.bucket in
    let s1 = record s { bucket = bucket; events = (created, h.id, h.name) ∷ s.events } in
    if stored then (success, synced_unless k h s1) else (store_failed, record s { bucket = bucket })

abbrev pub stamped : Answers → Host → Host
stamped k h = record h { updated_at = k.now; updated_by = k.user }

unfoldable pub store_changed : Answers → Host → Hosts → Result × Hosts
unfolding sync_host host_update delete
store_changed k h s =
    let (stored, bucket) = host_update k.wrote h s.bucket in
    let s1 = record s {
      bucket = bucket;
      clients = delete h.id s.clients;
      events = (updated, h.id, h.name) ∷ s.events;
    } in
    if stored then (success, synced_unless k h s1) else (store_failed, record s { bucket = bucket })

-- The validation and the classification in front of a write.
abbrev pub admitted : Answers → Host → (Host → Result × Hosts) → Hosts → Result × Hosts
admitted k host next s = elim (validate_and_normalize_host host).1 [
  | some e ↦ (invalid e, s)
  | none ↦ elim (probe_host k.info (trimmed host).endpoint) [
    | not_probed e ↦ (rejected e, s)
    | classified t ↦ next (with_type t (trimmed host))
  ]
]

unfoldable pub create : Answers → Host → Hosts → Result × Hosts
unfolding store_new validate_and_normalize_host probe_host
create k host s = admitted k host (λ h. store_new k (created_host k h) s) s

-- The update of a host that is immutable: its name and its colour.
unfoldable pub update_cosmetic : Answers → Host → Host → Hosts → Result × Hosts
unfolding host_update
update_cosmetic k existing host s =
    let h = record existing {
      name = trim_space host.name;
      color = host.color;
      updated_at = k.now;
      updated_by = k.user;
    } in
    let (stored, bucket) = host_update k.wrote h s.bucket in
    if trim_space host.name == []
    then (invalid name_required, s)
    else if stored
    then (success, record s { bucket = bucket; events = (updated, h.id, h.name) ∷ s.events })
    else (store_failed, record s { bucket = bucket })

abbrev pub update_existing : Answers → Host → Option Host → Hosts → Result × Hosts
update_existing k host none s = admitted k host (λ h. store_changed k (stamped k h) s) s
update_existing k host (some existing) s =
    let cosmetic = update_cosmetic k existing host s in
    let full = admitted k host (λ h. store_changed k (stamped k h) s) s in
    if existing.immutable then cosmetic else full

unfoldable pub update : Answers → Host → Hosts → Result × Hosts
unfolding update_cosmetic store_changed validate_and_normalize_host probe_host host_get
update k host s =
    update_existing k host (if host.id == [] then none else host_get k.reads host.id s.bucket) s

abbrev pub is_immutable : Option Host → Bool
is_immutable none = false
is_immutable (some h) = h.immutable

unfoldable pub delete_host : Answers → Text → Text → Hosts → Result × Hosts
unfolding host_delete host_get delete
delete_host k id name s =
    let (gone, bucket) = host_delete k.wrote id s.bucket in
    let s1 = record s { bucket = bucket; clients = delete id s.clients } in
    if is_immutable (host_get k.reads id s.bucket)
    then (host_immutable, s)
    else if gone
    then (success, record s1 { events = (deleted, id, name) ∷ s.events })
    else (store_failed, s1)

unfoldable pub sync : Answers → Text → Hosts → Hosts
unfolding sync_host host_get
sync k id s = elim (host_get k.reads id s.bucket) [
  | none ↦ s
  | some h ↦ sync_host k h.id h.endpoint s
]

-- The host that the test of a connection validates.
abbrev pub stub : Text → Text → Host
stub endpoint auth_method = record {
  id = [];
  name = codes "test";
  endpoint = trim_space endpoint;
  auth_method = auth_method;
  tls_ca_cert = [];
  tls_cert = [];
  tls_key = [];
  ssh_user = [];
  ssh_key = [];
  status = [];
  error = [];
  color = [];
  host_type = [];
  swirl_url = [];
  swirl_token = [];
  token_expires_at = 0;
  token_auto_refresh = false;
  immutable = false;
  engine_ver = [];
  os = [];
  arch = [];
  cpus = pos 0;
  memory = pos 0;
  created_at = 0;
  updated_at = 0;
  created_by = [];
  updated_by = [];
  addon_config_extract = [];
}

unfoldable pub test : Option Info → Text → Text → Result
unfolding validate_and_normalize_host
test info endpoint auth_method = elim (validate_and_normalize_host (stub endpoint auth_method)).1 [
  | some e ↦ invalid e
  | none ↦ elim info [ none ↦ rejected unreachable | some _ ↦ success ]
]
