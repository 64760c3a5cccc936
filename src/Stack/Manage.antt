-- ===== src/Stack/Manage.antt =====
-- The compose stacks of biz/compose_stack.go over the Bolt buckets, the hosts' daemons and the deploys
-- that run in the background: the data, the store's calls, the client of a host and the save of a stack.
-- `Answers` is what one call comes upon: which reads and writes of the store succeed, the time, and what
-- the parsers of YAML say. A client is the endpoint that it was made for, and stands for a daemon.
pub mod Self
pub mod Env
pub mod Deploys
pub mod Calls
pub mod Moves
pub mod Cases
use swirl_evo.Common.{
  ℕ, Bool, true, false, not, ◌&&◌, ◌||◌, ◌==◌, List, [], ◌∷◌, ◌++◌, any, Option, none, some, Text,
  codes, to_lower, text_eq, if◌then◌else◌,
}
use swirl_evo.Common.Dict.{Dict, lookup, replace, delete, update_entry}
use swirl_evo.Docker.{Docker}
use swirl_evo.Host.{Host}
use swirl_evo.Host.Store.{HostBucket, Clients, get_client}
use swirl_evo.Compose.Order.{Service}
use swirl_evo.Compose.Engine.{Checks}
use swirl_evo.Stack.{ComposeStack}
use swirl_evo.Stack.Version.{Stacks, snapshot_if_changed, stack_update}
use swirl_evo.Stack.Version as Version
use swirl_evo.Stack.Rewrite.{RegistryCache, Reference, RewriteAction, Node, contains}

pub data Action : Type 0 where
  created updated deployed started shutdown deleted imported migrated : Action

-- `VolumesContainDataError` carries the names of the volumes.
pub data Error : Type 0 where
  store_failed ids_required host_not_found host_unreachable stack_not_found : Error
  stack_operation_failed self_deploy_blocked secrets_failed addons_failed : Error
  volumes_contain_data : List Text → Error
  already_managed no_stack not_stopped same_host target_not_found cross_mode name_conflict : Error

-- How a call ends, with the stack's id or with an error; no caller reads the id that goes with an error.
pub data Ending : Type 0 where
  ok : Text → Ending
  failed : Error → Ending

-- What a deploy hands to its goroutine.
pub record Job : Type 0 where
  pub id : Text
  pub host_id : Text
  pub name : Text
  pub content : Text
  pub env_file : Text
  pub pull_images : Bool
  pub client : Text
  pub actions : List RewriteAction

pub record World (d : Docker) : Type 0 where
  pub kept : Stacks
  -- each binding's id with its stack's
  pub bindings : Dict Text Text
  pub bucket : HostBucket
  pub clients : Clients
  pub daemons : Text → d.Daemon
  pub jobs : List Job
  -- the audit log: the action, the host's id and the stack's name
  pub audit : List (Action × Text × Text)

pub record Answers : Type 0 where
  pub version : Version.Answers
  pub reads_stack : Bool
  pub reads_names : Bool
  pub reads_host : Bool
  pub reads_source : Bool
  pub makes_client : Bool
  pub wrote_record : Bool
  -- the writes of a status: the first of a call, and that of how it ends
  pub wrote_status : Bool
  pub wrote_outcome : Bool
  pub wrote_error : Bool
  pub wrote_warnings : Bool
  pub lists_bindings : Bool
  pub deletes_binding : Text → Bool
  pub lists_versions : Bool
  pub deletes_version : Text → Bool
  pub deletes_stack : Bool
  pub new_id : Text
  pub now : ℕ
  pub user : Text
  -- the id of the container that the program runs in
  pub self_id : Option Text
  -- `NewHook`, and the texts of errors
  pub hook_is_ready : Bool
  pub blocked_text : Text
  pub secrets_text : Text
  pub mirror_text : Text
  pub deploy_text : Text
  -- the engine's error: whether it is a `NotFound`, and its text
  pub is_not_found : Bool
  pub engine_text : Text
  -- `compose.Parse`: each service's `container_name` and name
  pub services_of : Text → Text → Option (List (Text × Text))
  -- what the engine finds of a file before it changes the daemon, with the warnings
  pub prepare : Text → Text → Dict Text Text → Checks × List Service × List Text
  pub reconstruct : Text → Option Text
  -- `GetAddonConfigExtract`: `none` for an error
  pub extract : Option (Option Bool)
  pub registry_cache : Option RegistryCache
  pub unmarshal : Text → Option Node
  pub marshal : Node → Option Text
  pub parse_reference : Text → Option Reference
  pub get_auth : Text → Option Text
  -- `injectAddonLabels` of the content and the mode
  pub inject : Text → Text → Option Text

abbrev pub inactive : Text
inactive = codes "inactive"

abbrev pub active : Text
active = codes "active"

abbrev pub deploying : Text
deploying = codes "deploying"

abbrev pub error : Text
error = codes "error"

-- `isConnectivityError` of the error's text.
unfoldable pub is_connectivity_error : Text → Bool
unfolding contains
is_connectivity_error text =
    let msg = to_lower text in
    any (λ needle. contains needle msg)
      (codes "connection refused"
        ∷ codes "no such host"
        ∷ codes "no such file or directory"
        ∷ codes "network is unreachable"
        ∷ codes "i/o timeout"
        ∷ codes "connect: timed out"
        ∷ codes "tls handshake"
        ∷ codes "cannot connect to the docker daemon"
        ∷ [])

-- The code that `wrapOpError` gives the engine's error.
abbrev pub wrap_op_error : Answers → Error
wrap_op_error k =
    if k.is_not_found
    then stack_not_found
    else if is_connectivity_error k.engine_text
    then host_unreachable
    else stack_operation_failed

-- `ComposeStackGetByName`: the last of a host and a name.
unfoldable pub get_by_name : Text → Text → Dict Text ComposeStack → Option ComposeStack
get_by_name host_id name [] = none
get_by_name host_id name ((k, s) ∷ m) =
    let later = get_by_name host_id name m in
    let here = if s.host_id == host_id && s.name == name then some s else none in
    elim later [ none ↦ here | some t ↦ some t ]

-- `resolveHostClient`: a client and its host.
pub data Resolved : Type 0 where
  ready : Text → Host → Resolved
  unresolved : Error → Resolved

abbrev pub made_client : Host → Option Text → Resolved
made_client h none = unresolved host_unreachable
made_client h (some client) = ready client h

abbrev pub resolve_found : Answers → Clients → Option Host → Resolved
resolve_found k clients none = unresolved host_not_found
resolve_found k clients (some h) =
    made_client h (lookup h.id (get_client k.makes_client h.id h.endpoint clients))

abbrev pub clients_found : Answers → Clients → Option Host → Clients
clients_found k clients none = clients
clients_found k clients (some h) = get_client k.makes_client h.id h.endpoint clients

unfoldable pub resolve_host_client : Answers → Text → HostBucket → Clients → Resolved
unfolding lookup get_client
resolve_host_client k host_id bucket clients =
    if host_id == []
    then unresolved host_not_found
    else if not k.reads_host
    then unresolved store_failed
    else resolve_found k clients (lookup host_id bucket)

-- The clients after it.
unfoldable pub clients_after : Answers → Text → HostBucket → Clients → Clients
unfolding lookup get_client
clients_after k host_id bucket clients =
    if host_id == []
    then clients
    else if not k.reads_host
    then clients
    else clients_found k clients (lookup host_id bucket)

-- `modeForHost`: `none` for an error.
unfoldable pub mode_for_host : Answers → Text → HostBucket → Option Text
unfolding lookup
mode_for_host k host_id bucket =
    let found : Text = elim (lookup host_id bucket) [
      | none ↦ codes "standalone"
      | some h ↦
          if h.host_type == codes "swarm_via_swirl" then codes "swarm" else codes "standalone"
    ] in
    if host_id == []
    then some (codes "standalone")
    else if not k.reads_host
    then none
    else some found

abbrev pub set_status : Text → ComposeStack → ComposeStack
set_status status s = record s { status = status }

abbrev pub set_error : Text → ComposeStack → ComposeStack
set_error message s = record s { error_message = message }

abbrev pub set_warnings : List Text → ComposeStack → ComposeStack
set_warnings warnings s = record s { last_warnings = warnings }

module _ (d : Docker) where
  -- `ComposeStackUpdateStatus`, `ComposeStackUpdateError` and `ComposeStackUpdateWarnings`, whose errors
  -- no caller reads.
  unfoldable pub change : Bool → Text → (ComposeStack → ComposeStack) → World d → World d
  unfolding update_entry
  change wrote id new w = record w {
    kept = record w.kept { stacks = (update_entry wrote id new w.kept.stacks).1 };
  }

  abbrev pub noted : Action → Text → Text → World d → World d
  noted action host_id name w = record w { audit = (action, host_id, name) ∷ w.audit }

  abbrev pub with_stacks : Dict Text ComposeStack → World d → World d
  with_stacks stacks w = record w { kept = record w.kept { stacks = stacks } }

  -- What `saveWithReason` writes of a new stack.
  abbrev pub fresh : Answers → ComposeStack → ComposeStack
  fresh k stack = record stack {
    id = k.new_id;
    updated_at = k.now;
    updated_by = k.user;
    created_at = k.now;
    created_by = k.user;
    status = if stack.status == [] then inactive else stack.status;
  }

  unfoldable pub create : Answers → ComposeStack → World d → Ending × World d
  unfolding replace
  create k stack w =
      let stacks = replace k.new_id (fresh k stack) w.kept.stacks in
      if k.wrote_record
      then (ok k.new_id, noted created stack.host_id stack.name (with_stacks stacks w))
      else (failed store_failed, w)

  unfoldable pub update : Answers → Text → ComposeStack → World d → Ending × World d
  unfolding snapshot_if_changed stack_update
  update k reason stack w =
      let kept =
        snapshot_if_changed k.version stack.id stack.content stack.env_file reason w.kept in
      let stamped = record stack { updated_at = k.now; updated_by = k.user } in
      let (wrote, stacks) = stack_update k.wrote_record stamped kept.stacks in
      let w1 = record w { kept = record kept { stacks = stacks } } in
      if wrote
      then (ok stack.id, noted updated stack.host_id stack.name w1)
      else (failed store_failed, w1)

  unfoldable pub save_with_reason : Answers → Text → ComposeStack → World d → Ending × World d
  unfolding create update
  save_with_reason k reason stack w =
      if stack.host_id == [] || stack.name == []
      then (failed ids_required, w)
      else if stack.id == []
      then create k stack w
      else update k reason stack w

  unfoldable pub save : Answers → ComposeStack → World d → Ending × World d
  unfolding save_with_reason
  save k stack w = save_with_reason k (codes "save") stack w

  abbrev pub injected :
      Answers
      → (Text → ComposeStack → World d → Ending × World d)
      → ComposeStack
      → World d
      → Option Text
      → Ending × World d
  injected k next stack w none = (failed addons_failed, w)
  injected k next stack w (some content) =
      if content == stack.content
      then next (codes "save") stack w
      else next (codes "addon-inject") (record stack { content = content }) w

  abbrev pub injected_for :
      Answers
      → (Text → ComposeStack → World d → Ending × World d)
      → ComposeStack
      → World d
      → Option Text
      → Ending × World d
  injected_for k next stack w none = (failed store_failed, w)
  injected_for k next stack w (some mode) = injected k next stack w (k.inject stack.content mode)

  -- The step that `SaveWithAddons` and `DeployWithAddons` share; whether the wizard set any addon is an
  -- argument. `next` takes the reason of a snapshot.
  abbrev pub with_addons :
      Answers
      → Bool
      → (Text → ComposeStack → World d → Ending × World d)
      → ComposeStack
      → World d
      → Ending × World d
  with_addons k has_addon next stack w =
      if has_addon
      then injected_for k next stack w (mode_for_host k stack.host_id w.bucket)
      else next (codes "save") stack w

  unfoldable pub save_with_addons : Answers → Bool → ComposeStack → World d → Ending × World d
  unfolding save_with_reason mode_for_host
  save_with_addons k has_addon stack w =
      with_addons k has_addon (λ reason. save_with_reason k reason) stack w
