-- ===== src/Stack/Trace/Tests.antt =====
-- The theorems on the compose stacks at a daemon with one volume.
use mathlib.Core.Option.{some_inj}
use swirl_evo.Common.{
  ◌≡◌, ◌≢◌, refl, sym, ◌∙◌, Bool, true, false, ◌==◌, ==_apart, ==_iff, List, [], ◌∷◌, any, none,
  some, Text, codes, arith, text_eq,
}
use swirl_evo.Common.Dict.{lookup, replace}
use swirl_evo.Common.Int.{pos}
use swirl_evo.Docker.{Docker, streamed, Volume}
use swirl_evo.Docker.Sample.{Shelf, shelf, shelf-VolumeLaws, shelf-Holds, shelf-unsized}
use swirl_evo.Host.{Host}
use swirl_evo.Host.Store.{get_client}
use swirl_evo.Stack.{ComposeStack}
use swirl_evo.Stack.Version.{ComposeStackVersion, snapshot_if_changed, stack_update}
use swirl_evo.Stack.Version as Version
use swirl_evo.Stack.Rewrite.{RewriteAction}
use swirl_evo.Stack.Mirror.{mirror_actions_to_cache}
use swirl_evo.Compose.Engine.{Checks}
use swirl_evo.Stack.Manage.{
  Answers, Job, World, ok, failed, volumes_contain_data, active, save, save_with_reason,
  resolve_host_client, clients_after, ready, get_by_name,
}
use swirl_evo.Stack.Manage.Deploys.{deploy, with_client, effective}
use swirl_evo.Stack.Manage.Calls.{remove, remove_external}
use swirl_evo.Stack.Manage.Moves.{import_stack, migrate}
use swirl_evo.Stack.Trace.{Call, deploys, starts, stops, finishes, overwrites, handle_all}
use swirl_evo.Stack.Trace.Jobs.{handle_all-Steady}
use swirl_evo.Stack.Trace.Jobs.Revived.{overwrites-revives}
use swirl_evo.Stack.Trace.Jobs.Handlers.{Steady}
use swirl_evo.Stack.Trace.Volumes.{handle_all-Holds}
use swirl_evo.Stack.Trace.Removal.{remove-unsized, remove-refuses}
use swirl_evo.Stack.Trace.Forgotten.{remove-IsForgotten, IsForgotten}
use swirl_evo.Stack.Trace.Content.{deploy-Stores, Stores}
use swirl_evo.Stack.Trace.Names.{moves-Distinct, Distinct}

abbrev passing : Checks
passing = record {
  parses = true;
  is_valid = true;
  has_external_networks = true;
  has_external_volumes = true;
  pull_images = false;
  pulls_all = true;
  waits = λ name. true;
}

abbrev versions : Version.Answers
versions = record {
  reads_version = true;
  reads_stack = true;
  lists = true;
  wrote_version = true;
  lists_again = true;
  deletes = λ id. true;
  wrote_stack = true;
  new_id = codes "v2";
  now = 4;
  user = codes "ada";
}

-- Every call of the store and of the hosts succeeds.
abbrev calm : Answers
calm = record {
  version = versions;
  reads_stack = true;
  reads_names = true;
  reads_host = true;
  reads_source = true;
  makes_client = true;
  wrote_record = true;
  wrote_status = true;
  wrote_outcome = true;
  wrote_error = true;
  wrote_warnings = true;
  lists_bindings = true;
  deletes_binding = λ id. true;
  lists_versions = true;
  deletes_version = λ id. true;
  deletes_stack = true;
  new_id = codes "s2";
  now = 4;
  user = codes "ada";
  self_id = none;
  hook_is_ready = true;
  blocked_text = codes "blocked";
  secrets_text = codes "secrets";
  mirror_text = codes "mirror";
  deploy_text = codes "deploy";
  is_not_found = false;
  engine_text = codes "i/o timeout";
  services_of = λ name content. none;
  prepare = λ name content env. (passing, [], []);
  reconstruct = λ name. none;
  extract = none;
  registry_cache = none;
  unmarshal = λ text. none;
  marshal = λ n. none;
  parse_reference = λ text. none;
  get_auth = λ url. none;
  inject = λ content mode. none;
}

abbrev shop : ComposeStack
shop = record {
  id = codes "s1";
  host_id = codes "h1";
  name = codes "shop";
  content = codes "services";
  env_file = [];
  status = active;
  error_message = [];
  last_warnings = [];
  disable_registry_cache = false;
  created_at = 1;
  updated_at = 2;
  created_by = codes "ada";
  updated_by = codes "ada";
}

abbrev other : ComposeStack
other = record shop { id = []; name = codes "blog" }

abbrev harbour : Host
harbour = record {
  id = codes "h1";
  name = codes "one";
  endpoint = codes "tcp://h1:2375";
  auth_method = codes "tcp";
  tls_ca_cert = [];
  tls_cert = [];
  tls_key = [];
  ssh_user = [];
  ssh_key = [];
  status = codes "connected";
  error = [];
  color = [];
  host_type = codes "standalone";
  swirl_url = [];
  swirl_token = [];
  token_expires_at = 0;
  token_auto_refresh = false;
  immutable = false;
  engine_ver = [];
  os = [];
  arch = [];
  cpus = pos 0;
  memory = pos 0;
  created_at = 0;
  updated_at = 0;
  created_by = [];
  updated_by = [];
  addon_config_extract = [];
}

abbrev goods : Volume
goods = record { name = codes "shop_data"; usage = some (pos 7) }

abbrev first : ComposeStackVersion
first = record {
  id = codes "v1";
  stack_id = codes "s1";
  revision = 1;
  content = codes "old";
  env_file = [];
  reason = codes "save";
  created_at = 1;
  created_by = codes "ada";
}

abbrev before : (b : Bool) → World (shelf b)
before b = record {
  kept = record {
    stacks = (codes "s1", shop) ∷ [];
    versions = (codes "v1", first) ∷ [];
    events = [];
  };
  bindings = (codes "b1", codes "s1") ∷ [];
  bucket = (codes "h1", harbour) ∷ [];
  clients = [];
  daemons = λ client. record { volumes = goods ∷ []; images = [] };
  jobs = [];
  audit = [];
}

abbrev empty : World (shelf true)
empty = record (before true) { kept = record { stacks = []; versions = []; events = [] } }

abbrev calls : List Call
calls =
    deploys calm false other true
    ∷ starts calm (codes "s2")
    ∷ finishes calm 0
    ∷ overwrites versions (codes "restore:rev1") first (record other { id = codes "s2" })
    ∷ stops calm (codes "s2")
    ∷ []

abbrev works : (calm.new_id ≢ []) × (calm.wrote_outcome ≡ true)
works = (==_apart (codes "s2") [] refl, refl)

nothing :
    (id : Text) (s : ComposeStack)
    → lookup id empty.kept.stacks ≡ some s
    → (s.id ≡ id)
      × (id ≢ [])
      × (s.status ≡ codes "deploying" → any (λ j. j.id == id) empty.jobs ≡ true)
unfolding lookup
nothing id s e = absurd (ground (arith, e))

not_deploying : active ≢ codes "deploying"
not_deploying = ==_apart active (codes "deploying") refl

handle_all-Steady_example : Steady (shelf true) (handle_all (shelf true) calls empty)
handle_all-Steady_example =
    handle_all-Steady (shelf true) calls empty
      ((works, not_deploying), (works, (works, (not_deploying, (tt, tt))))) nothing

-- The stack as a restore has read it, before its job ended and left it active.
abbrev read_before : ComposeStack
read_before = record shop { status = codes "deploying" }

overwrites-revives_example :
    let w1 =
      handle_all
        (shelf true)
        (overwrites versions (codes "restore:rev1") first read_before ∷ finishes calm 0 ∷ [])
        (before true) in
    (stored : ComposeStack) × (lookup (codes "s1") w1.kept.stacks ≡ some stored)
    × (stored.status ≡ codes "deploying")
    × (w1.jobs ≡ [])
overwrites-revives_example =
    overwrites-revives (shelf true) versions (codes "restore:rev1") first read_before shop
      (before true) ((calm, 0) ∷ []) refl refl refl (unfold lookup in refl) refl

handle_all-Holds_example :
    (shelf-VolumeLaws true).Holds
      (codes "shop_data")
      ((handle_all (shelf true) calls (before true)).daemons (codes "tcp://h1:2375"))
handle_all-Holds_example =
    handle_all-Holds (shelf true) (shelf-VolumeLaws true) (codes "shop_data")
      (codes "tcp://h1:2375") calls (before true) (tt, (tt, (tt, (tt, (tt, tt)))))
      (shelf-Holds true (codes "shop_data") (record { volumes = goods ∷ []; images = [] }) refl)

remove-unsized_example :
    (remove (shelf false) calm (codes "s1") true false (before false)
      ≡ remove (shelf false) calm (codes "s1") true true (before false))
    × (remove_external (shelf false) calm (codes "h1") (codes "blog") true false (before false)
        ≡ remove_external (shelf false) calm (codes "h1") (codes "blog") true true (before false))
remove-unsized_example =
    remove-unsized (shelf false) calm (codes "s1") (codes "h1") (codes "blog") true (before false)
      (λ name s l e. shelf-unsized name s l e)

found : lookup (codes "s1") (before true).kept.stacks ≡ some shop
unfolding lookup
found = refl

reached :
    resolve_host_client calm shop.host_id (before true).bucket (before true).clients
    ≡ ready (codes "tcp://h1:2375") harbour
unfolding resolve_host_client lookup replace get_client
reached = refl

remove-refuses_example : remove (shelf true) calm (codes "s1") true false (before true) ≡ (
  failed (volumes_contain_data (codes "shop_data" ∷ [])),
  with_client (shelf true) calm (codes "h1") (before true),
)
remove-refuses_example =
    remove-refuses (shelf true) calm (codes "s1") (codes "tcp://h1:2375") shop harbour (goods ∷ [])
      (before true) refl found reached refl refl

removed : (remove (shelf true) calm (codes "s1") true true (before true)).0 ≡ ok (codes "s1")
unfolding remove lookup resolve_host_client replace get_client
removed = refl

remove-IsForgotten_example :
    IsForgotten
      (shelf true)
      (codes "s1")
      (remove (shelf true) calm (codes "s1") true true (before true)).1
remove-IsForgotten_example =
    remove-IsForgotten (shelf true) calm (codes "s1") true true (before true)
      (refl, refl, refl, refl) (refl, tt) (codes "s1") removed

begun : (deploy (shelf true) calm shop true (before true)).0 ≡ ok (codes "s1")
unfolding deploy save save_with_reason snapshot_if_changed stack_update lookup resolve_host_client
    replace get_client
begun = refl

deploy-Stores_example :
    let w = (deploy (shelf true) calm shop true (before true)).1 in
    Stores w.kept.stacks (codes "s1") (codes "services") []
    × ((j : Job) × (w.jobs ≡ j ∷ [])
        × (j.id ≡ codes "s1")
        × (j.content ≡ (effective calm shop).0)
        × (j.actions ≡ (effective calm shop).1))
deploy-Stores_example = deploy-Stores (shelf true) calm shop true (before true) (codes "s1") begun

-- Two hosts, and a stack that is stopped.
abbrev resting : ComposeStack
resting = record shop { status = codes "inactive" }

abbrev docked : World (shelf true)
docked = record (before true) {
  kept = record { stacks = (codes "s1", resting) ∷ []; versions = []; events = [] };
  bucket = (codes "h1", harbour) ∷ (codes "h2", record harbour { id = codes "h2" }) ∷ [];
}

only_key : (i : Text) (s : ComposeStack) → lookup i docked.kept.stacks ≡ some s → i ≡ codes "s1"
unfolding lookup
only_key i s e = ground (arith, e, ==_iff (codes "s1") i)

only_stack : (s : ComposeStack) → lookup (codes "s1") docked.kept.stacks ≡ some s → s.id ≢ []
unfolding lookup
only_stack s e = rw⁻¹ (some_inj.0 e) (==_apart (codes "s1") [] refl)

moves-Distinct_example :
    Distinct (import_stack (shelf true) calm other true false docked).1.kept.stacks
    × Distinct (migrate (shelf true) calm (codes "s1") (codes "h2") true docked).1.kept.stacks
moves-Distinct_example =
    moves-Distinct (shelf true) calm other (codes "s1") (codes "h2") true false docked only_stack
      (λ i j s t a b h n. only_key i s a ∙ sym (only_key j t b))

moves_there : (migrate (shelf true) calm (codes "s1") (codes "h2") true docked).0 ≡ ok (codes "s1")
unfolding migrate lookup resolve_host_client clients_after replace get_client stack_update
    get_by_name deploy save save_with_reason snapshot_if_changed
moves_there = refl

-- A rewritten image, and one that is there already.
abbrev image : Text → Text → RewriteAction
image original rewritten = record {
  service = codes "web";
  original = original;
  rewritten = rewritten;
  upstream = [];
  prefix = [];
  reason = [];
}

abbrev images : List RewriteAction
images =
    image (codes "nginx:1") (codes "cache/nginx:1")
    ∷ image (codes "cache/redis:7") (codes "cache/redis:7")
    ∷ []

abbrev bare_shelf : Shelf
bare_shelf = record { volumes = []; images = [] }

-- A daemon that takes every push and tells in its stream that the registry refused it.
abbrev barred : Docker
barred = record (shelf true) { push_image = λ r key s. (streamed true, s) }

-- Nothing has reached the cache.
reaches_nothing :
    (mirror_actions_to_cache barred (λ url. none) true images bare_shelf).2 ≡ bare_shelf
unfolding mirror_actions_to_cache
reaches_nothing = refl
