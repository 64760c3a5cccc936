-- ===== src/Host/Tests.antt =====
-- The theorems on hosts at concrete inputs.
use swirl_evo.Common.{
  ◌≡◌, ◌≢◌, refl, true, not, ==_apart, inl, List, [], ◌∷◌, none, some, codes, text_eq,
}
use swirl_evo.Host.{Host, ssh, socket}
use swirl_evo.Common.Dict.{lookup}
use swirl_evo.Host.Manage.{Hosts, Answers, success, stub, no_info, test}
use swirl_evo.Host.Guard.{Kept}
use swirl_evo.Host.Guard.Calls.{creates, updates, deletes, syncs, Call, handle_all, handle_all-Kept}
use swirl_evo.Host.Local.{
  Startup, local_host, local_host_id, has_auto, has_own, ensure_local, ensure_local-settles,
}
use swirl_evo.Host.Untested.{test-secured}

abbrev typed_in : Host
typed_in = stub (codes " /var/run/docker.sock ") socket

abbrev home : Host
home = local_host 3

abbrev hosts : Hosts
hosts = record { bucket = (local_host_id, home) ∷ []; clients = []; events = [] }

abbrev answers : Answers
answers = record {
  reads = true;
  info = some no_info;
  wrote = true;
  new_id = codes "h2";
  now = 7;
  user = codes "ada";
  synced = none;
  sync_error = codes "refused";
  status_wrote = true;
  client_made = true;
}

abbrev calls : List Call
calls =
    creates answers typed_in
    ∷ updates answers (record home { endpoint = codes "tcp://elsewhere:2375" })
    ∷ deletes answers local_host_id (codes "local")
    ∷ syncs answers local_host_id
    ∷ []

handle_all-Kept_example : Kept home (handle_all calls hosts).bucket
unfolding lookup
handle_all-Kept_example =
    handle_all-Kept home calls hosts (==_apart _ _ refl)
      (==_apart _ _ refl, (refl, (refl, (tt, tt))))
      ((refl, tt), (home, refl, (refl, refl, refl, refl, refl, refl, refl, refl, refl)))

abbrev startup : Startup
startup = record { is_standalone = true; lists = true; wrote = true; now = 9 }

abbrev none_yet : Hosts
none_yet = record {
  bucket = (codes "h1", record typed_in { id = codes "h1" }) ∷ [];
  clients = [];
  events = [];
}

apart : codes "h1" ≢ local_host_id
apart = ==_apart (codes "h1") local_host_id refl

ensure_local-settles_example :
    (has_auto (ensure_local startup none_yet).1.bucket
      ≡ not (has_own (ensure_local startup none_yet).1.bucket))
    × ((ensure_local startup (ensure_local startup none_yet).1).1
        ≡ (ensure_local startup none_yet).1)
ensure_local-settles_example =
    ensure_local-settles startup startup none_yet ((refl, λ e. absurd (apart e)), tt) refl refl refl

test-secured_example : test (some no_info) (codes "ssh://host") ssh ≢ success
test-secured_example = test-secured (some no_info) (codes "ssh://host") ssh (inl refl)
