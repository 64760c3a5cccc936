-- ===== src/Host/Guard/Calls.antt =====
-- Any sequence of calls of the handlers.
use swirl_evo.Common.{◌≡◌, ◌≢◌, true, List, [], ◌∷◌, All, Text, text_eq}
use swirl_evo.Host.{Host}
use swirl_evo.Host.Manage.{Hosts, Answers, create, update, delete_host, sync}
use swirl_evo.Host.Guard.{Kept}
use swirl_evo.Host.Guard.Handlers.{create-Kept, update-Kept, delete_host-Kept, sync-Kept}

pub data Call : Type 0 where
  creates updates : Answers → Host → Call
  deletes : Answers → Text → Text → Call
  syncs : Answers → Text → Call

unfoldable pub handle : Call → Hosts → Hosts
unfolding create update delete_host sync
handle (creates k host) s = (create k host s).1
handle (updates k host) s = (update k host s).1
handle (deletes k id name) s = (delete_host k id name s).1
handle (syncs k id) s = sync k id s

unfoldable pub handle_all : List Call → Hosts → Hosts
unfolding handle
handle_all [] s = s
handle_all (c ∷ calls) s = handle_all calls (handle c s)

-- The reads of the guard work, and a new id is new.
abbrev pub Guarded : Text → Call → Type 0
Guarded id (creates k host) = k.new_id ≢ id
Guarded id (updates k host) = k.reads ≡ true
Guarded id (deletes k other name) = k.reads ≡ true
Guarded id (syncs k other) = Unit

handle-Kept :
    (h : Host) (c : Call) (s : Hosts)
    → h.id ≢ []
    → Guarded h.id c
    → Kept h s.bucket
    → Kept h (handle c s).bucket
unfolding handle
handle-Kept h (creates k v) s named g kept = create-Kept h k v s g kept
handle-Kept h (updates k v) s named g kept = update-Kept h k v s g named kept
handle-Kept h (deletes k id name) s named g kept = delete_host-Kept h k id name s g kept
handle-Kept h (syncs k id) s named g kept = sync-Kept h k id s kept

-- However hosts are created, updated, deleted and synced, an immutable host stays in the store with its
-- endpoint, method, type, URL and secrets, provided that the reads of the guard work, that new ids are
-- new, and that the store holds each host under its id.
pub handle_all-Kept :
    (h : Host) (calls : List Call) (s : Hosts)
    → h.id ≢ []
    → All (Guarded h.id) calls
    → Kept h s.bucket
    → Kept h (handle_all calls s).bucket
unfolding handle_all
handle_all-Kept h [] s named g kept = kept
handle_all-Kept h (c ∷ calls) s named (g, gs) kept =
    handle_all-Kept h calls (handle c s) named gs (handle-Kept h c s named g kept)
