-- ===== src/Host/Guard/Handlers.antt =====
-- The handlers of biz/host.go keep an immutable host.
use mathlib.Core.Path.{subst}
use mathlib.Core.Bool.{false≢true}
use mathlib.Core.Option.{none-ne-some}
use swirl_evo.Common.{
  ◌≡◌, ◌≢◌, refl, sym, ap, ◌∙◌, Bool, true, false, ◌==◌, ==_iff, inl, inr, Bool-cases, if-cases, [],
  Option, none, some, Text, trim_space, codes, text_eq,
}
use swirl_evo.Common.Dict.{update_entry, lookup, delete, lookup-All, lookup-delete_ne, delete-All}
use swirl_evo.Host.{Host, HostError, validate_and_normalize_host, trimmed}
use swirl_evo.Host.Store.{
  HostBucket, get_client, Info, with_status, host_create, host_update, host_update_status,
  host_delete, host_get,
}
use swirl_evo.Host.Manage.{
  Hosts, invalid, rejected, swarm_via_swirl, Answers, Result, Probe, classified, not_probed,
  probe_host, no_info, with_type, sync_host, synced_unless, created_host, store_new, stamped,
  store_changed, admitted, create, update_cosmetic, update_existing, update, is_immutable,
  delete_host, sync,
}
use swirl_evo.Host.Guard.{
  SameTarget, Kept, found-SameTarget, update_entry-Kept, host_update-Kept, host_create-Kept,
}

module _ (h : Host) where
  abbrev KeptHere : HostBucket → Type 0
  KeptHere m = Kept h m

  pub sync_host-Kept :
      (k : Answers) (id endpoint : Text) (s : Hosts)
      → KeptHere s.bucket
      → KeptHere (sync_host k id endpoint s).bucket
  unfolding sync_host host_update_status
  sync_host-Kept k id endpoint s kept = go k.synced
    where
      keeps :
          (status error : Text) (i : Info)
          → KeptHere (update_entry k.status_wrote id (with_status status error i) s.bucket).1
      keeps status error i =
          update_entry-Kept h k.status_wrote id (with_status status error i) s.bucket (λ old e. e)
            (λ old _ same. same) kept

      go :
          (o : Option Info)
          → let r : Hosts = elim o [
            | none ↦ record s {
              bucket =
                  (host_update_status k.status_wrote id
                    (codes "error")
                    k.sync_error
                    no_info
                    s.bucket).1;
            }
            | some info ↦ record s {
              bucket =
                  (host_update_status k.status_wrote id (codes "connected") [] info s.bucket).1;
              clients = get_client k.client_made id endpoint s.clients;
            }
          ] in
            KeptHere r.bucket
      go none = keeps (codes "error") k.sync_error no_info
      go (some info) = keeps (codes "connected") [] info

  pub synced_unless-Kept :
      (k : Answers) (v : Host) (s : Hosts)
      → KeptHere s.bucket
      → KeptHere (synced_unless k v s).bucket
  synced_unless-Kept k v s kept =
      if-cases (λ (r : Hosts). KeptHere r.bucket) (v.host_type == swarm_via_swirl) s
        (sync_host k v.id v.endpoint s) (λ _. kept) (λ _. sync_host-Kept k v.id v.endpoint s kept)

  abbrev After : Result × Hosts → Type 0
  After r = KeptHere r.1.bucket

  pub store_new-Kept :
      (k : Answers) (v : Host) (s : Hosts)
      → v.id ≢ h.id
      → KeptHere s.bucket
      → After (store_new k v s)
  unfolding store_new
  store_new-Kept k v s n kept =
      let stored = host_create k.wrote v s.bucket in
      let held = host_create-Kept h k.wrote v s.bucket n kept in
      if-cases After stored.0 _ _ (λ _. synced_unless-Kept k v _ held) (λ _. held)

  pub store_changed-Kept :
      (k : Answers) (v : Host) (s : Hosts)
      → v.id ≢ h.id
      → KeptHere s.bucket
      → After (store_changed k v s)
  unfolding store_changed
  store_changed-Kept k v s n kept =
      let stored = host_update k.wrote v s.bucket in
      let held = host_update-Kept h k.wrote v s.bucket (λ e. absurd (n e)) kept in
      if-cases After stored.0 _ _ (λ _. synced_unless-Kept k v _ held) (λ _. held)

  -- What is refused changes nothing, and what is admitted is the host with its id.
  pub admitted-Kept :
      (k : Answers) (v : Host) (next : Host → Result × Hosts) (s : Hosts)
      → ((u : Host) → u.id ≡ v.id → After (next u))
      → KeptHere s.bucket
      → After (admitted k v next s)
  admitted-Kept k v next s f kept =
      go (validate_and_normalize_host v).1 (probe_host k.info (trimmed v).endpoint)
    where
      typed : (t : Text) (u : Host) → (with_type t u).id ≡ u.id
      typed t u =
          if-cases (λ (r : Host). r.id ≡ u.id) (t == swarm_via_swirl) _ _ (λ _. refl) (λ _. refl)

      go :
          (e : Option HostError) (q : Probe)
          → let r : Result × Hosts = elim e [
            | some e ↦ (invalid e, s)
            | none ↦ elim q [
              | not_probed e ↦ (rejected e, s)
              | classified t ↦ next (with_type t (trimmed v))
            ]
          ] in
            After r
      go (some e) q = kept
      go none (not_probed e) = kept
      go none (classified t) = f (with_type t (trimmed v)) (typed t (trimmed v))

  pub create-Kept :
      (k : Answers) (v : Host) (s : Hosts)
      → k.new_id ≢ h.id
      → KeptHere s.bucket
      → After (create k v s)
  unfolding create
  create-Kept k v s n kept =
      admitted-Kept k v (λ u. store_new k (created_host k u) s) s
        (λ u _. store_new-Kept k (created_host k u) s n kept) kept

  pub update_cosmetic-Kept :
      (k : Answers) (existing v : Host) (s : Hosts)
      → (existing.id ≡ h.id → SameTarget h existing)
      → KeptHere s.bucket
      → After (update_cosmetic k existing v s)
  unfolding update_cosmetic
  update_cosmetic-Kept k existing v s same kept =
      let u : Host = record existing {
        name = trim_space v.name;
        color = v.color;
        updated_at = k.now;
        updated_by = k.user;
      } in
      let stored = host_update k.wrote u s.bucket in
      let held = host_update-Kept h k.wrote u s.bucket same kept in
      if-cases After (trim_space v.name == []) _ _ (λ _. kept)
        (λ _. if-cases After stored.0 _ _ (λ _. held) (λ _. held))

  pub full-Kept :
      (k : Answers) (v : Host) (s : Hosts)
      → v.id ≢ h.id
      → KeptHere s.bucket
      → After (admitted k v (λ u. store_changed k (stamped k u) s) s)
  full-Kept k v s n kept =
      admitted-Kept k v (λ u. store_changed k (stamped k u) s) s
        (λ u e. store_changed-Kept k (stamped k u) s (λ q. n (sym e ∙ q)) kept) kept

  pub update-Kept :
      (k : Answers) (v : Host) (s : Hosts)
      → k.reads ≡ true
      → h.id ≢ []
      → KeptHere s.bucket
      → After (update k v s)
  unfolding update host_get
  update-Kept k v s reads named kept = elim (Bool-cases (v.id == [])) [
    | inl y ↦ rw y (full-Kept k v s (λ e. named (sym e ∙ (==_iff v.id []).0 y)) kept)
    | inr n ↦ rw (n, reads) (found (lookup v.id s.bucket) refl)
  ]
    where
      held : (o : Option Host) → lookup v.id s.bucket ≡ o → v.id ≡ h.id → lookup h.id s.bucket ≡ o
      held o e q = subst (λ i. lookup i s.bucket ≡ o) q e

      found : (o : Option Host) → lookup v.id s.bucket ≡ o → After (update_existing k v o s)
      found none e =
          full-Kept k v s (λ q. none-ne-some kept.1.0 (sym (held none e q) ∙ kept.1.1)) kept
      found (some g) e =
          let id = lookup-All (λ j (w : Host). w.id ≡ j) v.id s.bucket kept.0 e in
          let same : v.id ≡ h.id → SameTarget h g =
            λ q. found-SameTarget h g s.bucket kept (held (some g) e q) in
          if-cases After g.immutable _ _
            (λ _. update_cosmetic-Kept k g v s (λ q. same (sym id ∙ q)) kept)
            (λ f. full-Kept k v s (λ q. false≢true (sym f ∙ (same q).1)) kept)

  pub delete_host-Kept :
      (k : Answers) (id name : Text) (s : Hosts)
      → k.reads ≡ true
      → KeptHere s.bucket
      → After (delete_host k id name s)
  unfolding delete_host host_get host_delete
  delete_host-Kept k id name s reads kept = rw reads (
      if-cases After (is_immutable (lookup id s.bucket)) _ _ (λ _. kept)
        (λ f. if-cases After (host_delete k.wrote id s.bucket).0 _ _ (λ _. gone f) (λ _. gone f)))
    where
      gone :
          is_immutable (lookup id s.bucket) ≡ false → KeptHere (host_delete k.wrote id s.bucket).1
      gone f =
          let apart : id ≢ h.id = λ q.
            let (g, found, same) = kept.1 in
            false≢true (
              sym f
              ∙ (ap (λ i. is_immutable (lookup i s.bucket)) q
                  ∙ (ap is_immutable found ∙ same.1))) in
          if-cases (λ (r : Bool × HostBucket). KeptHere r.1) k.wrote (true, delete id s.bucket)
            (false, s.bucket)
            (λ _. (
              delete-All (λ j (w : Host). w.id ≡ j) id s.bucket kept.0,
              (kept.1.0, lookup-delete_ne id h.id s.bucket apart ∙ kept.1.1, kept.1.2),
            ))
            (λ _. kept)

  pub sync-Kept :
      (k : Answers) (id : Text) (s : Hosts) → KeptHere s.bucket → KeptHere (sync k id s).bucket
  unfolding sync
  sync-Kept k id s kept = go (host_get k.reads id s.bucket)
    where
      go :
          (o : Option Host)
          → let r : Hosts = elim o [ none ↦ s | some h ↦ sync_host k h.id h.endpoint s ] in
            KeptHere r.bucket
      go none = kept
      go (some g) = sync_host-Kept k g.id g.endpoint s kept
