-- ===== src/Host/Guard.antt =====
-- A host that is immutable keeps what it points at: the writes to the bucket of hosts.
pub mod Handlers
pub mod Calls
use mathlib.Core.Path.{subst}
use mathlib.Core.Bool.{false≢true}
use mathlib.Core.Option.{some_inj, none-ne-some}
use swirl_evo.Common.{
  ◌≡◌, ◌≢◌, refl, sym, ap, ◌∙◌, ℕ, Bool, true, false, not, ◌&&◌, ◌||◌, ◌==◌, ==_iff, ==_ne,
  ==_apart, ==_self, inl, inr, Bool-cases, if-cases, List, [], ◌∷◌, All, Option, none, some, Text,
  trim_space, codes, text_eq, arith, if◌then◌else◌,
}
use swirl_evo.Common.Dict.{
  update_entry, Dict, lookup, replace, delete, lookup-replace_self, lookup-replace_ne, lookup-All,
  replace-All, lookup-delete_ne, delete-All,
}
use swirl_evo.Host.{Host, HostError, validate_and_normalize_host, trimmed}
use swirl_evo.Host.Store.{
  HostBucket, get_client, Info, merged, with_status, or_old, host_create, host_update,
  host_update_status, host_delete, host_get,
}
use swirl_evo.Host.Manage.{
  Hosts, invalid, rejected, swarm_via_swirl, Answers, Result, Probe, classified, not_probed,
  probe_host, no_info, with_type, sync_host, synced_unless, created_host, store_new, stamped,
  store_changed, admitted, create, update_cosmetic, update_existing, update, is_immutable,
  delete_host, sync,
}

-- The fields that say what a host is and how it is reached.
abbrev pub SameTarget : Host → Host → Type 0
SameTarget h g =
    (g.id ≡ h.id)
    × (g.immutable ≡ true)
    × (g.endpoint ≡ h.endpoint)
    × (g.auth_method ≡ h.auth_method)
    × (g.host_type ≡ h.host_type)
    × (g.swirl_url ≡ h.swirl_url)
    × (g.tls_key ≡ h.tls_key)
    × (g.ssh_key ≡ h.ssh_key)
    × (g.swirl_token ≡ h.swirl_token)

abbrev pub Keyed : HostBucket → Type 0
Keyed m = All (λ (e : Text × Host). e.1.id ≡ e.0) m

module _ (h : Host) where
  -- The bucket holds each host under its id, and the host with its target.
  abbrev pub Kept : HostBucket → Type 0
  Kept m = Keyed m × ((g : Host) × (lookup h.id m ≡ some g) × SameTarget h g)

  -- A write under another key, and a write of the host with its target.
  pub replace-Kept_other :
      (k : Text) (v : Host) (m : HostBucket) → v.id ≡ k → k ≢ h.id → Kept m → Kept (replace k v m)
  replace-Kept_other k v m e n (keyed, (g, found, same)) = (
    replace-All (λ j (w : Host). w.id ≡ j) k v m e keyed,
    (g, lookup-replace_ne k h.id v m n ∙ found, same),
  )

  pub replace-Kept_same :
      (v : Host) (m : HostBucket) → SameTarget h v → Kept m → Kept (replace h.id v m)
  replace-Kept_same v m same (keyed, found) = (
    replace-All (λ j (w : Host). w.id ≡ j) h.id v m same.0 keyed,
    (v, lookup-replace_self h.id v m, same),
  )

  pub found-SameTarget :
      (old : Host) (m : HostBucket) → Kept m → lookup h.id m ≡ some old → SameTarget h old
  found-SameTarget old m (keyed, (g, found, same)) e =
      subst (SameTarget h) (some_inj.0 (sym found ∙ e)) same

  pub update_entry-Kept :
      (wrote : Bool) (key : Text) (new : Host → Host) (m : HostBucket)
      → ((old : Host) → old.id ≡ key → (new old).id ≡ key)
      → ((old : Host) → key ≡ h.id → SameTarget h old → SameTarget h (new old))
      → Kept m
      → Kept (update_entry wrote key new m).1
  unfolding update_entry
  update_entry-Kept wrote key new m a b kept = go (lookup key m) refl
    where
      P : Bool × HostBucket → Type 0
      P r = Kept r.1

      put : (old : Host) → lookup key m ≡ some old → Kept (replace key (new old) m)
      put old found =
          let id = lookup-All (λ j (w : Host). w.id ≡ j) key m kept.0 found in
          elim (Bool-cases (key == h.id)) [
            | inl y ↦
                let e = (==_iff key h.id).0 y in
                let same =
                  b old e
                    (found-SameTarget old m kept (subst (λ k. lookup k m ≡ some old) e found)) in
                subst (λ k. Kept (replace k (new old) m)) (sym e)
                  (replace-Kept_same (new old) m same kept)
            | inr n ↦ replace-Kept_other key (new old) m (a old id) (==_apart key h.id n) kept
          ]

      go :
          (o : Option Host)
          → lookup key m ≡ o
          → let r : Bool × HostBucket = elim o [
            | none ↦ (false, m)
            | some old ↦ if wrote then (true, replace key (new old) m) else (false, m)
          ] in
            Kept r.1
      go none e = kept
      go (some old) e =
          if-cases P wrote (true, replace key (new old) m) (false, m) (λ _. put old e) (λ _. kept)

  or_old-same : (a b c : Text) → a ≡ c → b ≡ c → or_old a b ≡ c
  or_old-same a b c e f = if-cases (λ r. r ≡ c) (a == []) b a (λ _. f) (λ _. e)

  pub host_update-Kept :
      (wrote : Bool) (v : Host) (m : HostBucket)
      → (v.id ≡ h.id → SameTarget h v)
      → Kept m
      → Kept (host_update wrote v m).1
  unfolding host_update
  host_update-Kept wrote v m same kept =
      update_entry-Kept wrote v.id (λ old. merged old v) m (λ old e. refl)
        (λ old e (_, i, _, _, _, _, a, b, c).
          let (x, _, p, q, r, u, a', b', c') = same e in
          (
            x,
            i,
            p,
            q,
            r,
            u,
            or_old-same v.tls_key old.tls_key h.tls_key a' a,
            or_old-same v.ssh_key old.ssh_key h.ssh_key b' b,
            or_old-same v.swirl_token old.swirl_token h.swirl_token c' c,
          ))
        kept

  pub host_create-Kept :
      (wrote : Bool) (v : Host) (m : HostBucket)
      → v.id ≢ h.id
      → Kept m
      → Kept (host_create wrote v m).1
  unfolding host_create
  host_create-Kept wrote v m n kept =
      if-cases (λ (r : Bool × HostBucket). Kept r.1) wrote (true, replace v.id v m) (false, m)
        (λ _. replace-Kept_other v.id v m refl n kept) (λ _. kept)
