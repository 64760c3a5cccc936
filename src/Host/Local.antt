-- ===== src/Host/Local.antt =====
-- `EnsureLocal` of biz/host.go: the host of the local socket, made or removed at the start. The probe
-- that it starts in the background is a later `sync_host`.
use swirl_evo.Common.{
  ◌≡◌, refl, ap, ◌∙◌, ℕ, Bool, true, false, not, ◌&&◌, ◌||◌, ◌==◌, ==_iff, inl, inr, Bool-cases,
  if-cases, [], ◌∷◌, any, All, Text, codes, trim_space, trim_suffix, text_eq, arith, if◌then◌else◌,
}
use swirl_evo.Common.Dict.{replace, delete}
use swirl_evo.Host.{Host, socket}
use swirl_evo.Host.Store.{HostBucket, host_create, host_delete}
use swirl_evo.Host.Manage.{Hosts, standalone, stub}

abbrev pub local_host_id : Text
local_host_id = codes "local"

abbrev pub is_local_socket_endpoint : Text → Bool
is_local_socket_endpoint ep =
    let s = trim_suffix (codes "/") (trim_space ep) in
    if trim_space ep == []
    then false
    else s == codes "unix:///var/run/docker.sock" || s == codes "/var/run/docker.sock"

abbrev pub is_auto : Host → Bool
is_auto h = h.id == local_host_id && h.immutable

abbrev pub is_own : Host → Bool
is_own h = not h.immutable && is_local_socket_endpoint h.endpoint

-- Whether the scan of all hosts finds the host made by the system, and one of an operator.
abbrev pub has_auto : HostBucket → Bool
has_auto m = any (λ e. is_auto e.1) m

abbrev pub has_own : HostBucket → Bool
has_own m = any (λ e. is_own e.1) m

abbrev pub local_host : ℕ → Host
local_host now = record (stub (codes "unix:///var/run/docker.sock") socket) {
  id = local_host_id;
  name = codes "local";
  status = codes "disconnected";
  host_type = standalone;
  immutable = true;
  created_at = now;
  updated_at = now;
}

pub record Startup : Type 0 where
  pub is_standalone : Bool
  pub lists : Bool
  pub wrote : Bool
  pub now : ℕ

unfoldable pub ensure_local : Startup → Hosts → Bool × Hosts
unfolding host_create host_delete delete
ensure_local k s =
    let (gone, kept) = host_delete k.wrote local_host_id s.bucket in
    let (made, more) = host_create k.wrote (local_host k.now) s.bucket in
    if not k.is_standalone
    then (true, s)
    else if not k.lists
    then (false, s)
    else if has_auto s.bucket && has_own s.bucket
    then (gone, record s { bucket = kept; clients = delete local_host_id s.clients })
    else if has_auto s.bucket
    then (true, s)
    else if has_own s.bucket
    then (true, s)
    else (made, record s { bucket = more })

-- Each host stands under its id, and the id of the system's host is not an operator's.
abbrev pub Reserved : HostBucket → Type 0
Reserved m =
    All (λ (e : Text × Host). (e.1.id ≡ e.0) × (e.0 ≡ local_host_id → e.1.immutable ≡ true)) m

own-immutable : (h : Host) → h.immutable ≡ true → is_own h ≡ false
own-immutable h e = rw e refl

auto-apart : (h : Host) → h.id == local_host_id ≡ false → is_auto h ≡ false
auto-apart h e = rw e refl

has_auto-delete : (m : HostBucket) → Reserved m → has_auto (delete local_host_id m) ≡ false
unfolding delete
has_auto-delete [] r = refl
has_auto-delete ((k, h) ∷ m) ((e, _), r) = elim (Bool-cases (k == local_host_id)) [
  | inl y ↦ rw y (has_auto-delete m r)
  | inr n ↦ rw (n, auto-apart h (ap (λ i. i == local_host_id) e ∙ n)) (has_auto-delete m r)
]

has_own-delete : (m : HostBucket) → Reserved m → has_own (delete local_host_id m) ≡ has_own m
unfolding delete
has_own-delete [] r = refl
has_own-delete ((k, h) ∷ m) ((_, i), r) = elim (Bool-cases (k == local_host_id)) [
  | inl y ↦ rw (y, own-immutable h (i ((==_iff k local_host_id).0 y))) (has_own-delete m r)
  | inr n ↦ rw n (ap (λ b. is_own h || b) (has_own-delete m r))
]

has_auto-replace :
    (now : ℕ) (m : HostBucket) → has_auto (replace local_host_id (local_host now) m) ≡ true
unfolding replace
has_auto-replace now [] = refl
has_auto-replace now ((k, h) ∷ m) = elim (Bool-cases (k == local_host_id)) [
  | inl y ↦ rw y refl
  | inr n ↦ rw (n, has_auto-replace now m) ground (arith)
]

has_own-replace :
    (now : ℕ) (m : HostBucket)
    → Reserved m
    → has_own (replace local_host_id (local_host now) m) ≡ has_own m
unfolding replace
has_own-replace now [] r = refl
has_own-replace now ((k, h) ∷ m) ((_, i), r) = elim (Bool-cases (k == local_host_id)) [
  | inl y ↦ rw (y, own-immutable h (i ((==_iff k local_host_id).0 y))) refl
  | inr n ↦ rw n (ap (λ b. is_own h || b) (has_own-replace now m r))
]

abbrev IsCovered : HostBucket → Type 0
IsCovered m = has_auto m ≡ not (has_own m)

ensure_local-covered : (k : Startup) (s : Hosts) → IsCovered s.bucket → (ensure_local k s).1 ≡ s
unfolding ensure_local
ensure_local-covered k s e =
    if-cases P (not k.is_standalone) _ _ (λ _. refl)
      (λ _.
        if-cases P (not k.lists) _ _ (λ _. refl)
          (λ _.
            if-cases P (has_auto s.bucket && has_own s.bucket) _ _
              (λ a. absurd (ground (arith, a, e)))
              (λ _.
                if-cases P (has_auto s.bucket) _ _ (λ _. refl)
                  (λ a.
                    if-cases P (has_own s.bucket) _ _ (λ _. refl)
                      (λ b. absurd (ground (arith, a, b, e)))))))
  where
    P : Bool × Hosts → Type 0
    P r = r.1 ≡ s

ensure_local-covers :
    (k : Startup) (s : Hosts)
    → Reserved s.bucket
    → k.is_standalone ≡ true
    → k.lists ≡ true
    → k.wrote ≡ true
    → IsCovered (ensure_local k s).1.bucket
unfolding ensure_local host_create host_delete
ensure_local-covers k s r a b c =
    rw (a, b, c)
      (if-cases P (has_auto s.bucket && has_own s.bucket) _ _
        (λ e. rw (has_auto-delete s.bucket r, has_own-delete s.bucket r) ground (arith, e))
        (λ e.
          if-cases P (has_auto s.bucket) _ _ (λ f. ground (arith, e, f))
            (λ f.
              if-cases P (has_own s.bucket) _ _ (λ g. ground (arith, f, g))
                (λ g.
                  rw (has_auto-replace k.now s.bucket, has_own-replace k.now s.bucket r) ground
                    (arith, g)))))
  where
    P : Bool × Hosts → Type 0
    P r = IsCovered r.1.bucket

-- A start in the standalone mode whose list and write of hosts succeed leaves the local socket to exactly
-- one kind of host, the system's or an operator's, and a later start, whatever it comes upon, changes
-- nothing: where each stored host stands under its id, and that of the system's host is no operator's.
pub ensure_local-settles :
    (k again : Startup) (s : Hosts)
    → Reserved s.bucket
    → k.is_standalone ≡ true
    → k.lists ≡ true
    → k.wrote ≡ true
    → (has_auto (ensure_local k s).1.bucket ≡ not (has_own (ensure_local k s).1.bucket))
      × ((ensure_local again (ensure_local k s).1).1 ≡ (ensure_local k s).1)
ensure_local-settles k again s r a b c =
    let covered = ensure_local-covers k s r a b c in
    (covered, ensure_local-covered again (ensure_local k s).1 covered)
