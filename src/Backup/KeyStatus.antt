-- ===== src/Backup/KeyStatus.antt =====
-- The status of each backup against the master key of the moment, and its cache (biz/backup.go). The
-- fingerprint of the key is "" where there is no key.
pub mod Cache
use swirl_evo.Common.{
  ℕ, Bool, true, false, ◌&&◌, ◌||◌, not, ◌==◌, List, [], ◌∷◌, Option, none, some, Text, text_eq,
  if◌then◌else◌,
}
use swirl_evo.Common.Dict.{Dict, lookup, replace, delete}

pub data KeyStatus : Type 0 where
  unknown unverified compatible incompatible missing_file : KeyStatus

-- What these operations read of `dao.Backup`.
pub record Backup : Type 0 where
  pub id : Text
  pub key_fingerprint : Text

pub record StatusCache : Type 0 where
  pub statuses : Dict Text KeyStatus
  pub fingerprint : Text

abbrev pub classify_by_fingerprint : Backup → Text → KeyStatus
classify_by_fingerprint r current =
    if r.key_fingerprint == []
    then unverified
    else if r.key_fingerprint == current
    then compatible
    else incompatible

-- `decorateStatus`, for one record.
unfoldable pub decorate_status : Text → StatusCache → Backup → KeyStatus
unfolding lookup
decorate_status current c r =
    if not (c.fingerprint == current) || current == []
    then if current == [] then unknown else classify_by_fingerprint r current
    else elim (lookup r.id c.statuses) [ none ↦ classify_by_fingerprint r current | some s ↦ s ]

-- `cacheStatus`.
unfoldable pub cache_status : Text → Text → KeyStatus → StatusCache → StatusCache
unfolding replace
cache_status current id status c =
    if c.fingerprint == []
    then record { statuses = replace id status c.statuses; fingerprint = current }
    else record c { statuses = replace id status c.statuses }

-- The status that `VerifyAll` gives a record, with whether its archive is found missing.
abbrev pub status_of : Text → Bool → Backup → KeyStatus
status_of current missing r =
    if current == []
    then unknown
    else if missing
    then missing_file
    else classify_by_fingerprint r current

statuses_of : Text → List (Backup × Bool) → Dict Text KeyStatus → Dict Text KeyStatus
unfolding replace
statuses_of current [] d = d
statuses_of current ((r, missing) ∷ records) d =
    statuses_of current records (replace r.id (status_of current missing r) d)

-- What `VerifyAll` leaves, for the records of the store, each with whether its archive is missing.
unfoldable pub verify_all : Text → List (Backup × Bool) → StatusCache → StatusCache
unfolding statuses_of
verify_all current records c = record {
  statuses = statuses_of current records [];
  fingerprint = current;
}

-- What `Verify` comes upon: whether a key is configured, its fingerprint, whether the archive is found
-- missing, and the trial decryption of an old record, `none` where the archive cannot be read.
pub record Probe : Type 0 where
  pub configured : Bool
  pub current : Text
  pub missing : Bool
  pub decrypts : Option Bool

abbrev verdict : Probe → Backup → KeyStatus × Backup
verdict p r =
    if not p.configured
    then (unknown, r)
    else if p.missing
    then (missing_file, r)
    else if not (r.key_fingerprint == [])
    then ((if r.key_fingerprint == p.current then compatible else incompatible), r)
    else elim p.decrypts [
      | none ↦ (missing_file, r)
      | some false ↦ (incompatible, r)
      | some true ↦ (compatible, record r { key_fingerprint = p.current })
    ]

-- `Verify` of a record of the store: the status, the record and the cache afterwards.
unfoldable pub verify : Probe → Backup → StatusCache → (KeyStatus × Backup) × StatusCache
unfolding cache_status
verify p r c = (verdict p r, cache_status p.current r.id (verdict p r).0 c)

-- The end of `Create`, and the cache after `Delete`.
unfoldable pub created : Text → Text → StatusCache → StatusCache
unfolding replace
created current id c =
    if c.fingerprint == current then record c { statuses = replace id compatible c.statuses } else c

unfoldable pub deleted : Text → StatusCache → StatusCache
unfolding delete
deleted id c = record c { statuses = delete id c.statuses }
