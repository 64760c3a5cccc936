-- ===== src/Backup/MasterKey.antt =====
-- Where the master key comes from: the environment, a cache of five minutes, or a provider.
pub mod Cached
use swirl_evo.Common.{
  ℕ, ◌+◌, ◌*◌, ◌^◌, Bool, true, false, ◌&&◌, ◌||◌, not, ◌==◌, List, [], ◌∷◌, Option, none, some,
  Text, codes, length, ltb, leb, eqb, text_eq, if◌then◌else◌,
}
use swirl_evo.Backup.Envelope.{
  Error, missing_key, provider_failed, too_short, no_cipher, Result, ok, err, or_err,
}

abbrev pub key_min_len : ℕ
key_min_len = 16

abbrev pub salt_at_rest : Text
salt_at_rest = codes "swirl-backup-at-rest"

abbrev pub five_minutes : ℕ
five_minutes = 5 * 60 * 10 ^ 9

-- The variables of the package: the environment's passphrase, whether there is a provider, and the
-- cache with its end, 0 for the zero time.
pub record Keys : Type 0 where
  pub env : Text
  pub has_provider : Bool
  pub cache : Text
  pub expires : ℕ

-- `SetBackupKeyProvider`.
abbrev pub set_backup_key_provider : Bool → Keys → Keys
set_backup_key_provider has_provider k = record k {
  has_provider = has_provider;
  cache = [];
  expires = 0;
}

-- `fetchFromProvider` at the time `now`, with what the provider answers, `none` for an error.
unfoldable pub fetch_from_provider : Option Text → ℕ → Keys → Result Text × Keys
fetch_from_provider answer now k =
    if not k.has_provider then (err missing_key, k) else elim answer [
      | none ↦ (err provider_failed, k)
      | some pw ↦ (ok pw, record k { cache = pw; expires = now + five_minutes })
    ]

module _ (derive_key : Text → Text → Option Text) where
  abbrev pub derived : Text → Result Text
  derived pw = or_err no_cipher (derive_key pw salt_at_rest)

  fetched : Result Text × Keys → Result Text × Keys
  fetched (err e, k) = (err e, k)
  fetched (ok pw, k) = if ltb (length pw) key_min_len then (err too_short, k) else (derived pw, k)

  unfoldable pub master_key : Option Text → ℕ → Keys → Result Text × Keys
  unfolding fetched fetch_from_provider
  master_key answer now k =
      if leb key_min_len (length k.env)
      then (derived k.env, k)
      else if not (k.cache == []) && (not (eqb k.expires 0) && ltb now k.expires)
      then (derived k.cache, k)
      else fetched (fetch_from_provider answer now k)

pub data Source : Type 0 where
  from_env from_cache from_vault nowhere : Source

looked_up : Result Text × Keys → (Bool × Source × Option Error) × Keys
looked_up (err e, k) = ((false, nowhere, some e), k)
looked_up (ok pw, k) =
    if leb key_min_len (length pw)
    then ((true, from_vault, none), k)
    else ((false, from_vault, some too_short), k)

-- `backupKeyStatus`.
unfoldable pub backup_key_status : Option Text → ℕ → Keys → (Bool × Source × Option Error) × Keys
unfolding looked_up fetch_from_provider
backup_key_status answer now k =
    if leb key_min_len (length k.env)
    then ((true, from_env, none), k)
    else if not (k.cache == []) && (eqb k.expires 0 || ltb now k.expires)
    then ((leb key_min_len (length k.cache), from_cache, none), k)
    else looked_up (fetch_from_provider answer now k)
