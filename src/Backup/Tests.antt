-- ===== src/Backup/Tests.antt =====
-- The theorems on backups at concrete inputs.
use mathlib.Core.Bool.{false≢true}
use swirl_evo.Common.{
  ap, ◌/◌, ◌%◌, ◌*◌, ◌+◌, ==_apart, ℕ, ◌≤◌, ◌≡◌, ◌≢◌, refl, arith, Bool, true, false, ◌&&◌, ◌==◌,
  List, [], ◌∷◌, ◌++◌, All, Option, none, some, Text, codes, text_eq, ==_iff, replicate,
}
use swirl_evo.Common.Dict.{replace}
use swirl_evo.Common.Int.{pos}
use swirl_evo.Backup.Envelope.{
  Cipher, ok, err, too_short, encrypt_at_rest, decrypt_at_rest, encrypt_portable, decrypt_any,
}
use swirl_evo.Backup.Envelope.RoundTrip.{decrypt_any-encrypt_portable}
use swirl_evo.Backup.MasterKey.{Keys, master_key, derived, fetch_from_provider}
use swirl_evo.Backup.MasterKey.Cached.{master_key-short, decrypt_at_rest-encrypt_at_rest}
use swirl_evo.Backup.Schedule.{Moment, BackupSchedule, Tick, backups, daily}
use swirl_evo.Backup.Schedule.Fires.{backups-day}
use swirl_evo.Backup.KeyStatus.{
  Backup, StatusCache, Probe, unknown, compatible, classify_by_fingerprint, decorate_status,
  status_of, verify, verify_all,
}
use swirl_evo.Backup.KeyStatus.Cache.{decorate_status-verify_all, verify-revives_unknown}
use swirl_evo.Backup.Storage.{
  Stores, Works, vault, read_archive, rewrite_archive, write_archive, delete_archive_by_path,
  archive_missing, schema_vault,
}
use swirl_evo.Backup.Storage.Dispatch.{read_archive-write_archive}

-- A cipher that checks nothing, and a derivation that keeps the passphrase.
abbrev plain : Cipher
plain = record { accepts = λ k. true; seal = λ k n p. p; unseal = λ k n p. some p }

abbrev same : Text → Text → Option Text
same pw salt = some pw

abbrev nonce : Text
nonce = replicate 12 7

abbrev salt : Text
salt = replicate 16 9

abbrev secret : Text
secret = codes "correct horse battery"

abbrev keys : Keys
keys = record { env = []; has_provider = true; cache = []; expires = 0 }

decrypt_at_rest-encrypt_at_rest_example :
    decrypt_at_rest plain
      (master_key same none 9 (master_key same (some secret) 5 keys).1).0
      (codes "SWBR" ++ nonce ++ codes "data")
    ≡ ok (codes "data")
unfolding encrypt_at_rest master_key fetch_from_provider
decrypt_at_rest-encrypt_at_rest_example =
    decrypt_at_rest-encrypt_at_rest same plain (λ k n p a. refl) (some secret) none 5 9 keys nonce
      (codes "data") (codes "SWBR" ++ nonce ++ codes "data") refl refl (omega arith) (omega arith)
      (λ n. absurd (n refl))

decrypt_any-encrypt_portable_example :
    decrypt_any plain same
      (err too_short)
      (codes "SWBP" ++ salt ++ nonce ++ codes "data")
      (codes "pw")
    ≡ ok (codes "data")
unfolding encrypt_portable
decrypt_any-encrypt_portable_example =
    decrypt_any-encrypt_portable plain same (λ k n p a. refl) (err too_short) salt nonce
      (codes "data") (codes "pw") (codes "SWBP" ++ salt ++ nonce ++ codes "data") refl refl refl

named : codes "pw" ≢ []
named e = false≢true ((==_iff (codes "pw") []).1 e)

master_key-short_example :
    ((master_key same (some (codes "pw")) 5 keys).0 ≡ err too_short)
    × ((master_key same none 6 (master_key same (some (codes "pw")) 5 keys).1).0
        ≡ derived same (codes "pw"))
master_key-short_example =
    master_key-short same none (codes "pw") 5 6 keys (omega arith) refl refl named (omega arith)
      (omega arith)

abbrev at_hour : ℕ → Moment
at_hour hour = record { year = 2026; year_day = 5; day = 5; weekday = 1; hour = hour }

abbrev nightly : BackupSchedule
nightly = record {
  id = daily;
  enabled = true;
  day_config = codes "1,2";
  time = codes "3:7";
  retention = pos 4;
  last_run_at = none;
}

abbrev tick_at : ℕ → Tick
tick_at hour = record { now = at_hour hour; key_configured = true; created = true; touched = true }

backups-day_example : backups (tick_at 3 ∷ tick_at 3 ∷ []) nightly ≤ 1
backups-day_example =
    backups-day (at_hour 0) (tick_at 3 ∷ tick_at 3 ∷ []) nightly ((refl, refl), ((refl, refl), tt))

abbrev padded : BackupSchedule
padded = record nightly { time = codes "03:07" }

abbrev fp : Text
fp = codes "aa"

abbrev one : Backup
one = record { id = codes "b1"; key_fingerprint = fp }

abbrev two : Backup
two = record { id = codes "b2"; key_fingerprint = fp }

abbrev records : List (Backup × Bool)
records = (one, false) ∷ (two, true) ∷ []

abbrev empty_cache : StatusCache
empty_cache = record { statuses = []; fingerprint = [] }

decorate_status-verify_all_example :
    All
      (λ (e : Backup × Bool).
        decorate_status fp (verify_all fp records empty_cache) e.0
        ≡ status_of fp (e.1 && fp == fp) e.0)
      records
decorate_status-verify_all_example =
    decorate_status-verify_all fp fp records empty_cache (refl, (refl, tt))

fp_named : fp ≢ []
fp_named e = false≢true ((==_iff fp []).1 e)

ids_differ : codes "b1" ≢ codes "b2"
ids_differ e = false≢true ((==_iff (codes "b1") (codes "b2")).1 e)

abbrev probe : Probe
probe = record { configured = true; current = fp; missing = false; decrypts = none }

verify-revives_unknown_example :
    (decorate_status fp (verify probe one (verify_all [] records empty_cache)).1 two ≡ unknown)
    × (classify_by_fingerprint two fp ≡ compatible)
verify-revives_unknown_example =
    verify-revives_unknown records empty_cache probe one two fp_named refl ids_differ refl

-- An encoding with two digits for each byte, the empty text for the empty text.
abbrev encode : Text → Text
encode [] = []
encode (c ∷ a) = c / 16 ∷ c % 16 ∷ encode a

abbrev decode : Text → Option Text
decode [] = some []
decode (h ∷ []) = none
decode (h ∷ l ∷ a) = elim (decode a) [ none ↦ none | some b ↦ some ((h * 16 + l) ∷ b) ]

decode-encode : (a : Text) → decode (encode a) ≡ some a
decode-encode [] = refl
decode-encode (c ∷ a) = rw (decode-encode a) (ap (λ n. some (n ∷ a)) (omega arith))

encode-nonempty : (a : Text) → a ≢ [] → encode a ≢ []
encode-nonempty [] n e = n refl
encode-nonempty (c ∷ a) n e = cc

abbrev stores : Stores
stores = record { files = []; rows = []; secrets = [] }

abbrev works : Works
works = record { has_vault = true; reads = true; writes = true }

abbrev logical : Text
logical = codes "backups/b1"

abbrev archive : Text
archive = codes "old"

abbrev stored : Stores
stored = record stores { secrets = (logical, encode archive) ∷ [] }

read_archive-write_archive_example :
    (read_archive encode decode works (schema_vault ++ logical) stored ≡ some archive)
    × ((after : Stores) × (rewrite_archive encode decode works
            (schema_vault ++ logical)
            (codes "new")
            stored
          ≡ some after)
        × (read_archive encode decode works (schema_vault ++ logical) after ≡ some (codes "new")))
    × ((after : Stores) × (delete_archive_by_path works (schema_vault ++ logical) stored
          ≡ some after)
        × (archive_missing works (schema_vault ++ logical) after ≡ true))
unfolding write_archive replace
read_archive-write_archive_example =
    read_archive-write_archive encode decode decode-encode encode-nonempty works vault (codes "b1")
      (codes "/b/b1") logical archive (codes "new") (schema_vault ++ logical) stores stored
      (==_apart archive [] refl) (==_apart (codes "new") [] refl) refl refl refl refl
