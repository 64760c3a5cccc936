-- ===== src/Backup/Storage.antt =====
-- Where archives lie (biz/backup.go): files, the database or Vault, told apart by a prefix of the path
-- that a record keeps. The functions of Vault and of the file system are the store's dictionaries; a
-- call that fails does so by a flag.
pub mod Dispatch
use swirl_evo.Common.{
  ℕ, Bool, true, false, ◌&&◌, ◌||◌, not, ◌==◌, List, [], ◌∷◌, ◌++◌, Option, none, some, Text, codes,
  strip_prefix, text_eq, if◌then◌else◌,
}
use swirl_evo.Common.Dict.{Dict, lookup, replace, delete}

abbrev pub schema_file : Text
schema_file = codes "file://"

abbrev pub schema_vault : Text
schema_vault = codes "vault:"

abbrev pub schema_db : Text
schema_db = codes "db:"

pub data Schema : Type 0 where
  file vault db : Schema

-- `splitStoragePath`.
unfoldable pub split_storage_path : Text → Schema × Text
split_storage_path path = elim (strip_prefix schema_db path) [
  | some loc ↦ (db, loc)
  | none ↦ elim (strip_prefix schema_vault path) [
    | some loc ↦ (vault, loc)
    | none ↦ elim (strip_prefix schema_file path) [ some loc ↦ (file, loc) | none ↦ (file, path) ]
  ]
]

-- The archives of each place, by location. A value in Vault is the archive in base64.
pub record Stores : Type 0 where
  pub files : Dict Text Text
  pub rows : Dict Text Text
  pub secrets : Dict Text Text

-- Which calls of a place work.
pub record Works : Type 0 where
  pub has_vault : Bool
  pub reads : Bool
  pub writes : Bool

abbrev pub or_missing : Bool → Option Text → Option Text
or_missing true found = found
or_missing false found = none

-- base64, both ways.
module _ (encode : Text → Text) (decode : Text → Option Text) where
  -- `readArchiveFromVault`.
  unfoldable pub read_archive_from_vault : Works → Text → Stores → Option Text
  unfolding lookup
  read_archive_from_vault w logical s =
      if not w.has_vault then none else elim (or_missing w.reads (lookup logical s.secrets)) [
        | none ↦ none
        | some raw ↦ if raw == [] then none else decode raw
      ]

  -- `readArchive`, of a record with this path.
  unfoldable pub read_archive : Works → Text → Stores → Option Text
  unfolding read_archive_from_vault lookup
  read_archive w path s =
      let (schema, loc) = split_storage_path path in
      elim schema [
        | db ↦ or_missing w.reads (lookup loc s.rows)
        | vault ↦ read_archive_from_vault w loc s
        | file ↦ or_missing w.reads (lookup loc s.files)
      ]

  -- `rewriteArchive`: `none` where it fails.
  unfoldable pub rewrite_archive : Works → Text → Text → Stores → Option Stores
  unfolding replace
  rewrite_archive w path archive s =
      let (schema, loc) = split_storage_path path in
      elim schema [
        | db ↦ if w.writes then some (record s { rows = replace loc archive s.rows }) else none
        | vault ↦
            if w.has_vault && w.writes
            then some (record s { secrets = replace loc (encode archive) s.secrets })
            else none
        | file ↦ if w.writes then some (record s { files = replace loc archive s.files }) else none
      ]

  -- `writeArchive` in the three modes of the settings, with the id of the backup, the location of its
  -- file and its logical path in Vault: the path to keep, and the store.
  unfoldable pub write_archive :
      Works → Schema → Text → Text → Text → Text → Stores → Option (Text × Stores)
  unfolding replace
  write_archive w db id file_path logical archive s =
      if w.writes
      then some (schema_db ++ id, record s { rows = replace id archive s.rows })
      else none
  write_archive w vault id file_path logical archive s =
      if w.has_vault && w.writes
      then some (
        schema_vault ++ logical,
        record s { secrets = replace logical (encode archive) s.secrets },
      )
      else none
  write_archive w file id file_path logical archive s =
      if w.writes
      then some (schema_file ++ file_path, record s { files = replace file_path archive s.files })
      else none

-- `deleteArchiveByPath`: what is missing is no error.
unfoldable pub delete_archive_by_path : Works → Text → Stores → Option Stores
unfolding delete
delete_archive_by_path w path s =
    let (schema, loc) = split_storage_path path in
    elim schema [
      | db ↦ if w.writes then some (record s { rows = delete loc s.rows }) else none
      | vault ↦
          if w.has_vault && w.writes
          then some (record s { secrets = delete loc s.secrets })
          else none
      | file ↦ if w.writes then some (record s { files = delete loc s.files }) else none
    ]

abbrev is_absent : Option Text → Bool
is_absent none = true
is_absent (some _) = false

abbrev is_empty : Option Text → Bool
is_empty none = true
is_empty (some a) = a == []

-- The first result of `archiveMissing`.
unfoldable pub archive_missing : Works → Text → Stores → Bool
unfolding lookup
archive_missing w path s =
    let (schema, loc) = split_storage_path path in
    elim schema [
      | db ↦ is_empty (or_missing w.reads (lookup loc s.rows))
      | vault ↦ w.has_vault && w.reads && is_absent (lookup loc s.secrets)
      | file ↦ w.reads && is_absent (lookup loc s.files)
    ]
