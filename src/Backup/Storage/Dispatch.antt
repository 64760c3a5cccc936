-- ===== src/Backup/Storage/Dispatch.antt =====
-- What was written is found where the path says.
use swirl_evo.Common.{◌≡◌, ◌≢◌, true, [], ◌++◌, Option, some, Text, arith, text_eq, ==_ne}
use swirl_evo.Common.Dict.{replace, delete, lookup-replace_self, lookup-delete_self}
use swirl_evo.Backup.Storage.{
  schema_file, schema_vault, schema_db, Schema, file, vault, db, split_storage_path, Stores, Works,
  read_archive_from_vault, read_archive, rewrite_archive, write_archive, delete_archive_by_path,
  archive_missing,
}

module _ (encode : Text → Text) (decode : Text → Option Text) where
  -- An archive that was written in any of the three modes is read back from the path that the write
  -- gave; a rewrite at that path replaces it; and after a delete of that path it is found missing. The
  -- calls of the place work, base64 decodes what it encoded and encodes only the empty text as the empty
  -- text, and neither archive is empty.
  pub read_archive-write_archive :
      (decodes : (a : Text) → decode (encode a) ≡ some a)
      (nonempty : (a : Text) → a ≢ [] → encode a ≢ []) (w : Works) (mode : Schema)
      (id file_path logical archive newer path : Text) (s s' : Stores)
      → archive ≢ []
      → newer ≢ []
      → w.reads ≡ true
      → w.writes ≡ true
      → w.has_vault ≡ true
      → write_archive encode decode w mode id file_path logical archive s ≡ some (path, s')
      → (read_archive encode decode w path s' ≡ some archive)
        × ((after : Stores) × (rewrite_archive encode decode w path newer s' ≡ some after)
            × (read_archive encode decode w path after ≡ some newer))
        × ((after : Stores) × (delete_archive_by_path w path s' ≡ some after)
            × (archive_missing w path after ≡ true))
  read_archive-write_archive decodes nonempty w db id file_path logical archive newer path s s'
        filled refilled r wr v e =
      let named : path ≡ schema_db ++ id = unfold write_archive in ground (arith, e, wr, v) in
      let stored : s' ≡ record s { rows = replace id (archive) s.rows } =
        unfold write_archive in ground (arith, e, wr, v) in
      let kept = lookup-replace_self id (archive) s.rows in
      let renewed = lookup-replace_self id (newer) (replace id (archive) s.rows) in
      let gone = lookup-delete_self id (replace id (archive) s.rows) in
      rw (named, stored)
        (unfold read_archive read_archive_from_vault rewrite_archive delete_archive_by_path
            archive_missing split_storage_path in
          (
            ground (arith, r, v, kept),
            (
              record s { rows = replace id (newer) (replace id (archive) s.rows) },
              ground (arith, wr, v),
              ground (arith, r, v, renewed),
            ),
            (
              record s { rows = delete id (replace id (archive) s.rows) },
              ground (arith, wr, v),
              ground (arith, r, v, gone),
            ),
          ))
  read_archive-write_archive decodes nonempty w vault id file_path logical archive newer path s s'
        filled refilled r wr v e =
      let named : path ≡ schema_vault ++ logical =
        unfold write_archive in ground (arith, e, wr, v) in
      let stored : s' ≡ record s { secrets = replace logical (encode archive) s.secrets } =
        unfold write_archive in ground (arith, e, wr, v) in
      let kept = lookup-replace_self logical (encode archive) s.secrets in
      let renewed =
        lookup-replace_self logical (encode newer) (replace logical (encode archive) s.secrets) in
      let gone = lookup-delete_self logical (replace logical (encode archive) s.secrets) in
      rw (named, stored)
        (unfold read_archive read_archive_from_vault rewrite_archive delete_archive_by_path
            archive_missing split_storage_path in
          (
            ground (
              arith,
              r,
              v,
              kept,
              decodes archive,
              decodes newer,
              ==_ne (encode archive) [] (nonempty archive filled),
              ==_ne (encode newer) [] (nonempty newer refilled),
            ),
            (
              record s {
                secrets =
                    replace logical (encode newer) (replace logical (encode archive) s.secrets);
              },
              ground (arith, wr, v),
              ground (
                arith,
                r,
                v,
                renewed,
                decodes archive,
                decodes newer,
                ==_ne (encode archive) [] (nonempty archive filled),
                ==_ne (encode newer) [] (nonempty newer refilled),
              ),
            ),
            (
              record s { secrets = delete logical (replace logical (encode archive) s.secrets) },
              ground (arith, wr, v),
              ground (arith, r, v, gone),
            ),
          ))
  read_archive-write_archive decodes nonempty w file id file_path logical archive newer path s s'
        filled refilled r wr v e =
      let named : path ≡ schema_file ++ file_path =
        unfold write_archive in ground (arith, e, wr, v) in
      let stored : s' ≡ record s { files = replace file_path (archive) s.files } =
        unfold write_archive in ground (arith, e, wr, v) in
      let kept = lookup-replace_self file_path (archive) s.files in
      let renewed = lookup-replace_self file_path (newer) (replace file_path (archive) s.files) in
      let gone = lookup-delete_self file_path (replace file_path (archive) s.files) in
      rw (named, stored)
        (unfold read_archive read_archive_from_vault rewrite_archive delete_archive_by_path
            archive_missing split_storage_path in
          (
            ground (arith, r, v, kept),
            (
              record s { files = replace file_path (newer) (replace file_path (archive) s.files) },
              ground (arith, wr, v),
              ground (arith, r, v, renewed),
            ),
            (
              record s { files = delete file_path (replace file_path (archive) s.files) },
              ground (arith, wr, v),
              ground (arith, r, v, gone),
            ),
          ))
