-- ===== src/Backup/Retention.antt =====
-- `ApplyRetention` of biz/backup.go over the bucket of backups, a map from ids. `sort.Slice` is an
-- insertion sort here; which of two backups of one time comes first is of no matter to the theorems.
pub mod Sorted
pub mod Newest
mod Tests
use swirl_evo.Common.{
  ℕ, ◌+◌, Bool, true, false, ◌==◌, List, [], ◌∷◌, Text, length, select, drop, ltb, leb, eqb,
  text_eq, if◌then◌else◌,
}
use swirl_evo.Common.Dict.{Dict, delete}

-- What these operations read of `dao.Backup`.
pub record Backup : Type 0 where
  pub id : Text
  pub source : Text
  pub created_at : ℕ

abbrev pub values : Dict Text Backup → List Backup
values [] = []
values ((k, b) ∷ m) = b ∷ values m

abbrev pub is_from : Text → Backup → Bool
is_from source b = b.source == source

abbrev pub insert : Backup → List Backup → List Backup
insert b [] = b ∷ []
insert b (c ∷ bs) =
    let later = insert b bs in if ltb b.created_at c.created_at then c ∷ later else b ∷ c ∷ bs

abbrev pub newest_first : List Backup → List Backup
newest_first [] = []
newest_first (b ∷ bs) = insert b (newest_first bs)

-- `BackupGetBySource` of the Bolt store, which sorts as well.
abbrev pub backup_get_by_source : Text → Dict Text Backup → List Backup
backup_get_by_source source m = newest_first (select (is_from source) (values m))

-- The loop of deletions, where the deletion of an id works or not: the number of deleted backups.
unfoldable pub delete_each : (Text → Bool) → List Backup → Dict Text Backup → ℕ × Dict Text Backup
unfolding delete
delete_each works [] m = (0, m)
delete_each works (b ∷ bs) m =
    let gone = delete_each works bs (delete b.id m) in
    let kept = delete_each works bs m in if works b.id then (gone.0 + 1, gone.1) else kept

unfoldable pub apply_retention : (Text → Bool) → Text → ℕ → Dict Text Backup → ℕ × Dict Text Backup
unfolding delete_each
apply_retention works source max m =
    if eqb max 0
    then (0, m)
    else if leb (length (backup_get_by_source source m)) max
    then (0, m)
    else delete_each works (drop max (newest_first (backup_get_by_source source m))) m
