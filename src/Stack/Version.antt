-- ===== src/Stack/Version.antt =====
-- biz/compose_stack_version.go over the buckets of dao/bolt/compose_stack_version.go and
-- compose_stack.go: the snapshots of a stack, their pruning and the restore of one. `sort.Slice` is an
-- insertion sort here; versions of one stack have different revisions.
pub mod Newest
pub mod Undo
mod Tests
use swirl_evo.Common.{
  ℕ, ◌+◌, Bool, true, false, not, ◌==◌, ◌&&◌, ◌||◌, List, [], ◌∷◌, ◌++◌, Option, none, some, Text,
  codes, length, map, select, take, drop, ltb, leb, eqb, text_eq, if◌then◌else◌,
}
use swirl_evo.Common.Dict.{Dict, lookup, replace, delete, update_entry}
use swirl_evo.Stack.{ComposeStack}

pub record ComposeStackVersion : Type 0 where
  pub id : Text
  pub stack_id : Text
  pub revision : ℕ
  pub content : Text
  pub env_file : Text
  pub reason : Text
  pub created_at : ℕ
  pub created_by : Text

pub record Stacks : Type 0 where
  pub stacks : Dict Text ComposeStack
  pub versions : Dict Text ComposeStackVersion
  -- the audit log: the host's id and the name of each updated stack
  pub events : List (Text × Text)

-- What the calls of the store and of the environment answer.
pub record Answers : Type 0 where
  pub reads_version : Bool
  pub reads_stack : Bool
  pub lists : Bool
  pub wrote_version : Bool
  pub lists_again : Bool
  pub deletes : Text → Bool
  pub wrote_stack : Bool
  pub new_id : Text
  pub now : ℕ
  pub user : Text

pub data Result : Type 0 where
  restored unchanged : Result
  ids_required store_failed version_not_found stack_not_found : Result

abbrev pub default_stack_version_retention : ℕ
default_stack_version_retention = 20

abbrev pub values : Dict Text ComposeStackVersion → List ComposeStackVersion
values [] = []
values ((k, v) ∷ m) = v ∷ values m

abbrev pub is_of : Text → ComposeStackVersion → Bool
is_of stack_id v = v.stack_id == stack_id

abbrev pub insert : ComposeStackVersion → List ComposeStackVersion → List ComposeStackVersion
insert v [] = v ∷ []
insert v (w ∷ vs) =
    let later = insert v vs in if ltb v.revision w.revision then w ∷ later else v ∷ w ∷ vs

abbrev pub newest_first : List ComposeStackVersion → List ComposeStackVersion
newest_first [] = []
newest_first (v ∷ vs) = insert v (newest_first vs)

-- `ComposeStackVersionList`.
unfoldable pub version_list : Text → ℕ → Dict Text ComposeStackVersion → List ComposeStackVersion
version_list stack_id limit m =
    let items = newest_first (select (is_of stack_id) (values m)) in
    if ltb 0 limit && ltb limit (length items) then take limit items else items

-- The loop of `ComposeStackVersionPrune`, which stops at the first error.
unfoldable pub delete_each :
    (Text → Bool)
    → List ComposeStackVersion
    → Dict Text ComposeStackVersion
    → Dict Text ComposeStackVersion
unfolding delete
delete_each deletes [] m = m
delete_each deletes (v ∷ vs) m =
    let later = delete_each deletes vs (delete v.id m) in if deletes v.id then later else m

unfoldable pub version_prune :
    Bool → (Text → Bool) → Text → ℕ → Dict Text ComposeStackVersion → Dict Text ComposeStackVersion
unfolding version_list delete_each
version_prune lists deletes stack_id keep m =
    let items = version_list stack_id 0 m in
    if eqb keep 0
    then m
    else if not lists
    then m
    else if leb (length items) keep
    then m
    else delete_each deletes (drop keep items) m

-- The revision of the next snapshot.
abbrev pub next_revision : List ComposeStackVersion → ℕ
next_revision [] = 1
next_revision (v ∷ vs) = v.revision + 1

abbrev pub snapshot_of : Answers → Text → Text → ℕ → ComposeStack → ComposeStackVersion
snapshot_of k stack_id reason revision prev = record {
  id = k.new_id;
  stack_id = stack_id;
  revision = revision;
  content = prev.content;
  env_file = prev.env_file;
  reason = reason;
  created_at = k.now;
  created_by = k.user;
}

-- Whether two states of a stack have the same files.
abbrev pub same_files : Text → Text → Text → Text → Bool
same_files content env_file content' env_file' = content == content' && env_file == env_file'

-- `snapshotIfChanged` from the comparison on.
abbrev pub snapshot_prev :
    Answers
    → Text
    → Text
    → Text
    → Text
    → Option ComposeStack
    → Dict Text ComposeStackVersion
    → Dict Text ComposeStackVersion
snapshot_prev k next_id content env_file reason none m = m
snapshot_prev k next_id content env_file reason (some prev) m =
    let revision = next_revision (if k.lists then version_list next_id 1 m else []) in
    let v = snapshot_of k next_id reason revision prev in
    let pruned =
      version_prune k.lists_again k.deletes next_id default_stack_version_retention
        (replace k.new_id v m) in
    if same_files prev.content prev.env_file content env_file
    then m
    else if k.wrote_version
    then pruned
    else m

-- `snapshotIfChanged` of the next state's id, content and env file.
unfoldable pub snapshot_if_changed : Answers → Text → Text → Text → Text → Stacks → Stacks
unfolding version_list version_prune replace lookup
snapshot_if_changed k next_id content env_file reason s = record s {
  versions =
      snapshot_prev k next_id content env_file reason
        (if k.reads_stack then lookup next_id s.stacks else none) s.versions;
}

-- What `ComposeStackUpdate` writes.
abbrev pub merged : ComposeStack → ComposeStack → ComposeStack
merged old stack = record stack {
  created_at = old.created_at;
  created_by = old.created_by;
  status = if stack.status == [] then old.status else stack.status;
}

unfoldable pub stack_update :
    Bool → ComposeStack → Dict Text ComposeStack → Bool × Dict Text ComposeStack
unfolding update_entry
stack_update wrote stack m = update_entry wrote stack.id (λ old. merged old stack) m

-- `RestoreVersion` with a version and a stack that were found.
unfoldable pub overwrite :
    Answers → Text → ComposeStackVersion → ComposeStack → Stacks → Result × Stacks
unfolding snapshot_if_changed stack_update
overwrite k reason version current s =
    let s1 = snapshot_if_changed k current.id version.content version.env_file reason s in
    let next = record current {
      content = version.content;
      env_file = version.env_file;
      updated_at = k.now;
      updated_by = k.user;
    } in
    let (wrote, stacks) = stack_update k.wrote_stack next s1.stacks in
    if same_files current.content current.env_file version.content version.env_file
    then (unchanged, s)
    else if wrote
    then (
      restored,
      record s1 { stacks = stacks; events = (current.host_id, current.name) ∷ s1.events },
    )
    else (store_failed, record s1 { stacks = stacks })

-- `RestoreVersion` with what the reads of the version and of the stack find: `none` for a failed read.
abbrev pub restore_found :
    Answers
    → (ℕ → Text)
    → Text
    → Option ComposeStackVersion
    → Option (Option ComposeStack)
    → Stacks
    → Result × Stacks
restore_found k reason stack_id none read s = (version_not_found, s)
restore_found k reason stack_id (some version) none s =
    if not (version.stack_id == stack_id) then (version_not_found, s) else (store_failed, s)
restore_found k reason stack_id (some version) (some none) s =
    if not (version.stack_id == stack_id) then (version_not_found, s) else (stack_not_found, s)
restore_found k reason stack_id (some version) (some (some current)) s =
    let written = overwrite k (reason version.revision) version current s in
    if not (version.stack_id == stack_id) then (version_not_found, s) else written

-- `RestoreVersion`; `reason` prints a revision.
unfoldable pub restore_version : Answers → (ℕ → Text) → Text → Text → Stacks → Result × Stacks
unfolding overwrite lookup
restore_version k reason stack_id version_id s =
    let read = if k.reads_stack then some (lookup stack_id s.stacks) else none in
    if stack_id == [] || version_id == []
    then (ids_required, s)
    else if not k.reads_version
    then (store_failed, s)
    else restore_found k reason stack_id (lookup version_id s.versions) read s

-- What `ListVersions` shows of a version: all but its files.
abbrev pub without_files : ComposeStackVersion → ComposeStackVersion
without_files v = record v { content = []; env_file = [] }

-- `ListVersions` and `GetVersion`: `none` for an error.
unfoldable pub list_versions : Bool → Text → Stacks → Option (List ComposeStackVersion)
unfolding version_list
list_versions lists stack_id s =
    if stack_id == []
    then none
    else if lists
    then some (map without_files (version_list stack_id 0 s.versions))
    else none

unfoldable pub get_version : Bool → Text → Stacks → Option ComposeStackVersion
unfolding lookup
get_version reads version_id s =
    if version_id == [] then none else if reads then lookup version_id s.versions else none

-- `ComposeStackVersionDeleteByStack`.
unfoldable pub version_delete_by_stack :
    Bool → (Text → Bool) → Text → Dict Text ComposeStackVersion → Dict Text ComposeStackVersion
unfolding delete_each
version_delete_by_stack lists deletes stack_id m =
    if lists then delete_each deletes (select (is_of stack_id) (values m)) m else m
