-- ===== src/Stack/Version/Undo.antt =====
-- A restore can be undone: the snapshot that it takes holds what it overwrites.
use mathlib.Core.Path.{subst}
use swirl_evo.Common.{
  ◌≡◌, ◌≢◌, refl, ap, ◌∙◌, ℕ, Bool, true, false, not, ◌==◌, ==_iff, ==_ne, ◌||◌, if-true, if-false,
  List, [], ◌∷◌, Option, none, some, Text, text_eq, arith, if◌then◌else◌,
}
use swirl_evo.Common.Dict.{Dict, lookup, replace, update_entry, lookup-replace_self}
use swirl_evo.Stack.{ComposeStack}
use swirl_evo.Stack.Version.{
  ComposeStackVersion, Stacks, Answers, Result, store_failed, ids_required, version_not_found,
  restored, unchanged, version_list, version_prune, next_revision, default_stack_version_retention,
  snapshot_of, same_files, snapshot_prev, snapshot_if_changed, merged, stack_update, overwrite,
  restore_found, restore_version,
}
use swirl_evo.Stack.Version.Newest.{Keyed, fresh_revision, version_prune-keeps}

-- What the calls of a restore come upon when they all succeed, with a new id that is new.
abbrev pub Works : Answers → Dict Text ComposeStackVersion → Type 0
Works k m =
    (k.reads_version ≡ true)
    × (k.reads_stack ≡ true)
    × (k.lists ≡ true)
    × (k.wrote_version ≡ true)
    × (k.wrote_stack ≡ true)
    × (k.new_id ≢ [])
    × (lookup k.new_id m ≡ none)

-- The files of a stack in a state.
abbrev pub HasFiles : Text → Text → Text → Stacks → Type 0
HasFiles stack_id content env_file s =
    (c : ComposeStack) × (lookup stack_id s.stacks ≡ some c)
    × (c.id ≡ stack_id)
    × (c.content ≡ content)
    × (c.env_file ≡ env_file)

-- The versions after a snapshot.
abbrev taken :
    Answers → Text → ComposeStack → Dict Text ComposeStackVersion → Dict Text ComposeStackVersion
taken k reason prev m =
    version_prune k.lists_again k.deletes prev.id default_stack_version_retention
      (replace k.new_id (snapshot_of k prev.id reason (fresh_revision prev.id m) prev) m)

snapshot_prev-taken :
    (k : Answers) (content env_file reason : Text) (prev : ComposeStack)
    (m : Dict Text ComposeStackVersion)
    → Works k m
    → same_files prev.content prev.env_file content env_file ≡ false
    → snapshot_prev k prev.id content env_file reason (some prev) m ≡ taken k reason prev m
snapshot_prev-taken k content env_file reason prev m (a, b, c, d, e, f, g) differ =
    let pruned : List ComposeStackVersion → Dict Text ComposeStackVersion = λ l.
      version_prune k.lists_again k.deletes prev.id default_stack_version_retention
        (replace k.new_id (snapshot_of k prev.id reason (next_revision l) prev) m) in
    let l = if k.lists then version_list prev.id 1 m else [] in
    if-false (same_files prev.content prev.env_file content env_file) m
      (if k.wrote_version then pruned l else m) differ
    ∙ (if-true k.wrote_version (pruned l) m d
        ∙ ap pruned (if-true k.lists (version_list prev.id 1 m) [] c))

snapshot_if_changed-taken :
    (k : Answers) (content env_file reason : Text) (prev : ComposeStack) (s : Stacks)
    → Works k s.versions
    → lookup prev.id s.stacks ≡ some prev
    → same_files prev.content prev.env_file content env_file ≡ false
    → snapshot_if_changed k prev.id content env_file reason s
      ≡ record s { versions = taken k reason prev s.versions }
unfolding snapshot_if_changed
snapshot_if_changed-taken k content env_file reason prev s w found differ =
    let put : Dict Text ComposeStackVersion → Stacks = λ m. record s { versions = m } in
    ap (λ o. put (snapshot_prev k prev.id content env_file reason o s.versions))
      (if-true k.reads_stack (lookup prev.id s.stacks) none w.1 ∙ found)
    ∙ ap put (snapshot_prev-taken k content env_file reason prev s.versions w differ)

update_entry-done :
    (new : ComposeStack → ComposeStack) (key : Text) (old : ComposeStack)
    (m : Dict Text ComposeStack)
    → lookup key m ≡ some old
    → update_entry true key new m ≡ (true, replace key (new old) m)
unfolding update_entry
update_entry-done new key old m e = rw (e, update_entry) refl

-- What a restore of other files leaves.
abbrev restored_stack : Answers → ComposeStackVersion → ComposeStack → ComposeStack
restored_stack k version current = merged current (record current {
  content = version.content;
  env_file = version.env_file;
  updated_at = k.now;
  updated_by = k.user;
})

abbrev after : Answers → Text → ComposeStackVersion → ComposeStack → Stacks → Stacks
after k reason version current s = record {
  stacks = replace current.id (restored_stack k version current) s.stacks;
  versions = taken k reason current s.versions;
  events = (current.host_id, current.name) ∷ s.events;
}

overwrite-after :
    (k : Answers) (reason : Text) (version : ComposeStackVersion) (current : ComposeStack)
    (s : Stacks)
    → Works k s.versions
    → lookup current.id s.stacks ≡ some current
    → same_files current.content current.env_file version.content version.env_file ≡ false
    → overwrite k reason version current s ≡ (restored, after k reason version current s)
unfolding overwrite stack_update
overwrite-after k reason version current s w found differ =
    let next : ComposeStack = record current {
      content = version.content;
      env_file = version.env_file;
      updated_at = k.now;
      updated_by = k.user;
    } in
    let pick : Stacks → Bool × Dict Text ComposeStack → Result × Stacks = λ t u.
      if u.0
      then (
        restored,
        record t { stacks = u.1; events = (current.host_id, current.name) ∷ t.events },
      )
      else (store_failed, record t { stacks = u.1 }) in
    let stored : Stacks → Result × Stacks =
      λ t. pick t (stack_update k.wrote_stack next t.stacks) in
    let t1 = snapshot_if_changed k current.id version.content version.env_file reason s in
    let t2 : Stacks = record s { versions = taken k reason current s.versions } in
    if-false (same_files current.content current.env_file version.content version.env_file)
      (unchanged, s) (stored t1) differ
    ∙ (ap stored (
          snapshot_if_changed-taken k version.content version.env_file reason current s w found
            differ)
        ∙ ap (pick t2) (
            ap (λ b. update_entry b current.id (λ old. merged old next) s.stacks) w.4
            ∙ update_entry-done (λ old. merged old next) current.id current s.stacks found))

-- A version of the stack and the stack, with other files than the version's.
abbrev pub Restorable : Text → Text → ComposeStackVersion → ComposeStack → Stacks → Type 0
Restorable stack_id version_id version current s =
    (version_id ≢ [])
    × (lookup version_id s.versions ≡ some version)
    × (version.stack_id ≡ stack_id)
    × (lookup stack_id s.stacks ≡ some current)
    × (current.id ≡ stack_id)
    × (same_files current.content current.env_file version.content version.env_file ≡ false)

restore_version-after :
    (k : Answers) (reason : ℕ → Text) (version_id : Text) (version : ComposeStackVersion)
    (current : ComposeStack) (s : Stacks)
    → current.id ≢ []
    → Works k s.versions
    → Restorable current.id version_id version current s
    → restore_version k reason current.id version_id s
      ≡ (restored, after k (reason version.revision) version current s)
unfolding restore_version
restore_version-after k reason version_id version current s named w (n, v, owner, c, _, differ) =
    let written = overwrite k (reason version.revision) version current s in
    let read = if k.reads_stack then some (lookup current.id s.stacks) else none in
    let found : Option ComposeStackVersion → Option (Option ComposeStack) → Result × Stacks =
      λ x y. restore_found k reason current.id x y s in
    let front = found (lookup version_id s.versions) read in
    if-false (current.id == [] || version_id == []) (ids_required, s)
      (if not k.reads_version then (store_failed, s) else front)
      (ground (arith, ==_ne current.id [] named, ==_ne version_id [] n))
    ∙ (if-false (not k.reads_version) (store_failed, s) front (ground (arith, w.0))
        ∙ (ap (λ x. found x read) v
            ∙ (ap (λ y. found (some version) y)
                  (if-true k.reads_stack (some (lookup current.id s.stacks)) none w.1 ∙ ap some c)
                ∙ (if-false (not (version.stack_id == current.id)) (version_not_found, s) written
                      (ground (arith, (==_iff version.stack_id current.id).1 owner))
                    ∙ overwrite-after k (reason version.revision) version current s w c differ))))

same_files-sym : (a b c d : Text) → same_files a b c d ≡ false → same_files c d a b ≡ false
same_files-sym a b c d e = ground (arith, e, ==_iff a c, ==_iff b d, ==_iff c a, ==_iff d b)

-- A restore is undone by restoring the snapshot that it took: where the calls of both work, the first
-- leaves the files of the version and the second, of the new id, those from before.
pub restore_version_undo :
    (k k' : Answers) (reason : ℕ → Text) (version_id : Text) (version : ComposeStackVersion)
    (current : ComposeStack) (s : Stacks)
    → current.id ≢ []
    → Keyed s.versions
    → Restorable current.id version_id version current s
    → Works k s.versions
    → Works k' (restore_version k reason current.id version_id s).1.versions
    → let first = restore_version k reason current.id version_id s in
      let second = restore_version k' reason current.id k.new_id first.1 in
      (first.0 ≡ restored)
      × HasFiles current.id version.content version.env_file first.1
      × (second.0 ≡ restored)
      × HasFiles current.id current.content current.env_file second.1
restore_version_undo k k' reason version_id version current s named keyed r w w' =
    let why = reason version.revision in
    let s1 = after k why version current s in
    let next = restored_stack k version current in
    let prev = snapshot_of k current.id why (fresh_revision current.id s.versions) current in
    let e1 = restore_version-after k reason version_id version current s named w r in
    let held =
      version_prune-keeps k.lists_again k.deletes current.id 19 prev s.versions keyed w.6 refl
        refl in
    let put = lookup-replace_self current.id next s.stacks in
    let differ =
      same_files-sym current.content current.env_file version.content version.env_file r.5 in
    let r' : Restorable current.id k.new_id prev next s1 = (w.5, held, refl, put, refl, differ) in
    let w1 : Works k' s1.versions = subst (λ (x : Result × Stacks). Works k' x.1.versions) e1 w' in
    let e2 = restore_version-after k' reason k.new_id prev next s1 named w1 r' in
    let last = restored_stack k' prev next in
    rw (e1, e2)
      (
        refl,
        (next, put, refl, refl, refl),
        refl,
        (last, lookup-replace_self current.id last s1.stacks, refl, refl, refl),
      )
