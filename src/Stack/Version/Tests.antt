-- ===== src/Stack/Version/Tests.antt =====
-- The undo of a restore at a stack with one version.
use swirl_evo.Common.{◌≡◌, refl, ℕ, true, false, ==_apart, [], ◌∷◌, none, Text, codes, text_eq}
use swirl_evo.Common.Dict.{lookup, replace, delete, update_entry}
use swirl_evo.Stack.{ComposeStack}
use swirl_evo.Stack.Version.{
  ComposeStackVersion, Stacks, Answers, restored, restore_version, overwrite, snapshot_if_changed,
  stack_update, version_list, version_prune, delete_each,
}
use swirl_evo.Stack.Version.Undo.{HasFiles, restore_version_undo}

abbrev answers : Text → Answers
answers new_id = record {
  reads_version = true;
  reads_stack = true;
  lists = true;
  wrote_version = true;
  lists_again = true;
  deletes = λ id. true;
  wrote_stack = true;
  new_id = new_id;
  now = 4;
  user = codes "ada";
}

abbrev shop : ComposeStack
shop = record {
  id = codes "s1";
  host_id = codes "h1";
  name = codes "shop";
  content = codes "new";
  env_file = [];
  status = codes "active";
  error_message = [];
  last_warnings = [];
  disable_registry_cache = false;
  created_at = 1;
  updated_at = 2;
  created_by = codes "ada";
  updated_by = codes "ada";
}

abbrev first : ComposeStackVersion
first = record {
  id = codes "v1";
  stack_id = codes "s1";
  revision = 1;
  content = codes "old";
  env_file = [];
  reason = codes "save";
  created_at = 1;
  created_by = codes "ada";
}

abbrev stacks : Stacks
stacks = record {
  stacks = (codes "s1", shop) ∷ [];
  versions = (codes "v1", first) ∷ [];
  events = [];
}

abbrev print : ℕ → Text
print n = codes "restore"

abbrev once : Stacks
once = (restore_version (answers (codes "v2")) print (codes "s1") (codes "v1") stacks).1

free : lookup (codes "v3") once.versions ≡ none
unfolding restore_version overwrite snapshot_if_changed stack_update version_list version_prune
    delete_each lookup replace delete update_entry
free = refl

restore_version_undo_example :
    ((restore_version (answers (codes "v2")) print (codes "s1") (codes "v1") stacks).0 ≡ restored)
    × HasFiles (codes "s1") (codes "old") [] once
    × ((restore_version (answers (codes "v3")) print (codes "s1") (codes "v2") once).0 ≡ restored)
    × HasFiles
        (codes "s1")
        (codes "new")
        []
        (restore_version (answers (codes "v3")) print (codes "s1") (codes "v2") once).1
unfolding lookup
restore_version_undo_example =
    restore_version_undo (answers (codes "v2")) (answers (codes "v3")) print (codes "v1") first shop
      stacks (==_apart (codes "s1") [] refl) (refl, tt)
      (==_apart (codes "v1") [] refl, refl, refl, refl, refl, refl)
      (refl, refl, refl, refl, refl, ==_apart (codes "v2") [] refl, refl)
      (refl, refl, refl, refl, refl, ==_apart (codes "v3") [] refl, free)
