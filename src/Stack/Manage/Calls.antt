-- ===== src/Stack/Manage/Calls.antt =====
-- The other calls of biz/compose_stack.go: start, stop, remove, import and migrate, also of the projects
-- that only a daemon knows, and the clean-up hook of biz/compose_stack_secret.go.
use swirl_evo.Common.{
  Bool, true, false, not, ◌&&◌, ◌==◌, List, [], ◌∷◌, Option, none, some, Text, text_eq,
  if◌then◌else◌,
}
use swirl_evo.Common.Dict.{Dict, lookup, delete}
use swirl_evo.Docker.{Docker, Summary}
use swirl_evo.Compose.Engine.{
  StackInfo, remove_with_preserve, list_project_volumes, each, each_listed,
}
use swirl_evo.Compose.Engine as Engine
use swirl_evo.Stack.{ComposeStack}
use swirl_evo.Stack.Version.{version_delete_by_stack}
use swirl_evo.Stack.Manage.{
  Answers, Ending, ok, failed, store_failed, stack_not_found, volumes_contain_data, wrap_op_error,
  started, shutdown, deleted, World, Resolved, ready, unresolved, resolve_host_client,
  clients_after, inactive, active, set_status, change, noted, with_stacks,
}
use swirl_evo.Stack.Manage.Deploys.{with_client, with_daemon, deploy}

abbrev pub has_no_container : Option (List Summary) → Bool
has_no_container none = false
has_no_container (some []) = true
has_no_container (some (c ∷ cs)) = false

-- The names of the volumes with data.
unfoldable pub with_data : List (Text × Bool) → List Text
with_data [] = []
with_data ((name, has) ∷ l) = let rest = with_data l in if has then name ∷ rest else rest

abbrev pub listed_with_data : Option (List (Text × Bool)) → List Text
listed_with_data none = []
listed_with_data (some l) = with_data l

abbrev pub bindings_of : Text → Dict Text Text → List Text
bindings_of stack_id [] = []
bindings_of stack_id ((id, owner) ∷ m) =
    let rest = bindings_of stack_id m in if owner == stack_id then id ∷ rest else rest

unfoldable pub delete_bindings : (Text → Bool) → List Text → Dict Text Text → Dict Text Text
unfolding delete
delete_bindings deletes [] m = m
delete_bindings deletes (id ∷ ids) m =
    let later = delete_bindings deletes ids (delete id m) in if deletes id then later else m

-- `ComposeStackSecretBindingDeleteByStack`.
unfoldable pub binding_delete_by_stack :
    Bool → (Text → Bool) → Text → Dict Text Text → Dict Text Text
unfolding delete_bindings
binding_delete_by_stack lists deletes stack_id m =
    if lists then delete_bindings deletes (bindings_of stack_id m) m else m

module _ (d : Docker) where
  -- `cleanupHook.AfterRemove`: the helper containers and the volumes of secrets.
  unfoldable pub after_remove : Text → d.Daemon → d.Daemon
  unfolding each
  after_remove project s =
      let s1 = each_listed d (λ r t. (d.remove false r t).1) (d.secret_containers project s) s in
      each_listed d (d.remove_volume true) (d.secret_volumes project s1) s1

  -- The engine's `Remove` with the clean-up hook.
  unfoldable pub remove_project : Text → Bool → d.Daemon → Bool × d.Daemon
  unfolding after_remove remove_with_preserve
  remove_project project removes_volumes s =
      remove_with_preserve d project removes_volumes [] (after_remove project) s

  -- `loadStack`.
  abbrev pub loaded :
      Answers → Text → World d → (ComposeStack → Ending × World d) → Ending × World d
  loaded k id w next =
      if not k.reads_stack then (failed store_failed, w) else elim (lookup id w.kept.stacks) [
        | none ↦ (failed stack_not_found, w)
        | some stack ↦ next stack
      ]

  -- What follows with the client of a host, in the world with that client.
  abbrev pub on_resolved :
      Resolved → (Text → World d → Ending × World d) → World d → Ending × World d
  on_resolved (unresolved e) next w = (failed e, w)
  on_resolved (ready client host) next w = next client w

  unfoldable pub on_host :
      Answers → Text → (Text → World d → Ending × World d) → World d → Ending × World d
  unfolding resolve_host_client clients_after
  on_host k host_id next w =
      on_resolved (resolve_host_client k host_id w.bucket w.clients) next
        (with_client d k host_id w)

  unfoldable pub deploy_by_id : Answers → Text → Bool → World d → Ending × World d
  unfolding deploy lookup
  deploy_by_id k id pull_images w = loaded k id w (λ stack. deploy d k stack pull_images w)

  -- The engine's start of a project, and its audit entry.
  unfoldable pub start_project :
      Answers → Text → Text → Text → (World d → World d) → World d → Ending × World d
  unfolding Engine.start
  start_project k host_id name client recorded w =
      let (starts, s) = Engine.start d name (w.daemons client) in
      let w1 = with_daemon d client s w in
      if starts
      then (ok [], noted d started host_id name (recorded w1))
      else (failed (wrap_op_error k), w1)

  unfoldable pub start : Answers → Text → World d → Ending × World d
  unfolding deploy start_project on_host change lookup
  start k id w = loaded k id w (λ stack.
      on_host k stack.host_id
        (λ client w1.
          if has_no_container (d.list stack.name (w1.daemons client))
          then deploy d k stack false w1
          else start_project k stack.host_id stack.name client
              (change d k.wrote_outcome id (set_status active)) w1)
        w)

  -- The engine's removal of a project, with what follows its success.
  unfoldable pub drop_project :
      Answers → Text → Text → Bool → (World d → Ending × World d) → World d → Ending × World d
  unfolding remove_project
  drop_project k name client removes_volumes next w =
      let (removed, s) = remove_project name removes_volumes (w.daemons client) in
      let w1 = with_daemon d client s w in
      let rest = next w1 in if removed then rest else (failed (wrap_op_error k), w1)

  -- What `Stop` records.
  abbrev pub halted : Answers → ComposeStack → Text → World d → Ending × World d
  halted k stack id w = (
    ok [],
    noted d shutdown stack.host_id stack.name (change d k.wrote_outcome id (set_status inactive) w),
  )

  unfoldable pub stop : Answers → Text → World d → Ending × World d
  unfolding drop_project on_host change lookup
  stop k id w = loaded k id w (λ stack.
      on_host k stack.host_id (λ client. drop_project k stack.name client false (halted k stack id))
        w)

  -- The guard of `Remove` and `RemoveExternal`: the volumes that hold it up.
  unfoldable pub volumes_in_the_way : Text → Bool → Bool → d.Daemon → List Text
  unfolding list_project_volumes with_data
  volumes_in_the_way name removes_volumes force s =
      if removes_volumes && not force then listed_with_data (list_project_volumes d name s) else []

  abbrev pub unless_in_the_way : List Text → Ending × World d → World d → Ending × World d
  unless_in_the_way [] next w = next
  unless_in_the_way (v ∷ vs) next w = (failed (volumes_contain_data (v ∷ vs)), w)

  unfoldable pub guarded_drop :
      Answers
      → Text
      → Bool
      → Bool
      → (World d → Ending × World d)
      → Text
      → World d
      → Ending × World d
  unfolding drop_project volumes_in_the_way
  guarded_drop k name removes_volumes force next client w =
      unless_in_the_way (volumes_in_the_way name removes_volumes force (w.daemons client))
        (drop_project k name client removes_volumes next w) w

  -- What `Remove` deletes from the store.
  unfoldable pub forget : Answers → ComposeStack → Text → World d → Ending × World d
  unfolding binding_delete_by_stack version_delete_by_stack delete
  forget k stack id w =
      let w1 = record w {
        bindings = binding_delete_by_stack k.lists_bindings k.deletes_binding id w.bindings;
        kept = record w.kept {
          versions = version_delete_by_stack k.lists_versions k.deletes_version id w.kept.versions;
        };
      } in
      if k.deletes_stack
      then (
        ok id,
        noted d deleted stack.host_id stack.name (with_stacks d (delete id w.kept.stacks) w1),
      )
      else (failed store_failed, w1)

  unfoldable pub remove : Answers → Text → Bool → Bool → World d → Ending × World d
  unfolding guarded_drop forget on_host lookup
  remove k id removes_volumes force w = loaded k id w (λ stack.
      on_host k stack.host_id (guarded_drop k stack.name removes_volumes force (forget k stack id))
        w)

  unfoldable pub start_external : Answers → Text → Text → World d → Ending × World d
  unfolding start_project on_host
  start_external k host_id name w =
      on_host k host_id (λ client. start_project k host_id name client (λ w1. w1)) w

  unfoldable pub stop_external : Answers → Text → Text → World d → Ending × World d
  unfolding drop_project on_host
  stop_external k host_id name w =
      on_host k host_id
        (λ client.
          drop_project k name client false (λ w1. (ok [], noted d shutdown host_id name w1)))
        w

  unfoldable pub remove_external : Answers → Text → Text → Bool → Bool → World d → Ending × World d
  unfolding guarded_drop on_host
  remove_external k host_id name removes_volumes force w =
      on_host k host_id
        (guarded_drop k name removes_volumes force (λ w1. (ok [], noted d deleted host_id name w1)))
        w
