-- ===== src/Stack/Manage/Moves.antt =====
-- `Import` and `Migrate` of biz/compose_stack.go.
use swirl_evo.Common.{
  Bool, false, not, ◌&&◌, ◌||◌, ◌==◌, List, [], any, Option, none, some, Text, codes, text_eq,
  if◌then◌else◌,
}
use swirl_evo.Common.Dict.{lookup}
use swirl_evo.Docker.{Docker}
use swirl_evo.Host.{Host}
use swirl_evo.Host.Store.{Clients, get_client}
use swirl_evo.Compose.Engine.{StackInfo, list}
use swirl_evo.Stack.{ComposeStack}
use swirl_evo.Stack.Version.{stack_update}
use swirl_evo.Stack.Manage.{
  Answers, Action, Ending, ok, failed, store_failed, ids_required, already_managed, no_stack,
  not_stopped, same_host, target_not_found, cross_mode, name_conflict, wrap_op_error, imported,
  migrated, World, ready, unresolved, resolve_host_client, get_by_name, inactive, active, noted,
  with_stacks, save,
}
use swirl_evo.Stack.Manage.Deploys.{with_client, with_daemon, deploy}
use swirl_evo.Stack.Manage.Calls.{on_host, remove_project}

module _ (d : Docker) where
  -- The audit entry of a call that succeeds.
  abbrev pub noted_if_ok : Action → ComposeStack → Ending × World d → Ending × World d
  noted_if_ok action stack (failed e, w) = (failed e, w)
  noted_if_ok action stack (ok id, w) = (ok id, noted d action stack.host_id stack.name w)

  -- `Import` with the content.
  unfoldable pub import_filled : Answers → ComposeStack → Bool → Bool → World d → Ending × World d
  unfolding deploy save
  import_filled k stack redeploy pull_images w =
      if redeploy
      then noted_if_ok imported stack (deploy d k stack pull_images w)
      else noted_if_ok imported stack (save d k (record stack { status = active }) w)

  abbrev pub reconstructed :
      Answers → ComposeStack → Bool → Bool → World d → Option Text → Ending × World d
  reconstructed k stack redeploy pull_images w none = (failed (wrap_op_error k), w)
  reconstructed k stack redeploy pull_images w (some yaml) =
      import_filled k (record stack { content = yaml }) redeploy pull_images w

  unfoldable pub import_new : Answers → ComposeStack → Bool → Bool → World d → Ending × World d
  unfolding import_filled on_host
  import_new k stack redeploy pull_images w =
      if stack.content == []
      then on_host d k stack.host_id
          (λ client w1. reconstructed k stack redeploy pull_images w1 (k.reconstruct stack.name)) w
      else import_filled k stack redeploy pull_images w

  unfoldable pub import_stack : Answers → ComposeStack → Bool → Bool → World d → Ending × World d
  unfolding import_new get_by_name
  import_stack k stack redeploy pull_images w =
      if stack.host_id == [] || stack.name == []
      then (failed ids_required, w)
      else if not k.reads_names
      then (failed store_failed, w)
      else elim (get_by_name stack.host_id stack.name w.kept.stacks) [
        | none ↦ import_new k stack redeploy pull_images w
        | some existing ↦ (failed already_managed, w)
      ]

  -- What `Migrate` makes of the record.
  abbrev pub moved : Answers → Text → ComposeStack → ComposeStack
  moved k target stack = record stack {
    host_id = target;
    status = inactive;
    error_message = [];
    updated_at = k.now;
    updated_by = k.user;
  }

  -- The record's update and the deploy on the target.
  unfoldable pub move_record : Answers → Text → Bool → ComposeStack → World d → Ending × World d
  unfolding stack_update deploy
  move_record k target redeploy stack w =
      let next = moved k target stack in
      let (wrote, stacks) = stack_update k.wrote_record next w.kept.stacks in
      let w1 = noted d migrated target stack.name (with_stacks d stacks w) in
      let deploys = deploy d k next false w1 in
      if not wrote
      then (failed store_failed, with_stacks d stacks w)
      else if redeploy
      then deploys
      else (ok [], w1)

  -- The removal on the source, whose error is not read.
  unfoldable pub clear_source : Answers → ComposeStack → World d → World d
  unfolding remove_project resolve_host_client
  clear_source k stack w =
      let w1 = with_client d k stack.host_id w in
      elim (resolve_host_client k stack.host_id w.bucket w.clients) [
        | unresolved e ↦ w1
        | ready client host ↦
            with_daemon d client (remove_project d stack.name false (w1.daemons client)).1 w1
      ]

  abbrev pub has_project : Text → Option (List StackInfo) → Bool
  has_project name none = false
  has_project name (some l) = any (λ (i : StackInfo). i.name == name) l

  abbrev pub runs_there : Option Text → Text → World d → Bool
  runs_there none name w = false
  runs_there (some client) name w = has_project name (list d (w.daemons client))

  -- The look at the projects of a connected target.
  abbrev pub probed : Answers → Host → Clients → Clients
  probed k host clients =
      if host.status == codes "connected"
      then get_client k.makes_client host.id host.endpoint clients
      else clients

  unfoldable pub migrate_to :
      Answers → Text → Host → Bool → ComposeStack → World d → Ending × World d
  unfolding clear_source move_record get_client lookup list
  migrate_to k target host redeploy stack w =
      let w1 = record w { clients = probed k host w.clients } in
      let next = move_record k target redeploy stack (clear_source k stack w1) in
      if host.status == codes "connected" && runs_there (lookup host.id w1.clients) stack.name w1
      then (failed name_conflict, w1)
      else next

  abbrev pub is_other_mode : Host → Option Host → Bool
  is_other_mode target none = false
  is_other_mode target (some source) = not (source.host_type == target.host_type)

  unfoldable pub migrate_found :
      Answers → Text → Host → Bool → ComposeStack → World d → Ending × World d
  unfolding migrate_to lookup get_by_name
  migrate_found k target host redeploy stack w =
      if k.reads_source && is_other_mode host (lookup stack.host_id w.bucket)
      then (failed cross_mode, w)
      else if not k.reads_names
      then (failed store_failed, w)
      else elim (get_by_name target stack.name w.kept.stacks) [
        | none ↦ migrate_to k target host redeploy stack w
        | some existing ↦ (failed name_conflict, w)
      ]

  abbrev pub migrate_loaded :
      Answers → Text → Bool → World d → Option ComposeStack → Ending × World d
  migrate_loaded k target redeploy w none = (failed no_stack, w)
  migrate_loaded k target redeploy w (some stack) =
      if not (stack.status == inactive)
      then (failed not_stopped, w)
      else if stack.host_id == target
      then (failed same_host, w)
      else if not k.reads_host
      then (failed store_failed, w)
      else elim (lookup target w.bucket) [
        | none ↦ (failed target_not_found, w)
        | some host ↦ migrate_found k target host redeploy stack w
      ]

  unfoldable pub migrate : Answers → Text → Text → Bool → World d → Ending × World d
  unfolding migrate_found lookup
  migrate k id target redeploy w =
      if not k.reads_stack
      then (failed store_failed, w)
      else migrate_loaded k target redeploy w (lookup id w.kept.stacks)
