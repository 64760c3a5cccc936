-- ===== src/Stack/Manage/Cases/Drops.antt =====
-- The ways in which start, stop and remove end.
use swirl_evo.Common.{
  if-cases, Option-elim, ◌≡◌, refl, Bool, true, false, not, List, [], ◌∷◌, some, Text, text_eq,
}
use swirl_evo.Common.Dict.{lookup, delete}
use swirl_evo.Docker.{Docker}
use swirl_evo.Compose.Engine as Engine
use swirl_evo.Stack.{ComposeStack}
use swirl_evo.Stack.Version.{version_delete_by_stack}
use swirl_evo.Stack.Manage.{
  Answers, Ending, Error, ok, failed, store_failed, stack_not_found, volumes_contain_data,
  wrap_op_error, started, deleted, World, Resolved, ready, unresolved, resolve_host_client, active,
  set_status, change, noted, with_stacks,
}
use swirl_evo.Stack.Manage.Deploys.{with_client, with_daemon, deploy}
use swirl_evo.Stack.Manage.Calls.{
  remove_project, loaded, on_resolved, on_host, has_no_container, start_project, start,
  drop_project, volumes_in_the_way, unless_in_the_way, guarded_drop, binding_delete_by_stack,
  forget,
}

module _ (d : Docker) (P : Ending × World d → Type 0) where
  pub loaded-cases :
      (k : Answers) (id : Text) (w : World d) (next : ComposeStack → Ending × World d)
      → ((e : Error) → P (failed e, w))
      → ((stack : ComposeStack) → lookup id w.kept.stacks ≡ some stack → P (next stack))
      → P (loaded d k id w next)
  loaded-cases k id w next fails goes =
      if-cases P (not k.reads_stack) _ _ (λ _. fails store_failed)
        (λ _.
          Option-elim P (lookup id w.kept.stacks) _ _ (λ _. fails stack_not_found)
            (λ stack e. goes stack e))

  pub on_host-cases :
      (k : Answers) (host_id : Text) (next : Text → World d → Ending × World d) (w : World d)
      → ((e : Error) → P (failed e, with_client d k host_id w))
      → ((client : Text) → P (next client (with_client d k host_id w)))
      → P (on_host d k host_id next w)
  unfolding on_host
  on_host-cases k host_id next w fails goes =
      resolved (resolve_host_client k host_id w.bucket w.clients)
    where
      resolved : (r : Resolved) → P (on_resolved d r next (with_client d k host_id w))
      resolved (unresolved e) = fails e
      resolved (ready client host) = goes client

  pub start_project-cases :
      (k : Answers) (host_id name client : Text) (recorded : World d → World d) (w : World d)
      → let w1 = with_daemon d client (Engine.start d name (w.daemons client)).1 w in
        P (ok [], noted d started host_id name (recorded w1))
        → P (failed (wrap_op_error k), w1)
        → P (start_project d k host_id name client recorded w)
  unfolding start_project
  start_project-cases k host_id name client recorded w starts fails =
      if-cases P (Engine.start d name (w.daemons client)).0 _ _ (λ _. starts) (λ _. fails)

  pub drop_project-cases :
      (k : Answers) (name client : Text) (removes_volumes : Bool)
      (next : World d → Ending × World d) (w : World d)
      → let r = remove_project d name removes_volumes (w.daemons client) in
        let w1 = with_daemon d client r.1 w in
        (r.0 ≡ true → P (next w1))
        → (r.0 ≡ false → P (failed (wrap_op_error k), w1))
        → P (drop_project d k name client removes_volumes next w)
  unfolding drop_project
  drop_project-cases k name client removes_volumes next w drops fails =
      if-cases P (remove_project d name removes_volumes (w.daemons client)).0 _ _ drops fails

  pub guarded_drop-cases :
      (k : Answers) (name : Text) (removes_volumes force : Bool) (next : World d → Ending × World d)
      (client : Text) (w : World d)
      → ((v : Text) (vs : List Text)
          → volumes_in_the_way d name removes_volumes force (w.daemons client) ≡ v ∷ vs
          → P (failed (volumes_contain_data (v ∷ vs)), w))
      → (volumes_in_the_way d name removes_volumes force (w.daemons client) ≡ []
          → P (drop_project d k name client removes_volumes next w))
      → P (guarded_drop d k name removes_volumes force next client w)
  unfolding guarded_drop
  guarded_drop-cases k name removes_volumes force next client w refuses goes =
      sorted (volumes_in_the_way d name removes_volumes force (w.daemons client)) refl
    where
      sorted :
          (vs : List Text)
          → volumes_in_the_way d name removes_volumes force (w.daemons client) ≡ vs
          → P (unless_in_the_way d vs (drop_project d k name client removes_volumes next w) w)
      sorted [] e = goes e
      sorted (v ∷ vs) e = refuses v vs e

  -- The world without what the store keeps beside the stack.
  abbrev pub without_rest : Answers → Text → World d → World d
  without_rest k id w = record w {
    bindings = binding_delete_by_stack k.lists_bindings k.deletes_binding id w.bindings;
    kept = record w.kept {
      versions = version_delete_by_stack k.lists_versions k.deletes_version id w.kept.versions;
    };
  }

  pub forget-cases :
      (k : Answers) (stack : ComposeStack) (id : Text) (w : World d)
      → P (
        ok id,
        noted d deleted stack.host_id stack.name
            (with_stacks d (delete id w.kept.stacks) (without_rest k id w)),
      )
      → P (failed store_failed, without_rest k id w)
      → P (forget d k stack id w)
  unfolding forget
  forget-cases k stack id w forgets fails =
      if-cases P k.deletes_stack _ _ (λ _. forgets) (λ _. fails)

  -- A start of a stack without containers is a deploy of it.
  pub start-cases :
      (k : Answers) (id : Text) (w : World d)
      → ((e : Error) → P (failed e, w))
      → ((stack : ComposeStack)
          → lookup id w.kept.stacks ≡ some stack
          → let w1 = with_client d k stack.host_id w in
            ((e : Error) → P (failed e, w1))
            × P (deploy d k stack false w1)
            × ((client : Text)
                → P (
                    start_project d k stack.host_id stack.name client
                      (change d k.wrote_outcome id (set_status active))
                      w1)))
      → P (start d k id w)
  unfolding start
  start-cases k id w fails goes = loaded-cases k id w _ fails (λ stack e.
      on_host-cases k stack.host_id _ w (goes stack e).0 (λ client.
        if-cases P
          (has_no_container (d.list stack.name ((with_client d k stack.host_id w).daemons client)))
          _ _ (λ _. (goes stack e).1) (λ _. (goes stack e).2 client)))
