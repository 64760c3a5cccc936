-- ===== src/Stack/Trace/Volumes.antt =====
-- A volume with data outlives every call that is not asked to remove volumes, and every job.
mod Daemon
use swirl_evo.Common.{
  if-cases, Option-elim, ◌≡◌, ◌≢◌, refl, subst, ℕ, Bool, true, false, not, ◌&&◌, ◌||◌, ◌==◌, ==_iff,
  List, [], ◌∷◌, All, All-Unit, Option, none, some, Text, codes, get_elem?, arith, text_eq,
  if◌then◌else◌,
}
use swirl_evo.Docker.{Docker, VolumeLaws}
use swirl_evo.Stack.{ComposeStack}
use swirl_evo.Stack.Rewrite.{RewriteAction}
use swirl_evo.Stack.Mirror.{sync, mirror_actions_to_cache, origin_host, resolve_registry_auth}
use swirl_evo.Stack.Mirror.Mirrored.{mirror-cases}
use swirl_evo.Compose.Engine as Engine
use swirl_evo.Compose.Engine.Holds.{
  each_listed-Holds, deploy_with_result-Holds, start-Holds, remove_with_preserve-Holds,
}
use swirl_evo.Stack.Manage.{
  Answers, Ending, ok, failed, Job, World, ready, unresolved, resolve_host_client, active,
  set_status, imported, shutdown, deleted, noted, change, save_with_reason, save, save_with_addons,
}
use swirl_evo.Stack.Manage.Deploys.{
  with_client, with_daemon, settle, deploy_on, deploy, deploy_with_addons, run_engine, run_deploy,
}
use swirl_evo.Stack.Manage.Calls.{
  after_remove, remove_project, start_project, start, drop_project, halted, stop, guarded_drop,
  forget, remove, start_external, stop_external, remove_external, deploy_by_id,
}
use swirl_evo.Stack.Manage.Moves.{
  import_filled, import_stack, clear_source, move_record, moved, migrate,
}
use swirl_evo.Stack.Manage.Cases.{
  save_with_reason-cases, with_addons-cases, deploy_on-cases, deploy-cases, run_engine-cases,
  run_deploy-cases, engine_end,
}
use swirl_evo.Stack.Manage.Cases.Drops.{
  loaded-cases, on_host-cases, start_project-cases, drop_project-cases, guarded_drop-cases,
  forget-cases, start-cases,
}
use swirl_evo.Stack.Manage.Cases.Travels.{
  import_stack-cases, noted_if_ok-cases, migrate-cases, move_record-cases, with_probe,
}
use swirl_evo.Stack.Trace.Volumes.Daemon.{mirror-Holds, remove_project-Holds}
use swirl_evo.Stack.Trace.{
  Call, saves, deploys, redeploys, starts, stops, removes, imports, migrates, starts_external,
  stops_external, removes_external, restores, overwrites, finishes, without, finish, handle,
  handle_all,
}

module _ (d : Docker) (laws : VolumeLaws d) (v e : Text) where
  -- The volume is on the daemon `e`.
  abbrev At : World d → Type 0
  At w = laws.Holds v (w.daemons e)

  abbrev After : Ending × World d → Type 0
  After r = laws.Holds v (r.1.daemons e)

  with_daemon-At :
      (client : Text) (s : d.Daemon) (w : World d)
      → (laws.Holds v (w.daemons client) → laws.Holds v s)
      → At w
      → At (with_daemon d client s w)
  with_daemon-At client s w keeps h =
      if-cases (laws.Holds v) (e == client) s (w.daemons e)
        (λ y. keeps (subst (λ x. laws.Holds v (w.daemons x)) ((==_iff e client).0 y) h)) (λ _. h)

  save-At :
      (k : Answers) (reason : Text) (stack : ComposeStack) (w : World d)
      → At w
      → After (save_with_reason d k reason stack w)
  save-At k reason stack w h =
      save_with_reason-cases d After k reason stack w (λ _. h) (λ _. h) (λ _ _. h) (λ _ _. h)

  deploy_on-At :
      (k : Answers) (id : Text) (stack : ComposeStack) (pull_images : Bool) (client : Text)
      (w : World d)
      → At w
      → After (deploy_on d k id stack pull_images client w)
  unfolding settle change
  deploy_on-At k id stack pull_images client w h =
      deploy_on-cases d After k id stack pull_images client w h h h

  deploy-At :
      (k : Answers) (stack : ComposeStack) (pull_images : Bool) (w : World d)
      → At w
      → After (deploy d k stack pull_images w)
  unfolding save
  deploy-At k stack pull_images w h =
      let saved = save-At k (codes "save") stack w h in
      deploy-cases d After k stack pull_images w (λ _. saved) (λ _. saved)
        (λ id client _.
          deploy_on-At k id stack pull_images client
            (with_client d k stack.host_id (save d k stack w).1) saved)

  run_engine-At : (k : Answers) (j : Job) (w : World d) → At w → At (run_engine d k j w)
  unfolding settle change
  run_engine-At k j w h =
      let ran =
        with_daemon-At j.client (engine_end d At k j w).1 w
          (λ g. deploy_with_result-Holds d laws v _ j.name [] _ (w.daemons j.client) g) h in
      run_engine-cases d At k j w ran ran

  run_deploy-At : (k : Answers) (j : Job) (w : World d) → At w → At (run_deploy d k j w)
  unfolding settle change
  run_deploy-At k j w h =
      let s =
        (mirror_actions_to_cache d k.get_auth j.pull_images j.actions (w.daemons j.client)).2 in
      let mirrored =
        with_daemon-At j.client s w
          (λ g. mirror-Holds d laws v k.get_auth j.pull_images j.actions (w.daemons j.client) g)
          h in
      run_deploy-cases d At k j w mirrored (run_engine-At k j (with_daemon d j.client s w) mirrored)

  drop-At :
      (k : Answers) (name client : Text) (next : World d → Ending × World d) (w : World d)
      → ((u : World d) → At u → After (next u))
      → At w
      → After (drop_project d k name client false next w)
  drop-At k name client next w keeps h =
      let s = (remove_project d name false (w.daemons client)).1 in
      let dropped =
        with_daemon-At client s w (λ g. remove_project-Holds d laws v name (w.daemons client) g)
          h in
      drop_project-cases d After k name client false next w
        (λ _. keeps (with_daemon d client s w) dropped) (λ _. dropped)

  guarded-At :
      (k : Answers) (name : Text) (force : Bool) (next : World d → Ending × World d) (client : Text)
      (w : World d)
      → ((u : World d) → At u → After (next u))
      → At w
      → After (guarded_drop d k name false force next client w)
  guarded-At k name force next client w keeps h =
      guarded_drop-cases d After k name false force next client w (λ _ _ _. h)
        (λ _. drop-At k name client next w keeps h)

  start_project-At :
      (k : Answers) (host_id name client : Text) (recorded : World d → World d) (w : World d)
      → ((u : World d) → At u → At (recorded u))
      → At w
      → After (start_project d k host_id name client recorded w)
  start_project-At k host_id name client recorded w keeps h =
      let s = (Engine.start d name (w.daemons client)).1 in
      let begun =
        with_daemon-At client s w (λ g. start-Holds d laws v name (w.daemons client) g) h in
      start_project-cases d After k host_id name client recorded w
        (keeps (with_daemon d client s w) begun) begun

  start-At : (k : Answers) (id : Text) (w : World d) → At w → After (start d k id w)
  unfolding change
  start-At k id w h =
      start-cases d After k id w (λ _. h)
        (λ stack _. (
          λ _. h,
          deploy-At k stack false (with_client d k stack.host_id w) h,
          λ client.
              start_project-At k stack.host_id stack.name client
                (change d k.wrote_outcome id (set_status active)) (with_client d k stack.host_id w)
                (λ u g. g) h,
        ))

  stop-At : (k : Answers) (id : Text) (w : World d) → At w → After (stop d k id w)
  unfolding stop change
  stop-At k id w h =
      loaded-cases d After k id w _ (λ _. h)
        (λ stack _.
          on_host-cases d After k stack.host_id _ w (λ _. h)
            (λ client.
              drop-At k stack.name client (halted d k stack id) (with_client d k stack.host_id w)
                (λ u g. g) h))

  remove-At :
      (k : Answers) (id : Text) (force : Bool) (w : World d)
      → At w
      → After (remove d k id false force w)
  unfolding remove
  remove-At k id force w h =
      loaded-cases d After k id w _ (λ _. h)
        (λ stack _.
          on_host-cases d After k stack.host_id _ w (λ _. h)
            (λ client.
              guarded-At k stack.name force (forget d k stack id) client
                (with_client d k stack.host_id w) (λ u g. forget-cases d After k stack id u g g) h))

  import_filled-At :
      (k : Answers) (stack : ComposeStack) (redeploy pull_images : Bool) (w : World d)
      → At w
      → After (import_filled d k stack redeploy pull_images w)
  unfolding import_filled save
  import_filled-At k stack redeploy pull_images w h =
      let deployed = deploy-At k stack pull_images w h in
      let kept = save-At k (codes "save") (record stack { status = active }) w h in
      if-cases After redeploy _ _
        (λ _.
          noted_if_ok-cases d After imported stack (deploy d k stack pull_images w)
            (λ _ _. deployed) (λ _ _. deployed))
        (λ _.
          noted_if_ok-cases d After imported stack (save d k (record stack { status = active }) w)
            (λ _ _. kept) (λ _ _. kept))

  clear_source-At :
      (k : Answers) (stack : ComposeStack) (w : World d) → At w → At (clear_source d k stack w)
  unfolding clear_source
  clear_source-At k stack w h =
      elim (resolve_host_client k stack.host_id w.bucket w.clients)
        as (λ r. At (elim r [
          | unresolved e ↦ with_client d k stack.host_id w
          | ready client host ↦
              with_daemon d client (remove_project d stack.name false (w.daemons client)).1
                (with_client d k stack.host_id w)
        ])) [
          | unresolved e ↦ h
          | ready client host ↦
              with_daemon-At client (remove_project d stack.name false (w.daemons client)).1
                (with_client d k stack.host_id w)
                (λ g. remove_project-Holds d laws v stack.name (w.daemons client) g) h
        ]

  migrate-At :
      (k : Answers) (id target : Text) (redeploy : Bool) (w : World d)
      → At w
      → After (migrate d k id target redeploy w)
  migrate-At k id target redeploy w h =
      migrate-cases d After k id target redeploy w (λ _. h) (λ _ _. h)
        (λ stack host _ _.
          let cleared =
            clear_source-At k stack (with_probe d After k id target redeploy w host) h in
          move_record-cases d After k target redeploy stack _ (λ _. cleared)
            (λ _. deploy-At k (moved d k target stack) false _ cleared) (λ _. cleared))

  finish-At : (k : Answers) (n : ℕ) (w : World d) → At w → At (finish d k n w)
  unfolding finish
  finish-At k n w h =
      Option-elim At (get_elem? w.jobs n) _ _ (λ _. h)
        (λ j _. run_deploy-At k j (record w { jobs = without n w.jobs }) h)

  -- The call is not asked to remove volumes.
  abbrev pub Leaves : Call → Type 0
  Leaves (removes k id removes_volumes force) = removes_volumes ≡ false
  Leaves (removes_external k host_id name removes_volumes force) = removes_volumes ≡ false
  Leaves _ = Unit

  handle-At : (c : Call) (w : World d) → Leaves c → At w → At (handle d c w)
  unfolding handle save_with_addons deploy_with_addons deploy_by_id start_external stop_external
      remove_external
  handle-At (saves k has_addon stack) w l h =
      with_addons-cases d After k has_addon (λ reason. save_with_reason d k reason) stack w (λ _. h)
        (λ reason content. save-At k reason (record stack { content = content }) w h)
  handle-At (deploys k has_addon stack pull_images) w l h =
      with_addons-cases d After k has_addon (λ reason s. deploy d k s pull_images) stack w (λ _. h)
        (λ reason content. deploy-At k (record stack { content = content }) pull_images w h)
  handle-At (redeploys k id pull_images) w l h =
      loaded-cases d After k id w _ (λ _. h) (λ stack _. deploy-At k stack pull_images w h)
  handle-At (starts k id) w l h = start-At k id w h
  handle-At (stops k id) w l h = stop-At k id w h
  handle-At (removes k id removes_volumes force) w l h = rw l (remove-At k id force w h)
  handle-At (imports k stack redeploy pull_images) w l h =
      import_stack-cases d After k stack redeploy pull_images w (λ _. h) (λ _. h)
        (λ content _. (
          import_filled-At k (record stack { content = content }) redeploy pull_images w h,
          import_filled-At k (record stack { content = content }) redeploy pull_images
              (with_client d k stack.host_id w) h,
        ))
  handle-At (migrates k id target redeploy) w l h = migrate-At k id target redeploy w h
  handle-At (starts_external k host_id name) w l h =
      on_host-cases d After k host_id _ w (λ _. h)
        (λ client.
          start_project-At k host_id name client (λ u. u) (with_client d k host_id w) (λ u g. g) h)
  handle-At (stops_external k host_id name) w l h =
      on_host-cases d After k host_id _ w (λ _. h)
        (λ client.
          drop-At k name client (λ u. (ok [], noted d shutdown host_id name u))
            (with_client d k host_id w) (λ u g. g) h)
  handle-At (removes_external k host_id name removes_volumes force) w l h =
      on_host-cases d After k host_id _ w (λ _. h)
        (λ client. rw l (
          guarded-At k name force (λ u. (ok [], noted d deleted host_id name u)) client
            (with_client d k host_id w) (λ u g. g) h))
  handle-At (restores k reason stack_id version_id) w l h = h
  handle-At (overwrites k reason version current) w l h = h
  handle-At (finishes k n) w l h = finish-At k n w h

  -- A named volume with data that is not one of a secret stays on its daemon through any calls and jobs,
  -- however they end, provided that no call is asked to remove volumes; anonymous volumes are not meant.
  pub handle_all-Holds :
      (calls : List Call) (w : World d) → All Leaves calls → At w → At (handle_all d calls w)
  unfolding handle_all
  handle_all-Holds [] w l h = h
  handle_all-Holds (c ∷ calls) w (l, ls) h =
      handle_all-Holds calls (handle d c w) ls (handle-At c w l h)
