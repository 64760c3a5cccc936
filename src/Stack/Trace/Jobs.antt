-- ===== src/Stack/Trace/Jobs.antt =====
-- However calls and jobs follow each other, a stack that is stored as deploying has a job.
mod Stored
pub mod Handlers
mod Restored
pub mod Revived
use swirl_evo.Common.{
  if-cases, Option-elim, ◌≡◌, ◌≢◌, refl, sym, ap, subst, ℕ, zero, suc, Bool, true, false, not, ◌==◌,
  ==_apart, ==_iff, List, [], ◌∷◌, All, any, Option, none, some, Text, codes, get_elem?, arith,
  text_eq, if◌then◌else◌,
}
use swirl_evo.Common.Dict.{lookup}
use swirl_evo.Docker.{Docker}
use swirl_evo.Stack.{ComposeStack}
use swirl_evo.Stack.Version.{restore_version}
use swirl_evo.Stack.Manage.{
  Answers, Ending, ok, failed, Job, World, ready, unresolved, resolve_host_client, inactive, active,
  deploying, set_status, imported, shutdown, deleted, noted, with_stacks, change, save_with_reason,
  save, save_with_addons,
}
use swirl_evo.Stack.Manage.Deploys.{
  with_client, with_daemon, deploy, deploy_with_addons, run_deploy,
}
use swirl_evo.Stack.Manage.Calls.{
  remove_project, start_project, start, drop_project, halted, stop, guarded_drop, forget, remove,
  deploy_by_id, start_external, stop_external, remove_external,
}
use swirl_evo.Stack.Manage.Moves.{
  import_filled, import_stack, clear_source, moved, move_record, migrate,
}
use swirl_evo.Stack.Manage.Cases.{with_addons-cases}
use swirl_evo.Stack.Manage.Cases.Drops.{
  loaded-cases, on_host-cases, start_project-cases, drop_project-cases, guarded_drop-cases,
  forget-cases, start-cases,
}
use swirl_evo.Stack.Manage.Cases.Travels.{
  import_stack-cases, noted_if_ok-cases, migrate-cases, move_record-cases, with_probe,
}
use swirl_evo.Stack.Trace.{
  Call, saves, deploys, redeploys, starts, stops, removes, imports, migrates, starts_external,
  stops_external, removes_external, restores, overwrites, finishes, without, finish, handle,
  handle_all,
}
use swirl_evo.Stack.Trace.Jobs.Stored.{
  HasJob, Fine, Waits, Waits-update, Waits-delete, Waits-stack_update,
}
use swirl_evo.Stack.Trace.Jobs.Handlers.{
  Works, Allowed, Steady, SteadyAfter, save-Steady, deploy-Steady, run_deploy-Steady,
  inactive-apart, active-apart,
}
use swirl_evo.Stack.Trace.Jobs.Restored.{overwrite-Waits, restore_version-Waits}

module _ (d : Docker) where
  loaded-Allowed :
      (id : Text) (stack : ComposeStack) (w : World d)
      → Steady d w
      → lookup id w.kept.stacks ≡ some stack
      → Allowed w.jobs stack
  loaded-Allowed id stack w h e x =
      let (a, b, c) = h id stack e in
      (subst (λ i. i ≢ []) (sym a) b, subst (λ i. HasJob i w.jobs) (sym a) (c x))

  drop-Steady :
      (k : Answers) (name client : Text) (removes_volumes : Bool)
      (next : World d → Ending × World d) (w : World d)
      → ((u : World d) → Steady d u → SteadyAfter d (next u))
      → Steady d w
      → SteadyAfter d (drop_project d k name client removes_volumes next w)
  drop-Steady k name client removes_volumes next w keeps h =
      drop_project-cases d (SteadyAfter d) k name client removes_volumes next w
        (λ _.
          keeps
            (with_daemon d client (remove_project d name removes_volumes (w.daemons client)).1 w) h)
        (λ _. h)

  guarded-Steady :
      (k : Answers) (name : Text) (removes_volumes force : Bool) (next : World d → Ending × World d)
      (client : Text) (w : World d)
      → ((u : World d) → Steady d u → SteadyAfter d (next u))
      → Steady d w
      → SteadyAfter d (guarded_drop d k name removes_volumes force next client w)
  guarded-Steady k name removes_volumes force next client w keeps h =
      guarded_drop-cases d (SteadyAfter d) k name removes_volumes force next client w (λ _ _ _. h)
        (λ _. drop-Steady k name client removes_volumes next w keeps h)

  -- The write of a status that is not that of a deploy, with the jobs as they are.
  status-Steady :
      (wrote : Bool) (id status : Text) (w : World d)
      → status ≢ deploying
      → Steady d w
      → Steady d (change d wrote id (set_status status) w)
  unfolding change
  status-Steady wrote id status w over h =
      Waits-update w.jobs wrote id (set_status status) w.kept.stacks
        (λ old (a, b, c). (a, b, λ x. absurd (over x))) h

  start-Steady :
      (k : Answers) (id : Text) (w : World d)
      → Works k
      → Steady d w
      → SteadyAfter d (start d k id w)
  start-Steady k id w works h =
      start-cases d (SteadyAfter d) k id w (λ _. h)
        (λ stack e. (
          λ _. h,
          deploy-Steady d k stack false (with_client d k stack.host_id w) works
              (loaded-Allowed id stack w h e) h,
          λ client.
              start_project-cases d (SteadyAfter d) k stack.host_id stack.name client
                (change d k.wrote_outcome id (set_status active)) (with_client d k stack.host_id w)
                (status-Steady k.wrote_outcome id active _ active-apart h) h,
        ))

  stop-Steady : (k : Answers) (id : Text) (w : World d) → Steady d w → SteadyAfter d (stop d k id w)
  unfolding stop
  stop-Steady k id w h =
      loaded-cases d (SteadyAfter d) k id w _ (λ _. h)
        (λ stack _.
          on_host-cases d (SteadyAfter d) k stack.host_id _ w (λ _. h)
            (λ client.
              drop-Steady k stack.name client false (halted d k stack id)
                (with_client d k stack.host_id w)
                (λ u g. status-Steady k.wrote_outcome id inactive u inactive-apart g) h))

  remove-Steady :
      (k : Answers) (id : Text) (removes_volumes force : Bool) (w : World d)
      → Steady d w
      → SteadyAfter d (remove d k id removes_volumes force w)
  unfolding remove
  remove-Steady k id removes_volumes force w h =
      loaded-cases d (SteadyAfter d) k id w _ (λ _. h)
        (λ stack _.
          on_host-cases d (SteadyAfter d) k stack.host_id _ w (λ _. h)
            (λ client.
              guarded-Steady k stack.name removes_volumes force (forget d k stack id) client
                (with_client d k stack.host_id w)
                (λ u g.
                  forget-cases d (SteadyAfter d) k stack id u
                    (Waits-delete u.jobs id u.kept.stacks g) g)
                h))

  import_filled-Steady :
      (k : Answers) (stack : ComposeStack) (redeploy pull_images : Bool) (w : World d)
      → Works k
      → stack.status ≢ deploying
      → Steady d w
      → SteadyAfter d (import_filled d k stack redeploy pull_images w)
  unfolding import_filled save
  import_filled-Steady k stack redeploy pull_images w works over h =
      let P = SteadyAfter d in
      let live : ComposeStack = record stack { status = active } in
      let deployed = deploy-Steady d k stack pull_images w works (λ x. absurd (over x)) h in
      let kept = save-Steady d k (codes "save") live w works.0 (λ x. absurd (active-apart x)) h in
      if-cases P redeploy _ _
        (λ _.
          noted_if_ok-cases d P imported stack (deploy d k stack pull_images w) (λ _ _. deployed)
            (λ _ _. deployed))
        (λ _. noted_if_ok-cases d P imported stack (save d k live w) (λ _ _. kept) (λ _ _. kept))

  clear_source-Steady :
      (k : Answers) (stack : ComposeStack) (w : World d)
      → Steady d w
      → Steady d (clear_source d k stack w)
  unfolding clear_source
  clear_source-Steady k stack w h =
      elim (resolve_host_client k stack.host_id w.bucket w.clients)
        as (λ r. Steady d (elim r [
          | unresolved e ↦ with_client d k stack.host_id w
          | ready client host ↦
              with_daemon d client (remove_project d stack.name false (w.daemons client)).1
                (with_client d k stack.host_id w)
        ])) [ unresolved e ↦ h | ready client host ↦ h ]

  migrate-Steady :
      (k : Answers) (id target : Text) (redeploy : Bool) (w : World d)
      → Works k
      → Steady d w
      → SteadyAfter d (migrate d k id target redeploy w)
  migrate-Steady k id target redeploy w works h =
      let P = SteadyAfter d in
      migrate-cases d P k id target redeploy w (λ _. h) (λ _ _. h)
        (λ stack host _ _.
          let u = clear_source d k stack (with_probe d P k id target redeploy w host) in
          let cleared =
            clear_source-Steady k stack (with_probe d P k id target redeploy w host) h in
          let written =
            Waits-stack_update u.jobs k.wrote_record (moved d k target stack) u.kept.stacks
              (λ x. absurd (inactive-apart x)) cleared in
          move_record-cases d P k target redeploy stack u (λ _. written)
            (λ _.
              deploy-Steady d k (moved d k target stack) false _ works
                (λ x. absurd (inactive-apart x)) written)
            (λ _. written))

  HasJob-without :
      (n : ℕ) (jobs : List Job) (j : Job) (i : Text)
      → get_elem? jobs n ≡ some j
      → i ≢ j.id
      → HasJob i jobs
      → HasJob i (without n jobs)
  HasJob-without n [] j i e apart h = cc
  HasJob-without zero (l ∷ jobs) j i e apart h =
      ground (arith, e, apart, h, ==_iff l.id i, ap (λ (o : Option Job). o) e)
  HasJob-without (suc n) (l ∷ jobs) j i e apart h =
      ground (arith, h, HasJob-without n jobs j i e apart)

  finish-Steady :
      (k : Answers) (n : ℕ) (w : World d) → Works k → Steady d w → Steady d (finish d k n w)
  unfolding finish
  finish-Steady k n w works h =
      Option-elim (Steady d) (get_elem? w.jobs n) _ _ (λ _. h)
        (λ j e.
          run_deploy-Steady d k w.jobs j (record w { jobs = without n w.jobs }) works
            (λ i apart has. HasJob-without n w.jobs j i e apart has) h)

  -- What a call needs: its writes do what they are to, and a stack that is handed in is not stored as
  -- deploying.
  abbrev pub Fair : Call → Type 0
  Fair (saves k has_addon stack) = Works k × (stack.status ≢ deploying)
  Fair (deploys k has_addon stack pull_images) = Works k × (stack.status ≢ deploying)
  Fair (redeploys k id pull_images) = Works k
  Fair (starts k id) = Works k
  Fair (imports k stack redeploy pull_images) = Works k × (stack.status ≢ deploying)
  Fair (migrates k id target redeploy) = Works k
  Fair (overwrites k reason version current) = current.status ≢ deploying
  Fair (finishes k n) = Works k
  Fair _ = Unit

  handle-Steady : (c : Call) (w : World d) → Fair c → Steady d w → Steady d (handle d c w)
  unfolding handle save_with_addons deploy_with_addons deploy_by_id start_external stop_external
      remove_external
  handle-Steady (saves k has_addon stack) w f h =
      with_addons-cases d (SteadyAfter d) k has_addon (λ reason. save_with_reason d k reason) stack
        w (λ _. h)
        (λ reason content.
          save-Steady d k reason (record stack { content = content }) w f.0.0 (λ x. absurd (f.1 x))
            h)
  handle-Steady (deploys k has_addon stack pull_images) w f h =
      with_addons-cases d (SteadyAfter d) k has_addon (λ reason s. deploy d k s pull_images) stack w
        (λ _. h)
        (λ reason content.
          deploy-Steady d k (record stack { content = content }) pull_images w f.0
            (λ x. absurd (f.1 x)) h)
  handle-Steady (redeploys k id pull_images) w f h =
      loaded-cases d (SteadyAfter d) k id w _ (λ _. h)
        (λ stack e. deploy-Steady d k stack pull_images w f (loaded-Allowed id stack w h e) h)
  handle-Steady (starts k id) w f h = start-Steady k id w f h
  handle-Steady (stops k id) w f h = stop-Steady k id w h
  handle-Steady (removes k id removes_volumes force) w f h =
      remove-Steady k id removes_volumes force w h
  handle-Steady (imports k stack redeploy pull_images) w f h =
      import_stack-cases d (SteadyAfter d) k stack redeploy pull_images w (λ _. h) (λ _. h)
        (λ content _. (
          import_filled-Steady k (record stack { content = content }) redeploy pull_images w f.0 f.1
              h,
          import_filled-Steady k (record stack { content = content }) redeploy pull_images
              (with_client d k stack.host_id w) f.0 f.1 h,
        ))
  handle-Steady (migrates k id target redeploy) w f h = migrate-Steady k id target redeploy w f h
  handle-Steady (starts_external k host_id name) w f h =
      on_host-cases d (SteadyAfter d) k host_id _ w (λ _. h)
        (λ client.
          start_project-cases d (SteadyAfter d) k host_id name client (λ u. u)
            (with_client d k host_id w) h h)
  handle-Steady (stops_external k host_id name) w f h =
      on_host-cases d (SteadyAfter d) k host_id _ w (λ _. h)
        (λ client.
          drop-Steady k name client false (λ u. (ok [], noted d shutdown host_id name u))
            (with_client d k host_id w) (λ u g. g) h)
  handle-Steady (removes_external k host_id name removes_volumes force) w f h =
      on_host-cases d (SteadyAfter d) k host_id _ w (λ _. h)
        (λ client.
          guarded-Steady k name removes_volumes force (λ u. (ok [], noted d deleted host_id name u))
            client (with_client d k host_id w) (λ u g. g) h)
  handle-Steady (restores k reason stack_id version_id) w f h =
      restore_version-Waits w.jobs k reason stack_id version_id w.kept h
  handle-Steady (overwrites k reason version current) w f h =
      overwrite-Waits w.jobs k reason version current w.kept (λ x. absurd (f x)) h
  handle-Steady (finishes k n) w f h = finish-Steady k n w f h

  -- If at the start each stored stack lies under its id, which is not empty, and has a job that runs
  -- where it is stored as deploying, this is so after any sequence of calls and ends of jobs, each of
  -- which is one step. The writes of a restore, of a deploy by id and of a start that deploys may also
  -- come later than the reads, if the stack was not read as deploying. The status of how a call or a job ends must be written, new ids be not empty, and no
  -- stack be handed in as deploying.
  pub handle_all-Steady :
      (calls : List Call) (w : World d)
      → All Fair calls
      → Steady d w
      → Steady d (handle_all d calls w)
  unfolding handle_all
  handle_all-Steady [] w f h = h
  handle_all-Steady (c ∷ calls) w (f, fs) h =
      handle_all-Steady calls (handle d c w) fs (handle-Steady c w f h)
