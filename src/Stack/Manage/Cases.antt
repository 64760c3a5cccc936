-- ===== src/Stack/Manage/Cases.antt =====
-- The ways in which the save and the deploy of a stack end: a predicate that holds of each holds of the
-- call.
pub mod Drops
pub mod Travels
use swirl_evo.Common.{
  if-cases, Option-elim, ◌≡◌, refl, Bool, true, false, not, ◌||◌, ◌==◌, List, [], ◌∷◌, Option, none,
  some, Text, codes, text_eq, if◌then◌else◌,
}
use swirl_evo.Common.Dict.{lookup, replace}
use swirl_evo.Docker.{Docker}
use swirl_evo.Host.{Host}
use swirl_evo.Stack.{ComposeStack}
use swirl_evo.Stack.Version.{Stacks, snapshot_if_changed, stack_update}
use swirl_evo.Stack.Mirror.{mirror_actions_to_cache}
use swirl_evo.Compose.Engine.{deploy_with_result}
use swirl_evo.Stack.Manage.{
  Answers, Ending, Error, ok, failed, ids_required, store_failed, self_deploy_blocked,
  secrets_failed, created, updated, deployed, Job, World, Resolved, ready, unresolved,
  resolve_host_client, change, set_warnings, noted, with_stacks, fresh, create, update,
  save_with_reason, save, with_addons, injected_for, injected, mode_for_host, active, deploying,
  error,
}
use swirl_evo.Stack.Manage.Self.{check_self_deploy}
use swirl_evo.Stack.Manage.Env.{parse_env_file}
use swirl_evo.Stack.Manage.Deploys.{
  with_client, with_daemon, settle, queued, job_of, deploy_on, deploy_resolved, deploy_saved,
  deploy, run_engine, run_deploy,
}

module _ (d : Docker) (P : Ending × World d → Type 0) where
  module _ (k : Answers) (reason : Text) (stack : ComposeStack) (w : World d) where
    abbrev pub snapped : Stacks
    snapped = snapshot_if_changed k.version stack.id stack.content stack.env_file reason w.kept

    abbrev pub stamped : ComposeStack
    stamped = record stack { updated_at = k.now; updated_by = k.user }

    -- The world of an update, whether or not it could be written.
    abbrev pub after_update : World d
    after_update = record w {
      kept = record snapped { stacks = (stack_update k.wrote_record stamped snapped.stacks).1 };
    }

    pub save_with_reason-cases :
        ((e : Error) → P (failed e, w))
        → ((stack.id == []) ≡ true
            → P (
              ok k.new_id,
              noted d created stack.host_id stack.name
                  (with_stacks d (replace k.new_id (fresh d k stack) w.kept.stacks) w),
            ))
        → ((stack.id == []) ≡ false
            → (stack_update k.wrote_record stamped snapped.stacks).0 ≡ true
            → P (ok stack.id, noted d updated stack.host_id stack.name after_update))
        → ((stack.id == []) ≡ false → (e : Error) → P (failed e, after_update))
        → P (save_with_reason d k reason stack w)
    unfolding save_with_reason create update
    save_with_reason-cases fails creates updates unwritten =
        if-cases P (stack.host_id == [] || stack.name == []) _ _ (λ _. fails ids_required)
          (λ _.
            if-cases P (stack.id == []) _ _
              (λ new. if-cases P k.wrote_record _ _ (λ _. creates new) (λ _. fails store_failed))
              (λ old.
                if-cases P (stack_update k.wrote_record stamped snapped.stacks).0 _ _
                  (λ y. updates old y) (λ _. unwritten old store_failed)))

  pub with_addons-cases :
      (k : Answers) (has_addon : Bool) (next : Text → ComposeStack → World d → Ending × World d)
      (stack : ComposeStack) (w : World d)
      → ((e : Error) → P (failed e, w))
      → ((reason content : Text) → P (next reason (record stack { content = content }) w))
      → P (with_addons d k has_addon next stack w)
  with_addons-cases k has_addon next stack w fails goes =
      if-cases P has_addon _ _ (λ _. moded (mode_for_host k stack.host_id w.bucket))
        (λ _. goes (codes "save") stack.content)
    where
      filled : (o : Option Text) → P (injected d k next stack w o)
      filled none = fails _
      filled (some content) =
          if-cases P (content == stack.content) _ _ (λ _. goes _ stack.content)
            (λ _. goes _ content)

      moded : (o : Option Text) → P (injected_for d k next stack w o)
      moded none = fails _
      moded (some mode) = filled (k.inject stack.content mode)

  pub deploy_on-cases :
      (k : Answers) (id : Text) (stack : ComposeStack) (pull_images : Bool) (client : Text)
      (w : World d)
      → P (
        failed self_deploy_blocked,
        settle d k.wrote_outcome k.wrote_error id error k.blocked_text w,
      )
      → P (
        failed secrets_failed,
        settle d k.wrote_outcome k.wrote_error id error k.secrets_text
            (settle d k.wrote_status k.wrote_error id deploying [] w),
      )
      → P (
        ok id,
        queued d
            (job_of k id stack pull_images client)
            (settle d k.wrote_status k.wrote_error id deploying [] w),
      )
      → P (deploy_on d k id stack pull_images client w)
  unfolding deploy_on
  deploy_on-cases k id stack pull_images client w blocked unready begun =
      if-cases P _ _ _ (λ _. blocked)
        (λ _. if-cases P (not k.hook_is_ready) _ _ (λ _. unready) (λ _. begun))

  pub deploy-cases :
      (k : Answers) (stack : ComposeStack) (pull_images : Bool) (w : World d)
      → let w1 = (save d k stack w).1 in
        ((e : Error) → P (failed e, w1))
        → ((e : Error) → P (failed e, with_client d k stack.host_id w1))
        → ((id client : Text)
            → (save d k stack w).0 ≡ ok id
            → P (deploy_on d k id stack pull_images client (with_client d k stack.host_id w1)))
        → P (deploy d k stack pull_images w)
  unfolding deploy
  deploy-cases k stack pull_images w fails unreached goes = saved (save d k stack w).0 refl
    where
      w1 : World d
      w1 = (save d k stack w).1

      resolved :
          (id : Text) (r : Resolved)
          → (save d k stack w).0 ≡ ok id
          → P (deploy_resolved d k id stack pull_images r (with_client d k stack.host_id w1))
      resolved id (unresolved e) s = unreached e
      resolved id (ready client host) s = goes id client s

      saved :
          (r : Ending)
          → (save d k stack w).0 ≡ r
          → P (deploy_saved d k stack pull_images r (save d k stack w).1)
      saved (failed e) s = fails e
      saved (ok id) s = resolved id (resolve_host_client k stack.host_id w1.bucket w1.clients) s

module _ (d : Docker) (P : World d → Type 0) (k : Answers) (j : Job) where
  -- The daemon behind the engine's deploy, and the world with it and the warnings.
  abbrev pub engine_end : World d → Bool × d.Daemon
  engine_end w =
      let p = k.prepare j.name j.content (parse_env_file j.env_file) in
      deploy_with_result d (record p.0 { pull_images = j.pull_images }) j.name [] p.1
        (w.daemons j.client)

  abbrev pub after_engine : World d → World d
  after_engine w =
      let p = k.prepare j.name j.content (parse_env_file j.env_file) in
      change d k.wrote_warnings j.id (set_warnings p.2) (with_daemon d j.client (engine_end w).1 w)

  abbrev pub after_mirror : World d → World d
  after_mirror w =
      with_daemon d j.client
        (mirror_actions_to_cache d k.get_auth j.pull_images j.actions (w.daemons j.client)).2 w

  pub run_engine-cases :
      (w : World d)
      → P (
          noted d deployed j.host_id j.name
            (settle d k.wrote_outcome k.wrote_error j.id active [] (after_engine w)))
      → P (settle d k.wrote_outcome k.wrote_error j.id error k.deploy_text (after_engine w))
      → P (run_engine d k j w)
  unfolding run_engine
  run_engine-cases w succeeds fails = if-cases P (engine_end w).0 _ _ (λ _. succeeds) (λ _. fails)

  pub run_deploy-cases :
      (w : World d)
      → P (settle d k.wrote_outcome k.wrote_error j.id error k.mirror_text (after_mirror w))
      → P (run_engine d k j (after_mirror w))
      → P (run_deploy d k j w)
  unfolding run_deploy
  run_deploy-cases w unmirrored goes =
      if-cases P
        (mirror_actions_to_cache d k.get_auth j.pull_images j.actions (w.daemons j.client)).0 _ _
        (λ _. goes) (λ _. unmirrored)
