-- ===== src/Stack/Manage/Deploys.antt =====
-- `Deploy` of biz/compose_stack.go, up to the goroutine that it starts, and `runDeploy`, which the
-- goroutine runs. A job takes effect at its end; the secrets that the hook writes are left out.
use swirl_evo.Common.{
  Bool, not, ◌==◌, List, [], ◌∷◌, ◌++◌, none, some, Text, text_eq, if◌then◌else◌,
}
use swirl_evo.Docker.{Docker}
use swirl_evo.Compose.Engine.{deploy_with_result}
use swirl_evo.Stack.{ComposeStack}
use swirl_evo.Stack.Rewrite.{RewriteAction, Rewritten, build_rewrite_input, rewrite_images}
use swirl_evo.Stack.Mirror.{mirror_actions_to_cache}
use swirl_evo.Stack.Manage.{
  Answers, Ending, ok, failed, self_deploy_blocked, secrets_failed, deployed, Job, World, Resolved,
  ready, unresolved, resolve_host_client, clients_after, active, deploying, error, set_status,
  set_error, set_warnings, change, noted, save, with_addons, mode_for_host,
}
use swirl_evo.Stack.Manage.Self.{check_self_deploy}
use swirl_evo.Stack.Manage.Env.{parse_env_file}

abbrev pub as_written : Text → Rewritten → Text × List RewriteAction
as_written content r = if r.is_written then (r.content, r.actions) else (content, [])

-- The content that the engine gets, and the images to mirror.
unfoldable pub effective : Answers → ComposeStack → Text × List RewriteAction
unfolding rewrite_images
effective k stack = elim k.extract [
  | none ↦ (stack.content, [])
  | some host_extract ↦ as_written stack.content (
      rewrite_images k.unmarshal k.marshal k.parse_reference
        (build_rewrite_input stack host_extract k.registry_cache) stack.content)
]

unfoldable pub job_of : Answers → Text → ComposeStack → Bool → Text → Job
unfolding effective
job_of k id stack pull_images client = record {
  id = id;
  host_id = stack.host_id;
  name = stack.name;
  content = (effective k stack).0;
  env_file = stack.env_file;
  pull_images = pull_images;
  client = client;
  actions = (effective k stack).1;
}

module _ (d : Docker) where
  abbrev pub with_client : Answers → Text → World d → World d
  with_client k host_id w = record w { clients = clients_after k host_id w.bucket w.clients }

  abbrev pub with_daemon : Text → d.Daemon → World d → World d
  with_daemon client s w = record w {
    daemons = λ other. if other == client then s else w.daemons other;
  }

  -- A status with its error message.
  unfoldable pub settle : Bool → Bool → Text → Text → Text → World d → World d
  unfolding change
  settle wrote wrote_error id status message w =
      change d wrote_error id (set_error message) (change d wrote id (set_status status) w)

  abbrev pub queued : Job → World d → World d
  queued j w = record w { jobs = w.jobs ++ (j ∷ []) }

  -- `Deploy` from the check of the own container on.
  unfoldable pub deploy_on :
      Answers → Text → ComposeStack → Bool → Text → World d → Ending × World d
  unfolding settle check_self_deploy job_of
  deploy_on k id stack pull_images client w =
      let rejected = settle k.wrote_outcome k.wrote_error id error k.blocked_text w in
      let begun = settle k.wrote_status k.wrote_error id deploying [] w in
      let unready = settle k.wrote_outcome k.wrote_error id error k.secrets_text begun in
      let services = k.services_of stack.name stack.content in
      if check_self_deploy d k.self_id stack.name services (w.daemons client)
      then (failed self_deploy_blocked, rejected)
      else if not k.hook_is_ready
      then (failed secrets_failed, unready)
      else (ok id, queued (job_of k id stack pull_images client) begun)

  abbrev pub deploy_resolved :
      Answers → Text → ComposeStack → Bool → Resolved → World d → Ending × World d
  deploy_resolved k id stack pull_images (unresolved e) w = (failed e, w)
  deploy_resolved k id stack pull_images (ready client host) w =
      deploy_on k id stack pull_images client w

  abbrev pub deploy_saved : Answers → ComposeStack → Bool → Ending → World d → Ending × World d
  deploy_saved k stack pull_images (failed e) w = (failed e, w)
  deploy_saved k stack pull_images (ok id) w =
      deploy_resolved k id stack pull_images
        (resolve_host_client k stack.host_id w.bucket w.clients) (with_client k stack.host_id w)

  unfoldable pub deploy : Answers → ComposeStack → Bool → World d → Ending × World d
  unfolding save deploy_on resolve_host_client clients_after
  deploy k stack pull_images w =
      deploy_saved k stack pull_images (save d k stack w).0 (save d k stack w).1

  unfoldable pub deploy_with_addons :
      Answers → Bool → ComposeStack → Bool → World d → Ending × World d
  unfolding deploy mode_for_host
  deploy_with_addons k has_addon stack pull_images w =
      with_addons d k has_addon (λ reason s. deploy k s pull_images) stack w

  -- `runDeploy` behind the mirror.
  unfoldable pub run_engine : Answers → Job → World d → World d
  unfolding deploy_with_result settle change parse_env_file
  run_engine k j w =
      let (checks, services, warnings) = k.prepare j.name j.content (parse_env_file j.env_file) in
      let (deploys, s) =
        deploy_with_result d (record checks { pull_images = j.pull_images }) j.name [] services
          (w.daemons j.client) in
      let w1 = change d k.wrote_warnings j.id (set_warnings warnings) (with_daemon j.client s w) in
      if deploys
      then noted d deployed j.host_id j.name
          (settle k.wrote_outcome k.wrote_error j.id active [] w1)
      else settle k.wrote_outcome k.wrote_error j.id error k.deploy_text w1

  unfoldable pub run_deploy : Answers → Job → World d → World d
  unfolding mirror_actions_to_cache run_engine settle
  run_deploy k j w =
      let (mirrors, out, s) =
        mirror_actions_to_cache d k.get_auth j.pull_images j.actions (w.daemons j.client) in
      let w1 = with_daemon j.client s w in
      let ran = run_engine k j w1 in
      if mirrors then ran else settle k.wrote_outcome k.wrote_error j.id error k.mirror_text w1
