-- ===== src/Stack/Trace/Jobs/Handlers.antt =====
-- The calls and the jobs leave the rule that a stack that deploys has a job.
use swirl_evo.Common.{
  if-cases, ◌≡◌, ◌≢◌, refl, sym, subst, Bool, true, ◌==◌, ==_apart, ==_iff, ==_self, List, [], ◌∷◌,
  ◌++◌, Text, codes, arith, text_eq,
}
use swirl_evo.Docker.{Docker}
use swirl_evo.Stack.{ComposeStack}
use swirl_evo.Stack.Version.{snapshot_if_changed}
use swirl_evo.Stack.Manage.{
  Answers, Ending, Job, World, inactive, active, deploying, error, set_status, set_error,
  set_warnings, change, fresh, save_with_reason, save,
}
use swirl_evo.Stack.Manage.Env.{parse_env_file}
use swirl_evo.Stack.Manage.Deploys.{with_client, settle, job_of, deploy_on, deploy, run_deploy}
use swirl_evo.Stack.Manage.Cases.{
  save_with_reason-cases, deploy_on-cases, deploy-cases, run_engine-cases, run_deploy-cases,
  stamped, after_mirror, after_engine,
}
use swirl_evo.Stack.Trace.Jobs.Stored.{
  HasJob, Waits, Waits-replace, Waits-update, Waits-more, Waits-settled, Waits-stack_update,
}

-- What the writes of a call are to do: a new id is not empty, and the status of how a call ends is written.
abbrev pub Works : Answers → Type 0
Works k = (k.new_id ≢ []) × (k.wrote_outcome ≡ true)

-- A stack that is saved with the status of a deploy has a job.
abbrev pub Allowed : List Job → ComposeStack → Type 0
Allowed jobs stack = stack.status ≡ deploying → (stack.id ≢ []) × HasJob stack.id jobs

error-apart : error ≢ deploying
error-apart = ==_apart error deploying refl

pub active-apart : active ≢ deploying
active-apart = ==_apart active deploying refl

pub inactive-apart : inactive ≢ deploying
inactive-apart = ==_apart inactive deploying refl

HasJob-more :
    (id : Text) (jobs : List Job) (j : Job) → HasJob id jobs → HasJob id (jobs ++ (j ∷ []))
HasJob-more id [] j h = cc
HasJob-more id (i ∷ jobs) j h = ground (arith, h, HasJob-more id jobs j)

HasJob-last : (jobs : List Job) (j : Job) → HasJob j.id (jobs ++ (j ∷ []))
HasJob-last [] j = ground (arith, ==_self j.id)
HasJob-last (i ∷ jobs) j = ground (arith, HasJob-last jobs j)

HasJob-but :
    (id : Text) (jobs : List Job) (j : Job)
    → id ≢ j.id
    → HasJob id (jobs ++ (j ∷ []))
    → HasJob id jobs
HasJob-but id [] j apart h = absurd (ground (arith, h, apart, ==_iff j.id id))
HasJob-but id (i ∷ jobs) j apart h = ground (arith, h, HasJob-but id jobs j apart)

module _ (d : Docker) where
  abbrev pub Steady : World d → Type 0
  Steady w = Waits w.jobs w.kept.stacks

  abbrev pub SteadyAfter : Ending × World d → Type 0
  SteadyAfter r = Waits r.1.jobs r.1.kept.stacks

  pub save-Steady :
      (k : Answers) (reason : Text) (stack : ComposeStack) (w : World d)
      → k.new_id ≢ []
      → Allowed w.jobs stack
      → Steady w
      → SteadyAfter (save_with_reason d k reason stack w)
  unfolding snapshot_if_changed
  save-Steady k reason stack w new allowed h =
      let updated =
        Waits-stack_update w.jobs k.wrote_record (stamped d SteadyAfter k reason stack w)
          w.kept.stacks (λ x. (allowed x).1) h in
      save_with_reason-cases d SteadyAfter k reason stack w (λ _. h)
        (λ empty.
          Waits-replace w.jobs k.new_id (fresh d k stack) w.kept.stacks
            (
              refl,
              new,
              if-cases (λ (s : Text). s ≡ deploying → HasJob k.new_id w.jobs) (stack.status == [])
                  inactive stack.status (λ _ x. absurd (inactive-apart x))
                  (λ _ x. absurd ((allowed x).0 ((==_iff stack.id []).0 empty))),
            )
            h)
        (λ _ _. updated) (λ _ _. updated)

  -- A status and an error message that leave the rule with the jobs `rest`.
  settle-Steady :
      (wrote_error : Bool) (jobs : List Job) (id status message : Text) (w : World d)
      → status ≢ deploying
      → ((i : Text) → i ≢ id → HasJob i jobs → HasJob i w.jobs)
      → Waits jobs w.kept.stacks
      → Steady (settle d true wrote_error id status message w)
  unfolding settle change
  settle-Steady wrote_error jobs id status message w over keeps h =
      Waits-update w.jobs wrote_error id (set_error message) _ (λ old f. f)
        (Waits-settled jobs w.jobs id status w.kept.stacks over keeps h)

  -- The end of a call or of a job whose status is written.
  end-Steady :
      (k : Answers) (jobs : List Job) (id status message : Text) (w : World d)
      → Works k
      → status ≢ deploying
      → ((i : Text) → i ≢ id → HasJob i jobs → HasJob i w.jobs)
      → Waits jobs w.kept.stacks
      → Steady (settle d k.wrote_outcome k.wrote_error id status message w)
  end-Steady k jobs id status message w works over keeps h =
      subst (λ b. Steady (settle d b k.wrote_error id status message w)) (sym works.1)
        (settle-Steady k.wrote_error jobs id status message w over keeps h)

  -- The status of a deploy, with the job that is to come.
  begin-Waits :
      (k : Answers) (j : Job) (w : World d)
      → Steady w
      → Waits
          (w.jobs ++ (j ∷ []))
          (settle d k.wrote_status k.wrote_error j.id deploying [] w).kept.stacks
  unfolding settle change
  begin-Waits k j w h =
      Waits-update (w.jobs ++ (j ∷ [])) k.wrote_error j.id (set_error []) _ (λ old f. f)
        (Waits-update (w.jobs ++ (j ∷ [])) k.wrote_status j.id (set_status deploying) _
          (λ old (a, b, c). (a, b, λ _. HasJob-last w.jobs j))
          (Waits-more w.jobs (w.jobs ++ (j ∷ [])) w.kept.stacks
            (λ i has. HasJob-more i w.jobs j has) h))

  deploy_on-Steady :
      (k : Answers) (id : Text) (stack : ComposeStack) (pull_images : Bool) (client : Text)
      (w : World d)
      → Works k
      → Steady w
      → SteadyAfter (deploy_on d k id stack pull_images client w)
  unfolding job_of settle change
  deploy_on-Steady k id stack pull_images client w works h =
      let j = job_of k id stack pull_images client in
      let begun = begin-Waits k j w h in
      deploy_on-cases d SteadyAfter k id stack pull_images client w
        (end-Steady k w.jobs id error k.blocked_text w works error-apart (λ i apart has. has) h)
        (end-Steady k (w.jobs ++ (j ∷ [])) id error k.secrets_text
          (settle d k.wrote_status k.wrote_error id deploying [] w) works error-apart
          (λ i apart has. HasJob-but i w.jobs j apart has) begun)
        begun

  pub deploy-Steady :
      (k : Answers) (stack : ComposeStack) (pull_images : Bool) (w : World d)
      → Works k
      → Allowed w.jobs stack
      → Steady w
      → SteadyAfter (deploy d k stack pull_images w)
  unfolding save
  deploy-Steady k stack pull_images w works allowed h =
      let saved = save-Steady k (codes "save") stack w works.0 allowed h in
      deploy-cases d SteadyAfter k stack pull_images w (λ _. saved) (λ _. saved)
        (λ id client _.
          deploy_on-Steady k id stack pull_images client
            (with_client d k stack.host_id (save d k stack w).1) works saved)

  -- A job that is taken from `jobs`, so that `w.jobs` are left.
  pub run_deploy-Steady :
      (k : Answers) (jobs : List Job) (j : Job) (w : World d)
      → Works k
      → ((i : Text) → i ≢ j.id → HasJob i jobs → HasJob i w.jobs)
      → Waits jobs w.kept.stacks
      → Steady (run_deploy d k j w)
  unfolding settle change
  run_deploy-Steady k jobs j w works keeps h =
      let mirrored = after_mirror d Steady k j w in
      let warned =
        Waits-update jobs k.wrote_warnings j.id
          (set_warnings (k.prepare j.name j.content (parse_env_file j.env_file)).2) w.kept.stacks
          (λ old f. f) h in
      run_deploy-cases d Steady k j w
        (end-Steady k jobs j.id error k.mirror_text mirrored works error-apart keeps h)
        (run_engine-cases d Steady k j mirrored
          (end-Steady k jobs j.id active [] (after_engine d Steady k j mirrored) works active-apart
            keeps warned)
          (end-Steady k jobs j.id error k.deploy_text (after_engine d Steady k j mirrored) works
            error-apart keeps warned))
