-- ===== src/Deploy/Lifecycle/Phases.antt =====
-- The phase in which a deploy leaves the state file.
use swirl_evo.Common.{
  false, ◌≡◌, ◌≢◌, refl, sym, ◌∙◌, ℕ, String, Bool, not, ◌&&◌, ◌||◌, ◌==◌, if-cases, [], ◌∷◌, some,
  Text, codes, text_eq, if◌then◌else◌,
}
use swirl_evo.Docker.{Docker}
use swirl_evo.Compose.Engine.{is_done, deploy_with_result, remove_except}
use swirl_evo.Deploy.Job.{
  SelfDeployState, SelfDeployJob, success, failed, recovery, stopping, pulling, starting,
  health_check,
}
use swirl_evo.Deploy.Job
use swirl_evo.Deploy.StateWriter.{
  StateWriter, written, set_phase, logf, append_log, fail, succeed, mark_rolled_back, mark_recovery,
  close, snapshot_ring,
}
use swirl_evo.Deploy.StateWriter.Flush.{flush-st, close-disk}
use swirl_evo.Deploy.Lifecycle.{
  invalid_job, no_client, no_daemon, cannot_stop, cannot_rename, stopping_primary, renaming_primary,
  pulling_image, using_cached, deploying, waiting_http, waiting_docker, removing_previous,
  cannot_remove_previous, pull_failed, deploy_failed, http_failed, docker_failed,
  previous_container_name, original_name_of, Line, failed_because, Course, Ending, deployed,
  not_begun, not_renamed, rolled_back, in_recovery, World, exists_of, is_gone, rename_primary,
  remove_previous, rename_back, rollback, handle_deploy_failure, finish, replace_primary,
  run_deploy, note, phase, failing,
}
use swirl_evo.Deploy.Lifecycle.Survives.{existence-cases}

-- The phase that stands for an ending.
abbrev pub phase_of : Ending → String
phase_of deployed = success
phase_of not_begun = failed
phase_of not_renamed = failed
phase_of rolled_back = Job.rolled_back
phase_of in_recovery = recovery

module _ (d : Docker) (stamp : ℕ → String) (say : Line → String) (k : Course) (id : String) where
  abbrev pub IsOf : World d → Type 0
  IsOf w = w.writer.st.job_id ≡ id

  abbrev pub Ends : Ending × World d → Type 0
  Ends r = (r.1.writer.st.phase ≡ phase_of r.0) × IsOf r.1

  failing-Ends :
      (line : Line) (sw : StateWriter)
      → sw.st.job_id ≡ id
      → ((failing d stamp say k line sw).st.phase ≡ failed)
        × ((failing d stamp say k line sw).st.job_id ≡ id)
  unfolding fail append_log
  failing-Ends line sw h = let (a, b) = flush-st stamp k.outcome _ in (a, b ∙ h)

  succeed-Ends :
      (sw : StateWriter)
      → sw.st.job_id ≡ id
      → ((succeed stamp k.outcome k.now sw).st.phase ≡ success)
        × ((succeed stamp k.outcome k.now sw).st.job_id ≡ id)
  unfolding succeed append_log
  succeed-Ends sw h = let (a, b) = flush-st stamp k.outcome _ in (a, b ∙ h)

  rolled_back-Ends :
      (reason : String) (sw : StateWriter)
      → sw.st.job_id ≡ id
      → ((mark_rolled_back stamp k.outcome k.now (some reason) sw).st.phase ≡ Job.rolled_back)
        × ((mark_rolled_back stamp k.outcome k.now (some reason) sw).st.job_id ≡ id)
  unfolding mark_rolled_back append_log
  rolled_back-Ends reason sw h = let (a, b) = flush-st stamp k.outcome _ in (a, b ∙ h)

  recovery-Ends :
      (reason : String) (sw : StateWriter)
      → sw.st.job_id ≡ id
      → ((mark_recovery stamp k.outcome k.now (some reason) sw).st.phase ≡ recovery)
        × ((mark_recovery stamp k.outcome k.now (some reason) sw).st.job_id ≡ id)
  unfolding mark_recovery append_log
  recovery-Ends reason sw h = let (a, b) = flush-st stamp k.outcome _ in (a, b ∙ h)

  rename_back-IsOf :
      (target : Text) (w : World d) → IsOf w → IsOf (rename_back d stamp say k target w).1
  unfolding rename_back logf append_log
  rename_back-IsOf target w h =
      existence-cases P (exists_of (d.inspect previous_container_name w.daemon)) _ _ _ h
        (if-cases P (not (is_done (d.rename previous_container_name target w.daemon).0)) _ _
          (λ _. h)
          (λ _.
            if-cases P
              (not
                (is_done (d.start target (d.rename previous_container_name target w.daemon).1).0))
              _ _ (λ _. h) (λ _. if-cases P (not k.old_answers) _ _ (λ _. h) (λ _. h))))
        h
    where
      P : Bool × World d → Type 0
      P r = IsOf r.1

  rollback-IsOf :
      (stack target : Text) (w : World d) → IsOf w → IsOf (rollback d stamp say k stack target w).1
  unfolding rollback logf append_log
  rollback-IsOf stack target w h =
      if-cases P (target == []) _ _ (λ _. rename_back-IsOf _ _ h)
        (λ _.
          existence-cases P
            (exists_of
              (d.inspect target (remove_except d stack (previous_container_name ∷ []) w.daemon).1))
            _ _ _ (rename_back-IsOf _ _ h)
            (if-cases P
              (is_gone
                (d.remove false target
                  (remove_except d stack (previous_container_name ∷ []) w.daemon).1).0)
              _ _ (λ _. rename_back-IsOf _ _ h) (λ _. h))
            (rename_back-IsOf _ _ h))
    where
      P : Bool × World d → Type 0
      P r = IsOf r.1

  handle_deploy_failure-Ends :
      (auto_rollback : Bool) (stack target : Text) (cause : Line) (w : World d)
      → IsOf w
      → Ends (handle_deploy_failure d stamp say k auto_rollback stack target cause w)
  unfolding handle_deploy_failure logf append_log
  handle_deploy_failure-Ends auto_rollback stack target cause w h =
      let w1 : World d = record w { writer = note d stamp say k (failed_because cause) w.writer } in
      let back = rollback-IsOf stack target w1 h in
      if-cases Ends (not auto_rollback) _ _ (λ _. recovery-Ends _ _ h)
        (λ _.
          if-cases Ends (rollback d stamp say k stack target w1).0 _ _
            (λ _. rolled_back-Ends _ _ back) (λ _. recovery-Ends _ _ back))

  either :
      (b : Bool) (x y : StateWriter)
      → x.st.job_id ≡ id
      → y.st.job_id ≡ id
      → (if b then x else y).st.job_id ≡ id
  either b x y p q = if-cases (λ (sw : StateWriter). sw.st.job_id ≡ id) b x y (λ _. p) (λ _. q)

  note-IsOf :
      (line : Line) (sw : StateWriter)
      → sw.st.job_id ≡ id
      → (note d stamp say k line sw).st.job_id ≡ id
  unfolding logf append_log
  note-IsOf line sw h = h

  phase-IsOf :
      (p : String) (sw : StateWriter)
      → sw.st.job_id ≡ id
      → (phase d stamp say k p sw).st.job_id ≡ id
  unfolding set_phase append_log
  phase-IsOf p sw h = h

  finish-Ends :
      (j : SelfDeployJob) (target : Text) (w : World d)
      → IsOf w
      → Ends (finish d stamp say k j target w)
  unfolding finish
  finish-Ends j target w h =
      let stack = codes j.stack_name in
      let w1 : World d = record w {
        writer = note d stamp say k waiting_http (phase d stamp say k health_check w.writer);
      } in
      let w2 : World d = record w1 {
        writer =
            if k.finds_container then note d stamp say k waiting_docker w1.writer else w1.writer;
      } in
      let h1 : IsOf w1 = note-IsOf waiting_http _ (phase-IsOf health_check w.writer h) in
      let h2 : IsOf w2 =
        either k.finds_container _ w1.writer (note-IsOf waiting_docker w1.writer h1) h1 in
      let sw3 = note d stamp say k removing_previous w2.writer in
      let h3 = note-IsOf removing_previous w2.writer h2 in
      let (gone, s3) = remove_previous d stamp say k w2.daemon in
      let sw4 : StateWriter = if gone then sw3 else note d stamp say k cannot_remove_previous sw3 in
      let h4 =
        either gone sw3 (note d stamp say k cannot_remove_previous sw3) h3
          (note-IsOf cannot_remove_previous sw3 h3) in
      if-cases Ends (not k.answers_http)
        (handle_deploy_failure d stamp say k j.auto_rollback stack target http_failed w1)
        (if k.finds_container && not k.is_healthy
          then handle_deploy_failure d stamp say k j.auto_rollback stack target docker_failed w2
          else (deployed, record { daemon = s3; writer = succeed stamp k.outcome k.now sw4 }))
        (λ _. handle_deploy_failure-Ends j.auto_rollback stack target http_failed w1 h1)
        (λ _.
          if-cases Ends (k.finds_container && not k.is_healthy)
            (handle_deploy_failure d stamp say k j.auto_rollback stack target docker_failed w2)
            (deployed, record { daemon = s3; writer = succeed stamp k.outcome k.now sw4 })
            (λ _. handle_deploy_failure-Ends j.auto_rollback stack target docker_failed w2 h2)
            (λ _. succeed-Ends sw4 h4))

  replace_primary-Ends :
      (j : SelfDeployJob) (target : Text) (w : World d)
      → IsOf w
      → Ends (replace_primary d stamp say k j target w)
  unfolding replace_primary
  replace_primary-Ends j target w h =
      let stack = codes j.stack_name in
      let w1 : World d = record w {
        writer = note d stamp say k pulling_image (phase d stamp say k pulling w.writer);
      } in
      let h1 : IsOf w1 = note-IsOf pulling_image _ (phase-IsOf pulling w.writer h) in
      let sw1 : StateWriter =
        if k.pulls then w1.writer else note d stamp say k using_cached w1.writer in
      let g1 = either k.pulls w1.writer _ h1 (note-IsOf using_cached w1.writer h1) in
      let sw2 = note d stamp say k deploying (phase d stamp say k starting sw1) in
      let (is_deployed, s2) =
        deploy_with_result d k.checks stack (previous_container_name ∷ []) k.services w1.daemon in
      let w2 : World d = record { daemon = s2; writer = sw2 } in
      let h2 : IsOf w2 = note-IsOf deploying _ (phase-IsOf starting sw1 g1) in
      let late =
        if not is_deployed
        then handle_deploy_failure d stamp say k j.auto_rollback stack target deploy_failed w2
        else finish d stamp say k j target w2 in
      if-cases Ends (not (k.pulls || k.has_image))
        (handle_deploy_failure d stamp say k j.auto_rollback stack target pull_failed w1) late
        (λ _. handle_deploy_failure-Ends j.auto_rollback stack target pull_failed w1 h1)
        (λ _.
          if-cases Ends (not is_deployed)
            (handle_deploy_failure d stamp say k j.auto_rollback stack target deploy_failed w2)
            (finish d stamp say k j target w2)
            (λ _. handle_deploy_failure-Ends j.auto_rollback stack target deploy_failed w2 h2)
            (λ _. finish-Ends j target w2 h2))

  pub run_deploy-Ends :
      (j : SelfDeployJob) (w : World d) → IsOf w → Ends (run_deploy d stamp say k j w)
  unfolding run_deploy
  run_deploy-Ends j w h =
      let i = codes j.primary_container in
      let sw1 = note d stamp say k stopping_primary (phase d stamp say k stopping w.writer) in
      let h1 = note-IsOf stopping_primary _ (phase-IsOf stopping w.writer h) in
      let sw2 = note d stamp say k renaming_primary sw1 in
      let h2 = note-IsOf renaming_primary sw1 h1 in
      let r = rename_primary d stamp say k i previous_container_name (d.stop i w.daemon).1 in
      let w2 : World d = record { daemon = r.1; writer = sw2 } in
      if-cases Ends (not k.job_is_valid) _ _ (λ _. failing-Ends invalid_job w.writer h)
        (λ _.
          if-cases Ends (not k.has_client) _ _ (λ _. failing-Ends no_client w.writer h)
            (λ _.
              if-cases Ends (not k.pings) _ _ (λ _. failing-Ends no_daemon w.writer h)
                (λ _.
                  if-cases Ends (not (is_gone (d.stop i w.daemon).0)) _ _
                    (λ _. failing-Ends cannot_stop sw1 h1)
                    (λ _.
                      if-cases Ends (not r.0) _ _ (λ _. failing-Ends cannot_rename sw2 h2)
                        (λ _.
                          replace_primary-Ends j (original_name_of d stamp say k j w.daemon) w2
                            h2)))))

-- However a deploy for a named job goes and whichever of its writes fail, a `Close` whose write succeeds
-- leaves the phase in state.json that stands for the way it ended.
pub run_deploy-phase :
    (d : Docker) (stamp : ℕ → String) (say : Line → String) (k : Course) (j : SelfDeployJob)
    (w : World d)
    → w.writer.st.job_id ≢ ""
    → let r = run_deploy d stamp say k j w in
      (st : SelfDeployState) × ((close written r.1.writer).disk ≡ some st)
      × (st.phase ≡ phase_of r.0)
      × (st.job_id ≡ w.writer.st.job_id)
run_deploy-phase d stamp say k j w named =
    let sw = (run_deploy d stamp say k j w).1.writer in
    let (ends, same) = run_deploy-Ends d stamp say k w.writer.st.job_id j w refl in
    (
      record sw.st { log_tail = snapshot_ring sw },
      close-disk stamp sw (λ e. named (sym same ∙ e)),
      ends,
      same,
    )
