-- ===== src/Deploy/Agent/Reports.antt =====
-- The exit code of the sidekick agrees with the state that it leaves.
use swirl_evo.Common.{
  if-cases, ◌≡◌, ◌≢◌, ◌↔◌, refl, sym, ◌∙◌, ℕ, String, true, false, not, ◌==◌, ==_apart, some, arith,
  string_eq,
}
use swirl_evo.Common.Dict.{Dict}
use swirl_evo.Docker.{Docker}
use swirl_evo.Deploy.Job.{SelfDeployJob, SelfDeployState, success}
use swirl_evo.Deploy.Job as Job
use swirl_evo.Deploy.StateWriter.{StateWriter, written, snapshot_ring}
use swirl_evo.Deploy.StateWriter.Flush.{flush-st, close-disk}
use swirl_evo.Deploy.Lifecycle.{
  Line, Course, Ending, deployed, not_begun, not_renamed, rolled_back, in_recovery, World,
  run_deploy,
}
use swirl_evo.Deploy.Lifecycle.Phases.{phase_of, run_deploy-Ends}
use swirl_evo.Deploy.Agent.{Answers, Disk, exit_ok, exit_of, rotate_history, run_job}

-- The rotation leaves the phase and the id of the writer.
rotate_history-st :
    (stamp : ℕ → String) (k : Answers) (j : SelfDeployJob) (sw : StateWriter)
    (history : Dict String ℕ)
    → ((rotate_history k j sw history).0.st.phase ≡ sw.st.phase)
      × ((rotate_history k j sw history).0.st.job_id ≡ sw.st.job_id)
unfolding rotate_history
rotate_history-st stamp k j sw history =
    let P = λ (r : StateWriter × Dict String ℕ).
      (r.0.st.phase ≡ sw.st.phase) × (r.0.st.job_id ≡ sw.st.job_id) in
    let flushed = flush-st stamp k.rotate_outcome sw in
    if-cases P (j.id == "") _ _ (λ _. (refl, refl))
      (λ _.
        if-cases P (not k.makes_history) _ _ (λ _. (refl, refl))
          (λ _.
            if-cases P (not k.copies_files) _ _ (λ _. flushed)
              (λ _. if-cases P k.lists_history _ _ (λ _. flushed) (λ _. flushed))))

exit_of-phase :
    (k : Answers) (ending : Ending)
    → k.is_interrupted ≡ false
    → (exit_of k ending ≡ exit_ok) ↔ (phase_of ending ≡ success)
exit_of-phase k deployed e = (λ x. refl, λ x. rw e refl)
exit_of-phase k not_begun e =
    (λ x. absurd (ground (arith, e)), λ x. absurd (==_apart Job.failed success refl x))
exit_of-phase k not_renamed e =
    (λ x. absurd (ground (arith, e)), λ x. absurd (==_apart Job.failed success refl x))
exit_of-phase k rolled_back e =
    (λ x. absurd (ground (arith, e)), λ x. absurd (==_apart Job.rolled_back success refl x))
exit_of-phase k in_recovery e =
    (λ x. absurd (ground (arith, e)), λ x. absurd (==_apart Job.recovery success refl x))

-- The sidekick that is not interrupted exits with 0 just where the state that it leaves is a success of
-- its job, and leaves no lock. The writer must have the id of a job, its last write and the removal of the
-- lock must work; the other writes may fail.
pub run_job-reports :
    (d : Docker) (stamp : ℕ → String) (say : Line → String) (k : Answers) (course : Course)
    (j : SelfDeployJob) (sw : StateWriter) (s : Disk d)
    → sw.st.job_id ≢ ""
    → k.is_interrupted ≡ false
    → k.close_outcome ≡ written
    → k.removes_lock ≡ true
    → let r = run_job d stamp say k course j sw s in
      (st : SelfDeployState) × (r.1.state ≡ some st)
      × (st.job_id ≡ sw.st.job_id)
      × ((r.0 ≡ exit_ok) ↔ (st.phase ≡ success))
      × (r.1.is_locked ≡ false)
unfolding run_job
run_job-reports d stamp say k course j sw s named calm writes removes =
    let w : World d = record { daemon = s.daemon; writer = sw } in
    let r = run_deploy d stamp say course j w in
    let rotated = (rotate_history k j r.1.writer s.history).0 in
    let (ends, same) = run_deploy-Ends d stamp say course sw.st.job_id j w refl in
    let (phase, id) = rotate_history-st stamp k j r.1.writer s.history in
    let agrees = exit_of-phase k r.0 calm in
    (
      record rotated.st { log_tail = snapshot_ring rotated },
      rw writes (close-disk stamp rotated (λ e. named (sym same ∙ (sym id ∙ e)))),
      id ∙ same,
      (λ x. phase ∙ (ends ∙ agrees.0 x), λ x. agrees.1 (sym ends ∙ (sym phase ∙ x))),
      rw removes refl,
    )
