-- ===== src/Deploy/Lifecycle.antt =====
-- cmd/deploy_agent/lifecycle.go: the sidekick's deploy, from the stop of the primary to its success or
-- the roll-back. The daemon answers the calls; `Course` is what the steps outside of it come upon. The
-- text of each line in the log is an argument, as `fmt` prints it.
pub mod Survives
pub mod Phases
mod Tests
use swirl_evo.Common.{
  ℕ, String, Bool, true, false, not, ◌&&◌, ◌||◌, ◌==◌, List, [], ◌∷◌, Option, none, some, Text,
  codes, text_eq, if◌then◌else◌,
}
use swirl_evo.Docker.{
  Docker, Reply, done, not_found, refused, Inspected, found, no_container, inspect_failed, bare,
}
use swirl_evo.Compose.Order.{Service}
use swirl_evo.Compose.Engine.{Checks, is_done, deploy_with_result, remove_except}
use swirl_evo.Deploy.Job.{SelfDeployJob, stopping, pulling, starting, health_check}
use swirl_evo.Deploy.StateWriter.{
  StateWriter, WriteOutcome, set_phase, logf, fail, succeed, mark_rolled_back, mark_recovery,
}

abbrev pub previous_container_name : Text
previous_container_name = codes "swirl-previous"

-- The lines that a deploy logs and the errors that it reports.
pub data Line : Type 0 where
  invalid_job no_client no_daemon cannot_stop cannot_rename : Line
  stopping_primary renaming_primary pulling_image using_cached deploying waiting_http
        waiting_docker :
      Line
  removing_previous cannot_remove_previous : Line
  pull_failed deploy_failed http_failed docker_failed : Line
  failed_because : Line → Line
  attempting_rollback cleanup_failed removed_new removing_leftover renaming_back starting_old
        waiting_old old_healthy rollback_failed :
      Line
  deploy_and_rollback_failed : Line → Line

pub record Course : Type 0 where
  pub job_is_valid : Bool
  pub has_client : Bool
  pub pings : Bool
  pub pulls : Bool
  pub has_image : Bool
  pub checks : Checks
  pub services : List Service
  pub answers_http : Bool
  -- `findSwirlContainerID`, and Docker's own health check of that container
  pub finds_container : Bool
  pub is_healthy : Bool
  pub old_answers : Bool
  pub now : ℕ
  pub outcome : WriteOutcome

pub data Ending : Type 0 where
  deployed not_begun not_renamed rolled_back in_recovery : Ending

-- The containers and the state file.
pub record World (d : Docker) : Type 0 where
  pub daemon : d.Daemon
  pub writer : StateWriter

-- `containerExists`: `none` for an error.
abbrev pub exists_of : Inspected → Option Bool
exists_of (found name) = some true
exists_of no_container = some false
exists_of inspect_failed = none

-- The three cases of `containerExists`: an error, a container, none.
abbrev pub by_existence {ℓ} : {A : Type ℓ} → Option Bool → A → A → A → A
by_existence none failed there gone = failed
by_existence (some true) failed there gone = there
by_existence (some false) failed there gone = gone

-- A call that takes a missing container for done.
abbrev pub is_gone : Reply → Bool
is_gone refused = false
is_gone _ = true

abbrev pub name_of : Inspected → Text
name_of (found name) = bare name
name_of _ = []

module _ (d : Docker) (stamp : ℕ → String) (say : Line → String) where
  module _ (k : Course) where
    abbrev note : Line → StateWriter → StateWriter
    note line sw = logf stamp k.now (say line) sw

    abbrev phase : String → StateWriter → StateWriter
    phase p sw = set_phase stamp k.now p sw

    abbrev failing : Line → StateWriter → StateWriter
    failing line sw = fail stamp k.outcome k.now (some (say line)) sw

    -- `renamePrimary`.
    unfoldable pub rename_primary : Text → Text → d.Daemon → Bool × d.Daemon
    rename_primary old_name new_name s =
        let (reply, s1) = d.remove false new_name s in
        let renamed = d.rename old_name new_name s1 in
        let direct = d.rename old_name new_name s in
        by_existence (exists_of (d.inspect new_name s)) (false, s)
          (if not (is_gone reply) then (false, s1) else (is_done renamed.0, renamed.1))
          (is_done direct.0, direct.1)

    -- `removePrevious`.
    unfoldable pub remove_previous : d.Daemon → Bool × d.Daemon
    remove_previous s =
        let (reply, s1) = d.remove false previous_container_name s in
        by_existence (exists_of (d.inspect previous_container_name s)) (false, s)
          (is_gone reply, s1) (true, s)

    -- `rollback` from the rename back on.
    rename_back : Text → World d → Bool × World d
    rename_back target w =
        let sw1 = note renaming_back w.writer in
        let (renamed, s1) = d.rename previous_container_name target w.daemon in
        let sw2 = note starting_old sw1 in
        let (started, s2) = d.start target s1 in
        let sw3 = note waiting_old sw2 in
        by_existence (exists_of (d.inspect previous_container_name w.daemon)) (false, w)
          (if not (is_done renamed)
            then (false, record { daemon = s1; writer = sw1 })
            else if not (is_done started)
            then (false, record { daemon = s2; writer = sw2 })
            else if not k.old_answers
            then (false, record { daemon = s2; writer = sw3 })
            else (true, record { daemon = s2; writer = note old_healthy sw3 }))
          (false, w)

    -- `rollback`.
    unfoldable pub rollback : Text → Text → World d → Bool × World d
    unfolding rename_back
    rollback stack_name original_name w =
        let sw1 = note attempting_rollback w.writer in
        let (removed, s1) = remove_except d stack_name (previous_container_name ∷ []) w.daemon in
        let sw2 = note (if removed then removed_new else cleanup_failed) sw1 in
        let sw3 = note removing_leftover sw2 in
        let (reply, s2) = d.remove false original_name s1 in
        let target = if original_name == [] then stack_name else original_name in
        let straight = rename_back target (record { daemon = s1; writer = sw2 }) in
        let cleared = rename_back target (record { daemon = s2; writer = sw3 }) in
        if original_name == []
        then straight
        else by_existence (exists_of (d.inspect original_name s1)) straight
            (if is_gone reply then cleared else (false, record { daemon = s2; writer = sw3 }))
            straight

    -- `handleDeployFailure`.
    unfoldable pub handle_deploy_failure : Bool → Text → Text → Line → World d → Ending × World d
    unfolding rollback
    handle_deploy_failure auto_rollback stack_name original_name cause w =
        let w1 = record w { writer = note (failed_because cause) w.writer } in
        let (is_back, w2) = rollback stack_name original_name w1 in
        let lost = say (deploy_and_rollback_failed cause) in
        if not auto_rollback
        then (
          in_recovery,
          record w1 { writer = mark_recovery stamp k.outcome k.now (some (say cause)) w1.writer },
        )
        else if is_back
        then (
          rolled_back,
          record w2 {
            writer = mark_rolled_back stamp k.outcome k.now (some (say cause)) w2.writer;
          },
        )
        else (
          in_recovery,
          record w2 {
            writer =
                mark_recovery stamp k.outcome k.now (some lost) (note rollback_failed w2.writer);
          },
        )

    -- `runDeploy` from the health check on.
    finish : SelfDeployJob → Text → World d → Ending × World d
    unfolding handle_deploy_failure remove_previous
    finish j original_name w =
        let stack = codes j.stack_name in
        let w1 = record w { writer = note waiting_http (phase health_check w.writer) } in
        let w2 = record w1 {
          writer = if k.finds_container then note waiting_docker w1.writer else w1.writer;
        } in
        let (gone, s3) = remove_previous w2.daemon in
        let sw3 = note removing_previous w2.writer in
        let sw4 = if gone then sw3 else note cannot_remove_previous sw3 in
        if not k.answers_http
        then handle_deploy_failure j.auto_rollback stack original_name http_failed w1
        else if k.finds_container && not k.is_healthy
        then handle_deploy_failure j.auto_rollback stack original_name docker_failed w2
        else (deployed, record { daemon = s3; writer = succeed stamp k.outcome k.now sw4 })

    -- `runDeploy` from the pull on.
    replace_primary : SelfDeployJob → Text → World d → Ending × World d
    unfolding finish handle_deploy_failure
    replace_primary j original_name w =
        let stack = codes j.stack_name in
        let w1 = record w { writer = note pulling_image (phase pulling w.writer) } in
        let sw1 : StateWriter = if k.pulls then w1.writer else note using_cached w1.writer in
        let sw2 = note deploying (phase starting sw1) in
        let (is_deployed, s2) =
          deploy_with_result d k.checks stack (previous_container_name ∷ []) k.services w1.daemon in
        let w2 : World d = record { daemon = s2; writer = sw2 } in
        if not (k.pulls || k.has_image)
        then handle_deploy_failure j.auto_rollback stack original_name pull_failed w1
        else if not is_deployed
        then handle_deploy_failure j.auto_rollback stack original_name deploy_failed w2
        else finish j original_name w2

    -- The name that a roll-back gives back: the one inspected, else the stack's.
    abbrev pub original_name_of : SelfDeployJob → d.Daemon → Text
    original_name_of j s =
        let inspected = name_of (d.inspect (codes j.primary_container) s) in
        if inspected == [] then codes j.stack_name else inspected

    -- `runDeploy` of a job that is not nil.
    unfoldable pub run_deploy : SelfDeployJob → World d → Ending × World d
    unfolding replace_primary rename_primary
    run_deploy j w =
        let primary = codes j.primary_container in
        let original_name = original_name_of j w.daemon in
        let sw1 = note stopping_primary (phase stopping w.writer) in
        let (stopped, s1) = d.stop primary w.daemon in
        let sw2 = note renaming_primary sw1 in
        let (renamed, s2) = rename_primary primary previous_container_name s1 in
        let s3 = (d.start primary s2).1 in
        if not k.job_is_valid
        then (not_begun, record w { writer = failing invalid_job w.writer })
        else if not k.has_client
        then (not_begun, record w { writer = failing no_client w.writer })
        else if not k.pings
        then (not_begun, record w { writer = failing no_daemon w.writer })
        else if not (is_gone stopped)
        then (not_begun, record { daemon = s1; writer = failing cannot_stop sw1 })
        else if not renamed
        then (not_renamed, record { daemon = s3; writer = failing cannot_rename sw2 })
        else replace_primary j original_name (record { daemon = s2; writer = sw2 })
