-- ===== src/Deploy/Lock.antt =====
-- biz/self_deploy_job.go: the files that make one deploy at a time. An operation that can fail for
-- reasons outside the program takes the outcome as an argument; `atomicWriteFile` leaves the old
-- content where it fails (see Files).
pub mod Stale
use Prim.Native.String.{◌++◌ as ◌<>◌}
use swirl_evo.Common.{
  ℕ, String, Bool, true, false, ◌||◌, ◌&&◌, not, ◌==◌, List, Option, none, some, string_eq,
  if◌then◌else◌,
}
use swirl_evo.Common.Int.{ℤ, is_zero, decimal_int}
use swirl_evo.Deploy.Job.{
  SelfDeployState, SelfDeployJob, failed, is_in_progress_phase, append_log_line,
  sidekick_container_name,
}

-- What a read of a file gives.
pub data Stored (A : Type 0) : Type 0 where
  absent unreadable : Stored A
  stored : A → Stored A

-- The directory of the feature: whether `.lock` exists, and what the two JSON files hold.
pub record StateDir : Type 0 where
  pub locked : Bool
  pub state : Stored SelfDeployState
  pub job : Stored SelfDeployJob

-- `writeSelfDeployState`, with whether it succeeded.
unfoldable pub write_state : Bool → SelfDeployState → StateDir → StateDir × Bool
write_state wrote st d = if wrote then (record d { state = stored st }, true) else (d, false)

unfoldable pub write_job : Bool → SelfDeployJob → StateDir → StateDir × Bool
write_job wrote job d = if wrote then (record d { job = stored job }, true) else (d, false)

-- `os.Remove(lockPath)`: where it fails the file stays.
unfoldable pub remove_lock : Bool → StateDir → StateDir
remove_lock removed d = if removed then record d { locked = false } else d

pub data Acquired : Type 0 where
  acquired lock_held lock_failed : Acquired

-- `acquireSelfDeployLock`, whose `O_EXCL` refuses a file that exists. `opens` says whether the
-- directory and the file can be made at all.
unfoldable pub acquire : Bool → StateDir → Acquired × StateDir
acquire opens d =
    if not opens
    then (lock_failed, d)
    else if d.locked
    then (lock_held, d)
    else (acquired, record d { locked = true })

-- What `ContainerInspect` says of the sidekick.
pub data Inspection : Type 0 where
  inspected : Bool → String → ℤ → Inspection
  no_state not_found inspect_failed : Inspection

unfoldable pub is_running : Inspection → Bool
is_running (inspected running status code) = running
is_running _ = false

-- Why an exited sidekick counts as lost.
exit_reason : String → ℤ → String
unfolding decimal_int
exit_reason name code =
    if is_zero code
    then "abandoned (sidekick "
      <> (name <> " exited cleanly without reporting state — check image entrypoint)")
    else "abandoned (sidekick "
      <> (name
          <> (" exited with code "
              <> (decimal_int code <> (" — see `docker logs " <> (name <> "`)")))))

unfoldable pub abandon_reason : String → Inspection → String
unfolding exit_reason
abandon_reason name (inspected running status code) =
    if status == "exited"
    then exit_reason name code
    else if status == "dead" || status == "removing"
    then "abandoned (sidekick " <> (name <> (" is in state \"" <> (status <> "\")")))
    else "abandoned (sidekick missing or exited)"
abandon_reason name no_state = "abandoned (sidekick missing or exited)"
abandon_reason name not_found = "abandoned (sidekick " <> (name <> " not found on daemon)")
abandon_reason name inspect_failed = "abandoned (sidekick missing or exited)"

-- What the outside world answers in one run of `reclaimStaleLock`.
pub record ReclaimAnswers : Type 0 where
  pub stat_ok : Bool
  pub has_client : Bool
  pub inspection : Inspection
  pub now : ℕ
  pub wrote : Bool
  pub removed : Bool

pub data Reclaim : Type 0 where
  untouched reclaimed reclaim_failed : Reclaim

module _ (stamp : ℕ → String) where
  -- The failed state that replaces the one of a lost sidekick.
  unfoldable pub abandoned_state : ReclaimAnswers → SelfDeployState → SelfDeployState
  unfolding abandon_reason
  abandoned_state a st =
      let reason = abandon_reason (sidekick_container_name st.job_id) a.inspection in
      record {
        job_id = st.job_id;
        phase = failed;
        started_at = st.started_at;
        finished_at = a.now;
        error = "self-deploy: " <> reason;
        log_tail = append_log_line st.log_tail (stamp a.now <> (" " <> reason));
        event_published = false;
      }

  abandon : ReclaimAnswers → SelfDeployState → StateDir → Reclaim × StateDir
  unfolding write_state remove_lock
  abandon a st d =
      let (d', wrote) = write_state a.wrote (abandoned_state a st) d in
      if not wrote
      then (reclaim_failed, d')
      else if a.removed
      then (reclaimed, remove_lock true d')
      else (reclaim_failed, d')

  reclaim_stored : ReclaimAnswers → SelfDeployState → StateDir → Reclaim × StateDir
  unfolding abandon remove_lock
  reclaim_stored a st d =
      if not (is_in_progress_phase st.phase)
      then (reclaimed, remove_lock a.removed d)
      else if st.job_id == "" || not a.has_client
      then (untouched, d)
      else if is_running a.inspection
      then (untouched, d)
      else abandon a st d

  -- `reclaimStaleLock`.
  unfoldable pub reclaim : ReclaimAnswers → StateDir → Reclaim × StateDir
  unfolding reclaim_stored
  reclaim a d =
      if not a.stat_ok
      then (reclaim_failed, d)
      else if not d.locked
      then (untouched, d)
      else elim d.state [
        | absent ↦ (reclaimed, remove_lock a.removed d)
        | unreadable ↦ (reclaimed, remove_lock a.removed d)
        | stored st ↦ reclaim_stored a st d
      ]
