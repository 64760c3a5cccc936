-- ===== src/Deploy/Primary.antt =====
-- biz/self_deploy.go: what the primary does with the state directory: TriggerDeploy, ResetLock,
-- Status with its audit event, and the watchdog of a sidekick's boot. What `prepareJob` makes, the
-- daemon's answers, the clock and the outcome of each write are arguments.
pub mod Exclusive
pub mod Audit
use Prim.Native.String.{◌++◌ as ◌<>◌}
use swirl_evo.Common.{
  ℕ, String, Bool, true, false, ◌||◌, ◌&&◌, not, ◌==◌, List, [], ◌∷◌, ◌++◌, select, Option, none,
  some, string_eq, if◌then◌else◌,
}
use swirl_evo.Deploy.Job.{
  SelfDeployState, SelfDeployJob, pending, failed, success, recovery, rolled_back,
  is_in_progress_phase, append_log_line, sidekick_container_name,
}
use swirl_evo.Deploy.Lock.{
  StateDir, Stored, absent, unreadable, stored, write_state, write_job, remove_lock, acquired,
  lock_held, lock_failed, acquire, Inspection, not_found, inspect_failed, is_running,
  ReclaimAnswers, Reclaim, untouched, reclaimed, reclaim_failed, reclaim,
}

pub data EventAction : Type 0 where
  deploy_start deploy_success deploy_failure deploy_reset : EventAction

pub record Event : Type 0 where
  pub action : EventAction
  pub job_id : String
  pub image : String
  pub user : Option String

-- A container with the sidekick's label.
pub record Sidekick : Type 0 where
  pub name : String
  pub running : Bool

pub record Primary : Type 0 where
  pub dir : StateDir
  pub events : List Event
  pub sidekicks : List Sidekick
  pub stack_error : String → String

unfoldable pub emit : EventAction → String → String → Option String → Primary → Primary
emit action job_id image user w = record w {
  events = w.events ++ record { action = action; job_id = job_id; image = image; user = user } ∷ [];
}

unfoldable pub clear_source_stack_error : Bool → String → Primary → Primary
clear_source_stack_error updated id w =
    if id == ""
    then w
    else if updated
    then record w { stack_error = λ k. if k == id then "" else w.stack_error k }
    else w

-- `cleanupExitedSidekicks`; `removable` says of which containers the daemon grants the removal.
unfoldable pub cleanup_exited_sidekicks : Bool → (String → Bool) → Primary → Primary
cleanup_exited_sidekicks listed removable w =
    if listed
    then record w { sidekicks = select (λ c. c.running || not (removable c.name)) w.sidekicks }
    else w

pub data Triggered : Type 0 where
  prepare_failed blocked trigger_failed : Triggered
  started : SelfDeployJob → Triggered

pub record TriggerAnswers : Type 0 where
  pub prepared : Option SelfDeployJob
  pub user : Option String
  pub first_client : Bool
  pub reclaiming : ReclaimAnswers
  pub error_updated : Bool
  pub opens : Bool
  pub job_wrote : Bool
  pub state_wrote : Bool
  pub second_client : Bool
  pub listed : Bool
  pub removable : String → Bool
  pub spawn_error : Option String
  pub fail_wrote : Bool
  pub released : Bool
  pub now : ℕ
  pub fail_now : ℕ

abbrev pub created_by : Option String → SelfDeployJob → SelfDeployJob
created_by none job = job
created_by (some name) job = record job { created_by = name }

abbrev pub initial_state : ℕ → SelfDeployJob → SelfDeployState
initial_state now job = record {
  job_id = job.id;
  phase = pending;
  started_at = now;
  finished_at = 0;
  error = "";
  log_tail = [];
  event_published = false;
}

abbrev pub spawn_failed_state : TriggerAnswers → SelfDeployJob → String → SelfDeployState
spawn_failed_state a job err = record {
  job_id = job.id;
  phase = failed;
  started_at = a.now;
  finished_at = a.fail_now;
  error = err;
  log_tail = [];
  event_published = false;
}

-- The deferred `release` of a run that spawned nothing.
release : TriggerAnswers → Primary → Primary
unfolding remove_lock
release a w = record w { dir = remove_lock a.released w.dir }

spawn : TriggerAnswers → SelfDeployJob → Primary → Triggered × Primary
unfolding release emit write_state
spawn a job w = elim a.spawn_error [
  | none ↦ (
    started job,
    emit deploy_start job.id job.target_image_tag a.user (record w {
      sidekicks = record { name = sidekick_container_name job.id; running = true } ∷ w.sidekicks;
    }),
  )
  | some err ↦ (
    trigger_failed,
    release a (
        emit deploy_failure job.id job.target_image_tag a.user
          (record w { dir = (write_state a.fail_wrote (spawn_failed_state a job err) w.dir).0 })),
  )
]

-- TriggerDeploy once it holds the lock.
trigger_locked : TriggerAnswers → SelfDeployJob → Primary → Triggered × Primary
unfolding spawn release write_job write_state cleanup_exited_sidekicks
trigger_locked a job w =
    let (with_job, job_ok) = write_job a.job_wrote job w.dir in
    let (with_state, state_ok) = write_state a.state_wrote (initial_state a.now job) with_job in
    if not job_ok
    then (trigger_failed, release a (record w { dir = with_job }))
    else if not state_ok || not a.second_client
    then (trigger_failed, release a (record w { dir = with_state }))
    else spawn a job (cleanup_exited_sidekicks a.listed a.removable (record w { dir = with_state }))

module _ (stamp : ℕ → String) where
  -- The part before the lock: a best-effort reclaim, and the stack's old error.
  before_lock : TriggerAnswers → SelfDeployJob → Primary → Primary
  unfolding clear_source_stack_error
  before_lock a job w = clear_source_stack_error a.error_updated job.source_stack_id (
      if a.first_client
      then record w { dir = (reclaim stamp (record a.reclaiming { has_client = true }) w.dir).1 }
      else w)

  trigger_job : TriggerAnswers → SelfDeployJob → Primary → Triggered × Primary
  unfolding before_lock trigger_locked acquire
  trigger_job a job w =
      let w' = before_lock a job w in
      let (got, dir) = acquire a.opens w'.dir in
      elim got [
        | acquired ↦ trigger_locked a job (record w' { dir = dir })
        | lock_held ↦ (blocked, w')
        | lock_failed ↦ (trigger_failed, w')
      ]

  -- `TriggerDeploy`.
  unfoldable pub trigger_deploy : TriggerAnswers → Primary → Triggered × Primary
  unfolding trigger_job
  trigger_deploy a w = elim a.prepared [
    | none ↦ (prepare_failed, w)
    | some job ↦ trigger_job a (created_by a.user job) w
  ]

-- `publishTerminalEvent`, with the state that it leaves in the caller's hands.
unfoldable pub terminal_action : String → Option EventAction
terminal_action phase =
    if phase == success
    then some deploy_success
    else if phase == failed || phase == recovery || phase == rolled_back
    then some deploy_failure
    else none

pub image_of : Stored SelfDeployJob → String
image_of (stored job) = job.target_image_tag
image_of _ = ""

unfoldable pub publish_terminal_event : Bool → SelfDeployState → Primary → Primary
unfolding terminal_action image_of emit write_state
publish_terminal_event wrote st w =
    if st.event_published then w else elim (terminal_action st.phase) [
      | none ↦ w
      | some action ↦
          let w' = emit action st.job_id (image_of w.dir.job) none w in
          record w' { dir = (write_state wrote (record st { event_published = true }) w'.dir).0 }
    ]

pub record DeployStatus : Type 0 where
  pub phase : String
  pub job_id : String
  pub error : String
  pub log_tail : List String
  pub sidekick_container : String
  pub sidekick_alive : Bool
  pub sidekick_logs : String
  pub can_reset : Bool

-- What the daemon says of the sidekick, and the tail of its log.
abbrev pub Daemon : Type 0
Daemon = Option (Inspection × String)

unfoldable pub is_alive : Daemon → Bool
unfolding is_running
is_alive none = false
is_alive (some (info, logs)) = is_running info

logs_of : Daemon → String
logs_of none = ""
logs_of (some (not_found, logs)) = ""
logs_of (some (inspect_failed, logs)) = ""
logs_of (some (_, logs)) = logs

unfoldable pub status_of : Daemon → SelfDeployState → DeployStatus
unfolding is_alive logs_of
status_of daemon st =
    let named = not (st.job_id == "") in
    record {
      phase = st.phase;
      job_id = st.job_id;
      error = st.error;
      log_tail = st.log_tail;
      sidekick_container = if named then sidekick_container_name st.job_id else "";
      sidekick_alive = named && is_alive daemon;
      sidekick_logs = if named then logs_of daemon else "";
      can_reset = named && (not (is_alive daemon) && is_in_progress_phase st.phase);
    }

idle : DeployStatus
idle = record {
  phase = "idle";
  job_id = "";
  error = "";
  log_tail = [];
  sidekick_container = "";
  sidekick_alive = false;
  sidekick_logs = "";
  can_reset = false;
}

-- `Status`: `none` where state.json cannot be read. `daemon` is `none` where no
-- client can be had.
unfoldable pub status : Bool → Daemon → Primary → Option DeployStatus × Primary
unfolding publish_terminal_event status_of idle
status wrote daemon w = elim w.dir.state [
  | absent ↦ (some idle, w)
  | unreadable ↦ (none, w)
  | stored st ↦ (some (status_of daemon st), publish_terminal_event wrote st w)
]

pub data Reset : Type 0 where
  reset_refused reset_failed : Reset
  reset_done : Bool → Reset

job_id_of : Stored SelfDeployJob → String
job_id_of (stored job) = job.id
job_id_of _ = ""

reset_result : Reclaim → Option Reset
reset_result untouched = some (reset_done false)
reset_result reclaimed = some (reset_done true)
reset_result reclaim_failed = none

-- `ResetLock`. `job_info` is the inspection of the container that job.json names.
unfoldable pub reset_lock :
    (ℕ → String) → Inspection → ReclaimAnswers → Option String → Primary → Reset × Primary
unfolding job_id_of reset_result emit
reset_lock stamp job_info a user w =
    let id = job_id_of w.dir.job in
    if a.has_client && (not (id == "") && is_running job_info)
    then (reset_refused, w)
    else let (outcome, dir) = reclaim stamp a w.dir in
      elim (reset_result outcome) [
        | none ↦ (reset_failed, record w { dir = dir })
        | some result ↦ (result, emit deploy_reset id "" user (record w { dir = dir }))
      ]

-- What the watchdog's turn meets: the outcome of its write and of the removal of the lock.
pub record WatchAnswers : Type 0 where
  pub has_client : Bool
  pub inspection : Inspection
  pub now : ℕ
  pub message : String
  pub wrote : Bool
  pub removed : Bool

watch_failed : (ℕ → String) → WatchAnswers → String → ℕ → SelfDeployState → SelfDeployState
watch_failed stamp a job_id started_at st = record {
  job_id = job_id;
  phase = failed;
  started_at = started_at;
  finished_at = a.now;
  error = "self-deploy: " <> a.message;
  log_tail = append_log_line st.log_tail (stamp a.now <> (" " <> a.message));
  event_published = false;
}

-- `watchSidekickBoot` after its timeout.
unfoldable pub watch_sidekick_boot : (ℕ → String) → WatchAnswers → String → ℕ → Primary → Primary
unfolding watch_failed write_state remove_lock
watch_sidekick_boot stamp a job_id started_at w = elim w.dir.state [
  | absent ↦ w
  | unreadable ↦ w
  | stored st ↦
      if not (st.job_id == job_id) || not (st.phase == pending)
      then w
      else if a.has_client && is_running a.inspection
      then w
      else record w {
        dir =
            remove_lock a.removed
              (write_state a.wrote (watch_failed stamp a job_id started_at st) w.dir).0;
      }
]
