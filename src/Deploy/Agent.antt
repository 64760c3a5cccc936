-- ===== src/Deploy/Agent.antt =====
-- cmd/deploy_agent/agent.go: the sidekick from its flags to its exit code, around the deploy of
-- Deploy.Lifecycle. The state directory is a record; the line that a signal logs is left out.
pub mod Reports
use swirl_evo.Common.{
  ℕ, ◌-◌, String, Bool, true, false, not, ◌||◌, ◌==◌, List, [], ◌∷◌, length, drop, take, map, ltb,
  leb, any, select, Option, none, some, Text, codes, trim_space, text_eq, string_eq, if◌then◌else◌,
}
use swirl_evo.Common.Dict.{Dict, replace}
use swirl_evo.Docker.{Docker}
use swirl_evo.Deploy.Job.{SelfDeployJob, SelfDeployState, pending}
use swirl_evo.Deploy.StateWriter.{StateWriter, WriteOutcome, flush, close, new_state_writer}
use swirl_evo.Deploy.Lifecycle.{Line, Course, Ending, deployed, World, run_deploy}

abbrev pub exit_ok : ℕ
exit_ok = 0

abbrev pub exit_runtime : ℕ
exit_runtime = 1

abbrev pub exit_usage : ℕ
exit_usage = 2

abbrev pub exit_deploy_err : ℕ
exit_deploy_err = 3

abbrev pub exit_interrupted : ℕ
exit_interrupted = 130

-- What the process comes upon: its flags and variable, the files and the writes.
pub record Answers : Type 0 where
  pub parses_flags : Bool
  pub wants_help : Bool
  pub job_path : Text
  pub job_file : Option Text
  pub decode : Text → Option SelfDeployJob
  pub state_path : String
  pub seed_outcome : WriteOutcome
  pub rotate_outcome : WriteOutcome
  pub close_outcome : WriteOutcome
  pub removes_lock : Bool
  pub makes_history : Bool
  pub copies_files : Bool
  pub lists_history : Bool
  pub removes_entry : String → Bool
  pub is_interrupted : Bool
  pub now : ℕ

-- The state directory beside the daemon: the state file, the lock, and each job's directory under
-- `history` with the time of its last change.
pub record Disk (d : Docker) : Type 0 where
  pub daemon : d.Daemon
  pub state : Option SelfDeployState
  pub is_locked : Bool
  pub history : Dict String ℕ

-- `loadJob`.
abbrev pub named_job : Option SelfDeployJob → Option SelfDeployJob
named_job none = none
named_job (some j) = if trim_space (codes j.id) == [] then none else some j

unfoldable pub load_job : Answers → Option SelfDeployJob
load_job k = elim k.job_file [
  | none ↦ none
  | some bytes ↦ if bytes == [] then none else named_job (k.decode bytes)
]

-- The entries by time, the oldest first.
abbrev pub insert_entry : String × ℕ → Dict String ℕ → Dict String ℕ
insert_entry e [] = e ∷ []
insert_entry e (f ∷ m) =
    let later = insert_entry e m in if leb e.1 f.1 then e ∷ f ∷ m else f ∷ later

abbrev pub oldest_first : Dict String ℕ → Dict String ℕ
oldest_first [] = []
oldest_first (e ∷ m) = insert_entry e (oldest_first m)

abbrev pub history_limit : ℕ
history_limit = 20

-- `pruneHistory`; an entry that cannot be removed stays.
unfoldable pub prune_history : (String → Bool) → ℕ → Dict String ℕ → Dict String ℕ
prune_history removes keep m =
    let doomed = take (length m - keep) (oldest_first m) in
    if leb (length m) keep
    then m
    else select
        (λ (e : String × ℕ). not (removes e.0) || not (any (λ (f : String × ℕ). f.0 == e.0) doomed))
        m

-- `rotateHistory`, with the flush of the writer; a directory that is there keeps its time.
unfoldable pub rotate_history :
    Answers → SelfDeployJob → StateWriter → Dict String ℕ → StateWriter × Dict String ℕ
unfolding flush replace prune_history
rotate_history k j sw history =
    let sw1 = (flush k.rotate_outcome sw).0 in
    let copied =
      if any (λ (f : String × ℕ). f.0 == j.id) history
      then history
      else replace j.id k.now history in
    if j.id == ""
    then (sw, history)
    else if not k.makes_history
    then (sw, history)
    else if not k.copies_files
    then (sw1, copied)
    else if k.lists_history
    then (sw1, prune_history k.removes_entry history_limit copied)
    else (sw1, copied)

abbrev pub initial_state : Answers → SelfDeployJob → SelfDeployState
initial_state k j = record {
  job_id = j.id;
  phase = pending;
  started_at = k.now;
  finished_at = 0;
  error = "";
  log_tail = [];
  event_published = false;
}

abbrev pub exit_of : Answers → Ending → ℕ
exit_of k ending =
    if k.is_interrupted
    then exit_interrupted
    else elim ending [ deployed ↦ exit_ok | _ ↦ exit_deploy_err ]

module _ (d : Docker) (stamp : ℕ → String) (say : Line → String) where
  -- `runWithIO` with a job and the writer of its state.
  unfoldable pub run_job : Answers → Course → SelfDeployJob → StateWriter → Disk d → ℕ × Disk d
  unfolding run_deploy rotate_history close
  run_job k course j sw s =
      let r = run_deploy d stamp say course j (record { daemon = s.daemon; writer = sw }) in
      let rotated = rotate_history k j r.1.writer s.history in
      (
        exit_of k r.0,
        record {
          daemon = r.1.daemon;
          state = (close k.close_outcome rotated.0).disk;
          is_locked = if k.removes_lock then false else s.is_locked;
          history = rotated.1;
        },
      )

  abbrev pub with_writer :
      Answers → Course → SelfDeployJob → Disk d → Option StateWriter → ℕ × Disk d
  with_writer k course j s none = (exit_runtime, s)
  with_writer k course j s (some sw) = run_job k course j sw (record s { state = sw.disk })

  abbrev pub with_job : Answers → Course → Disk d → Option SelfDeployJob → ℕ × Disk d
  with_job k course s none = (exit_usage, s)
  with_job k course s (some j) =
      with_writer k course j s
        (new_state_writer k.seed_outcome k.now k.state_path (some (initial_state k j)) s.state)

  -- `runWithIO`.
  unfoldable pub run_with_io : Answers → Course → Disk d → ℕ × Disk d
  unfolding load_job new_state_writer run_job
  run_with_io k course s =
      if not k.parses_flags
      then (exit_usage, s)
      else if k.wants_help
      then (exit_ok, s)
      else if k.job_path == []
      then (exit_usage, s)
      else with_job k course s (load_job k)
