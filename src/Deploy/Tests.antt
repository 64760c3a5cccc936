-- ===== src/Deploy/Tests.antt =====
-- The theorems of the self-deploy modules at concrete inputs.
use mathlib.Core.Bool.{false≢true}
use swirl_evo.Common.{
  ℕ, String, ◌≡◌, ◌≢◌, refl, Bool, true, false, List, [], ◌∷◌, none, some, ==_iff, string_eq,
}
use swirl_evo.Common.Int.{pos}
use swirl_evo.Deploy.Job.{
  SelfDeployState, SelfDeployJob, pending, pulling, success, recovery, is_in_progress_phase,
}
use swirl_evo.Deploy.StateWriter.{
  StateWriter, written, write_failed, log_ring_capacity, new_state_writer, seeded, flush, close,
}
use swirl_evo.Deploy.StateWriter.Ring.{last}
use swirl_evo.Deploy.StateWriter.Flush.{
  Call, sets_phase, logs, fails, calls, all_lines, last_phase, close-calls_disk,
}
use swirl_evo.Deploy.Lock.{
  StateDir, absent, stored, Inspection, inspected, not_found, is_running, ReclaimAnswers, reclaim,
}
use swirl_evo.Deploy.Primary.{
  Primary, TriggerAnswers, started, trigger_deploy, terminal_action, is_alive, status_of,
  reset_lock, reset_done, deploy_success,
}
use swirl_evo.Deploy.Primary.Exclusive.{trigger_deploy_exclusive, trigger_deploy-releases}
use swirl_evo.Deploy.Primary.Audit.{polls, due, polls-events, recovery_reset}

abbrev noon : ℕ → String
noon now = "2026-01-01T12:00:00Z"

abbrev in_phase : String → SelfDeployState
in_phase phase = record {
  job_id = "j1";
  phase = phase;
  started_at = 5;
  finished_at = 0;
  error = "";
  log_tail = [];
  event_published = false;
}

j1_named : ◌≢◌ {A = String} "j1" ""
j1_named e = false≢true ((==_iff {V = String} "j1" "").1 e)

abbrev script : List Call
script = sets_phase 6 pulling ∷ logs 7 "hello" ∷ fails write_failed 8 (some "boom") ∷ []

abbrev fresh_writer : StateWriter
fresh_writer = (flush written (seeded 5 (some (in_phase pending)) none)).0

close-calls_disk_example :
    (st : SelfDeployState) × ((close written (calls noon fresh_writer script)).disk ≡ some st)
    × (st.job_id ≡ fresh_writer.st.job_id)
    × (st.phase ≡ last_phase noon fresh_writer.st.phase script)
    × (st.log_tail ≡ last log_ring_capacity (all_lines noon script))
unfolding new_state_writer seeded flush
close-calls_disk_example =
    close-calls_disk noon written 5 "/data/state.json" (some (in_phase pending)) none fresh_writer
      script refl j1_named

abbrev busy : StateDir
busy = record { locked = true; state = stored (in_phase pulling); job = absent }

abbrev answers : Inspection → ReclaimAnswers
answers info = record {
  stat_ok = true;
  has_client = true;
  inspection = info;
  now = 9;
  wrote = true;
  removed = true;
}

abbrev job : SelfDeployJob
job = record {
  id = "j1";
  created_at = 4;
  created_by = "";
  compose_yaml = "services: {}";
  image_tag = "swirl:1";
  expose_port = pos 8001;
  previous_image_tag = "swirl:1";
  target_image_tag = "swirl:2";
  primary_container = "c0";
  source_stack_id = "s1";
  stack_name = "swirl";
  timeout_sec = pos 600;
  auto_rollback = true;
  env_vars = [];
}

abbrev trigger_answers : Inspection → Bool → TriggerAnswers
trigger_answers info spawns = record {
  prepared = some job;
  user = some "ada";
  first_client = true;
  reclaiming = answers info;
  error_updated = true;
  opens = true;
  job_wrote = true;
  state_wrote = true;
  second_client = spawns;
  listed = true;
  removable = λ name. true;
  spawn_error = none;
  fail_wrote = true;
  released = true;
  now = 10;
  fail_now = 11;
}

abbrev primary : StateDir → Primary
primary d = record { dir = d; events = []; sidekicks = []; stack_error = λ id. "" }

trigger_deploy_exclusive_example :
    let a = trigger_answers (inspected true "running" (pos 0)) true in
    ((trigger_deploy noon a (primary busy)).1.dir ≡ busy)
    × ((trigger_deploy noon a (primary busy)).1.sidekicks ≡ [])
    × ((j : SelfDeployJob) → (trigger_deploy noon a (primary busy)).0 ≢ started j)
unfolding is_in_progress_phase is_running
trigger_deploy_exclusive_example =
    trigger_deploy_exclusive noon (trigger_answers (inspected true "running" (pos 0)) true)
      (primary busy) refl (in_phase pulling, refl, refl) refl

abbrev free : StateDir
free = record { locked = false; state = absent; job = absent }

nothing_started :
    (j : SelfDeployJob)
    → (trigger_deploy noon (trigger_answers not_found false) (primary free)).0 ≢ started j
unfolding trigger_deploy reclaim
nothing_started j e = cc

trigger_deploy-releases_example :
    (trigger_deploy noon (trigger_answers not_found false) (primary free)).1.dir.locked ≡ false
trigger_deploy-releases_example =
    trigger_deploy-releases noon (trigger_answers not_found false) (primary free) refl refl
      nothing_started

abbrev finished : Primary
finished = primary (record { locked = false; state = stored (in_phase success); job = stored job })

polls-events_example :
    (polls ((false, none) ∷ (true, none) ∷ (true, none) ∷ []) finished).events
    ≡ due deploy_success (in_phase success) finished
      ∷ due deploy_success (in_phase success) finished
      ∷ []
unfolding terminal_action
polls-events_example =
    polls-events ((false, none) ∷ (true, none) ∷ (true, none) ∷ []) finished (in_phase success)
      deploy_success refl refl refl

abbrev recovering : Primary
recovering =
    primary (record { locked = false; state = stored (in_phase recovery); job = stored job })

recovery_reset_example :
    ((status_of none (in_phase recovery)).can_reset ≡ true)
    × ((reset_lock noon not_found (answers not_found) (some "ada") recovering).0 ≡ reset_done false)
    × ((reset_lock noon not_found (answers not_found) (some "ada") recovering).1.dir
        ≡ recovering.dir)
unfolding is_alive is_running
recovery_reset_example =
    recovery_reset noon none not_found (answers not_found) (some "ada") recovering
      (in_phase recovery) refl refl refl j1_named refl refl refl
