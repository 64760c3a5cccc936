-- ===== src/Deploy/Lifecycle/Tests.antt =====
-- The theorem on the primary's container, at a deploy whose new container never answers.
use swirl_evo.Common.{
  ◌⊎◌, ◌≢◌, Text, ◌↔◌, some, string_eq, replicate, ==_apart, ℕ, String, none, ◌≡◌, refl, true,
  false, [], codes, text_eq,
}
use swirl_evo.Common.Int.{pos}
use swirl_evo.Docker.{found}
use swirl_evo.Docker.Sample.{one, one_id, one-Laws, one-Named}
use swirl_evo.Compose.Order.{topological_order}
use swirl_evo.Compose.Engine.{Checks, deploy_with_result, remove_except}
use swirl_evo.Deploy.Job.{SelfDeployJob, SelfDeployState, pending, success}
use swirl_evo.Deploy.StateWriter.{written, write_failed, close, log_ring_capacity}
use swirl_evo.Deploy.Lifecycle.{
  Line, Course, World, rolled_back, previous_container_name, run_deploy, original_name_of,
}
use swirl_evo.Deploy.Agent.{Answers, Disk, exit_ok, run_job}
use swirl_evo.Deploy.Agent.Reports.{run_job-reports}
use swirl_evo.Deploy.Lifecycle.Phases.{phase_of, run_deploy-phase}
use swirl_evo.Deploy.Lifecycle.Survives.{Fate, run_deploy-Fate}

abbrev noon : ℕ → String
noon now = "2026-01-01T12:00:00Z"

abbrev plain : Line → String
plain line = "line"

abbrev checks : Checks
checks = record {
  parses = true;
  is_valid = true;
  has_external_networks = true;
  has_external_volumes = true;
  pull_images = false;
  pulls_all = true;
  waits = λ name. true;
}

abbrev silent : Course
silent = record {
  job_is_valid = true;
  has_client = true;
  pings = true;
  pulls = true;
  has_image = true;
  checks = checks;
  services = [];
  answers_http = false;
  finds_container = false;
  is_healthy = false;
  old_answers = true;
  now = 5;
  outcome = written;
}

abbrev job : SelfDeployJob
job = record {
  id = "j1";
  created_at = 4;
  created_by = "";
  compose_yaml = "services: {}";
  image_tag = "swirl:1";
  expose_port = pos 8001;
  previous_image_tag = "swirl:1";
  target_image_tag = "swirl:2";
  primary_container = "c0ffee";
  source_stack_id = "s1";
  stack_name = "swirl";
  timeout_sec = pos 600;
  auto_rollback = true;
  env_vars = [];
}

abbrev before : World one
before = record {
  daemon = record { name = codes "swirl-1"; exists = true; is_running = true };
  writer = record {
    st = record {
      job_id = "j1";
      phase = pending;
      started_at = 4;
      finished_at = 0;
      error = "";
      log_tail = [];
      event_published = false;
    };
    ring = replicate log_ring_capacity "";
    next = 0;
    filled = false;
    dirty = false;
    disk = none;
  };
}

run_deploy-Fate_example :
    Fate one one-Laws noon plain silent one_id
      (original_name_of one noon plain silent job before.daemon)
      (run_deploy one noon plain silent job before).0
      (run_deploy one noon plain silent job before).1.daemon
    × ((original_name_of one noon plain silent job before.daemon ≡ codes "swirl-1")
        ⊎ ((original_name_of one noon plain silent job before.daemon ≡ codes "swirl")
            × ((m : Text) → one.inspect one_id before.daemon ≢ found m)))
run_deploy-Fate_example =
    run_deploy-Fate one one-Laws noon plain silent job before (codes "swirl-1")
      (one-Named (codes "swirl-1") true) (==_apart _ _ refl) refl (==_apart _ _ refl) refl
      (==_apart _ _ refl)

run_deploy-phase_example :
    let r = run_deploy one noon plain silent job before in
    (st : SelfDeployState) × ((close written r.1.writer).disk ≡ some st)
    × (st.phase ≡ phase_of r.0)
    × (st.job_id ≡ before.writer.st.job_id)
run_deploy-phase_example =
    run_deploy-phase one noon plain silent job before (==_apart {V = String} "j1" "" refl)

rolls_back : (run_deploy one noon plain silent job before).0 ≡ rolled_back
unfolding run_deploy deploy_with_result topological_order remove_except
rolls_back = refl

-- A primary that still has the name of an earlier recovery.
abbrev recovered : World one
recovered = record before {
  daemon = record { name = previous_container_name; exists = true; is_running = true };
}

loses_it : (run_deploy one noon plain silent job recovered).1.daemon.exists ≡ false
unfolding run_deploy deploy_with_result topological_order remove_except
loses_it = refl

-- The sidekick around that deploy.
abbrev around : Answers
around = record {
  parses_flags = true;
  wants_help = false;
  job_path = codes "/data/self-deploy/job.json";
  job_file = none;
  decode = λ bytes. none;
  state_path = "/data/self-deploy/state.json";
  seed_outcome = written;
  rotate_outcome = write_failed;
  close_outcome = written;
  removes_lock = true;
  makes_history = true;
  copies_files = true;
  lists_history = true;
  removes_entry = λ name. true;
  is_interrupted = false;
  now = 9;
}

abbrev directory : Disk one
directory = record { daemon = before.daemon; state = none; is_locked = true; history = [] }

run_job-reports_example :
    let r = run_job one noon plain around silent job before.writer directory in
    (st : SelfDeployState) × (r.1.state ≡ some st)
    × (st.job_id ≡ "j1")
    × ((r.0 ≡ exit_ok) ↔ (st.phase ≡ success))
    × (r.1.is_locked ≡ false)
run_job-reports_example =
    run_job-reports one noon plain around silent job before.writer directory
      (==_apart {V = String} "j1" "" refl) refl refl refl
