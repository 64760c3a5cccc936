-- ===== src/Deploy/Job.antt =====
-- biz/self_deploy_job.go: the phases, the state record that primary and sidekick share, and its log
-- tail. A phase is the raw string that both sides keep in state.json. A time is a number of
-- nanoseconds, and 0 is Go's zero time.
use Prim.Native.String
use Prim.Native.String.{◌++◌ as ◌<>◌}
use swirl_evo.Common.Int.{ℤ}
use swirl_evo.Common.{
  ℕ, String, ◌-◌, ◌≤◌, Bool, ◌||◌, ◌==◌, List, [], ◌∷◌, ◌++◌, length, drop, ltb, string_eq,
  if◌then◌else◌, arith, length-drop,
}

abbrev pub pending : String
pending = "pending"

abbrev pub stopping : String
stopping = "stopping"

abbrev pub pulling : String
pulling = "pulling"

abbrev pub starting : String
starting = "starting"

abbrev pub health_check : String
health_check = "health_check"

abbrev pub success : String
success = "success"

abbrev pub failed : String
failed = "failed"

abbrev pub recovery : String
recovery = "recovery"

abbrev pub rolled_back : String
rolled_back = "rolled_back"

pub record SelfDeployState : Type 0 where
  pub job_id : String
  pub phase : String
  pub started_at : ℕ
  pub finished_at : ℕ
  pub error : String
  pub log_tail : List String
  pub event_published : Bool

unfoldable pub is_in_progress_phase : String → Bool
is_in_progress_phase phase =
    phase == pending
    || phase == stopping
    || phase == pulling
    || phase == starting
    || phase == health_check
    || phase == recovery

unfoldable pub append_log_line : List String → String → List String
append_log_line tail line =
    let tail' = tail ++ line ∷ [] in
    if ltb 200 (length tail') then drop (length tail' - 200) tail' else tail'

pub length-append_log_line-le :
    (tail : List String) (line : String) → length (append_log_line tail line) ≤ 200
unfolding append_log_line
length-append_log_line-le tail line =
    ground (arith, length-drop (length (tail ++ line ∷ []) - 200) (tail ++ line ∷ []))

pub record SelfDeployJob : Type 0 where
  pub id : String
  pub created_at : ℕ
  pub created_by : String
  pub compose_yaml : String
  pub image_tag : String
  pub expose_port : ℤ
  pub previous_image_tag : String
  pub target_image_tag : String
  pub primary_container : String
  pub source_stack_id : String
  pub stack_name : String
  pub timeout_sec : ℤ
  pub auto_rollback : Bool
  pub env_vars : List (String × String)

unfoldable pub sidekick_container_name : String → String
sidekick_container_name job_id =
    "swirl-deploy-agent-" <> (if ltb 8 (String.len job_id) then String.slice job_id 0 8 else job_id)
