-- ===== src/Deploy/Health.antt =====
-- cmd/deploy_agent/health.go, the wait for the new container, with the wait of engine.go for Docker's
-- own health check and the time budgets of lifecycle.go. Times are nanoseconds. What a probe comes upon
-- is an argument for each attempt, counted from 0.
pub mod Ends
mod Tests
use swirl_evo.Common.{
  ℕ, zero, suc, ◌+◌, ◌-◌, ◌*◌, ◌/◌, ◌^◌, min, Bool, true, false, ◌&&◌, String, ◌==◌, string_eq,
  Option, none, some, ltb, leb, if◌then◌else◌,
}

abbrev pub second : ℕ
second = 10 ^ 9

abbrev pub health_poll_interval : ℕ
health_poll_interval = 2 * second

abbrev pub min_health_timeout : ℕ
min_health_timeout = 30 * second

-- How an attempt ends: whether the wait is over and with which result.
pub data Seen : Type 0 where
  is_ready gives_up keeps_waiting : Seen

-- An attempt, how long it takes, and whether the context is cancelled during the wait behind it.
pub record Attempt : Type 0 where
  pub seen : Seen
  pub took : ℕ
  pub is_cancelled : Bool

-- The result with the number of attempts and the time at which it is there.
pub data Outcome : Type 0 where
  ready : ℕ → ℕ → Outcome
  refused : ℕ → ℕ → Outcome
  timed_out : ℕ → ℕ → Outcome
  cancelled : ℕ → ℕ → Outcome
  out_of_fuel : Outcome

-- The loop of both waits, from the attempt `i` at the time `now`.
unfoldable pub wait_loop : ℕ → (ℕ → Attempt) → ℕ → ℕ → ℕ → Outcome
wait_loop zero attempts deadline i now = out_of_fuel
wait_loop (suc fuel) attempts deadline i now =
    let a = attempts i in
    let seen_at = now + a.took in
    let wait = min health_poll_interval (deadline - seen_at) in
    let later = wait_loop fuel attempts deadline (i + 1) (seen_at + wait) in
    elim a.seen [
      | is_ready ↦ ready (i + 1) seen_at
      | gives_up ↦ refused (i + 1) seen_at
      | keeps_waiting ↦
          if leb deadline seen_at
          then timed_out (i + 1) seen_at
          else if a.is_cancelled
          then cancelled (i + 1) seen_at
          else later
    ]

-- What `waitHealthyResolver` makes of a probe: `none` where no address is found or the request fails.
abbrev pub seen_http : Option ℕ → Seen
seen_http none = keeps_waiting
seen_http (some status) = if leb 200 status && ltb status 300 then is_ready else keeps_waiting

-- What `waitContainerHealthy` makes of an inspection: `none` where it fails, then `none` where the
-- container has no health check.
abbrev pub seen_docker : Option (Option String) → Seen
seen_docker none = keeps_waiting
seen_docker (some none) = is_ready
seen_docker (some (some status)) =
    if status == "healthy"
    then is_ready
    else if status == "unhealthy"
    then gives_up
    else keeps_waiting

abbrev pub at_least : ℕ → ℕ → ℕ
at_least least total = if ltb total least then least else total

-- Fuel for a wait: the turns that fit into it and two more.
abbrev pub turns : ℕ → ℕ
turns total = suc (suc (total / health_poll_interval))

unfoldable pub wait_healthy : (ℕ → Attempt) → ℕ → ℕ → Outcome
unfolding wait_loop
wait_healthy attempts total now =
    wait_loop (turns (at_least min_health_timeout total)) attempts
      (now + at_least min_health_timeout total) 0 now

unfoldable pub wait_container_healthy : (ℕ → Attempt) → ℕ → ℕ → Outcome
unfolding wait_loop
wait_container_healthy attempts total now =
    wait_loop (turns (at_least health_poll_interval total)) attempts
      (now + at_least health_poll_interval total) 0 now

abbrev pub pull_budget_min : ℕ
pull_budget_min = 60 * second

abbrev pub pull_budget_max : ℕ
pull_budget_max = 5 * 60 * second

unfoldable pub split_pull_budget : ℕ → ℕ
split_pull_budget total =
    let budget = at_least pull_budget_min (total / 2) in
    if ltb pull_budget_max budget then pull_budget_max else budget

-- `splitHealthBudget`: the test of the signed difference, without the subtraction.
unfoldable pub split_health_budget : ℕ → ℕ → ℕ
split_health_budget total pull =
    if ltb total (pull + min_health_timeout) then min_health_timeout else total - pull
