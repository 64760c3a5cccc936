-- ===== src/Deploy/Health/Tests.antt =====
-- The theorems on the waits at concrete inputs.
use swirl_evo.Common.{ℕ, ◌+◌, arith, false, ltb, if◌then◌else◌}
use swirl_evo.Deploy.Health.{
  is_ready, keeps_waiting, Attempt, wait_healthy, wait_container_healthy, at_least,
  health_poll_interval, min_health_timeout,
}
use swirl_evo.Deploy.Health.Ends.{IsRight, waits-IsRight}

abbrev third : ℕ → Attempt
third i = record {
  seen = if ltb i 2 then keeps_waiting else is_ready;
  took = 5;
  is_cancelled = false;
}

waits-IsRight_example :
    IsRight third 5 (7 + at_least min_health_timeout 60) 0 (wait_healthy third 60 7)
    × IsRight third 5 (7 + at_least health_poll_interval 60) 0 (wait_container_healthy third 60 7)
waits-IsRight_example = waits-IsRight third 5 60 7 (λ j. omega arith)
