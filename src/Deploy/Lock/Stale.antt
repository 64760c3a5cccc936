-- ===== src/Deploy/Lock/Stale.antt =====
-- When a stale lock is taken away, and that a working sidekick keeps its own.
use swirl_evo.Common.{ℕ, String, ◌≡◌, ◌≢◌, refl, true, false, string_eq, arith}
use swirl_evo.Deploy.Job.{SelfDeployState, is_in_progress_phase}
use swirl_evo.Deploy.Lock.{
  StateDir, Stored, absent, unreadable, stored, ReclaimAnswers, reclaimed, reclaim, is_running,
  abandoned_state,
}

-- The state file of a directory shows a deploy at work.
abbrev pub ShowsInProgress : StateDir → Type 0
ShowsInProgress d =
    (st : SelfDeployState) × (d.state ≡ stored st) × (is_in_progress_phase st.phase ≡ true)

-- The state of a lost sidekick is a final one.
abandoned_state-phase :
    (stamp : ℕ → String) (a : ReclaimAnswers) (st : SelfDeployState)
    → is_in_progress_phase (abandoned_state stamp a st).phase ≡ false
unfolding abandoned_state is_in_progress_phase
abandoned_state-phase stamp a st = refl

module _ (stamp : ℕ → String) (a : ReclaimAnswers) (d : StateDir) where
  -- While the state file shows a deploy at work and its container runs, a reclaim changes nothing and
  -- does not report a reclaim.
  pub reclaim_running :
      ShowsInProgress d
      → is_running a.inspection ≡ true
      → ((reclaim stamp a d).1 ≡ d) × ((reclaim stamp a d).0 ≢ reclaimed)
  unfolding reclaim
  reclaim_running (st, e, p) r = ground arith

  -- A reclaim that is reported and whose removal succeeds leaves no lock and a state file that does
  -- not show a deploy at work.
  reclaim_clears :
      (reclaim stamp a d).0 ≡ reclaimed
      → a.removed ≡ true
      → ((reclaim stamp a d).1.locked ≡ false)
        × ((st : SelfDeployState)
            → (reclaim stamp a d).1.state ≡ stored st
            → is_in_progress_phase st.phase ≡ false)
  unfolding reclaim
  reclaim_clears h r = (ground arith, λ st e. after (d.state) refl st h e)
    where
      after :
          (f : Stored SelfDeployState)
          → d.state ≡ f
          → (st : SelfDeployState) → (reclaim stamp a d).0 ≡ reclaimed
          → (reclaim stamp a d).1.state ≡ stored st
          → is_in_progress_phase st.phase ≡ false
      after absent g st h e = ground arith
      after unreadable g st h e = ground arith
      after (stored old) g st h e = ground (arith, abandoned_state-phase stamp a old)
