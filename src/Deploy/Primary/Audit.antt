-- ===== src/Deploy/Primary/Audit.antt =====
-- The audit event of a finished deploy, and what Status lets an operator reset.
use swirl_evo.Common.{
  ap, sym, ◌∙◌, if◌then◌else◌, suc, Bool, replicate, append_assoc, append-nil, ℕ, String, ◌≡◌, ◌≢◌,
  refl, true, false, ==_ne, string_eq, arith, List, Option, none, some, ◌∷◌, [], ◌++◌,
}
use swirl_evo.Deploy.Job.{SelfDeployState, is_in_progress_phase, recovery}
use swirl_evo.Deploy.Lock.{stored, Inspection, ReclaimAnswers, is_running, reclaim}
use swirl_evo.Deploy.Primary.{
  Primary, Daemon, is_alive, Event, EventAction, status, status_of, terminal_action, image_of,
  reset_done, reset_lock,
}

-- The UI's polls of Status, each with whether state.json can be written and what the daemon says.
pub polls : List (Bool × Daemon) → Primary → Primary
polls [] w = w
polls ((wrote, d) ∷ ds) w = polls ds (status wrote d w).1

-- How many polls there are up to the first whose write succeeds.
abbrev pub polls_to_write : List (Bool × Daemon) → ℕ
polls_to_write [] = 0
polls_to_write ((wrote, d) ∷ ds) = if wrote then 1 else suc (polls_to_write ds)

polls-published :
    (ds : List (Bool × Daemon)) (w : Primary) (st : SelfDeployState)
    → w.dir.state ≡ stored st
    → st.event_published ≡ true
    → polls ds w ≡ w
unfolding polls
polls-published [] w st e p = refl
polls-published ((wrote, d) ∷ ds) w st e p = rw same (polls-published ds w st e p)
  where
    same : (status wrote d w).1 ≡ w
    same = unfold status in ground arith

-- The event that is due for a state of a final phase.
abbrev pub due : EventAction → SelfDeployState → Primary → Event
due action st w = record {
  action = action;
  job_id = st.job_id;
  image = image_of w.dir.job;
  user = none;
}

-- The polls that meet an unpublished state of a final phase emit its event, for the job and the image
-- of the files, once for each poll up to the first that can write state.json, and no more after that:
-- a write that fails makes the next poll emit the event again.
pub polls-events :
    (ds : List (Bool × Daemon)) (w : Primary) (st : SelfDeployState) (action : EventAction)
    → w.dir.state ≡ stored st
    → st.event_published ≡ false
    → terminal_action st.phase ≡ some action
    → (polls ds w).events ≡ w.events ++ replicate (polls_to_write ds) (due action st w)
unfolding polls
polls-events [] w st action e p t = sym (append-nil w.events)
polls-events ((true, d) ∷ ds) w st action e p t =
    rw
      (polls-published ds (status true d w).1 (record st { event_published = true }) published refl)
      emitted
  where
    published : (status true d w).1.dir.state ≡ stored (record st { event_published = true })
    published = unfold status in ground arith

    emitted : (status true d w).1.events ≡ w.events ++ due action st w ∷ []
    emitted = unfold status in ground arith
polls-events ((false, d) ∷ ds) w st action e p t =
    let w1 : Primary = record w { events = w.events ++ due action st w ∷ [] } in
    let again : (status false d w).1 ≡ w1 = unfold status in ground arith in
    ap (λ v. (polls ds v).events) again
    ∙ (polls-events ds w1 st action e p t
        ∙ append_assoc w.events (due action st w ∷ [])
            (replicate (polls_to_write ds) (due action st w)))

in_recovery : (phase : String) → phase ≡ recovery → is_in_progress_phase phase ≡ true
unfolding is_in_progress_phase
in_recovery phase p = rw p refl

-- After a deploy that ended in recovery and gave its lock back, Status says that the lock can be
-- reset while the sidekick is gone, yet ResetLock finds nothing to do: it reports no reclaim and
-- leaves the three files, the phase among them, as they are.
pub recovery_reset :
    (stamp : ℕ → String) (d : Daemon) (info : Inspection) (a : ReclaimAnswers)
    (user : Option String) (w : Primary) (st : SelfDeployState)
    → w.dir.state ≡ stored st
    → w.dir.locked ≡ false
    → st.phase ≡ recovery
    → st.job_id ≢ ""
    → is_alive d ≡ false
    → is_running info ≡ false
    → a.stat_ok ≡ true
    → ((status_of d st).can_reset ≡ true)
      × ((reset_lock stamp info a user w).0 ≡ reset_done false)
      × ((reset_lock stamp info a user w).1.dir ≡ w.dir)
unfolding status_of reset_lock reclaim
recovery_reset stamp d info a user w st e l p n alive running ok =
    (ground (arith, ==_ne st.job_id "" n, in_recovery st.phase p), ground arith, ground arith)
