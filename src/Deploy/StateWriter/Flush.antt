-- ===== src/Deploy/StateWriter/Flush.antt =====
-- What readers of state.json see of the writer's calls.
use Prim.Native.String.{◌++◌ as ◌<>◌}
use mathlib.Core.List.{append_assoc, append-nil}
use swirl_evo.Common.{
  ℕ, String, ◌≡◌, ◌≢◌, refl, sym, ◌∙◌, List, [], ◌∷◌, ◌++◌, arith, ==_iff, string_eq, Option, none,
  some, length-replicate,
}
use swirl_evo.Deploy.Job.{SelfDeployState, success, failed, recovery, rolled_back}
use swirl_evo.Deploy.StateWriter.{
  StateWriter, WriteOutcome, written, log_ring_capacity, snapshot_ring, append_log, flush,
  set_phase, logf, fail, succeed, mark_rolled_back, mark_recovery, flusher_tick, close,
  new_state_writer, seeded,
}
use swirl_evo.Deploy.StateWriter.Ring.{last, Holds, entry, append_log-Holds, snapshot_ring-Holds}

-- The calls of a writer after it was made, each with its clock and the end of its write.
pub data Call : Type 0 where
  sets_phase : ℕ → String → Call
  logs : ℕ → String → Call
  fails : WriteOutcome → ℕ → Option String → Call
  succeeds : WriteOutcome → ℕ → Call
  rolls_back : WriteOutcome → ℕ → Option String → Call
  recovers : WriteOutcome → ℕ → Option String → Call
  ticks : WriteOutcome → Call

module _ (stamp : ℕ → String) where
  pub call : StateWriter → Call → StateWriter
  call sw (sets_phase now phase) = set_phase stamp now phase sw
  call sw (logs now line) = logf stamp now line sw
  call sw (fails o now err) = fail stamp o now err sw
  call sw (succeeds o now) = succeed stamp o now sw
  call sw (rolls_back o now reason) = mark_rolled_back stamp o now reason sw
  call sw (recovers o now reason) = mark_recovery stamp o now reason sw
  call sw (ticks o) = flusher_tick o sw

  pub calls : StateWriter → List Call → StateWriter
  calls sw [] = sw
  calls sw (c ∷ cs) = calls (call sw c) cs

  -- The lines that a call is to leave in the log.
  pub lines : Call → List String
  lines (sets_phase now phase) = entry stamp now ("phase=" <> phase) ∷ []
  lines (logs now line) = entry stamp now line ∷ []
  lines (fails o now none) = []
  lines (fails o now (some err)) = entry stamp now ("FAIL: " <> err) ∷ []
  lines (succeeds o now) = entry stamp now "SUCCESS: deploy complete" ∷ []
  lines (rolls_back o now none) =
      entry stamp now "ROLLED BACK: deploy recovered to previous version" ∷ []
  lines (rolls_back o now (some reason)) = entry stamp now ("ROLLED BACK: " <> reason) ∷ []
  lines (recovers o now none) = entry stamp now "RECOVERY MODE entered" ∷ []
  lines (recovers o now (some reason)) = entry stamp now ("RECOVERY MODE: " <> reason) ∷ []
  lines (ticks o) = []

  pub all_lines : List Call → List String
  all_lines [] = []
  all_lines (c ∷ cs) = lines c ++ all_lines cs

  flush-Holds :
      (h : List String) (o : WriteOutcome) (sw : StateWriter) → Holds h sw → Holds h (flush o sw).0
  unfolding flush
  flush-Holds h o sw v = ground (arith, v)

  log_flush-Holds :
      (h : List String) (o : WriteOutcome) (now : ℕ) (line : String) (sw : StateWriter)
      → Holds h sw
      → Holds (h ++ entry stamp now line ∷ []) (flush o (append_log stamp now line sw)).0
  log_flush-Holds h o now line sw v =
      flush-Holds (h ++ entry stamp now line ∷ []) o (append_log stamp now line sw)
        (append_log-Holds stamp now line sw h v)

  call-Holds :
      (h : List String) (sw : StateWriter) (c : Call)
      → Holds h sw
      → Holds (h ++ lines c) (call sw c)
  unfolding call lines set_phase logf fail succeed mark_rolled_back mark_recovery flusher_tick
  call-Holds h sw (sets_phase now phase) v = append_log-Holds stamp now ("phase=" <> phase) _ h v
  call-Holds h sw (logs now line) v = append_log-Holds stamp now line sw h v
  call-Holds h sw (fails o now none) v = rw (append-nil h) (flush-Holds h o _ v)
  call-Holds h sw (fails o now (some err)) v = log_flush-Holds h o now ("FAIL: " <> err) _ v
  call-Holds h sw (succeeds o now) v = log_flush-Holds h o now "SUCCESS: deploy complete" _ v
  call-Holds h sw (rolls_back o now none) v =
      log_flush-Holds h o now "ROLLED BACK: deploy recovered to previous version" _ v
  call-Holds h sw (rolls_back o now (some reason)) v =
      log_flush-Holds h o now ("ROLLED BACK: " <> reason) _ v
  call-Holds h sw (recovers o now none) v = log_flush-Holds h o now "RECOVERY MODE entered" _ v
  call-Holds h sw (recovers o now (some reason)) v =
      log_flush-Holds h o now ("RECOVERY MODE: " <> reason) _ v
  call-Holds h sw (ticks o) v = rw (append-nil h) (ground (arith, v, flush-Holds h o sw v))

  calls-Holds :
      (h : List String) (sw : StateWriter) (cs : List Call)
      → Holds h sw
      → Holds (h ++ all_lines cs) (calls sw cs)
  unfolding calls all_lines
  calls-Holds h sw [] v = rw (append-nil h) v
  calls-Holds h sw (c ∷ cs) v =
      rw (← append_assoc h (lines c) (all_lines cs))
        (calls-Holds (h ++ lines c) (call sw c) cs (call-Holds h sw c v))

  seeded-Holds :
      (now : ℕ) (initial disk : Option SelfDeployState) → Holds [] (seeded now initial disk)
  unfolding seeded
  seeded-Holds now initial disk = record {
    sized = length-replicate {A = String} log_ring_capacity "";
    in_ring = omega arith;
    recent = refl;
    unwrapped = λ u. refl;
    wrapped = λ u. cc;
  }

  new_state_writer-Holds :
      (o : WriteOutcome) (now : ℕ) (path : String) (initial disk : Option SelfDeployState)
      {sw : StateWriter}
      → new_state_writer o now path initial disk ≡ some sw
      → Holds [] sw
  unfolding new_state_writer
  new_state_writer-Holds o now path initial disk h =
      ground (arith, flush-Holds [] o (seeded now initial disk) (seeded-Holds now initial disk))

  -- The phase that a call leaves, from the phase before it.
  pub phase_after : String → Call → String
  phase_after p (sets_phase now phase) = phase
  phase_after p (logs now line) = p
  phase_after p (fails o now err) = failed
  phase_after p (succeeds o now) = success
  phase_after p (rolls_back o now reason) = rolled_back
  phase_after p (recovers o now reason) = recovery
  phase_after p (ticks o) = p

  pub last_phase : String → List Call → String
  last_phase p [] = p
  last_phase p (c ∷ cs) = last_phase (phase_after p c) cs

  pub flush-st :
      (o : WriteOutcome) (sw : StateWriter)
      → ((flush o sw).0.st.phase ≡ sw.st.phase) × ((flush o sw).0.st.job_id ≡ sw.st.job_id)
  unfolding flush
  flush-st o sw = ground arith

  call-st :
      (sw : StateWriter) (c : Call)
      → ((call sw c).st.phase ≡ phase_after sw.st.phase c) × ((call sw c).st.job_id ≡ sw.st.job_id)
  unfolding call phase_after set_phase logf fail succeed mark_rolled_back mark_recovery flusher_tick
      append_log
  call-st sw (sets_phase now phase) = (refl, refl)
  call-st sw (logs now line) = (refl, refl)
  call-st sw (fails o now none) = flush-st o _
  call-st sw (fails o now (some err)) = flush-st o _
  call-st sw (succeeds o now) = flush-st o _
  call-st sw (rolls_back o now none) = flush-st o _
  call-st sw (rolls_back o now (some reason)) = flush-st o _
  call-st sw (recovers o now none) = flush-st o _
  call-st sw (recovers o now (some reason)) = flush-st o _
  call-st sw (ticks o) = ground (arith, flush-st o sw)

  calls-st :
      (sw : StateWriter) (cs : List Call)
      → ((calls sw cs).st.phase ≡ last_phase sw.st.phase cs)
        × ((calls sw cs).st.job_id ≡ sw.st.job_id)
  unfolding calls last_phase
  calls-st sw [] = (refl, refl)
  calls-st sw (c ∷ cs) = ground (arith, calls-st (call sw c) cs, call-st sw c)

  pub close-disk :
      (sw : StateWriter)
      → sw.st.job_id ≢ ""
      → (close written sw).disk ≡ some (record sw.st { log_tail = snapshot_ring sw })
  unfolding close flush snapshot_ring
  close-disk sw h = ground (arith, ==_iff sw.st.job_id "")

  -- Whatever calls a new writer for a named job takes, and whichever of their writes fail, a `Close`
  -- whose write succeeds leaves in state.json the job's id, the phase of the last call that set one,
  -- and, oldest first, the last 500 of the lines that the calls logged.
  pub close-calls_disk :
      (o : WriteOutcome) (now : ℕ) (path : String) (initial disk : Option SelfDeployState)
      (sw : StateWriter) (cs : List Call)
      → new_state_writer o now path initial disk ≡ some sw
      → sw.st.job_id ≢ ""
      → (st : SelfDeployState) × ((close written (calls sw cs)).disk ≡ some st)
        × (st.job_id ≡ sw.st.job_id)
        × (st.phase ≡ last_phase sw.st.phase cs)
        × (st.log_tail ≡ last log_ring_capacity (all_lines cs))
  close-calls_disk o now path initial disk sw cs made named = (
    record (calls sw cs).st { log_tail = snapshot_ring (calls sw cs) },
    close-disk (calls sw cs) (λ e. named (sym ((calls-st sw cs).1) ∙ e)),
    (calls-st sw cs).1,
    (calls-st sw cs).0,
    snapshot_ring-Holds (all_lines cs) (calls sw cs)
        (calls-Holds [] sw cs (new_state_writer-Holds o now path initial disk made)),
  )
