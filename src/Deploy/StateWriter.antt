-- ===== src/Deploy/StateWriter.antt =====
-- cmd/deploy_agent/state_writer.go: the sidekick's ring of log lines and its copies of the state in
-- state.json. The mutex makes each method one step. `disk` is what state.json holds; whether a write
-- succeeds is an argument of the call that flushes. The clock and Go's RFC 3339 print are arguments.
pub mod Ring
pub mod Flush
use Prim.Native.String.{◌++◌ as ◌<>◌}
use swirl_evo.Common.{
  ℕ, ◌+◌, ◌-◌, ◌%◌, String, ◌≡◌, Bool, true, false, ◌==◌, eqb, List, [], ◌∷◌, ◌++◌, take, drop, set,
  replicate, length, string_eq, Option, none, some, if◌then◌else◌,
}
use swirl_evo.Deploy.Job.{SelfDeployState, success, failed, recovery, rolled_back}

abbrev pub log_ring_capacity : ℕ
log_ring_capacity = 500

pub record StateWriter : Type 0 where
  pub st : SelfDeployState
  pub ring : List String
  pub next : ℕ
  pub filled : Bool
  pub dirty : Bool
  pub disk : Option SelfDeployState

-- How `json.MarshalIndent` and `atomicWriteFile` end.
pub data WriteOutcome : Type 0 where
  written marshal_failed write_failed : WriteOutcome

unfoldable pub snapshot_ring : StateWriter → List String
snapshot_ring sw =
    if sw.filled then drop sw.next sw.ring ++ take sw.next sw.ring else take sw.next sw.ring

-- `flushLocked`, with whether it returned no error.
unfoldable pub flush : WriteOutcome → StateWriter → StateWriter × Bool
flush outcome sw =
    let st = record sw.st { log_tail = snapshot_ring sw } in
    if sw.st.job_id == "" then (record sw { st = st; dirty = false }, true) else elim outcome [
      | written ↦ (record sw { st = st; disk = some st; dirty = false }, true)
      | marshal_failed ↦ (record sw { st = st }, false)
      | write_failed ↦ (record sw { st = st }, false)
    ]

module _ (stamp : ℕ → String) where
  unfoldable pub append_log : ℕ → String → StateWriter → StateWriter
  append_log now line sw =
      let next = (sw.next + 1) % log_ring_capacity in
      record sw {
        ring = set sw.ring sw.next (stamp now <> (" " <> line));
        next = next;
        filled = if eqb next 0 then true else sw.filled;
      }

  unfoldable pub set_phase : ℕ → String → StateWriter → StateWriter
  set_phase now phase sw =
      append_log now ("phase=" <> phase)
        (record sw { st = record sw.st { phase = phase }; dirty = true })

  unfoldable pub logf : ℕ → String → StateWriter → StateWriter
  logf now line sw = record (append_log now line sw) { dirty = true }

  unfoldable pub fail : WriteOutcome → ℕ → Option String → StateWriter → StateWriter
  fail outcome now none sw =
      (flush outcome
        (record sw { st = record sw.st { phase = failed; finished_at = now }; dirty = true })).0
  fail outcome now (some err) sw =
      let st = record sw.st { phase = failed; finished_at = now; error = err } in
      (flush outcome (append_log now ("FAIL: " <> err) (record sw { st = st; dirty = true }))).0

  unfoldable pub succeed : WriteOutcome → ℕ → StateWriter → StateWriter
  succeed outcome now sw =
      let st = record sw.st { phase = success; finished_at = now; error = "" } in
      (flush outcome
        (append_log now "SUCCESS: deploy complete" (record sw { st = st; dirty = true }))).0

  unfoldable pub mark_rolled_back : WriteOutcome → ℕ → Option String → StateWriter → StateWriter
  mark_rolled_back outcome now none sw =
      let st = record sw.st { phase = rolled_back; finished_at = now } in
      let line : String = "ROLLED BACK: deploy recovered to previous version" in
      (flush outcome (append_log now line (record sw { st = st; dirty = true }))).0
  mark_rolled_back outcome now (some reason) sw =
      let st = record sw.st {
        phase = rolled_back;
        finished_at = now;
        error = "rolled back: " <> reason;
      } in
      (flush outcome
        (append_log now ("ROLLED BACK: " <> reason) (record sw { st = st; dirty = true }))).0

  unfoldable pub mark_recovery : WriteOutcome → ℕ → Option String → StateWriter → StateWriter
  mark_recovery outcome now none sw =
      let st = record sw.st { phase = recovery } in
      (flush outcome
        (append_log now "RECOVERY MODE entered" (record sw { st = st; dirty = true }))).0
  mark_recovery outcome now (some reason) sw =
      let st = record sw.st { phase = recovery; error = reason } in
      (flush outcome
        (append_log now ("RECOVERY MODE: " <> reason) (record sw { st = st; dirty = true }))).0

-- One turn of `flusherLoop`.
unfoldable pub flusher_tick : WriteOutcome → StateWriter → StateWriter
flusher_tick outcome sw = if sw.dirty then (flush outcome sw).0 else sw

-- `Close`, without the channels: a second call returns before the flush.
unfoldable pub close : WriteOutcome → StateWriter → StateWriter
close outcome sw = (flush outcome (record sw { dirty = true })).0

blank : SelfDeployState
blank = record {
  job_id = "";
  phase = "";
  started_at = 0;
  finished_at = 0;
  error = "";
  log_tail = [];
  event_published = false;
}

-- The state that a writer starts with.
seed : ℕ → Option SelfDeployState → SelfDeployState
unfolding blank
seed now none = record blank { started_at = now }
seed now (some st) = if eqb st.started_at 0 then record st { started_at = now } else st

-- The writer before its first flush.
unfoldable pub seeded : ℕ → Option SelfDeployState → Option SelfDeployState → StateWriter
unfolding seed
seeded now initial disk = record {
  st = seed now initial;
  ring = replicate log_ring_capacity "";
  next = 0;
  filled = false;
  dirty = true;
  disk = disk;
}

-- `newStateWriter`, up to the start of the flusher: `none` for an empty path and for a first flush
-- that fails.
unfoldable pub new_state_writer :
    WriteOutcome → ℕ → String → Option SelfDeployState → Option SelfDeployState → Option StateWriter
unfolding flush seeded
new_state_writer outcome now path initial disk =
    let (sw, flushed) = flush outcome (seeded now initial disk) in
    if path == "" then none else if flushed then some sw else none
