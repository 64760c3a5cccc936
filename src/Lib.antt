-- ===== src/Lib.antt =====
-- SwirlEvo, a web console for Docker: models of its core logic in Go and proofs about them.
--
-- The program. A primary process serves an HTTP interface; behind it a business layer (biz/) works on
-- a store (dao/), on Docker daemons (docker/) and on Vault (vault/). A filter (security/) turns the
-- token of a request into a user and checks the permission that a handler asks for. A scheduler
-- (backup/) makes encrypted backups of the store, and a scaler (scaler/) was meant to change the number
-- of replicas of services. To replace its own container the primary writes a job, takes a lock and
-- starts a sidekick (cmd/deploy_agent/), which reports through a state file that the primary polls.
--
-- Files and code.
--   Common: shared types, tests on numbers, lists, texts of byte codes with what the code uses of Go's
--     `strings` and `strconv`, integers of 64 bits, bits of a word, maps as association lists.
--   Docker: what the code asks of a Docker daemon, as operations with laws; Docker.Sample is a daemon
--     with one container, which obeys them. A container is meant by its name, with a slash or without, and
--     by any start of its id; a forced removal takes anonymous volumes or leaves them.
--   Compose.Order: `topologicalOrder` of docker/compose/standalone.go. Count, Build, Placed and Loop
--     carry its invariant, Right what follows from it.
--   Compose.Engine: the deploy, the removal, start, stop and the lists of the same file. Keeps follows a
--     predicate of the daemon through them, Preserve a container and Holds a volume.
--   Deploy.Lifecycle: cmd/deploy_agent/lifecycle.go, the deploy of the sidekick with its roll-back, over
--     the same daemon. `Course` is what its other steps come upon. Survives follows one container,
--     Phases the state file.
--   Deploy.Agent: cmd/deploy_agent/agent.go, the process around that deploy; Reports is about its exit code.
--   Deploy.Job: the two JSON files of biz/self_deploy_job.go.
--   Deploy.StateWriter: cmd/deploy_agent/state_writer.go, the writer of the state file with its ring of
--     log lines. `StateWriter` is `stateWriter`, the file on disk is a field of it, each method is a
--     function, and a tick of the flusher goroutine is `flusher_tick`. Ring relates the ring to a list.
--   Deploy.Health: the waits of cmd/deploy_agent/health.go and engine.go, and the budgets of lifecycle.go.
--   Deploy.Lock: the directory of the state with its lock, and `reclaimStaleLock`.
--   Deploy.Primary: `TriggerDeploy`, `Status`, `ResetLock` and the watchdog of biz/self_deploy.go.
--   Security.Perm: security/perm.go. A permission word is a number, with `bit_and` and `bit_or`.
--   Security.Session: security/auth.go with biz/session.go, `GetPerms` of biz/role.go and the Bolt
--     store's dao/bolt/session.go and `UserGetByToken`.
--   Host: biz/host.go, with its bucket of dao/bolt/host.go and the clients that docker/host.go caches.
--     Host has the validation, Store the bucket, Manage the handlers, Local the start. Guard follows an
--     immutable host, Accepts and Untested follow the validation, Trim is about `TrimSpace`.
--   Stack.Version: biz/compose_stack_version.go over its Bolt buckets; Newest is about the order of
--     versions and their pruning, Undo about the restore.
--   Stack.Rewrite: biz/compose_stack_registry_rewrite.go, on trees of YAML nodes; Again runs it twice, and
--     Bare leaves the comments out.
--   Stack.Mirror: biz/compose_stack_image_mirror.go; Mirrored is about what is noted of
--     the images.
--   Stack.Manage: biz/compose_stack.go, with the clients of biz/hostop.go. Self has misc/self.go and the
--     check of the own container, Env the texts, Deploys `Deploy` and `runDeploy`, Calls and Moves the
--     other calls, Cases the ways in which they end.
--   Stack.Trace: the sequences of calls and jobs of Stack.Manage, with one module for each kind of theorem
--     on them.
--   Scaler: scaler/scaler.go and `ServiceScale` of docker/service.go.
--   Backup.Envelope and Backup.MasterKey: biz/backup_crypto.go.
--   Backup.Schedule, Backup.Retention, Backup.KeyStatus, Backup.Storage: biz/backup.go and the tick of
--     backup/backup.go.
--   The module Tests of each part holds the theorems at concrete inputs.
--
-- How state is modelled. A store, a directory or an object with a mutex is a record that a function
-- takes and gives back; a method under a mutex is one step. What comes from outside (Docker, the
-- clock, the random source, whether a read or write works) is an argument, most often a record of
-- answers. AES-GCM, scrypt, base64, YAML, the parser of image references, the parsers of option values
-- and the metrics are parameters, with what a theorem needs of them as its hypotheses. The clock is read
-- once for each call where the code reads it several times in a row. A call of Stack.Manage takes effect
-- at once, and the goroutine of a deploy at its end; they may follow each other in any order. As the code
-- has no lock over a call, the writes that carry back a status that was read are steps of their own, too.
--
-- Bounds. A loop over a list is a structural recursion on it. The two waits of a deploy run on fuel: as
-- many turns as poll intervals fit into the budget and two more, which is enough because each turn that
-- goes on uses up an interval or what is left of the budget. The order
-- of services runs on one turn more than there are services, which is enough because each turn places
-- one. The ring has `logRingCapacity` entries; `1 << k` and `r << 24` of a permission word are computed
-- modulo 2 ^ 64, as are the sums and differences of the scaler; an integer that `Atoi` reads lies
-- within 64 bits. Natural numbers elsewhere stand for times in nanoseconds and for lengths.
--
-- Not modelled: the creation of a container from a compose file, the reading of compose files, the secrets
-- that a deploy writes, the labels of addons, federation, the Vault client, the Mongo store, the Docker client, the HTTP interface and the web interface. Most of
-- that is translation of data or calls of libraries; the rest is left out for its length.
mod Common
pub mod Docker
pub mod Compose
pub mod Deploy
pub mod Security
pub mod Scaler
pub mod Backup
pub mod Host
pub mod Stack
