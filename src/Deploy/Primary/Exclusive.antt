-- ===== src/Deploy/Primary/Exclusive.antt =====
-- One deploy at a time: what a trigger does to the lock.
use swirl_evo.Common.{
  ℕ, String, ◌≡◌, ◌≢◌, refl, true, false, string_eq, arith, ◌⊎◌, Option, none, some,
}
use swirl_evo.Deploy.Job.{SelfDeployJob}
use swirl_evo.Deploy.Lock.{stored, is_running, ReclaimAnswers, reclaim}
use swirl_evo.Deploy.Lock.Stale.{ShowsInProgress, reclaim_running}
use swirl_evo.Deploy.Primary.{
  Primary, TriggerAnswers, started, trigger_failed, trigger_deploy, trigger_job, trigger_locked,
  before_lock, created_by, initial_state,
}

module _ (stamp : ℕ → String) (a : TriggerAnswers) (w : Primary) where
  before_lock-dir :
      (job : SelfDeployJob)
      → ShowsInProgress w.dir
      → is_running a.reclaiming.inspection ≡ true
      → (before_lock stamp a job w).dir ≡ w.dir
  unfolding before_lock
  before_lock-dir job p r =
      ground (arith, reclaim_running stamp (record a.reclaiming { has_client = true }) w.dir p r)

  before_lock-sidekicks :
      (job : SelfDeployJob) → (before_lock stamp a job w).sidekicks ≡ w.sidekicks
  unfolding before_lock
  before_lock-sidekicks job = ground arith

  trigger_job_held :
      (job : SelfDeployJob)
      → w.dir.locked ≡ true
      → ShowsInProgress w.dir
      → is_running a.reclaiming.inspection ≡ true
      → ((trigger_job stamp a job w).1.dir ≡ w.dir)
        × ((trigger_job stamp a job w).1.sidekicks ≡ w.sidekicks)
        × ((j : SelfDeployJob) → (trigger_job stamp a job w).0 ≢ started j)
  unfolding trigger_job
  trigger_job_held job l p r = (
    ground (arith, before_lock-dir job p r),
    ground (arith, before_lock-dir job p r, before_lock-sidekicks job),
    λ j. ground (arith, before_lock-dir job p r),
  )

  -- While the lock is held, the state file shows a deploy at work and its container runs, a trigger
  -- starts nothing: the three files and the sidekicks stay as they were.
  pub trigger_deploy_exclusive :
      w.dir.locked ≡ true
      → ShowsInProgress w.dir
      → is_running a.reclaiming.inspection ≡ true
      → ((trigger_deploy stamp a w).1.dir ≡ w.dir)
        × ((trigger_deploy stamp a w).1.sidekicks ≡ w.sidekicks)
        × ((j : SelfDeployJob) → (trigger_deploy stamp a w).0 ≢ started j)
  unfolding trigger_deploy
  trigger_deploy_exclusive l p r = go a.prepared refl
    where
      go :
          (o : Option SelfDeployJob)
          → a.prepared ≡ o
          → ((trigger_deploy stamp a w).1.dir ≡ w.dir)
            × ((trigger_deploy stamp a w).1.sidekicks ≡ w.sidekicks)
            × ((j : SelfDeployJob) → (trigger_deploy stamp a w).0 ≢ started j)
      go none e = rw (e, trigger_deploy) (refl, refl, λ j q. cc)
      go (some job) e = rw (e, trigger_deploy) (trigger_job_held (created_by a.user job) l p r)

  reclaim_keeps_free :
      (r : ReclaimAnswers) → w.dir.locked ≡ false → (reclaim stamp r w.dir).1.locked ≡ false
  unfolding reclaim
  reclaim_keeps_free r l = ground arith

  before_lock-free :
      (job : SelfDeployJob) → w.dir.locked ≡ false → (before_lock stamp a job w).dir.locked ≡ false
  unfolding before_lock
  before_lock-free job l =
      ground (arith, reclaim_keeps_free (record a.reclaiming { has_client = true }) l)

module _ (a : TriggerAnswers) where
  -- A run that spawned nothing gives the lock back, and one that did keeps it.
  trigger_locked-locked :
      (job : SelfDeployJob) (w : Primary)
      → a.released ≡ true
      → w.dir.locked ≡ true
      → ((trigger_locked a job w).0 ≡ trigger_failed)
          × ((trigger_locked a job w).1.dir.locked ≡ false)
        ⊎ ((trigger_locked a job w).0 ≡ started job)
          × ((trigger_locked a job w).1.dir.locked ≡ true)
  unfolding trigger_locked
  trigger_locked-locked job w r l = ground arith

  -- What a run that spawned leaves.
  trigger_locked-started :
      (job j : SelfDeployJob) (w : Primary)
      → (trigger_locked a job w).0 ≡ started j
      → (j ≡ job)
        × ((trigger_locked a job w).1.dir
            ≡ record w.dir { state = stored (initial_state a.now job); job = stored job })
  unfolding trigger_locked
  trigger_locked-started job j w h = (ground arith, ground arith)

-- The primary once it has created the lock.
with_lock : Primary → Primary
with_lock w = record w { dir = record w.dir { locked = true } }

module _ (stamp : ℕ → String) (a : TriggerAnswers) (w : Primary) where
  trigger_job-releases :
      (job : SelfDeployJob)
      → a.released ≡ true
      → w.dir.locked ≡ false
      → ((j : SelfDeployJob) → (trigger_job stamp a job w).0 ≢ started j)
      → (trigger_job stamp a job w).1.dir.locked ≡ false
  unfolding trigger_job with_lock
  trigger_job-releases job r l n = ground (
    arith,
    n job,
    before_lock-free stamp a w job l,
    trigger_locked-locked a job (with_lock (before_lock stamp a job w)) r refl,
  )

  trigger_job-started :
      (job j : SelfDeployJob)
      → (trigger_job stamp a job w).0 ≡ started j
      → (j ≡ job)
        × ((trigger_job stamp a job w).1.dir
            ≡ record { locked = true; state = stored (initial_state a.now job); job = stored job })
  unfolding trigger_job with_lock
  trigger_job-started job j h =
      ground (arith, trigger_locked-started a job j (with_lock (before_lock stamp a job w)))

  -- From a free lock, a trigger that does not start a deploy leaves the lock free, whatever step
  -- failed, provided that its removal of the lock file succeeds.
  pub trigger_deploy-releases :
      a.released ≡ true
      → w.dir.locked ≡ false
      → ((j : SelfDeployJob) → (trigger_deploy stamp a w).0 ≢ started j)
      → (trigger_deploy stamp a w).1.dir.locked ≡ false
  unfolding trigger_deploy
  trigger_deploy-releases r l n = go a.prepared refl
    where
      go :
          (o : Option SelfDeployJob)
          → a.prepared ≡ o
          → (trigger_deploy stamp a w).1.dir.locked ≡ false
      go none e = rw (e, trigger_deploy) l
      go (some job) e =
          rw (e, trigger_deploy)
            (trigger_job-releases (created_by a.user job) r l (rw (e, trigger_deploy) at n))

  -- A trigger that starts a deploy holds the lock, has written the job with its starter's name, and
  -- has written a pending state for that job.
  trigger_deploy-started :
      (j : SelfDeployJob)
      → (trigger_deploy stamp a w).0 ≡ started j
      → (job : SelfDeployJob) × (a.prepared ≡ some job)
        × (j ≡ created_by a.user job)
        × ((trigger_deploy stamp a w).1.dir
            ≡ record { locked = true; state = stored (initial_state a.now j); job = stored j })
  unfolding trigger_deploy
  trigger_deploy-started j h = go a.prepared refl
    where
      go :
          (o : Option SelfDeployJob)
          → a.prepared ≡ o
          → (job : SelfDeployJob) × (a.prepared ≡ some job)
            × (j ≡ created_by a.user job)
            × ((trigger_deploy stamp a w).1.dir
                ≡ record { locked = true; state = stored (initial_state a.now j); job = stored j })
      go none e = absurd (ground (arith, e))
      go (some job) e = (
        job,
        e,
        ground (arith, e, trigger_job-started (created_by a.user job) j),
        ground (arith, e, trigger_job-started (created_by a.user job) j),
      )
