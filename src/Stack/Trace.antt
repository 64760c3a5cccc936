-- ===== src/Stack/Trace.antt =====
-- Any sequence of the calls of biz/compose_stack.go, with the goroutines of earlier deploys between
-- them: a call takes effect at once, and a job at its end. The code has no lock over a call, so for the
-- calls that write back the status that they have read the write also is a step of its own, with what
-- was read before: `overwrites` for RestoreVersion, `deploys` without addons for DeployByID and for a
-- Start that deploys. The others write a status of their own, in one transaction of the store.
pub mod Volumes
pub mod Jobs
pub mod Removal
pub mod Names
pub mod Content
pub mod Forgotten
mod Tests
use swirl_evo.Common.{
  ℕ, zero, suc, Bool, List, [], ◌∷◌, Option, none, some, Text, get_elem?, text_eq,
}
use swirl_evo.Docker.{Docker}
use swirl_evo.Stack.{ComposeStack}
use swirl_evo.Stack.Version.{ComposeStackVersion, overwrite, restore_version}
use swirl_evo.Stack.Version as Version
use swirl_evo.Stack.Manage.{Answers, Job, World, save_with_addons}
use swirl_evo.Stack.Manage.Deploys.{deploy_with_addons, run_deploy}
use swirl_evo.Stack.Manage.Calls.{
  deploy_by_id, start, stop, remove, start_external, stop_external, remove_external,
}
use swirl_evo.Stack.Manage.Moves.{import_stack, migrate}

pub data Call : Type 0 where
  saves : Answers → Bool → ComposeStack → Call
  deploys : Answers → Bool → ComposeStack → Bool → Call
  redeploys : Answers → Text → Bool → Call
  starts stops : Answers → Text → Call
  removes : Answers → Text → Bool → Bool → Call
  imports : Answers → ComposeStack → Bool → Bool → Call
  migrates : Answers → Text → Text → Bool → Call
  starts_external stops_external : Answers → Text → Text → Call
  removes_external : Answers → Text → Text → Bool → Bool → Call
  restores : Version.Answers → (ℕ → Text) → Text → Text → Call
  -- the writes of a restore, with the version and the stack that it has read
  overwrites : Version.Answers → Text → ComposeStackVersion → ComposeStack → Call
  -- the end of the goroutine with this place among those that run
  finishes : Answers → ℕ → Call

abbrev pub without : ℕ → List Job → List Job
without n [] = []
without zero (j ∷ jobs) = jobs
without (suc n) (j ∷ jobs) = j ∷ without n jobs

module _ (d : Docker) where
  unfoldable pub finish : Answers → ℕ → World d → World d
  unfolding run_deploy
  finish k n w = elim (get_elem? w.jobs n) [
    | none ↦ w
    | some j ↦ run_deploy d k j (record w { jobs = without n w.jobs })
  ]

  unfoldable pub handle : Call → World d → World d
  unfolding save_with_addons deploy_with_addons deploy_by_id start stop remove import_stack migrate
      start_external stop_external remove_external restore_version overwrite finish
  handle (saves k has_addon stack) w = (save_with_addons d k has_addon stack w).1
  handle (deploys k has_addon stack pull_images) w =
      (deploy_with_addons d k has_addon stack pull_images w).1
  handle (redeploys k id pull_images) w = (deploy_by_id d k id pull_images w).1
  handle (starts k id) w = (start d k id w).1
  handle (stops k id) w = (stop d k id w).1
  handle (removes k id removes_volumes force) w = (remove d k id removes_volumes force w).1
  handle (imports k stack redeploy pull_images) w =
      (import_stack d k stack redeploy pull_images w).1
  handle (migrates k id target redeploy) w = (migrate d k id target redeploy w).1
  handle (starts_external k host_id name) w = (start_external d k host_id name w).1
  handle (stops_external k host_id name) w = (stop_external d k host_id name w).1
  handle (removes_external k host_id name removes_volumes force) w =
      (remove_external d k host_id name removes_volumes force w).1
  handle (restores k reason stack_id version_id) w = record w {
    kept = (restore_version k reason stack_id version_id w.kept).1;
  }
  handle (overwrites k reason version current) w = record w {
    kept = (overwrite k reason version current w.kept).1;
  }
  handle (finishes k n) w = finish k n w

  unfoldable pub handle_all : List Call → World d → World d
  unfolding handle
  handle_all [] w = w
  handle_all (c ∷ calls) w = handle_all calls (handle c w)
