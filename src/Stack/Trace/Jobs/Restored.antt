-- ===== src/Stack/Trace/Jobs/Restored.antt =====
-- The restore of a version leaves the rule that a stack that deploys has a job.
use swirl_evo.Common.{
  if-cases, ◌≡◌, refl, sym, subst, ℕ, not, ◌||◌, ◌==◌, List, [], Option, none, some, Text, arith,
  text_eq, if◌then◌else◌,
}
use swirl_evo.Common.Dict.{lookup}
use swirl_evo.Stack.{ComposeStack}
use swirl_evo.Stack.Version.{
  Answers, ComposeStackVersion, Result, Stacks, snapshot_if_changed, stack_update, same_files,
  overwrite, restore_found, restore_version,
}
use swirl_evo.Stack.Manage.{Job, deploying}
use swirl_evo.Stack.Trace.Jobs.Stored.{HasJob, Waits, Waits-stack_update}

module _ (jobs : List Job) where
  pub overwrite-Waits :
      (k : Answers) (reason : Text) (version : ComposeStackVersion) (current : ComposeStack)
      (s : Stacks)
      → (current.status ≡ deploying → HasJob current.id jobs)
      → Waits jobs s.stacks
      → Waits jobs (overwrite k reason version current s).1.stacks
  unfolding overwrite snapshot_if_changed
  overwrite-Waits k reason version current s allowed h =
      let P = λ (r : Result × Stacks). Waits jobs r.1.stacks in
      let next : ComposeStack = record current {
        content = version.content;
        env_file = version.env_file;
        updated_at = k.now;
        updated_by = k.user;
      } in
      let updated = Waits-stack_update jobs k.wrote_stack next s.stacks allowed h in
      if-cases P (same_files current.content current.env_file version.content version.env_file) _ _
        (λ _. h)
        (λ _.
          if-cases P (stack_update k.wrote_stack next s.stacks).0 _ _ (λ _. updated) (λ _. updated))

  pub restore_version-Waits :
      (k : Answers) (reason : ℕ → Text) (stack_id version_id : Text) (s : Stacks)
      → Waits jobs s.stacks
      → Waits jobs (restore_version k reason stack_id version_id s).1.stacks
  unfolding restore_version
  restore_version-Waits k reason stack_id version_id s h =
      let P = λ (r : Result × Stacks). Waits jobs r.1.stacks in
      if-cases P (stack_id == [] || version_id == []) _ _ (λ _. h)
        (λ _.
          if-cases P (not k.reads_version) _ _ (λ _. h)
            (λ _. found (lookup version_id s.versions) _ read))
    where
      found :
          (version : Option ComposeStackVersion) (o : Option (Option ComposeStack))
          → ((stack : ComposeStack)
              → o ≡ some (some stack)
              → stack.status ≡ deploying
              → HasJob stack.id jobs)
          → Waits jobs (restore_found k reason stack_id version o s).1.stacks
      found none o r = h
      found (some version) none r =
          if-cases (λ (r : Result × Stacks). Waits jobs r.1.stacks)
            (not (version.stack_id == stack_id)) _ _ (λ _. h) (λ _. h)
      found (some version) (some none) r =
          if-cases (λ (r : Result × Stacks). Waits jobs r.1.stacks)
            (not (version.stack_id == stack_id)) _ _ (λ _. h) (λ _. h)
      found (some version) (some (some current)) r =
          if-cases (λ (r : Result × Stacks). Waits jobs r.1.stacks)
            (not (version.stack_id == stack_id)) _ _ (λ _. h)
            (λ _. overwrite-Waits k (reason version.revision) version current s (r current refl) h)

      read :
          (stack : ComposeStack)
          → (if k.reads_stack then some (lookup stack_id s.stacks) else none) ≡ some (some stack)
          → stack.status ≡ deploying
          → HasJob stack.id jobs
      read stack e x =
          let (a, b, c) = h stack_id stack (ground (arith, e)) in
          subst (λ i. HasJob i jobs) (sym a) (c x)
