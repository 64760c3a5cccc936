-- ===== src/Stack/Trace/Jobs/Revived.antt =====
-- The write of a restore that has read the stack before its job ended.
use swirl_evo.Common.{
  ◌≡◌, refl, ap, ◌∙◌, ℕ, true, false, List, [], ◌∷◌, map, some, Text, text_eq, arith,
}
use swirl_evo.Common.Dict.{lookup, replace, update_entry, lookup-replace_self}
use swirl_evo.Docker.{Docker}
use swirl_evo.Stack.{ComposeStack}
use swirl_evo.Stack.Version.{
  ComposeStackVersion, same_files, overwrite, snapshot_if_changed, stack_update, merged,
}
use swirl_evo.Stack.Version as Version
use swirl_evo.Stack.Manage.{Answers, World, deploying}
use swirl_evo.Stack.Trace.{overwrites, finishes, finish, handle, handle_all}

module _ (d : Docker) where
  idles :
      (ends : List (Answers × ℕ)) (w : World d)
      → w.jobs ≡ []
      → handle_all d (map (λ (e : Answers × ℕ). finishes e.0 e.1) ends) w ≡ w
  unfolding handle_all handle finish
  idles [] w e = refl
  idles ((k, n) ∷ ends) w e =
      let same : finish d k n w ≡ w = rw e refl in
      ap (λ v. handle_all d (map (λ (e : Answers × ℕ). finishes e.0 e.1) ends) v) same
      ∙ idles ends w e

  -- The writes of a restore that has read the stack as deploying, when no job runs any more and the stack
  -- is still there with whatever status its job has left, store it as deploying again, and it stays so
  -- however many jobs end: where the restore changes the files and its write succeeds.
  pub overwrites-revives :
      (k : Version.Answers) (reason : Text) (version : ComposeStackVersion)
      (current old : ComposeStack) (w : World d) (ends : List (Answers × ℕ))
      → current.status ≡ deploying
      → same_files current.content current.env_file version.content version.env_file ≡ false
      → k.wrote_stack ≡ true
      → lookup current.id w.kept.stacks ≡ some old
      → w.jobs ≡ []
      → let w1 =
          handle_all d
            (overwrites k reason version current ∷ map (λ (e : Answers × ℕ). finishes e.0 e.1) ends)
            w in
        (stored : ComposeStack) × (lookup current.id w1.kept.stacks ≡ some stored)
        × (stored.status ≡ deploying)
        × (w1.jobs ≡ [])
  overwrites-revives k reason version current old w ends s f wrote e idle =
      let next : ComposeStack = record current {
        content = version.content;
        env_file = version.env_file;
        updated_at = k.now;
        updated_by = k.user;
      } in
      let w1 = handle d (overwrites k reason version current) w in
      let stacks : w1.kept.stacks ≡ replace current.id (merged old next) w.kept.stacks =
        unfold handle overwrite snapshot_if_changed stack_update update_entry in
        ground (arith, f, wrote, e) in
      let quiet : w1.jobs ≡ [] = unfold handle in idle in
      let rests : handle_all d
            (overwrites k reason version current ∷ map (λ (e : Answers × ℕ). finishes e.0 e.1) ends)
            w
          ≡ w1 =
        unfold handle_all in idles ends w1 quiet in
      (
        merged old next,
        ap (λ (v : World d). lookup current.id v.kept.stacks) rests
            ∙ (ap (λ m. lookup current.id m) stacks
                ∙ lookup-replace_self current.id (merged old next) w.kept.stacks),
        rw s refl,
        ap (λ (v : World d). v.jobs) rests ∙ quiet,
      )
