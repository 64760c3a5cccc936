-- ===== src/Stack/Mirror/Mirrored.antt =====
-- What a mirror notes of the images that it sends.
use swirl_evo.Common.{
  if-cases, Option-elim, ◌≡◌, Bool, true, false, ◌==◌, List, [], ◌∷◌, Option, none, some, Text,
  text_eq, if◌then◌else◌,
}
use swirl_evo.Docker.{Docker}
use swirl_evo.Stack.Rewrite.{RewriteAction, equal_fold}
use swirl_evo.Stack.Mirror.{
  sync, spared, noted, entry, Outcome, pulled, skipped_local_ref, no_rewrite, failed, MirrorAction,
  mirror_actions_to_cache,
}

-- What is noted of an image when no step fails and every image is pulled.
abbrev pub mirrored : RewriteAction → MirrorAction
mirrored a =
    entry
      (if a.rewritten == []
        then no_rewrite
        else if equal_fold a.original a.rewritten
        then skipped_local_ref
        else pulled)
      a

module _ (d : Docker) (get_auth : Text → Option Text) where
  -- The step of the loop, for a predicate of its result.
  pub mirror-cases :
      (P : Bool × List MirrorAction × d.Daemon → Type 0) (pull_images : Bool) (a : RewriteAction)
      (actions : List RewriteAction) (s : d.Daemon)
      → ((o : Outcome)
          → spared d get_auth pull_images a s ≡ some o
          → P (
              noted d get_auth
                (entry o a)
                (mirror_actions_to_cache d get_auth pull_images actions s)))
      → (spared d get_auth pull_images a s ≡ none
          → (sync d get_auth a s).0 ≡ true
          → P (
              noted d get_auth
                (entry pulled a)
                (mirror_actions_to_cache d get_auth pull_images actions (sync d get_auth a s).1)))
      → ((sync d get_auth a s).0 ≡ false → P (false, entry failed a ∷ [], (sync d get_auth a s).1))
      → P (mirror_actions_to_cache d get_auth pull_images (a ∷ actions) s)
  unfolding mirror_actions_to_cache
  mirror-cases P pull_images a actions s skips sends fails =
      Option-elim P (spared d get_auth pull_images a s) _ _
        (λ e. if-cases P (sync d get_auth a s).0 _ _ (λ y. sends e y) (λ n. fails n))
        (λ o e. skips o e)
