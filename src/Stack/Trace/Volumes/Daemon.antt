-- ===== src/Stack/Trace/Volumes/Daemon.antt =====
-- What the mirror and the removal of a project leave of a volume with data.
use swirl_evo.Common.{
  if-cases, ◌≢◌, Bool, true, false, not, List, [], ◌∷◌, All-Unit, Option, Text, text_eq,
}
use swirl_evo.Docker.{Docker, VolumeLaws}
use swirl_evo.Stack.Rewrite.{RewriteAction}
use swirl_evo.Stack.Mirror.{
  is_read, sync, mirror_actions_to_cache, origin_host, resolve_registry_auth,
}
use swirl_evo.Stack.Mirror.Mirrored.{mirror-cases}
use swirl_evo.Compose.Engine.Holds.{each_listed-Holds, remove_with_preserve-Holds}
use swirl_evo.Stack.Manage.Calls.{after_remove, remove_project}

module _ (d : Docker) (laws : VolumeLaws d) (v : Text) where
  sync-Holds :
      (get_auth : Text → Option Text) (a : RewriteAction) (s : d.Daemon)
      → laws.Holds v s
      → laws.Holds v (sync d get_auth a s).1
  unfolding sync
  sync-Holds get_auth a s h =
      let P = λ (r : Bool × d.Daemon). laws.Holds v r.1 in
      let upstream = resolve_registry_auth get_auth (origin_host a.original) in
      let cache = resolve_registry_auth get_auth (origin_host a.rewritten) in
      let s1 = (d.pull_image a.original upstream s).1 in
      let s2 = (d.tag_image a.original a.rewritten s1).1 in
      let h1 = laws.pull_image-Holds v a.original upstream s h in
      let h2 = laws.tag_image-Holds v a.original a.rewritten s1 h1 in
      if-cases P (not (is_read (d.pull_image a.original upstream s).0)) (false, s1) _ (λ _. h1)
        (λ _.
          if-cases P (not (d.tag_image a.original a.rewritten s1).0) (false, s2) _ (λ _. h2)
            (λ _. laws.push_image-Holds v a.rewritten cache s2 h2))

  pub mirror-Holds :
      (get_auth : Text → Option Text) (pull_images : Bool) (actions : List RewriteAction)
      (s : d.Daemon)
      → laws.Holds v s
      → laws.Holds v (mirror_actions_to_cache d get_auth pull_images actions s).2
  mirror-Holds get_auth pull_images [] s h = unfold mirror_actions_to_cache in h
  mirror-Holds get_auth pull_images (a ∷ actions) s h =
      let synced = sync-Holds get_auth a s h in
      mirror-cases d get_auth (λ r. laws.Holds v r.2) pull_images a actions s
        (λ _ _. mirror-Holds get_auth pull_images actions s h)
        (λ _ _. mirror-Holds get_auth pull_images actions (sync d get_auth a s).1 synced)
        (λ _. synced)

  after_remove-Holds :
      (project : Text) (s : d.Daemon) → laws.Holds v s → laws.Holds v (after_remove d project s)
  unfolding after_remove
  after_remove-Holds project s h =
      let helped =
        each_listed-Holds d laws v (λ r. Unit) (λ r t. (d.remove false r t).1)
          (d.secret_containers project s) s (λ r t _. laws.remove-Holds v r false t)
          (λ l _. All-Unit l) h in
      each_listed-Holds d laws v (λ r. r ≢ v) (d.remove_volume true) (d.secret_volumes project _) _
        (λ r t n g. laws.remove_volume-Holds v r true t g n)
        (λ l shown. laws.secret_volumes-Holds v project _ l helped shown) helped

  pub remove_project-Holds :
      (project : Text) (s : d.Daemon)
      → laws.Holds v s
      → laws.Holds v (remove_project d project false s).1
  unfolding remove_project
  remove_project-Holds project s h =
      remove_with_preserve-Holds d laws v project [] (after_remove d project) s
        (λ t g. after_remove-Holds project t g) h
