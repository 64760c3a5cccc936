-- ===== src/Compose/Engine/Holds.antt =====
-- A volume with data outlives a deploy, a start and a stop of a project, and a removal that leaves the
-- volumes.
use swirl_evo.Common.{
  if-cases, ◌≡◌, refl, Bool, true, false, List, [], ◌∷◌, All, All-Unit, Option, none, some, Text,
  text_eq,
}
use swirl_evo.Docker.{Docker, VolumeLaws, Summary}
use swirl_evo.Compose.Order.{Service}
use swirl_evo.Compose.Engine.{
  is_done, Checks, remove_project_containers, deploy_with_result, each, each_listed,
  remove_with_preserve, start_stopped, start, on_listed,
}
use swirl_evo.Compose.Engine.Keeps.{Keeps, remove_project_containers-Kept, deploy_with_result-Kept}

module _ (d : Docker) (laws : VolumeLaws d) (v : Text) where
  each-Holds :
      (Q : Text → Type 0) (call : Text → d.Daemon → d.Daemon) (l : List Text) (s : d.Daemon)
      → ((r : Text) (t : d.Daemon) → Q r → laws.Holds v t → laws.Holds v (call r t))
      → All Q l
      → laws.Holds v s
      → laws.Holds v (each d call l s)
  unfolding each
  each-Holds Q call [] s keeps a h = h
  each-Holds Q call (r ∷ l) s keeps a h = each-Holds Q call l (call r s) keeps a.1 (keeps r s a.0 h)

  pub each_listed-Holds :
      (Q : Text → Type 0) (call : Text → d.Daemon → d.Daemon) (o : Option (List Text))
      (s : d.Daemon)
      → ((r : Text) (t : d.Daemon) → Q r → laws.Holds v t → laws.Holds v (call r t))
      → ((l : List Text) → o ≡ some l → All Q l)
      → laws.Holds v s
      → laws.Holds v (each_listed d call o s)
  each_listed-Holds Q call none s keeps a h = h
  each_listed-Holds Q call (some l) s keeps a h = each-Holds Q call l s keeps (a l refl) h

  abbrev keeps-Holds : (preserve : List Text) → Keeps d preserve
  keeps-Holds preserve = record {
    Kept = laws.Holds v;
    Fits = λ c. Unit;
    list-Fits = λ p s l h e. All-Unit l;
    stop-Kept = λ r s h. laws.stop-Holds v r s h;
    remove-Kept = λ c s a o h. laws.remove-Holds v c.id true s h;
    ensure-Kept = λ s h. laws.ensure-Holds v s h;
    make-Kept = λ r s h. laws.make-Holds v r s h;
  }

  pub deploy_with_result-Holds :
      (k : Checks) (project : Text) (preserve : List Text) (services : List Service) (s : d.Daemon)
      → laws.Holds v s
      → laws.Holds v (deploy_with_result d k project preserve services s).1
  deploy_with_result-Holds k project preserve services s h =
      deploy_with_result-Kept d preserve (keeps-Holds preserve) k project services s h

  start_stopped-Holds :
      (l : List Summary) (s : d.Daemon) → laws.Holds v s → laws.Holds v (start_stopped d l s).1
  unfolding start_stopped
  start_stopped-Holds [] s h = h
  start_stopped-Holds (c ∷ l) s h =
      let P = λ (r : Bool × d.Daemon). laws.Holds v r.1 in
      let begun = laws.start-Holds v c.id s h in
      if-cases P c.is_running (start_stopped d l s) _ (λ _. start_stopped-Holds l s h)
        (λ _.
          if-cases P (is_done (d.start c.id s).0) _ (false, (d.start c.id s).1)
            (λ _. start_stopped-Holds l (d.start c.id s).1 begun) (λ _. begun))

  pub start-Holds :
      (project : Text) (s : d.Daemon) → laws.Holds v s → laws.Holds v (start d project s).1
  unfolding start
  start-Holds project s h =
      elim (d.list project s) as (λ o. laws.Holds v (on_listed d (start_stopped d) o s).1) [
        | none ↦ h
        | some l ↦ start_stopped-Holds l s h
      ]

  -- A removal that leaves the volumes leaves a volume that the hook leaves.
  pub remove_with_preserve-Holds :
      (project : Text) (preserve : List Text) (after_remove : d.Daemon → d.Daemon) (s : d.Daemon)
      → ((t : d.Daemon) → laws.Holds v t → laws.Holds v (after_remove t))
      → laws.Holds v s
      → laws.Holds v (remove_with_preserve d project false preserve after_remove s).1
  unfolding remove_with_preserve
  remove_with_preserve-Holds project preserve after_remove s keeps h =
      let P = λ (r : Bool × d.Daemon). laws.Holds v r.1 in
      let s1 = (remove_project_containers d project true preserve s).1 in
      let cleared =
        remove_project_containers-Kept d preserve (keeps-Holds preserve) project true s h in
      if-cases P (remove_project_containers d project true preserve s).0 _ (false, s1)
        (λ _. keeps _ (
          each_listed-Holds (λ r. Unit) d.remove_network (d.networks project s1) s1
            (λ r t _. laws.remove_network-Holds v r t) (λ l e. All-Unit l) cleared))
        (λ _. cleared)
