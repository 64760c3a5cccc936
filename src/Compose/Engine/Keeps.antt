-- ===== src/Compose/Engine/Keeps.antt =====
-- A predicate of the daemon that each call of the engine leaves also holds after a deploy and after a
-- removal of a project's containers.
use swirl_evo.Common.{
  if-cases, ◌≡◌, refl, Bool, true, false, not, ◌&&◌, List, [], ◌∷◌, All, Option, none, some, Text,
  text_eq, if◌then◌else◌,
}
use swirl_evo.Docker.{Docker, Summary}
use swirl_evo.Compose.Order.{
  Service, ordered, undefined_dependency, circular, out_of_fuel, topological_order,
}
use swirl_evo.Compose.Engine.{
  is_done, preserved, is_preserved, Checks, all_wait, service_deps, remove_each, remove_listed,
  remove_project_containers, start_each, replace_project, deploy_with_result,
}

-- The predicate, and that the calls leave it; `Fits` is what a list shows of each container, and only
-- containers without a preserved name are removed.
pub record Keeps (d : Docker) (preserve : List Text) : Type 1 where
  pub Kept : d.Daemon → Type 0
  pub Fits : Summary → Type 0
  pub list-Fits :
      (p : Text) (s : d.Daemon) (l : List Summary) → Kept s → d.list p s ≡ some l → All Fits l
  pub stop-Kept : (r : Text) (s : d.Daemon) → Kept s → Kept (d.stop r s).1
  pub remove-Kept :
      (c : Summary) (s : d.Daemon)
      → Fits c
      → is_preserved (preserved preserve) c ≡ false
      → Kept s
      → Kept (d.remove true c.id s).1
  pub ensure-Kept : (s : d.Daemon) → Kept s → Kept (d.ensure s).1
  pub make-Kept : (r : Text) (s : d.Daemon) → Kept s → Kept (d.make r s).1

module _ (d : Docker) (preserve : List Text) (keeps : Keeps d preserve) where
  abbrev names : List Text
  names = preserved preserve

  remove_each-Kept :
      (remove_all : Bool) (l : List Summary) (s : d.Daemon)
      → All keeps.Fits l
      → keeps.Kept s
      → keeps.Kept (remove_each d remove_all names l s).1
  unfolding remove_each
  remove_each-Kept remove_all [] s a h = h
  remove_each-Kept remove_all (c ∷ l) s a h =
      let P = λ (r : Bool × d.Daemon). keeps.Kept r.1 in
      let stopped = if c.is_running then (d.stop c.id s).1 else s in
      let removed = (d.remove true c.id stopped).1 in
      let halted =
        if-cases keeps.Kept c.is_running (d.stop c.id s).1 s (λ _. keeps.stop-Kept c.id s h)
          (λ _. h) in
      if-cases P (is_preserved names c) (remove_each d remove_all names l s) _
        (λ _. remove_each-Kept remove_all l s a.1 h)
        (λ o.
          let out = keeps.remove-Kept c stopped a.0 o halted in
          let next = remove_each-Kept remove_all l removed a.1 out in
          if-cases P (is_done (d.remove true c.id stopped).0) _ _ (λ _. next)
            (λ _. if-cases P remove_all _ (false, removed) (λ _. next) (λ _. out)))

  pub remove_project_containers-Kept :
      (project : Text) (remove_all : Bool) (s : d.Daemon)
      → keeps.Kept s
      → keeps.Kept (remove_project_containers d project remove_all preserve s).1
  remove_project_containers-Kept project remove_all s h =
      unfold remove_project_containers in listed (d.list project s) refl
    where
      listed :
          (o : Option (List Summary))
          → d.list project s ≡ o
          → keeps.Kept (remove_listed d remove_all names o s).1
      listed none e = unfold remove_listed in h
      listed (some l) e =
          unfold remove_listed in
          remove_each-Kept remove_all l s (keeps.list-Fits project s l h e) h

  start_each-Kept :
      (waits : Text → Bool) (services : List Service) (order : List Text) (s : d.Daemon)
      → keeps.Kept s
      → keeps.Kept (start_each d waits services order s).1
  unfolding start_each
  start_each-Kept waits services [] s h = h
  start_each-Kept waits services (name ∷ order) s h =
      let P = λ (r : Bool × d.Daemon). keeps.Kept r.1 in
      let made = keeps.make-Kept name s h in
      if-cases P (not (all_wait waits (service_deps services name))) (false, s) _ (λ _. h)
        (λ _.
          if-cases P (is_done (d.make name s).0) _ (false, (d.make name s).1)
            (λ _. start_each-Kept waits services order (d.make name s).1 made) (λ _. made))

  replace_project-Kept :
      (waits : Text → Bool) (project : Text) (services : List Service) (s : d.Daemon)
      → keeps.Kept s
      → keeps.Kept (replace_project d waits project preserve services s).1
  replace_project-Kept waits project services s h =
      let P = λ (r : Bool × d.Daemon). keeps.Kept r.1 in
      let s1 = (remove_project_containers d project false preserve s).1 in
      let s2 = (d.ensure s1).1 in
      let cleared = remove_project_containers-Kept project false s h in
      let ensured = keeps.ensure-Kept s1 cleared in
      unfold replace_project in
      if-cases P (not (remove_project_containers d project false preserve s).0) (false, s1) _
        (λ _. cleared)
        (λ _.
          if-cases P (not (is_done (d.ensure s1).0)) (false, s2) _ (λ _. ensured)
            (λ _.
              elim (topological_order services)
                as (λ o. P (elim o [
                  | ordered order ↦ start_each d waits services order s2
                  | _ ↦ (false, s2)
                ])) [
                  | ordered order ↦ start_each-Kept waits services order s2 ensured
                  | undefined_dependency ↦ ensured
                  | circular ↦ ensured
                  | out_of_fuel ↦ ensured
                ]))

  pub deploy_with_result-Kept :
      (k : Checks) (project : Text) (services : List Service) (s : d.Daemon)
      → keeps.Kept s
      → keeps.Kept (deploy_with_result d k project preserve services s).1
  deploy_with_result-Kept k project services s h =
      let P = λ (r : Bool × d.Daemon). keeps.Kept r.1 in
      let last = replace_project d k.waits project preserve services s in
      unfold deploy_with_result in
      if-cases P (not k.parses) (false, s) _ (λ _. h)
        (λ _.
          if-cases P (not k.is_valid) (false, s) _ (λ _. h)
            (λ _.
              if-cases P (not k.has_external_networks) (false, s) _ (λ _. h)
                (λ _.
                  if-cases P (not k.has_external_volumes) (false, s) _ (λ _. h)
                    (λ _.
                      if-cases P (k.pull_images && not k.pulls_all) (false, s) last (λ _. h)
                        (λ _. replace_project-Kept k.waits project services s h)))))
