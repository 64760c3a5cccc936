-- ===== src/Compose/Engine.antt =====
-- The engine of docker/compose/standalone.go over a Docker daemon: a deploy, a removal, start and stop
-- of a project, its volumes and the list of the projects. What parsing, validation and the preflight checks say is an argument.
mod Keeps
pub mod Preserve
pub mod Holds
use swirl_evo.Common.{
  ℕ, ◌+◌, Bool, true, false, not, ◌&&◌, ◌==◌, List, [], ◌∷◌, ◌++◌, map, any, eqb, Option, none,
  some, Text, codes, text_eq, if◌then◌else◌,
}
use swirl_evo.Common.Int.{is_positive}
use swirl_evo.Common.Dict.{Dict, lookup, replace}
use swirl_evo.Docker.{Docker, Reply, done, not_found, refused, Summary, Labelled, Volume, bare}
use swirl_evo.Compose.Order.{
  Service, names, is_name, Ordering, ordered, undefined_dependency, circular, out_of_fuel,
  topological_order,
}

abbrev pub is_done : Reply → Bool
is_done done = true
is_done _ = false

-- The set of names to preserve, without the empty name.
abbrev pub preserved : List Text → List Text
preserved [] = []
preserved (n ∷ ns) = let rest = preserved ns in if bare n == [] then rest else bare n ∷ rest

abbrev pub is_preserved : List Text → Summary → Bool
is_preserved preserve c = any (λ n. any (λ p. p == bare n) preserve) c.names

-- What the steps before the first change find, and the waits for dependencies.
pub record Checks : Type 0 where
  pub parses : Bool
  pub is_valid : Bool
  pub has_external_networks : Bool
  pub has_external_volumes : Bool
  pub pull_images : Bool
  pub pulls_all : Bool
  pub waits : Text → Bool

abbrev pub all_wait : (Text → Bool) → List Text → Bool
all_wait waits [] = true
all_wait waits (d ∷ ds) = waits d && all_wait waits ds

-- The dependencies of a service: `idxByName` keeps the last of a name.
abbrev pub service_deps : List Service → Text → List Text
service_deps [] name = []
service_deps (s ∷ services) name =
    let later = service_deps services name in
    if is_name (names services) name then later else if s.name == name then s.depends_on else []

-- What `VolumeList` shows of a project's volumes.
abbrev pub volume_names : Option (List Volume) → Option (List Text)
volume_names none = none
volume_names (some l) = some (map (λ (v : Volume). v.name) l)

abbrev pub has_data : Volume → Bool
has_data v = elim v.usage [ none ↦ false | some size ↦ is_positive size ]

abbrev pub volume_summaries : Option (List Volume) → Option (List (Text × Bool))
volume_summaries none = none
volume_summaries (some l) = some (map (λ (v : Volume). (v.name, has_data v)) l)

pub record StackInfo : Type 0 where
  pub name : Text
  pub services : List Text
  pub containers : ℕ
  pub running : ℕ
  pub status : Text

abbrev pub new_info : Text → StackInfo
new_info name = record { name = name; services = []; containers = 0; running = 0; status = [] }

abbrev pub counted : Labelled → StackInfo → StackInfo
counted c info = record info {
  containers = info.containers + 1;
  running = if c.is_running then info.running + 1 else info.running;
  services =
      if not (c.service == []) && not (any (λ s. s == c.service) info.services)
      then info.services ++ (c.service ∷ [])
      else info.services;
}

abbrev pub info_or_new : Text → Option StackInfo → StackInfo
info_or_new name none = new_info name
info_or_new name (some info) = info

-- The loop of `List`, over the containers that are left.
unfoldable pub group_from : Dict Text StackInfo → List Labelled → Dict Text StackInfo
unfolding lookup replace
group_from by_project [] = by_project
group_from by_project (c ∷ cs) =
    let info = counted c (info_or_new c.project (lookup c.project by_project)) in
    let skipped = group_from by_project cs in
    let next = group_from (replace c.project info by_project) cs in
    if c.project == [] then skipped else next

unfoldable pub group : List Labelled → Dict Text StackInfo
unfolding group_from
group cs = group_from [] cs

abbrev pub live_status : ℕ → ℕ → Text
live_status running containers =
    if eqb running 0
    then codes "inactive"
    else if eqb running containers
    then codes "active"
    else codes "partial"

abbrev pub infos : Dict Text StackInfo → List StackInfo
infos [] = []
infos ((k, s) ∷ m) = record s { status = live_status s.running s.containers } ∷ infos m

module _ (d : Docker) where
  -- The loop of `removeProjectContainers`.
  unfoldable pub remove_each : Bool → List Text → List Summary → d.Daemon → Bool × d.Daemon
  remove_each remove_all preserve [] s = (true, s)
  remove_each remove_all preserve (c ∷ cs) s =
      let stopped = if c.is_running then (d.stop c.id s).1 else s in
      let (reply, removed) = d.remove true c.id stopped in
      let kept = remove_each remove_all preserve cs s in
      let next = remove_each remove_all preserve cs removed in
      if is_preserved preserve c
      then kept
      else if is_done reply
      then next
      else if remove_all
      then next
      else (false, removed)

  remove_listed : Bool → List Text → Option (List Summary) → d.Daemon → Bool × d.Daemon
  unfolding remove_each
  remove_listed remove_all preserve none s = (false, s)
  remove_listed remove_all preserve (some l) s = remove_each remove_all preserve l s

  unfoldable pub remove_project_containers : Text → Bool → List Text → d.Daemon → Bool × d.Daemon
  unfolding remove_listed
  remove_project_containers project remove_all preserve s =
      remove_listed remove_all (preserved preserve) (d.list project s) s

  -- The loop over the order, with the services' dependencies.
  unfoldable pub start_each : (Text → Bool) → List Service → List Text → d.Daemon → Bool × d.Daemon
  start_each waits services [] s = (true, s)
  start_each waits services (name ∷ order) s =
      let (reply, made) = d.make name s in
      let next = start_each waits services order made in
      if not (all_wait waits (service_deps services name))
      then (false, s)
      else if is_done reply
      then next
      else (false, made)

  -- `DeployWithResult` behind the preflight checks.
  replace_project : (Text → Bool) → Text → List Text → List Service → d.Daemon → Bool × d.Daemon
  unfolding remove_project_containers start_each
  replace_project waits project preserve services s =
      let (removed, s1) = remove_project_containers project false preserve s in
      let (reply, s2) = d.ensure s1 in
      if not removed
      then (false, s1)
      else if not (is_done reply)
      then (false, s2)
      else elim (topological_order services) [
        | ordered order ↦ start_each waits services order s2
        | _ ↦ (false, s2)
      ]

  unfoldable pub deploy_with_result :
      Checks → Text → List Text → List Service → d.Daemon → Bool × d.Daemon
  unfolding replace_project
  deploy_with_result k project preserve services s =
      if not k.parses
      then (false, s)
      else if not k.is_valid
      then (false, s)
      else if not k.has_external_networks
      then (false, s)
      else if not k.has_external_volumes
      then (false, s)
      else if k.pull_images && not k.pulls_all
      then (false, s)
      else replace_project k.waits project preserve services s

  -- One call for each name, whose answers are not read; none for a list that fails.
  unfoldable pub each : (Text → d.Daemon → d.Daemon) → List Text → d.Daemon → d.Daemon
  each call [] s = s
  each call (n ∷ ns) s = each call ns (call n s)

  abbrev pub each_listed : (Text → d.Daemon → d.Daemon) → Option (List Text) → d.Daemon → d.Daemon
  each_listed call none s = s
  each_listed call (some l) s = each call l s

  -- `removeWithPreserve` with the effect of the hooks' `AfterRemove`.
  unfoldable pub remove_with_preserve :
      Text → Bool → List Text → (d.Daemon → d.Daemon) → d.Daemon → Bool × d.Daemon
  unfolding remove_project_containers each
  remove_with_preserve project removes_volumes preserve after_remove s =
      let (removed, s1) = remove_project_containers project true preserve s in
      let s2 = each_listed d.remove_network (d.networks project s1) s1 in
      let s3 = each_listed (d.remove_volume false) (volume_names (d.volumes project s2)) s2 in
      if removed then (true, after_remove (if removes_volumes then s3 else s2)) else (false, s1)

  -- `RemoveExcept` as the roll-back calls it: without the volumes and without a hook.
  unfoldable pub remove_except : Text → List Text → d.Daemon → Bool × d.Daemon
  unfolding remove_with_preserve
  remove_except project preserve s = remove_with_preserve project false preserve (λ s. s) s

  -- `ListProjectVolumes`: each managed volume with whether it has data.
  unfoldable pub list_project_volumes : Text → d.Daemon → Option (List (Text × Bool))
  list_project_volumes project s = volume_summaries (d.volumes project s)

  -- The loops of `Start` and `Stop`.
  unfoldable pub start_stopped : List Summary → d.Daemon → Bool × d.Daemon
  start_stopped [] s = (true, s)
  start_stopped (c ∷ cs) s =
      let (reply, started) = d.start c.id s in
      let skipped = start_stopped cs s in
      let next = start_stopped cs started in
      if c.is_running then skipped else if is_done reply then next else (false, started)

  unfoldable pub stop_running : List Summary → d.Daemon → Bool × d.Daemon
  stop_running [] s = (true, s)
  stop_running (c ∷ cs) s =
      let (reply, stopped) = d.stop c.id s in
      let skipped = stop_running cs s in
      let next = stop_running cs stopped in
      if not c.is_running then skipped else if is_done reply then next else (false, stopped)

  abbrev pub on_listed :
      (List Summary → d.Daemon → Bool × d.Daemon)
      → Option (List Summary)
      → d.Daemon
      → Bool × d.Daemon
  on_listed run none s = (false, s)
  on_listed run (some l) s = run l s

  unfoldable pub start : Text → d.Daemon → Bool × d.Daemon
  unfolding start_stopped
  start project s = on_listed start_stopped (d.list project s) s

  unfoldable pub stop : Text → d.Daemon → Bool × d.Daemon
  unfolding stop_running
  stop project s = on_listed stop_running (d.list project s) s

  -- `List`: the projects of the daemon.
  unfoldable pub list : d.Daemon → Option (List StackInfo)
  unfolding group
  list s = elim (d.labelled s) [ none ↦ none | some l ↦ some (infos (group l)) ]
