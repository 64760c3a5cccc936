-- ===== src/Stack/Trace/Removal.antt =====
-- The guard of a removal, and what a removal that succeeds leaves in the store.
use swirl_evo.Common.{
  if-cases, ◌≡◌, refl, sym, ap, fun_ext, ◌∙◌, Bool, true, false, not, ◌&&◌, Bool-cases, inl, inr,
  List, [], ◌∷◌, All, any, map, select, Option, none, some, Text, arith, text_eq,
}
use swirl_evo.Common.Dict.{lookup}
use swirl_evo.Docker.{Docker, Volume}
use swirl_evo.Host.{Host}
use swirl_evo.Compose.Engine.{list_project_volumes, volume_summaries, has_data}
use swirl_evo.Stack.{ComposeStack}
use swirl_evo.Stack.Manage.{
  Answers, Ending, ok, failed, volumes_contain_data, World, ready, resolve_host_client, noted,
  deleted,
}
use swirl_evo.Stack.Manage.Deploys.{with_client}
use swirl_evo.Stack.Manage.Calls.{
  with_data, listed_with_data, volumes_in_the_way, unless_in_the_way, guarded_drop, drop_project,
  remove, remove_external, loaded, on_host, forget,
}

module _ (d : Docker) where
  -- The daemon tells the size of no volume, as a list of volumes without `UsageData`.
  abbrev pub Unsized : Type 0
  Unsized =
      (name : Text) (s : d.Daemon) (l : List Volume)
      → d.volumes name s ≡ some l
      → All (λ (v : Volume). v.usage ≡ none) l

  with_data-unsized :
      (l : List Volume)
      → All (λ (v : Volume). v.usage ≡ none) l
      → with_data (map (λ (v : Volume). (v.name, has_data v)) l) ≡ []
  unfolding with_data
  with_data-unsized [] u = refl
  with_data-unsized (v ∷ l) u = rw u.0 (with_data-unsized l u.1)

  volumes_in_the_way-unsized :
      (name : Text) (removes_volumes force : Bool) (s : d.Daemon)
      → Unsized
      → volumes_in_the_way d name removes_volumes force s ≡ []
  unfolding volumes_in_the_way list_project_volumes
  volumes_in_the_way-unsized name removes_volumes force s unsized =
      if-cases (λ (l : List Text). l ≡ []) (removes_volumes && not force) _ []
        (λ _. seen (d.volumes name s) refl) (λ _. refl)
    where
      seen :
          (o : Option (List Volume))
          → d.volumes name s ≡ o
          → listed_with_data (volume_summaries o) ≡ []
      seen none e = refl
      seen (some l) e = with_data-unsized l (unsized name s l e)

  -- Where nothing is in the way, a removal does what a forced one does.
  guarded_drop-unsized :
      (k : Answers) (name : Text) (removes_volumes : Bool) (next : World d → Ending × World d)
      (client : Text) (w : World d)
      → Unsized
      → guarded_drop d k name removes_volumes false next client w
        ≡ guarded_drop d k name removes_volumes true next client w
  unfolding guarded_drop
  guarded_drop-unsized k name removes_volumes next client w unsized =
      let rest = drop_project d k name client removes_volumes next w in
      let without =
        ap (λ (vs : List Text). unless_in_the_way d vs rest w)
          (volumes_in_the_way-unsized name removes_volumes false (w.daemons client) unsized) in
      let forced =
        ap (λ (vs : List Text). unless_in_the_way d vs rest w)
          (volumes_in_the_way-unsized name removes_volumes true (w.daemons client) unsized) in
      without ∙ sym forced

  -- Where the daemon's list of volumes has no sizes, Remove without force does all that Remove with force
  -- does, and so does the removal of a project that only the daemon knows: no volume holds them up.
  pub remove-unsized :
      (k : Answers) (id host_id name : Text) (removes_volumes : Bool) (w : World d)
      → Unsized
      → (remove d k id removes_volumes false w ≡ remove d k id removes_volumes true w)
        × (remove_external d k host_id name removes_volumes false w
            ≡ remove_external d k host_id name removes_volumes true w)
  unfolding remove remove_external
  remove-unsized k id host_id name removes_volumes w unsized = (
    ap
        (λ (f : ComposeStack → Text → World d → Ending × World d).
          loaded d k id w (λ stack. on_host d k stack.host_id (f stack) w))
        (fun_ext (λ stack. fun_ext (λ client. fun_ext (λ u.
          guarded_drop-unsized k stack.name removes_volumes (forget d k stack id) client u
            unsized)))),
    ap (λ (f : Text → World d → Ending × World d). on_host d k host_id f w)
        (fun_ext (λ client. fun_ext (λ u.
          guarded_drop-unsized k name removes_volumes
            (λ w1. (ok [], noted d deleted host_id name w1)) client u unsized))),
  )

  with_data-select :
      (l : List Volume)
      → with_data (map (λ (v : Volume). (v.name, has_data v)) l)
        ≡ map (λ (v : Volume). v.name) (select has_data l)
  unfolding with_data
  with_data-select [] = refl
  with_data-select (v ∷ l) = ground (arith, with_data-select l)

  refused :
      (l : List Volume) (rest : Ending × World d) (w : World d)
      → any has_data l ≡ true
      → unless_in_the_way d (map (λ (v : Volume). v.name) (select has_data l)) rest w
        ≡ (failed (volumes_contain_data (map (λ (v : Volume). v.name) (select has_data l))), w)
  refused [] rest w h = cc
  refused (v ∷ l) rest w h = elim (Bool-cases (has_data v)) [
    | inl y ↦ rw y refl
    | inr n ↦ rw n (refused l rest w (ground (arith, n, h)))
  ]

  -- A removal with the volumes but without force is refused with the names of the volumes that hold data,
  -- where the daemon's list shows any: the stack, its bindings and versions, and every daemon stay as they
  -- are. The stack must be found and its host's client made.
  pub remove-refuses :
      (k : Answers) (id client : Text) (stack : ComposeStack) (host : Host) (l : List Volume)
      (w : World d)
      → k.reads_stack ≡ true
      → lookup id w.kept.stacks ≡ some stack
      → resolve_host_client k stack.host_id w.bucket w.clients ≡ ready client host
      → d.volumes stack.name (w.daemons client) ≡ some l
      → any has_data l ≡ true
      → remove d k id true false w ≡ (
        failed (volumes_contain_data (map (λ (v : Volume). v.name) (select has_data l))),
        with_client d k stack.host_id w,
      )
  unfolding remove on_host guarded_drop volumes_in_the_way list_project_volumes
  remove-refuses k id client stack host l w reads found resolved listed holds =
      let u = with_client d k stack.host_id w in
      let rest = drop_project d k stack.name client true (forget d k stack id) u in
      rw (reads, found, resolved, listed, with_data-select l) (refused l rest u holds)
