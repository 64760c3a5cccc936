-- ===== src/Stack/Manage/Cases/Travels.antt =====
-- The ways in which import and migrate end.
use swirl_evo.Common.{
  if-cases, Option-elim, ◌≡◌, refl, Bool, true, false, not, ◌&&◌, ◌||◌, ◌==◌, [], Option, none,
  some, Text, codes, arith, text_eq,
}
use swirl_evo.Common.Dict.{lookup}
use swirl_evo.Docker.{Docker}
use swirl_evo.Host.{Host}
use swirl_evo.Stack.{ComposeStack}
use swirl_evo.Stack.Version.{stack_update}
use swirl_evo.Stack.Manage.{
  Answers, Action, Ending, Error, ok, failed, ids_required, store_failed, already_managed, no_stack,
  not_stopped, same_host, target_not_found, cross_mode, name_conflict, migrated, World, get_by_name,
  inactive, noted, with_stacks,
}
use swirl_evo.Stack.Manage.Deploys.{with_client, deploy}
use swirl_evo.Stack.Manage.Moves.{
  noted_if_ok, import_filled, reconstructed, import_new, import_stack, moved, move_record,
  clear_source, runs_there, probed, is_other_mode, migrate_to, migrate_found, migrate_loaded,
  migrate,
}
use swirl_evo.Stack.Manage.Cases.Drops.{on_host-cases}

module _ (d : Docker) (P : Ending × World d → Type 0) where
  not-false : {b : Bool} → not b ≡ false → b ≡ true
  not-false e = ground (arith, e)

  -- An import ends before it writes, or saves or deploys the stack with its content.
  pub import_stack-cases :
      (k : Answers) (stack : ComposeStack) (redeploy pull_images : Bool) (w : World d)
      → ((e : Error) → P (failed e, w))
      → ((e : Error) → P (failed e, with_client d k stack.host_id w))
      → ((content : Text)
          → get_by_name stack.host_id stack.name w.kept.stacks ≡ none
          → P (import_filled d k (record stack { content = content }) redeploy pull_images w)
            × P (
                import_filled d k
                  (record stack { content = content })
                  redeploy
                  pull_images
                  (with_client d k stack.host_id w)))
      → P (import_stack d k stack redeploy pull_images w)
  unfolding import_stack import_new
  import_stack-cases k stack redeploy pull_images w fails unreached goes =
      if-cases P (stack.host_id == [] || stack.name == []) _ _ (λ _. fails ids_required)
        (λ _.
          if-cases P (not k.reads_names) _ _ (λ _. fails store_failed)
            (λ _.
              Option-elim P (get_by_name stack.host_id stack.name w.kept.stacks) _ _
                (λ free.
                  if-cases P (stack.content == []) _ _
                    (λ _.
                      on_host-cases d P k stack.host_id _ w unreached
                        (λ client. read free (k.reconstruct stack.name)))
                    (λ _. (goes stack.content free).0))
                (λ old _. fails already_managed)))
    where
      read :
          get_by_name stack.host_id stack.name w.kept.stacks ≡ none
          → (o : Option Text)
          → P (reconstructed d k stack redeploy pull_images (with_client d k stack.host_id w) o)
      read free none = unreached _
      read free (some yaml) = (goes yaml free).1

  pub noted_if_ok-cases :
      (action : Action) (stack : ComposeStack) (r : Ending × World d)
      → ((e : Error) → r.0 ≡ failed e → P (failed e, r.1))
      → ((id : Text) → r.0 ≡ ok id → P (ok id, noted d action stack.host_id stack.name r.1))
      → P (noted_if_ok d action stack r)
  noted_if_ok-cases action stack (failed e, w) fails goes = fails e refl
  noted_if_ok-cases action stack (ok id, w) fails goes = goes id refl

  module _ (k : Answers) (id target : Text) (redeploy : Bool) (w : World d) where
    -- The world with the client that the look at a host's projects makes.
    abbrev pub with_probe : Host → World d
    with_probe host = record w { clients = probed d k host w.clients }

    abbrev Goes : Type 0
    Goes =
        (stack : ComposeStack) (host : Host)
        → lookup id w.kept.stacks ≡ some stack
        → get_by_name target stack.name w.kept.stacks ≡ none
        → P (move_record d k target redeploy stack (clear_source d k stack (with_probe host)))

    migrate_found-cases :
        (stack : ComposeStack) (host : Host)
        → ((e : Error) → P (failed e, w))
        → ((e : Error) (host : Host) → P (failed e, with_probe host))
        → lookup id w.kept.stacks ≡ some stack
        → Goes
        → P (migrate_found d k target host redeploy stack w)
    unfolding migrate_found migrate_to
    migrate_found-cases stack host fails probes s goes =
        if-cases P (k.reads_source && is_other_mode d host (lookup stack.host_id w.bucket)) _ _
          (λ _. fails cross_mode)
          (λ _.
            if-cases P (not k.reads_names) _ _ (λ _. fails store_failed)
              (λ _.
                Option-elim P (get_by_name target stack.name w.kept.stacks) _ _
                  (λ free.
                    if-cases P
                      (host.status == codes "connected"
                        && runs_there d (lookup host.id (with_probe host).clients) stack.name
                            (with_probe host))
                      _ _ (λ _. probes name_conflict host) (λ _. goes stack host s free))
                  (λ old _. fails name_conflict)))

    pub migrate-cases :
        ((e : Error) → P (failed e, w))
        → ((e : Error) (host : Host) → P (failed e, with_probe host))
        → Goes
        → P (migrate d k id target redeploy w)
    unfolding migrate
    migrate-cases fails probes goes =
        if-cases P (not k.reads_stack) _ _ (λ _. fails store_failed)
          (λ _. found (lookup id w.kept.stacks) refl)
      where
        found :
            (o : Option ComposeStack)
            → lookup id w.kept.stacks ≡ o
            → P (migrate_loaded d k target redeploy w o)
        found none s = fails no_stack
        found (some stack) s =
            if-cases P (not (stack.status == inactive)) _ _ (λ _. fails not_stopped)
              (λ _.
                if-cases P (stack.host_id == target) _ _ (λ _. fails same_host)
                  (λ _.
                    if-cases P (not k.reads_host) _ _ (λ _. fails store_failed)
                      (λ _.
                        Option-elim P (lookup target w.bucket) _ _ (λ _. fails target_not_found)
                          (λ host _. migrate_found-cases stack host fails probes s goes))))

  -- The last part of a migration.
  pub move_record-cases :
      (k : Answers) (target : Text) (redeploy : Bool) (stack : ComposeStack) (w : World d)
      → let written = stack_update k.wrote_record (moved d k target stack) w.kept.stacks in
        let w1 = noted d migrated target stack.name (with_stacks d written.1 w) in
        ((e : Error) → P (failed e, with_stacks d written.1 w))
        → (written.0 ≡ true → P (deploy d k (moved d k target stack) false w1))
        → (written.0 ≡ true → P (ok [], w1))
        → P (move_record d k target redeploy stack w)
  unfolding move_record
  move_record-cases k target redeploy stack w fails deploys moves =
      if-cases P (not (stack_update k.wrote_record (moved d k target stack) w.kept.stacks).0) _ _
        (λ _. fails store_failed)
        (λ y. if-cases P redeploy _ _ (λ _. deploys (not-false y)) (λ _. moves (not-false y)))
