-- ===== src/Deploy/Lifecycle/Survives.antt =====
-- What becomes of the primary's container.
use swirl_evo.Common.{
  is_prefix, ◌⊎◌, inl, inr, ◌≡◌, ◌≢◌, refl, sym, ℕ, String, Bool, true, false, not, ◌&&◌, ◌||◌,
  ◌==◌, ==_ne, if-cases, [], ◌∷◌, any, Option, none, some, Text, codes, text_eq, arith,
}
use swirl_evo.Docker.{
  Docker, Laws, Reply, done, not_found, refused, means, Inspected, found, no_container,
  inspect_failed,
}
use swirl_evo.Compose.Engine.{is_done, preserved, deploy_with_result, remove_except}
use swirl_evo.Compose.Engine.Preserve.{deploy_with_result-Named, remove_except-Named}
use swirl_evo.Deploy.Job.{SelfDeployJob}
use swirl_evo.Deploy.Lifecycle.{
  previous_container_name, original_name_of, Line, failed_because, Course, Ending, deployed,
  rolled_back, World, exists_of, by_existence, is_gone, rename_primary, rename_back, rollback,
  handle_deploy_failure, finish, replace_primary, run_deploy, note,
}

is_done-done : (r : Reply) → is_done r ≡ true → r ≡ done
is_done-done done h = refl
is_done-done not_found h = absurd (ground (arith, h))
is_done-done refused h = absurd (ground (arith, h))

is_done-not : (r : Reply) → is_done r ≡ false → r ≢ done
is_done-not r h e = absurd (ground (arith, h, e))

pub existence-cases {ℓ κ} :
    {A : Type ℓ} (P : A → Type κ) (o : Option Bool) (x y z : A)
    → P x
    → P y
    → P z
    → P (by_existence o x y z)
existence-cases P none x y z p q r = p
existence-cases P (some true) x y z p q r = q
existence-cases P (some false) x y z p q r = r

kept_self :
    any (λ p. p == previous_container_name) (preserved (previous_container_name ∷ [])) ≡ true
kept_self = refl

module _ (d : Docker) (laws : Laws d) (stamp : ℕ → String) (say : Line → String) (k : Course)
    (i : Text) where
  -- The container is there under some name.
  abbrev pub Survives : d.Daemon → Type 0
  Survives s = (n : Text) × laws.Named i n s

  -- After a roll-back that reports success: there under this name, and started. In any case: there.
  abbrev IsBack : Text → Bool × World d → Type 0
  IsBack target r =
      (r.0 ≡ true → laws.Named i target r.1.daemon × laws.Runs i r.1.daemon) × Survives r.1.daemon

  -- What each ending of a deploy leaves of the container.
  abbrev pub Fate : Text → Ending → d.Daemon → Type 0
  Fate target deployed s = Unit
  Fate target rolled_back s = laws.Named i target s × laws.Runs i s
  Fate target _ s = Survives s

  rename_primary-Survives :
      (original : Text) (s : d.Daemon)
      → laws.Named i original s
      → is_prefix previous_container_name i ≡ false
      → original ≢ previous_container_name
      → ((rename_primary d stamp say k i previous_container_name s).0 ≡ true
          → laws.Named i previous_container_name
              (rename_primary d stamp say k i previous_container_name s).1)
        × ((rename_primary d stamp say k i previous_container_name s).0 ≡ false
            → laws.Named i original (rename_primary d stamp say k i previous_container_name s).1)
  rename_primary-Survives original s h a b =
      unfold rename_primary in
      existence-cases P (exists_of (d.inspect previous_container_name s)) _ _ _
        ((λ e. absurd (ground (arith, e))), λ _. h)
        (if-cases P (not (is_gone (d.remove false previous_container_name s).0)) _ _
          (λ _. ((λ e. absurd (ground (arith, e))), λ _. out))
          (λ _. moved (d.remove false previous_container_name s).1 out))
        (moved s h)
    where
      P : Bool × d.Daemon → Type 0
      P r =
          (r.0 ≡ true → laws.Named i previous_container_name r.1)
          × (r.0 ≡ false → laws.Named i original r.1)

      out : laws.Named i original (d.remove false previous_container_name s).1
      out =
          laws.remove-Named i original previous_container_name false s h
            (ground (arith, a, ==_ne previous_container_name original (λ e. b (sym e))))

      moved :
          (t : d.Daemon)
          → laws.Named i original t
          → P (
            is_done (d.rename i previous_container_name t).0,
            (d.rename i previous_container_name t).1,
          )
      moved t g =
          let (went, stayed) = laws.rename-Named i original previous_container_name t g in
          (
            (λ e. went (is_done-done (d.rename i previous_container_name t).0 e)),
            λ e. stayed (is_done-not (d.rename i previous_container_name t).0 e),
          )

  rename_back-IsBack :
      (target : Text) (w : World d)
      → laws.Named i previous_container_name w.daemon
      → IsBack target (rename_back d stamp say k target w)
  unfolding rename_back
  rename_back-IsBack target w h =
      let s1 = (d.rename previous_container_name target w.daemon).1 in
      let s2 = (d.start target s1).1 in
      let (went, stayed) = laws.rename-name-Named i previous_container_name target w.daemon h in
      let missed : (s : d.Daemon)
          → Survives s
          → (false ≡ true → laws.Named i target s × laws.Runs i s) × Survives s =
        λ s t. ((λ e. absurd (ground (arith, e))), t) in
      existence-cases (IsBack target) (exists_of (d.inspect previous_container_name w.daemon)) _ _ _
        (missed w.daemon (previous_container_name, h))
        (if-cases (IsBack target)
          (not (is_done (d.rename previous_container_name target w.daemon).0)) _ _
          (λ e. missed s1 (previous_container_name, stayed (is_done-not _ (ground (arith, e)))))
          (λ e.
            let named = went (is_done-done _ (ground (arith, e))) in
            let kept = laws.start-Named i target target s1 named in
            if-cases (IsBack target) (not (is_done (d.start target s1).0)) _ _
              (λ _. missed s2 (target, kept))
              (λ f.
                if-cases (IsBack target) (not k.old_answers) _ _ (λ _. missed s2 (target, kept))
                  (λ _. (
                    (λ _. (
                      kept,
                      laws.start-Runs i target s1 named (is_done-done _ (ground (arith, f))),
                    )),
                    (target, kept),
                  )))))
        (missed w.daemon (previous_container_name, h))

  module _ (target : Text) (apart : means target i previous_container_name ≡ false)
      (named : target ≢ []) where
    rollback-IsBack :
        (stack : Text) (w : World d)
        → laws.Named i previous_container_name w.daemon
        → IsBack target (rollback d stamp say k stack target w)
    rollback-IsBack stack w h =
        let s1 = (remove_except d stack (previous_container_name ∷ []) w.daemon).1 in
        let kept =
          remove_except-Named d laws i previous_container_name stack (previous_container_name ∷ [])
            w.daemon kept_self h in
        let out = laws.remove-Named i previous_container_name target false s1 kept apart in
        let nonempty : (target == []) ≡ false = ==_ne target [] named in
        unfold rollback in
        rw nonempty (
          existence-cases (IsBack target) (exists_of (d.inspect target s1)) _ _ _
            (rename_back-IsBack target _ kept)
            (if-cases (IsBack target) (is_gone (d.remove false target s1).0) _ _
              (λ _. rename_back-IsBack target _ out)
              (λ _. ((λ e. absurd (ground (arith, e))), (previous_container_name, out))))
            (rename_back-IsBack target _ kept))

    handle_deploy_failure-Fate :
        (auto_rollback : Bool) (stack : Text) (cause : Line) (w : World d)
        → laws.Named i previous_container_name w.daemon
        → Fate target
            (handle_deploy_failure d stamp say k auto_rollback stack target cause w).0
            (handle_deploy_failure d stamp say k auto_rollback stack target cause w).1.daemon
    unfolding handle_deploy_failure
    handle_deploy_failure-Fate auto_rollback stack cause w h =
        let P = λ (r : Ending × World d). Fate target r.0 r.1.daemon in
        let w1 : World d = record w {
          writer = note d stamp say k (failed_because cause) w.writer;
        } in
        let back = rollback-IsBack stack w1 h in
        if-cases P (not auto_rollback) _ _ (λ _. (previous_container_name, h))
          (λ _.
            if-cases P (rollback d stamp say k stack target w1).0 _ _ (λ e. back.0 e) (λ _. back.1))

    finish-Fate :
        (j : SelfDeployJob) (w : World d)
        → laws.Named i previous_container_name w.daemon
        → Fate target (finish d stamp say k j target w).0 (finish d stamp say k j target w).1.daemon
    finish-Fate j w h =
        let P = λ (r : Ending × World d). Fate target r.0 r.1.daemon in
        unfold finish in
        if-cases P (not k.answers_http) _ _
          (λ _. handle_deploy_failure-Fate j.auto_rollback (codes j.stack_name) _ _ h)
          (λ _.
            if-cases P (k.finds_container && not k.is_healthy) _ _
              (λ _. handle_deploy_failure-Fate j.auto_rollback (codes j.stack_name) _ _ h)
              (λ _. tt))

    replace_primary-Fate :
        (j : SelfDeployJob) (w : World d)
        → laws.Named i previous_container_name w.daemon
        → Fate target
            (replace_primary d stamp say k j target w).0
            (replace_primary d stamp say k j target w).1.daemon
    replace_primary-Fate j w h =
        let P = λ (r : Ending × World d). Fate target r.0 r.1.daemon in
        let kept =
          deploy_with_result-Named d laws i previous_container_name k.checks (codes j.stack_name)
            (previous_container_name ∷ []) k.services w.daemon kept_self h in
        unfold replace_primary in
        if-cases P (not (k.pulls || k.has_image)) _ _
          (λ _. handle_deploy_failure-Fate j.auto_rollback (codes j.stack_name) _ _ h)
          (λ _.
            if-cases P
              (not
                (deploy_with_result d k.checks (codes j.stack_name) (previous_container_name ∷ [])
                  k.services w.daemon).0)
              _ _ (λ _. handle_deploy_failure-Fate j.auto_rollback (codes j.stack_name) _ _ kept)
              (λ _. finish-Fate j _ kept))

outlives :
    (d : Docker) (laws : Laws d) (stamp : ℕ → String) (say : Line → String) (k : Course)
    (j : SelfDeployJob) (w : World d) (original : Text)
    → laws.Named (codes j.primary_container) original w.daemon
    → is_prefix previous_container_name (codes j.primary_container) ≡ false
    → original ≢ previous_container_name
    → means
        (original_name_of d stamp say k j w.daemon)
        (codes j.primary_container)
        previous_container_name
      ≡ false
    → original_name_of d stamp say k j w.daemon ≢ []
    → Fate d laws stamp say k
        (codes j.primary_container)
        (original_name_of d stamp say k j w.daemon)
        (run_deploy d stamp say k j w).0
        (run_deploy d stamp say k j w).1.daemon
unfolding run_deploy
outlives d laws stamp say k j w original h a b apart named =
    let i = codes j.primary_container in
    let target = original_name_of d stamp say k j w.daemon in
    let P = λ (r : Ending × World d). Fate d laws stamp say k i target r.0 r.1.daemon in
    let s1 = (d.stop i w.daemon).1 in
    let kept = laws.stop-Named i original i w.daemon h in
    let r = rename_primary d stamp say k i previous_container_name s1 in
    let (went, stayed) = rename_primary-Survives d laws stamp say k i original s1 kept a b in
    if-cases P (not k.job_is_valid) _ _ (λ _. (original, h))
      (λ _.
        if-cases P (not k.has_client) _ _ (λ _. (original, h))
          (λ _.
            if-cases P (not k.pings) _ _ (λ _. (original, h))
              (λ _.
                if-cases P (not (is_gone (d.stop i w.daemon).0)) _ _ (λ _. (original, kept))
                  (λ _.
                    if-cases P (not r.0) _ _
                      (λ e.
                        (original, laws.start-Named i original i r.1 (stayed (ground (arith, e)))))
                      (λ e.
                        replace_primary-Fate d laws stamp say k i target apart named j _
                          (went (ground (arith, e))))))))

-- The name that a roll-back gives back is the container's own, or the stack's where the container could
-- not be inspected.
original_name_of-cases :
    (d : Docker) (laws : Laws d) (stamp : ℕ → String) (say : Line → String) (k : Course)
    (j : SelfDeployJob) (s : d.Daemon) (original : Text)
    → laws.Named (codes j.primary_container) original s
    → original ≢ []
    → (original_name_of d stamp say k j s ≡ original)
      ⊎ ((original_name_of d stamp say k j s ≡ codes j.stack_name)
          × ((m : Text) → d.inspect (codes j.primary_container) s ≢ found m))
original_name_of-cases d laws stamp say k j s original h n =
    go (d.inspect (codes j.primary_container) s) refl
  where
    go :
        (r : Inspected)
        → d.inspect (codes j.primary_container) s ≡ r
        → (original_name_of d stamp say k j s ≡ original)
          ⊎ ((original_name_of d stamp say k j s ≡ codes j.stack_name)
              × ((m : Text) → d.inspect (codes j.primary_container) s ≢ found m))
    go (found m) e =
        let same = laws.inspect-Named (codes j.primary_container) original m s h e in
        inl (rw (e, same, ==_ne original [] n) refl)
    go no_container e = inr (rw e refl, λ m q. absurd (ground (arith, e, q)))
    go inspect_failed e = inr (rw e refl, λ m q. absurd (ground (arith, e, q)))

-- Whatever the daemon answers and the steps come upon, the primary's container outlives a deploy that
-- does not succeed, and after a roll-back that reports success it was started under the name inspected
-- at the outset: its own, or the stack's name where that inspection failed. The container must not be
-- named "swirl-previous", and neither that name nor the one to give back may be the start of its id;
-- the name to give back must not be empty and not be "swirl-previous", with a slash or without.
pub run_deploy-Fate :
    (d : Docker) (laws : Laws d) (stamp : ℕ → String) (say : Line → String) (k : Course)
    (j : SelfDeployJob) (w : World d) (original : Text)
    → laws.Named (codes j.primary_container) original w.daemon
    → original ≢ []
    → is_prefix previous_container_name (codes j.primary_container) ≡ false
    → original ≢ previous_container_name
    → means
        (original_name_of d stamp say k j w.daemon)
        (codes j.primary_container)
        previous_container_name
      ≡ false
    → original_name_of d stamp say k j w.daemon ≢ []
    → Fate d laws stamp say k
        (codes j.primary_container)
        (original_name_of d stamp say k j w.daemon)
        (run_deploy d stamp say k j w).0
        (run_deploy d stamp say k j w).1.daemon
      × ((original_name_of d stamp say k j w.daemon ≡ original)
          ⊎ ((original_name_of d stamp say k j w.daemon ≡ codes j.stack_name)
              × ((m : Text) → d.inspect (codes j.primary_container) w.daemon ≢ found m)))
run_deploy-Fate d laws stamp say k j w original h full a b apart named = (
  outlives d laws stamp say k j w original h a b apart named,
  original_name_of-cases d laws stamp say k j w.daemon original h full,
)
