-- ===== src/Stack/Trace/Content.antt =====
-- What a deploy stores, and what it hands to its job.
use mathlib.Core.Option.{some_inj}
use swirl_evo.Common.{
  if-cases, Option-elim, ◌≡◌, refl, sym, subst, ap, ◌∙◌, Bool, true, false, List, [], ◌∷◌, ◌++◌,
  Option, none, some, Text, codes, text_eq, if◌then◌else◌,
}
use swirl_evo.Common.Dict.{Dict, lookup, replace, update_entry, lookup-replace_self}
use swirl_evo.Docker.{Docker}
use swirl_evo.Stack.{ComposeStack}
use swirl_evo.Stack.Version.{stack_update, merged}
use swirl_evo.Stack.Manage.{
  Answers, Ending, ok, Job, World, fresh, change, set_status, set_error, save, deploying,
}
use swirl_evo.Stack.Manage.Deploys.{with_client, settle, effective, job_of, deploy}
use swirl_evo.Stack.Manage.Cases.{
  save_with_reason-cases, deploy_on-cases, deploy-cases, snapped, stamped,
}

-- The stored files of a stack.
abbrev pub Stores : Dict Text ComposeStack → Text → Text → Text → Type 0
Stores m id content env_file =
    (s : ComposeStack) × (lookup id m ≡ some s) × (s.content ≡ content) × (s.env_file ≡ env_file)

update_entry-Stores :
    (wrote : Bool) (id : Text) (new : ComposeStack → ComposeStack) (m : Dict Text ComposeStack)
    (content env_file : Text)
    → ((s : ComposeStack) → (new s).content ≡ s.content)
    → ((s : ComposeStack) → (new s).env_file ≡ s.env_file)
    → Stores m id content env_file
    → Stores (update_entry wrote id new m).1 id content env_file
unfolding update_entry
update_entry-Stores wrote id new m content env_file c e (s, l, a, b) =
    let P = λ (r : Bool × Dict Text ComposeStack). Stores r.1 id content env_file in
    Option-elim P (lookup id m) _ _ (λ _. (s, l, a, b))
      (λ old found.
        let same : old ≡ s = some_inj.0 (sym found ∙ l) in
        if-cases P wrote (true, replace id (new old) m) (false, m)
          (λ _. (
            new old,
            lookup-replace_self id (new old) m,
            c old ∙ (ap (λ (t : ComposeStack). t.content) same ∙ a),
            e old ∙ (ap (λ (t : ComposeStack). t.env_file) same ∙ b),
          ))
          (λ _. (s, l, a, b)))

stack_update-Stores :
    (wrote : Bool) (stack : ComposeStack) (m : Dict Text ComposeStack)
    → (stack_update wrote stack m).0 ≡ true
    → Stores (stack_update wrote stack m).1 stack.id stack.content stack.env_file
unfolding stack_update update_entry
stack_update-Stores wrote stack m = found wrote (lookup stack.id m) refl
  where
    found :
        (wrote : Bool) (o : Option ComposeStack)
        → lookup stack.id m ≡ o
        → (elim o as (λ o. Bool × Dict Text ComposeStack) [
          | none ↦ (false, m)
          | some old ↦ if wrote then (true, replace stack.id (merged old stack) m) else (false, m)
        ]).0
          ≡ true
        → Stores
            (elim o as (λ o. Bool × Dict Text ComposeStack) [
              | none ↦ (false, m)
              | some old ↦
                  if wrote then (true, replace stack.id (merged old stack) m) else (false, m)
            ]).1
            stack.id
            stack.content
            stack.env_file
    found wrote none l e = cc
    found true (some old) l e =
        (merged old stack, lookup-replace_self stack.id (merged old stack) m, refl, refl)
    found false (some old) l e = cc

module _ (d : Docker) where
  abbrev SavedAs : ComposeStack → Ending × World d → Type 0
  SavedAs stack r =
      (id : Text) → r.0 ≡ ok id → Stores r.1.kept.stacks id stack.content stack.env_file

  ok_inj : (i j : Text) → ok i ≡ ok j → i ≡ j
  ok_inj i j e = cc

  save-Stores :
      (k : Answers) (stack : ComposeStack) (w : World d) → SavedAs stack (save d k stack w)
  unfolding save
  save-Stores k stack w =
      save_with_reason-cases d (SavedAs stack) k (codes "save") stack w (λ e id x. cc)
        (λ _ id x.
          subst
            (λ i.
              Stores (replace k.new_id (fresh d k stack) w.kept.stacks) i stack.content
                stack.env_file)
            (ok_inj k.new_id id x)
            (
              fresh d k stack,
              lookup-replace_self k.new_id (fresh d k stack) w.kept.stacks,
              refl,
              refl,
            ))
        (λ _ wrote id x.
          let next = stamped d (SavedAs stack) k (codes "save") stack w in
          let before = snapped d (SavedAs stack) k (codes "save") stack w in
          subst
            (λ i.
              Stores (stack_update k.wrote_record next before.stacks).1 i stack.content
                stack.env_file)
            (ok_inj stack.id id x) (stack_update-Stores k.wrote_record next before.stacks wrote))
        (λ _ e id x. cc)

  settle-Stores :
      (wrote wrote_error : Bool) (id status message content env_file : Text) (w : World d)
      → Stores w.kept.stacks id content env_file
      → Stores (settle d wrote wrote_error id status message w).kept.stacks id content env_file
  unfolding settle change
  settle-Stores wrote wrote_error id status message content env_file w h =
      update_entry-Stores wrote_error id (set_error message) _ content env_file (λ s. refl)
        (λ s. refl)
        (update_entry-Stores wrote id (set_status status) w.kept.stacks content env_file (λ s. refl)
          (λ s. refl) h)

  -- What a deploy that starts leaves.
  abbrev Begun : Answers → ComposeStack → Bool → List Job → Ending × World d → Type 0
  Begun k stack pull_images jobs r =
      (id : Text)
      → r.0 ≡ ok id
      → Stores r.1.kept.stacks id stack.content stack.env_file
        × ((client : Text) × (r.1.jobs ≡ jobs ++ (job_of k id stack pull_images client ∷ [])))

  save-jobs :
      (k : Answers) (stack : ComposeStack) (w : World d) → (save d k stack w).1.jobs ≡ w.jobs
  unfolding save
  save-jobs k stack w =
      save_with_reason-cases d (λ r. r.1.jobs ≡ w.jobs) k (codes "save") stack w (λ _. refl)
        (λ _. refl) (λ _ _. refl) (λ _ _. refl)

  deploy-Begun :
      (k : Answers) (stack : ComposeStack) (pull_images : Bool) (w : World d)
      → Begun k stack pull_images w.jobs (deploy d k stack pull_images w)
  unfolding settle change
  deploy-Begun k stack pull_images w =
      let P = Begun k stack pull_images w.jobs in
      let saved = (save d k stack w).1 in
      deploy-cases d P k stack pull_images w (λ e i x. cc) (λ e i x. cc)
        (λ id client answered.
          deploy_on-cases d P k id stack pull_images client (with_client d k stack.host_id saved)
            (λ i x. cc) (λ i x. cc)
            (λ i x.
              subst
                (λ j.
                  Stores
                    (settle d k.wrote_status k.wrote_error id deploying []
                      (with_client d k stack.host_id saved)).kept.stacks
                    j stack.content stack.env_file
                  × ((c : Text) × (saved.jobs ++ (job_of k id stack pull_images client ∷ [])
                        ≡ w.jobs ++ (job_of k j stack pull_images c ∷ []))))
                (ok_inj id i x)
                (
                  settle-Stores k.wrote_status k.wrote_error id deploying [] stack.content
                      stack.env_file (with_client d k stack.host_id saved)
                      (save-Stores k stack w id answered),
                  (
                    client,
                    ap (λ (l : List Job). l ++ (job_of k id stack pull_images client ∷ []))
                        (save-jobs k stack w),
                  ),
                )))

  -- A deploy that starts stores the files as they were sent, under the id that it answers, and adds one
  -- job with that id; the rewritten images are only in the job's content.
  pub deploy-Stores :
      (k : Answers) (stack : ComposeStack) (pull_images : Bool) (w : World d) (id : Text)
      → (deploy d k stack pull_images w).0 ≡ ok id
      → Stores (deploy d k stack pull_images w).1.kept.stacks id stack.content stack.env_file
        × ((j : Job) × ((deploy d k stack pull_images w).1.jobs ≡ w.jobs ++ (j ∷ []))
            × (j.id ≡ id)
            × (j.content ≡ (effective k stack).0)
            × (j.actions ≡ (effective k stack).1))
  unfolding job_of
  deploy-Stores k stack pull_images w id e =
      let (stores, (client, jobs)) = deploy-Begun k stack pull_images w id e in
      (stores, (job_of k id stack pull_images client, jobs, refl, refl, refl))
