-- ===== src/Stack/Trace/Names.antt =====
-- Import and migrate leave at most one stored stack of a host and a name.
use swirl_evo.Common.{
  if-cases, Option-elim, ◌≡◌, ◌≢◌, inl, inr, refl, sym, ap, subst, ◌∙◌, Bool, true, false, ◌==◌,
  ==_iff, Bool-cases, [], ◌∷◌, none, some, Text, codes, arith, text_eq,
}
use swirl_evo.Common.Dict.{Dict, lookup, replace, update_entry, lookup-replace}
use swirl_evo.Docker.{Docker}
use swirl_evo.Stack.{ComposeStack}
use swirl_evo.Stack.Version.{stack_update, merged, snapshot_if_changed}
use swirl_evo.Stack.Manage.{
  Answers, Ending, World, ready, unresolved, resolve_host_client, get_by_name, fresh, change,
  set_status, set_error, save, deploying, error, active, imported,
}
use swirl_evo.Stack.Manage.Deploys.{with_client, with_daemon, settle, deploy}
use swirl_evo.Stack.Manage.Calls.{remove_project}
use swirl_evo.Stack.Manage.Moves.{import_filled, import_stack, clear_source, moved, migrate}
use swirl_evo.Stack.Manage.Cases.{save_with_reason-cases, deploy_on-cases, deploy-cases, stamped}
use swirl_evo.Stack.Manage.Cases.Travels.{
  import_stack-cases, noted_if_ok-cases, migrate-cases, move_record-cases, with_probe,
}

-- Two entries of one host and one name have the same key.
abbrev pub Distinct : Dict Text ComposeStack → Type 0
Distinct m =
    (i j : Text) (s t : ComposeStack)
    → lookup i m ≡ some s
    → lookup j m ≡ some t
    → s.host_id ≡ t.host_id
    → s.name ≡ t.name
    → i ≡ j

-- A host and a name are only those of the entry with the key, if of any.
abbrev Free : Text → Text → Text → Dict Text ComposeStack → Type 0
Free key host_id name m =
    (i : Text) (t : ComposeStack)
    → lookup i m ≡ some t
    → t.host_id ≡ host_id
    → t.name ≡ name
    → i ≡ key

get_by_name-Free :
    (key host_id name : Text) (m : Dict Text ComposeStack)
    → get_by_name host_id name m ≡ none
    → Free key host_id name m
unfolding get_by_name lookup
get_by_name-Free key host_id name [] e i t l h n = cc
get_by_name-Free key host_id name ((k, s) ∷ m) e i t l h n = elim (Bool-cases (k == i)) [
  | inl y ↦
      let same : s ≡ t = ground (arith, y, l) in
      ground (
        arith,
        e,
        ==_iff s.host_id host_id,
        ==_iff s.name name,
        ap (λ (u : ComposeStack). u.host_id) same,
        ap (λ (u : ComposeStack). u.name) same,
        h,
        n,
      )
  | inr o ↦ get_by_name-Free key host_id name m (ground (arith, e)) i t (ground (arith, o, l)) h n
]

Distinct-replace :
    (k : Text) (s : ComposeStack) (m : Dict Text ComposeStack)
    → Free k s.host_id s.name m
    → Distinct m
    → Distinct (replace k s m)
Distinct-replace k s m free h i j u v a b x y = elim (Bool-cases (k == i)) [
  | inl p ↦
      let su : s ≡ u = ground (arith, p, a, lookup-replace k i s m) in
      elim (Bool-cases (k == j)) [
        | inl q ↦ sym ((==_iff k i).0 p) ∙ (==_iff k j).0 q
        | inr q ↦
            sym ((==_iff k i).0 p)
            ∙ sym (
                free j v (ground (arith, q, b, lookup-replace k j s m))
                  (sym x ∙ sym (ap (λ (t : ComposeStack). t.host_id) su))
                  (sym y ∙ sym (ap (λ (t : ComposeStack). t.name) su)))
      ]
  | inr p ↦
      let left : lookup i m ≡ some u = ground (arith, p, a, lookup-replace k i s m) in
      elim (Bool-cases (k == j)) [
        | inl q ↦
            let sv : s ≡ v = ground (arith, q, b, lookup-replace k j s m) in
            free i u left (x ∙ sym (ap (λ (t : ComposeStack). t.host_id) sv))
              (y ∙ sym (ap (λ (t : ComposeStack). t.name) sv))
            ∙ (==_iff k j).0 q
        | inr q ↦ h i j u v left (ground (arith, q, b, lookup-replace k j s m)) x y
      ]
]

-- A write that leaves the host and the name.
Distinct-update :
    (wrote : Bool) (k : Text) (new : ComposeStack → ComposeStack) (m : Dict Text ComposeStack)
    → ((s : ComposeStack) → (new s).host_id ≡ s.host_id)
    → ((s : ComposeStack) → (new s).name ≡ s.name)
    → Distinct m
    → Distinct (update_entry wrote k new m).1
unfolding update_entry
Distinct-update wrote k new m same_host same_name h =
    let P = λ (r : Bool × Dict Text ComposeStack). Distinct r.1 in
    Option-elim P (lookup k m) _ _ (λ _. h)
      (λ old found.
        if-cases P wrote (true, replace k (new old) m) (false, m)
          (λ _.
            Distinct-replace k (new old) m
              (λ i t l x y. h i k t old l found (x ∙ same_host old) (y ∙ same_name old)) h)
          (λ _. h))

Distinct-stack_update :
    (wrote : Bool) (stack : ComposeStack) (m : Dict Text ComposeStack)
    → Free stack.id stack.host_id stack.name m
    → Distinct m
    → Distinct (stack_update wrote stack m).1
unfolding stack_update update_entry
Distinct-stack_update wrote stack m free h =
    let P = λ (r : Bool × Dict Text ComposeStack). Distinct r.1 in
    Option-elim P (lookup stack.id m) _ _ (λ _. h)
      (λ old found.
        if-cases P wrote (true, replace stack.id (merged old stack) m) (false, m)
          (λ _. Distinct-replace stack.id (merged old stack) m free h) (λ _. h))

-- After the update the host and the name are those of the stack alone.
Free-stack_update :
    (wrote : Bool) (stack : ComposeStack) (m : Dict Text ComposeStack)
    → Free stack.id stack.host_id stack.name m
    → Free stack.id stack.host_id stack.name (stack_update wrote stack m).1
unfolding stack_update update_entry
Free-stack_update wrote stack m free =
    let P = λ (r : Bool × Dict Text ComposeStack). Free stack.id stack.host_id stack.name r.1 in
    Option-elim P (lookup stack.id m) _ _ (λ _. free)
      (λ old found.
        if-cases P wrote (true, replace stack.id (merged old stack) m) (false, m)
          (λ _ i t l x y. elim (Bool-cases (stack.id == i)) [
            | inl p ↦ sym ((==_iff stack.id i).0 p)
            | inr p ↦
                free i t (ground (arith, p, l, lookup-replace stack.id i (merged old stack) m)) x y
          ])
          (λ _. free))

module _ (d : Docker) where
  abbrev DistinctAfter : Ending × World d → Type 0
  DistinctAfter r = Distinct r.1.kept.stacks

  save-Distinct :
      (k : Answers) (stack : ComposeStack) (w : World d)
      → (stack.id ≡ [] → Free k.new_id stack.host_id stack.name w.kept.stacks)
      → Free stack.id stack.host_id stack.name w.kept.stacks
      → Distinct w.kept.stacks
      → DistinctAfter (save d k stack w)
  unfolding save snapshot_if_changed
  save-Distinct k stack w unused free h =
      let next = stamped d DistinctAfter k (codes "save") stack w in
      let updated = Distinct-stack_update k.wrote_record next w.kept.stacks free h in
      save_with_reason-cases d DistinctAfter k (codes "save") stack w (λ _. h)
        (λ empty.
          Distinct-replace k.new_id (fresh d k stack) w.kept.stacks
            (unused ((==_iff stack.id []).0 empty)) h)
        (λ _ _. updated) (λ _ _. updated)

  settle-Distinct :
      (wrote wrote_error : Bool) (id status message : Text) (w : World d)
      → Distinct w.kept.stacks
      → Distinct (settle d wrote wrote_error id status message w).kept.stacks
  unfolding settle change
  settle-Distinct wrote wrote_error id status message w h =
      Distinct-update wrote_error id (set_error message) _ (λ s. refl) (λ s. refl)
        (Distinct-update wrote id (set_status status) w.kept.stacks (λ s. refl) (λ s. refl) h)

  deploy-Distinct :
      (k : Answers) (stack : ComposeStack) (pull_images : Bool) (w : World d)
      → (stack.id ≡ [] → Free k.new_id stack.host_id stack.name w.kept.stacks)
      → Free stack.id stack.host_id stack.name w.kept.stacks
      → Distinct w.kept.stacks
      → DistinctAfter (deploy d k stack pull_images w)
  deploy-Distinct k stack pull_images w unused free h =
      let saved = save-Distinct k stack w unused free h in
      deploy-cases d DistinctAfter k stack pull_images w (λ _. saved) (λ _. saved)
        (λ id client _.
          let u = with_client d k stack.host_id (save d k stack w).1 in
          let begun = settle-Distinct k.wrote_status k.wrote_error id deploying [] u saved in
          deploy_on-cases d DistinctAfter k id stack pull_images client u
            (settle-Distinct k.wrote_outcome k.wrote_error id error k.blocked_text u saved)
            (settle-Distinct k.wrote_outcome k.wrote_error id error k.secrets_text
              (settle d k.wrote_status k.wrote_error id deploying [] u) begun)
            begun)

  import_filled-Distinct :
      (k : Answers) (stack : ComposeStack) (redeploy pull_images : Bool) (w : World d)
      → get_by_name stack.host_id stack.name w.kept.stacks ≡ none
      → Distinct w.kept.stacks
      → DistinctAfter (import_filled d k stack redeploy pull_images w)
  unfolding import_filled
  import_filled-Distinct k stack redeploy pull_images w none_yet h =
      let live : ComposeStack = record stack { status = active } in
      let unused = λ (x : stack.id ≡ []).
        get_by_name-Free k.new_id stack.host_id stack.name w.kept.stacks none_yet in
      let free = get_by_name-Free stack.id stack.host_id stack.name w.kept.stacks none_yet in
      let deployed = deploy-Distinct k stack pull_images w unused free h in
      let kept = save-Distinct k live w unused free h in
      if-cases DistinctAfter redeploy _ _
        (λ _.
          noted_if_ok-cases d DistinctAfter imported stack (deploy d k stack pull_images w)
            (λ _ _. deployed) (λ _ _. deployed))
        (λ _.
          noted_if_ok-cases d DistinctAfter imported stack (save d k live w) (λ _ _. kept)
            (λ _ _. kept))

  clear_source-stacks :
      (k : Answers) (stack : ComposeStack) (w : World d)
      → (clear_source d k stack w).kept.stacks ≡ w.kept.stacks
  unfolding clear_source
  clear_source-stacks k stack w =
      elim (resolve_host_client k stack.host_id w.bucket w.clients)
        as (λ r.
          (elim r as (λ r. World d) [
            | unresolved e ↦ with_client d k stack.host_id w
            | ready client host ↦
                with_daemon d client (remove_project d stack.name false (w.daemons client)).1
                  (with_client d k stack.host_id w)
          ]).kept.stacks
          ≡ w.kept.stacks) [ unresolved e ↦ refl | ready client host ↦ refl ]

  migrate-Distinct :
      (k : Answers) (id target : Text) (redeploy : Bool) (w : World d)
      → ((s : ComposeStack) → lookup id w.kept.stacks ≡ some s → s.id ≢ [])
      → Distinct w.kept.stacks
      → DistinctAfter (migrate d k id target redeploy w)
  migrate-Distinct k id target redeploy w named h =
      migrate-cases d DistinctAfter k id target redeploy w (λ _. h) (λ _ _. h)
        (λ stack host found none_yet.
          let v = with_probe d DistinctAfter k id target redeploy w host in
          let u = clear_source d k stack v in
          let next = moved d k target stack in
          let same = clear_source-stacks k stack v in
          let free : Free stack.id target stack.name u.kept.stacks =
            subst (λ m. Free stack.id target stack.name m) (sym same)
              (get_by_name-Free stack.id target stack.name w.kept.stacks none_yet) in
          let cleared : Distinct u.kept.stacks = subst Distinct (sym same) h in
          let written = Distinct-stack_update k.wrote_record next u.kept.stacks free cleared in
          move_record-cases d DistinctAfter k target redeploy stack u (λ _. written)
            (λ _.
              deploy-Distinct k next false _ (λ x. absurd (named stack found x))
                (Free-stack_update k.wrote_record next u.kept.stacks free) written)
            (λ _. written))

  -- No two stored stacks have the same host and name after an import or a migration, however it ends, if
  -- there were none before; the stack that is moved must have an id.
  pub moves-Distinct :
      (k : Answers) (stack : ComposeStack) (id target : Text) (redeploy pull_images : Bool)
      (w : World d)
      → ((s : ComposeStack) → lookup id w.kept.stacks ≡ some s → s.id ≢ [])
      → Distinct w.kept.stacks
      → Distinct (import_stack d k stack redeploy pull_images w).1.kept.stacks
        × Distinct (migrate d k id target redeploy w).1.kept.stacks
  moves-Distinct k stack id target redeploy pull_images w named h = (
    import_stack-cases d DistinctAfter k stack redeploy pull_images w (λ _. h) (λ _. h)
        (λ content none_yet. (
          import_filled-Distinct k (record stack { content = content }) redeploy pull_images w
              none_yet h,
          import_filled-Distinct k (record stack { content = content }) redeploy pull_images
              (with_client d k stack.host_id w) none_yet h,
        )),
    migrate-Distinct k id target redeploy w named h,
  )
