-- ===== src/Stack/Trace/Jobs/Stored.antt =====
-- What the writes of the store leave of the rule that a stack that deploys has a job.
use swirl_evo.Common.{
  ◌≡◌, ◌≢◌, inl, inr, refl, sym, subst, ap, Bool, true, false, ◌==◌, ==_iff, ==_apart, Bool-cases,
  Option-elim, if-cases, List, [], any, some, Text, arith, text_eq,
}
use swirl_evo.Common.Dict.{
  Dict, lookup, replace, delete, update_entry, lookup-replace, lookup-delete_self, lookup-delete_ne,
}
use swirl_evo.Stack.{ComposeStack}
use swirl_evo.Stack.Version.{stack_update, merged}
use swirl_evo.Stack.Manage.{Job, deploying, set_status}

abbrev pub HasJob : Text → List Job → Type 0
HasJob id jobs = any (λ (j : Job). j.id == id) jobs ≡ true

-- A stored stack has its key, which is not empty, and a job if it deploys.
abbrev pub Fine : List Job → Text → ComposeStack → Type 0
Fine jobs id s = (s.id ≡ id) × (id ≢ []) × (s.status ≡ deploying → HasJob id jobs)

abbrev pub Waits : List Job → Dict Text ComposeStack → Type 0
Waits jobs m = (id : Text) (s : ComposeStack) → lookup id m ≡ some s → Fine jobs id s

pub Waits-replace :
    (jobs : List Job) (k : Text) (s : ComposeStack) (m : Dict Text ComposeStack)
    → Fine jobs k s
    → Waits jobs m
    → Waits jobs (replace k s m)
Waits-replace jobs k s m f h id t e = elim (Bool-cases (k == id)) [
  | inl y ↦
      let same : k ≡ id = (==_iff k id).0 y in
      let it : s ≡ t = ground (arith, y, e, lookup-replace k id s m) in
      subst (λ i. Fine jobs i t) same (subst (Fine jobs k) it f)
  | inr n ↦ h id t (ground (arith, n, e, lookup-replace k id s m))
]

pub Waits-update :
    (jobs : List Job) (wrote : Bool) (k : Text) (new : ComposeStack → ComposeStack)
    (m : Dict Text ComposeStack)
    → ((old : ComposeStack) → Fine jobs k old → Fine jobs k (new old))
    → Waits jobs m
    → Waits jobs (update_entry wrote k new m).1
unfolding update_entry
Waits-update jobs wrote k new m keeps h =
    let P = λ (r : Bool × Dict Text ComposeStack). Waits jobs r.1 in
    Option-elim P (lookup k m) _ _ (λ _. h)
      (λ old e.
        if-cases P wrote (true, replace k (new old) m) (false, m)
          (λ _. Waits-replace jobs k (new old) m (keeps old (h k old e)) h) (λ _. h))

-- A status that is not `deploying`, where it can be written, lets the stack's job go.
pub Waits-settled :
    (jobs rest : List Job) (k : Text) (status : Text) (m : Dict Text ComposeStack)
    → status ≢ deploying
    → ((id : Text) → id ≢ k → HasJob id jobs → HasJob id rest)
    → Waits jobs m
    → Waits rest (update_entry true k (set_status status) m).1
unfolding update_entry
Waits-settled jobs rest k status m over keeps h =
    let P = λ (r : Bool × Dict Text ComposeStack). Waits rest r.1 in
    Option-elim P (lookup k m) _ _ (λ gone id s e. others id s (λ same. cc) e)
      (λ old e id s f. elim (Bool-cases (k == id)) [
        | inl y ↦
            let same : k ≡ id = (==_iff k id).0 y in
            let it : set_status status old ≡ s =
              ground (arith, y, f, lookup-replace k id (set_status status old) m) in
            let (a, b, c) = h k old e in
            subst (λ i. Fine rest i s) same (subst (Fine rest k) it (a, b, λ x. absurd (over x)))
        | inr n ↦
            others id s (λ same. absurd (==_apart k id n (sym same)))
              (ground (arith, n, f, lookup-replace k id (set_status status old) m))
      ])
  where
    others : (id : Text) (s : ComposeStack) → id ≢ k → lookup id m ≡ some s → Fine rest id s
    others id s apart e = let (a, b, c) = h id s e in (a, b, λ x. keeps id apart (c x))

pub Waits-delete :
    (jobs : List Job) (k : Text) (m : Dict Text ComposeStack)
    → Waits jobs m
    → Waits jobs (delete k m)
Waits-delete jobs k m h id t e = elim (Bool-cases (k == id)) [
  | inl y ↦ absurd (
      ground
        (arith, e, lookup-delete_self k m, ap (λ i. lookup i (delete k m)) ((==_iff k id).0 y)))
  | inr n ↦ h id t (ground (arith, e, lookup-delete_ne k id m (==_apart k id n)))
]

pub Waits-more :
    (jobs more : List Job) (m : Dict Text ComposeStack)
    → ((id : Text) → HasJob id jobs → HasJob id more)
    → Waits jobs m
    → Waits more m
Waits-more jobs more m grows h id s e = let (a, b, c) = h id s e in (a, b, λ x. grows id (c x))

pub Waits-stack_update :
    (jobs : List Job) (wrote : Bool) (stack : ComposeStack) (m : Dict Text ComposeStack)
    → (stack.status ≡ deploying → HasJob stack.id jobs)
    → Waits jobs m
    → Waits jobs (stack_update wrote stack m).1
unfolding stack_update
Waits-stack_update jobs wrote stack m allowed h =
    Waits-update jobs wrote stack.id (λ old. merged old stack) m
      (λ old (a, b, c). (
        refl,
        b,
        if-cases (λ (s : Text). s ≡ deploying → HasJob stack.id jobs) (stack.status == [])
            old.status stack.status (λ _. c) (λ _. allowed),
      ))
      h
