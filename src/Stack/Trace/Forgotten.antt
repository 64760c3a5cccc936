-- ===== src/Stack/Trace/Forgotten.antt =====
-- A removal that succeeds leaves nothing of the stack in the store.
use swirl_evo.Common.{
  if-cases, ◌≡◌, ◌≢◌, refl, Bool, true, ◌==◌, ==_iff, ==_apart, ==_self, Bool-cases, inl, inr, List,
  [], ◌∷◌, All, any, select, none, Text, arith, text_eq, if◌then◌else◌,
}
use swirl_evo.Common.Dict.{Dict, lookup, delete, lookup-delete_self}
use swirl_evo.Docker.{Docker}
use swirl_evo.Stack.{ComposeStack}
use swirl_evo.Stack.Version.{
  ComposeStackVersion, version_delete_by_stack, delete_each, values, is_of,
}
use swirl_evo.Stack.Manage.{Answers, Ending, Error, ok, failed, World}
use swirl_evo.Stack.Manage.Deploys.{with_client, with_daemon}
use swirl_evo.Stack.Manage.Calls.{
  bindings_of, delete_bindings, binding_delete_by_stack, forget, remove, remove_project,
}
use swirl_evo.Stack.Manage.Cases.Drops.{
  loaded-cases, on_host-cases, drop_project-cases, guarded_drop-cases, forget-cases,
}

module _ {V : Type 0} (owner : V → Text) (stack_id : Text) where
  -- An entry is not of the stack, or its key is still to be deleted.
  abbrev pub Going : List Text → Text × V → Type 0
  Going keys e = owner e.1 ≡ stack_id → any (λ j. j == e.0) keys ≡ true

  -- The keys of the entries of the stack.
  abbrev pub keys_of : Dict Text V → List Text
  keys_of [] = []
  keys_of ((k, v) ∷ m) = let rest = keys_of m in if owner v == stack_id then k ∷ rest else rest

  abbrev pub delete_keys : List Text → Dict Text V → Dict Text V
  delete_keys [] m = m
  delete_keys (j ∷ keys) m = delete_keys keys (delete j m)

  Going-more :
      (j : Text) (keys : List Text) (m : Dict Text V)
      → All (Going keys) m
      → All (Going (j ∷ keys)) m
  Going-more j keys [] h = tt
  Going-more j keys (e ∷ m) h = (λ x. ground (arith, h.0 x), Going-more j keys m h.1)

  keys_of-Going : (m : Dict Text V) → All (Going (keys_of m)) m
  keys_of-Going [] = tt
  keys_of-Going ((k, v) ∷ m) =
      if-cases (λ (keys : List Text). All (Going keys) ((k, v) ∷ m)) (owner v == stack_id)
        (k ∷ keys_of m) (keys_of m)
        (λ _. (λ x. ground (arith, ==_self k), Going-more k (keys_of m) m (keys_of-Going m)))
        (λ n. (λ x. absurd (==_apart (owner v) stack_id n x), keys_of-Going m))

  delete-Going :
      (j : Text) (keys : List Text) (m : Dict Text V)
      → All (Going (j ∷ keys)) m
      → All (Going keys) (delete j m)
  unfolding delete
  delete-Going j keys [] h = tt
  delete-Going j keys ((k, v) ∷ m) h =
      let later = delete-Going j keys m h.1 in
      if-cases (All (Going keys)) (k == j) (delete j m) ((k, v) ∷ delete j m) (λ _. later)
        (λ n. (λ x. ground (arith, h.0 x, n, ==_iff j k, ==_iff k j), later))

  delete_keys-None :
      (keys : List Text) (m : Dict Text V)
      → All (Going keys) m
      → All (λ (e : Text × V). owner e.1 ≢ stack_id) (delete_keys keys m)
  delete_keys-None [] [] h = tt
  delete_keys-None [] (e ∷ m) h = (λ x. absurd (ground (arith, h.0 x)), delete_keys-None [] m h.1)
  delete_keys-None (j ∷ keys) m h = delete_keys-None keys (delete j m) (delete-Going j keys m h)

  pub delete_keys-Gone :
      (m : Dict Text V) → All (λ (e : Text × V). owner e.1 ≢ stack_id) (delete_keys (keys_of m) m)
  delete_keys-Gone m = delete_keys-None (keys_of m) m (keys_of-Going m)

-- Each version lies under its id.
abbrev pub Keyed : Dict Text ComposeStackVersion → Type 0
Keyed m = All (λ (e : Text × ComposeStackVersion). e.1.id ≡ e.0) m

abbrev of_version : ComposeStackVersion → Text
of_version v = v.stack_id

abbrev of_binding : Text → Text
of_binding owner = owner

abbrev all_deleted : Text → Bool
all_deleted id = true

bindings_of-keys :
    (stack_id : Text) (m : Dict Text Text) → bindings_of stack_id m ≡ keys_of of_binding stack_id m
bindings_of-keys stack_id [] = refl
bindings_of-keys stack_id ((k, owner) ∷ m) = rw (bindings_of-keys stack_id m) refl

delete_bindings-keys :
    (stack_id : Text) (keys : List Text) (m : Dict Text Text)
    → delete_bindings all_deleted keys m ≡ delete_keys of_binding stack_id keys m
unfolding delete_bindings
delete_bindings-keys stack_id [] m = refl
delete_bindings-keys stack_id (k ∷ keys) m = delete_bindings-keys stack_id keys (delete k m)

delete_each-keys :
    (stack_id : Text) (n m : Dict Text ComposeStackVersion)
    → Keyed n
    → delete_each all_deleted (select (is_of stack_id) (values n)) m
      ≡ delete_keys of_version stack_id (keys_of of_version stack_id n) m
unfolding delete_each
delete_each-keys stack_id [] m h = refl
delete_each-keys stack_id ((k, v) ∷ n) m h = elim (Bool-cases (v.stack_id == stack_id)) [
  | inl y ↦ rw (y, h.0) (delete_each-keys stack_id n (delete k m) h.1)
  | inr o ↦ rw o (delete_each-keys stack_id n m h.1)
]

-- Nothing of the stack is in the store.
abbrev pub IsForgotten : (d : Docker) → Text → World d → Type 0
IsForgotten d id w =
    (lookup id w.kept.stacks ≡ none)
    × All (λ (e : Text × Text). e.1 ≢ id) w.bindings
    × All (λ (e : Text × ComposeStackVersion). e.1.stack_id ≢ id) w.kept.versions

module _ (d : Docker) (k : Answers) (id : Text) where
  -- What the store answers to a removal: every list and every deletion succeeds.
  abbrev pub Deletes : Type 0
  Deletes =
      (k.lists_bindings ≡ true)
      × (k.lists_versions ≡ true)
      × (k.deletes_binding ≡ all_deleted)
      × (k.deletes_version ≡ all_deleted)

  -- A result that is a success leaves nothing.
  abbrev Clears : Ending × World d → Type 0
  Clears r = (i : Text) → r.0 ≡ ok i → IsForgotten d id r.1

  no_claim : (e : Error) (w : World d) → Clears (failed e, w)
  no_claim e w i x = cc

  bindings-Gone :
      (lists : Bool) (deletes : Text → Bool) (m : Dict Text Text)
      → lists ≡ true
      → deletes ≡ all_deleted
      → All (λ (e : Text × Text). e.1 ≢ id) (binding_delete_by_stack lists deletes id m)
  unfolding binding_delete_by_stack
  bindings-Gone lists deletes m l e =
      rw (l, e, bindings_of-keys id m, delete_bindings-keys id (keys_of of_binding id m) m)
        (delete_keys-Gone of_binding id m)

  versions-Gone :
      (lists : Bool) (deletes : Text → Bool) (m : Dict Text ComposeStackVersion)
      → lists ≡ true
      → deletes ≡ all_deleted
      → Keyed m
      → All
          (λ (e : Text × ComposeStackVersion). e.1.stack_id ≢ id)
          (version_delete_by_stack lists deletes id m)
  unfolding version_delete_by_stack
  versions-Gone lists deletes m l e keyed =
      rw (l, e, delete_each-keys id m m keyed) (delete_keys-Gone of_version id m)

  forget-Clears :
      (stack : ComposeStack) (w : World d)
      → Deletes
      → Keyed w.kept.versions
      → Clears (forget d k stack id w)
  forget-Clears stack w (lb, lv, db, dv) keyed =
      forget-cases d Clears k stack id w
        (λ i x. (
          lookup-delete_self id w.kept.stacks,
          bindings-Gone k.lists_bindings k.deletes_binding w.bindings lb db,
          versions-Gone k.lists_versions k.deletes_version w.kept.versions lv dv keyed,
        ))
        (λ i x. cc)

  -- A removal that succeeds leaves no stack with the id in the store, and no binding and no version of it,
  -- where the lists of both and their deletions work and each version lies under its id.
  pub remove-IsForgotten :
      (removes_volumes force : Bool) (w : World d)
      → Deletes
      → Keyed w.kept.versions
      → (i : Text) → (remove d k id removes_volumes force w).0 ≡ ok i
      → IsForgotten d id (remove d k id removes_volumes force w).1
  unfolding remove
  remove-IsForgotten removes_volumes force w deletes keyed =
      loaded-cases d Clears k id w _ (λ e. no_claim e w)
        (λ stack _.
          let u = with_client d k stack.host_id w in
          on_host-cases d Clears k stack.host_id _ w (λ e. no_claim e u)
            (λ client.
              guarded_drop-cases d Clears k stack.name removes_volumes force (forget d k stack id)
                client u (λ v vs _ i x. cc)
                (λ _.
                  drop_project-cases d Clears k stack.name client removes_volumes
                    (forget d k stack id) u
                    (λ _.
                      forget-Clears stack
                        (with_daemon d client
                          (remove_project d stack.name removes_volumes (u.daemons client)).1 u)
                        deletes keyed)
                    (λ _ i x. cc))))
