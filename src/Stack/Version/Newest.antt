-- ===== src/Stack/Version/Newest.antt =====
-- The newest version comes first, and pruning keeps it.
use mathlib.Core.Path.{subst}
use swirl_evo.Common.{
  ◌≡◌, ◌≢◌, refl, sym, ap, ◌∙◌, ℕ, zero, suc, ◌≤◌, ◌<◌, Bool, true, not, ◌==◌, ==_iff, ==_apart,
  inl, inr, Bool-cases, if-cases, List, [], ◌∷◌, ◌++◌, none, some, Text, All, length, select, take,
  drop, ltb, leb, eqb, text_eq, arith,
}
use swirl_evo.Common.Dict.{Dict, lookup, replace, delete, lookup-delete_ne, lookup-replace_self}
use swirl_evo.Stack.Version.{
  ComposeStackVersion, values, is_of, insert, newest_first, version_list, delete_each,
  version_prune, next_revision,
}

abbrev pub Older : ℕ → List ComposeStackVersion → Type 0
Older n l = All (λ (v : ComposeStackVersion). v.revision < n) l

Older-le : (n m : ℕ) (l : List ComposeStackVersion) → n ≤ m → Older n l → Older m l
Older-le n m [] h o = tt
Older-le n m (v ∷ l) h o = (omega (arith, h, o.0), Older-le n m l h o.1)

insert-next :
    (v : ComposeStackVersion) (l : List ComposeStackVersion)
    → (v.revision < next_revision (insert v l)) × (next_revision l ≤ next_revision (insert v l))
insert-next v [] = omega arith
insert-next v (w ∷ l) = ground (arith)

-- The next revision is above all, taken from the head of the sorted versions.
newest_first-Older : (l : List ComposeStackVersion) → Older (next_revision (newest_first l)) l
newest_first-Older [] = tt
newest_first-Older (v ∷ l) =
    let (a, b) = insert-next v (newest_first l) in
    (
      a,
      Older-le (next_revision (newest_first l)) (next_revision (newest_first (v ∷ l))) l b
          (newest_first-Older l),
    )

-- A version that is newer than the others comes first.
newest_first-snoc :
    (l : List ComposeStackVersion) (v : ComposeStackVersion)
    → Older v.revision l
    → newest_first (l ++ v ∷ []) ≡ v ∷ newest_first l
newest_first-snoc [] v o = refl
newest_first-snoc (w ∷ l) v (o, os) = rw (newest_first-snoc l v os) ground (arith, o)

select-snoc :
    (p : ComposeStackVersion → Bool) (l : List ComposeStackVersion) (v : ComposeStackVersion)
    → p v ≡ true
    → select p (l ++ v ∷ []) ≡ select p l ++ v ∷ []
select-snoc p [] v e = rw e refl
select-snoc p (w ∷ l) v e = elim (Bool-cases (p w)) [
  | inl y ↦ rw y (ap (λ r. w ∷ r) (select-snoc p l v e))
  | inr n ↦ rw n (select-snoc p l v e)
]

values-replace :
    (k : Text) (v : ComposeStackVersion) (m : Dict Text ComposeStackVersion)
    → lookup k m ≡ none
    → values (replace k v m) ≡ values m ++ v ∷ []
unfolding lookup replace
values-replace k v [] e = refl
values-replace k v ((j, w) ∷ m) e = elim (Bool-cases (j == k)) [
  | inl y ↦ absurd (ground (arith, e, y))
  | inr n ↦ rw n (ap (λ r. w ∷ r) (values-replace k v m (ground (arith, e, n))))
]

-- The versions of a bucket under their ids.
abbrev pub Keyed : Dict Text ComposeStackVersion → Type 0
Keyed m = All (λ (e : Text × ComposeStackVersion). e.1.id ≡ e.0) m

abbrev Others : Text → List ComposeStackVersion → Type 0
Others k l = All (λ (v : ComposeStackVersion). v.id ≢ k) l

values-Others :
    (k : Text) (m : Dict Text ComposeStackVersion)
    → Keyed m
    → lookup k m ≡ none
    → Others k (values m)
unfolding lookup
values-Others k [] r e = tt
values-Others k ((j, w) ∷ m) (i, r) e = elim (Bool-cases (j == k)) [
  | inl y ↦ absurd (ground (arith, e, y))
  | inr n ↦ ((λ q. ==_apart j k n (sym i ∙ q)), values-Others k m r (ground (arith, e, n)))
]

select-All {ℓ} :
    (P : ComposeStackVersion → Type ℓ) (p : ComposeStackVersion → Bool)
    (l : List ComposeStackVersion)
    → All P l
    → All P (select p l)
select-All P p [] h = tt
select-All P p (v ∷ l) h =
    if-cases (All P) (p v) (v ∷ select p l) (select p l) (λ _. (h.0, select-All P p l h.1))
      (λ _. select-All P p l h.1)

insert-All {ℓ} :
    (P : ComposeStackVersion → Type ℓ) (v : ComposeStackVersion) (l : List ComposeStackVersion)
    → P v
    → All P l
    → All P (insert v l)
insert-All P v [] p h = (p, tt)
insert-All P v (w ∷ l) p h =
    if-cases (All P) (ltb v.revision w.revision) (w ∷ insert v l) (v ∷ w ∷ l)
      (λ _. (h.0, insert-All P v l p h.1)) (λ _. (p, h))

newest_first-All {ℓ} :
    (P : ComposeStackVersion → Type ℓ) (l : List ComposeStackVersion)
    → All P l
    → All P (newest_first l)
newest_first-All P [] h = tt
newest_first-All P (v ∷ l) h = insert-All P v (newest_first l) h.0 (newest_first-All P l h.1)

drop-All {ℓ} :
    (P : ComposeStackVersion → Type ℓ) (n : ℕ) (l : List ComposeStackVersion)
    → All P l
    → All P (drop n l)
drop-All P zero l h = h
drop-All P (suc n) [] h = tt
drop-All P (suc n) (v ∷ l) h = drop-All P n l h.1

lookup-delete_each :
    (deletes : Text → Bool) (k : Text) (l : List ComposeStackVersion)
    (m : Dict Text ComposeStackVersion)
    → Others k l
    → lookup k (delete_each deletes l m) ≡ lookup k m
unfolding delete_each
lookup-delete_each deletes k [] m o = refl
lookup-delete_each deletes k (v ∷ l) m (o, os) =
    if-cases (λ r. lookup k r ≡ lookup k m) (deletes v.id) (delete_each deletes l (delete v.id m)) m
      (λ _. lookup-delete_each deletes k l (delete v.id m) os ∙ lookup-delete_ne v.id k m o)
      (λ _. refl)

-- The next revision of a stack with these versions.
abbrev pub fresh_revision : Text → Dict Text ComposeStackVersion → ℕ
fresh_revision stack_id m = next_revision (version_list stack_id 1 m)

version_list-next :
    (stack_id : Text) (m : Dict Text ComposeStackVersion)
    → fresh_revision stack_id m ≡ next_revision (newest_first (select (is_of stack_id) (values m)))
unfolding version_list
version_list-next stack_id m =
    if-cases (λ l. next_revision l ≡ next_revision items) (ltb 1 (length items)) (take 1 items)
      items (λ _. head items) (λ _. refl)
  where
    items : List ComposeStackVersion
    items = newest_first (select (is_of stack_id) (values m))

    head : (l : List ComposeStackVersion) → next_revision (take 1 l) ≡ next_revision l
    head [] = refl
    head (v ∷ l) = refl

versions-replace :
    (stack_id : Text) (v : ComposeStackVersion) (m : Dict Text ComposeStackVersion)
    → lookup v.id m ≡ none
    → v.stack_id ≡ stack_id
    → v.revision ≡ fresh_revision stack_id m
    → newest_first (select (is_of stack_id) (values (replace v.id v m)))
      ≡ v ∷ newest_first (select (is_of stack_id) (values m))
versions-replace stack_id v m new owner revision =
    let others = select (is_of stack_id) (values m) in
    let older : Older v.revision others =
      subst (λ n. Older n others) (sym (revision ∙ version_list-next stack_id m))
        (newest_first-Older others) in
    ap (λ l. newest_first (select (is_of stack_id) l)) (values-replace v.id v m new)
    ∙ (ap newest_first
          (select-snoc (is_of stack_id) (values m) v ((==_iff v.stack_id stack_id).1 owner))
        ∙ newest_first-snoc others v older)

-- A new version of the next revision is in front, and pruning to one or more versions keeps it.
pub version_prune-keeps :
    (lists : Bool) (deletes : Text → Bool) (stack_id : Text) (keep : ℕ) (v : ComposeStackVersion)
    (m : Dict Text ComposeStackVersion)
    → Keyed m
    → lookup v.id m ≡ none
    → v.stack_id ≡ stack_id
    → v.revision ≡ fresh_revision stack_id m
    → lookup v.id (version_prune lists deletes stack_id (suc keep) (replace v.id v m)) ≡ some v
unfolding version_prune version_list
version_prune-keeps lists deletes stack_id keep v m keyed new owner revision =
    if-cases P (eqb (suc keep) 0) _ _ (λ _. there)
      (λ _.
        if-cases P (not lists) _ _ (λ _. there)
          (λ _.
            if-cases P (leb (length items) (suc keep)) _ _ (λ _. there)
              (λ _.
                lookup-delete_each deletes v.id (drop (suc keep) items) (replace v.id v m) rest
                ∙ there)))
  where
    P : Dict Text ComposeStackVersion → Type 0
    P r = lookup v.id r ≡ some v

    items : List ComposeStackVersion
    items = newest_first (select (is_of stack_id) (values (replace v.id v m)))

    there : lookup v.id (replace v.id v m) ≡ some v
    there = lookup-replace_self v.id v m

    kept : Others v.id (newest_first (select (is_of stack_id) (values m)))
    kept =
        newest_first-All (λ w. w.id ≢ v.id) (select (is_of stack_id) (values m))
          (select-All (λ w. w.id ≢ v.id) (is_of stack_id) (values m)
            (values-Others v.id m keyed new))

    rest : Others v.id (drop (suc keep) items)
    rest =
        rw (versions-replace stack_id v m new owner revision)
          (drop-All (λ w. w.id ≢ v.id) keep _ kept)
