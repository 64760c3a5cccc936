-- ===== src/Backup/Retention/Newest.antt =====
-- Which backups a retention leaves.
use mathlib.Core.Path.{subst}
use swirl_evo.Common.{
  ℕ, ◌≤◌, ◌≡◌, ◌≢◌, ◌⊎◌, inl, inr, refl, ◌∙◌, Bool, true, false, ◌==◌, ==_iff, ==_self, Bool-cases,
  List, [], ◌∷◌, All, none, some, Text, arith, length, select, take, drop, leb, eqb, text_eq,
  if◌then◌else◌,
}
use swirl_evo.Common.Dict.{Dict, lookup, delete, lookup-delete_self, lookup-delete_ne, lookup-All}
use swirl_evo.Backup.Retention.{
  Backup, values, is_from, backup_get_by_source, newest_first, delete_each, apply_retention,
}
use swirl_evo.Backup.Retention.Sorted.{
  is_in, All-newest_first, All-drop, All-take, All-both, All-select, is_in-newest_first,
  is_in-parts, newest_first-AreSorted, found, sorted-parts,
}

-- What the deletions leave under an id.
lookup-delete_each :
    (id : Text) (bs : List Backup) (m : Dict Text Backup)
    → lookup id (delete_each (λ _. true) bs m).1 ≡ (if is_in id bs then none else lookup id m)
unfolding delete_each
lookup-delete_each id [] m = refl
lookup-delete_each id (b ∷ bs) m = elim (Bool-cases (b.id == id)) [
  | inl y ↦
      let same : b.id ≡ id = (==_iff b.id id).0 y in
      let gone : lookup id (delete b.id m) ≡ none = rw⁻¹ same (lookup-delete_self b.id m) in
      ground (arith, y, lookup-delete_each id bs (delete b.id m), gone)
  | inr n ↦ ground (
    arith,
    n,
    lookup-delete_each id bs (delete b.id m),
    lookup-delete_ne b.id id m (λ e. absurd (ground (arith, n, (==_iff b.id id).1 e))),
  )
]

-- Each entry of a bucket is the one found under its key, and its key is the backup's id.
abbrev pub IsBucket : Dict Text Backup → Type 0
IsBucket m = All (λ (e : Text × Backup). (lookup e.0 m ≡ some e.1) × (e.0 ≡ e.1.id)) m

All-values {κ} :
    (P : Backup → Type κ) (m : Dict Text Backup)
    → All (λ (e : Text × Backup). P e.1) m
    → All P (values m)
All-values P [] h = tt
All-values P ((k, b) ∷ m) h = (h.0, All-values P m h.1)

bucket-values :
    (m n : Dict Text Backup)
    → All (λ (e : Text × Backup). (lookup e.0 m ≡ some e.1) × (e.0 ≡ e.1.id)) n
    → All (λ b. lookup b.id m ≡ some b) (values n)
bucket-values m [] h = tt
bucket-values m ((k, b) ∷ n) h =
    (subst (λ i. lookup i m ≡ some b) h.0.1 h.0.0, bucket-values m n h.1)

lookup-is_in :
    (p : Backup → Bool) (k : Text) (b : Backup) (m : Dict Text Backup)
    → lookup k m ≡ some b
    → p b ≡ true
    → is_in b.id (select p (values m)) ≡ true
unfolding lookup
lookup-is_in p k b [] e h = cc
lookup-is_in p k b ((j, c) ∷ m) e h = ground (arith, e, h, ==_self b.id, lookup-is_in p k b m)

All-select_self : (p : Backup → Bool) (bs : List Backup) → All (λ b. p b ≡ true) (select p bs)
All-select_self p [] = tt
All-select_self p (b ∷ bs) = ground (arith, All-select_self p bs)

-- What a retention leaves under an id: the bucket as it was, or without the oldest of the source.
lookup-apply_retention :
    (source : Text) (max : ℕ) (m : Dict Text Backup)
    → ((id : Text) → lookup id (apply_retention (λ _. true) source max m).1 ≡ lookup id m)
      ⊎ ((id : Text)
          → lookup id (apply_retention (λ _. true) source max m).1 ≡ (
              if is_in id (drop max (newest_first (backup_get_by_source source m)))
              then none
              else lookup id m))
lookup-apply_retention source max m = elim (Bool-cases (eqb max 0)) [
  | inl y ↦ inl (λ id. unfold apply_retention in ground (arith, y))
  | inr n ↦ elim (Bool-cases (leb (length (backup_get_by_source source m)) max)) [
    | inl y ↦ inl (λ id. unfold apply_retention in ground (arith, n, y))
    | inr l ↦ inr (λ id.
        unfold apply_retention in
        rw (n, l)
          (lookup-delete_each id (drop max (newest_first (backup_get_by_source source m))) m))
  ]
]

-- The expired backups are the store's own and of the source.
module _ (source : Text) (max : ℕ) (m : Dict Text Backup) (h : IsBucket m) where
  abbrev sorted : List Backup
  sorted = newest_first (backup_get_by_source source m)

  sorted-stored : All (λ b. lookup b.id m ≡ some b) sorted
  sorted-stored =
      All-newest_first (λ b. lookup b.id m ≡ some b) (backup_get_by_source source m)
        (All-newest_first (λ b. lookup b.id m ≡ some b) (select (is_from source) (values m))
          (All-select (λ b. lookup b.id m ≡ some b) (is_from source) (values m)
            (bucket-values m m h)))

  sorted-from : All (λ b. is_from source b ≡ true) sorted
  sorted-from =
      All-newest_first (λ b. is_from source b ≡ true) (backup_get_by_source source m)
        (All-newest_first (λ b. is_from source b ≡ true) (select (is_from source) (values m))
          (All-select_self (is_from source) (values m)))

  -- What holds of all of some stored backups holds of the one under an id that is among them.
  member {κ} :
      (P : Backup → Type κ) (id : Text) (b : Backup) (bs : List Backup)
      → lookup id m ≡ some b
      → is_in id bs ≡ true
      → All (λ c. lookup c.id m ≡ some c) bs
      → All P bs
      → P b
  member P id b bs e i stored all =
      let (c, named, own_p) =
        found (λ c. (lookup c.id m ≡ some c) × P c) id bs i
          (All-both (λ c. lookup c.id m ≡ some c) P bs stored all) in
      let hit : lookup id m ≡ some c = rw⁻¹ named own_p.0 in
      let same : c ≡ b = ground (arith, e, hit) in subst P same own_p.1

  others-kept :
      (id : Text) (b : Backup)
      → lookup id m ≡ some b
      → b.source ≢ source
      → is_in id (drop max sorted) ≡ false
  others-kept id b e n = elim (Bool-cases (is_in id (drop max sorted))) [
    | inl y ↦
        let from =
          member (λ c. is_from source c ≡ true) id b (drop max sorted) e y
            (All-drop (λ c. lookup c.id m ≡ some c) max sorted sorted-stored)
            (All-drop (λ c. is_from source c ≡ true) max sorted sorted-from) in
        absurd (n ((==_iff b.source source).0 from))
    | inr o ↦ o
  ]

  kept-newer :
      (id : Text) (b : Backup) (id' : Text) (b' : Backup)
      → lookup id m ≡ some b
      → lookup id' m ≡ some b'
      → b'.source ≡ source
      → is_in id (drop max sorted) ≡ true
      → is_in id' (drop max sorted) ≡ false
      → b.created_at ≤ b'.created_at
  kept-newer id b id' b' e e' from i o =
      let key : id' ≡ b'.id =
        (lookup-All (λ k v. (lookup k m ≡ some v) × (k ≡ v.id)) id' m h e').1 in
      let listed : is_in id' (select (is_from source) (values m)) ≡ true =
        rw key (lookup-is_in (is_from source) id' b' m e' ((==_iff b'.source source).1 from)) in
      let taken : is_in id' (take max sorted) ≡ true = ground (
        arith,
        listed,
        o,
        is_in-newest_first id' (select (is_from source) (values m)),
        is_in-newest_first id' (backup_get_by_source source m),
        is_in-parts id' max sorted,
      ) in
      member (λ d. d.created_at ≤ b'.created_at) id b (drop max sorted) e i
        (All-drop (λ c. lookup c.id m ≡ some c) max sorted sorted-stored)
        (member (λ c. All (λ d. d.created_at ≤ c.created_at) (drop max sorted)) id' b'
          (take max sorted) e' taken
          (All-take (λ c. lookup c.id m ≡ some c) max sorted sorted-stored)
          (sorted-parts max sorted (newest_first-AreSorted (backup_get_by_source source m))))

-- When all deletions work and at least one backup is to be kept: a retention touches no backup of
-- another source, and every backup of the source that is left is at least as new as every backup
-- that is gone.
pub apply_retention-newest :
    (source : Text) (max : ℕ) (m : Dict Text Backup)
    → IsBucket m
    → ((id : Text) (b : Backup)
        → lookup id m ≡ some b
        → b.source ≢ source
        → lookup id (apply_retention (λ _. true) source max m).1 ≡ some b)
      × ((id : Text) (b : Backup) (id' : Text) (b' : Backup)
          → lookup id m ≡ some b
          → lookup id (apply_retention (λ _. true) source max m).1 ≡ none
          → lookup id' (apply_retention (λ _. true) source max m).1 ≡ some b'
          → b'.source ≡ source
          → b.created_at ≤ b'.created_at)
apply_retention-newest source max m h = elim (lookup-apply_retention source max m) [
  | inl f ↦
      (λ id b e n. f id ∙ e, λ id b id' b' e gone left from. absurd (ground (arith, e, gone, f id)))
  | inr f ↦ (
    λ id b e n. ground (arith, e, f id, others-kept source max m h id b e n),
    λ id b id' b' e gone left from.
        kept-newer source max m h id b id' b' e (ground (arith, left, f id')) from
          (ground (arith, e, gone, f id)) (ground (arith, left, f id')),
  )
]
