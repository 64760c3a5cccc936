-- ===== src/Backup/Retention/Sorted.antt =====
-- The sort of `ApplyRetention`, and membership by id.
use swirl_evo.Common.{
  ℕ, zero, suc, ◌≤◌, ◌≡◌, inl, inr, refl, ◌∙◌, Bool, true, ◌||◌, ◌==◌, ==_iff, Bool-cases, List, [],
  ◌∷◌, any, All, Text, arith, select, take, drop, ltb, text_eq,
}
use swirl_evo.Backup.Retention.{Backup, insert, newest_first}

abbrev pub is_in : Text → List Backup → Bool
is_in id bs = any (λ b. b.id == id) bs

-- Predicates of all elements go through the sort and its parts.
pub All-insert {κ} :
    (P : Backup → Type κ) (b : Backup) (bs : List Backup) → P b → All P bs → All P (insert b bs)
All-insert P b [] p h = (p, tt)
All-insert P b (c ∷ bs) p h = ground (arith, p, h, All-insert P b bs p h.1)

pub All-newest_first {κ} :
    (P : Backup → Type κ) (bs : List Backup) → All P bs → All P (newest_first bs)
All-newest_first P [] h = tt
All-newest_first P (b ∷ bs) h = All-insert P b (newest_first bs) h.0 (All-newest_first P bs h.1)

pub All-drop {κ} : (P : Backup → Type κ) (n : ℕ) (bs : List Backup) → All P bs → All P (drop n bs)
All-drop P zero bs h = h
All-drop P (suc n) [] h = tt
All-drop P (suc n) (b ∷ bs) h = All-drop P n bs h.1

pub All-take {κ} : (P : Backup → Type κ) (n : ℕ) (bs : List Backup) → All P bs → All P (take n bs)
All-take P zero bs h = tt
All-take P (suc n) [] h = tt
All-take P (suc n) (b ∷ bs) h = (h.0, All-take P n bs h.1)

pub All-both {κ μ} :
    (P : Backup → Type κ) (Q : Backup → Type μ) (bs : List Backup)
    → All P bs
    → All Q bs
    → All (λ b. P b × Q b) bs
All-both P Q [] h g = tt
All-both P Q (b ∷ bs) h g = ((h.0, g.0), All-both P Q bs h.1 g.1)

pub All-select {κ} :
    (P : Backup → Type κ) (p : Backup → Bool) (bs : List Backup) → All P bs → All P (select p bs)
All-select P p [] h = tt
All-select P p (b ∷ bs) h = ground (arith, h, All-select P p bs h.1)

pub is_in-insert :
    (id : Text) (b : Backup) (bs : List Backup)
    → is_in id (insert b bs) ≡ ((b.id == id) || is_in id bs)
is_in-insert id b [] = refl
is_in-insert id b (c ∷ bs) = ground (arith, is_in-insert id b bs)

pub is_in-newest_first : (id : Text) (bs : List Backup) → is_in id (newest_first bs) ≡ is_in id bs
is_in-newest_first id [] = refl
is_in-newest_first id (b ∷ bs) =
    is_in-insert id b (newest_first bs) ∙ rw (is_in-newest_first id bs) refl

pub is_in-parts :
    (id : Text) (n : ℕ) (bs : List Backup)
    → is_in id bs ≡ (is_in id (take n bs) || is_in id (drop n bs))
is_in-parts id zero bs = refl
is_in-parts id (suc n) [] = refl
is_in-parts id (suc n) (b ∷ bs) = ground (arith, is_in-parts id n bs)

-- Newest first.
abbrev pub AreSorted : List Backup → Type 0
AreSorted [] = Unit
AreSorted (b ∷ bs) = All (λ c. c.created_at ≤ b.created_at) bs × AreSorted bs

pub All-le :
    (n m : ℕ) (bs : List Backup)
    → n ≤ m
    → All (λ c. c.created_at ≤ n) bs
    → All (λ c. c.created_at ≤ m) bs
All-le n m [] l h = tt
All-le n m (b ∷ bs) l h = (omega (arith, l, h.0), All-le n m bs l h.1)

pub insert-AreSorted : (b : Backup) (bs : List Backup) → AreSorted bs → AreSorted (insert b bs)
insert-AreSorted b [] h = (tt, tt)
insert-AreSorted b (c ∷ bs) h = elim (Bool-cases (ltb b.created_at c.created_at)) [
  | inl y ↦ rw y (
    All-insert (λ x. x.created_at ≤ c.created_at) b bs (ground (arith, y)) h.0,
    insert-AreSorted b bs h.1,
  )
  | inr n ↦
      rw n ((ground (arith, n), All-le c.created_at b.created_at bs (ground (arith, n)) h.0), h)
]

pub newest_first-AreSorted : (bs : List Backup) → AreSorted (newest_first bs)
newest_first-AreSorted [] = tt
newest_first-AreSorted (b ∷ bs) = insert-AreSorted b (newest_first bs) (newest_first-AreSorted bs)

-- A member found by its id, with what holds of all.
pub found {κ} :
    (P : Backup → Type κ) (id : Text) (bs : List Backup)
    → is_in id bs ≡ true
    → All P bs
    → (b : Backup) × (b.id ≡ id) × P b
found P id [] e h = cc
found P id (b ∷ bs) e h = elim (Bool-cases (b.id == id)) [
  | inl y ↦ (b, (==_iff b.id id).0 y, h.0)
  | inr n ↦ found P id bs (ground (arith, e, n)) h.1
]

-- The kept are no older than the dropped.
pub sorted-parts :
    (n : ℕ) (bs : List Backup)
    → AreSorted bs
    → All (λ k. All (λ d. d.created_at ≤ k.created_at) (drop n bs)) (take n bs)
sorted-parts zero bs h = tt
sorted-parts (suc n) [] h = tt
sorted-parts (suc n) (b ∷ bs) h =
    (All-drop (λ c. c.created_at ≤ b.created_at) n bs h.0, sorted-parts n bs h.1)
