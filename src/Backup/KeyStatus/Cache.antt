-- ===== src/Backup/KeyStatus/Cache.antt =====
-- How the cache of statuses follows the key.
use swirl_evo.Common.{
  ◌≡◌, ◌≢◌, ◌⊎◌, refl, ◌∙◌, Bool, true, false, ◌&&◌, ◌==◌, List, [], ◌∷◌, any, All, some, Text,
  arith, text_eq, ==_iff, ==_self, ==_ne, Bool-cases, inl, inr,
}
use swirl_evo.Common.Dict.{Dict, lookup, replace, lookup-replace_self, lookup-replace_ne}
use swirl_evo.Backup.KeyStatus.{
  KeyStatus, unknown, compatible, Backup, StatusCache, classify_by_fingerprint, decorate_status,
  cache_status, status_of, statuses_of, verify_all, Probe, verify,
}

-- The last entry of an id among the records, by the order in which a pass writes them.
abbrev pub is_listed : Text → List (Backup × Bool) → Bool
is_listed id records = any (λ e. e.0.id == id) records

lookup-statuses_of_other :
    (current id : Text) (records : List (Backup × Bool)) (d : Dict Text KeyStatus)
    → is_listed id records ≡ false
    → lookup id (statuses_of current records d) ≡ lookup id d
unfolding statuses_of
lookup-statuses_of_other current id [] d h = refl
lookup-statuses_of_other current id ((r, missing) ∷ records) d h =
    lookup-statuses_of_other current id records (replace r.id (status_of current missing r) d)
      (ground (arith, h))
    ∙ lookup-replace_ne r.id id (status_of current missing r) d
        (λ e. absurd (ground (arith, h, (==_iff r.id id).1 e)))

-- Ids of records are pairwise different.
abbrev pub AreDistinct : List (Backup × Bool) → Type 0
AreDistinct [] = Unit
AreDistinct ((r, missing) ∷ records) = (is_listed r.id records ≡ false) × AreDistinct records

lookup-statuses_of :
    (current : Text) (records : List (Backup × Bool)) (d : Dict Text KeyStatus)
    → AreDistinct records
    → All
        (λ (e : Backup × Bool).
          lookup e.0.id (statuses_of current records d) ≡ some (status_of current e.1 e.0))
        records
unfolding statuses_of
lookup-statuses_of current [] d h = tt
lookup-statuses_of current ((r, missing) ∷ records) d h = (
  lookup-statuses_of_other current r.id records (replace r.id (status_of current missing r) d) h.0
      ∙ lookup-replace_self r.id (status_of current missing r) d,
  lookup-statuses_of current records (replace r.id (status_of current missing r) d) h.1,
)

All-map {ℓ κ μ} :
    {A : Type ℓ} {P : A → Type κ} {Q : A → Type μ} (f : (a : A) → P a → Q a) (xs : List A)
    → All P xs
    → All Q xs
All-map f [] h = tt
All-map f (x ∷ xs) h = (f x h.0, All-map f xs h.1)

-- After a pass over records with different ids, under whatever key and from whatever cache, a record is
-- shown with what the key of the moment says: unknown without a key; under the key of the pass, missing
-- where its archive was missing and else by its fingerprint; under another key by its fingerprint.
pub decorate_status-verify_all :
    (seen current : Text) (records : List (Backup × Bool)) (c : StatusCache)
    → AreDistinct records
    → All
        (λ (e : Backup × Bool).
          decorate_status current (verify_all seen records c) e.0
          ≡ status_of current (e.1 && seen == current) e.0)
        records
decorate_status-verify_all seen current records c h =
    All-map
      {P = λ (e : Backup × Bool).
        lookup e.0.id (statuses_of seen records []) ≡ some (status_of seen e.1 e.0)}
      {Q = λ (e : Backup × Bool).
        decorate_status current (verify_all seen records c) e.0
        ≡ status_of current (e.1 && seen == current) e.0}
      (λ e l. unfold decorate_status verify_all in ground (arith, l, ==_iff seen current)) records
      (lookup-statuses_of seen records [] h)

lookup-statuses_of_unknown :
    (id : Text) (records : List (Backup × Bool)) (d : Dict Text KeyStatus)
    → (is_listed id records ≡ true) ⊎ (lookup id d ≡ some unknown)
    → lookup id (statuses_of [] records d) ≡ some unknown
unfolding statuses_of
lookup-statuses_of_unknown id [] d h = ground (arith, h)
lookup-statuses_of_unknown id ((r, missing) ∷ records) d h =
    lookup-statuses_of_unknown id records (replace r.id unknown d) (elim (Bool-cases (r.id == id)) [
      | inl y ↦ inr (rw⁻¹ ((==_iff r.id id).0 y) (lookup-replace_self r.id unknown d))
      | inr n ↦ ground (arith, h, n, ==_iff r.id id, lookup-replace_ne r.id id unknown d)
    ])

-- After a pass without a key, and then the check of one record under a key that has appeared, another
-- record of the pass is shown as unknown, although its own fingerprint is that key's and the
-- comparison of fingerprints alone says that it is compatible.
pub verify-revives_unknown :
    (records : List (Backup × Bool)) (c : StatusCache) (p : Probe) (r s : Backup)
    → p.current ≢ []
    → is_listed s.id records ≡ true
    → r.id ≢ s.id
    → s.key_fingerprint ≡ p.current
    → (decorate_status p.current (verify p r (verify_all [] records c)).1 s ≡ unknown)
      × (classify_by_fingerprint s p.current ≡ compatible)
verify-revives_unknown records c p r s n l d e =
    let status = (verify p r (verify_all [] records c)).0.0 in
    let kept : lookup s.id (replace r.id status (statuses_of [] records [])) ≡ some unknown =
      lookup-replace_ne r.id s.id status (statuses_of [] records []) d
      ∙ lookup-statuses_of_unknown s.id records [] (inl l) in
    (
      (unfold decorate_status verify cache_status verify_all in
          ground (arith, ==_self p.current, ==_ne p.current [] n, kept)),
      rw e (ground (arith, ==_ne p.current [] n, ==_self p.current)),
    )
