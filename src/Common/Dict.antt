-- ===== src/Common/Dict.antt =====
-- Maps and buckets as association lists: a write replaces the entry of its key.
use mathlib.Core.Path.{◌≡◌, refl, subst}
use mathlib.Core.Logic.{◌≢◌, inl, inr}
use mathlib.Core.Bool.{Bool, true, false}
use mathlib.Core.Option.{Option, none, some}
use mathlib.Core.List.{List, [], ◌∷◌}
use native.Mathlib.Omega.{arith}
use swirl_evo.Common.Tests.{if◌then◌else◌, Bool-cases}
use swirl_evo.Common.Lists.{All}
use swirl_evo.Common.Eq.{Comparable, ◌==◌, ==_iff, ==_self, ==_ne}

abbrev pub Dict {ℓ κ} : Type ℓ → Type κ → Type (ℓ ⊔ κ)
Dict K V = List (K × V)

module _ {ℓ κ} {K : Type ℓ} {V : Type κ} ⦃c : Comparable K⦄ where
  unfoldable pub lookup : K → Dict K V → Option V
  lookup k [] = none
  lookup k ((j, v) ∷ m) = let later = lookup k m in if j == k then some v else later

  unfoldable pub replace : K → V → Dict K V → Dict K V
  replace k v [] = (k, v) ∷ []
  replace k v ((j, w) ∷ m) =
      let later = replace k v m in if j == k then (k, v) ∷ m else (j, w) ∷ later

  unfoldable pub delete : K → Dict K V → Dict K V
  delete k [] = []
  delete k ((j, w) ∷ m) = let later = delete k m in if j == k then later else (j, w) ∷ later

  -- A read and a write of one entry in one transaction, which succeeds or not; `false` also for no entry.
  unfoldable pub update_entry : Bool → K → (V → V) → Dict K V → Bool × Dict K V
  unfolding lookup replace
  update_entry wrote key new m = elim (lookup key m) [
    | none ↦ (false, m)
    | some old ↦ if wrote then (true, replace key (new old) m) else (false, m)
  ]

  pub lookup-replace_self : (k : K) (v : V) (m : Dict K V) → lookup k (replace k v m) ≡ some v
  unfolding lookup replace
  lookup-replace_self k v [] = ground (arith, ==_self k)
  lookup-replace_self k v ((j, w) ∷ m) = ground (arith, ==_self k, lookup-replace_self k v m)

  pub lookup-replace_ne :
      (k j : K) (v : V) (m : Dict K V) → k ≢ j → lookup j (replace k v m) ≡ lookup j m
  unfolding lookup replace
  lookup-replace_ne k j v [] n = ground (arith, ==_ne k j n)
  lookup-replace_ne k j v ((i, w) ∷ m) n =
      ground (arith, ==_ne k j n, ==_iff i k, ==_iff i j, lookup-replace_ne k j v m n)

  pub lookup-replace :
      (k j : K) (v : V) (m : Dict K V)
      → lookup j (replace k v m) ≡ (if k == j then some v else lookup j m)
  lookup-replace k j v m = elim (Bool-cases (k == j)) [
    | inl y ↦
        let hit : lookup j (replace k v m) ≡ some v =
          rw⁻¹ ((==_iff k j).0 y) (lookup-replace_self k v m) in
        ground (arith, y, hit)
    | inr n ↦ ground (arith, n, lookup-replace_ne k j v m, ==_iff k j)
  ]

  pub lookup-delete_self : (k : K) (m : Dict K V) → lookup k (delete k m) ≡ none
  unfolding lookup delete
  lookup-delete_self k [] = refl
  lookup-delete_self k ((j, w) ∷ m) = ground (arith, lookup-delete_self k m)

  pub lookup-delete_ne : (k j : K) (m : Dict K V) → k ≢ j → lookup j (delete k m) ≡ lookup j m
  unfolding lookup delete
  lookup-delete_ne k j [] n = refl
  lookup-delete_ne k j ((i, w) ∷ m) n =
      ground (arith, ==_iff i k, ==_iff i j, ==_ne k j n, lookup-delete_ne k j m n)

  -- What every entry of a map satisfies, also after a write of such an entry.
  pub replace-All {μ} :
      (P : K → V → Type μ) (k : K) (v : V) (m : Dict K V)
      → P k v
      → All (λ (e : K × V). P e.0 e.1) m
      → All (λ (e : K × V). P e.0 e.1) (replace k v m)
  unfolding replace
  replace-All P k v [] p h = (p, tt)
  replace-All P k v ((j, w) ∷ m) p h = ground (arith, p, h, replace-All P k v m p h.1)

  pub lookup-All {μ} :
      (P : K → V → Type μ) (k : K) (m : Dict K V) {v : V}
      → All (λ (e : K × V). P e.0 e.1) m
      → lookup k m ≡ some v
      → P k v
  unfolding lookup
  lookup-All P k [] h e = cc
  lookup-All P k ((j, w) ∷ m) {v} h e = elim (Bool-cases (j == k)) [
    | inl hit ↦
        let same : w ≡ v = ground (arith, hit, e) in
        subst (P k) same (subst (λ i. P i w) ((==_iff j k).0 hit) h.0)
    | inr miss ↦ lookup-All P k m h.1 (ground (arith, miss, e))
  ]

  pub delete-All {μ} :
      (P : K → V → Type μ) (k : K) (m : Dict K V)
      → All (λ (e : K × V). P e.0 e.1) m
      → All (λ (e : K × V). P e.0 e.1) (delete k m)
  unfolding delete
  delete-All P k [] h = tt
  delete-All P k ((j, w) ∷ m) h = ground (arith, h, delete-All P k m h.1)
