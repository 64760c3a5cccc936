-- ===== src/Compose/Order/Count.antt =====
-- Occurrences of a name in the lists of the algorithm.
use swirl_evo.Common.{
  ℕ, ◌+◌, ◌-◌, ◌≤◌, ◌≡◌, refl, ap, ◌&&◌, ◌==◌, ==_iff, ==_self, Bool-cases, inl, inr, List, [], ◌∷◌,
  ◌++◌, Text, arith, ltb, eqb, text_eq, if◌then◌else◌,
}
use swirl_evo.Common.Dict.{Dict, replace, lookup-replace}
use swirl_evo.Compose.Order.{insert, sort, get, get_list, visit}

unfoldable pub occurs : Text → List Text → ℕ
occurs t [] = 0
occurs t (x ∷ xs) = (if x == t then 1 else 0) + occurs t xs

pub occurs-insert :
    (t x : Text) (xs : List Text) → occurs t (insert x xs) ≡ (if x == t then 1 else 0) + occurs t xs
unfolding occurs
occurs-insert t x [] = refl
occurs-insert t x (y ∷ xs) = ground (arith, occurs-insert t x xs)

pub occurs-sort : (t : Text) (xs : List Text) → occurs t (sort xs) ≡ occurs t xs
unfolding occurs
occurs-sort t [] = refl
occurs-sort t (x ∷ xs) = ground (arith, occurs-insert t x (sort xs), occurs-sort t xs)

pub occurs-append : (t : Text) (xs ys : List Text) → occurs t (xs ++ ys) ≡ occurs t xs + occurs t ys
unfolding occurs
occurs-append t [] ys = omega arith
occurs-append t (x ∷ xs) ys = ground (arith, occurs-append t xs ys)

pub occurs-last :
    (t x : Text) (xs : List Text)
    → occurs t (xs ++ x ∷ []) ≡ occurs t xs + (if x == t then 1 else 0)
unfolding occurs
occurs-last t x xs = ground (arith, occurs-append t xs (x ∷ []))

pub get-replace :
    (t x : Text) (n : ℕ) (m : Dict Text ℕ) → get t (replace x n m) ≡ (if x == t then n else get t m)
unfolding get
get-replace t x n m = ground (arith, lookup-replace x t n m)

pub get_list-replace :
    (t x : Text) (n : List Text) (m : Dict Text (List Text))
    → get_list t (replace x n m) ≡ (if x == t then n else get_list t m)
unfolding get_list
get_list-replace t x n m = ground (arith, lookup-replace x t n m)

-- What a visit of the children leaves.
pub get-visit :
    (t : Text) (children : List Text) (m : Dict Text ℕ) (ready : List Text)
    → get t (visit children (m, ready)).0 ≡ get t m - occurs t children
unfolding visit occurs
get-visit t [] m ready = omega arith
get-visit t (c ∷ children) m ready =
    let m' = replace c (get c m - 1) m in
    ground (
      arith,
      get-replace t c (get c m - 1) m,
      get-visit t children m' (if eqb (get c m') 0 then insert c ready else ready),
      ==_iff c t,
    )

pub occurs-visit :
    (t : Text) (children : List Text) (m : Dict Text ℕ) (ready : List Text)
    → occurs t children ≤ get t m
    → occurs t (visit children (m, ready)).1
      ≡ occurs t ready
        + (if ltb 0 (occurs t children) && eqb (get t m) (occurs t children) then 1 else 0)
unfolding visit occurs
occurs-visit t [] m ready h = ground arith
occurs-visit t (c ∷ children) m ready h =
    let m' = replace c (get c m - 1) m in
    let ready' = if eqb (get c m') 0 then insert c ready else ready in
    let own = get-replace t c (get c m - 1) m in
    let at = get-replace c c (get c m - 1) m in
    elim (Bool-cases (c == t)) [
      | inl y ↦
          let same : c ≡ t = (==_iff c t).0 y in
          ground (
            arith,
            y,
            h,
            own,
            at,
            same,
            ==_self c,
            ap (λ x. get x m) same,
            occurs-visit t children m' ready',
            occurs-insert t c ready,
          )
      | inr n ↦
          ground (arith, n, h, own, occurs-visit t children m' ready', occurs-insert t c ready)
    ]
