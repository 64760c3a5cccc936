-- ===== src/Compose/Order/Placed.antt =====
-- What is placed and what is not, while the main loop builds its order.
use swirl_evo.Common.{
  ℕ, ◌+◌, ◌≡◌, ◌≢◌, refl, Bool, true, false, not, ◌&&◌, ◌==◌, ==_iff, ==_self, Bool-cases, inl, inr,
  List, [], ◌∷◌, ◌++◌, Text, arith, length, ltb, eqb, text_eq, if◌then◌else◌,
}
use swirl_evo.Compose.Order.{Service, names, is_name}
use swirl_evo.Compose.Order.Count.{occurs, occurs-last, occurs-append}
use swirl_evo.Compose.Order.Build.{AreDistinct}

-- The dependencies that are not placed.
unfoldable pub pending : List Text → List Text → ℕ
pending order [] = 0
pending order (d ∷ ds) = (if eqb (occurs d order) 0 then 1 else 0) + pending order ds

-- Whether one name is placed somewhere before another.
unfoldable pub before : Text → Text → List Text → Bool
before d x [] = false
before d x (y ∷ l) =
    let later = before d x l in if y == d then ltb 0 (occurs x l) else not (y == x) && later

pub pending-last :
    (order ds : List Text) (c : Text)
    → occurs c order ≡ 0
    → pending (order ++ c ∷ []) ds + occurs c ds ≡ pending order ds
unfolding pending occurs
pending-last order [] c h = refl
pending-last order (d ∷ ds) c h =
    ground (arith, h, occurs-last d c order, pending-last order ds c h, ==_iff c d, ==_iff d c)

pub pending-nil : (ds : List Text) → pending [] ds ≡ length ds
unfolding pending occurs
pending-nil [] = refl
pending-nil (d ∷ ds) = ground (arith, pending-nil ds)

pub pending-zero :
    (order ds : List Text) (d : Text) → pending order ds ≡ 0 → occurs d ds ≢ 0 → occurs d order ≢ 0
unfolding pending occurs
pending-zero order [] d h n = absurd (n refl)
pending-zero order (e ∷ ds) d h n = elim (Bool-cases (e == d)) [
  | inl y ↦ let same : e ≡ d = (==_iff e d).0 y in rw⁻¹ same (ground (arith, h))
  | inr o ↦ pending-zero order ds d (ground (arith, h)) (ground (arith, n, o))
]

pub pending-all :
    (order ds : List Text)
    → ((d : Text) → occurs d ds ≢ 0 → occurs d order ≢ 0)
    → pending order ds ≡ 0
unfolding pending occurs
pending-all order [] h = refl
pending-all order (d ∷ ds) h =
    let rest = pending-all order ds (λ e n. h e (ground (arith, n))) in
    let own : occurs d order ≢ 0 = h d (ground (arith, ==_self d)) in ground (arith, rest, own)

pub before-append :
    (d x : Text) (l m : List Text) → before d x l ≡ true → before d x (l ++ m) ≡ true
unfolding before
before-append d x [] m h = cc
before-append d x (y ∷ l) m h = ground (arith, h, before-append d x l m, occurs-append x l m)

pub before-last :
    (d x : Text) (l : List Text) → occurs d l ≢ 0 → occurs x l ≡ 0 → before d x (l ++ x ∷ []) ≡ true
unfolding before occurs
before-last d x [] n h = absurd (n refl)
before-last d x (y ∷ l) n h = ground (arith, n, h, before-last d x l, occurs-last x x l, ==_self x)

-- The services that are not placed.
unfoldable pub left : List Text → List Service → ℕ
left order [] = 0
left order (s ∷ services) = (if eqb (occurs s.name order) 0 then 1 else 0) + left order services

pub left-nil : (services : List Service) → left [] services ≡ length services
unfolding left occurs
left-nil [] = refl
left-nil (s ∷ services) = ground (arith, left-nil services)

pub left-same :
    (order : List Text) (services : List Service) (c : Text)
    → is_name (names services) c ≡ false
    → left (order ++ c ∷ []) services ≡ left order services
unfolding left
left-same order [] c h = refl
left-same order (s ∷ services) c h = ground (
  arith,
  h,
  occurs-last s.name c order,
  left-same order services c,
  ==_iff c s.name,
  ==_iff s.name c,
)

pub left-last :
    (order : List Text) (services : List Service) (c : Text)
    → AreDistinct services
    → is_name (names services) c ≡ true
    → occurs c order ≡ 0
    → left (order ++ c ∷ []) services + 1 ≡ left order services
unfolding left
left-last order [] c a h o = cc
left-last order (s ∷ services) c a h o = elim (Bool-cases (s.name == c)) [
  | inl y ↦
      let same : s.name ≡ c = (==_iff s.name c).0 y in
      let lone : is_name (names services) c ≡ false = rw⁻¹ same a.0 in
      let zero : occurs s.name order ≡ 0 = rw same o in
      ground (
        arith,
        zero,
        occurs-last s.name c order,
        left-same order services c lone,
        ==_iff c s.name,
        same,
      )
  | inr n ↦ ground (
    arith,
    n,
    h,
    occurs-last s.name c order,
    left-last order services c a.1,
    o,
    ==_iff c s.name,
    ==_iff s.name c,
  )
]

pub left-zero :
    (order : List Text) (services : List Service) (t : Text)
    → left order services ≡ 0
    → is_name (names services) t ≡ true
    → occurs t order ≢ 0
unfolding left
left-zero order [] t h e = cc
left-zero order (s ∷ services) t h e = elim (Bool-cases (s.name == t)) [
  | inl y ↦ let same : s.name ≡ t = (==_iff s.name t).0 y in rw⁻¹ same (ground (arith, h))
  | inr n ↦ left-zero order services t (ground (arith, h)) (ground (arith, e, n))
]

pub left-all :
    (order : List Text) (services : List Service)
    → ((t : Text) → is_name (names services) t ≡ true → occurs t order ≢ 0)
    → left order services ≡ 0
unfolding left
left-all order [] h = refl
left-all order (s ∷ services) h =
    let rest = left-all order services (λ t e. h t (ground (arith, e))) in
    let own : occurs s.name order ≢ 0 = h s.name (ground (arith, ==_self s.name)) in
    ground (arith, rest, own)
