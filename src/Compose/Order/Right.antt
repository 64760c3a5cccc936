-- ===== src/Compose/Order/Right.antt =====
-- The order that the main loop builds: it has every service once, each behind what it depends on, and
-- is found wherever there is one.
use swirl_evo.Common.{
  ℕ, suc, ◌<◌, ◌≡◌, ◌≢◌, refl, ◌∙◌, true, ◌==◌, ==_iff, Bool-cases, inl, inr, List, [], ◌∷◌, All,
  Option, none, some, Text, arith, length, eqb, text_eq, if◌then◌else◌,
}
use mathlib.Core.Path.{subst}
use swirl_evo.Common.Dict.{Dict, lookup}
use swirl_evo.Compose.Order.{
  Service, names, is_name, get, get_list, Edges, free, sort, place, count_edges, topological_order,
  ordered, undefined_dependency, circular, out_of_fuel,
}
use swirl_evo.Compose.Order.Count.{occurs, occurs-sort}
use swirl_evo.Compose.Order.Build.{
  deps_of, AreDistinct, count_edges-get, count_edges-known, count_edges-some, occurs-free,
}
use swirl_evo.Compose.Order.Loop.{Inv, place-Inv, ranked-placed}
use swirl_evo.Compose.Order.Placed.{before, left, pending-nil, left-nil, left-zero, left-all}

-- The loop of a list of services of different names, after their edges were counted.
start-Inv :
    (services : List Service) (m : Dict Text ℕ) (out : Dict Text (List Text))
    → AreDistinct services
    → count_edges (names services) services ([], []) ≡ some (m, out)
    → Inv services out m (sort (free m services)) []
start-Inv services m out distinct e = record {
  counts = λ t. ground (arith, counted t, pending-nil (deps_of services t));
  holds = λ t.
      unfold occurs in
      ground (arith, occurs-sort t (free m services), occurs-free t m services distinct);
  sound = λ t d p n. absurd (p (unfold occurs in refl));
  lengths = omega (arith, left-nil services);
}
  where
    counted : (t : Text) → get t m ≡ length (deps_of services t)
    counted t =
        unfold get lookup in
        (count_edges-get (names services) services ([], []) (m, out) t t distinct e).0 ∙ omega arith

ran :
    (services : List Service) (m : Dict Text ℕ) (out : Dict Text (List Text))
    → AreDistinct services
    → count_edges (names services) services ([], []) ≡ some (m, out)
    → (order : List Text) × (m' : Dict Text ℕ) × (place
          (suc (length services))
          out
          m
          (sort (free m services))
          []
        ≡ some order)
      × Inv services out m' [] order
ran services m out distinct e =
    place-Inv services out distinct dependents (suc (length services)) m (sort (free m services)) []
      (start-Inv services m out distinct e) (omega (arith, left-nil services))
  where
    dependents : (t c : Text) → occurs t (get_list c out) ≡ occurs c (deps_of services t)
    dependents t c =
        unfold get_list occurs lookup in
        (count_edges-get (names services) services ([], []) (m, out) t c distinct e).1 ∙ omega arith

-- The result, read off the end of the loop.
result :
    (services : List Service) (m : Dict Text ℕ) (out : Dict Text (List Text)) (order : List Text)
    → count_edges (names services) services ([], []) ≡ some (m, out)
    → place (suc (length services)) out m (sort (free m services)) [] ≡ some order
    → topological_order services
      ≡ (if eqb (length order) (length services) then ordered order else circular)
unfolding topological_order
result services m out order e p = ground (arith, e, p)

occurs-All {κ} : (P : Text → Type κ) (ds : List Text) (d : Text) → All P ds → occurs d ds ≢ 0 → P d
unfolding occurs
occurs-All P [] d h n = absurd (n refl)
occurs-All P (e ∷ ds) d h n = elim (Bool-cases (e == d)) [
  | inl y ↦ subst P ((==_iff e d).0 y) h.0
  | inr o ↦ occurs-All P ds d h.1 (ground (arith, n, o))
]

-- For services of different names the order is found without running out of fuel or an error is
-- reported; an order that is found has every service exactly once and nothing else, and has each
-- service behind all that it depends on.
pub topological_order_sound :
    (services : List Service)
    → AreDistinct services
    → (topological_order services ≢ out_of_fuel)
      × ((l : List Text)
          → topological_order services ≡ ordered l
          → ((t : Text) → occurs t l ≡ (if is_name (names services) t then 1 else 0))
            × ((t d : Text)
                → is_name (names services) t ≡ true
                → occurs d (deps_of services t) ≢ 0
                → before d t l ≡ true))
topological_order_sound services distinct = go (count_edges (names services) services ([], [])) refl
  where
    go :
        (o : Option Edges)
        → count_edges (names services) services ([], []) ≡ o
        → (topological_order services ≢ out_of_fuel)
          × ((l : List Text)
              → topological_order services ≡ ordered l
              → ((t : Text) → occurs t l ≡ (if is_name (names services) t then 1 else 0))
                × ((t d : Text)
                    → is_name (names services) t ≡ true
                    → occurs d (deps_of services t) ≢ 0
                    → before d t l ≡ true))
    go none e =
        let failed : topological_order services ≡ undefined_dependency =
          unfold topological_order in ground (arith, e) in
        ((λ q. absurd (ground (arith, failed, q))), λ l q. absurd (ground (arith, failed, q)))
    go (some (m, out)) e =
        let (order, m', p, i) = ran services m out distinct e in
        let end = result services m out order e p in
        (
          (λ q. absurd (ground (arith, end, q))),
          λ l q.
              let same : order ≡ l = ground (arith, end, q) in
              let full : length order ≡ length services = ground (arith, end, q) in
              let all : left order services ≡ 0 = omega (arith, full, i.lengths) in
              rw⁻¹ same (
                (λ t. unfold occurs in ground (arith, i.holds t, left-zero order services t all)),
                λ t d k n. i.sound t d (left-zero order services t all k) n,
              ),
        )

-- For services of different names whose dependencies are services and can be ranked so that each ranks
-- below what depends on it, an order is found.
pub topological_order_finds :
    (services : List Service) (rank : Text → ℕ)
    → AreDistinct services
    → All (λ (s : Service). All (λ d. is_name (names services) d ≡ true) s.depends_on) services
    → ((t d : Text) → occurs d (deps_of services t) ≢ 0 → rank d < rank t)
    → (l : List Text) × (topological_order services ≡ ordered l)
topological_order_finds services rank distinct known falls =
    let ((m, out), e) = count_edges-some (names services) services ([], []) known in
    let (order, m', p, i) = ran services m out distinct e in
    let end = result services m out order e p in
    let placed = λ (t : Text) (k : is_name (names services) t ≡ true).
      ranked-placed services out rank
        (λ u d n. (
          falls u d n,
          occurs-All (λ x. is_name (names services) x ≡ true) (deps_of services u) d
              (count_edges-known (names services) services ([], []) (m, out) e u) n,
        ))
        m' order i (suc (rank t)) t (omega arith) k in
    let full : left order services ≡ 0 = left-all order services placed in
    (order, ground (arith, end, full, i.lengths))
