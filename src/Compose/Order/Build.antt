-- ===== src/Compose/Order/Build.antt =====
-- What the counting of the edges gives.
use swirl_evo.Common.{
  ℕ, ◌+◌, ◌≡◌, refl, ap, true, false, ◌&&◌, ◌==◌, ==_iff, Bool-cases, Option-cases, inl, inr, List,
  [], ◌∷◌, ◌++◌, All, Option, none, some, Text, arith, length, eqb, text_eq, if◌then◌else◌,
}
use swirl_evo.Common.Dict.{Dict, lookup, replace, lookup-replace}
use swirl_evo.Compose.Order.{
  Service, names, is_name, get, get_list, free, Edges, add_edges, seen, count_edges,
}
use swirl_evo.Compose.Order.Count.{occurs, occurs-last, get-replace, get_list-replace}

-- The dependencies of the service of a name.
unfoldable pub deps_of : List Service → Text → List Text
deps_of [] t = []
deps_of (s ∷ services) t =
    let later = deps_of services t in if s.name == t then s.depends_on else later

abbrev pub AreDistinct : List Service → Type 0
AreDistinct [] = Unit
AreDistinct (s ∷ services) = (is_name (names services) s.name ≡ false) × AreDistinct services

pub deps_of-none :
    (services : List Service) (t : Text)
    → is_name (names services) t ≡ false
    → deps_of services t ≡ []
unfolding deps_of
deps_of-none [] t h = refl
deps_of-none (s ∷ services) t h = ground (arith, h, deps_of-none services t)

get-seen : (t name : Text) (m : Dict Text ℕ) → get t (seen name m) ≡ get t m
unfolding get
get-seen t name m = elim (Option-cases (lookup name m)) [
  | inl e ↦
      ground (
        arith,
        e,
        lookup-replace name t 0 m,
        ==_iff name t,
        ap (λ x. lookup x m) {x = name} {y = t},
      )
  | inr (n, e) ↦ ground (arith, e)
]

add_edges-get :
    (known : List Text) (name : Text) (ds : List Text) (e e' : Edges) (t c : Text)
    → add_edges known name ds e ≡ some e'
    → (get t e'.0 ≡ get t e.0 + (if name == t then length ds else 0))
      × (occurs t (get_list c e'.1)
          ≡ occurs t (get_list c e.1) + (if name == t then occurs c ds else 0))
      × All (λ d. is_name known d ≡ true) ds
unfolding add_edges occurs
add_edges-get known name [] e e' t c h = ground (arith, h)
add_edges-get known name (d ∷ ds) e e' t c h =
    let m = replace name (get name e.0 + 1) e.0 in
    let out = replace d (get_list d e.1 ++ name ∷ []) e.1 in
    let known_d : is_name known d ≡ true = ground (arith, h) in
    let later = add_edges-get known name ds (m, out) e' t c (ground (arith, h, known_d)) in
    ground (
      arith,
      later,
      known_d,
      get-replace t name (get name e.0 + 1) e.0,
      get_list-replace c d (get_list d e.1 ++ name ∷ []) e.1,
      occurs-last t name (get_list d e.1),
      ==_iff name t,
      ==_iff d c,
    )

-- The counts after the loop over services of different names.
pub count_edges-get :
    (known : List Text) (services : List Service) (e e' : Edges) (t c : Text)
    → AreDistinct services
    → count_edges known services e ≡ some e'
    → (get t e'.0 ≡ get t e.0 + length (deps_of services t))
      × (occurs t (get_list c e'.1) ≡ occurs t (get_list c e.1) + occurs c (deps_of services t))
unfolding count_edges deps_of occurs
count_edges-get known [] e e' t c a h = ground (arith, h)
count_edges-get known (s ∷ services) e e' t c a h =
    go (add_edges known s.name s.depends_on (seen s.name e.0, e.1)) refl
      (λ f r. count_edges-get known services f e' t c a.1 r)
  where
    go :
        (o : Option Edges)
        → add_edges known s.name s.depends_on (seen s.name e.0, e.1) ≡ o
        → ((f : Edges)
            → count_edges known services f ≡ some e'
            → (get t e'.0 ≡ get t f.0 + length (deps_of services t))
              × (occurs t (get_list c e'.1)
                  ≡ occurs t (get_list c f.1) + occurs c (deps_of services t)))
        → (get t e'.0 ≡ get t e.0 + length (deps_of (s ∷ services) t))
          × (occurs t (get_list c e'.1)
              ≡ occurs t (get_list c e.1) + occurs c (deps_of (s ∷ services) t))
    go none q later = absurd (ground (arith, h, q))
    go (some f) q later =
        let first = add_edges-get known s.name s.depends_on (seen s.name e.0, e.1) f t c q in
        let rest = later f (ground (arith, h, q)) in
        elim (Bool-cases (s.name == t)) [
          | inl y ↦
              let lone : deps_of services t ≡ [] =
                deps_of-none services t (rw⁻¹ ((==_iff s.name t).0 y) a.0) in
              ground (arith, y, first, rest, get-seen t s.name e.0, lone)
          | inr n ↦ ground (arith, n, first, rest, get-seen t s.name e.0)
        ]

-- Every dependency is then the name of a service.
pub count_edges-known :
    (known : List Text) (services : List Service) (e e' : Edges)
    → count_edges known services e ≡ some e'
    → (t : Text) → All (λ d. is_name known d ≡ true) (deps_of services t)
unfolding count_edges deps_of
count_edges-known known [] e e' h t = tt
count_edges-known known (s ∷ services) e e' h t =
    go (add_edges known s.name s.depends_on (seen s.name e.0, e.1)) refl
      (λ f r. count_edges-known known services f e' r t)
  where
    go :
        (o : Option Edges)
        → add_edges known s.name s.depends_on (seen s.name e.0, e.1) ≡ o
        → ((f : Edges)
            → count_edges known services f ≡ some e'
            → All (λ d. is_name known d ≡ true) (deps_of services t))
        → All (λ d. is_name known d ≡ true) (deps_of (s ∷ services) t)
    go none q later = absurd (ground (arith, h, q))
    go (some f) q later =
        let own = add_edges-get known s.name s.depends_on (seen s.name e.0, e.1) f t t q in
        let rest = later f (ground (arith, h, q)) in
        elim (Bool-cases (s.name == t)) [ inl y ↦ rw y own.2 | inr n ↦ rw n rest ]

-- And where every dependency is one, the loop goes through.
add_edges-some :
    (known : List Text) (name : Text) (ds : List Text) (e : Edges)
    → All (λ d. is_name known d ≡ true) ds
    → (e' : Edges) × (add_edges known name ds e ≡ some e')
unfolding add_edges
add_edges-some known name [] e h = (e, refl)
add_edges-some known name (d ∷ ds) e h =
    let (e', q) =
      add_edges-some known name ds
        (replace name (get name e.0 + 1) e.0, replace d (get_list d e.1 ++ name ∷ []) e.1) h.1 in
    (e', ground (arith, h.0, q))

pub count_edges-some :
    (known : List Text) (services : List Service) (e : Edges)
    → All (λ (s : Service). All (λ d. is_name known d ≡ true) s.depends_on) services
    → (e' : Edges) × (count_edges known services e ≡ some e')
unfolding count_edges
count_edges-some known [] e h = (e, refl)
count_edges-some known (s ∷ services) e h =
    let (f, q) = add_edges-some known s.name s.depends_on (seen s.name e.0, e.1) h.0 in
    let (e', r) = count_edges-some known services f h.1 in (e', rw (count_edges, q) r)

-- The names that begin in the queue.
pub occurs-free :
    (t : Text) (m : Dict Text ℕ) (services : List Service)
    → AreDistinct services
    → occurs t (free m services) ≡ (if is_name (names services) t && eqb (get t m) 0 then 1 else 0)
unfolding occurs
occurs-free t m [] h = refl
occurs-free t m (s ∷ services) h = elim (Bool-cases (s.name == t)) [
  | inl y ↦
      let same : s.name ≡ t = (==_iff s.name t).0 y in
      let lone : is_name (names services) t ≡ false = rw⁻¹ same h.0 in
      ground (arith, y, ap (λ x. get x m) same, lone, occurs-free t m services h.1)
  | inr n ↦ ground (arith, n, occurs-free t m services h.1)
]
