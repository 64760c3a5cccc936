-- ===== src/Compose/Order.antt =====
-- `topologicalOrder` of docker/compose/standalone.go: the order in which services start. Go's maps are
-- association lists, where a missing key reads as 0 or as no elements.
pub mod Count
pub mod Build
pub mod Placed
pub mod Loop
pub mod Right
mod Tests
use swirl_evo.Common.{
  ℕ, zero, suc, ◌+◌, ◌-◌, Bool, true, false, not, ◌==◌, List, [], ◌∷◌, ◌++◌, map, any, Option, none,
  some, Text, length, ltb, eqb, text_eq, if◌then◌else◌,
}
use swirl_evo.Common.Dict.{Dict, lookup, replace}

pub record Service : Type 0 where
  pub name : Text
  pub depends_on : List Text

-- Go's order of strings, by bytes.
abbrev pub text_lt : Text → Text → Bool
text_lt s [] = false
text_lt [] (c ∷ t) = true
text_lt (b ∷ s) (c ∷ t) = let later = text_lt s t in if eqb b c then later else ltb b c

-- `sort.SearchStrings` in a sorted list, and the insertion at its place.
abbrev pub insert : Text → List Text → List Text
insert t [] = t ∷ []
insert t (x ∷ xs) = let later = insert t xs in if text_lt x t then x ∷ later else t ∷ x ∷ xs

-- `sort.Strings`.
abbrev pub sort : List Text → List Text
sort [] = []
sort (t ∷ ts) = insert t (sort ts)

abbrev pub names : List Service → List Text
names services = map (λ s. s.name) services

abbrev pub is_name : List Text → Text → Bool
is_name ts t = any (λ u. u == t) ts

abbrev pub or_zero : Option ℕ → ℕ
or_zero none = 0
or_zero (some n) = n

abbrev pub or_empty : Option (List Text) → List Text
or_empty none = []
or_empty (some l) = l

pub get : Text → Dict Text ℕ → ℕ
get t m = or_zero (lookup t m)

pub get_list : Text → Dict Text (List Text) → List Text
get_list t m = or_empty (lookup t m)

abbrev pub Edges : Type 0
Edges = Dict Text ℕ × Dict Text (List Text)

-- The inner loop over the dependencies of a service: `none` for a name that no service has.
pub add_edges : List Text → Text → List Text → Edges → Option Edges
unfolding get get_list lookup replace
add_edges known name [] e = some e
add_edges known name (d ∷ ds) e =
    let later =
      add_edges known name ds
        (replace name (get name e.0 + 1) e.0, replace d (get_list d e.1 ++ name ∷ []) e.1) in
    if not (is_name known d) then none else later

abbrev pub seen : Text → Dict Text ℕ → Dict Text ℕ
seen name m = elim (lookup name m) [ none ↦ replace name 0 m | some _ ↦ m ]

pub count_edges : List Text → List Service → Edges → Option Edges
unfolding add_edges lookup replace
count_edges known [] e = some e
count_edges known (s ∷ services) e =
    elim (add_edges known s.name s.depends_on (seen s.name e.0, e.1)) [
      | none ↦ none
      | some e' ↦ count_edges known services e'
    ]

abbrev pub free : Dict Text ℕ → List Service → List Text
free m [] = []
free m (s ∷ services) =
    let later = free m services in if eqb (get s.name m) 0 then s.name ∷ later else later

-- The loop over the services that wait for the one just placed.
pub visit : List Text → Dict Text ℕ × List Text → Dict Text ℕ × List Text
unfolding get replace
visit [] (m, ready) = (m, ready)
visit (child ∷ children) (m, ready) =
    let m' = replace child (get child m - 1) m in
    visit children (m', (if eqb (get child m') 0 then insert child ready else ready))

-- The main loop, on fuel.
pub place : ℕ → Dict Text (List Text) → Dict Text ℕ → List Text → List Text → Option (List Text)
unfolding visit get_list
place zero out m ready order = none
place (suc fuel) out m [] order = some order
place (suc fuel) out m (current ∷ ready) order =
    let (m', ready') = visit (sort (get_list current out)) (m, ready) in
    place fuel out m' ready' (order ++ current ∷ [])

pub data Ordering : Type 0 where
  ordered : List Text → Ordering
  undefined_dependency circular out_of_fuel : Ordering

unfoldable pub topological_order : List Service → Ordering
unfolding count_edges place get
topological_order services = elim (count_edges (names services) services ([], [])) [
  | none ↦ undefined_dependency
  | some (m, out) ↦ elim (place (suc (length services)) out m (sort (free m services)) []) [
    | none ↦ out_of_fuel
    | some order ↦ if eqb (length order) (length services) then ordered order else circular
  ]
]
