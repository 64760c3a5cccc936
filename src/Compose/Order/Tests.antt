-- ===== src/Compose/Order/Tests.antt =====
-- The theorems on the order at a concrete list of services.
use mathlib.Core.Bool.{false≢true}
use swirl_evo.Common.{
  ℕ, ◌<◌, ◌≡◌, ◌≢◌, refl, arith, true, ◌==◌, ==_iff, List, [], ◌∷◌, Text, codes, text_eq,
  if◌then◌else◌,
}
use swirl_evo.Compose.Order.{Service, names, is_name, topological_order, ordered, out_of_fuel}
use swirl_evo.Compose.Order.Count.{occurs}
use swirl_evo.Compose.Order.Build.{deps_of}
use swirl_evo.Compose.Order.Placed.{before}
use swirl_evo.Compose.Order.Right.{topological_order_sound, topological_order_finds}

abbrev web : Text
web = codes "web"

abbrev db : Text
db = codes "db"

abbrev two : List Service
two = record { name = web; depends_on = db ∷ [] } ∷ record { name = db; depends_on = [] } ∷ []

topological_order_sound_example :
    (topological_order two ≢ out_of_fuel)
    × ((l : List Text)
        → topological_order two ≡ ordered l
        → ((t : Text) → occurs t l ≡ (if is_name (names two) t then 1 else 0))
          × ((t d : Text)
              → is_name (names two) t ≡ true
              → occurs d (deps_of two t) ≢ 0
              → before d t l ≡ true))
topological_order_sound_example = topological_order_sound two (refl, (refl, tt))

rank : Text → ℕ
rank t = if t == web then 1 else 0

differ : db ≢ web
differ e = false≢true ((==_iff db web).1 e)

falls : (t d : Text) → occurs d (deps_of two t) ≢ 0 → rank d < rank t
unfolding rank occurs deps_of
falls t d n = ground (arith, n, differ, ==_iff db d, ==_iff web t, ==_iff t web, ==_iff d web)

topological_order_finds_example : (l : List Text) × (topological_order two ≡ ordered l)
topological_order_finds_example =
    topological_order_finds two rank (refl, (refl, tt)) ((refl, tt), (tt, tt)) falls
