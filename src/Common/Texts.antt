-- ===== src/Common/Texts.antt =====
-- Texts as lists of byte codes, and what the code uses of Go's `strings` and `strconv` on them.
use Prim.Native.Nat.{ℕ, zero, suc, ◌+◌, ◌-◌, ◌*◌, ◌/◌, ◌%◌}
use Prim.Native.Char.{code}
use Prim.Native.String.{String, ◌++◌ as ◌<>◌}
use mathlib.Core.Bool.{false, true, Bool, ◌&&◌, ◌||◌}
use mathlib.Core.List.{List, [], ◌∷◌, map, reverse}
use mathlib.Core.Option.{Option, none, some}
use swirl_evo.Common.Tests.{ltb, leb, eqb, if◌then◌else◌}

abbrev pub Text : Type 0
Text = List ℕ

abbrev pub codes : String → Text
codes String.[] = []
codes (String.◌∷◌ c s) = code c ∷ codes s

-- `strings.HasPrefix(s, p)` and what is left of `s` behind `p`.
abbrev pub strip_prefix : Text → Text → Option Text
strip_prefix [] s = some s
strip_prefix (p ∷ ps) [] = none
strip_prefix (p ∷ ps) (c ∷ s) = if eqb p c then strip_prefix ps s else none

abbrev pub is_prefix : Text → Text → Bool
is_prefix p s = elim (strip_prefix p s) [ none ↦ false | some rest ↦ true ]

-- `strings.TrimPrefix(s, p)`.
abbrev pub trim_prefix : Text → Text → Text
trim_prefix p s = elim (strip_prefix p s) [ none ↦ s | some rest ↦ rest ]

-- `strings.SplitN(s, sep, 2)`: `none` where the separator is absent, so that there is one part.
unfoldable pub cut : Text → Text → Option (Text × Text)
cut sep [] = elim (strip_prefix sep []) [ none ↦ none | some rest ↦ some ([], rest) ]
cut sep (c ∷ s) =
    let later = cut sep s in
    elim (strip_prefix sep (c ∷ s)) [
      | some rest ↦ some ([], rest)
      | none ↦ elim later [ none ↦ none | some (l, r) ↦ some (c ∷ l, r) ]
    ]

-- The parts of `s` between the code `c`, as `strings.Split` gives them for a separator of one byte.
split_onto : ℕ → Text → Text → List Text
split_onto c part [] = reverse part ∷ []
split_onto c part (x ∷ s) =
    let done = reverse part ∷ split_onto c [] s in
    let more = split_onto c (x ∷ part) s in if eqb x c then done else more

unfoldable pub split : ℕ → Text → List Text
unfolding split_onto
split c s = split_onto c [] s

-- `unicode.IsSpace` below 128.
abbrev pub is_space : ℕ → Bool
is_space c = (leb 9 c && leb c 13) || eqb c 32

abbrev pub trim_left : Text → Text
trim_left [] = []
trim_left (c ∷ s) = let rest = trim_left s in if is_space c then rest else c ∷ s

-- `strings.TrimSpace`.
abbrev pub trim_space : Text → Text
trim_space s = reverse (trim_left (reverse (trim_left s)))

-- `strings.TrimSuffix(s, p)`.
abbrev pub trim_suffix : Text → Text → Text
trim_suffix p s = reverse (trim_prefix (reverse p) (reverse s))

abbrev pub drop_all : ℕ → Text → Text
drop_all c [] = []
drop_all c (x ∷ s) = let rest = drop_all c s in if eqb x c then rest else x ∷ s

-- `strings.TrimRight(s, cutset)` for one byte.
abbrev pub trim_right : ℕ → Text → Text
trim_right c s = reverse (drop_all c (reverse s))

abbrev pub is_upper : ℕ → Bool
is_upper c = leb 65 c && leb c 90

abbrev pub lower : ℕ → ℕ
lower c = if is_upper c then c + 32 else c

-- `strings.ToLower` on ASCII.
abbrev pub to_lower : Text → Text
to_lower = map lower

abbrev pub is_digit : ℕ → Bool
is_digit c = leb 48 c && leb c 57

-- The value of a run of decimal digits, from the digits already read.
abbrev pub digits_from : ℕ → Text → Option ℕ
digits_from n [] = some n
digits_from n (c ∷ s) =
    let rest = digits_from (n * 10 + (c - 48)) s in if is_digit c then rest else none

-- The last decimal digit of a number, as `strconv.Itoa` writes it.
abbrev pub digit_text : ℕ → String
digit_text n =
    if eqb n 0
    then "0"
    else if eqb n 1
    then "1"
    else if eqb n 2
    then "2"
    else if eqb n 3
    then "3"
    else if eqb n 4
    then "4"
    else if eqb n 5
    then "5"
    else if eqb n 6
    then "6"
    else if eqb n 7
    then "7"
    else if eqb n 8
    then "8"
    else "9"

decimal_fuel : ℕ → ℕ → String
decimal_fuel zero n = ""
decimal_fuel (suc f) n =
    let front = decimal_fuel f (n / 10) in
    if ltb n 10 then digit_text n else front <> digit_text (n % 10)

-- `%d` of a number that is not negative. A number has fewer digits than its successor is big.
unfoldable pub decimal : ℕ → String
unfolding decimal_fuel
decimal n = decimal_fuel (suc n) n
