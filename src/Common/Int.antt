-- ===== src/Common/Int.antt =====
-- Go's `int` as an integer with a sign. `negsuc n` is -(n + 1).
use Prim.Native.Nat.{ℕ, ◌+◌, ◌-◌, ◌^◌}
use Prim.Native.String.{String, ◌++◌ as ◌<>◌}
use mathlib.Core.Bool.{Bool, true, false}
use mathlib.Core.List.{[], ◌∷◌}
use mathlib.Core.Option.{Option, none, some}
use swirl_evo.Common.Tests.{ltb, leb, eqb, if◌then◌else◌}
use swirl_evo.Common.Texts.{Text, digits_from, decimal}

pub data ℤ : Type 0 where
  pos : ℕ → ℤ
  negsuc : ℕ → ℤ

abbrev pub of_sign : Bool → ℕ → ℤ
of_sign false n = pos n
of_sign true n = if eqb n 0 then pos 0 else negsuc (n - 1)

-- The magnitudes that an `int64` of the sign can have.
abbrev pub in_int64 : Bool → ℕ → Bool
in_int64 false n = leb n (2 ^ 63 - 1)
in_int64 true n = leb n (2 ^ 63)

abbrev pub signed : Bool → Text → Option ℤ
signed sign [] = none
signed sign (c ∷ s) = elim (digits_from 0 (c ∷ s)) [
  | none ↦ none
  | some n ↦ if in_int64 sign n then some (of_sign sign n) else none
]

-- `strconv.Atoi`: an optional sign and at least one decimal digit, in the range of an `int64`.
unfoldable pub atoi : Text → Option ℤ
atoi [] = none
atoi (c ∷ s) =
    if eqb c b'-'
    then signed true s
    else if eqb c b'+'
    then signed false s
    else signed false (c ∷ s)

-- `%d`.
unfoldable pub decimal_int : ℤ → String
unfolding decimal
decimal_int (pos n) = decimal n
decimal_int (negsuc n) = "-" <> decimal (n + 1)

abbrev pub is_zero : ℤ → Bool
is_zero (pos n) = eqb n 0
is_zero (negsuc n) = false

abbrev pub is_positive : ℤ → Bool
is_positive (pos n) = ltb 0 n
is_positive (negsuc n) = false
