-- ===== src/Common/Bits.antt =====
-- Single binary digits of a number, and how `&` and `|` of Go's unsigned words act on them.
use Prim.Native.Nat.{
  ℕ, zero, suc, ◌+◌, ◌*◌, ◌/◌, ◌%◌, ◌^◌, ◌≤◌, min, max, bit_and, bit_or, digits, bit_and-bitwise,
  bit_or-bitwise,
}
use mathlib.Core.Path.{◌≡◌, refl, ap, ◌∙◌}
use mathlib.Core.Bool.{Bool, false, ◌||◌}
use native.Mathlib.Omega.{arith}
use native.Mathlib.Nat.{pow-suc}
use swirl_evo.Common.Tests.{eqb, ltb}

-- A count of steps that is large enough may be replaced by any other, for `|` and for `&`.
or_fuel : (n m a b : ℕ) → a ≤ n → a ≤ m → digits (λ b. b) max n a b ≡ digits (λ b. b) max m a b
or_fuel zero zero a b p q = refl
or_fuel zero (suc m) zero b p q = refl
or_fuel zero (suc m) (suc a) b p q = absurd (omega arith)
or_fuel (suc n) zero zero b p q = refl
or_fuel (suc n) zero (suc a) b p q = absurd (omega arith)
or_fuel (suc n) (suc m) zero b p q = refl
or_fuel (suc n) (suc m) (suc a) b p q =
    omega (arith, or_fuel n m (suc a / 2) (b / 2) (omega arith) (omega arith))

and_fuel : (n m a b : ℕ) → a ≤ n → a ≤ m → digits (λ b. 0) min n a b ≡ digits (λ b. 0) min m a b
and_fuel zero zero a b p q = refl
and_fuel zero (suc m) zero b p q = refl
and_fuel zero (suc m) (suc a) b p q = absurd (omega arith)
and_fuel (suc n) zero zero b p q = refl
and_fuel (suc n) zero (suc a) b p q = absurd (omega arith)
and_fuel (suc n) (suc m) zero b p q = refl
and_fuel (suc n) (suc m) (suc a) b p q =
    omega (arith, and_fuel n m (suc a / 2) (b / 2) (omega arith) (omega arith))

zero-or : (b : ℕ) → bit_or 0 b ≡ b
zero-or b = bit_or-bitwise 0 b

zero-and : (b : ℕ) → bit_and 0 b ≡ 0
zero-and b = bit_and-bitwise 0 b

or_low : (a b : ℕ) → bit_or a b ≡ bit_or (a / 2) (b / 2) * 2 + max (a % 2) (b % 2)
or_low zero b = omega (arith, zero-or b, zero-or (b / 2))
or_low (suc a) b = omega (
  arith,
  bit_or-bitwise (suc a) b,
  bit_or-bitwise (suc a / 2) (b / 2),
  or_fuel a (suc a / 2) (suc a / 2) (b / 2) (omega arith) (omega arith),
)

and_low : (a b : ℕ) → bit_and a b ≡ bit_and (a / 2) (b / 2) * 2 + min (a % 2) (b % 2)
and_low zero b = omega (arith, zero-and b, zero-and (b / 2))
and_low (suc a) b = omega (
  arith,
  bit_and-bitwise (suc a) b,
  bit_and-bitwise (suc a / 2) (b / 2),
  and_fuel a (suc a / 2) (suc a / 2) (b / 2) (omega arith) (omega arith),
)

and_zero_fuel : (n a : ℕ) → a ≤ n → bit_and a 0 ≡ 0
and_zero_fuel n zero h = refl
and_zero_fuel zero (suc a) h = absurd (omega arith)
and_zero_fuel (suc n) (suc a) h =
    omega (arith, and_low (suc a) 0, and_zero_fuel n (suc a / 2) (omega arith))

pub bit_and-zero : (a : ℕ) → bit_and a 0 ≡ 0
bit_and-zero a = and_zero_fuel a a (omega arith)

-- Whether digit `k` of a number is 1.
pub has_bit : ℕ → ℕ → Bool
has_bit zero n = eqb (n % 2) 1
has_bit (suc k) n = has_bit k (n / 2)

pub has_bit-zero : (k : ℕ) → has_bit k 0 ≡ false
unfolding has_bit
has_bit-zero zero = refl
has_bit-zero (suc k) = has_bit-zero k

pub has_bit-or : (k a b : ℕ) → has_bit k (bit_or a b) ≡ (has_bit k a || has_bit k b)
unfolding has_bit
has_bit-or zero a b = ground (arith, or_low a b)
has_bit-or (suc k) a b = ap (has_bit k) (halved) ∙ has_bit-or k (a / 2) (b / 2)
  where
    halved : bit_or a b / 2 ≡ bit_or (a / 2) (b / 2)
    halved = omega (arith, or_low a b)

pub has_bit-pow : (k j : ℕ) → has_bit k (2 ^ j) ≡ eqb k j
unfolding has_bit
has_bit-pow zero zero = refl
has_bit-pow zero (suc j) = rw pow-suc (ground arith)
has_bit-pow (suc k) zero = has_bit-zero k ∙ ground arith
has_bit-pow (suc k) (suc j) = rw (halved) (has_bit-pow k j ∙ ground arith)
  where
    halved : 2 ^ suc j / 2 ≡ 2 ^ j
    halved = rw pow-suc (omega arith)

pub bit_and-pow : (k a : ℕ) → ltb 0 (bit_and a (2 ^ k)) ≡ has_bit k a
unfolding has_bit
bit_and-pow zero a = ground (arith, and_low a 1, bit_and-zero (a / 2))
bit_and-pow (suc k) a =
    rw (← bit_and-pow k (a / 2)) (ground (arith, and_low a (2 ^ suc k), low, halved))
  where
    halved : bit_and (a / 2) (2 ^ suc k / 2) ≡ bit_and (a / 2) (2 ^ k)
    halved = ap (bit_and (a / 2)) (rw pow-suc (omega arith))

    low : 2 ^ suc k % 2 ≡ 0
    low = rw pow-suc (omega arith)
