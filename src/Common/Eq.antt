-- ===== src/Common/Eq.antt =====
-- One equality test for numbers, strings, and texts as lists of byte codes.
use Prim.Native.Nat.{ℕ}
use Prim.Native.String.{String}
use mathlib.Core.Path.{◌≡◌, refl}
use mathlib.Core.Logic.{◌↔◌, ◌≢◌}
use mathlib.Core.Bool.{Bool, true, false, ◌&&◌}
use mathlib.Core.List.{List, [], ◌∷◌}
use native.Mathlib.Omega.{arith}
use text.Mathlib.Text
use text.Mathlib.TextEquality
use swirl_evo.Common.Tests.{eqb, eqb_iff}

-- Go's `==` on the values of a type, and that it decides their equality.
pub record Comparable {ℓ} (V : Type ℓ) : Type ℓ where
  pub same : V → V → Bool
  pub decides : (v w : V) → (same v w ≡ true) ↔ (v ≡ w)

module _ {ℓ} {V : Type ℓ} ⦃c : Comparable V⦄ where
  infix 50 ◌==◌
  abbrev pub ◌==◌ : V → V → Bool
  v == w = c.same v w

  -- The law of the test at the instance in scope.
  pub ==_iff : (v w : V) → (v == w ≡ true) ↔ (v ≡ w)
  ==_iff v w = c.decides v w

  pub ==_self : (v : V) → v == v ≡ true
  ==_self v = (c.decides v v).1 refl

  pub ==_ne : (v w : V) → v ≢ w → v == w ≡ false
  ==_ne v w n = ground (arith, c.decides v w, n)

  pub ==_apart : (v w : V) → v == w ≡ false → v ≢ w
  ==_apart v w n e = ground (arith, (c.decides v w).1 e, n)

abbrev pub codes_eq : List ℕ → List ℕ → Bool
codes_eq [] [] = true
codes_eq (x ∷ xs) (y ∷ ys) = eqb x y && codes_eq xs ys
codes_eq _ _ = false

pub codes_eq_iff : (s t : List ℕ) → (codes_eq s t ≡ true) ↔ (s ≡ t)
codes_eq_iff [] [] = (λ _. refl, λ _. refl)
codes_eq_iff [] (y ∷ ys) = (λ h. cc, λ h. cc)
codes_eq_iff (x ∷ xs) [] = (λ h. cc, λ h. cc)
codes_eq_iff (x ∷ xs) (y ∷ ys) = ground (arith, codes_eq_iff xs ys, eqb_iff x y)

instance abbrev pub number_eq : Comparable ℕ
number_eq = record { same = eqb; decides = eqb_iff }

instance abbrev pub text_eq : Comparable (List ℕ)
text_eq = record { same = codes_eq; decides = codes_eq_iff }

instance abbrev pub string_eq : Comparable String
string_eq = record { same = Text.◌==◌; decides = TextEquality.eq_iff }
