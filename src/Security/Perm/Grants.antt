-- ===== src/Security/Perm/Grants.antt =====
-- Which permissions a word grants, read off the list that it was made from.
use Prim.Native.Nat.{bit_and, bit_or}
use swirl_evo.Common.{
  ℕ, zero, suc, ◌+◌, ◌^◌, ◌<◌, ◌≡◌, refl, ◌∙◌, Bool, true, false, ◌&&◌, ◌||◌, eqb, ltb, List, [],
  ◌∷◌, any, Option, none, some, Text, cut, text_eq, arith, All, Option-cases, inl, inr,
}
use swirl_evo.Common.Bits.{
  has_bit, has_bit-zero, has_bit-or, has_bit-pow, bit_and-zero, bit_and-pow,
}
use swirl_evo.Security.Perm.{
  action_bits, resources, actions, exponent, word_of, shifted, dot, new_perm_map_from, new_perm_map,
  contains,
}

-- Whether a permission names the resource or the action of an exponent.
pub names_resource : ℕ → Text → Bool
names_resource k perm = elim (cut dot perm) [
  | none ↦ false
  | some (r, a) ↦ elim (exponent r resources) [ none ↦ false | some j ↦ eqb k j ]
]

pub names_action : ℕ → Text → Bool
names_action k perm = elim (cut dot perm) [
  | none ↦ false
  | some (r, a) ↦ elim (exponent a actions) [ none ↦ false | some j ↦ eqb k j ]
]

-- What a list of permissions grants: some entry names the resource, and some entry the action.
pub grants : List Text → Text → Bool
grants perms perm = elim (cut dot perm) [
  | none ↦ false
  | some (r, a) ↦
      (elim (exponent r resources) [ none ↦ false | some k ↦ any (names_resource k) perms ])
      && (elim (exponent a actions) [ none ↦ false | some k ↦ any (names_action k) perms ])
]

exponent-lt :
    (n : ℕ) (name : Text) (table : List (Text × ℕ)) (k : ℕ)
    → All (λ (e : Text × ℕ). e.1 < n) table
    → exponent name table ≡ some k
    → k < n
unfolding exponent
exponent-lt n name [] k h e = cc
exponent-lt n name ((m, j) ∷ table) k h e = ground (arith, exponent-lt n name table k h.1)

resources-lt : (name : Text) (k : ℕ) → exponent name resources ≡ some k → k < action_bits
resources-lt name k = exponent-lt action_bits name resources k (omega arith)

actions-lt : (name : Text) (k : ℕ) → exponent name actions ≡ some k → k < action_bits
actions-lt name k = exponent-lt action_bits name actions k (omega arith)

all_under : ℕ → (ℕ → Bool) → Bool
all_under zero p = true
all_under (suc n) p = p n && all_under n p

all_under-lt : (n : ℕ) (p : ℕ → Bool) (k : ℕ) → all_under n p ≡ true → k < n → p k ≡ true
unfolding all_under
all_under-lt zero p k h lt = absurd (omega arith)
all_under-lt (suc n) p k h lt = ground (arith, all_under-lt n p k)

shifts : all_under action_bits (λ k. eqb (shifted (2 ^ k)) (2 ^ (k + action_bits))) ≡ true
unfolding all_under shifted
shifts = refl

shifted-pow : (k : ℕ) → k < action_bits → shifted (2 ^ k) ≡ 2 ^ (k + action_bits)
shifted-pow k h = ground (
  arith,
  all_under-lt action_bits (λ k. eqb (shifted (2 ^ k)) (2 ^ (k + action_bits))) k shifts h,
)

-- Whether an exponent that may be missing is `k`.
abbrev is_exponent : ℕ → Option ℕ → Bool
is_exponent k none = false
is_exponent k (some j) = eqb k j

abbrev IsBelow : Option ℕ → Type 0
IsBelow none = Unit
IsBelow (some j) = j < action_bits

has_bit-resource :
    (k : ℕ) (o : Option ℕ)
    → IsBelow o
    → has_bit (k + action_bits) (shifted (word_of o)) ≡ is_exponent k o
has_bit-resource k none h = (unfold shifted in has_bit-zero (k + action_bits))
has_bit-resource k (some j) h =
    rw (shifted-pow j h, has_bit-pow (k + action_bits) (j + action_bits)) (ground arith)

has_bit-resource_low :
    (k : ℕ) (o : Option ℕ) → k < action_bits → IsBelow o → has_bit k (shifted (word_of o)) ≡ false
has_bit-resource_low k none lt h = (unfold shifted in has_bit-zero k)
has_bit-resource_low k (some j) lt h =
    rw (shifted-pow j h, has_bit-pow k (j + action_bits)) (ground arith)

has_bit-action : (k : ℕ) (o : Option ℕ) → has_bit k (word_of o) ≡ is_exponent k o
has_bit-action k none = has_bit-zero k
has_bit-action k (some j) = has_bit-pow k j

has_bit-action_high :
    (k : ℕ) (o : Option ℕ) → IsBelow o → has_bit (k + action_bits) (word_of o) ≡ false
has_bit-action_high k none h = has_bit-zero (k + action_bits)
has_bit-action_high k (some j) h = rw (has_bit-pow (k + action_bits) j) (ground arith)

IsBelow-resources : (name : Text) → IsBelow (exponent name resources)
IsBelow-resources name = elim (Option-cases (exponent name resources)) [
  | inl e ↦ rw e tt
  | inr (k, e) ↦ rw e (resources-lt name k e)
]

IsBelow-actions : (name : Text) → IsBelow (exponent name actions)
IsBelow-actions name = elim (Option-cases (exponent name actions)) [
  | inl e ↦ rw e tt
  | inr (k, e) ↦ rw e (actions-lt name k e)
]

-- One turn of the loop, for a permission with its two parts.
turn : ℕ → Text → Text → ℕ
turn p r a =
    bit_or (bit_or p (shifted (word_of (exponent r resources)))) (word_of (exponent a actions))

has_bit-turn_resource :
    (k p : ℕ) (r a : Text)
    → has_bit (k + action_bits) (turn p r a)
      ≡ (has_bit (k + action_bits) p || is_exponent k (exponent r resources))
unfolding turn
has_bit-turn_resource k p r a =
    rw
      (
        has_bit-or,
        has_bit-or,
        has_bit-resource k (exponent r resources) (IsBelow-resources r),
        has_bit-action_high k (exponent a actions) (IsBelow-actions a),
      )
      (ground arith)

has_bit-turn_action :
    (k p : ℕ) (r a : Text)
    → k < action_bits
    → has_bit k (turn p r a) ≡ (has_bit k p || is_exponent k (exponent a actions))
unfolding turn
has_bit-turn_action k p r a lt =
    rw
      (
        has_bit-or,
        has_bit-or,
        has_bit-resource_low k (exponent r resources) lt (IsBelow-resources r),
        has_bit-action k (exponent a actions),
      )
      (ground arith)

has_bit-loop_resource :
    (k p : ℕ) (perms : List Text)
    → has_bit (k + action_bits) (new_perm_map_from p perms)
      ≡ (has_bit (k + action_bits) p || any (names_resource k) perms)
unfolding new_perm_map_from names_resource turn
has_bit-loop_resource k p [] = ground arith
has_bit-loop_resource k p (perm ∷ perms) = elim (Option-cases (cut dot perm)) [
  | inl e ↦ ground (arith, e, has_bit-loop_resource k p perms)
  | inr ((r, a), e) ↦
      ground (arith, e, has_bit-loop_resource k (turn p r a) perms, has_bit-turn_resource k p r a)
]

has_bit-loop_action :
    (k p : ℕ) (perms : List Text)
    → k < action_bits
    → has_bit k (new_perm_map_from p perms) ≡ (has_bit k p || any (names_action k) perms)
unfolding new_perm_map_from names_action turn
has_bit-loop_action k p [] lt = ground arith
has_bit-loop_action k p (perm ∷ perms) lt = elim (Option-cases (cut dot perm)) [
  | inl e ↦ ground (arith, e, has_bit-loop_action k p perms lt)
  | inr ((r, a), e) ↦
      ground (arith, e, has_bit-loop_action k (turn p r a) perms lt, has_bit-turn_action k p r a lt)
]

asks_resource :
    (perms : List Text) (o : Option ℕ)
    → IsBelow o
    → ltb 0 (bit_and (new_perm_map_from 0 perms) (shifted (word_of o)))
      ≡ (elim o [ none ↦ false | some k ↦ any (names_resource k) perms ])
asks_resource perms none h =
    (unfold shifted in ground (arith, bit_and-zero (new_perm_map_from 0 perms)))
asks_resource perms (some k) h = rw (
  shifted-pow k h,
  bit_and-pow (k + action_bits) (new_perm_map_from 0 perms),
  has_bit-loop_resource k 0 perms,
  has_bit-zero (k + action_bits),
)

asks_action :
    (perms : List Text) (o : Option ℕ)
    → IsBelow o
    → ltb 0 (bit_and (new_perm_map_from 0 perms) (word_of o))
      ≡ (elim o [ none ↦ false | some k ↦ any (names_action k) perms ])
asks_action perms none h = ground (arith, bit_and-zero (new_perm_map_from 0 perms))
asks_action perms (some k) h =
    rw (bit_and-pow k (new_perm_map_from 0 perms), has_bit-loop_action k 0 perms h, has_bit-zero k)

contains_parts :
    (p : ℕ) (perm r a : Text)
    → cut dot perm ≡ some (r, a)
    → contains p perm ≡ (
        ltb 0 (bit_and p (shifted (word_of (exponent r resources))))
        && ltb 0 (bit_and p (word_of (exponent a actions))))
unfolding contains
contains_parts p perm r a e = rw (e, contains)

grants_parts :
    (perms : List Text) (perm r a : Text)
    → cut dot perm ≡ some (r, a)
    → grants perms perm ≡ (
        (elim (exponent r resources) [ none ↦ false | some k ↦ any (names_resource k) perms ])
        && (elim (exponent a actions) [ none ↦ false | some k ↦ any (names_action k) perms ]))
unfolding grants
grants_parts perms perm r a e = rw (e, grants)

new_perm_map-loop : (perms : List Text) → new_perm_map perms ≡ new_perm_map_from 0 perms
unfolding new_perm_map
new_perm_map-loop perms = refl

-- For every list of permissions and every permission asked for, the word made from the list grants
-- it exactly when some entry of the list names its resource and some entry, the same or another one,
-- names its action.
pub contains-new_perm_map :
    (perms : List Text) (perm : Text) → contains (new_perm_map perms) perm ≡ grants perms perm
contains-new_perm_map perms perm = go (cut dot perm) refl
  where
    go :
        (o : Option (Text × Text))
        → cut dot perm ≡ o
        → contains (new_perm_map perms) perm ≡ grants perms perm
    go none e = unfold contains grants in rw (e, contains, grants)
    go (some (r, a)) e = rw (
      contains_parts (new_perm_map perms) perm r a e,
      grants_parts perms perm r a e,
      new_perm_map-loop perms,
      asks_resource perms (exponent r resources) (IsBelow-resources r),
      asks_action perms (exponent a actions) (IsBelow-actions a),
    )

-- A role with two permissions, each of a known resource and a known action, is also granted the
-- resource of the first with the action of the second, whether or not either entry lists it.
pub cross_grant :
    (p q perm r r' a a' : Text) (i j : ℕ)
    → cut dot p ≡ some (r, a)
    → cut dot q ≡ some (r', a')
    → cut dot perm ≡ some (r, a')
    → exponent r resources ≡ some i
    → exponent a' actions ≡ some j
    → contains (new_perm_map (p ∷ q ∷ [])) perm ≡ true
cross_grant p q perm r r' a a' i j ep eq e er ea =
    contains-new_perm_map (p ∷ q ∷ []) perm
    ∙ rw (grants_parts (p ∷ q ∷ []) perm r a' e, er, ea)
        (unfold names_resource names_action in ground arith)
