-- ===== src/Scaler/Policy.antt =====
-- When the two policies ask for a change.
use swirl_evo.Common.{
  ◌≡◌, ◌≢◌, ◌↔◌, ==_ne, ◌⊎◌, refl, ◌++◌, Bool-cases, inl, inr, true, List, [], ◌∷◌, All, Text,
  arith, text_eq,
}
use swirl_evo.Scaler.{
  ScaleType, scale_none, scale_up, scale_down, same_type, Options, Checker, check_arg, check_any,
  check_all, check, policy_any, policy_all,
}

-- The first change that some argument asks for.
pub first_change : List (Text × Checker) → Text → Options → ScaleType
first_change checkers service [] = scale_none
first_change checkers service (arg ∷ args) = elim (check_arg checkers service arg) [
  | scale_none ↦ first_change checkers service args
  | st ↦ st
]

same_type_iff : (a b : ScaleType) → (same_type a b ≡ true) ↔ (a ≡ b)
same_type_iff scale_none scale_none = ground arith
same_type_iff scale_none scale_up = ground arith
same_type_iff scale_none scale_down = ground arith
same_type_iff scale_up scale_none = ground arith
same_type_iff scale_up scale_up = ground arith
same_type_iff scale_up scale_down = ground arith
same_type_iff scale_down scale_none = ground arith
same_type_iff scale_down scale_up = ground arith
same_type_iff scale_down scale_down = ground arith

same_type_self : (a : ScaleType) → same_type a a ≡ true
same_type_self a = (same_type_iff a a).1 refl

-- One turn of the loop, where the argument asks for what the ones before it asked for, and where not.
check_all-agrees :
    (checkers : List (Text × Checker)) (service : Text) (st : ScaleType) (reasons : List Text)
    (arg : Text × Text) (args : Options)
    → check_arg checkers service arg ≡ st
    → check_all checkers service (st ∷ []) (record { kind = st; reasons = reasons }) (arg ∷ args)
      ≡ check_all checkers service
          (st ∷ [])
          (record { kind = st; reasons = reasons ++ arg.0 ∷ [] })
          args
unfolding check_all
check_all-agrees checkers service st reasons arg args e = rw (e, same_type_self st) refl

check_all-differs :
    (checkers : List (Text × Checker)) (service : Text) (st : ScaleType) (reasons : List Text)
    (arg : Text × Text) (args : Options)
    → check_arg checkers service arg ≢ st
    → (check_all checkers service
        (st ∷ [])
        (record { kind = st; reasons = reasons })
        (arg ∷ args)).kind
      ≡ scale_none
unfolding check_all
check_all-differs checkers service st reasons arg args n =
    elim (Bool-cases (same_type (check_arg checkers service arg) st)) [
      | inl y ↦ absurd (n ((same_type_iff (check_arg checkers service arg) st).0 y))
      | inr q ↦ rw q refl
    ]

check_all-kind :
    (checkers : List (Text × Checker)) (service : Text) (st : ScaleType) (reasons : List Text)
    (args : Options)
    → st ≢ scale_none
    → ((check_all checkers service (st ∷ []) (record { kind = st; reasons = reasons }) args).kind
        ≡ st)
      ↔ All (λ (arg : Text × Text). check_arg checkers service arg ≡ st) args
check_all-kind checkers service st reasons [] n = unfold check_all in ground arith
check_all-kind checkers service st reasons (arg ∷ args) n =
    elim (Bool-cases (same_type (check_arg checkers service arg) st)) [
      | inl y ↦
          let e = (same_type_iff (check_arg checkers service arg) st).0 y in
          rw (check_all-agrees checkers service st reasons arg args e)
            (ground (arith, e, check_all-kind checkers service st (reasons ++ arg.0 ∷ []) args n))
      | inr q ↦
          let d : check_arg checkers service arg ≢ st =
            λ e. absurd (ground (arith, q, e, same_type_self st)) in
          rw (check_all-differs checkers service st reasons arg args d) (ground (arith, n, d))
    ]

check_all-kinds :
    (checkers : List (Text × Checker)) (service : Text) (st : ScaleType) (reasons : List Text)
    (args : Options)
    → ((check_all checkers service (st ∷ []) (record { kind = st; reasons = reasons }) args).kind
        ≡ st)
      ⊎ ((check_all checkers service (st ∷ []) (record { kind = st; reasons = reasons }) args).kind
          ≡ scale_none)
check_all-kinds checkers service st reasons [] = inl (unfold check_all in refl)
check_all-kinds checkers service st reasons (arg ∷ args) =
    elim (Bool-cases (same_type (check_arg checkers service arg) st)) [
      | inl y ↦
          rw
            (check_all-agrees checkers service st reasons arg args
              ((same_type_iff (check_arg checkers service arg) st).0 y))
            (check_all-kinds checkers service st (reasons ++ arg.0 ∷ []) args)
      | inr q ↦ inr (
          check_all-differs checkers service st reasons arg args
            (λ e. absurd (ground (arith, q, e, same_type_self st))))
    ]

first_change-any :
    (checkers : List (Text × Checker)) (service : Text) (args : Options)
    → (check_any checkers service args).kind ≡ first_change checkers service args
unfolding check_any first_change
first_change-any checkers service [] = refl
first_change-any checkers service (arg ∷ args) =
    ground (arith, first_change-any checkers service args)

check_all-first :
    (checkers : List (Text × Checker)) (service : Text) (st : ScaleType) (arg : Text × Text)
    (args : Options)
    → st ≢ scale_none
    → ((check_all checkers service []
          (record { kind = scale_none; reasons = [] })
          (arg ∷ args)).kind
        ≡ st)
      ↔ All (λ (a : Text × Text). check_arg checkers service a ≡ st) (arg ∷ args)
check_all-first checkers service st arg args n =
    let t = check_arg checkers service arg in
    let start : check_all checkers service [] (record { kind = scale_none; reasons = [] })
          (arg ∷ args)
        ≡ check_all checkers service (t ∷ []) (record { kind = t; reasons = arg.0 ∷ [] }) args =
      unfold check_all in refl in
    rw start (elim (Bool-cases (same_type t st)) [
      | inl y ↦
          let e = (same_type_iff t st).0 y in
          rw e (ground (arith, e, check_all-kind checkers service st (arg.0 ∷ []) args n))
      | inr q ↦
          let d : t ≢ st = λ e. absurd (ground (arith, q, e, same_type_self st)) in
          ground (arith, d, n, check_all-kinds checkers service t (arg.0 ∷ []) args)
    ])

-- With at least one argument, the policy `all` asks for a change exactly where every argument asks
-- for that same change; the policy `any` asks for the first change that some argument asks for; any
-- other policy asks for none.
check-kind :
    (checkers : List (Text × Checker)) (service : Text) (st : ScaleType) (arg : Text × Text)
    (args : Options)
    → st ≢ scale_none
    → (((check checkers service policy_all (arg ∷ args)).kind ≡ st)
        ↔ All (λ (a : Text × Text). check_arg checkers service a ≡ st) (arg ∷ args))
      × ((check checkers service policy_any (arg ∷ args)).kind
          ≡ first_change checkers service (arg ∷ args))
      × ((policy : Text)
          → policy ≢ policy_any
          → policy ≢ policy_all
          → (check checkers service policy (arg ∷ args)).kind ≡ scale_none)
check-kind checkers service st arg args n = (
  (unfold check in check_all-first checkers service st arg args n),
  (unfold check in first_change-any checkers service (arg ∷ args)),
  λ policy a b.
      unfold check in ground (arith, ==_ne policy policy_any a, ==_ne policy policy_all b),
)
