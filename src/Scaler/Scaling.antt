-- ===== src/Scaler/Scaling.antt =====
-- What the scaler does to a service.
use swirl_evo.Common.Dict.{lookup}
use swirl_evo.Common.{
  ℕ, ◌+◌, ◌≤◌, ◌<◌, ◌≡◌, ◌≢◌, ◌⊎◌, refl, Bool, List, [], ◌∷◌, ◌++◌, Option, none, some, Text, arith,
  split, text_eq,
}
use swirl_evo.Scaler.{
  ScaleType, scale_none, scale_up, scale_down, Options, Service, replicated, Update, Checker,
  check_arg, check_any, check_all, check, add_type, read_options, defaults, service_scale,
  try_scale, updates, start, plus, minus, colon,
}

check_arg-none : (service : Text) (arg : Text × Text) → check_arg [] service arg ≡ scale_none
unfolding check_arg lookup
check_arg-none service (name, value) = go (split colon value)
  where
    go :
        (parts : List Text)
        → (elim parts [ low ∷ high ∷ [] ↦ scale_none | _ ↦ scale_none ]) ≡ scale_none
    go [] = refl
    go (_ ∷ []) = refl
    go (_ ∷ _ ∷ []) = refl
    go (_ ∷ _ ∷ _ ∷ _) = refl

check_any-none : (service : Text) (args : Options) → (check_any [] service args).kind ≡ scale_none
unfolding check_any
check_any-none service [] = refl
check_any-none service (arg ∷ args) =
    ground (arith, check_arg-none service arg, check_any-none service args)

check_all-none :
    (service : Text) (types : List ScaleType) (reasons : List Text) (args : Options)
    → (check_all [] service types (record { kind = scale_none; reasons = reasons }) args).kind
      ≡ scale_none
unfolding check_all
check_all-none service types reasons [] = refl
check_all-none service types reasons (arg ∷ args) = rw (check_arg-none service arg) (
    ground (arith, check_all-none service (add_type scale_none types) (reasons ++ arg.0 ∷ []) args))

check-none :
    (service policy : Text) (args : Options) → (check [] service policy args).kind ≡ scale_none
unfolding check
check-none service policy args =
    ground (arith, check_any-none service args, check_all-none service [] [] args)

module _ (to_uint64 to_duration : Text → ℕ → ℕ) where
  try_scale-none :
      (now : ℕ) (service : Service) (opts : Options)
      → try_scale to_uint64 to_duration [] now service opts ≡ none
  unfolding try_scale
  try_scale-none now service opts =
      let c = read_options to_uint64 to_duration defaults opts in
      ground (arith, check-none service.name c.policy c.args)

  updates-none :
      (now : ℕ) (services : List (Service × Options))
      → updates to_uint64 to_duration [] now services ≡ []
  updates-none now [] = refl
  updates-none now ((service, opts) ∷ rest) =
      ground (arith, try_scale-none now service opts, updates-none now rest)

  -- Whatever checkers there are, in whatever mode the program runs and whatever services carry the
  -- label, at any time: either no job is scheduled, or its run asks for no update of a service.
  start-no_updates :
      (checkers : List (Text × Checker)) (is_standalone : Bool) (now : ℕ)
      (found : Option (List (Service × Options)))
      → (start to_uint64 to_duration checkers is_standalone now found ≡ none)
        ⊎ (start to_uint64 to_duration checkers is_standalone now found ≡ some [])
  unfolding start
  start-no_updates [] is_standalone now none = ground arith
  start-no_updates [] is_standalone now (some services) = ground (arith, updates-none now services)
  start-no_updates (c ∷ checkers) is_standalone now found = ground arith

  -- Every update that `tryScale` asks for, of a service with a version, names the service, sets the
  -- number of its replicas to the version of the service, and gives as version the number of replicas
  -- with the step added, for an upward change, or taken away, where that sum is not 0 in 64 bits; the
  -- service was not updated within the window and the number of its replicas was within the bound.
  pub try_scale-swapped :
      (checkers : List (Text × Checker)) (now replicas : ℕ) (service : Service) (opts : Options)
      (u : Update)
      → service.mode ≡ replicated replicas
      → try_scale to_uint64 to_duration checkers now service opts ≡ some u
      → (u.name ≡ service.name)
        × (u.mode ≡ replicated service.version)
        × (let c = read_options to_uint64 to_duration defaults opts in
            (service.updated_at + c.window ≤ now)
            × (((check checkers service.name c.policy c.args).kind ≡ scale_up)
                  × (replicas < c.max)
                  × (plus replicas c.step ≢ 0 → u.version ≡ plus replicas c.step)
                ⊎ ((check checkers service.name c.policy c.args).kind ≡ scale_down)
                  × (c.min < replicas)
                  × (minus replicas c.step ≢ 0 → u.version ≡ minus replicas c.step)))
  try_scale-swapped checkers now replicas service opts u m e =
      unfold try_scale service_scale in ground (arith, m, e)
