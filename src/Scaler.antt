-- ===== src/Scaler.antt =====
-- scaler/scaler.go, the automatic scaling of services, and the update that `ServiceScale` of
-- docker/service.go asks of the swarm. The parsers of option values and the metrics are parameters.
pub mod Policy
pub mod Scaling
mod Tests
use swirl_evo.Common.Dict.{lookup}
use swirl_evo.Common.{
  ℕ, ◌+◌, ◌-◌, ◌*◌, ◌%◌, ◌^◌, Bool, true, false, not, ◌==◌, List, [], ◌∷◌, ◌++◌, any, Option, none,
  some, Text, codes, split, length, ltb, leb, eqb, text_eq, if◌then◌else◌,
}

pub data ScaleType : Type 0 where
  scale_none scale_up scale_down : ScaleType

abbrev pub same_type : ScaleType → ScaleType → Bool
same_type scale_none scale_none = true
same_type scale_up scale_up = true
same_type scale_down scale_down = true
same_type _ _ = false

-- `data.Options`: names with values.
abbrev pub Options : Type 0
Options = List (Text × Text)

-- What the code reads of `swarm.Service`, and the modes of a service in its specification.
pub data Mode : Type 0 where
  replicated : ℕ → Mode
  replicated_job : ℕ → Mode
  other_mode : Mode

pub record Service : Type 0 where
  pub name : Text
  pub version : ℕ
  pub mode : Mode
  pub updated_at : ℕ

pub record CheckResult : Type 0 where
  pub kind : ScaleType
  pub reasons : List Text

-- A call of `ServiceUpdate`: the service, the version that it is based on, and its new mode.
pub record Update : Type 0 where
  pub name : Text
  pub version : ℕ
  pub mode : Mode

pub record Settings : Type 0 where
  pub min : ℕ
  pub max : ℕ
  pub step : ℕ
  pub window : ℕ
  pub policy : Text
  pub args : Options

abbrev pub minute : ℕ
minute = 60 * 10 ^ 9

abbrev pub policy_any : Text
policy_any = codes "any"

abbrev pub policy_all : Text
policy_all = codes "all"

abbrev pub defaults : Settings
defaults = record {
  min = 2;
  max = 8;
  step = 2;
  window = 3 * minute;
  policy = policy_any;
  args = [];
}

-- `cast.ToUint64` and `cast.ToDuration`, each with the value for a text that they cannot read.
module _ (to_uint64 to_duration : Text → ℕ → ℕ) where
  abbrev pub read_option : Settings → Text × Text → Settings
  read_option c (name, value) =
      if name == codes "min"
      then record c { min = to_uint64 value c.min }
      else if name == codes "max"
      then record c { max = to_uint64 value c.max }
      else if name == codes "step"
      then record c { step = to_uint64 value c.step }
      else if name == codes "window"
      then record c { window = to_duration value c.window }
      else if name == codes "policy"
      then record c { policy = value }
      else record c { args = c.args ++ (name, value) ∷ [] }

  unfoldable pub read_options : Settings → Options → Settings
  read_options c [] = c
  read_options c (opt ∷ opts) = read_options (read_option c opt) opts

-- A checker of a metric is its `Check`, a function of the service's name and the two bounds as they
-- are written in the option.
abbrev pub Checker : Type 0
Checker = Text → Text → Text → ScaleType

-- `cpuChecker.Check`: metrics as a function of the service, `none` for a failed query, with their
-- type of numbers, its order and `cast.ToFloat64`.
module _ {ℓ} {F : Type ℓ} (le : F → F → Bool) (to_float64 : Text → F)
    (metrics : Text → Option (List F)) where
  unfoldable pub cpu_checker : Checker
  cpu_checker service low high = elim (metrics service) [
    | some (value ∷ _) ↦
        if le value (to_float64 low)
        then scale_down
        else if le (to_float64 high) value
        then scale_up
        else scale_none
    | _ ↦ scale_none
  ]

abbrev pub colon : ℕ
colon = 58

unfoldable pub check_arg : List (Text × Checker) → Text → Text × Text → ScaleType
unfolding lookup
check_arg checkers service (name, value) = elim (split colon value) [
  | low ∷ high ∷ [] ↦ elim (lookup name checkers) [
    | none ↦ scale_none
    | some metric ↦ metric service low high
  ]
  | _ ↦ scale_none
]

unfoldable pub check_any : List (Text × Checker) → Text → Options → CheckResult
check_any checkers service [] = record { kind = scale_none; reasons = [] }
check_any checkers service (arg ∷ args) =
    let later = check_any checkers service args in
    elim (check_arg checkers service arg) [
      | scale_none ↦ later
      | st ↦ record { kind = st; reasons = arg.0 ∷ [] }
    ]

abbrev pub add_type : ScaleType → List ScaleType → List ScaleType
add_type st types = if any (same_type st) types then types else st ∷ types

unfoldable pub check_all :
    List (Text × Checker) → Text → List ScaleType → CheckResult → Options → CheckResult
check_all checkers service types r [] = r
check_all checkers service types r (arg ∷ args) =
    let st = check_arg checkers service arg in
    let later =
      check_all checkers service (add_type st types)
        (record { kind = st; reasons = r.reasons ++ arg.0 ∷ [] }) args in
    if ltb 1 (length (add_type st types)) then record r { kind = scale_none } else later

unfoldable pub check : List (Text × Checker) → Text → Text → Options → CheckResult
unfolding check_any check_all check_arg
check checkers service policy args =
    if policy == policy_any
    then check_any checkers service args
    else if policy == policy_all
    then check_all checkers service [] (record { kind = scale_none; reasons = [] }) args
    else record { kind = scale_none; reasons = [] }

-- `ServiceScale` up to its update, for a service that the swarm has in this state: `none` for the error
-- of a mode that cannot scale.
unfoldable pub service_scale : Service → Text → ℕ → ℕ → Option Update
service_scale inspected name count version =
    let ver = if ltb 0 version then version else inspected.version in
    elim inspected.mode [
      | replicated _ ↦ some (record { name = name; version = ver; mode = replicated count })
      | replicated_job _ ↦ some (record { name = name; version = ver; mode = replicated_job count })
      | other_mode ↦ none
    ]

abbrev pub word : ℕ
word = 2 ^ 64

-- `uint64` arithmetic.
abbrev pub plus : ℕ → ℕ → ℕ
plus a b = (a + b) % word

abbrev pub minus : ℕ → ℕ → ℕ
minus a b = (a + word - b % word) % word

module _ (to_uint64 to_duration : Text → ℕ → ℕ) (checkers : List (Text × Checker)) where
  -- `tryScale` at the time `now`: the update that it asks for, if any.
  unfoldable pub try_scale : ℕ → Service → Options → Option Update
  unfolding read_options check service_scale
  try_scale now service opts = elim service.mode [
    | replicated replicas ↦
        let c = read_options to_uint64 to_duration defaults opts in
        if ltb now (service.updated_at + c.window)
        then none
        else elim (check checkers service.name c.policy c.args).kind [
          | scale_none ↦ none
          | scale_up ↦
              if ltb replicas c.max
              then service_scale service service.name service.version (plus replicas c.step)
              else none
          | scale_down ↦
              if ltb c.min replicas
              then service_scale service service.name service.version (minus replicas c.step)
              else none
        ]
    | _ ↦ none
  ]

  abbrev updates : ℕ → List (Service × Options) → List Update
  updates now [] = []
  updates now ((service, opts) ∷ rest) =
      let later = updates now rest in
      elim (try_scale now service opts) [ none ↦ later | some u ↦ u ∷ later ]

  -- One run of the job of `Start`, `none` where `Start` has scheduled none: the updates of the services
  -- that a search has found, `none` for a failed search.
  unfoldable pub start : Bool → ℕ → Option (List (Service × Options)) → Option (List Update)
  unfolding try_scale
  start is_standalone now found =
      if is_standalone
      then none
      else if ltb 0 (length checkers)
      then none
      else elim found [ none ↦ some [] | some services ↦ some (updates now services) ]
