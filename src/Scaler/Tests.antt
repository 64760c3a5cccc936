-- ===== src/Scaler/Tests.antt =====
-- The theorems on the scaler at concrete inputs.
use mathlib.Core.Bool.{false≢true}
use swirl_evo.Common.{
  split, if◌then◌else◌, ◌+◌, ℕ, ◌-◌, ◌≤◌, ◌<◌, ◌≡◌, ◌≢◌, ◌⊎◌, ap, refl, Bool, true, false, List, [],
  ◌∷◌, Text, codes, text_eq,
}
use swirl_evo.Common.Dict.{lookup}
use swirl_evo.Scaler.{
  ScaleType, scale_none, scale_up, scale_down, Checker, Options, Service, replicated, Update,
  check_arg, check_any, check, read_options, defaults, service_scale, try_scale, plus, minus,
}
use swirl_evo.Scaler.Scaling.{try_scale-swapped}

-- A text of one digit, as a number.
abbrev read : Text → ℕ → ℕ
read (c ∷ []) d = c - 48
read _ d = d

abbrev is_up : ScaleType → Bool
is_up scale_up = true
is_up _ = false

up : scale_up ≢ scale_none
up e = false≢true (ap (λ t. if is_up t then false else true) e)

abbrev checkers : List (Text × Checker)
checkers = (codes "cpu", λ service low high. scale_up) ∷ []

abbrev cpu : Text × Text
cpu = (codes "cpu", codes "20:80")

abbrev web : Service
web = record { name = codes "web"; version = 70; mode = replicated 3; updated_at = 0 }

abbrev opts : Options
opts = (codes "max", codes "5") ∷ (codes "window", codes "9") ∷ cpu ∷ []

abbrev asked : Update
asked = record { name = codes "web"; version = 5; mode = replicated 70 }

try_scale-swapped_example :
    (asked.name ≡ web.name)
    × (asked.mode ≡ replicated web.version)
    × (let c = read_options read read defaults opts in
        (web.updated_at + c.window ≤ 100)
        × (((check checkers web.name c.policy c.args).kind ≡ scale_up)
              × (3 < c.max)
              × (plus 3 c.step ≢ 0 → asked.version ≡ plus 3 c.step)
            ⊎ ((check checkers web.name c.policy c.args).kind ≡ scale_down)
              × (c.min < 3)
              × (minus 3 c.step ≢ 0 → asked.version ≡ minus 3 c.step)))
unfolding try_scale service_scale check check_any check_arg read_options lookup split
try_scale-swapped_example = try_scale-swapped read read checkers 100 3 web opts asked refl refl
