-- ===== src/Backup/Schedule.antt =====
-- When a scheduled backup runs (biz/backup.go), and what the store of schedules then holds.
pub mod Fires
use swirl_evo.Common.{
  ℕ, ◌+◌, ◌*◌, ◌/◌, ◌%◌, Bool, true, false, ◌&&◌, ◌||◌, not, ◌==◌, List, [], ◌∷◌, ◌++◌, any, Option,
  none, some, Text, codes, split, trim_space, ltb, leb, eqb, text_eq, if◌then◌else◌,
}
use swirl_evo.Common.Int.{ℤ, pos, negsuc, atoi}

-- A moment, as Go's `time.Time` reads it off in one time zone; Sunday is 0.
pub record Moment : Type 0 where
  pub year : ℕ
  pub year_day : ℕ
  pub day : ℕ
  pub weekday : ℕ
  pub hour : ℕ

pub record BackupSchedule : Type 0 where
  pub id : Text
  pub enabled : Bool
  pub day_config : Text
  pub time : Text
  pub retention : ℤ
  pub last_run_at : Option Moment

abbrev pub colon : ℕ
colon = 58

abbrev pub comma : ℕ
comma = 44

abbrev in_range : ℕ → Option ℤ → Option ℕ
in_range limit (some (pos n)) = if ltb limit n then none else some n
in_range limit _ = none

-- `parseHM`; each of its three errors is `none`.
unfoldable pub parse_hm : Text → Option (ℕ × ℕ)
parse_hm t = elim (split colon t) [
  | h ∷ m ∷ [] ↦ elim (in_range 23 (atoi h)) [
    | none ↦ none
    | some hour ↦ elim (in_range 59 (atoi m)) [ none ↦ none | some minute ↦ some (hour, minute) ]
  ]
  | _ ↦ none
]

abbrev pub daily : Text
daily = codes "daily"

abbrev pub weekly : Text
weekly = codes "weekly"

abbrev pub monthly : Text
monthly = codes "monthly"

-- `%02d` of a number below 100.
abbrev pub two_digits : ℕ → Text
two_digits n = (48 + n / 10 % 10) ∷ (48 + n % 10) ∷ []

-- `validateSchedule`: the schedule as it leaves it, `none` for its errors.
unfoldable pub validate_schedule : BackupSchedule → Option BackupSchedule
unfolding parse_hm
validate_schedule s =
    if not (s.id == daily || (s.id == weekly || s.id == monthly))
    then none
    else elim (parse_hm s.time) [
      | none ↦ none
      | some (hour, minute) ↦
          if s.day_config == []
          then none
          else some (record s {
            time = two_digits hour ++ colon ∷ two_digits minute;
            retention = elim s.retention [ pos n ↦ pos n | negsuc n ↦ pos 0 ];
          })
    ]

parse_parts : List Text → List ℤ
parse_parts [] = []
parse_parts (p ∷ ps) =
    let rest = parse_parts ps in
    if trim_space p == []
    then rest
    else elim (atoi (trim_space p)) [ none ↦ rest | some n ↦ n ∷ rest ]

unfoldable pub parse_days : Text → List ℤ
unfolding parse_parts
parse_days s = parse_parts (split comma s)

abbrev is_int : ℕ → ℤ → Bool
is_int n (pos m) = eqb n m
is_int n (negsuc m) = false

abbrev pub has_day : ℕ → List ℤ → Bool
has_day n days = any (is_int n) days

abbrev pub same_day : Moment → Moment → Bool
same_day a b = eqb a.year b.year && eqb a.year_day b.year_day

-- `ShouldRun`, of a schedule that is not nil.
unfoldable pub should_run : BackupSchedule → Moment → Bool
unfolding parse_hm parse_days
should_run s now = if not s.enabled then false else elim (parse_hm s.time) [
  | none ↦ false
  | some (hour, _) ↦
      if not (eqb now.hour hour)
      then false
      else if (elim s.last_run_at [ none ↦ false | some last ↦ same_day last now ])
      then false
      else if s.id == daily || s.id == weekly
      then has_day now.weekday (parse_days s.day_config)
      else if s.id == monthly
      then has_day now.day (parse_days s.day_config)
      else false
]

abbrev pub touch : Moment → BackupSchedule → BackupSchedule
touch now s = record s { last_run_at = some now }

-- What a tick of the scheduler (`tick` of backup/backup.go and `RunScheduled`) comes upon: the time,
-- whether there is a key, and whether the backup and then the note of its time worked.
pub record Tick : Type 0 where
  pub now : Moment
  pub key_configured : Bool
  pub created : Bool
  pub touched : Bool

-- One tick: whether it made a backup, and the schedule in the store.
unfoldable pub tick : Tick → BackupSchedule → Bool × BackupSchedule
unfolding should_run
tick t s =
    if t.key_configured && should_run s t.now
    then if t.created then (true, (if t.touched then touch t.now s else s)) else (false, s)
    else (false, s)

-- The number of backups that ticks make.
unfoldable pub backups : List Tick → BackupSchedule → ℕ
unfolding tick
backups [] s = 0
backups (t ∷ ts) s = (if (tick t s).0 then 1 else 0) + backups ts (tick t s).1
