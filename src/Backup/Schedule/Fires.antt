-- ===== src/Backup/Schedule/Fires.antt =====
-- How often a schedule fires, and what the check of a schedule keeps.
use swirl_evo.Common.{
  ℕ, zero, suc, ◌≤◌, ◌<◌, ◌≡◌, refl, Bool, true, false, ◌&&◌, List, [], ◌∷◌, ◌++◌, Option, none,
  some, Text, arith, All, length, split, eqb, text_eq,
}
use swirl_evo.Common.Int.{ℤ, pos, negsuc, atoi}
use swirl_evo.Backup.Schedule.{
  Moment, BackupSchedule, Tick, parse_hm, in_range, two_digits, colon, validate_schedule,
  should_run, same_day, touch, tick, backups,
}

-- A schedule that has run on a day does not run again on it.
should_run-touched :
    (s : BackupSchedule) (last now : Moment)
    → s.last_run_at ≡ some last
    → same_day last now ≡ true
    → should_run s now ≡ false
should_run-touched s last now e d = go (parse_hm s.time) refl
  where
    go : (o : Option (ℕ × ℕ)) → parse_hm s.time ≡ o → should_run s now ≡ false
    go none q = unfold should_run in ground (arith, q)
    go (some (h, m)) q = unfold should_run in ground (arith, q, e, d)

backups-touched :
    (day : Moment) (ts : List Tick) (s : BackupSchedule) (last : Moment)
    → s.last_run_at ≡ some last
    → same_day last day ≡ true
    → All (λ t. (same_day day t.now ≡ true) × (t.touched ≡ true)) ts
    → backups ts s ≡ 0
unfolding backups tick
backups-touched day [] s last e d h = refl
backups-touched day (t ∷ ts) s last e d h =
    let quiet = should_run-touched s last t.now e (ground (arith, d, h.0.0)) in
    ground (arith, quiet, backups-touched day ts s last e d h.1)

-- On one day, whatever the hours and however often the scheduler ticks, with or without a key and
-- whether or not backups fail, a schedule makes at most one backup, if each backup's time can be noted.
pub backups-day :
    (day : Moment) (ts : List Tick) (s : BackupSchedule)
    → All (λ t. (same_day day t.now ≡ true) × (t.touched ≡ true)) ts
    → backups ts s ≤ 1
unfolding backups tick
backups-day day [] s h = omega arith
backups-day day (t ∷ ts) s h =
    let later = backups-touched day ts (touch t.now s) t.now refl (ground (arith, h.0.0)) h.1 in
    ground (arith, h.0.1, later, backups-day day ts s h.1)

all_under : ℕ → (ℕ → Bool) → Bool
all_under zero p = true
all_under (suc n) p = p n && all_under n p

all_under-lt : (n : ℕ) (p : ℕ → Bool) (k : ℕ) → all_under n p ≡ true → k < n → p k ≡ true
unfolding all_under
all_under-lt zero p k h lt = absurd (omega arith)
all_under-lt (suc n) p k h lt = ground (arith, all_under-lt n p k)

abbrev reads : ℕ → ℕ → Bool
reads h m = elim (parse_hm (two_digits h ++ colon ∷ two_digits m)) [
  | none ↦ false
  | some (i, j) ↦ eqb h i && eqb m j
]

reads-all : all_under 24 (λ h. all_under 60 (reads h)) ≡ true
unfolding all_under parse_hm split atoi
reads-all = refl

parse_hm-two_digits :
    (h m : ℕ) → h < 24 → m < 60 → parse_hm (two_digits h ++ colon ∷ two_digits m) ≡ some (h, m)
parse_hm-two_digits h m lh lm =
    let row =
      all_under-lt 60 (reads h) m (all_under-lt 24 (λ i. all_under 60 (reads i)) h reads-all lh)
        lm in
    go (parse_hm (two_digits h ++ colon ∷ two_digits m)) refl row
  where
    go :
        (o : Option (ℕ × ℕ))
        → parse_hm (two_digits h ++ colon ∷ two_digits m) ≡ o
        → reads h m ≡ true
        → parse_hm (two_digits h ++ colon ∷ two_digits m) ≡ some (h, m)
    go none e r = absurd (ground (arith, e, r))
    go (some (i, j)) e r = ground (arith, e, r)

in_range-le : (limit n : ℕ) (o : Option ℤ) → in_range limit o ≡ some n → n ≤ limit
in_range-le limit n (some (pos k)) e = ground (arith, e)
in_range-le limit n (some (negsuc k)) e = absurd (ground (arith, e))
in_range-le limit n none e = absurd (ground (arith, e))

parse_hm-lt : (t : Text) (h m : ℕ) → parse_hm t ≡ some (h, m) → (h < 24) × (m < 60)
parse_hm-lt t h m e = go (split colon t) refl
  where
    go : (parts : List Text) → split colon t ≡ parts → (h < 24) × (m < 60)
    go [] q = absurd (unfold parse_hm in ground (arith, e, q))
    go (_ ∷ []) q = absurd (unfold parse_hm in ground (arith, e, q))
    go (a ∷ b ∷ []) q =
        unfold parse_hm in
        ground (arith, e, q, in_range-le 23 h (atoi a), in_range-le 59 m (atoi b))
    go (_ ∷ _ ∷ _ ∷ _) q = absurd (unfold parse_hm in ground (arith, e, q))

validate_schedule-eq :
    (s s' : BackupSchedule) (h m : ℕ)
    → parse_hm s.time ≡ some (h, m)
    → validate_schedule s ≡ some s'
    → s' ≡ record s {
      time = two_digits h ++ colon ∷ two_digits m;
      retention = elim s.retention [ pos n ↦ pos n | negsuc n ↦ pos 0 ];
    }
validate_schedule-eq s s' h m q e = unfold validate_schedule in ground (arith, e, q)

-- A schedule that the check accepts has a time of two digits, a colon and two digits; checking it again
-- changes nothing, and it fires at exactly the moments at which the schedule as it was given fires.
validate_schedule-stable :
    (s s' : BackupSchedule)
    → validate_schedule s ≡ some s'
    → (validate_schedule s' ≡ some s')
      × (length s'.time ≡ 5)
      × ((now : Moment) → should_run s' now ≡ should_run s now)
validate_schedule-stable s s' e = go (parse_hm s.time) refl
  where
    go :
        (o : Option (ℕ × ℕ))
        → parse_hm s.time ≡ o
        → (validate_schedule s' ≡ some s')
          × (length s'.time ≡ 5)
          × ((now : Moment) → should_run s' now ≡ should_run s now)
    go none q = absurd (unfold validate_schedule in ground (arith, e, q))
    go (some (h, m)) q =
        let shape = validate_schedule-eq s s' h m q e in
        let (lh, lm) = parse_hm-lt s.time h m q in
        let again = parse_hm-two_digits h m lh lm in
        (
          rw shape (unfold validate_schedule in ground (arith, e, q, again)),
          rw shape refl,
          λ now. rw shape (unfold should_run in ground (arith, q, again)),
        )
