-- ===== src/Deploy/Health/Ends.antt =====
-- How the waits end, and what the budgets add up to.
use swirl_evo.Common.{
  ◌↔◌, ℕ, zero, suc, ◌+◌, ◌-◌, ◌*◌, ◌/◌, ◌≤◌, ◌<◌, ◌≡◌, ◌∙◌, ap, refl, Bool-cases, inl, inr, eqb,
  min, true, arith, leb, if◌then◌else◌,
}
use swirl_evo.Deploy.Health.{
  second, Seen, is_ready, gives_up, keeps_waiting, Attempt, Outcome, ready, refused, timed_out,
  cancelled, out_of_fuel, wait_loop, wait_healthy, wait_container_healthy, at_least,
  health_poll_interval, min_health_timeout, split_pull_budget, split_health_budget,
}

-- What a result says, for a wait that began at the attempt `i` with this deadline and whose attempts
-- take at most `limit`: it is one of the attempts' own, all attempts before it kept waiting, and it is
-- there at most `limit` after the deadline.
abbrev pub IsRight : (ℕ → Attempt) → ℕ → ℕ → ℕ → Outcome → Type 0
IsRight attempts limit deadline i (ready k t) =
    (i < k)
    × ((attempts (k - 1)).seen ≡ is_ready)
    × ((j : ℕ) → i ≤ j → j + 1 < k → (attempts j).seen ≡ keeps_waiting)
    × (t ≤ deadline + limit)
IsRight attempts limit deadline i (refused k t) =
    (i < k)
    × ((attempts (k - 1)).seen ≡ gives_up)
    × ((j : ℕ) → i ≤ j → j + 1 < k → (attempts j).seen ≡ keeps_waiting)
    × (t ≤ deadline + limit)
IsRight attempts limit deadline i (timed_out k t) =
    (i < k)
    × ((j : ℕ) → i ≤ j → j < k → (attempts j).seen ≡ keeps_waiting)
    × (deadline ≤ t)
    × (t ≤ deadline + limit)
IsRight attempts limit deadline i (cancelled k t) =
    (i < k)
    × ((attempts (k - 1)).is_cancelled ≡ true)
    × ((j : ℕ) → i ≤ j → j < k → (attempts j).seen ≡ keeps_waiting)
    × (t < deadline)
IsRight attempts limit deadline i out_of_fuel = ⊥

waits-first :
    (attempts : ℕ → Attempt) (i k : ℕ)
    → (attempts i).seen ≡ keeps_waiting
    → ((j : ℕ) → i + 1 ≤ j → j < k → (attempts j).seen ≡ keeps_waiting)
    → (j : ℕ) → i ≤ j
    → j < k
    → (attempts j).seen ≡ keeps_waiting
waits-first attempts i k e h j lo hi = elim (Bool-cases (eqb i j)) [
  | inl y ↦ let same : i ≡ j = ground (arith, y) in rw⁻¹ same e
  | inr n ↦ h j (ground (arith, n, lo)) hi
]

IsRight-later :
    (attempts : ℕ → Attempt) (limit deadline i : ℕ) (o : Outcome)
    → (attempts i).seen ≡ keeps_waiting
    → IsRight attempts limit deadline (i + 1) o
    → IsRight attempts limit deadline i o
IsRight-later attempts limit deadline i (ready k t) e (lt, s, before, b) = (
  omega (arith, lt),
  s,
  λ j lo hi.
      waits-first attempts i (k - 1) e (λ x l g. before x l (omega (arith, g))) j lo
        (omega (arith, hi)),
  b,
)
IsRight-later attempts limit deadline i (refused k t) e (lt, s, before, b) = (
  omega (arith, lt),
  s,
  λ j lo hi.
      waits-first attempts i (k - 1) e (λ x l g. before x l (omega (arith, g))) j lo
        (omega (arith, hi)),
  b,
)
IsRight-later attempts limit deadline i (timed_out k t) e (lt, before, d, b) =
    (omega (arith, lt), waits-first attempts i k e before, d, b)
IsRight-later attempts limit deadline i (cancelled k t) e (lt, s, before, b) =
    (omega (arith, lt), s, waits-first attempts i k e before, b)
IsRight-later attempts limit deadline i out_of_fuel e h = h

-- One turn, where the attempt keeps waiting.
turn :
    (fuel : ℕ) (attempts : ℕ → Attempt) (deadline i now : ℕ)
    → (attempts i).seen ≡ keeps_waiting
    → wait_loop (suc fuel) attempts deadline i now ≡ (
        if leb deadline (now + (attempts i).took)
        then timed_out (i + 1) (now + (attempts i).took)
        else if (attempts i).is_cancelled
        then cancelled (i + 1) (now + (attempts i).took)
        else wait_loop fuel attempts deadline (i + 1) (
            now
            + (attempts i).took
            + min health_poll_interval (deadline - (now + (attempts i).took))))
unfolding wait_loop
turn fuel attempts deadline i now e = rw (e, wait_loop) refl

turn-ready :
    (fuel : ℕ) (attempts : ℕ → Attempt) (deadline i now : ℕ)
    → (attempts i).seen ≡ is_ready
    → wait_loop (suc fuel) attempts deadline i now ≡ ready (i + 1) (now + (attempts i).took)
unfolding wait_loop
turn-ready fuel attempts deadline i now e = rw (e, wait_loop) refl

turn-refused :
    (fuel : ℕ) (attempts : ℕ → Attempt) (deadline i now : ℕ)
    → (attempts i).seen ≡ gives_up
    → wait_loop (suc fuel) attempts deadline i now ≡ refused (i + 1) (now + (attempts i).took)
unfolding wait_loop
turn-refused fuel attempts deadline i now e = rw (e, wait_loop) refl

-- The attempt `i` alone.
only :
    (attempts : ℕ → Attempt) (i : ℕ)
    → (attempts i).seen ≡ keeps_waiting
    → (j : ℕ) → i ≤ j
    → j < i + 1
    → (attempts j).seen ≡ keeps_waiting
only attempts i e = waits-first attempts i (i + 1) e (λ j l g. absurd (omega (arith, l, g)))

turn-IsRight :
    (fuel : ℕ) (attempts : ℕ → Attempt) (limit deadline i now : ℕ)
    → ((j : ℕ) → (attempts j).took ≤ limit)
    → now ≤ deadline
    → (now + (attempts i).took < deadline
        → IsRight attempts limit deadline (i + 1) (
            wait_loop fuel attempts deadline (i + 1) (
              now
              + (attempts i).took
              + min health_poll_interval (deadline - (now + (attempts i).took)))))
    → IsRight attempts limit deadline i (wait_loop (suc fuel) attempts deadline i now)
turn-IsRight fuel attempts limit deadline i now fast before later = go (attempts i).seen refl
  where
    seen_at : ℕ
    seen_at = now + (attempts i).took

    soon : seen_at ≤ deadline + limit
    soon = omega (arith, fast i, before)

    own : attempts (i + 1 - 1) ≡ attempts i
    own = ap attempts (omega arith)

    go :
        (s : Seen)
        → (attempts i).seen ≡ s
        → IsRight attempts limit deadline i (wait_loop (suc fuel) attempts deadline i now)
    go is_ready e = rw (turn-ready fuel attempts deadline i now e) (
      omega arith,
      ap (λ (a : Attempt). a.seen) own ∙ e,
      λ j lo hi. absurd (omega (arith, lo, hi)),
      soon,
    )
    go gives_up e = rw (turn-refused fuel attempts deadline i now e) (
      omega arith,
      ap (λ (a : Attempt). a.seen) own ∙ e,
      λ j lo hi. absurd (omega (arith, lo, hi)),
      soon,
    )
    go keeps_waiting e =
        rw (turn fuel attempts deadline i now e) (elim (Bool-cases (leb deadline seen_at)) [
          | inl y ↦ rw y (omega arith, only attempts i e, ground (arith, y), soon)
          | inr n ↦ rw n (elim (Bool-cases (attempts i).is_cancelled) [
            | inl c ↦ rw c (
              omega arith,
              ap (λ (a : Attempt). a.is_cancelled) own ∙ c,
              only attempts i e,
              ground (arith, n),
            )
            | inr c ↦ rw c (
                IsRight-later attempts limit deadline i
                  (wait_loop fuel attempts deadline (i + 1)
                    (seen_at + min health_poll_interval (deadline - seen_at)))
                  e (later (ground (arith, n))))
          ])
        ])

wait_loop-IsRight :
    (fuel : ℕ) (attempts : ℕ → Attempt) (limit deadline i now : ℕ)
    → ((j : ℕ) → (attempts j).took ≤ limit)
    → now ≤ deadline
    → deadline ≤ now + fuel * health_poll_interval
    → IsRight attempts limit deadline i (wait_loop (suc fuel) attempts deadline i now)
wait_loop-IsRight zero attempts limit deadline i now fast before enough =
    turn-IsRight zero attempts limit deadline i now fast before
      (λ l. absurd (omega (arith, l, enough)))
wait_loop-IsRight (suc fuel) attempts limit deadline i now fast before enough =
    turn-IsRight (suc fuel) attempts limit deadline i now fast before (λ l.
      wait_loop-IsRight fuel attempts limit deadline (i + 1)
        (now + (attempts i).took + min health_poll_interval (deadline - (now + (attempts i).took)))
        fast (omega (arith, l)) (omega (arith, l, enough)))

-- Where every attempt takes at most `limit`, both waits end: with the result of the first attempt that
-- does not keep waiting, with a time-out at which the budget (at least the least one) has passed and
-- all attempts kept waiting, or by a cancelled context before that; and at most `limit` after the
-- budget has passed.
pub waits-IsRight :
    (attempts : ℕ → Attempt) (limit total now : ℕ)
    → ((j : ℕ) → (attempts j).took ≤ limit)
    → IsRight attempts limit
        (now + at_least min_health_timeout total)
        0
        (wait_healthy attempts total now)
      × IsRight attempts limit
          (now + at_least health_poll_interval total)
          0
          (wait_container_healthy attempts total now)
waits-IsRight attempts limit total now fast =
    let http = at_least min_health_timeout total in
    let docker = at_least health_poll_interval total in
    (
      (unfold wait_healthy in
          wait_loop-IsRight (suc (http / health_poll_interval)) attempts limit (now + http) 0 now
            fast (omega arith) (omega arith)),
      (unfold wait_container_healthy in
          wait_loop-IsRight (suc (docker / health_poll_interval)) attempts limit (now + docker) 0
            now fast (omega arith) (omega arith)),
    )

-- The budgets of any timeout: the pull gets at least a minute and at most five, which is half of the
-- timeout between two and ten minutes, and a wait gets at least the least one. The pull and one wait
-- together fill the timeout just where it leaves room for the least of both, and overrun it otherwise;
-- the pull and the two waits that a deploy makes one after the other always overrun it.
budgets-exceed :
    (total : ℕ)
    → let pull = split_pull_budget total in
      let wait = split_health_budget total pull in
      (60 * second ≤ pull)
      × (pull ≤ 300 * second)
      × ((120 * second ≤ total) × (total ≤ 600 * second) → pull ≡ total / 2)
      × (min_health_timeout ≤ wait)
      × ((pull + wait ≡ total) ↔ (60 * second + min_health_timeout ≤ total))
      × (total < pull + wait + wait)
unfolding split_pull_budget split_health_budget
budgets-exceed total = (
  ground arith,
  ground arith,
  λ h. ground (arith, h),
  ground arith,
  (λ e. ground (arith, e), λ h. ground (arith, h)),
  ground arith,
)
