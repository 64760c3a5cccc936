-- ===== src/Deploy/StateWriter/Ring.antt =====
-- The ring of log lines against the plain list of all lines that were ever appended.
use Prim.Native.String.{◌++◌ as ◌<>◌}
use mathlib.Core.List.{append_assoc, append-nil}
use mathlib.Core.Path.{subst, subst₂}
use swirl_evo.Common.{
  ℕ, zero, suc, ◌+◌, ◌-◌, ◌%◌, ◌<◌, ◌≤◌, String, ◌≡◌, ◌≢◌, refl, sym, ap, ◌∙◌, Bool, true, false,
  List, [], ◌∷◌, ◌++◌, take, drop, set, length, arith, length-append, take-length_append,
  drop-length_append, drop-append_le, eqb, if◌then◌else◌,
}
use swirl_evo.Deploy.StateWriter.{StateWriter, log_ring_capacity, snapshot_ring, append_log}

-- The last `n` entries of a list.
abbrev pub last {ℓ} : {A : Type ℓ} → ℕ → List A → List A
last n xs = drop (length xs - n) xs

module _ {ℓ} {A : Type ℓ} where
  -- A list around one of its positions.
  around :
      (n : ℕ) (xs : List A)
      → n < length xs
      → (l : List A) × (x : A) × (r : List A) × (xs ≡ l ++ x ∷ r) × (length l ≡ n)
  around n [] h = elim h [ ]
  around zero (x ∷ xs) h = ([], x, xs, refl, refl)
  around (suc n) (x ∷ xs) h =
      let (l, y, r, e, k) = around n xs (omega arith) in (x ∷ l, y, r, ap (◌∷◌ x) e, ap suc k)

  set-around : (l : List A) (x y : A) (r : List A) → set (l ++ x ∷ r) (length l) y ≡ l ++ y ∷ r
  set-around [] x y r = refl
  set-around (z ∷ l) x y r = ap (◌∷◌ z) (set-around l x y r)

  drop_after : (l : List A) (x : A) (r : List A) → drop (suc (length l)) (l ++ x ∷ r) ≡ r
  drop_after [] x r = refl
  drop_after (z ∷ l) x r = drop_after l x r

  take_after : (l : List A) (x : A) (r : List A) → take (suc (length l)) (l ++ x ∷ r) ≡ l ++ x ∷ []
  take_after [] x r = refl
  take_after (z ∷ l) x r = ap (◌∷◌ z) (take_after l x r)

  drop-suc : (k : ℕ) (xs : List A) → drop (suc k) xs ≡ drop 1 (drop k xs)
  drop-suc zero xs = refl
  drop-suc (suc k) [] = refl
  drop-suc (suc k) (x ∷ xs) = drop-suc k xs

  last-short : (n : ℕ) (xs : List A) → length xs ≤ n → last n xs ≡ xs
  last-short n xs h = rw (zero_of h) refl
    where
      zero_of : length xs ≤ n → length xs - n ≡ 0
      zero_of h = omega arith

  last-snoc_full :
      (n : ℕ) (xs : List A) (e : A)
      → 0 < n
      → n ≤ length xs
      → last n (xs ++ e ∷ []) ≡ drop 1 (last n xs) ++ e ∷ []
  last-snoc_full n xs e p h =
      rw
        (
          length-append xs (e ∷ []),
          skip,
          drop-append_le (suc (length xs - n)) xs (e ∷ []) (omega arith),
        )
        (ap (λ ys. ys ++ e ∷ []) (drop-suc (length xs - n) xs))
    where
      skip : length xs + 1 - n ≡ suc (length xs - n)
      skip = omega arith

  -- What `snapshotRingLocked` reads of a ring.
  abbrev pub snap : Bool → ℕ → List A → List A
  snap filled next ring = if filled then drop next ring ++ take next ring else take next ring

  snap-parts :
      (filled : Bool) (l : List A) (x : A) (r : List A)
      → snap filled (length l) (l ++ x ∷ r) ≡ (if filled then (x ∷ r) ++ l else l)
  snap-parts true l x r = rw (drop-length_append l (x ∷ r), take-length_append l (x ∷ r))
  snap-parts false l x r = take-length_append l (x ∷ r)

  snap-parts_next :
      (filled : Bool) (l : List A) (e : A) (r : List A)
      → snap filled (suc (length l)) (l ++ e ∷ r)
        ≡ (if filled then r ++ (l ++ e ∷ []) else l ++ e ∷ [])
  snap-parts_next true l e r = rw (drop_after l e r, take_after l e r)
  snap-parts_next false l e r = take_after l e r

next_slot : ℕ → ℕ
next_slot next = (next + 1) % log_ring_capacity

next_filled : ℕ → Bool → Bool
next_filled next filled = if eqb (next_slot next) 0 then true else filled

-- The ring holds the last lines of `h` in order, and says how far it is filled.
pub record RingHolds (h : List String) (filled : Bool) (next : ℕ) (ring : List String)
    : Type 0 where
  pub sized : length ring ≡ log_ring_capacity
  pub in_ring : next < log_ring_capacity
  pub recent : snap filled next ring ≡ last log_ring_capacity h
  pub unwrapped : filled ≡ false → length h ≡ next
  pub wrapped : filled ≡ true → log_ring_capacity ≤ length h

module _ (h : List String) (l : List String) (x e : String) (r : List String) where
  recent_after :
      (filled : Bool)
      → RingHolds h filled (length l) (l ++ x ∷ r)
      → last log_ring_capacity (h ++ e ∷ []) ≡ (if filled then r ++ l else l) ++ e ∷ []
  recent_after true v =
      rw
        (
          last-snoc_full log_ring_capacity h e (omega arith) (v.wrapped refl),
          ← v.recent,
          snap-parts true l x r,
        )
        refl
  recent_after false v =
      rw
        (last-short log_ring_capacity (h ++ e ∷ [])
          (omega (arith, length-append h (e ∷ []), v.unwrapped refl, v.in_ring)))
        (ap (λ ys. ys ++ e ∷ [])
          (sym (last-short log_ring_capacity h (omega (arith, v.unwrapped refl, v.in_ring)))
            ∙ sym v.recent
            ∙ snap-parts false l x r))

  snap_moved :
      (filled : Bool)
      → (if filled then r ++ (l ++ e ∷ []) else l ++ e ∷ [])
        ≡ (if filled then r ++ l else l) ++ e ∷ []
  snap_moved true = sym (append_assoc r l (e ∷ []))
  snap_moved false = refl

  snap_full : (filled : Bool) → r ≡ [] → (if filled then r ++ l else l) ≡ l
  snap_full true full = rw full refl
  snap_full false full = refl

  long_enough :
      (filled : Bool)
      → r ≡ []
      → RingHolds h filled (length l) (l ++ x ∷ r)
      → log_ring_capacity ≤ length h + 1
  long_enough true full v = omega (arith, v.wrapped refl)
  long_enough false full v =
      omega (arith, v.unwrapped refl, length-append l (x ∷ r), v.sized, ap length full)

  RingHolds-next :
      (filled : Bool)
      → length r ≢ 0
      → RingHolds h filled (length l) (l ++ x ∷ r)
      → RingHolds (h ++ e ∷ []) filled (suc (length l)) (l ++ e ∷ r)
  RingHolds-next filled more v = record {
    sized = omega (arith, length-append l (x ∷ r), length-append l (e ∷ r), v.sized);
    in_ring = omega (arith, length-append l (x ∷ r), v.sized);
    recent = snap-parts_next filled l e r ∙ snap_moved filled ∙ sym (recent_after filled v);
    unwrapped = λ u. omega (arith, length-append h (e ∷ []), v.unwrapped u);
    wrapped = λ u. omega (arith, length-append h (e ∷ []), v.wrapped u);
  }

  RingHolds-wrap :
      (filled : Bool)
      → r ≡ []
      → RingHolds h filled (length l) (l ++ x ∷ r)
      → RingHolds (h ++ e ∷ []) true 0 (l ++ e ∷ r)
  RingHolds-wrap filled full v = record {
    sized = omega (arith, length-append l (x ∷ r), length-append l (e ∷ r), v.sized);
    in_ring = omega arith;
    recent = rw (append-nil, recent_after filled v, snap_full filled full, full) refl;
    unwrapped = λ u. cc;
    wrapped = λ u. omega (arith, length-append h (e ∷ []), long_enough filled full v);
  }

slot_wrap : (n : ℕ) → n + 1 ≡ log_ring_capacity → next_slot n ≡ 0
unfolding next_slot
slot_wrap n h = omega arith

slot_on : (n : ℕ) → n + 1 < log_ring_capacity → next_slot n ≡ suc n
unfolding next_slot
slot_on n h = omega arith

filled_on : (n : ℕ) (filled : Bool) → n + 1 < log_ring_capacity → next_filled n filled ≡ filled
unfolding next_filled
filled_on n filled h = rw (slot_on n h) (ground arith)

filled_wrap : (n : ℕ) (filled : Bool) → n + 1 ≡ log_ring_capacity → next_filled n filled ≡ true
unfolding next_filled
filled_wrap n filled h = rw (slot_wrap n h) refl

RingHolds-push_parts :
    (h : List String) (filled : Bool) (l : List String) (x e : String) (r : List String)
    → RingHolds h filled (length l) (l ++ x ∷ r)
    → RingHolds (h ++ e ∷ []) (next_filled (length l) filled) (next_slot (length l)) (l ++ e ∷ r)
RingHolds-push_parts h filled l x e [] v =
    let at_end : length l + 1 ≡ log_ring_capacity =
      omega (arith, length-append l (x ∷ []), v.sized) in
    rw (filled_wrap (length l) filled at_end, slot_wrap (length l) at_end)
      (RingHolds-wrap h l x e [] filled refl v)
RingHolds-push_parts h filled l x e (y ∷ r) v =
    let inside : length l + 1 < log_ring_capacity =
      omega (arith, length-append l (x ∷ y ∷ r), v.sized) in
    rw (filled_on (length l) filled inside, slot_on (length l) inside)
      (RingHolds-next h l x e (y ∷ r) filled (omega arith) v)

RingHolds-push :
    (h : List String) (filled : Bool) (next : ℕ) (ring : List String) (e : String)
    → RingHolds h filled next ring
    → RingHolds (h ++ e ∷ []) (next_filled next filled) (next_slot next) (set ring next e)
RingHolds-push h filled next ring e v = go (around next ring (omega (arith, v.sized, v.in_ring)))
  where
    go :
        (l : List String) × (x : String) × (r : List String) × (ring ≡ l ++ x ∷ r)
          × (length l ≡ next)
        → RingHolds (h ++ e ∷ []) (next_filled next filled) (next_slot next) (set ring next e)
    go (l, x, r, eq, k) =
        subst
          (λ (n : ℕ). RingHolds (h ++ e ∷ []) (next_filled n filled) (next_slot n) (set ring n e)) k
          (rw (eq, set-around l x e r)
            (RingHolds-push_parts h filled l x e r (subst₂ (RingHolds h filled) (sym k) eq v)))

-- The ring of `sw` holds the last lines of `h`.
abbrev pub Holds : List String → StateWriter → Type 0
Holds h sw = RingHolds h sw.filled sw.next sw.ring

module _ (stamp : ℕ → String) where
  abbrev pub entry : ℕ → String → String
  entry now line = stamp now <> (" " <> line)

  pub append_log-Holds :
      (now : ℕ) (line : String) (sw : StateWriter) (h : List String)
      → Holds h sw
      → Holds (h ++ entry now line ∷ []) (append_log stamp now line sw)
  unfolding append_log next_slot next_filled
  append_log-Holds now line sw h v = RingHolds-push h sw.filled sw.next sw.ring (entry now line) v

pub snapshot_ring-Holds :
    (h : List String) (sw : StateWriter) → Holds h sw → snapshot_ring sw ≡ last log_ring_capacity h
unfolding snapshot_ring
snapshot_ring-Holds h sw v = v.recent
