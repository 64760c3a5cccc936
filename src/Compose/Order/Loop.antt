-- ===== src/Compose/Order/Loop.antt =====
-- The main loop: its invariant, its end, and what it has placed by then.
use swirl_evo.Common.{
  ℕ, zero, suc, ◌+◌, ◌-◌, ◌≤◌, ◌<◌, ◌≡◌, ◌≢◌, refl, ap, ◌∙◌, Bool, true, false, ◌&&◌, ◌==◌, ==_iff,
  ==_self, Bool-cases, inl, inr, List, [], ◌∷◌, ◌++◌, some, Text, arith, length, length-append, ltb,
  eqb, text_eq, if◌then◌else◌,
}
use swirl_evo.Common.Dict.{Dict}
use swirl_evo.Compose.Order.{Service, names, is_name, get, get_list, free, sort, visit, place}
use swirl_evo.Compose.Order.Count.{occurs, occurs-last, occurs-sort, get-visit, occurs-visit}
use swirl_evo.Compose.Order.Build.{deps_of, deps_of-none, AreDistinct}
use swirl_evo.Compose.Order.Placed.{
  pending, before, left, pending-last, pending-zero, pending-all, before-append, before-last,
  left-last,
}

module _ (services : List Service) (out : Dict Text (List Text)) where
  abbrev pub has_service : Text → Bool
  has_service t = is_name (names services) t

  -- The map of the dependents, which the loop does not change.
  abbrev pub AreDependents : Type 0
  AreDependents = (t c : Text) → occurs t (get_list c out) ≡ occurs c (deps_of services t)

  -- The state of the loop: what each service waits for, that the queue and the order hold just the
  -- services that wait for nothing, and that each placed service has its dependencies before it.
  pub record Inv (m : Dict Text ℕ) (ready order : List Text) : Type 0 where
    pub counts : (t : Text) → get t m ≡ pending order (deps_of services t)
    pub holds :
        (t : Text)
        → occurs t ready + occurs t order ≡ (if has_service t && eqb (get t m) 0 then 1 else 0)
    pub sound :
        (t d : Text)
        → occurs t order ≢ 0
        → occurs d (deps_of services t) ≢ 0
        → before d t order ≡ true
    pub lengths : left order services + length order ≡ length services

  module _ (distinct : AreDistinct services) (dependents : AreDependents) where
    step-Inv :
        (m : Dict Text ℕ) (current : Text) (ready order : List Text)
        → Inv m (current ∷ ready) order
        → Inv
            (visit (sort (get_list current out)) (m, ready)).0
            (visit (sort (get_list current out)) (m, ready)).1
            (order ++ current ∷ [])
    step-Inv m current ready order h = record {
      counts = λ t. ground (arith, h.counts t, freed t, gone t, absent);
      holds = λ t. ground (
        arith,
        h.counts t,
        held t,
        lone t,
        gone t,
        freed t,
        added t,
        absent,
        occurs-last t current order,
        ==_iff current t,
      );
      sound = λ t d p n. placed_after t d p n;
      lengths = ground (
        arith,
        h.lengths,
        left-last order services current distinct,
        absent,
        known,
        length-append order (current ∷ []),
      );
    }
      where
        children : List Text
        children = sort (get_list current out)

        absent : occurs current order ≡ 0
        absent = unfold occurs in ground (arith, h.holds current, ==_self current)

        known : has_service current ≡ true
        known = unfold occurs in ground (arith, h.holds current, ==_self current)

        waits : (t : Text) → occurs t children ≡ occurs current (deps_of services t)
        waits t = occurs-sort t (get_list current out) ∙ dependents t current

        gone :
            (t : Text)
            → pending (order ++ current ∷ []) (deps_of services t)
                + occurs current (deps_of services t)
              ≡ pending order (deps_of services t)
        gone t = pending-last order (deps_of services t) current absent

        freed :
            (t : Text)
            → get t (visit children (m, ready)).0 ≡ get t m - occurs current (deps_of services t)
        freed t = get-visit t children m ready ∙ ap (λ n. get t m - n) (waits t)

        added :
            (t : Text)
            → occurs t (visit children (m, ready)).1
              ≡ occurs t ready
                + (if ltb 0 (occurs current (deps_of services t))
                      && eqb (get t m) (occurs current (deps_of services t))
                    then 1
                    else 0)
        added t =
            let enough : occurs t children ≤ get t m = omega (arith, waits t, gone t, h.counts t) in
            rw⁻¹ (waits t) (occurs-visit t children m ready enough)

        held :
            (t : Text)
            → (if current == t then 1 else 0) + occurs t ready + occurs t order
              ≡ (if has_service t && eqb (get t m) 0 then 1 else 0)
        held t = unfold occurs in ground (arith, h.holds t)

        lone : (t : Text) → has_service t ≡ false → occurs current (deps_of services t) ≡ 0
        lone t e = unfold occurs in rw (deps_of-none services t e) refl

        placed_after :
            (t d : Text)
            → occurs t (order ++ current ∷ []) ≢ 0
            → occurs d (deps_of services t) ≢ 0
            → before d t (order ++ current ∷ []) ≡ true
        placed_after t d p n = elim (Bool-cases (current == t)) [
          | inl y ↦
              let same : current ≡ t = (==_iff current t).0 y in
              let free : pending order (deps_of services t) ≡ 0 =
                rw⁻¹ same (ground (arith, h.counts current, held current, ==_self current)) in
              rw same (
                before-last d t order (pending-zero order (deps_of services t) d free n)
                  (rw⁻¹ same absent))
          | inr o ↦
              before-append d t order (current ∷ [])
                (h.sound t d (ground (arith, p, o, occurs-last t current order)) n)
        ]

    -- With more fuel than there are services to place, the loop ends, with nothing in its queue.
    pub place-Inv :
        (fuel : ℕ) (m : Dict Text ℕ) (ready order : List Text)
        → Inv m ready order
        → left order services < fuel
        → (order' : List Text) × (m' : Dict Text ℕ) × (place fuel out m ready order ≡ some order')
          × Inv m' [] order'
    unfolding place
    place-Inv zero m ready order h l = absurd (omega (arith, l))
    place-Inv (suc fuel) m [] order h l = (order, m, refl, h)
    place-Inv (suc fuel) m (current ∷ ready) order h l =
        let next = visit (sort (get_list current out)) (m, ready) in
        let step = step-Inv m current ready order h in
        let (order', m', e, i) =
          place-Inv fuel next.0 next.1 (order ++ current ∷ []) step
            (omega (arith, l, h.lengths, step.lengths, length-append order (current ∷ []))) in
        (order', m', e, i)

  free-placed :
      (m : Dict Text ℕ) (order : List Text) (t : Text)
      → Inv m [] order
      → pending order (deps_of services t) ≡ 0
      → has_service t ≡ true
      → occurs t order ≢ 0
  free-placed m order t h free e = unfold occurs in ground (arith, h.holds t, h.counts t, free, e)

  -- A rank that falls along every dependency puts every service into the order.
  pub ranked-placed :
      (rank : Text → ℕ)
      → ((t d : Text)
          → occurs d (deps_of services t) ≢ 0
          → (rank d < rank t) × (has_service d ≡ true))
      → (m : Dict Text ℕ) (order : List Text) → Inv m [] order
      → (n : ℕ) (t : Text) → rank t < n
      → has_service t ≡ true
      → occurs t order ≢ 0
  ranked-placed rank falls m order h zero t l e = absurd (omega (arith, l))
  ranked-placed rank falls m order h (suc n) t l e =
      let free : pending order (deps_of services t) ≡ 0 =
        pending-all order (deps_of services t) (λ d o.
          ranked-placed rank falls m order h n d (omega (arith, l, (falls t d o).0))
            (falls t d o).1) in
      free-placed m order t h free e
