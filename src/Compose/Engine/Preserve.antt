-- ===== src/Compose/Engine/Preserve.antt =====
-- A container with a preserved name outlives a deploy and a removal of its project.
use swirl_evo.Common.{
  if-cases, ◌≡◌, inl, inr, Bool, true, false, ◌==◌, ==_iff, Bool-cases, List, [], ◌∷◌, any, none,
  some, Text, text_eq, arith,
}
use swirl_evo.Docker.{Docker, Laws, Summary, bare, has_name, means}
use swirl_evo.Compose.Order.{Service}
use swirl_evo.Compose.Engine.{
  preserved, is_preserved, Checks, remove_project_containers, deploy_with_result, each, each_listed,
  remove_with_preserve, remove_except,
}
use swirl_evo.Compose.Engine.Keeps.{Keeps, remove_project_containers-Kept, deploy_with_result-Kept}

module _ (d : Docker) (laws : Laws d) where
  -- An entry that a reference to the container means is skipped.
  is_preserved-name :
      (n : Text) (preserve : List Text) (c : Summary)
      → any (λ p. p == n) preserve ≡ true
      → has_name n c ≡ true
      → is_preserved preserve c ≡ true
  is_preserved-name n preserve c p h = through c.names h
    where
      through :
          (ns : List Text)
          → any (λ m. bare m == n) ns ≡ true
          → any (λ m. any (λ q. q == bare m) preserve) ns ≡ true
      through [] h = cc
      through (m ∷ ns) h = elim (Bool-cases (bare m == n)) [
        | inl y ↦
            let hit : any (λ q. q == bare m) preserve ≡ true = rw ((==_iff (bare m) n).0 y) p in
            ground (arith, hit)
        | inr o ↦ ground (arith, o, h, through ns)
      ]

  is_preserved-apart :
      (i n : Text) (preserve : List Text) (c : Summary)
      → any (λ p. p == n) preserve ≡ true
      → (means c.id i n ≡ true → has_name n c ≡ true)
      → is_preserved preserve c ≡ false
      → means c.id i n ≡ false
  is_preserved-apart i n preserve c p a o = elim (Bool-cases (means c.id i n)) [
    | inl y ↦ absurd (ground (arith, o, is_preserved-name n preserve c p (a y)))
    | inr apart ↦ apart
  ]

  abbrev keeps-Named :
      (i n : Text) (preserve : List Text)
      → any (λ p. p == n) (preserved preserve) ≡ true
      → Keeps d preserve
  keeps-Named i n preserve p = record {
    Kept = laws.Named i n;
    Fits = λ c. means c.id i n ≡ true → has_name n c ≡ true;
    list-Fits = λ q s l h e. laws.list-Named i n q s l h e;
    stop-Kept = λ r s h. laws.stop-Named i n r s h;
    remove-Kept = λ c s a o h.
        laws.remove-Named i n c.id true s h (is_preserved-apart i n (preserved preserve) c p a o);
    ensure-Kept = λ s h. laws.ensure-Named i n s h;
    make-Kept = λ r s h. laws.make-Named i n r s h;
  }

  -- A deploy, however it ends, leaves a container whose name it is told to preserve.
  pub deploy_with_result-Named :
      (i n : Text) (k : Checks) (project : Text) (preserve : List Text) (services : List Service)
      (s : d.Daemon)
      → any (λ p. p == n) (preserved preserve) ≡ true
      → laws.Named i n s
      → laws.Named i n (deploy_with_result d k project preserve services s).1
  deploy_with_result-Named i n k project preserve services s p h =
      deploy_with_result-Kept d preserve (keeps-Named i n preserve p) k project services s h

  each-Named :
      (i n : Text) (l : List Text) (s : d.Daemon)
      → laws.Named i n s
      → laws.Named i n (each d d.remove_network l s)
  unfolding each
  each-Named i n [] s h = h
  each-Named i n (r ∷ l) s h =
      each-Named i n l (d.remove_network r s) (laws.remove_network-Named i n r s h)

  pub remove_except-Named :
      (i n project : Text) (preserve : List Text) (s : d.Daemon)
      → any (λ p. p == n) (preserved preserve) ≡ true
      → laws.Named i n s
      → laws.Named i n (remove_except d project preserve s).1
  unfolding remove_except remove_with_preserve
  remove_except-Named i n project preserve s p h =
      let P = λ (r : Bool × d.Daemon). laws.Named i n r.1 in
      let s1 = (remove_project_containers d project true preserve s).1 in
      let cleared =
        remove_project_containers-Kept d preserve (keeps-Named i n preserve p) project true s h in
      if-cases P (remove_project_containers d project true preserve s).0 _ (false, s1)
        (λ _.
          elim (d.networks project s1)
            as (λ o. laws.Named i n (each_listed d d.remove_network o s1)) [
              | none ↦ cleared
              | some l ↦ each-Named i n l s1 cleared
            ])
        (λ _. cleared)
