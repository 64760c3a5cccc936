-- ===== src/Stack/Rewrite/Again.antt =====
-- A file that was rewritten is not rewritten again.
use mathlib.Core.Path.{subst}
use mathlib.Core.Bool.{false≢true}
use mathlib.Core.Option.{some_inj}
use swirl_evo.Common.{
  ◌≡◌, ◌≢◌, refl, sym, ap, ◌∙◌, ℕ, Bool, true, false, not, ◌&&◌, ◌==◌, ==_apart, ==_ne, inl, inr,
  Bool-cases, if-cases, if-true, if-false, List, [], ◌∷◌, ◌++◌, Option, none, some, Text, codes,
  text_eq, arith, if◌then◌else◌,
}
use swirl_evo.Stack.Rewrite.Bare.{bare, actions_of, rewrite_root-bare}
use swirl_evo.Stack.Rewrite.{
  RegistryCache, RewriteAction, RewriteInput, active_setting, document, mapping, scalar, other_kind,
  Node, node, Nodes, end, more, value_of, Reference, mirror_of, contains, equal_fold, rewritten_ref,
  Decision, keep, rewrite_to, has_rewrite, decide, carry_out, rewrite_image, rewrite_field,
  rewrite_service, with_action, rewrite_services, rewrite_mapping, after_key, beside,
  rewrite_children, inside, rewrite_doc, first_of, rewrite_root, Rewritten, untouched, written,
  marshalled, rewrite_parsed, rewrite_images,
}

-- A reference that was sent to the mirror is parsed with the mirror as its domain, if it is parsed.
abbrev pub NamesMirror : (Text → Option Reference) → RegistryCache → Type 0
NamesMirror parse rc =
    (ref again : Reference)
    → parse (rewritten_ref rc ref) ≡ some again
    → equal_fold again.domain (mirror_of rc) ≡ true

rewritten_ref-nonempty : (rc : RegistryCache) (ref : Reference) → rewritten_ref rc ref ≢ []
unfolding rewritten_ref
rewritten_ref-nonempty rc ref =
    if-cases (λ r. r ≢ []) rc.use_upstream_prefix _ _ (λ _. long (mirror_of rc) _ 47)
      (λ _. long (mirror_of rc) _ 47)
  where
    long : (a b : Text) (c : ℕ) → a ++ c ∷ b ≢ []
    long [] b c e = cc
    long (x ∷ a) b c e = cc

module _ (parse : Text → Option Reference) (rc : RegistryCache) (names : NamesMirror parse rc) where
  abbrev IsKept : Decision → Type 0
  IsKept d = (reason : Text) × (d ≡ keep reason)

  -- An image that was sent to the mirror stays.
  decide-sent : (ref : Reference) → IsKept (decide parse rc (rewritten_ref rc ref))
  unfolding decide
  decide-sent ref =
      if-cases IsKept (rc.preserve_digests && contains (codes "@sha256:") new) _ _ (λ _. (_, refl))
        (λ _. parsed (parse new) refl)
    where
      new : Text
      new = rewritten_ref rc ref

      parsed :
          (o : Option Reference)
          → parse new ≡ o
          → let d : Decision = elim o [
            | none ↦ keep (codes "invalid-ref")
            | some r ↦
                if equal_fold r.domain (mirror_of rc)
                then keep (codes "already-mirror")
                else rewrite_to (rewritten_ref rc r) r.domain
          ] in
            IsKept d
      parsed none e = (_, refl)
      parsed (some again) e = rw (names ref again e) (_, refl)

  decide-rewrites :
      (original new domain : Text)
      → decide parse rc original ≡ rewrite_to new domain
      → (ref : Reference) × (new ≡ rewritten_ref rc ref)
  unfolding decide
  decide-rewrites original new domain =
      if-cases P (rc.preserve_digests && contains (codes "@sha256:") original) _ _
        (λ _ e. absurd (ground (arith, e))) (λ _. parsed (parse original))
    where
      P : Decision → Type 0
      P d = d ≡ rewrite_to new domain → (ref : Reference) × (new ≡ rewritten_ref rc ref)

      parsed :
          (o : Option Reference)
          → let d : Decision = elim o [
            | none ↦ keep (codes "invalid-ref")
            | some r ↦
                if equal_fold r.domain (mirror_of rc)
                then keep (codes "already-mirror")
                else rewrite_to (rewritten_ref rc r) r.domain
          ] in
            P d
      parsed none = λ e. absurd (ground (arith, e))
      parsed (some ref) =
          if-cases P (equal_fold ref.domain (mirror_of rc)) _ _ (λ _ e. absurd (ground (arith, e)))
            (λ _ e. (ref, ground (arith, e)))

  abbrev Quiet : Option RewriteAction → Type 0
  Quiet none = Unit
  Quiet (some a) = a.rewritten ≡ []

  -- A second run of a step gives the same and reports no rewrite.
  abbrev Same {ℓ} : {A : Type ℓ} → A → Option RewriteAction × A → Type ℓ
  Same x r = (r.1 ≡ x) × Quiet r.0

  carry_out-again :
      (service value comment : Text) (content : Nodes) (d : Decision)
      → decide parse rc value ≡ d
      → value ≢ []
      → Same
          (carry_out parse rc service value comment content d).1
          (rewrite_image parse rc service (carry_out parse rc service value comment content d).1)
  unfolding rewrite_image
  carry_out-again service value comment content (keep reason) e n =
      rw (==_ne value [] n, e) (refl, refl)
  carry_out-again service value comment content (rewrite_to new domain) e n =
      let (ref, q) = decide-rewrites value new domain e in
      let full : new ≢ [] = λ f. rewritten_ref-nonempty rc ref (sym q ∙ f) in
      let kept = subst (λ t. IsKept (decide parse rc t)) (sym q) (decide-sent ref) in
      rw (==_ne new [] full, kept.1) (refl, refl)

  rewrite_image-again :
      (service : Text) (v : Node)
      → Same
          (rewrite_image parse rc service v).1
          (rewrite_image parse rc service (rewrite_image parse rc service v).1)
  unfolding rewrite_image
  rewrite_image-again service (node scalar value comment content) =
      if-cases (λ (r : Option RewriteAction × Node). Same r.1 (rewrite_image parse rc service r.1))
        (value == []) _ _ (λ e. rw e (refl, tt))
        (λ e.
          carry_out-again service value comment content (decide parse rc value) refl
            (==_apart value [] e))
  rewrite_image-again service (node document value comment content) = (refl, tt)
  rewrite_image-again service (node mapping value comment content) = (refl, tt)
  rewrite_image-again service (node other_kind value comment content) = (refl, tt)

  rewrite_field-again :
      (service : Text) (l : Nodes)
      → Same
          (rewrite_field parse rc service l).1
          (rewrite_field parse rc service (rewrite_field parse rc service l).1)
  unfolding rewrite_field
  rewrite_field-again service end = (refl, tt)
  rewrite_field-again service (more key end) = (refl, tt)
  rewrite_field-again service (more key (more child rest)) =
      let (a, q) = rewrite_image-again service child in
      let (b, r) = rewrite_field-again service rest in
      if-cases (λ (x : Option RewriteAction × Nodes). Same x.1 (rewrite_field parse rc service x.1))
        (value_of key == codes "image") _ _ (λ y. rw y (ap (λ v. more key (more v rest)) a, q))
        (λ n. rw n (ap (λ l. more key (more child l)) b, r))

  rewrite_service-again :
      (service : Text) (v : Node)
      → Same
          (rewrite_service parse rc service v).1
          (rewrite_service parse rc service (rewrite_service parse rc service v).1)
  unfolding rewrite_service
  rewrite_service-again service (node mapping value comment content) =
      let (a, q) = rewrite_field-again service content in
      (ap (λ l. node mapping value comment l) a, q)
  rewrite_service-again service (node document value comment content) = (refl, tt)
  rewrite_service-again service (node scalar value comment content) = (refl, tt)
  rewrite_service-again service (node other_kind value comment content) = (refl, tt)

  -- The same of a step that gives a list of actions.
  abbrev Still {ℓ} : {A : Type ℓ} → A → List RewriteAction × A → Type ℓ
  Still x r = (r.1 ≡ x) × (has_rewrite r.0 ≡ false)

  with_action-Quiet :
      (a : Option RewriteAction) (l : List RewriteAction)
      → Quiet a
      → has_rewrite l ≡ false
      → has_rewrite (with_action parse rc a l) ≡ false
  with_action-Quiet none l q e = e
  with_action-Quiet (some a) l q e = rw (q, e) refl

  rewrite_services-again :
      (l : Nodes)
      → Still
          (rewrite_services parse rc l).1
          (rewrite_services parse rc (rewrite_services parse rc l).1)
  unfolding rewrite_services
  rewrite_services-again end = (refl, refl)
  rewrite_services-again (more key end) = (refl, refl)
  rewrite_services-again (more key (more child rest)) =
      let (a, q) = rewrite_service-again (value_of key) child in
      let (b, r) = rewrite_services-again rest in
      (
        ap (λ v. more key (more v (rewrite_services parse rc (rewrite_services parse rc rest).1).1))
              a
            ∙ ap (λ l. more key (more (rewrite_service parse rc (value_of key) child).1 l)) b,
        with_action-Quiet _ _ q r,
      )

  -- The same of a step that finds its place or not.
  abbrev Settles {ℓ} :
      {A : Type ℓ}
      → (A → Option (List RewriteAction × A))
      → Option (List RewriteAction × A)
      → Type ℓ
  Settles step none = Unit
  Settles step (some (actions, x)) =
      (again : List RewriteAction) × (step x ≡ some (again, x)) × (has_rewrite again ≡ false)

  rewrite_mapping-again :
      (v : Node) → Settles (rewrite_mapping parse rc) (rewrite_mapping parse rc v)
  rewrite_mapping-again (node mapping value comment content) =
      let (a, q) = rewrite_services-again content in
      let again = (rewrite_services parse rc (rewrite_services parse rc content).1).0 in
      (again, ap (λ l. some (again, node mapping value comment l)) a, q)
  rewrite_mapping-again (node document value comment content) = tt
  rewrite_mapping-again (node scalar value comment content) = tt
  rewrite_mapping-again (node other_kind value comment content) = tt

  rewrite_children-again :
      (l : Nodes) → Settles (rewrite_children parse rc) (rewrite_children parse rc l)
  unfolding rewrite_children
  rewrite_children-again end = tt
  rewrite_children-again (more key end) = tt
  rewrite_children-again (more key (more child rest)) =
      if-cases (Settles (rewrite_children parse rc)) (value_of key == codes "services") _ _
        (λ y. here y (rewrite_mapping parse rc child) (rewrite_mapping-again child))
        (λ n. later n (rewrite_children parse rc rest) (rewrite_children-again rest))
    where
      here :
          value_of key == codes "services" ≡ true
          → (o : Option (List RewriteAction × Node)) → Settles (rewrite_mapping parse rc) o
          → Settles (rewrite_children parse rc) (after_key parse rc key rest o)
      here y none h = tt
      here y (some (actions, v)) (again, e, q) = (again, rw (y, e) refl, q)

      later :
          value_of key == codes "services" ≡ false
          → (o : Option (List RewriteAction × Nodes)) → Settles (rewrite_children parse rc) o
          → Settles (rewrite_children parse rc) (beside parse rc key child o)
      later n none h = tt
      later n (some (actions, l)) (again, e, q) = (again, rw (n, e) refl, q)

  rewrite_doc-again : (v : Node) → Settles (rewrite_doc parse rc) (rewrite_doc parse rc v)
  unfolding rewrite_doc
  rewrite_doc-again (node mapping value comment content) =
      go (rewrite_children parse rc content) (rewrite_children-again content)
    where
      go :
          (o : Option (List RewriteAction × Nodes))
          → Settles (rewrite_children parse rc) o
          → Settles (rewrite_doc parse rc) (inside parse rc mapping value comment o)
      go none h = tt
      go (some (actions, l)) (again, e, q) = (again, rw e refl, q)
  rewrite_doc-again (node document value comment content) = tt
  rewrite_doc-again (node scalar value comment content) = tt
  rewrite_doc-again (node other_kind value comment content) = tt

  rewrite_root-again : (v : Node) → Settles (rewrite_root parse rc) (rewrite_root parse rc v)
  unfolding rewrite_root rewrite_doc
  rewrite_root-again (node document value comment end) = tt
  rewrite_root-again (node document value comment (more doc rest)) =
      go (rewrite_doc parse rc doc) (rewrite_doc-again doc)
    where
      go :
          (o : Option (List RewriteAction × Node))
          → Settles (rewrite_doc parse rc) o
          → Settles
              (rewrite_root parse rc)
              (inside parse rc document value comment (first_of parse rc rest o))
      go none h = tt
      go (some (actions, v)) (again, e, q) = (again, rw e refl, q)
  rewrite_root-again (node mapping value comment content) =
      go (rewrite_children parse rc content) (rewrite_children-again content)
    where
      go :
          (o : Option (List RewriteAction × Nodes))
          → Settles (rewrite_children parse rc) o
          → Settles (rewrite_root parse rc) (inside parse rc mapping value comment o)
      go none h = tt
      go (some (actions, l)) (again, e, q) = (again, rw e refl, q)
  rewrite_root-again (node scalar value comment content) = tt
  rewrite_root-again (node other_kind value comment content) = tt

-- What is wanted of the YAML library: the text that it writes for a tree that was read and rewritten is
-- read as that tree, but for the comments.
abbrev pub Faithful :
    (Text → Option Node) → (Node → Option Text) → (Text → Option Reference) → RegistryCache → Type 0
Faithful unmarshal marshal parse rc =
    (t : Text) (v v' : Node) (actions : List RewriteAction) (out : Text)
    → unmarshal t ≡ some v
    → rewrite_root parse rc v ≡ some (actions, v')
    → marshal v' ≡ some out
    → (again : Node) × (unmarshal out ≡ some again) × (bare again ≡ bare v')

module _ (unmarshal : Text → Option Node) (marshal : Node → Option Text)
    (parse : Text → Option Reference) (rc : RegistryCache)
    (faithful : Faithful unmarshal marshal parse rc) (names : NamesMirror parse rc) where
  abbrev run : Text → Rewritten
  run t = rewrite_parsed unmarshal marshal parse rc t (unmarshal t)

  abbrev IsStable : Rewritten → Type 0
  IsStable x =
      ((run x.content).content ≡ x.content)
      × (x.is_written ≡ true → has_rewrite (run x.content).actions ≡ false)

  -- A run that gives its own text again.
  stays :
      (t : Text) (actions again : List RewriteAction) (once b : Bool)
      → run t ≡ record { content = t; actions = again; is_written = b }
      → (once ≡ true → has_rewrite again ≡ false)
      → IsStable (record { content = t; actions = actions; is_written = once })
  stays t actions again once b e q = (
    ap (λ (x : Rewritten). x.content) e,
    λ w. ap (λ (x : Rewritten). has_rewrite x.actions) e ∙ q w,
  )

  at : (t : Text) (x : Rewritten) → run t ≡ x → IsStable x → IsStable (run t)
  at t x e h = subst IsStable (sym e) h

  run-marshalled :
      (t : Text) (v : Node) (r : Option (List RewriteAction × Node))
      → unmarshal t ≡ some v
      → rewrite_root parse rc v ≡ r
      → run t ≡ marshalled unmarshal marshal parse t r
  run-marshalled t v r e f =
      ap (λ o. rewrite_parsed unmarshal marshal parse rc t o) e
      ∙ ap (λ o. marshalled unmarshal marshal parse t o) f

  rewritten-IsStable :
      (t : Text) (v v' : Node) (actions : List RewriteAction)
      → unmarshal t ≡ some v
      → rewrite_root parse rc v ≡ some (actions, v')
      → Settles parse rc names (rewrite_root parse rc) (some (actions, v'))
      → IsStable (run t)
  rewritten-IsStable t v v' actions e f (again, g, h) = elim (Bool-cases (has_rewrite actions)) [
    | inl y ↦ stored (marshal v') refl (
        first
        ∙ if-false (not (has_rewrite actions)) same
            (written unmarshal marshal parse t actions (marshal v')) (ground (arith, y)))
    | inr n ↦
        let done =
          first
          ∙ if-true (not (has_rewrite actions)) same
              (written unmarshal marshal parse t actions (marshal v')) (ground (arith, n)) in
        at t same done (stays t actions actions true true done (λ _. n))
  ]
    where
      same : Rewritten
      same = record { content = t; actions = actions; is_written = true }

      first : run t ≡ marshalled unmarshal marshal parse t (some (actions, v'))
      first = run-marshalled t v (some (actions, v')) e f

      second :
          (out : Text)
          → marshal v' ≡ some out
          → run out ≡ record { content = out; actions = again; is_written = true }
      second out m =
          let (w, r, b) = faithful t v v' actions out e f m in
          read_back w r (rewrite_root parse rc w) refl (
            rewrite_root-bare parse rc w
            ∙ (ap (λ x. actions_of (rewrite_root parse rc x)) b
                ∙ (sym (rewrite_root-bare parse rc v') ∙ ap actions_of g)))
        where
          read_back :
              (w : Node)
              → unmarshal out ≡ some w
              → (o : Option (List RewriteAction × Node)) → rewrite_root parse rc w ≡ o
              → actions_of o ≡ some again
              → run out ≡ record { content = out; actions = again; is_written = true }
          read_back w r none q x = absurd (ground (arith, x))
          read_back w r (some (acts, u)) q x =
              run-marshalled out w (some (acts, u)) r q
              ∙ (ap (λ l. marshalled unmarshal marshal parse out (some (l, u))) (some_inj.0 x)
                  ∙ if-true (not (has_rewrite again))
                      (record { content = out; actions = again; is_written = true })
                      (written unmarshal marshal parse out again (marshal u)) (ground (arith, h)))

      stored :
          (o : Option Text)
          → marshal v' ≡ o
          → run t ≡ written unmarshal marshal parse t actions (marshal v')
          → IsStable (run t)
      stored none m r =
          let done = r ∙ ap (written unmarshal marshal parse t actions) m in
          at t (record { content = t; actions = actions; is_written = false }) done
            (stays t actions actions false false done (λ w. absurd (false≢true w)))
      stored (some out) m r =
          at t (record { content = out; actions = actions; is_written = true })
            (r ∙ ap (written unmarshal marshal parse t actions) m)
            (stays out actions again true true (second out m) (λ _. h))

  run-IsStable : (t : Text) → IsStable (run t)
  run-IsStable t = read (unmarshal t) refl
    where
      found :
          (v : Node)
          → unmarshal t ≡ some v
          → (r : Option (List RewriteAction × Node)) → rewrite_root parse rc v ≡ r
          → Settles parse rc names (rewrite_root parse rc) r
          → IsStable (run t)
      found v e none f h =
          let done = run-marshalled t v none e f in
          at t (untouched t) done (stays t [] [] true true done (λ _. refl))
      found v e (some (actions, v')) f h = rewritten-IsStable t v v' actions e f h

      read : (o : Option Node) → unmarshal t ≡ o → IsStable (run t)
      read none e =
          let done = ap (λ o. rewrite_parsed unmarshal marshal parse rc t o) e in
          at t (untouched t) done (stays t [] [] true true done (λ _. refl))
      read (some v) e =
          found v e (rewrite_root parse rc v) refl (rewrite_root-again parse rc names v)

-- A file that was rewritten and written is left as it is by the next rewrite, which reports no image as
-- rewritten: where the YAML library reads back, but for comments, the trees that it writes here, and a
-- reference on the mirror is parsed as one.
pub rewrite_images_idem :
    (unmarshal : Text → Option Node) (marshal : Node → Option Text)
    (parse : Text → Option Reference) (input : RewriteInput) (content : Text)
    → ((rc : RegistryCache) → active_setting input ≡ some rc → Faithful unmarshal marshal parse rc)
    → ((rc : RegistryCache) → active_setting input ≡ some rc → NamesMirror parse rc)
    → let once = rewrite_images unmarshal marshal parse input content in
      let twice = rewrite_images unmarshal marshal parse input once.content in
      (twice.content ≡ once.content) × (once.is_written ≡ true → has_rewrite twice.actions ≡ false)
unfolding rewrite_images
rewrite_images_idem unmarshal marshal parse input content faithful names =
    go (active_setting input) refl
  where
    go :
        (o : Option RegistryCache)
        → active_setting input ≡ o
        → let f : Text → Rewritten = λ t. elim o [
          | none ↦ untouched t
          | some rc ↦ rewrite_parsed unmarshal marshal parse rc t (unmarshal t)
        ] in
          ((f (f content).content).content ≡ (f content).content)
          × ((f content).is_written ≡ true → has_rewrite (f (f content).content).actions ≡ false)
    go none e = (refl, λ _. refl)
    go (some rc) e = run-IsStable unmarshal marshal parse rc (faithful rc e) (names rc e) content
