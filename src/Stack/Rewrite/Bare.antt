-- ===== src/Stack/Rewrite/Bare.antt =====
-- Comments do not steer the rewrite of biz/compose_stack_registry_rewrite.go.
use swirl_evo.Common.{
  ◌≡◌, refl, sym, ap, ◌∙◌, [], Bool, true, false, ◌==◌, List, Option, none, some, Text, codes,
  text_eq, if◌then◌else◌,
}
use swirl_evo.Stack.Rewrite.{
  RegistryCache, RewriteAction, document, mapping, scalar, other_kind, Kind, Node, node, Nodes, end,
  more, Reference, Decision, keep, rewrite_to, decide, carry_out, rewrite_image, rewrite_field,
  rewrite_service, with_action, rewrite_services, rewrite_mapping, after_key, beside,
  rewrite_children, inside, rewrite_doc, first_of, rewrite_root,
}

-- A tree without its comments.
unfoldable mutual
  pub bare : Node → Node
  bare (node kind value comment content) = node kind value [] (bare_all content)

  bare_all : Nodes → Nodes
  bare_all end = end
  bare_all (more v l) = more (bare v) (bare_all l)

abbrev pub actions_of {ℓ} :
    {A : Type ℓ} → Option (List RewriteAction × A) → Option (List RewriteAction)
actions_of none = none
actions_of (some (actions, x)) = some actions

if_both {ℓ κ} :
    {A : Type ℓ} {C : Type κ} (f : A → C) (b : Bool) (x y x' y' : A)
    → f x ≡ f x'
    → f y ≡ f y'
    → f (if b then x else y) ≡ f (if b then x' else y')
if_both f true x y x' y' p q = p
if_both f false x y x' y' p q = q

module _ (parse : Text → Option Reference) (rc : RegistryCache) where
  carry_out-bare :
      (service value comment : Text) (content : Nodes) (d : Decision)
      → (carry_out parse rc service value comment content d).0
        ≡ (carry_out parse rc service value [] (bare_all content) d).0
  carry_out-bare service value comment content (keep reason) = refl
  carry_out-bare service value comment content (rewrite_to new domain) = refl

  rewrite_image-bare :
      (service : Text) (v : Node)
      → (rewrite_image parse rc service v).0 ≡ (rewrite_image parse rc service (bare v)).0
  unfolding rewrite_image bare
  rewrite_image-bare service (node scalar value comment content) =
      if_both (λ (r : Option RewriteAction × Node). r.0) (value == []) _ _ _ _ refl
        (carry_out-bare service value comment content (decide parse rc value))
  rewrite_image-bare service (node document value comment content) = refl
  rewrite_image-bare service (node mapping value comment content) = refl
  rewrite_image-bare service (node other_kind value comment content) = refl

  rewrite_field-bare :
      (service : Text) (l : Nodes)
      → (rewrite_field parse rc service l).0 ≡ (rewrite_field parse rc service (bare_all l)).0
  unfolding rewrite_field bare bare_all
  rewrite_field-bare service end = refl
  rewrite_field-bare service (more key end) = refl
  rewrite_field-bare service (more (node kind value comment content) (more child rest)) =
      if_both (λ (r : Option RewriteAction × Nodes). r.0) (value == codes "image") _ _ _ _
        (rewrite_image-bare service child) (rewrite_field-bare service rest)

  rewrite_service-bare :
      (service : Text) (v : Node)
      → (rewrite_service parse rc service v).0 ≡ (rewrite_service parse rc service (bare v)).0
  unfolding rewrite_service bare
  rewrite_service-bare service (node mapping value comment content) =
      rewrite_field-bare service content
  rewrite_service-bare service (node document value comment content) = refl
  rewrite_service-bare service (node scalar value comment content) = refl
  rewrite_service-bare service (node other_kind value comment content) = refl

  rewrite_services-bare :
      (l : Nodes) → (rewrite_services parse rc l).0 ≡ (rewrite_services parse rc (bare_all l)).0
  unfolding rewrite_services bare bare_all
  rewrite_services-bare end = refl
  rewrite_services-bare (more key end) = refl
  rewrite_services-bare (more (node kind value comment content) (more child rest)) =
      ap (λ a. with_action parse rc a (rewrite_services parse rc rest).0)
        (rewrite_service-bare value child)
      ∙ ap (λ l. with_action parse rc (rewrite_service parse rc value (bare child)).0 l)
          (rewrite_services-bare rest)

  rewrite_mapping-bare :
      (v : Node)
      → actions_of (rewrite_mapping parse rc v) ≡ actions_of (rewrite_mapping parse rc (bare v))
  unfolding bare
  rewrite_mapping-bare (node mapping value comment content) =
      ap (λ a. some a) (rewrite_services-bare content)
  rewrite_mapping-bare (node document value comment content) = refl
  rewrite_mapping-bare (node scalar value comment content) = refl
  rewrite_mapping-bare (node other_kind value comment content) = refl

  after_key-actions_of :
      (key : Node) (rest : Nodes) (o : Option (List RewriteAction × Node))
      → actions_of (after_key parse rc key rest o) ≡ actions_of o
  after_key-actions_of key rest none = refl
  after_key-actions_of key rest (some (actions, v)) = refl

  beside-actions_of :
      (key child : Node) (o : Option (List RewriteAction × Nodes))
      → actions_of (beside parse rc key child o) ≡ actions_of o
  beside-actions_of key child none = refl
  beside-actions_of key child (some (actions, l)) = refl

  inside-actions_of :
      (kind : Kind) (value comment : Text) (o : Option (List RewriteAction × Nodes))
      → actions_of (inside parse rc kind value comment o) ≡ actions_of o
  inside-actions_of kind value comment none = refl
  inside-actions_of kind value comment (some (actions, l)) = refl

  first_of-actions_of :
      (rest : Nodes) (o : Option (List RewriteAction × Node))
      → actions_of (first_of parse rc rest o) ≡ actions_of o
  first_of-actions_of rest none = refl
  first_of-actions_of rest (some (actions, v)) = refl

  rewrite_children-bare :
      (l : Nodes)
      → actions_of (rewrite_children parse rc l)
        ≡ actions_of (rewrite_children parse rc (bare_all l))
  unfolding rewrite_children bare bare_all
  rewrite_children-bare end = refl
  rewrite_children-bare (more key end) = refl
  rewrite_children-bare (more (node kind value comment content) (more child rest)) =
      if_both (λ (o : Option (List RewriteAction × Nodes)). actions_of o)
        (value == codes "services") _ _ _ _
        (after_key-actions_of _ rest (rewrite_mapping parse rc child)
          ∙ (rewrite_mapping-bare child
              ∙ sym
                  (after_key-actions_of _ (bare_all rest) (rewrite_mapping parse rc (bare child)))))
        (beside-actions_of _ child (rewrite_children parse rc rest)
          ∙ (rewrite_children-bare rest
              ∙ sym (beside-actions_of _ (bare child) (rewrite_children parse rc (bare_all rest)))))

  rewrite_doc-bare :
      (v : Node) → actions_of (rewrite_doc parse rc v) ≡ actions_of (rewrite_doc parse rc (bare v))
  unfolding rewrite_doc bare
  rewrite_doc-bare (node mapping value comment content) =
      inside-actions_of mapping value comment (rewrite_children parse rc content)
      ∙ (rewrite_children-bare content
          ∙ sym (inside-actions_of mapping value [] (rewrite_children parse rc (bare_all content))))
  rewrite_doc-bare (node document value comment content) = refl
  rewrite_doc-bare (node scalar value comment content) = refl
  rewrite_doc-bare (node other_kind value comment content) = refl

  pub rewrite_root-bare :
      (v : Node)
      → actions_of (rewrite_root parse rc v) ≡ actions_of (rewrite_root parse rc (bare v))
  unfolding rewrite_root bare bare_all
  rewrite_root-bare (node document value comment end) = refl
  rewrite_root-bare (node document value comment (more doc rest)) =
      inside-actions_of document value comment (first_of parse rc rest (rewrite_doc parse rc doc))
      ∙ (first_of-actions_of rest (rewrite_doc parse rc doc)
          ∙ (rewrite_doc-bare doc
              ∙ (sym (first_of-actions_of (bare_all rest) (rewrite_doc parse rc (bare doc)))
                  ∙ sym (
                      inside-actions_of document value []
                        (first_of parse rc (bare_all rest) (rewrite_doc parse rc (bare doc)))))))
  rewrite_root-bare (node mapping value comment content) =
      rewrite_doc-bare (node mapping value comment content)
  rewrite_root-bare (node scalar value comment content) =
      rewrite_doc-bare (node scalar value comment content)
  rewrite_root-bare (node other_kind value comment content) =
      rewrite_doc-bare (node other_kind value comment content)
