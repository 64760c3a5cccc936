-- ===== src/Stack/Rewrite/Tests.antt =====
-- The rewrite of a file with one image, with a YAML library that knows two texts.
use mathlib.Core.Path.{subst}
use mathlib.Core.Option.{some_inj, none-ne-some}
use swirl_evo.Common.{
  decimal, ◌≡◌, refl, sym, ap, ◌∙◌, ℕ, zero, suc, Bool, true, false, ◌&&◌, ◌==◌, ==_iff, eqb,
  eqb_iff, if-cases, [], Option, none, some, Text, codes, strip_prefix, text_eq, arith,
  if◌then◌else◌,
}
use swirl_evo.Common.Int.{pos, decimal_int}
use swirl_evo.Stack.Rewrite.{
  RegistryCache, RewriteInput, active_setting, should_run_with, Kind, document, mapping, scalar,
  other_kind, Node, node, Nodes, end, more, Reference, mirror_of, equal_fold, rewritten_ref,
  has_rewrite, rewrite_images,
}
use swirl_evo.Stack.Rewrite.Bare.{bare}
use swirl_evo.Stack.Rewrite.Again.{NamesMirror, Faithful, rewrite_images_idem}

abbrev cache : RegistryCache
cache = record {
  enabled = true;
  hostname = codes "mirror";
  port = pos 0;
  use_upstream_prefix = true;
  preserve_digests = true;
  rewrite_mode = codes "always";
}

abbrev input : RewriteInput
input = record { setting = some cache; host_extract = none; stack_disabled = false }

abbrev parse : Text → Option Reference
parse t = elim (strip_prefix (mirror_of cache) t) [
  | none ↦ some (record { domain = codes "docker.io"; path = t; tag = none })
  | some rest ↦ some (record { domain = mirror_of cache; path = rest; tag = none })
]

abbrev leaf : Text → Text → Node
leaf value comment = node scalar value comment end

abbrev file : Text → Text → Node
file image comment = node mapping [] [] (
    more (leaf (codes "services") []) (
      more
        (node mapping [] [] (
          more (leaf (codes "web") []) (
            more
              (node mapping [] [] (more (leaf (codes "image") []) (more (leaf image comment) end)))
              end)))
        end))

abbrev doc : Node → Node
doc root = node document [] [] (more root end)

abbrev plain : Node
plain = doc (file (codes "nginx") [])

abbrev sent : Node
sent = doc (
    file (codes "mirror:5000/docker.io/nginx:latest")
      (codes "swirl-managed-registry-cache: original=nginx"))

-- What is read of a written comment.
abbrev reread : Node
reread = doc (
    file (codes "mirror:5000/docker.io/nginx:latest")
      (codes "# swirl-managed-registry-cache: original=nginx"))

abbrev code : Kind → ℕ
code document = 0
code mapping = 1
code scalar = 2
code other_kind = 3

abbrev same_kind : Kind → Kind → Bool
same_kind k l = eqb (code k) (code l)

kind_of : ℕ → Kind
kind_of zero = document
kind_of (suc zero) = mapping
kind_of (suc (suc zero)) = scalar
kind_of _ = other_kind

kind_of-code : (k : Kind) → kind_of (code k) ≡ k
unfolding kind_of
kind_of-code document = refl
kind_of-code mapping = refl
kind_of-code scalar = refl
kind_of-code other_kind = refl

same_kind_sound : (k l : Kind) → same_kind k l ≡ true → k ≡ l
same_kind_sound k l e =
    sym (kind_of-code k) ∙ (ap kind_of ((eqb_iff (code k) (code l)).0 e) ∙ kind_of-code l)

mutual
  same_node : Node → Node → Bool
  same_node (node k v c l) (node k' v' c' l') =
      same_kind k k' && (v == v' && (c == c' && same_nodes l l'))

  same_nodes : Nodes → Nodes → Bool
  same_nodes end end = true
  same_nodes (more v l) (more v' l') = same_node v v' && same_nodes l l'
  same_nodes _ _ = false

and-parts : (a b : Bool) → (a && b) ≡ true → (a ≡ true) × (b ≡ true)
and-parts a b e = ground (arith, e)

mutual
  unfolding same_node same_nodes

  same_node_sound : (v w : Node) → same_node v w ≡ true → v ≡ w
  same_node_sound (node k v c l) (node k' v' c' l') e =
      let (a, f) = and-parts _ _ e in
      let (b, g) = and-parts _ _ f in
      let (h, i) = and-parts _ _ g in
      ap (λ k. node k v c l) (same_kind_sound k k' a)
      ∙ (ap (λ v. node k' v c l) ((==_iff v v').0 b)
          ∙ (ap (λ c. node k' v' c l) ((==_iff c c').0 h)
              ∙ ap (λ l. node k' v' c' l) (same_nodes_sound l l' i)))

  same_nodes_sound : (l m : Nodes) → same_nodes l m ≡ true → l ≡ m
  same_nodes_sound end end e = refl
  same_nodes_sound (more v l) (more v' l') e =
      let (a, f) = and-parts _ _ e in
      ap (λ v. more v l) (same_node_sound v v' a) ∙ ap (λ l. more v' l) (same_nodes_sound l l' f)
  same_nodes_sound end (more v l) e = absurd (ground (arith, e))
  same_nodes_sound (more v l) end e = absurd (ground (arith, e))

abbrev marshal : Node → Option Text
unfolding same_node
marshal v = if same_node v sent then some (codes "sent") else none

abbrev unmarshal : Text → Option Node
unmarshal t =
    if t == codes "sent" then some reread else if t == codes "plain" then some plain else none

-- A comment that is written is read with a number sign.
marshal-Faithful :
    (rc : RegistryCache) → active_setting input ≡ some rc → Faithful unmarshal marshal parse rc
unfolding marshal same_node bare
marshal-Faithful rc e t v v' actions out read done =
    if-cases
      (λ o. o ≡ some out → (again : Node) × (unmarshal out ≡ some again) × (bare again ≡ bare v'))
      (same_node v' sent) (some (codes "sent")) none
      (λ y f. (
        reread,
        subst (λ u. unmarshal u ≡ some reread) (some_inj.0 f) refl,
        ap bare (sym (same_node_sound v' sent y)),
      ))
      (λ _ f. absurd (none-ne-some out f))

parse-NamesMirror : (rc : RegistryCache) → active_setting input ≡ some rc → NamesMirror parse rc
unfolding active_setting should_run_with rewritten_ref decimal_int decimal
parse-NamesMirror rc e = subst (NamesMirror parse) (some_inj.0 e) here
  where
    here : NamesMirror parse cache
    here ref again q =
        subst (λ (r : Reference). equal_fold r.domain (mirror_of cache) ≡ true) (some_inj.0 q) refl

rewrite_images_idem_example :
    let once = rewrite_images unmarshal marshal parse input (codes "plain") in
    let twice = rewrite_images unmarshal marshal parse input once.content in
    (twice.content ≡ once.content) × (once.is_written ≡ true → has_rewrite twice.actions ≡ false)
rewrite_images_idem_example =
    rewrite_images_idem unmarshal marshal parse input (codes "plain") marshal-Faithful
      parse-NamesMirror

sends : (rewrite_images unmarshal marshal parse input (codes "plain")).content ≡ codes "sent"
unfolding rewrite_images marshal decimal_int
sends = refl
