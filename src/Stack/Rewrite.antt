-- ===== src/Stack/Rewrite.antt =====
-- biz/compose_stack_registry_rewrite.go: the images of a compose file, sent to the mirror at a deploy. A
-- node of YAML is a tree of its kind, value, head comment and children; the code changes an image's node
-- in place, and here the walk builds the changed tree. The YAML library and the parser of image
-- references are parameters; `EqualFold` is that of ASCII.
pub mod Bare
pub mod Again
mod Tests
use swirl_evo.Common.{
  ℕ, Bool, true, false, not, ◌&&◌, ◌==◌, List, [], ◌∷◌, ◌++◌, any, Option, none, some, Text, codes,
  cut, to_lower, text_eq, if◌then◌else◌,
}
use swirl_evo.Common.Int.{ℤ, pos, is_zero, decimal_int}
use swirl_evo.Stack.{ComposeStack}

-- What the code reads of `misc.Setting.RegistryCache`.
pub record RegistryCache : Type 0 where
  pub enabled : Bool
  pub hostname : Text
  pub port : ℤ
  pub use_upstream_prefix : Bool
  pub preserve_digests : Bool
  pub rewrite_mode : Text

pub record RewriteAction : Type 0 where
  pub service : Text
  pub original : Text
  pub rewritten : Text
  pub upstream : Text
  pub prefix : Text
  pub reason : Text

-- `host_extract` is whether the host's extract is enabled, where there is one.
pub record RewriteInput : Type 0 where
  pub setting : Option RegistryCache
  pub host_extract : Option Bool
  pub stack_disabled : Bool

-- Whether the rewrite runs, and whether only for a host that opts in.
unfoldable pub should_run_with : RegistryCache → Bool × Bool
should_run_with rc =
    if not rc.enabled
    then (false, false)
    else if rc.hostname == []
    then (false, false)
    else if rc.rewrite_mode == codes "off"
    then (false, false)
    else if rc.rewrite_mode == codes "always"
    then (true, false)
    else if rc.rewrite_mode == codes "per-host"
    then (true, true)
    else if rc.rewrite_mode == []
    then (true, true)
    else (false, false)

abbrev pub opted_in : Option Bool → Bool
opted_in none = false
opted_in (some enabled) = enabled

-- The setting that a rewrite works with, where `shouldRun` and the host let it run.
unfoldable pub active_setting : RewriteInput → Option RegistryCache
unfolding should_run_with
active_setting input = if input.stack_disabled then none else elim input.setting [
  | none ↦ none
  | some rc ↦
      let (run, require_host_opt_in) = should_run_with rc in
      if not run
      then none
      else if require_host_opt_in && not (opted_in input.host_extract)
      then none
      else some rc
]

unfoldable pub will_rewrite : RewriteInput → Bool
unfolding active_setting
will_rewrite input = elim (active_setting input) [ none ↦ false | some rc ↦ true ]

-- `BuildRewriteInput` of a stack.
abbrev pub build_rewrite_input : ComposeStack → Option Bool → Option RegistryCache → RewriteInput
build_rewrite_input stack host_extract setting = record {
  setting = setting;
  host_extract = host_extract;
  stack_disabled = stack.disable_registry_cache;
}

pub data Kind : Type 0 where
  document mapping scalar other_kind : Kind

mutual
  pub data Node : Type 0 where
    node : Kind → Text → Text → Nodes → Node

  pub data Nodes : Type 0 where
    end : Nodes
    more : Node → Nodes → Nodes

abbrev pub value_of : Node → Text
value_of (node kind value comment content) = value

pub record Reference : Type 0 where
  pub domain : Text
  pub path : Text
  pub tag : Option Text

abbrev pub port_or_default : ℤ → ℤ
port_or_default p = if is_zero p then pos 5000 else p

abbrev pub mirror_of : RegistryCache → Text
mirror_of rc = rc.hostname ++ (codes ":" ++ codes (decimal_int (port_or_default rc.port)))

unfoldable pub contains : Text → Text → Bool
unfolding cut
contains part s = elim (cut part s) [ none ↦ false | some parts ↦ true ]

abbrev pub equal_fold : Text → Text → Bool
equal_fold s t = to_lower s == to_lower t

abbrev pub tag_part : Option Text → Text
tag_part none = codes ":latest"
tag_part (some tag) = codes ":" ++ tag

unfoldable pub rewritten_ref : RegistryCache → Reference → Text
rewritten_ref rc ref =
    if rc.use_upstream_prefix
    then mirror_of rc
      ++ (codes "/" ++ (ref.domain ++ (codes "/" ++ (ref.path ++ tag_part ref.tag))))
    else mirror_of rc ++ (codes "/" ++ (ref.path ++ tag_part ref.tag))

pub data Decision : Type 0 where
  keep : Text → Decision
  rewrite_to : Text → Text → Decision

abbrev pub marker_name : Text
marker_name = codes "swirl-managed-registry-cache:"

abbrev pub marked : Text → Text → Text
marked original comment =
    let line = marker_name ++ (codes " original=" ++ original) in
    if comment == []
    then line
    else if not (contains marker_name comment)
    then comment ++ (codes "\n" ++ line)
    else comment

abbrev pub kept_action : Text → Text → Text → RewriteAction
kept_action service original reason = record {
  service = service;
  original = original;
  rewritten = [];
  upstream = [];
  prefix = [];
  reason = reason;
}

abbrev pub has_rewrite : List RewriteAction → Bool
has_rewrite actions = any (λ (a : RewriteAction). not (a.rewritten == [])) actions

module _ (parse : Text → Option Reference) (rc : RegistryCache) where
  unfoldable pub decide : Text → Decision
  unfolding contains rewritten_ref
  decide original =
      if rc.preserve_digests && contains (codes "@sha256:") original
      then keep (codes "digest-preserved")
      else elim (parse original) [
        | none ↦ keep (codes "invalid-ref")
        | some ref ↦
            if equal_fold ref.domain (mirror_of rc)
            then keep (codes "already-mirror")
            else rewrite_to (rewritten_ref rc ref) ref.domain
      ]

  abbrev pub carry_out : Text → Text → Text → Nodes → Decision → Option RewriteAction × Node
  carry_out service original comment content (keep reason) =
      (some (kept_action service original reason), node scalar original comment content)
  carry_out service original comment content (rewrite_to new domain) = (
    some (record {
      service = service;
      original = original;
      rewritten = new;
      upstream = domain;
      prefix = if rc.use_upstream_prefix then domain else [];
      reason = [];
    }),
    node scalar new (marked original comment) content,
  )

  unfoldable pub rewrite_image : Text → Node → Option RewriteAction × Node
  unfolding decide
  rewrite_image service (node scalar value comment content) =
      let done = carry_out service value comment content (decide value) in
      if value == [] then (none, node scalar value comment content) else done
  rewrite_image service (node kind value comment content) = (none, node kind value comment content)

  -- The first child with the key `image`.
  unfoldable pub rewrite_field : Text → Nodes → Option RewriteAction × Nodes
  unfolding rewrite_image
  rewrite_field service end = (none, end)
  rewrite_field service (more key end) = (none, more key end)
  rewrite_field service (more key (more child rest)) =
      let (action, child') = rewrite_image service child in
      let (later, rest') = rewrite_field service rest in
      if value_of key == codes "image"
      then (action, more key (more child' rest))
      else (later, more key (more child rest'))

  unfoldable pub rewrite_service : Text → Node → Option RewriteAction × Node
  unfolding rewrite_field
  rewrite_service service (node mapping value comment content) =
      let (action, content') = rewrite_field service content in
      (action, node mapping value comment content')
  rewrite_service service (node kind value comment content) =
      (none, node kind value comment content)

  abbrev pub with_action : Option RewriteAction → List RewriteAction → List RewriteAction
  with_action none actions = actions
  with_action (some action) actions = action ∷ actions

  -- The walk over the services.
  unfoldable pub rewrite_services : Nodes → List RewriteAction × Nodes
  unfolding rewrite_service
  rewrite_services end = ([], end)
  rewrite_services (more key end) = ([], more key end)
  rewrite_services (more key (more child rest)) =
      let (action, child') = rewrite_service (value_of key) child in
      let (actions, rest') = rewrite_services rest in
      (with_action action actions, more key (more child' rest'))

  -- The first child with the key `services`, where it is a mapping: `none` where there is no such child.
  abbrev pub rewrite_mapping : Node → Option (List RewriteAction × Node)
  rewrite_mapping (node mapping value comment content) =
      let (actions, content') = rewrite_services content in
      some (actions, node mapping value comment content')
  rewrite_mapping (node kind value comment content) = none

  abbrev pub after_key :
      Node → Nodes → Option (List RewriteAction × Node) → Option (List RewriteAction × Nodes)
  after_key key rest none = none
  after_key key rest (some (actions, child)) = some (actions, more key (more child rest))

  abbrev pub beside :
      Node → Node → Option (List RewriteAction × Nodes) → Option (List RewriteAction × Nodes)
  beside key child none = none
  beside key child (some (actions, rest)) = some (actions, more key (more child rest))

  unfoldable pub rewrite_children : Nodes → Option (List RewriteAction × Nodes)
  unfolding rewrite_services
  rewrite_children end = none
  rewrite_children (more key end) = none
  rewrite_children (more key (more child rest)) =
      let later = rewrite_children rest in
      if value_of key == codes "services"
      then after_key key rest (rewrite_mapping child)
      else beside key child later

  abbrev pub inside :
      Kind → Text → Text → Option (List RewriteAction × Nodes) → Option (List RewriteAction × Node)
  inside kind value comment none = none
  inside kind value comment (some (actions, content)) =
      some (actions, node kind value comment content)

  unfoldable pub rewrite_doc : Node → Option (List RewriteAction × Node)
  unfolding rewrite_children
  rewrite_doc (node mapping value comment content) =
      inside mapping value comment (rewrite_children content)
  rewrite_doc (node kind value comment content) = none

  abbrev pub first_of :
      Nodes → Option (List RewriteAction × Node) → Option (List RewriteAction × Nodes)
  first_of rest none = none
  first_of rest (some (actions, doc)) = some (actions, more doc rest)

  -- `documentNode`, and the rewrite of what it finds.
  unfoldable pub rewrite_root : Node → Option (List RewriteAction × Node)
  unfolding rewrite_doc
  rewrite_root (node document value comment end) = none
  rewrite_root (node document value comment (more doc rest)) =
      inside document value comment (first_of rest (rewrite_doc doc))
  rewrite_root (node kind value comment content) = rewrite_doc (node kind value comment content)

-- A rewritten file: its text, the actions and whether it could be written.
pub record Rewritten : Type 0 where
  pub content : Text
  pub actions : List RewriteAction
  pub is_written : Bool

abbrev pub untouched : Text → Rewritten
untouched content = record { content = content; actions = []; is_written = true }

module _ (unmarshal : Text → Option Node) (marshal : Node → Option Text)
    (parse : Text → Option Reference) where
  abbrev pub written : Text → List RewriteAction → Option Text → Rewritten
  written content actions none = record { content = content; actions = actions; is_written = false }
  written content actions (some out) = record {
    content = out;
    actions = actions;
    is_written = true;
  }

  abbrev pub marshalled : Text → Option (List RewriteAction × Node) → Rewritten
  marshalled content none = untouched content
  marshalled content (some (actions, root)) =
      let out = written content actions (marshal root) in
      if not (has_rewrite actions)
      then record { content = content; actions = actions; is_written = true }
      else out

  abbrev pub rewrite_parsed : RegistryCache → Text → Option Node → Rewritten
  rewrite_parsed rc content none = untouched content
  rewrite_parsed rc content (some root) = marshalled content (rewrite_root parse rc root)

  unfoldable pub rewrite_images : RewriteInput → Text → Rewritten
  unfolding active_setting rewrite_root
  rewrite_images input content = elim (active_setting input) [
    | none ↦ untouched content
    | some rc ↦ rewrite_parsed rc content (unmarshal content)
  ]
