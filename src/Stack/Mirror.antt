-- ===== src/Stack/Mirror.antt =====
-- biz/compose_stack_image_mirror.go: the images that a rewrite sends to the cache are pulled from their
-- origin, tagged and pushed before a deploy. The keys of registries are an argument.
pub mod Mirrored
use swirl_evo.Common.{
  Bool, true, false, not, ◌&&◌, ◌==◌, List, [], ◌∷◌, ◌++◌, Option, none, some, Text, codes, cut,
  text_eq, if◌then◌else◌,
}
use swirl_evo.Docker.{Docker, Transfer, not_accepted, broken_off, streamed}
use swirl_evo.Stack.Rewrite.{RewriteAction, equal_fold}

pub data Outcome : Type 0 where
  pulled already_present skipped_local_ref no_rewrite failed : Outcome

pub record MirrorAction : Type 0 where
  pub service : Text
  pub upstream : Text
  pub cache_ref : Text
  pub outcome : Outcome

abbrev pub entry : Outcome → RewriteAction → MirrorAction
entry outcome a = record {
  service = a.service;
  upstream = a.original;
  cache_ref = if not (a.rewritten == []) then a.rewritten else [];
  outcome = outcome;
}

-- `originHost`: the part before the first slash, where it is not empty.
unfoldable pub origin_host : Text → Text
unfolding cut
origin_host ref = elim (cut (codes "/") ref) [
  | none ↦ ref
  | some (host, rest) ↦ if host == [] then ref else host
]

-- `pullImage` and `pushImage` read the stream of messages and drop it: whether they succeed.
abbrev pub is_read : Transfer → Bool
is_read not_accepted = false
is_read broken_off = false
is_read (streamed has_error) = true

-- `resolveRegistryAuth` over `GetAuth`, which answers `none` for an error.
unfoldable pub resolve_registry_auth : (Text → Option Text) → Text → Text
resolve_registry_auth get_auth [] = []
resolve_registry_auth get_auth (c ∷ host) =
    first_key (get_auth (codes "https://" ++ (c ∷ host)))
      (first_key (get_auth (codes "http://" ++ (c ∷ host))) [])
  where
    first_key : Option Text → Text → Text
    first_key none later = later
    first_key (some key) later = if key == [] then later else key

module _ (d : Docker) (get_auth : Text → Option Text) where
  -- The pull, the tag and the push of one image: whether they succeed.
  unfoldable pub sync : RewriteAction → d.Daemon → Bool × d.Daemon
  unfolding origin_host resolve_registry_auth
  sync a s =
      let upstream_auth = resolve_registry_auth get_auth (origin_host a.original) in
      let cache_auth = resolve_registry_auth get_auth (origin_host a.rewritten) in
      let (pulls, s1) = d.pull_image a.original upstream_auth s in
      let (tags, s2) = d.tag_image a.original a.rewritten s1 in
      let (pushes, s3) = d.push_image a.rewritten cache_auth s2 in
      if not (is_read pulls)
      then (false, s1)
      else if not tags
      then (false, s2)
      else (is_read pushes, s3)

  -- Whether an image needs no transfer, and what is noted of it.
  abbrev pub spared : Bool → RewriteAction → d.Daemon → Option Outcome
  spared pull_images a s =
      if a.rewritten == []
      then some no_rewrite
      else if equal_fold a.original a.rewritten
      then some skipped_local_ref
      else if not pull_images && d.has_image a.rewritten s
      then some already_present
      else none

  abbrev pub noted :
      MirrorAction → Bool × List MirrorAction × d.Daemon → Bool × List MirrorAction × d.Daemon
  noted e (succeeds, out, s) = (succeeds, e ∷ out, s)

  -- `mirrorActionsToCache`: the loop ends at the first failure.
  unfoldable pub mirror_actions_to_cache :
      Bool → List RewriteAction → d.Daemon → Bool × List MirrorAction × d.Daemon
  unfolding sync
  mirror_actions_to_cache pull_images [] s = (true, [], s)
  mirror_actions_to_cache pull_images (a ∷ actions) s =
      let (done, s1) = sync a s in
      let skipped = mirror_actions_to_cache pull_images actions s in
      let next = mirror_actions_to_cache pull_images actions s1 in
      elim (spared pull_images a s) [
        | some outcome ↦ noted (entry outcome a) skipped
        | none ↦ if done then noted (entry pulled a) next else (false, entry failed a ∷ [], s1)
      ]
