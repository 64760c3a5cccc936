-- ===== src/Docker.antt =====
-- What the code asks of a Docker daemon, as an interface: the client library of docker/ and
-- cmd/deploy_agent/engine.go is not the repository's own. `Laws` is the documented behaviour that the
-- theorems rely on, for one container with its id and its name.
pub mod Sample
use swirl_evo.Common.{
  ◌||◌, is_prefix, ◌≡◌, ◌≢◌, Bool, true, false, ◌==◌, List, [], ◌∷◌, any, All, Option, none, some,
  Text, codes, trim_prefix, text_eq,
}
use swirl_evo.Common.Int.{ℤ}

-- How a pull or a push of an image ends: not accepted, its stream of messages broken off, or the stream
-- read to its end, with an error among the messages or not.
pub data Transfer : Type 0 where
  not_accepted broken_off : Transfer
  streamed : Bool → Transfer

-- How a call that changes a container ends.
pub data Reply : Type 0 where
  done not_found refused : Reply

-- What `ContainerInspect` finds: the name, with its slash.
pub data Inspected : Type 0 where
  found : Text → Inspected
  no_container inspect_failed : Inspected

-- An entry of `ContainerList`.
pub record Summary : Type 0 where
  pub id : Text
  pub names : List Text
  pub is_running : Bool

-- What `ContainerList` tells of the labels of a container: its project and its service.
pub record Labelled : Type 0 where
  pub project : Text
  pub service : Text
  pub is_running : Bool

-- An entry of `VolumeList`, with the size in `UsageData` where there is one.
pub record Volume : Type 0 where
  pub name : Text
  pub usage : Option ℤ

pub record Docker : Type 1 where
  pub Daemon : Type 0
  pub list : Text → Daemon → Option (List Summary)
  pub inspect : Text → Daemon → Inspected
  pub stop : Text → Daemon → Reply × Daemon
  pub start : Text → Daemon → Reply × Daemon
  -- a forced removal, which takes the anonymous volumes of the container too or leaves them
  pub remove : Bool → Text → Daemon → Reply × Daemon
  pub rename : Text → Text → Daemon → Reply × Daemon
  -- the networks and volumes of a project, and the container of a service
  pub ensure : Daemon → Reply × Daemon
  pub make : Text → Daemon → Reply × Daemon
  -- the containers with a project
  pub labelled : Daemon → Option (List Labelled)
  -- the full id that `ContainerInspect` finds
  pub container_id : Text → Daemon → Option Text
  -- the networks of a project and its managed volumes; the answers to their removals are not read
  pub networks : Text → Daemon → Option (List Text)
  pub remove_network : Text → Daemon → Daemon
  pub volumes : Text → Daemon → Option (List Volume)
  pub remove_volume : Bool → Text → Daemon → Daemon
  -- the helper containers and the volumes with the label of a project's secrets
  pub secret_containers : Text → Daemon → Option (List Text)
  pub secret_volumes : Text → Daemon → Option (List Text)
  -- images: whether one is there, and a pull and a push with the registry's key
  pub has_image : Text → Daemon → Bool
  pub pull_image : Text → Text → Daemon → Transfer × Daemon
  pub tag_image : Text → Text → Daemon → Bool × Daemon
  pub push_image : Text → Text → Daemon → Transfer × Daemon

abbrev pub slash : Text
slash = codes "/"

abbrev pub bare : Text → Text
bare name = trim_prefix slash name

abbrev pub has_name : Text → Summary → Bool
has_name name c = any (λ n. bare n == name) c.names

-- Whether a call can take the reference `r` for the container with the id `i` and the name `n`: the
-- daemon accepts the start of an id, and a name with its slash or without.
abbrev pub means : Text → Text → Text → Bool
means r i n = is_prefix r i || (r == n || bare r == n)

-- A container `i` with a name, which is no other container's id, seen by every call.
pub record Laws (d : Docker) : Type 1 where
  pub Named : Text → Text → d.Daemon → Type 0
  pub Runs : Text → d.Daemon → Type 0
  pub stop-Named : (i n r : Text) (s : d.Daemon) → Named i n s → Named i n (d.stop r s).1
  pub start-Named : (i n r : Text) (s : d.Daemon) → Named i n s → Named i n (d.start r s).1
  pub start-Runs :
      (i n : Text) (s : d.Daemon) → Named i n s → (d.start n s).0 ≡ done → Runs i (d.start n s).1
  pub ensure-Named : (i n : Text) (s : d.Daemon) → Named i n s → Named i n (d.ensure s).1
  pub make-Named : (i n r : Text) (s : d.Daemon) → Named i n s → Named i n (d.make r s).1
  pub remove-Named :
      (i n r : Text) (volumes : Bool) (s : d.Daemon)
      → Named i n s
      → means r i n ≡ false
      → Named i n (d.remove volumes r s).1
  pub rename-Named :
      (i n m : Text) (s : d.Daemon)
      → Named i n s
      → ((d.rename i m s).0 ≡ done → Named i m (d.rename i m s).1)
        × ((d.rename i m s).0 ≢ done → Named i n (d.rename i m s).1)
  pub rename-name-Named :
      (i n m : Text) (s : d.Daemon)
      → Named i n s
      → ((d.rename n m s).0 ≡ done → Named i m (d.rename n m s).1)
        × ((d.rename n m s).0 ≢ done → Named i n (d.rename n m s).1)
  pub remove_network-Named :
      (i n r : Text) (s : d.Daemon) → Named i n s → Named i n (d.remove_network r s)
  -- An entry whose id means the container when a call names it shows the container's name.
  pub list-Named :
      (i n p : Text) (s : d.Daemon) (l : List Summary)
      → Named i n s
      → d.list p s ≡ some l
      → All (λ c. means c.id i n ≡ true → has_name n c ≡ true) l
  pub inspect-Named :
      (i n m : Text) (s : d.Daemon) → Named i n s → d.inspect i s ≡ found m → bare m ≡ n

-- A named volume with data, which is not one of a secret: what the calls leave of it, and what lists
-- show. A removal of a container takes anonymous volumes at most.
pub record VolumeLaws (d : Docker) : Type 1 where
  pub Holds : Text → d.Daemon → Type 0
  pub stop-Holds : (v r : Text) (s : d.Daemon) → Holds v s → Holds v (d.stop r s).1
  pub start-Holds : (v r : Text) (s : d.Daemon) → Holds v s → Holds v (d.start r s).1
  pub ensure-Holds : (v : Text) (s : d.Daemon) → Holds v s → Holds v (d.ensure s).1
  pub make-Holds : (v r : Text) (s : d.Daemon) → Holds v s → Holds v (d.make r s).1
  pub remove-Holds :
      (v r : Text) (volumes : Bool) (s : d.Daemon) → Holds v s → Holds v (d.remove volumes r s).1
  pub pull_image-Holds :
      (v r key : Text) (s : d.Daemon) → Holds v s → Holds v (d.pull_image r key s).1
  pub tag_image-Holds : (v r m : Text) (s : d.Daemon) → Holds v s → Holds v (d.tag_image r m s).1
  pub push_image-Holds :
      (v r key : Text) (s : d.Daemon) → Holds v s → Holds v (d.push_image r key s).1
  pub remove_network-Holds :
      (v r : Text) (s : d.Daemon) → Holds v s → Holds v (d.remove_network r s)
  pub remove_volume-Holds :
      (v r : Text) (force : Bool) (s : d.Daemon)
      → Holds v s
      → r ≢ v
      → Holds v (d.remove_volume force r s)
  pub secret_volumes-Holds :
      (v p : Text) (s : d.Daemon) (l : List Text)
      → Holds v s
      → d.secret_volumes p s ≡ some l
      → All (λ r. r ≢ v) l
