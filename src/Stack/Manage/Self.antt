-- ===== src/Stack/Manage/Self.antt =====
-- misc/self.go: the container that the program runs in, and whether a deploy of a stack would replace it.
use swirl_evo.Common.{
  Bool, true, false, ◌==◌, List, [], ◌∷◌, ◌++◌, any, length, ltb, Option, none, some, Text, codes,
  trim_space, to_lower, text_eq, if◌then◌else◌,
}
use swirl_evo.Docker.{Docker, Summary}
use swirl_evo.Host.{has_prefix}

-- `SelfContainerID` of the variable, what the file of control groups tells, and the host's name.
unfoldable pub self_container_id : Text → Option Text → Option Text → Option Text
self_container_id variable cgroup hostname =
    let named : Option Text = elim hostname [
      | none ↦ none
      | some h ↦ if h == [] then none else some h
    ] in
    let told : Option Text = elim cgroup [ none ↦ named | some id ↦ some id ] in
    if trim_space variable == [] then told else some (trim_space variable)

abbrev pub same_container : Text → Text → Bool
same_container self other =
    if self == other
    then true
    else if ltb (length other) (length self)
    then has_prefix other self
    else has_prefix self other

-- `ContainerIDMatchesSelf`.
unfoldable pub container_id_matches_self : Option Text → Text → Bool
container_id_matches_self none other = false
container_id_matches_self (some self) other =
    if self == []
    then false
    else if other == []
    then false
    else same_container (to_lower (trim_space self)) (to_lower (trim_space other))

-- The names to inspect: each service's own and the one that the engine gives it.
abbrev pub candidate_names : Text → List (Text × Text) → List Text
candidate_names project [] = []
candidate_names project ((container_name, name) ∷ services) =
    let default = project ++ (codes "_" ++ (name ++ codes "_1")) in
    let rest = default ∷ candidate_names project services in
    if container_name == [] then rest else container_name ∷ rest

abbrev pub matches_found : Option Text → Option Text → Bool
matches_found self none = false
matches_found self (some id) = container_id_matches_self self id

abbrev pub any_listed : Option Text → Option (List Summary) → Bool
any_listed self none = false
any_listed self (some l) = any (λ (c : Summary). container_id_matches_self self c.id) l

-- `checkSelfDeploy` of the services that the file has: whether it refuses.
unfoldable pub check_self_deploy :
    (d : Docker) → Option Text → Text → Option (List (Text × Text)) → d.Daemon → Bool
check_self_deploy d self project none s = false
check_self_deploy d self project (some services) s =
    if any_listed self (d.list project s)
    then true
    else any (λ n. matches_found self (d.container_id n s)) (candidate_names project services)
