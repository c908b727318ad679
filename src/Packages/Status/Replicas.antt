-- ===== src/Packages/Status/Replicas.antt =====
-- Which pods count: those with the current hash (podsMatchingPackagesHash), of the newest
-- ReplicaSet (currentReplicaSetPods, controllerReplicaSetUID). `groups` is a Go map, whose order of
-- iteration is arbitrary: here it is a list, and the winner does not depend on its order.
pub mod Grouping
pub mod Filed
pub mod Winner
use curity_operator.Prelude.{
  ℕ, String, Bool, false, ◌&&◌, ◌||◌, Option, none, some, List, [], ◌∷◌, ◌++◌, ◌==◌, ltb, nat_eq,
  if◌then◌else◌, is_some, select, str_ltb,
}
use curity_operator.Kube.{OwnerReference, Pod, value_of}
use curity_operator.Packages.Status.Classify.{annotation_packages_hash}

unfoldable pub pods_matching_packages_hash : List Pod → String → List Pod
pods_matching_packages_hash pods expected_hash =
    if expected_hash == ""
    then []
    else select (λ p. value_of annotation_packages_hash p.annotations == expected_hash) pods

abbrev is_controller : Option Bool → Bool
is_controller none = false
is_controller (some b) = b

unfoldable pub controller_replica_set_uid : List OwnerReference → Option String
controller_replica_set_uid [] = none
controller_replica_set_uid (ref ∷ refs) =
    let rest = controller_replica_set_uid refs in
    if ref.kind == "ReplicaSet" && is_controller ref.controller then some ref.uid else rest

-- The struct `group` of currentReplicaSetPods.
pub record Group : Type 0 where
  pub pods : List Pod
  pub newest : ℕ
  pub got_uid : String

abbrev add_to : Pod → Group → Group
add_to p g = record {
  pods = g.pods ++ p ∷ [];
  newest = if ltb g.newest p.creation_timestamp then p.creation_timestamp else g.newest;
  got_uid = g.got_uid;
}

-- `groups[rsUID]`, made where it is missing, with the pod appended.
unfoldable pub add_pod : String → Pod → List Group → List Group
add_pod uid p [] = add_to p (record { pods = []; newest = 0; got_uid = uid }) ∷ []
add_pod uid p (g ∷ groups) =
    let rest = g ∷ add_pod uid p groups in if g.got_uid == uid then add_to p g ∷ groups else rest

-- The ReplicaSet under which the loop files a pod, if it does.
unfoldable pub filed_under : Pod → Option String
filed_under p =
    if is_some p.deletion_timestamp then none else controller_replica_set_uid p.owner_references

abbrev pub file_pod : Option String → Pod → List Group → List Group
file_pod none p groups = groups
file_pod (some uid) p groups = add_pod uid p groups

unfoldable pub group_pods : List Group → List Pod → List Group
group_pods groups [] = groups
group_pods groups (p ∷ pods) = group_pods (file_pod (filed_under p) p groups) pods

-- The two cases in which a group replaces the winner so far.
unfoldable pub beats : Group → Group → Bool
beats g winner =
    ltb winner.newest g.newest || nat_eq g.newest winner.newest && str_ltb g.got_uid winner.got_uid

abbrev pub choose : Option Group → Group → Option Group
choose none g = some g
choose (some winner) g = if beats g winner then some g else some winner

unfoldable pub pick_winner : Option Group → List Group → Option Group
pick_winner winner [] = winner
pick_winner winner (g ∷ groups) = pick_winner (choose winner g) groups

abbrev pub pods_of : Option Group → List Pod
pods_of none = []
pods_of (some g) = g.pods

unfoldable pub current_replica_set_pods : List Pod → List Pod
current_replica_set_pods pods = pods_of (pick_winner none (group_pods [] pods))
