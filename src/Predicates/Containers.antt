-- ===== src/Predicates/Containers.antt =====
-- predicates.go: whether the statuses of containers differ between two revisions of a pod.
use curity_operator.Prelude.{
  String, Bool, true, false, not, ◌&&◌, Option, none, some, List, [], ◌∷◌, ◌==◌, starts_with,
  if◌then◌else◌, is_some,
}
use curity_operator.Kube.{Pod, PodCondition, ContainerStatus, ContainerState, Waiting, Terminated}
use curity_operator.Prelude.Int.{eq_ℤ}
use curity_operator.Packages.Status.Classify.{package_fetch_prefix}

abbrev pub database_container_name : String
database_container_name = "idsvr-db-init"

-- The last two cases of equalContainerState, on the two lists of what is set.
abbrev none_set : ContainerState → Bool
none_set s = not (is_some s.waiting) && not s.running && not (is_some s.terminated)

abbrev pub equal_waiting : Option Waiting → Option Waiting → Option Bool
equal_waiting (some a) (some b) = some (a.reason == b.reason && a.message == b.message)
equal_waiting none b = none
equal_waiting (some a) none = none

abbrev pub equal_terminated : Option Terminated → Option Terminated → Option Bool
equal_terminated (some a) (some b) =
    some (eq_ℤ a.exit_code b.exit_code && a.reason == b.reason && a.message == b.message)
equal_terminated none b = none
equal_terminated (some a) none = none

abbrev pub case_of : Option Bool → Bool → Bool
case_of none later = later
case_of (some b) later = b

unfoldable pub equal_container_state : ContainerState → ContainerState → Bool
equal_container_state a b = case_of (equal_waiting a.waiting b.waiting) (
    if a.running && b.running
    then true
    else case_of (equal_terminated a.terminated b.terminated) (none_set a && none_set b))

-- Both arguments are non-nil wherever the code calls it.
unfoldable pub equal_init_container_status : ContainerStatus → ContainerStatus → Bool
equal_init_container_status a b =
    if not (eq_ℤ a.restart_count b.restart_count)
    then false
    else if not (equal_container_state a.state b.state)
    then false
    else equal_container_state a.last_termination_state b.last_termination_state

-- The Go map `out[name] = &statuses[i]`, as its lookup: of equal names the last one stays.
unfoldable pub find_by_name : String → List ContainerStatus → Option ContainerStatus
find_by_name name [] = none
find_by_name name (cs ∷ statuses) =
    let later = find_by_name name statuses in
    if is_some later then later else if cs.name == name then some cs else none

-- A container that has no old status has changed.
abbrev pub status_changed : Option ContainerStatus → ContainerStatus → Bool
status_changed none cs = true
status_changed (some old) cs = not (equal_init_container_status old cs)

unfoldable pub any_status_changed :
    (String → Bool) → List ContainerStatus → List ContainerStatus → Bool
any_status_changed is_watched old [] = false
any_status_changed is_watched old (cs ∷ statuses) =
    let rest = any_status_changed is_watched old statuses in
    if not (is_watched cs.name)
    then rest
    else if status_changed (find_by_name cs.name old) cs
    then true
    else rest

unfoldable pub package_init_container_status_differs : Pod → Pod → Bool
package_init_container_status_differs old_pod new_pod =
    any_status_changed (λ name. starts_with name package_fetch_prefix)
      old_pod.init_container_statuses new_pod.init_container_statuses

unfoldable pub find_pod_condition : List PodCondition → String → Option PodCondition
find_pod_condition [] cond_type = none
find_pod_condition (c ∷ conds) cond_type =
    if c.type == cond_type then some c else find_pod_condition conds cond_type

abbrev equal_scheduled : Option PodCondition → Option PodCondition → Bool
equal_scheduled none none = true
equal_scheduled none (some b) = false
equal_scheduled (some a) none = false
equal_scheduled (some a) (some b) =
    a.status == b.status && a.reason == b.reason && a.message == b.message

unfoldable pub equal_pod_scheduled_condition : List PodCondition → List PodCondition → Bool
equal_pod_scheduled_condition old_conds new_conds =
    equal_scheduled (find_pod_condition old_conds "PodScheduled")
      (find_pod_condition new_conds "PodScheduled")

unfoldable pub cluster_config_pod_status_differs : Pod → Pod → Bool
cluster_config_pod_status_differs old_pod new_pod =
    if not (old_pod.phase == new_pod.phase)
    then true
    else if not (equal_pod_scheduled_condition old_pod.conditions new_pod.conditions)
    then true
    else any_status_changed (λ name. name == "genclust") old_pod.container_statuses
        new_pod.container_statuses

-- The loop of databaseInitPodStatusDiffers, which returns at the first container of the name.
unfoldable pub database_status_changed : List ContainerStatus → List ContainerStatus → Bool
database_status_changed old [] = false
database_status_changed old (cs ∷ statuses) =
    if not (cs.name == database_container_name)
    then database_status_changed old statuses
    else status_changed (find_by_name cs.name old) cs

unfoldable pub database_init_pod_status_differs : Pod → Pod → Bool
database_init_pod_status_differs old_pod new_pod =
    if not (old_pod.phase == new_pod.phase)
    then true
    else if not (equal_pod_scheduled_condition old_pod.conditions new_pod.conditions)
    then true
    else database_status_changed old_pod.container_statuses new_pod.container_statuses
