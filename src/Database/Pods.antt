-- ===== src/Database/Pods.antt =====
-- identityserverdatabase_reconciler.go: why the pod of the Job does not start.
use curity_operator.Prelude.{
  ℕ, String, Bool, not, ◌&&◌, ◌||◌, Option, none, some, List, [], ◌∷◌, ◌==◌, ltb, nat_eq,
  if◌then◌else◌, is_some, any, select, sprint, itoa, str_ltb,
}
use curity_operator.Kube.{Pod, PodCondition, ContainerStatus, Waiting, Terminated}
use curity_operator.Prelude.Int.{pos, eq_ℤ}
use curity_operator.Config.Scope.{trim_space}
use curity_operator.Messages.{truncate_message}
use curity_operator.Predicates.Containers.{database_container_name}
use curity_operator.Database.{JobEvent}

abbrev newer : Pod → Pod → Bool
newer p winner =
    ltb winner.creation_timestamp p.creation_timestamp
    || (nat_eq p.creation_timestamp winner.creation_timestamp && str_ltb winner.name p.name)

abbrev pub newest_from : Pod → List Pod → Pod
newest_from winner [] = winner
newest_from winner (p ∷ pods) = newest_from (if newer p winner then p else winner) pods

unfoldable pub most_recent_pod : List Pod → Option Pod
most_recent_pod [] = none
most_recent_pod (p ∷ pods) = some (newest_from p pods)

unfoldable pub termination_detail : Option Terminated → String
termination_detail none = "container terminated"
termination_detail (some t) =
    if not (t.message == "")
    then sprint (trim_space t.message ∷ " (exit " ∷ itoa t.exit_code ∷ ")" ∷ [])
    else if not (t.reason == "")
    then sprint (t.reason ∷ " (exit " ∷ itoa t.exit_code ∷ ")" ∷ [])
    else sprint ("exit " ∷ itoa t.exit_code ∷ [])

abbrev short : String → String → String
short what message = truncate_message (sprint (what ∷ message ∷ [])) 256

-- "" where no condition says that the pod cannot be scheduled.
abbrev pub unschedulable : List PodCondition → Option String
unschedulable [] = none
unschedulable (c ∷ conditions) =
    if c.type == "PodScheduled" && c.status == "False" && c.reason == "Unschedulable"
    then some (short "pod cannot be scheduled: " c.message)
    else unschedulable conditions

abbrev pub waiting_cause : Option Waiting → Option Terminated → Option String
waiting_cause none last = none
waiting_cause (some w) last =
    if any (λ r. r == w.reason) ("ImagePullBackOff" ∷ "ErrImagePull" ∷ "InvalidImageName" ∷ [])
    then some (short "image pull failed: " w.message)
    else if w.reason == "CreateContainerConfigError"
    then some (short "container config error: " w.message)
    else if w.reason == "CrashLoopBackOff"
    then some (short "container crash-looping: " (termination_detail last))
    else none

abbrev pub exit_cause : Option Terminated → Option String
exit_cause none = none
exit_cause (some t) =
    if eq_ℤ t.exit_code (pos 0)
    then none
    else some (short "container failed: " (termination_detail (some t)))

abbrev pub or_later : Option String → Option String → Option String
or_later none later = later
or_later (some s) later = some s

abbrev pub container_cause : List ContainerStatus → Option String
container_cause [] = none
container_cause (cs ∷ statuses) =
    let rest = container_cause statuses in
    if not (cs.name == database_container_name)
    then rest
    else or_later (waiting_cause cs.state.waiting cs.last_termination_state.terminated)
        (or_later (exit_cause cs.state.terminated) rest)

abbrev pub pod_cause : Pod → Option String
pod_cause pod =
    if is_some pod.deletion_timestamp
    then none
    else or_later (if pod.phase == "Pending" then unschedulable pod.conditions else none)
        (container_cause pod.container_statuses)

-- `none` is "", nothing wrong.
unfoldable pub translate_database_init_pod : List Pod → Option String
translate_database_init_pod pods = elim (most_recent_pod pods) [
  | none ↦ none
  | some p ↦ pod_cause p
]

abbrev stamp : JobEvent → ℕ
stamp e = if nat_eq e.last_timestamp 0 then e.event_time else e.last_timestamp

abbrev pub newest_event : Option JobEvent → List JobEvent → Option JobEvent
newest_event newest [] = newest
newest_event none (e ∷ events) = newest_event (some e) events
newest_event (some n) (e ∷ events) =
    newest_event (some (if ltb (stamp n) (stamp e) then e else n)) events

unfoldable pub latest_job_failed_create_message : String → List JobEvent → String
latest_job_failed_create_message uid events =
    elim (newest_event none (select (λ e. e.involved_uid == uid) events)) [
      | none ↦ ""
      | some e ↦ e.message
    ]
