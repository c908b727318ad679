-- ===== src/Failures.antt =====
-- node_pod_failure.go: failures of containers that the conditions of a Deployment do not show.
pub mod Signature
use curity_operator.Prelude.{
  ◌+◌, String, Bool, true, false, not, Option, none, some, List, [], ◌∷◌, ◌++◌, ◌==◌, starts_with,
  if◌then◌else◌, is_some, any, sprint, itoa, quote,
}
use Prim.Native.String
use curity_operator.Kube.{ContainerStatus, Terminated, Waiting, Pod}
use curity_operator.Prelude.Int.{pos, eq_ℤ}
use curity_operator.Config.Scope.{trim_space}
use curity_operator.Messages.{summarize_termination_message, truncate_message}
use curity_operator.Packages.Status.Classify.{package_fetch_prefix}
use curity_operator.Packages.Status.Replicas.{current_replica_set_pods}

-- `failing` false is `none`.
abbrev pub PodFailureResult : Type 0
PodFailureResult = Option String

unfoldable pub normalize_image_pull_reason : String → String
normalize_image_pull_reason reason = if reason == "ErrImagePull" then "ImagePullBackOff" else reason

abbrev pub is_image_reason : String → Bool
is_image_reason reason =
    any (λ r. r == reason)
      ("ImagePullBackOff" ∷ "ErrImagePull" ∷ "ErrImageNeverPull" ∷ "InvalidImageName"
        ∷ "RegistryUnavailable" ∷ [])

abbrev pub is_create_reason : String → Bool
is_create_reason reason =
    any (λ r. r == reason)
      ("CreateContainerConfigError" ∷ "CreateContainerError" ∷ "RunContainerError" ∷ [])

abbrev pub first_of : Option String → Option String → Option String
first_of none later = later
first_of (some d) later = some d

abbrev described : String → String → Option String → Option String
described what name none = none
described what name (some detail) = some (sprint (what ∷ quote name ∷ ": " ∷ detail ∷ []))

unfoldable pub join_reason_detail : String → String → String
join_reason_detail reason msg =
    let trimmed = trim_space msg in
    if trimmed == ""
    then reason
    else sprint (reason ∷ " (" ∷ truncate_message trimmed 200 ∷ ")" ∷ [])

-- The case CrashLoopBackOff.
unfoldable pub crash_loop : Option Terminated → String
crash_loop none = "CrashLoopBackOff"
crash_loop (some t) =
    let d = summarize_termination_message t.message in
    if d == ""
    then sprint ("CrashLoopBackOff (exit " ∷ itoa t.exit_code ∷ ")" ∷ [])
    else sprint ("CrashLoopBackOff (" ∷ d ∷ ")" ∷ [])

unfoldable pub classify_waiting_failure : ContainerStatus → Waiting → Option String
classify_waiting_failure cs w =
    if is_image_reason w.reason
    then some (
        sprint
          (normalize_image_pull_reason w.reason ∷ ": cannot pull image " ∷ quote cs.image ∷ []))
    else if is_create_reason w.reason
    then some (join_reason_detail w.reason w.message)
    else if w.reason == "CrashLoopBackOff"
    then some (crash_loop cs.last_termination_state.terminated)
    else none

unfoldable pub classify_exit_failure : Option Terminated → Option String
classify_exit_failure none = none
classify_exit_failure (some t) =
    let d = summarize_termination_message t.message in
    if eq_ℤ t.exit_code (pos 0)
    then none
    else some (
        sprint ("exited " ∷ itoa t.exit_code ∷ " (" ∷ (if d == "" then t.reason else d) ∷ ")" ∷ []))

abbrev pub waiting_failure : ContainerStatus → Option Waiting → Option String
waiting_failure cs none = none
waiting_failure cs (some w) = classify_waiting_failure cs w

unfoldable pub classify_container_failure : ContainerStatus → Bool → Option String
classify_container_failure cs is_init =
    first_of (waiting_failure cs cs.state.waiting)
      (if is_init then classify_exit_failure cs.state.terminated else none)

unfoldable pub init_failure : List ContainerStatus → PodFailureResult
init_failure [] = none
init_failure (cs ∷ statuses) =
    let rest = init_failure statuses in
    if starts_with cs.name package_fetch_prefix
    then rest
    else first_of (described "init container " cs.name (classify_container_failure cs true)) rest

unfoldable pub main_failure : List ContainerStatus → PodFailureResult
main_failure [] = none
main_failure (cs ∷ statuses) =
    first_of (described "container " cs.name (classify_container_failure cs false))
      (main_failure statuses)

unfoldable pub failure_in : List Pod → PodFailureResult
failure_in [] = none
failure_in (p ∷ pods) =
    first_of (init_failure p.init_container_statuses)
      (first_of (main_failure p.container_statuses) (failure_in pods))

unfoldable pub translate_pod_failure : List Pod → PodFailureResult
translate_pod_failure pods = failure_in (current_replica_set_pods pods)

abbrev pub state_text : Option Waiting → Option Terminated → String
state_text (some w) t = normalize_image_pull_reason w.reason
state_text none none = ""
state_text none (some t) = sprint ("exit" ∷ itoa t.exit_code ∷ [])

-- What the closure `write` appends for one container.
unfoldable pub failure_entry : ContainerStatus → Bool → String
failure_entry cs is_init =
    if not (is_some (classify_container_failure cs is_init))
    then ""
    else sprint (cs.name ∷ "=" ∷ state_text cs.state.waiting cs.state.terminated ∷ ";" ∷ [])

unfoldable pub failure_entries : Bool → List ContainerStatus → String
failure_entries is_init [] = ""
failure_entries is_init (cs ∷ statuses) =
    String.◌++◌ (failure_entry cs is_init) (failure_entries is_init statuses)

unfoldable pub pod_failure_signature : Pod → String
pod_failure_signature pod = sprint (
    failure_entries true pod.init_container_statuses
    ∷ "#"
    ∷ failure_entries false pod.container_statuses
    ∷ [])

unfoldable pub container_failure_state_differs : Pod → Pod → Bool
container_failure_state_differs old new =
    not (pod_failure_signature old == pod_failure_signature new)
