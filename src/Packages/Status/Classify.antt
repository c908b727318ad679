-- ===== src/Packages/Status/Classify.antt =====
-- How the status of one init container is classified (classifyInitContainer, classifyWaitingState,
-- classifyTerminatedState), which failures a Secret can mend (isRecoverableSecretFailure), and
-- which pods are deleted to recover (failingPackagePodFilter). A result (reason, detail, ok) is an
-- option: where ok is false, the code returns two empty texts.
use curity_operator.Prelude.{
  String, ◌≡◌, refl, Bool, true, false, not, ◌&&◌, ◌||◌, Option, none, some, [], ◌∷◌, arith, ◌==◌,
  starts_with, if◌then◌else◌, is_some, any, sprint, itoa,
}
use curity_operator.Kube.{Waiting, Terminated, ContainerStatus, Pod, value_of}
use curity_operator.Api.{
  reason_package_invalid_archive, reason_package_http_error, reason_package_fetch_failed,
  reason_package_client_cert_invalid, reason_package_secret_key_missing,
  reason_package_image_pull_failed, reason_package_tls_verify_failed, reason_package_secret_missing,
  Condition, is_false,
}
use curity_operator.Prelude.Int.{ℤ, pos, eq_ℤ, ltb_ℤ}

abbrev pub package_fetch_prefix : String
package_fetch_prefix = "package-fetch-"

abbrev pub annotation_packages_hash : String
annotation_packages_hash = "curity.io/packages-hash"

abbrev pub label_managed_by : String
label_managed_by = "app.kubernetes.io/managed-by"

abbrev pub managed_by_operator : String
managed_by_operator = "curity-operator"

-- A reason and a detail.
abbrev pub Failure : Type 0
Failure = String × String

unfoldable pub classify_waiting : Waiting → Option Failure
classify_waiting w =
    if w.reason == "CreateContainerConfigError"
    then if starts_with w.message "secret \""
      then some (reason_package_secret_missing, w.message)
      else if starts_with w.message "couldn't find key"
      then some (reason_package_secret_key_missing, w.message)
      else some
          (reason_package_fetch_failed, sprint ("CreateContainerConfigError: " ∷ w.message ∷ []))
    else if w.reason == "ImagePullBackOff" || w.reason == "ErrImagePull"
    then some (reason_package_image_pull_failed, sprint (w.reason ∷ ": " ∷ w.message ∷ []))
    else none

unfoldable pub classify_waiting_state : Option Waiting → Option Failure
classify_waiting_state none = none
classify_waiting_state (some w) = classify_waiting w

abbrev exited : ℤ → String → String
exited code what = sprint ("exited " ∷ itoa code ∷ what ∷ [])

unfoldable pub classify_exit : ℤ → Option Failure
classify_exit code =
    if eq_ℤ code (pos 0)
    then none
    else if eq_ℤ code (pos 60)
    then some (reason_package_tls_verify_failed, exited code " (TLS verify failed)")
    else if eq_ℤ code (pos 58) || eq_ℤ code (pos 82)
    then some (reason_package_client_cert_invalid, exited code " (client cert / TLS engine error)")
    else if eq_ℤ code (pos 22)
    then some (reason_package_http_error, exited code " (HTTP 4xx/5xx)")
    else if eq_ℤ code (pos 100)
    then some (
      reason_package_invalid_archive,
      exited code " (unzip failed; downloaded artifact is not a valid ZIP)",
    )
    else some (reason_package_fetch_failed, exited code "")

unfoldable pub classify_terminated_state : Option Terminated → Option Failure
classify_terminated_state none = none
classify_terminated_state (some t) = classify_exit t.exit_code

abbrev or_else : Option Failure → Option Failure → Option Failure
or_else none later = later
or_else (some f) later = some f

unfoldable pub classify_init_container : ContainerStatus → Option Failure
classify_init_container ics = or_else (classify_waiting_state ics.state.waiting) (
    or_else (classify_terminated_state ics.state.terminated) (
      if ltb_ℤ (pos 0) ics.restart_count
      then classify_terminated_state ics.last_termination_state.terminated
      else none))

unfoldable pub is_recoverable_reason : String → Bool
is_recoverable_reason reason =
    any (λ r. r == reason)
      (reason_package_secret_missing ∷ reason_package_secret_key_missing ∷ reason_package_http_error
        ∷ reason_package_tls_verify_failed ∷ reason_package_client_cert_invalid
        ∷ reason_package_fetch_failed ∷ reason_package_invalid_archive ∷ [])

unfoldable pub is_recoverable_secret_failure : Option Condition → Bool
is_recoverable_secret_failure none = false
is_recoverable_secret_failure (some c) =
    if not (is_false c.status) then false else is_recoverable_reason c.reason

-- The test that the loop of failingPackagePodFilter makes of each init container.
unfoldable pub is_failing_fetch : ContainerStatus → Bool
is_failing_fetch ics =
    starts_with ics.name package_fetch_prefix && is_some (classify_init_container ics)

unfoldable pub failing_package_pod_filter : Pod → String → Bool
failing_package_pod_filter pod expected_hash =
    if is_some pod.deletion_timestamp
    then false
    else if not (value_of label_managed_by pod.labels == managed_by_operator)
    then false
    else if not (value_of annotation_packages_hash pod.annotations == expected_hash)
    then false
    else any is_failing_fetch pod.init_container_statuses

abbrev leb_Bool : Bool → Bool → Bool
leb_Bool a b = not a || b

-- Whether a Secret can mend a classified failure, as far as its reason tells.
abbrev mends : Option Failure → Bool
mends none = true
mends (some (reason, detail)) =
    leb_Bool (is_recoverable_reason reason) (not (reason == reason_package_image_pull_failed))
    && leb_Bool (not (reason == reason_package_image_pull_failed)) (is_recoverable_reason reason)

mends-if :
    (c : Bool) (x y : Option Failure)
    → mends x ≡ true
    → mends y ≡ true
    → mends (if c then x else y) ≡ true
mends-if true x y hx hy = hx
mends-if false x y hx hy = hy

mends-or_else :
    (x y : Option Failure) → mends x ≡ true → mends y ≡ true → mends (or_else x y) ≡ true
mends-or_else none y hx hy = hy
mends-or_else (some f) y hx hy = hx

mends-waiting : (w : Option Waiting) → mends (classify_waiting_state w) ≡ true
unfolding classify_waiting_state classify_waiting is_recoverable_reason
mends-waiting none = refl
mends-waiting (some w) = search mends-if

mends-terminated : (t : Option Terminated) → mends (classify_terminated_state t) ≡ true
unfolding classify_terminated_state classify_exit is_recoverable_reason
mends-terminated none = refl
mends-terminated (some t) = search mends-if

mends-classify : (ics : ContainerStatus) → mends (classify_init_container ics) ≡ true
unfolding classify_init_container
mends-classify ics = search (mends-or_else, mends-if, mends-waiting, mends-terminated)

-- Whatever failure an init container is classified as, the failure counts as one that a Secret can
-- mend exactly when its reason is not that of a failure to pull the image.
pub classify_init_container-recoverable :
    (ics : ContainerStatus) (reason detail : String)
    → classify_init_container ics ≡ some (reason, detail)
    → is_recoverable_reason reason ≡ not (reason == reason_package_image_pull_failed)
classify_init_container-recoverable ics reason detail h =
    let it : mends (some (reason, detail)) ≡ true = cc (h, mends-classify ics) in ground (arith, it)
