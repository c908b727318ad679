-- ===== src/Permanent.antt =====
-- permanent_error.go: what the operator reports where the API server rejects a write for good, or an
-- administrator's Secret is missing. The tests of k8s.io/apimachinery/pkg/api/errors on an error are
-- the fields of WriteError; what the status update answers is an argument.
pub mod Quiet
use curity_operator.Prelude.{
  ℕ, ◌-◌, String, Bool, true, false, not, ◌||◌, Option, none, some, List, [], ◌∷◌, ◌==◌, leb,
  if◌then◌else◌, sprint, format_nat, quote,
}
use Prim.Native.String
use Prim.Native.String.{len, slice}
use curity_operator.Api.{
  ApiMeta, Condition, yes_status, no_status, condition_ready, condition_degraded,
  condition_cluster_config_ready, reason_invalid_spec, reason_admin_creds_secret_missing,
}

-- A metav1.Status: the kind of its details, if it has them, and its message.
pub record StatusError : Type 0 where
  pub details_kind : Option String
  pub message : String

pub record WriteError : Type 0 where
  pub is_invalid : Bool
  pub is_forbidden : Bool
  pub is_admin_creds_secret_missing : Bool
  pub status_error : Option StatusError

-- What `r.Status().Update` answers.
pub data UpdateAnswer : Type 0 where
  updated : UpdateAnswer
  conflict : UpdateAnswer
  update_failed : (error : String) → UpdateAnswer

pub data CtrlResult : Type 0 where
  nothing : CtrlResult
  requeue : CtrlResult
  requeue_after : (minutes : ℕ) → CtrlResult

-- What the handlers use of a node or a cluster.
pub record Reported : Type 0 where
  pub generation : ℕ
  pub observed_generation : ℕ
  pub conditions : List Condition

-- A Warning: its reason and message.
abbrev pub Event : Type 0
Event = String × String

-- The three results of a handler, the object after it, and what it did: whether it asked for a status
-- update, and the events that it recorded.
pub record Response : Type 0 where
  pub object : Reported
  pub result : CtrlResult
  pub handled : Bool
  pub error : Option String
  pub asked_update : Bool
  pub events : List Event

abbrev replica_failure_message_max_len : ℕ
replica_failure_message_max_len = 4096

unfoldable pub truncate_replica_failure_message : String → String
truncate_replica_failure_message s =
    if leb (len s) replica_failure_message_max_len
    then s
    else sprint (
        slice s 0 replica_failure_message_max_len
        ∷ "... (truncated, "
        ∷ format_nat (len s - replica_failure_message_max_len)
        ∷ " more bytes; see `kubectl describe deployment` for the full text)"
        ∷ [])

abbrev kind_or_resource : Option String → String
kind_or_resource none = "Resource"
kind_or_resource (some kind) = if kind == "" then "Resource" else kind

abbrev status_parts : Option StatusError → Option (String × String)
status_parts none = none
status_parts (some s) =
    some (kind_or_resource s.details_kind, truncate_replica_failure_message s.message)

-- (kind, apiMsg), or `none` where ok is false.
unfoldable pub extract_invalid : WriteError → Option (String × String)
extract_invalid e = if not e.is_invalid then none else status_parts e.status_error

abbrev unhandled : Reported → Response
unhandled o = record {
  object = o;
  result = nothing;
  handled = false;
  error = none;
  asked_update = false;
  events = [];
}

module _ (m : ApiMeta) where
  open m use {set_status_condition}

  -- The status update and the event behind it. `changed` is whether a condition changed, `quiet` the
  -- result where nothing fails, `what` the text before an error.
  unfoldable pub commit :
      UpdateAnswer → Bool → CtrlResult → String → Event → Reported → List Condition → Response
  commit answer false quiet what event o conditions = record {
    object = record {
      generation = o.generation;
      observed_generation = o.observed_generation;
      conditions = conditions;
    };
    result = quiet;
    handled = true;
    error = none;
    asked_update = false;
    events = [];
  }
  commit answer true quiet what event o conditions =
      let object : Reported = record {
        generation = o.generation;
        observed_generation = o.generation;
        conditions = conditions;
      } in
      elim answer [
        | updated ↦ record {
          object = object;
          result = quiet;
          handled = true;
          error = none;
          asked_update = true;
          events = event ∷ [];
        }
        | conflict ↦ record {
          object = object;
          result = requeue;
          handled = true;
          error = none;
          asked_update = true;
          events = [];
        }
        | update_failed error ↦ record {
          object = object;
          result = nothing;
          handled = true;
          error = some (sprint (what ∷ error ∷ []));
          asked_update = true;
          events = [];
        }
      ]

  -- Degraded and Ready are set with one reason, Degraded first.
  unfoldable pub report_degraded :
      UpdateAnswer → String → String → String → String → Reported → Response
  report_degraded answer reason degraded_message ready_message what o =
      let (cs, deg_changed) = set_status_condition o.conditions (record {
        type = condition_degraded;
        status = yes_status;
        reason = reason;
        message = degraded_message;
        observed_generation = o.generation;
      }) in
      let (cs', ready_changed) = set_status_condition cs (record {
        type = condition_ready;
        status = no_status;
        reason = reason;
        message = ready_message;
        observed_generation = o.generation;
      }) in
      commit answer (deg_changed || ready_changed) nothing what (reason, degraded_message) o cs'

  unfoldable pub handle_extracted : UpdateAnswer → Option (String × String) → Reported → Response
  handle_extracted answer none o = unhandled o
  handle_extracted answer (some (kind, api_msg)) o =
      report_degraded answer reason_invalid_spec
        (sprint (kind ∷ " rejected by apiserver: " ∷ api_msg ∷ []))
        (sprint (kind ∷ " is invalid; see Degraded condition" ∷ []))
        (sprint ("updating status after invalid " ∷ kind ∷ ": " ∷ [])) o

  -- handlePermanentWriteError of the node reconciler and of the cluster reconciler.
  unfoldable pub handle_permanent_write_error : UpdateAnswer → WriteError → Reported → Response
  handle_permanent_write_error answer e o = handle_extracted answer (extract_invalid e) o

  unfoldable pub deny_admission : UpdateAnswer → StatusError → Reported → Response
  deny_admission answer s o =
      let message =
        sprint
          ("genclust pod admission denied: " ∷ truncate_replica_failure_message s.message ∷ []) in
      let (cs, changed) = set_status_condition o.conditions (record {
        type = condition_cluster_config_ready;
        status = no_status;
        reason = "JobPodAdmissionForbidden";
        message = message;
        observed_generation = o.generation;
      }) in
      commit answer changed (requeue_after 5) "updating status after admission denied: "
        ("JobPodAdmissionForbidden", message) o cs

  unfoldable pub handle_admission_forbidden : UpdateAnswer → WriteError → Reported → Response
  handle_admission_forbidden answer e o =
      if not e.is_forbidden
      then unhandled o
      else elim e.status_error [ none ↦ unhandled o | some s ↦ deny_admission answer s o ]

  -- `name` is cluster.Spec.AdminCredentials.ValueFrom.SecretKeyRef.Name.
  unfoldable pub handle_admin_creds_secret_missing :
      String → UpdateAnswer → WriteError → Reported → Response
  handle_admin_creds_secret_missing name answer e o =
      if not e.is_admin_creds_secret_missing
      then unhandled o
      else report_degraded answer reason_admin_creds_secret_missing
          (sprint (
            "adminCredentials Secret "
            ∷ quote name
            ∷ " does not exist; waiting for it to be created"
            ∷ []))
          "admin credentials Secret is missing; see Degraded condition"
          "updating status for missing admin-creds Secret: " o
