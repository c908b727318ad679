-- ===== src/Witnesses/Errors.antt =====
-- Inputs for the theorems on rejected writes and on failing containers.
use curity_operator.Prelude.{String, ◌≡◌, refl, true, false, none, some, [], ◌∷◌}
use curity_operator.Prelude.Int.{pos}
use curity_operator.Kube.{Pod}
use curity_operator.Permanent.{
  WriteError, Reported, updated, conflict, handle_permanent_write_error,
}
use curity_operator.Permanent.Quiet.{IsQuiet, handle_permanent_write_error-IsQuiet}
use curity_operator.Messages.{
  summarize_termination_message, scan_lines, split_lines, contains, cut_colon,
  is_java_throwable_name, humanize_java_message, truncate_message,
}
use curity_operator.Config.Scope.{trim_space}
use curity_operator.Failures.{normalize_image_pull_reason, container_failure_state_differs}
use curity_operator.Failures.Signature.{container_failure_state_differs-essence}
use curity_operator.Witnesses.Meta.{meta}

abbrev rejection : WriteError
rejection = record {
  is_invalid = true;
  is_forbidden = false;
  is_admin_creds_secret_missing = false;
  status_error = some (record { details_kind = some "Deployment"; message = "bad port" });
}

abbrev fresh : Reported
fresh = record { generation = 4; observed_generation = 3; conditions = [] }

handle_permanent_write_error-IsQuiet_example :
    let out = handle_permanent_write_error meta conflict rejection fresh in
    IsQuiet out.object (handle_permanent_write_error meta updated rejection out.object)
    × (out.handled ≡ true)
handle_permanent_write_error-IsQuiet_example =
    handle_permanent_write_error-IsQuiet meta conflict updated rejection fresh

-- A pod whose only container cannot get its image.
abbrev pulling : String → String → Pod
pulling reason message = record {
  name = "pod";
  creation_timestamp = 1;
  deletion_timestamp = none;
  labels = [];
  annotations = [];
  owner_references = [];
  phase = "Pending";
  conditions = [];
  init_container_statuses = [];
  container_statuses =
      record {
        name = "main";
        image = "idsvr";
        restart_count = pos 0;
        state = record {
          waiting = some (record { reason = reason; message = message });
          running = false;
          terminated = none;
        };
        last_termination_state = record { waiting = none; running = false; terminated = none };
      }
      ∷ [];
}

container_failure_state_differs-essence_example :
    container_failure_state_differs
      (pulling "ErrImagePull" "not found")
      (pulling "ImagePullBackOff" "back-off 10s")
    ≡ false
unfolding normalize_image_pull_reason
container_failure_state_differs-essence_example =
    container_failure_state_differs-essence (pulling "ErrImagePull" "not found")
      (pulling "ImagePullBackOff" "back-off 10s") refl refl

-- The root cause of a Java stack trace, without the throwable's class.
root_cause :
    summarize_termination_message
      "java.lang.IllegalStateException: top\n\tat a.B.c\nCaused by: java.io.IOException: no file\n"
    ≡ "no file"
unfolding summarize_termination_message scan_lines split_lines trim_space contains cut_colon
    is_java_throwable_name humanize_java_message truncate_message
root_cause = refl
