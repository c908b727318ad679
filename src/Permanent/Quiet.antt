-- ===== src/Permanent/Quiet.antt =====
-- A handler that runs again on what it has reported asks for no update and records no event.
use curity_operator.Prelude.{
  ℕ, String, ◌≡◌, refl, ◌∙◌, Bool, true, false, ◌&&◌, ◌||◌, Option, none, some, List, [], ◌∷◌,
  arith, is_some, sprint,
}
use curity_operator.Api.{
  reason_invalid_spec, ApiMeta, Condition, yes_status, no_status, condition_ready,
  condition_degraded,
}
use curity_operator.Permanent.{
  Reported, Response, UpdateAnswer, updated, conflict, update_failed, WriteError, CtrlResult,
  nothing, commit, report_degraded, extract_invalid, handle_extracted, handle_permanent_write_error,
  Event,
}

-- The outcome does nothing: no update and no event, and the object is as before.
abbrev pub IsQuiet : Reported → Response → Type 0
IsQuiet o out =
    (out.asked_update ≡ false) × (out.events ≡ []) × (out.error ≡ none) × (out.object ≡ o)

is_some-extract_invalid :
    (e : WriteError) → is_some (extract_invalid e) ≡ e.is_invalid && is_some e.status_error
unfolding extract_invalid
is_some-extract_invalid e = ground arith

module _ (m : ApiMeta) where
  open m use {set_status_condition, find_status_condition}

  -- What commit leaves of an object, whatever the update answers.
  commit-conditions :
      (answer : UpdateAnswer) (changed : Bool) (quiet : CtrlResult) (what : String) (event : Event)
      (o : Reported) (cs : List Condition)
      → ((commit m answer changed quiet what event o cs).object.conditions ≡ cs)
        × ((commit m answer changed quiet what event o cs).object.generation ≡ o.generation)
        × ((commit m answer changed quiet what event o cs).handled ≡ true)
  unfolding commit
  commit-conditions answer false quiet what event o cs = (refl, refl, refl)
  commit-conditions updated true quiet what event o cs = (refl, refl, refl)
  commit-conditions conflict true quiet what event o cs = (refl, refl, refl)
  commit-conditions (update_failed e) true quiet what event o cs = (refl, refl, refl)

  set_twice :
      (cs : List Condition) (c : Condition)
      → find_status_condition cs c.type ≡ some c
      → set_status_condition cs c ≡ (cs, false)
  set_twice cs c h = cc (m.set_present cs c h, m.set_unchanged cs c (m.set_present cs c h))

  abbrev deg_condition : String → String → ℕ → Condition
  deg_condition reason message generation = record {
    type = condition_degraded;
    status = yes_status;
    reason = reason;
    message = message;
    observed_generation = generation;
  }

  abbrev unready_condition : String → String → ℕ → Condition
  unready_condition reason message generation = record {
    type = condition_ready;
    status = no_status;
    reason = reason;
    message = message;
    observed_generation = generation;
  }

  -- Both conditions are in the object, for its generation.
  abbrev HasReport : String → String → String → Reported → Type 0
  HasReport reason degraded_message ready_message o =
      (find_status_condition o.conditions condition_degraded
        ≡ some (deg_condition reason degraded_message o.generation))
      × (find_status_condition o.conditions condition_ready
          ≡ some (unready_condition reason ready_message o.generation))

  reported_again :
      (answer : UpdateAnswer) (reason degraded_message ready_message what : String) (o : Reported)
      → HasReport reason degraded_message ready_message o
      → IsQuiet o (report_degraded m answer reason degraded_message ready_message what o)
  unfolding report_degraded commit
  reported_again answer reason degraded_message ready_message what o h =
      let deg = set_twice o.conditions (deg_condition reason degraded_message o.generation) h.0 in
      let ready =
        set_twice o.conditions (unready_condition reason ready_message o.generation) h.1 in
      rw (deg, ready) (refl, refl, refl, refl)

  report-HasReport :
      (answer : UpdateAnswer) (reason degraded_message ready_message what : String) (o : Reported)
      → HasReport reason degraded_message ready_message
          (report_degraded m answer reason degraded_message ready_message what o).object
        × ((report_degraded m answer reason degraded_message ready_message what o).handled ≡ true)
  unfolding report_degraded
  report-HasReport answer reason degraded_message ready_message what o =
      let deg = deg_condition reason degraded_message o.generation in
      let ready = unready_condition reason ready_message o.generation in
      let first = set_status_condition o.conditions deg in
      let second = set_status_condition first.0 ready in
      let (conditions, generation, handled) =
        commit-conditions answer (first.1 || second.1) nothing what (reason, degraded_message) o
          second.0 in
      rw (conditions, generation)
        (
          (
            m.find-set first.0 ready condition_degraded
                ∙ m.find-set o.conditions deg condition_degraded,
            m.find-set first.0 ready condition_ready,
          ),
          handled,
        )

  extracted-IsQuiet :
      (answer answer' : UpdateAnswer) (x : Option (String × String)) (o : Reported)
      → let out = handle_extracted m answer x o in
        IsQuiet out.object (handle_extracted m answer' x out.object) × (out.handled ≡ is_some x)
  unfolding handle_extracted
  extracted-IsQuiet answer answer' none o = ((refl, refl, refl, refl), refl)
  extracted-IsQuiet answer answer' (some (kind, api_msg)) o =
      let degraded_message = sprint (kind ∷ " rejected by apiserver: " ∷ api_msg ∷ []) in
      let ready_message = sprint (kind ∷ " is invalid; see Degraded condition" ∷ []) in
      let what = sprint ("updating status after invalid " ∷ kind ∷ ": " ∷ []) in
      let (reported, handled) =
        report-HasReport answer reason_invalid_spec degraded_message ready_message what o in
      (
        reported_again answer' reason_invalid_spec degraded_message ready_message what _ reported,
        handled,
      )

  -- Where a write was rejected for good and the handler has reported it, in the object that it left,
  -- the handler does nothing more when the same error comes again: it asks for no status update,
  -- records no event and leaves the object, whatever the two status updates answer. It handles an
  -- error exactly if that error is a rejection with a status.
  pub handle_permanent_write_error-IsQuiet :
      (answer answer' : UpdateAnswer) (e : WriteError) (o : Reported)
      → let out = handle_permanent_write_error m answer e o in
        IsQuiet out.object (handle_permanent_write_error m answer' e out.object)
        × (out.handled ≡ e.is_invalid && is_some e.status_error)
  unfolding handle_permanent_write_error
  handle_permanent_write_error-IsQuiet answer answer' e o =
      let (quiet, handled) = extracted-IsQuiet answer answer' (extract_invalid e) o in
      (quiet, handled ∙ is_some-extract_invalid e)
