-- ===== src/Failures/Signature.antt =====
-- The signature that the watch on pods compares does not depend on what kubelet writes in messages.
use curity_operator.Prelude.{
  String, ◌≡◌, refl, sym, ◌∙◌, inl, inr, Bool, true, false, not, ◌&&◌, ◌||◌, Option, none, some,
  List, [], ◌∷◌, map, arith, ◌==◌, eq_iff, eq_refl, if◌then◌else◌, Bool-cases, is_some, sprint,
  itoa,
}
use curity_operator.Kube.{ContainerStatus, Terminated, Waiting, Pod}
use curity_operator.Prelude.Int.{ℤ, pos, eq_ℤ}
use Prim.Native.String
use curity_operator.Failures.{
  first_of, waiting_failure, state_text, classify_container_failure, classify_waiting_failure,
  classify_exit_failure, failure_entry, failure_entries, pod_failure_signature,
  container_failure_state_differs, normalize_image_pull_reason, is_image_reason, is_create_reason,
}

-- A waiting reason as the signature has it: ErrImagePull reads as ImagePullBackOff.
abbrev pub reason_of : Option Waiting → Option String
reason_of none = none
reason_of (some w) = some (normalize_image_pull_reason w.reason)

abbrev pub exit_of : Option Terminated → Option ℤ
exit_of none = none
exit_of (some t) = some t.exit_code

-- What the signature may read of a container: its name, why it waits and how it ended; no message, no
-- image, no count of restarts and nothing of its last end.
abbrev pub essence : ContainerStatus → String × Option String × Option ℤ
essence cs = (cs.name, reason_of cs.state.waiting, exit_of cs.state.terminated)

-- A waiting reason that is a failure.
bad : String → Bool
bad reason = is_image_reason reason || is_create_reason reason || reason == "CrashLoopBackOff"

bad-normalize : (reason : String) → bad (normalize_image_pull_reason reason) ≡ bad reason
unfolding bad normalize_image_pull_reason
bad-normalize reason = elim (Bool-cases (reason == "ErrImagePull")) [
  | inl e ↦ rw ((eq_iff reason "ErrImagePull").0 e) refl
  | inr e ↦ rw e refl
]

fails : Bool → Option String → Option ℤ → Bool
unfolding bad
fails is_init (some r) none = bad r
fails is_init none none = false
fails is_init (some r) (some code) = bad r || is_init && not (eq_ℤ code (pos 0))
fails is_init none (some code) = is_init && not (eq_ℤ code (pos 0))

text_of : Option String → Option ℤ → String
text_of (some r) code = r
text_of none none = ""
text_of none (some code) = sprint ("exit" ∷ itoa code ∷ [])

entry_of : Bool → String × Option String × Option ℤ → String
unfolding fails text_of
entry_of is_init (name, w, code) =
    if not (fails is_init w code) then "" else sprint (name ∷ "=" ∷ text_of w code ∷ ";" ∷ [])

entries_of : Bool → List (String × Option String × Option ℤ) → String
entries_of is_init [] = ""
entries_of is_init (e ∷ es) = String.◌++◌ (entry_of is_init e) (entries_of is_init es)

is_some-three :
    (a b c : Bool) (x y z : String)
    → is_some (if a then some x else if b then some y else if c then some z else none)
      ≡ (a || b || c)
is_some-three a b c x y z = ground arith

is_some-waiting :
    (cs : ContainerStatus) (w : Waiting)
    → is_some (classify_waiting_failure cs w) ≡ bad (normalize_image_pull_reason w.reason)
unfolding classify_waiting_failure bad
is_some-waiting cs w =
    is_some-three (is_image_reason w.reason) (is_create_reason w.reason)
      (w.reason == "CrashLoopBackOff") _ _ _
    ∙ sym (bad-normalize w.reason)

is_some-exit :
    (t : Terminated) → is_some (classify_exit_failure (some t)) ≡ not (eq_ℤ t.exit_code (pos 0))
unfolding classify_exit_failure
is_some-exit t = ground arith

is_some-parts :
    (cs : ContainerStatus) (is_init : Bool) (w : Option Waiting) (t : Option Terminated)
    → is_some (first_of (waiting_failure cs w) (if is_init then classify_exit_failure t else none))
      ≡ fails is_init (reason_of w) (exit_of t)
unfolding fails
is_some-parts cs is_init none none = unfold classify_exit_failure in ground arith
is_some-parts cs is_init none (some t) = ground (arith, is_some-exit t)
is_some-parts cs is_init (some w) none =
    unfold classify_exit_failure in ground (arith, is_some-waiting cs w)
is_some-parts cs is_init (some w) (some t) = ground (arith, is_some-waiting cs w, is_some-exit t)

is_some-classify :
    (cs : ContainerStatus) (is_init : Bool)
    → is_some (classify_container_failure cs is_init)
      ≡ fails is_init (reason_of cs.state.waiting) (exit_of cs.state.terminated)
unfolding classify_container_failure
is_some-classify cs is_init = is_some-parts cs is_init cs.state.waiting cs.state.terminated

state_text-text_of :
    (w : Option Waiting) (t : Option Terminated)
    → state_text w t ≡ text_of (reason_of w) (exit_of t)
unfolding text_of
state_text-text_of (some w) t = refl
state_text-text_of none none = refl
state_text-text_of none (some t) = refl

failure_entry-entry_of :
    (cs : ContainerStatus) (is_init : Bool)
    → failure_entry cs is_init ≡ entry_of is_init (essence cs)
unfolding failure_entry entry_of
failure_entry-entry_of cs is_init =
    cc (is_some-classify cs is_init, state_text-text_of cs.state.waiting cs.state.terminated)

failure_entries-entries_of :
    (is_init : Bool) (l : List ContainerStatus)
    → failure_entries is_init l ≡ entries_of is_init (map essence l)
unfolding failure_entries entries_of
failure_entries-entries_of is_init [] = refl
failure_entries-entries_of is_init (cs ∷ l) =
    cc (failure_entry-entry_of cs is_init, failure_entries-entries_of is_init l)

-- Two revisions of a pod whose containers have the same names, the same waiting reasons up to the
-- alternation of ErrImagePull and ImagePullBackOff, and the same exit codes do not differ in their
-- failure state, whatever their messages, images, restarts and earlier ends are.
pub container_failure_state_differs-essence :
    (old new : Pod)
    → map essence old.init_container_statuses ≡ map essence new.init_container_statuses
    → map essence old.container_statuses ≡ map essence new.container_statuses
    → container_failure_state_differs old new ≡ false
unfolding container_failure_state_differs pod_failure_signature
container_failure_state_differs-essence old new h h' =
    let same : pod_failure_signature old ≡ pod_failure_signature new = cc (
      failure_entries-entries_of true old.init_container_statuses,
      failure_entries-entries_of true new.init_container_statuses,
      failure_entries-entries_of false old.container_statuses,
      failure_entries-entries_of false new.container_statuses,
      h,
      h',
    ) in
    rw same (ground (arith, eq_refl (pod_failure_signature new)))
