-- ===== src/Messages.antt =====
-- The shortening of termination messages (summarizeTerminationMessage, humanizeJavaMessage,
-- isJavaThrowableName and truncateMessage of identityservercluster_reconciler.go). Characters are
-- Unicode scalar values, as Go's runes are.
use curity_operator.Prelude.{
  ℕ, zero, suc, String, Bool, false, not, ◌&&◌, ◌||◌, Option, none, some, List, [], ◌∷◌, ◌==◌,
  starts_with, ltb, nat_eq, if◌then◌else◌,
}
use Prim.Native.String
use Prim.Native.String.{len, slice}
use Prim.Native.Char.{Char, code}
use curity_operator.Config.Scope.{trim_space}
use curity_operator.Packages.Status.Index.{trim_prefix}

abbrev onto_line : Char → List String → List String
onto_line c [] = String.◌∷◌ c "" ∷ []
onto_line c (line ∷ lines) = String.◌∷◌ c line ∷ lines

-- `strings.Split(raw, "\n")`
unfoldable pub split_lines : String → List String
split_lines String.[] = "" ∷ []
split_lines (String.◌∷◌ c s) =
    let rest = split_lines s in if nat_eq (code c) 10 then "" ∷ rest else onto_line c rest

-- `strings.Contains`
unfoldable pub contains : String → String → Bool
contains String.[] t = starts_with "" t
contains (String.◌∷◌ c s) t = starts_with (String.◌∷◌ c s) t || contains s t

abbrev behind_first : Char → Option (String × String) → Option (String × String)
behind_first c none = none
behind_first c (some (before, behind)) = some (String.◌∷◌ c before, behind)

-- What stands before and behind the first ": ", where `strings.Index` finds it.
unfoldable pub cut_colon : String → Option (String × String)
cut_colon String.[] = none
cut_colon (String.◌∷◌ c s) =
    let rest = cut_colon s in
    let whole = String.◌∷◌ c s in
    if starts_with whole ": " then some ("", slice whole 2 (len whole)) else behind_first c rest

-- What stands behind the last "." or "$", where `strings.LastIndexAny` finds one.
unfoldable pub behind_last_dot : String → Option String
behind_last_dot String.[] = none
behind_last_dot (String.◌∷◌ c s) = elim (behind_last_dot s) [
  | some behind ↦ some behind
  | none ↦ if nat_eq (code c) 46 || nat_eq (code c) 36 then some s else none
]

unfoldable pub is_java_throwable_name : String → Bool
is_java_throwable_name s =
    if s == "" || (contains s " " || contains s "\t") || not (contains s ".")
    then false
    else contains s "Exception" || contains s "Error"

-- The second `if` of humanizeJavaMessage.
bare_throwable : String → String
bare_throwable line =
    if is_java_throwable_name line
    then elim (behind_last_dot line) [ none ↦ line | some behind ↦ behind ]
    else line

behind_throwable : String → Option (String × String) → String
unfolding bare_throwable
behind_throwable line none = bare_throwable line
behind_throwable line (some (before, behind)) =
    if not (before == "") && is_java_throwable_name before && not (trim_space behind == "")
    then trim_space behind
    else bare_throwable line

unfoldable pub humanize_java_message : String → String
unfolding behind_throwable
humanize_java_message line =
    let cause = trim_space (trim_prefix (trim_space line) "Caused by:") in
    behind_throwable cause (cut_colon cause)

abbrev rune_count : String → ℕ
rune_count String.[] = 0
rune_count (String.◌∷◌ c s) = suc (rune_count s)

abbrev first_runes : ℕ → String → String
first_runes zero s = ""
first_runes (suc n) String.[] = ""
first_runes (suc n) (String.◌∷◌ c s) = String.◌∷◌ c (first_runes n s)

unfoldable pub truncate_message : String → ℕ → String
truncate_message s max = if ltb max (rune_count s) then String.◌++◌ (first_runes max s) "…" else s

abbrev is_frame : String → Bool
is_frame line = line == "" || starts_with line "at " || starts_with line "..."

abbrev names_error : String → Bool
names_error line = contains line "Exception" || contains line "Error"

-- causedBy, exception and firstNonFrame after the loop over the lines.
unfoldable pub scan_lines : String → String → String → List String → String × String × String
scan_lines caused_by exception first_non_frame [] = (caused_by, exception, first_non_frame)
scan_lines caused_by exception first_non_frame (raw_line ∷ lines) =
    let line = trim_space raw_line in
    let is_cause = not (is_frame line) && starts_with line "Caused by:" in
    let is_exception = not (is_frame line) && not is_cause && exception == "" && names_error line in
    let is_first =
      not (is_frame line) && not is_cause && not is_exception && first_non_frame == "" in
    scan_lines (if is_cause then line else caused_by) (if is_exception then line else exception)
      (if is_first then line else first_non_frame) lines

choose_line : String → String × String × String → String
choose_line raw (caused_by, exception, first_non_frame) =
    if not (caused_by == "")
    then truncate_message (humanize_java_message caused_by) 256
    else if not (exception == "")
    then truncate_message (humanize_java_message exception) 256
    else if not (first_non_frame == "")
    then truncate_message first_non_frame 256
    else truncate_message (trim_space raw) 256

unfoldable pub summarize_termination_message : String → String
unfolding choose_line
summarize_termination_message raw = choose_line raw (scan_lines "" "" "" (split_lines raw))
