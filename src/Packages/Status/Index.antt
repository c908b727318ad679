-- ===== src/Packages/Status/Index.antt =====
-- The index of a package in the name of its init container (parsePackageFetchIndex) and the
-- messages about it (formatPodPackageMessage, formatPackageMessageByIndex). fmt.Sscanf reads a
-- number in the range of int64, with a sign; the name of a container is a DNS label, in which
-- neither spaces nor a plus sign occur.
pub mod RoundTrip
use curity_operator.Prelude.{
  ℕ, zero, suc, String, Bool, false, ◌&&◌, ◌||◌, Option, none, some, List, [], ◌∷◌, ◌==◌,
  starts_with, ltb, leb, if◌then◌else◌, get_elem?, sprint, itoa, is_digit, scan_digits,
}
use Prim.Native.String.{len, slice}
use Prim.Native.Char.{code}
use curity_operator.Prelude.Int.{pos_part, ℤ, pos, negsuc, leb_ℤ}
use curity_operator.Packages.{PackageSpec}
use curity_operator.Packages.Check.{format_package_message}
use curity_operator.Packages.Status.Classify.{package_fetch_prefix}

abbrev pub trim_prefix : String → String → String
trim_prefix s t = if starts_with s t then slice s (len t) (len s) else s

abbrev pub starts_with_digit : String → Bool
starts_with_digit String.[] = false
starts_with_digit (String.◌∷◌ c s) = is_digit (code c)

unfoldable pub scan_positive : String → Option ℤ
scan_positive s =
    if starts_with_digit s && ltb (scan_digits 0 s) 9223372036854775808
    then some (pos (scan_digits 0 s))
    else none

abbrev negated : ℕ → ℤ
negated zero = pos 0
negated (suc n) = negsuc n

unfoldable pub scan_negative : String → Option ℤ
scan_negative s =
    if starts_with_digit s && leb (scan_digits 0 s) 9223372036854775808
    then some (negated (scan_digits 0 s))
    else none

-- `fmt.Sscanf(s, "%d", &idx)`
unfoldable pub scan_int : String → Option ℤ
scan_int s = if starts_with s "-" then scan_negative (slice s 1 (len s)) else scan_positive s

unfoldable pub parse_package_fetch_index : String → Option ℤ
parse_package_fetch_index container_name =
    let suffix = trim_prefix container_name package_fetch_prefix in
    if suffix == container_name || suffix == "" then none else scan_int suffix

-- `packages[idx]`, where `idx >= 0 && idx < len(packages)`
abbrev package_at : ℤ → List PackageSpec → Option PackageSpec
package_at (pos n) packages = get_elem? packages n
package_at (negsuc n) packages = none

unfoldable pub format_package_message_by_index : ℤ → String → String → String
format_package_message_by_index idx container_name detail =
    if leb_ℤ (pos 0) idx
    then sprint (container_name ∷ " (index=" ∷ itoa idx ∷ "): " ∷ detail ∷ [])
    else sprint (container_name ∷ ": " ∷ detail ∷ [])

unfoldable pub format_pod_package_message : ℤ → List PackageSpec → String → String → String
format_pod_package_message idx packages container_name detail = elim (package_at idx packages) [
  | some p ↦ format_package_message (pos_part idx) p detail
  | none ↦ format_package_message_by_index idx container_name detail
]
