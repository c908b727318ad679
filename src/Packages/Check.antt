-- ===== src/Packages/Check.antt =====
-- The check of the referenced Secrets before a Deployment is written (checkPackageSecrets,
-- checkPackageRefs, checkSecretKeys, formatPackageMessage in packages.go). The API reader is a
-- parameter: what a Get of a Secret answers.
pub mod Sound
use curity_operator.Prelude.{
  ℕ, suc, String, Bool, not, ◌||◌, Option, none, some, List, [], ◌∷◌, ◌==◌, leb, if◌then◌else◌,
  is_some, sprint, format_nat, quote,
}
use Prim.Native.String
use Prim.Native.String.{len, slice}
use curity_operator.Packages.{PackageSpec}
use curity_operator.Packages.Refs.{package_secret_key_refs, PackageSecretKeyRef}
use curity_operator.Kube.{has_key, Secret}
use curity_operator.Api.{reason_package_secret_key_missing, reason_package_secret_missing}

-- The answer to a Get; `failed` is any error but NotFound.
pub data GetResult : Type 0 where
  found : Secret → GetResult
  not_found : GetResult
  failed : (error : String) → GetResult

-- By namespace and name.
abbrev pub Reader : Type 0
Reader = String → String → GetResult

pub record SecretRefCheckResult : Type 0 where
  pub reason : String
  pub detail : String
  pub retry_err : Option String

abbrev pub passed : SecretRefCheckResult
passed = record { reason = ""; detail = ""; retry_err = none }

unfoldable pub is_failure : SecretRefCheckResult → Bool
is_failure r = is_some r.retry_err || not (r.reason == "")

abbrev package_url_message_max_len : ℕ
package_url_message_max_len = 200

unfoldable pub truncate_package_url : String → String
truncate_package_url u =
    if leb (len u) package_url_message_max_len
    then u
    else String.◌++◌ (slice u 0 package_url_message_max_len) "..."

unfoldable pub format_package_message : ℕ → PackageSpec → String → String
unfolding truncate_package_url
format_package_message idx p detail = sprint (
    "package-fetch-"
    ∷ format_nat idx
    ∷ " (index="
    ∷ format_nat idx
    ∷ ", mountPath="
    ∷ p.mount_path
    ∷ ", url="
    ∷ truncate_package_url p.url
    ∷ "): "
    ∷ detail
    ∷ [])

-- The loop over the required keys.
check_keys : String → Secret → List String → SecretRefCheckResult
check_keys secret_name secret [] = passed
check_keys secret_name secret (key ∷ required_keys) =
    let rest = check_keys secret_name secret required_keys in
    if has_key key secret.secret_data then rest else record {
      reason = reason_package_secret_key_missing;
      detail = sprint ("key " ∷ quote key ∷ " not found in Secret " ∷ quote secret_name ∷ []);
      retry_err = none;
    }

answer : String → GetResult → List String → SecretRefCheckResult
answer secret_name (found secret) required_keys = check_keys secret_name secret required_keys
answer secret_name not_found required_keys = record {
  reason = reason_package_secret_missing;
  detail = sprint ("Secret " ∷ quote secret_name ∷ " not found" ∷ []);
  retry_err = none;
}
answer secret_name (failed error) required_keys = record {
  reason = "";
  detail = "";
  retry_err = some (sprint ("getting Secret " ∷ quote secret_name ∷ ": " ∷ error ∷ []));
}

module _ (r : Reader) (namespace : String) where
  unfoldable pub check_secret_keys : String → List String → SecretRefCheckResult
  unfolding answer check_keys
  check_secret_keys secret_name required_keys =
      answer secret_name (r namespace secret_name) required_keys

  -- The loop of checkPackageRefs over the references of one package.
  unfoldable pub check_refs : List PackageSecretKeyRef → SecretRefCheckResult
  check_refs [] = passed
  check_refs (ref ∷ refs) =
      let rest = check_refs refs in
      let res = check_secret_keys ref.name ref.keys in if is_failure res then res else rest

  unfoldable pub check_package_refs : PackageSpec → SecretRefCheckResult
  check_package_refs p = check_refs (package_secret_key_refs p)

  -- (reason, message, retryErr)
  abbrev pub Outcome : Type 0
  Outcome = String × String × Option String

  report : ℕ → PackageSpec → SecretRefCheckResult → Outcome
  report i p res = elim res.retry_err [
    | some e ↦ ("", "", some e)
    | none ↦ (res.reason, format_package_message i p res.detail, none)
  ]

  check_from : ℕ → List PackageSpec → Outcome
  check_from i [] = ("", "", none)
  check_from i (p ∷ packages) =
      let rest = check_from (suc i) packages in
      let res = check_package_refs p in if is_failure res then report i p res else rest

  unfoldable pub check_package_secrets : List PackageSpec → Outcome
  unfolding check_from report
  check_package_secrets packages = check_from 0 packages
