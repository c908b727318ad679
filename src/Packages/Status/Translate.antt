-- ===== src/Packages/Status/Translate.antt =====
-- translatePackagesReady: the value of PackagesReady from the pods of a node. Its two nested loops
-- are two recursions, with `successCount` and `sawAnyPackageContainer`; a return from within them
-- is `stopped`.
use curity_operator.Prelude.{
  ℕ, suc, ◌-◌, String, Bool, true, false, not, ◌&&◌, Option, none, some, List, [], ◌∷◌, starts_with,
  nat_eq, if◌then◌else◌, is_empty, sprint, format_nat,
}
use curity_operator.Kube.{Pod, ContainerStatus, Terminated}
use curity_operator.Packages.{PackageSpec}
pub mod Verdict
use curity_operator.Packages.Status.Classify.{
  package_fetch_prefix, Failure, classify_init_container,
}
use curity_operator.Packages.Status.Replicas.{current_replica_set_pods, pods_matching_packages_hash}
use curity_operator.Packages.Status.Index.{parse_package_fetch_index, format_pod_package_message}
use curity_operator.Prelude.Int.{ℤ, pos, negsuc, eq_ℤ}
use curity_operator.Api.{ConditionStatus, yes_status, no_status, reason_all_packages_fetched}

pub record TranslatePackagesReadyResult : Type 0 where
  pub status : ConditionStatus
  pub reason : String
  pub message : String

-- `set` false is `none`.
abbrev pub Verdict : Type 0
Verdict = Option TranslatePackagesReadyResult

pub data Scan : Type 0 where
  stopped : (result : TranslatePackagesReadyResult) → Scan
  scanned : (success_count : ℕ) (saw_any : Bool) → Scan

abbrev pub is_fetch : ContainerStatus → Bool
is_fetch ics = starts_with ics.name package_fetch_prefix

abbrev index_or_minus_one : Option ℤ → ℤ
index_or_minus_one none = negsuc 0
index_or_minus_one (some idx) = idx

abbrev pub exited_zero : Option Terminated → Bool
exited_zero none = false
exited_zero (some t) = eq_ℤ t.exit_code (pos 0)

abbrev pub succeeded : ContainerStatus → Bool
succeeded ics = exited_zero ics.state.terminated

unfoldable pub failure_result :
    List PackageSpec → ContainerStatus → Failure → TranslatePackagesReadyResult
failure_result packages ics (reason, detail) = record {
  status = no_status;
  reason = reason;
  message =
      format_pod_package_message (index_or_minus_one (parse_package_fetch_index ics.name)) packages
        ics.name detail;
}

unfoldable pub scan_containers : List PackageSpec → ℕ → Bool → List ContainerStatus → Scan
unfolding failure_result
scan_containers packages successes saw [] = scanned successes saw
scan_containers packages successes saw (ics ∷ statuses) =
    let rest =
      scan_containers packages (if is_fetch ics && succeeded ics then suc successes else successes)
        (if is_fetch ics then true else saw) statuses in
    if is_fetch ics
    then elim (classify_init_container ics) [
      | some f ↦ stopped (failure_result packages ics f)
      | none ↦ rest
    ]
    else rest

scan_pods : List PackageSpec → ℕ → Bool → List Pod → Scan
unfolding scan_containers
scan_pods packages successes saw [] = scanned successes saw
scan_pods packages successes saw (pod ∷ pods) =
    elim (scan_containers packages successes saw pod.init_container_statuses) [
      | stopped result ↦ stopped result
      | scanned successes' saw' ↦ scan_pods packages successes' saw' pods
    ]

conclude : Scan → Verdict
conclude (stopped result) = some result
conclude (scanned successes saw) =
    if not saw
    then none
    else if nat_eq successes 0
    then none
    else some (record {
      status = yes_status;
      reason = reason_all_packages_fetched;
      message = sprint (format_nat successes ∷ " package-fetch init container(s) succeeded" ∷ []);
    })

unfoldable pub translate_packages_ready : List Pod → String → List PackageSpec → Verdict
unfolding scan_pods conclude
translate_packages_ready pods expected_hash packages =
    let matching_hash = pods_matching_packages_hash pods expected_hash in
    let current = current_replica_set_pods matching_hash in
    if is_empty matching_hash
    then none
    else if is_empty current
    then none
    else conclude (scan_pods packages 0 false current)
