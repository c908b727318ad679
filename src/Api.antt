-- ===== src/Api.antt =====
-- The API types that several parts share (api/v1alpha1/common_types.go) and the part of
-- k8s.io/apimachinery/pkg/api/meta that the operator calls. That package is not in the repository:
-- its functions are the fields of a record, with the behaviour that they document.
use curity_operator.Prelude.{
  ℕ, String, ◌≡◌, Bool, true, false, Option, none, some, List, [], ◌==◌, if◌then◌else◌,
}

pub data NodeType : Type 0 where
  admin runtime : NodeType

abbrev pub is_admin : NodeType → Bool
is_admin admin = true
is_admin runtime = false

-- metav1.ConditionStatus, an enumeration that the API server validates
pub data ConditionStatus : Type 0 where
  yes_status no_status unknown_status : ConditionStatus

abbrev pub is_true : ConditionStatus → Bool
is_true yes_status = true
is_true _ = false

abbrev pub is_false : ConditionStatus → Bool
is_false no_status = true
is_false _ = false

-- metav1.Condition without LastTransitionTime, which none of the parts modelled here reads
pub record Condition : Type 0 where
  pub type : String
  pub status : ConditionStatus
  pub reason : String
  pub message : String
  pub observed_generation : ℕ

-- apimeta.SetStatusCondition, FindStatusCondition and RemoveStatusCondition on a condition list
pub record ApiMeta : Type 0 where
  pub set_status_condition : List Condition → Condition → List Condition × Bool
  pub find_status_condition : List Condition → String → Option Condition
  pub remove_status_condition : List Condition → String → List Condition
  pub find-nil : (t : String) → find_status_condition [] t ≡ none
  pub find-set :
      (cs : List Condition) (c : Condition) (t : String)
      → find_status_condition (set_status_condition cs c).0 t
        ≡ (if c.type == t then some c else find_status_condition cs t)
  pub set_unchanged :
      (cs : List Condition) (c : Condition)
      → (set_status_condition cs c).1 ≡ false
      → (set_status_condition cs c).0 ≡ cs
  pub set_present :
      (cs : List Condition) (c : Condition)
      → find_status_condition cs c.type ≡ some c
      → (set_status_condition cs c).1 ≡ false
  pub find-remove :
      (cs : List Condition) (r t : String)
      → find_status_condition (remove_status_condition cs r) t
        ≡ (if r == t then none else find_status_condition cs t)

abbrev pub condition_ready : String
condition_ready = "Ready"

abbrev pub condition_available : String
condition_available = "Available"

abbrev pub condition_progressing : String
condition_progressing = "Progressing"

abbrev pub condition_degraded : String
condition_degraded = "Degraded"

abbrev pub condition_cluster_config_ready : String
condition_cluster_config_ready = "ClusterConfigReady"

abbrev pub condition_packages_ready : String
condition_packages_ready = "PackagesReady"

abbrev pub condition_managed_configs_valid : String
condition_managed_configs_valid = "ManagedConfigsValid"

abbrev pub reason_packages_not_ready : String
reason_packages_not_ready = "PackagesNotReady"

abbrev pub reason_invalid_spec : String
reason_invalid_spec = "InvalidSpec"

abbrev pub reason_admin_creds_secret_missing : String
reason_admin_creds_secret_missing = "AdminCredsSecretMissing"

abbrev pub reason_all_packages_fetched : String
reason_all_packages_fetched = "AllPackagesFetched"

-- The conditions of an IdentityServerNode as far as its cluster aggregates them.
pub record Node : Type 0 where
  pub name : String
  pub node_type : NodeType
  pub conditions : List Condition

-- The reasons of PackagesReady.
abbrev pub reason_packages_pending : String
reason_packages_pending = "PackagesPending"

abbrev pub reason_package_secret_missing : String
reason_package_secret_missing = "PackageSecretMissing"

abbrev pub reason_package_secret_key_missing : String
reason_package_secret_key_missing = "PackageSecretKeyMissing"

abbrev pub reason_package_image_pull_failed : String
reason_package_image_pull_failed = "PackageImagePullFailed"

abbrev pub reason_package_tls_verify_failed : String
reason_package_tls_verify_failed = "PackageTLSVerifyFailed"

abbrev pub reason_package_client_cert_invalid : String
reason_package_client_cert_invalid = "PackageClientCertInvalid"

abbrev pub reason_package_http_error : String
reason_package_http_error = "PackageHTTPError"

abbrev pub reason_package_invalid_archive : String
reason_package_invalid_archive = "PackageInvalidArchive"

abbrev pub reason_package_fetch_failed : String
reason_package_fetch_failed = "PackageFetchFailed"
