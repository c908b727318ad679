-- ===== src/Database.antt =====
-- identityserverdatabase_reconciler.go: an IdentityServerDatabase runs one Job that sets up the database.
-- Here are its types, and what the API server answers to the calls of one reconciliation.
pub mod Connection
pub mod Pods
pub mod Status
pub mod Template
pub mod Reconcile
use curity_operator.Prelude.{ℕ, String, ◌⊎◌, Bool, Option, List}
use curity_operator.Kube.{Map, Pod, Job, EnvVar}
use curity_operator.Api.{Condition}
use curity_operator.Packages.Check.{Reader}
use curity_operator.Permanent.{UpdateAnswer}
use curity_operator.Resources.{CommonPodConfig, IdentityServerCluster}

pub record ConnectionSecretKeyRef : Type 0 where
  pub name : String
  pub key : String

pub record ValueSource : Type 0 where
  pub value : String
  pub secret_key_ref : Option ConnectionSecretKeyRef

pub record JdbcConnection : Type 0 where
  pub secret_ref : String
  pub url : Option ValueSource
  pub username : Option ValueSource
  pub password : Option ValueSource

pub record DatabaseJobTemplate (U : Type 0) : Type 0 where
  pub backoff_limit : Option ℕ
  pub active_deadline_seconds : Option ℕ
  pub ttl_seconds_after_finished : Option ℕ
  pub service_account_name : String
  pub automount_service_account_token : Option Bool
  pub image_pull_secret : String
  pub env : List EnvVar
  pub priority_class_name : String
  pub pod_config : CommonPodConfig U
  pub pod_annotations : Map String
  pub pod_labels : Map String

pub record DatabaseStatus : Type 0 where
  pub conditions : List Condition
  pub observed_generation : ℕ
  pub job_name : String
  pub observed_image : String
  pub last_completed_hash : String
  pub completion_time : Option ℕ

pub record IdentityServerDatabase (U : Type 0) : Type 0 where
  pub name : String
  pub namespace : String
  pub generation : ℕ
  pub cluster_ref : String
  pub connection : JdbcConnection
  pub job_template : Option (DatabaseJobTemplate U)
  pub status : DatabaseStatus

-- A Job that was read: its UID and annotations, and its status.
pub record StoredJob : Type 0 where
  pub uid : String
  pub annotations : Map String
  pub job : Job

-- A FailedCreate event of the cache.
pub record JobEvent : Type 0 where
  pub involved_uid : String
  pub message : String
  pub last_timestamp : ℕ
  pub event_time : ℕ

pub data ClusterAnswer (U : Type 0) : Type 0 where
  cluster_found : (cluster : IdentityServerCluster U) → ClusterAnswer U
  cluster_missing : ClusterAnswer U
  cluster_failed : (error : String) → ClusterAnswer U

pub data JobAnswer : Type 0 where
  job_found : (job : StoredJob) → JobAnswer
  job_missing : JobAnswer
  job_failed : (error : String) → JobAnswer

-- `delete_failed` is any error but NotFound.
pub data DeleteAnswer : Type 0 where
  deleted : DeleteAnswer
  delete_failed : (error : String) → DeleteAnswer

-- `refused` is an error that is Forbidden or Invalid.
pub data AdmissionAnswer : Type 0 where
  admitted : AdmissionAnswer
  refused : (error : String) → AdmissionAnswer
  admission_failed : (error : String) → AdmissionAnswer

pub data CreateAnswer : Type 0 where
  created : CreateAnswer
  already_exists : CreateAnswer
  create_failed : (error : String) → CreateAnswer

-- What the calls of one reconciliation answer.
pub record World (U : Type 0) : Type 0 where
  pub cluster_answer : ClusterAnswer U
  pub reader : Reader
  pub job_answer : JobAnswer
  pub delete_answer : DeleteAnswer
  pub owner_ref_error : Option String
  pub admission_answer : AdmissionAnswer
  pub create_answer : CreateAnswer
  pub pods : String ⊎ List Pod
  pub events : String ⊎ List JobEvent
  pub update_answer : UpdateAnswer

-- The functions of other packages: SHA-256 over JSON and over chunks of bytes, the bytes of a text,
-- and metav1.IsControlledBy.
pub record Externals (U : Type 0) : Type 0 where
  pub job_hash : String → JdbcConnection → Option (DatabaseJobTemplate U) → String
  pub digest : List (List ℕ) → String
  pub bytes_of : String → List ℕ
  pub is_controlled_by : Pod → StoredJob → Bool

abbrev pub reason_job_created : String
reason_job_created = "JobCreated"

abbrev pub reason_job_running : String
reason_job_running = "JobRunning"

abbrev pub reason_job_complete : String
reason_job_complete = "JobComplete"

abbrev pub reason_job_failed : String
reason_job_failed = "JobFailed"

abbrev pub reason_jdbc_url_missing : String
reason_jdbc_url_missing = "JDBCURLMissing"

abbrev pub reason_connection_secret_missing : String
reason_connection_secret_missing = "ConnectionSecretMissing"

abbrev pub reason_connection_key_missing : String
reason_connection_key_missing = "ConnectionKeyMissing"

abbrev pub reason_job_pod_not_starting : String
reason_job_pod_not_starting = "JobPodNotStarting"

abbrev pub condition_complete : String
condition_complete = "Complete"

abbrev pub condition_failed : String
condition_failed = "Failed"
