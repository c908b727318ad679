-- ===== src/Database/Template.antt =====
-- buildDatabaseJob of identityserverdatabase_reconciler.go: the Job that is created, and the watches that
-- map an object to the databases that it concerns.
use curity_operator.Prelude.{
  ℕ, String, ◌⊎◌, inl, inr, Bool, false, not, Option, none, some, List, [], ◌∷◌, ◌++◌, map, ◌==◌,
  if◌then◌else◌, select,
}
use curity_operator.Kube.{Map, Pod, lookup, value_of}
use curity_operator.Resources.{
  Container, IdentityServerCluster, PodSecurityContext, Toleration, ResourceRequirements,
  no_requirements, given, CommonPodConfig,
}
use curity_operator.Resources.Labels.{put, put_all}
use curity_operator.Resources.Resolve.{or_text, default_pull_policy, items_of}
use curity_operator.Resources.Defaults.{merge_pod_security_context}
use curity_operator.Predicates.Containers.{database_container_name}
use curity_operator.Database.{IdentityServerDatabase, DatabaseJobTemplate, JdbcConnection}
use curity_operator.Database.Connection.{
  build_jdbc_env_vars, build_jdbc_env_from, database_references_secret,
}
use curity_operator.Database.Status.{job_hash_annotation}
use curity_operator.Database.Reconcile.{connection_hash_annotation}
use Prim.Native.String

abbrev pub database_label : String
database_label = "curity.io/database"

-- A rule of the policy for failed pods, of which the operator writes two.
pub data FailureRule : Type 0 where
  ignore_disruption : FailureRule
  fail_on_exit : (container : String) → FailureRule

pub record JobPodSpec (U : Type 0) : Type 0 where
  pub restart_policy : String
  pub automount_service_account_token : Bool
  pub service_account_name : String
  pub security_context : PodSecurityContext U
  pub containers : List (Container U)
  pub node_selector : Option (Map String)
  pub tolerations : List Toleration
  pub affinity : Option U
  pub topology_spread_constraints : List U
  pub priority_class_name : String
  pub termination_grace_period_seconds : Option ℕ
  pub image_pull_secrets : List String

pub record BuiltJob (U : Type 0) : Type 0 where
  pub name : String
  pub namespace : String
  pub labels : Map String
  pub annotations : Map String
  pub backoff_limit : ℕ
  pub active_deadline_seconds : Option ℕ
  pub ttl_seconds_after_finished : Option ℕ
  pub failure_rules : List FailureRule
  pub pod_labels : Map String
  pub pod_annotations : Map String
  pub pod_spec : JobPodSpec U

abbrev is_automounted : Option Bool → Bool
is_automounted none = false
is_automounted (some b) = b

abbrev limit_or : ℕ → Option ℕ → ℕ
limit_or n none = n
limit_or n (some k) = k

abbrev pull_secrets : String → List String
pull_secrets name = if name == "" then [] else name ∷ []

module _ {U : Type 0} where
  abbrev empty_config : CommonPodConfig U
  empty_config = record {
    resources = none;
    node_selector = none;
    tolerations = none;
    topology_spread_constraints = none;
    affinity = none;
    security_context = none;
    container_security_context = none;
    termination_grace_period_seconds = none;
    image_pull_policy = "";
  }

  -- A missing template is one with nothing set.
  abbrev template_of : Option (DatabaseJobTemplate U) → DatabaseJobTemplate U
  template_of (some t) = t
  template_of none = record {
    backoff_limit = none;
    active_deadline_seconds = none;
    ttl_seconds_after_finished = none;
    service_account_name = "";
    automount_service_account_token = none;
    image_pull_secret = "";
    env = [];
    priority_class_name = "";
    pod_config = empty_config;
    pod_annotations = [];
    pod_labels = [];
  }

  abbrev given_requirements : Option U → ResourceRequirements U
  given_requirements none = no_requirements
  given_requirements (some r) = given r

  unfoldable pub resolve_database_image_pull_policy : DatabaseJobTemplate U → String → String
  resolve_database_image_pull_policy tmpl image =
      or_text tmpl.pod_config.image_pull_policy (default_pull_policy image)

  abbrev init_container : DatabaseJobTemplate U → JdbcConnection → String → Container U
  init_container tmpl conn image = record {
    name = database_container_name;
    image = image;
    image_pull_policy = resolve_database_image_pull_policy tmpl image;
    command = "/opt/idsvr/bin/idsvr" ∷ "-I" ∷ [];
    args = [];
    ports = [];
    env = build_jdbc_env_vars conn ++ tmpl.env;
    env_from = build_jdbc_env_from conn;
    resources = given_requirements tmpl.pod_config.resources;
    volume_mounts = [];
    liveness_probe = none;
    readiness_probe = none;
    startup_probe = none;
    lifecycle = none;
    termination_message_path = "";
    termination_message_policy = "FallbackToLogsOnError";
    security_context = tmpl.pod_config.container_security_context;
    rest = none;
  }

  abbrev job_pod_spec :
      DatabaseJobTemplate U → JdbcConnection → IdentityServerCluster U → String → JobPodSpec U
  job_pod_spec tmpl conn cluster image = record {
    restart_policy = "Never";
    automount_service_account_token = is_automounted tmpl.automount_service_account_token;
    service_account_name = tmpl.service_account_name;
    security_context = merge_pod_security_context tmpl.pod_config.security_context;
    containers = init_container tmpl conn image ∷ [];
    node_selector = tmpl.pod_config.node_selector;
    tolerations = items_of tmpl.pod_config.tolerations;
    affinity = tmpl.pod_config.affinity;
    topology_spread_constraints = items_of tmpl.pod_config.topology_spread_constraints;
    priority_class_name = tmpl.priority_class_name;
    termination_grace_period_seconds = tmpl.pod_config.termination_grace_period_seconds;
    image_pull_secrets = pull_secrets (or_text tmpl.image_pull_secret cluster.image_pull_secret);
  }

  -- `job_backoff_limit` is jobBackoffLimit.
  unfoldable pub build_database_job :
      ℕ → IdentityServerDatabase U → IdentityServerCluster U → String → String → String → BuiltJob U
  build_database_job job_backoff_limit db cluster image hash conn_hash =
      let tmpl = template_of db.job_template in
      record {
        name = String.◌++◌ db.name "-db-init-job";
        namespace = db.namespace;
        labels =
            ("app.kubernetes.io/managed-by", "curity-operator")
            ∷ (database_label, db.name)
            ∷ ("curity.io/component", "database-init")
            ∷ [];
        annotations = (job_hash_annotation, hash) ∷ (connection_hash_annotation, conn_hash) ∷ [];
        backoff_limit = limit_or job_backoff_limit tmpl.backoff_limit;
        active_deadline_seconds = tmpl.active_deadline_seconds;
        ttl_seconds_after_finished = tmpl.ttl_seconds_after_finished;
        failure_rules = ignore_disruption ∷ fail_on_exit database_container_name ∷ [];
        pod_labels =
            put "curity.io/component" "database-init"
              (put database_label db.name (put_all [] tmpl.pod_labels));
        pod_annotations = tmpl.pod_annotations;
        pod_spec = job_pod_spec tmpl db.connection cluster image;
      }

-- A request to reconcile the object of a name in a namespace.
abbrev pub Request : Type 0
Request = String × String

-- What the maps read of a database: its own key, its cluster and its connection.
pub record ListedDatabase : Type 0 where
  pub name : String
  pub namespace : String
  pub cluster_ref : String
  pub connection : JdbcConnection

abbrev request_for : ListedDatabase → Request
request_for db = (db.namespace, db.name)

abbrev listed : String ⊎ List ListedDatabase → List ListedDatabase
listed (inl error) = []
listed (inr dbs) = dbs

-- The databases of the namespace are what the List answers.
unfoldable pub find_databases_for_cluster : String → String ⊎ List ListedDatabase → List Request
find_databases_for_cluster cluster_name answer =
    map request_for (select (λ db. db.cluster_ref == cluster_name) (listed answer))

unfoldable pub find_databases_for_connection_secret :
    String → String ⊎ List ListedDatabase → List Request
find_databases_for_connection_secret secret_name answer =
    map request_for
      (select (λ db. database_references_secret db.connection secret_name) (listed answer))

abbrev label_request : String → Option String → List Request
label_request namespace none = []
label_request namespace (some name) = (namespace, name) ∷ []

unfoldable pub find_database_for_pod : String → Pod → List Request
find_database_for_pod namespace pod =
    if not (value_of "curity.io/component" pod.labels == "database-init")
    then []
    else label_request namespace (lookup database_label pod.labels)

-- The Job that a Get answers, with its own namespace and labels.
unfoldable pub find_database_for_job_failed_create_event :
    String ⊎ (String × Map String) → List Request
find_database_for_job_failed_create_event (inl error) = []
find_database_for_job_failed_create_event (inr (namespace, labels)) =
    label_request namespace (lookup database_label labels)

-- The pod with which the template is tried.
pub record DryRunPod (U : Type 0) : Type 0 where
  pub name : String
  pub namespace : String
  pub labels : Map String
  pub annotations : Map String
  pub pod_spec : JobPodSpec U

unfoldable pub build_dry_run_pod :
    {U : Type 0} → IdentityServerDatabase U → BuiltJob U → DryRunPod U
build_dry_run_pod db job = record {
  name = String.◌++◌ job.name "-dryrun-preflight";
  namespace = db.namespace;
  labels = job.pod_labels;
  annotations = job.pod_annotations;
  pod_spec = record job.pod_spec { restart_policy = "Never" };
}
