-- ===== src/Witnesses/Database.antt =====
-- The theorems on a database and its Job, applied to one that is set up twice.
use curity_operator.Prelude.{
  String, ◌≡◌, refl, ◌≢◌, ◌↔◌, inr, true, false, ◌&&◌, none, some, List, [], ◌∷◌, Memᴰ, ◌==◌,
  if◌then◌else◌, all, sort_by,
}
use curity_operator.Prelude.Int.{pos}
use curity_operator.Database.Template.{ListedDatabase}
use curity_operator.Kube.{ObjectMeta, JobCondition, Secret}
use curity_operator.Packages.Check.{Reader, found, not_found}
use curity_operator.Permanent.{UpdateAnswer}
use curity_operator.Resources.{IdentityServerCluster, SharedSpec, CommonPodConfig}
use curity_operator.Database.{
  JdbcConnection, DatabaseStatus, IdentityServerDatabase, StoredJob, World, Externals, job_found,
  job_missing, cluster_found, deleted, admitted, created,
}
use curity_operator.Database.Connection.{
  check_connection_sources, resolved, check_url, check_value_source_secret,
  compute_connection_secrets_hash, connection_secret_names,
}
use curity_operator.Database.Connection.Named.{needed_keys}
use curity_operator.Database.Connection.Laws.{
  check_connection_sources_resolved, provides, is_opaque, requests_of,
}
use curity_operator.Database.Status.Phase.{
  running, complete, ends, stop, next, Shows, follow, apply_job_status-Run,
}
use curity_operator.Database.Reconcile.{
  reconcile, on_cluster, on_check, on_hash, on_job, handle_job, recreate,
}
use curity_operator.Database.Reconcile.Creates.{
  is_ready, hash_now, connection_hash_now, accepts_job, reconcile-actions,
}
use curity_operator.Database.Reconcile.Tests.{creates, deletes, lacks_job, is_outdated, is_deleted}
use curity_operator.Database.Reconcile.Replaces.{
  reconcile-replaces, with_status, answering, stored_status,
}
use curity_operator.Conditions.Set.{status_of, set_condition}
use curity_operator.Database.Status.{apply_job_status, job_completion_time, job_failure_message}
use curity_operator.Resources.Resolve.{build_image}
use curity_operator.Witnesses.Meta.{meta, find, set}

abbrev connection : JdbcConnection
connection = record {
  secret_ref = "db-env";
  url = none;
  username = some (record { value = "curity"; secret_key_ref = none });
  password = some (record {
    value = "";
    secret_key_ref = some (record { name = "db-password"; key = "password" });
  });
}

abbrev secret_with : String → String → Secret
secret_with name key = record {
  name = name;
  resource_version = "7";
  secret_type = "Opaque";
  labels = [];
  annotations = [];
  secret_data = (key, 115 ∷ []) ∷ [];
}

abbrev db_reader : Reader
db_reader namespace name =
    if name == "db-env"
    then found (secret_with name "JDBC_URL")
    else if name == "db-password"
    then found (secret_with name "password")
    else not_found

abbrev listed_database : ListedDatabase
listed_database = record {
  name = "main";
  namespace = "default";
  cluster_ref = "prod";
  connection = connection;
}

check_connection_sources_resolved_example :
    ((check_connection_sources db_reader "default" connection ≡ resolved)
      ↔ (all (provides db_reader "default") (needed_keys connection) ≡ true))
    × ((meta : ObjectMeta) (s : Secret) (key : String)
        → s.name ≢ ""
        → Memᴰ (s.name, key) (needed_keys connection)
        → is_opaque s ≡ true
        → Memᴰ ("default", "main") (requests_of (listed_database ∷ []) meta s))
    × ((meta : ObjectMeta) (s : Secret)
        → is_opaque s ≡ false
        → requests_of (listed_database ∷ []) meta s ≡ [])
check_connection_sources_resolved_example =
    check_connection_sources_resolved db_reader (listed_database ∷ []) listed_database
      (Memᴰ.head refl)

abbrev job_with : String → List JobCondition → StoredJob
job_with hash conditions = record {
  uid = "u1";
  annotations =
      ("curity.io/database-job-hash", hash) ∷ ("curity.io/connection-secrets-hash", "digest") ∷ [];
  job = record {
    name = "main-db-init-job";
    deletion_timestamp = none;
    active = pos 0;
    succeeded = pos 1;
    failed = pos 0;
    ready = none;
    conditions = conditions;
  };
}

abbrev done_condition : JobCondition
done_condition = record {
  type = "Complete";
  status = "True";
  reason = "";
  message = "";
  last_transition_time = 40;
}

abbrev no_status_yet : DatabaseStatus
no_status_yet = record {
  conditions = [];
  observed_generation = 0;
  job_name = "";
  observed_image = "";
  last_completed_hash = "";
  completion_time = none;
}

-- A status that shows a running Job.
abbrev running_status : DatabaseStatus
running_status = follow meta no_status_yet 1 (job_with "h" [] ∷ [])

abbrev empty_pod_config : CommonPodConfig String
empty_pod_config = record {
  resources = none;
  node_selector = none;
  tolerations = none;
  topology_spread_constraints = none;
  affinity = none;
  security_context = none;
  container_security_context = none;
  termination_grace_period_seconds = none;
  image_pull_policy = "";
}

abbrev no_shared : SharedSpec String
no_shared = record {
  pod_annotations = none;
  pod_labels = none;
  probes = none;
  logging = none;
  autoscaling = none;
  pod_disruption_budget = none;
  pod_config = empty_pod_config;
  init_containers = none;
  extra_containers = none;
}

abbrev db_cluster : IdentityServerCluster String
db_cluster = record {
  name = "prod";
  namespace = "default";
  version = "10.0.0";
  image = "curity:10";
  image_pull_secret = "";
  fips_mode = false;
  admin_credentials = none;
  packages = [];
  network_policy = none;
  shared = no_shared;
}

abbrev database : IdentityServerDatabase String
database = record {
  name = "main";
  namespace = "default";
  generation = 3;
  cluster_ref = "prod";
  connection = connection;
  job_template = none;
  status = running_status;
}

-- A Job's hash is its image.
abbrev externals : Externals String
externals = record {
  job_hash = λ image conn template. image;
  digest = λ chunks. "digest";
  bytes_of = λ s. [];
  is_controlled_by = λ pod job. true;
}

abbrev world : World String
world = record {
  cluster_answer = cluster_found db_cluster;
  reader = db_reader;
  job_answer = job_found (job_with "curity:9" (done_condition ∷ []));
  delete_answer = deleted;
  owner_ref_error = none;
  admission_answer = admitted;
  create_answer = created;
  pods = inr [];
  events = inr [];
  update_answer = UpdateAnswer.updated;
}

reconcile-actions_example :
    (creates (reconcile meta externals database world) ≡ (
      is_ready meta externals database world world.cluster_answer
      && lacks_job database.status
          (hash_now meta externals database world world.cluster_answer)
          world.job_answer
      && accepts_job meta externals database world))
    × (deletes (reconcile meta externals database world) ≡ (
        is_ready meta externals database world world.cluster_answer
        && is_outdated
            (hash_now meta externals database world world.cluster_answer)
            (connection_hash_now meta externals database world)
            world.job_answer
        && is_deleted world.delete_answer))
reconcile-actions_example = reconcile-actions meta externals database world

apply_job_status-Run_example :
    Shows meta (follow meta running_status 1 (job_with "h" (done_condition ∷ []) ∷ [])) complete
unfolding status_of meta find apply_job_status job_completion_time job_failure_message set_condition
    set
apply_job_status-Run_example =
    apply_job_status-Run meta running_status 1 (job_with "h" (done_condition ∷ []) ∷ []) running
      complete refl (next (ends complete) (stop complete))

reconcile-replaces_example :
    (creates (
        reconcile meta externals
          (with_status meta externals database world (
            stored_status world.update_answer database.status
              (reconcile meta externals database world)))
          (answering meta externals database world world job_missing))
      ≡ true)
    × (deletes (
          reconcile meta externals
            (with_status meta externals database world no_status_yet)
            (answering meta externals database world world (job_found (job_with "curity:10" []))))
        ≡ false)
unfolding reconcile on_cluster on_check check_connection_sources check_url check_value_source_secret
    on_hash compute_connection_secrets_hash connection_secret_names sort_by on_job handle_job
    build_image recreate
reconcile-replaces_example =
    reconcile-replaces meta externals database world world world (job_with "curity:10" [])
      no_status_yet refl refl refl refl refl
