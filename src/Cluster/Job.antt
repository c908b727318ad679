-- ===== src/Cluster/Job.antt =====
-- identityservercluster_reconciler.go: the Secret with the cluster.xml of a cluster, and the genclust Job
-- that makes it.
pub mod Laws
use curity_operator.Prelude.{
  ℕ, ◌+◌, ◌-◌, String, Bool, false, not, ◌&&◌, Option, none, some, List, [], ◌∷◌, ◌++◌, ◌==◌,
  nat_eq, if◌then◌else◌, is_empty, sprint, format_nat,
}
use curity_operator.Kube.{Map, Secret, lookup}
use curity_operator.Api.{is_admin}
use curity_operator.Packages.Check.{Reader, found, not_found, failed}
use curity_operator.Predicates.{bytes_equal}
use curity_operator.Resources.{
  IdentityServerCluster, IdentityServerNode, SecretKeyRefSource, Toleration,
}
use curity_operator.Resources.Resolve.{build_image, items_of}
use curity_operator.Resources.Ports.{resolve_config_port}
use curity_operator.Resources.Naming.{owned_resource_name}
use Prim.Native.String

abbrev pub cluster_config_key : String
cluster_config_key = "cluster.xml"

abbrev pub port_config : ℕ
port_config = 6789

unfoldable pub cluster_config_secret_name : String → String
cluster_config_secret_name cluster_name = String.◌++◌ cluster_name "-cluster-config"

-- What encryptionKeyHash reads: no credentials and no key are alike.
abbrev key_bytes : Option (List ℕ) → List ℕ
key_bytes none = []
key_bytes (some bytes) = bytes

module _ {U : Type 0} where
  unfoldable pub find_admin_node_name : List (IdentityServerNode U) → String
  find_admin_node_name [] = ""
  find_admin_node_name (node ∷ nodes) =
      if is_admin node.node_type then node.name else find_admin_node_name nodes

  unfoldable pub find_admin_config_port : List (IdentityServerNode U) → ℕ
  find_admin_config_port [] = port_config
  find_admin_config_port (node ∷ nodes) =
      if is_admin node.node_type then resolve_config_port node else find_admin_config_port nodes

-- The bytes of the text "placeholder", and the digest of bytes in hexadecimal digits.
module _ (placeholder : List ℕ) (digest : List ℕ → String) where
  abbrev pub is_real : Option (List ℕ) → Bool
  is_real none = false
  is_real (some bytes) = not (is_empty bytes) && not (bytes_equal bytes placeholder)

  unfoldable pub is_cluster_config_ready : Secret → Bool
  is_cluster_config_ready secret = is_real (lookup cluster_config_key secret.secret_data)

  -- `none` is an error of the Get.
  unfoldable pub encryption_key_hash :
      {U : Type 0} → Reader → IdentityServerCluster U → Option String
  encryption_key_hash r cluster = elim cluster.admin_credentials [
    | none ↦ some ""
    | some ref ↦ elim (r cluster.namespace ref.name) [
      | found s ↦
          let key = key_bytes (lookup "CONFIG_ENCRYPTION_KEY" s.secret_data) in
          if is_empty key then some "" else some (digest key)
      | not_found ↦ none
      | failed error ↦ none
    ]
  ]

  abbrev annotation_if : String → String → Map String
  annotation_if key value = if not (value == "") then (key, value) ∷ [] else []

  abbrev content : List ℕ → List ℕ
  content xml = if not (is_empty xml) then xml else placeholder

  unfoldable pub build_cluster_config_secret :
      {U : Type 0} → IdentityServerCluster U → List ℕ → String → String → String → Secret
  build_cluster_config_secret cluster cluster_xml admin_node_name key_hash config_hash = record {
    name = cluster_config_secret_name cluster.name;
    resource_version = "";
    secret_type = "Opaque";
    labels =
        ("app.kubernetes.io/managed-by", "curity-operator")
        ∷ ("curity.io/cluster", cluster.name)
        ∷ ("curity.io/component", "cluster-config")
        ∷ [];
    annotations =
        ("argocd.argoproj.io/compare-options", "IgnoreExtraneous")
          ∷ annotation_if "curity.io/admin-node" admin_node_name
        ++ annotation_if "curity.io/encryption-key-hash" key_hash
        ++ annotation_if "curity.io/cluster-config-hash" config_hash;
    secret_data = (cluster_config_key, content cluster_xml) ∷ [];
  }

-- The parts that computeClusterConfigHash digests, with a zero byte between each two. `packages_hash` is
-- computePackagesHash of the cluster's packages.
unfoldable pub cluster_config_hash_parts :
    {U : Type 0} → IdentityServerCluster U → String → String → ℕ → List String
cluster_config_hash_parts cluster packages_hash admin_node_name config_port =
    "v1"
      ∷ build_image cluster
      ∷ cluster.image_pull_secret
      ∷ admin_node_name
      ∷ (if not (packages_hash == "") then packages_hash ∷ [] else [])
    ++ (if not (nat_eq config_port port_config)
        then sprint ("cfgport=" ∷ format_nat config_port ∷ []) ∷ []
        else [])

-- A variable of the Job's container.
pub data JobEnv : Type 0 where
  plain : (name value : String) → JobEnv
  optional_key : (name secret_name key : String) → JobEnv

pub data JobFailureRule : Type 0 where
  ignore_disrupted : JobFailureRule
  fail_on_codes : (container : String) (codes : List ℕ) → JobFailureRule

pub record ClusterConfigJob (U : Type 0) : Type 0 where
  pub name : String
  pub namespace : String
  pub labels : Map String
  pub annotations : Map String
  pub backoff_limit : ℕ
  pub failure_rules : List JobFailureRule
  pub pod_labels : Map String
  pub restart_policy : String
  pub automount_service_account_token : Bool
  pub run_as_user : ℕ
  pub run_as_group : ℕ
  pub fs_group : ℕ
  pub genclust_container : String
  pub image : String
  pub termination_message_policy : String
  pub command : List String
  pub env : List JobEnv
  pub image_pull_secrets : List String
  pub node_selector : Option (Map String)
  pub tolerations : List Toleration
  pub affinity : Option U
  pub topology_spread_constraints : List U

abbrev encryption_env : Option SecretKeyRefSource → List JobEnv
encryption_env none = []
encryption_env (some ref) =
    optional_key "CONFIG_ENCRYPTION_KEY" ref.name "CONFIG_ENCRYPTION_KEY" ∷ []

-- `short_hash` is the hash of OwnedResourceName.
unfoldable pub build_cluster_config_job :
    {U : Type 0}
    → (short_hash : String → String → String) → IdentityServerCluster U
    → String
    → String
    → ℕ
    → ClusterConfigJob U
build_cluster_config_job short_hash cluster admin_node_name config_hash config_port = record {
  name = String.◌++◌ cluster.name "-cluster-config-job";
  namespace = cluster.namespace;
  labels =
      ("app.kubernetes.io/managed-by", "curity-operator")
      ∷ ("curity.io/cluster", cluster.name)
      ∷ ("curity.io/component", "cluster-config")
      ∷ [];
  annotations =
      if not (config_hash == "") then ("curity.io/cluster-config-hash", config_hash) ∷ [] else [];
  backoff_limit = 3;
  failure_rules = ignore_disrupted ∷ fail_on_codes "genclust" (1 ∷ []) ∷ [];
  pod_labels = ("curity.io/cluster", cluster.name) ∷ ("curity.io/component", "cluster-config") ∷ [];
  restart_policy = "Never";
  automount_service_account_token = false;
  run_as_user = 10001;
  run_as_group = 10000;
  fs_group = 10000;
  genclust_container = "genclust";
  image = build_image cluster;
  termination_message_policy = "FallbackToLogsOnError";
  command =
      "/bin/sh" ∷ "-c" ∷ "/opt/idsvr/bin/genclust -c $CONFIG_SERVICE_HOST -p $CONFIG_SERVICE_PORT"
      ∷ [];
  env =
      plain "CONFIG_SERVICE_HOST" (owned_resource_name short_hash cluster.name admin_node_name)
      ∷ plain "CONFIG_SERVICE_PORT" (format_nat config_port)
      ∷ encryption_env cluster.admin_credentials;
  image_pull_secrets =
      if not (cluster.image_pull_secret == "") then cluster.image_pull_secret ∷ [] else [];
  node_selector = cluster.shared.pod_config.node_selector;
  tolerations = items_of cluster.shared.pod_config.tolerations;
  affinity = cluster.shared.pod_config.affinity;
  topology_spread_constraints = items_of cluster.shared.pod_config.topology_spread_constraints;
}
