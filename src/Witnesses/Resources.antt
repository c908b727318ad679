-- ===== src/Witnesses/Resources.antt =====
-- The theorems on the objects of a node, applied to a cluster with a package, logs and a user's labels.
use curity_operator.Resources.Resolve.{resolve_init_containers, resolve_extra_containers}
use curity_operator.Prelude.{
  ◌≤◌, String, ◌≡◌, refl, ◌↔◌, true, false, none, some, List, [], ◌∷◌, ◌++◌, map, ◌==◌,
  if◌then◌else◌, All, DistinctBy,
}
use curity_operator.Api.{admin}
use curity_operator.Kube.{Map, lookup}
use curity_operator.Config.{DiscoveredManagedResource, config_type_base}
use curity_operator.Resources.{
  IdentityServerCluster, IdentityServerNode, SharedSpec, CommonPodConfig, Container,
  no_requirements,
}
use curity_operator.Resources.Labels.{
  build_selector_labels, build_pod_labels, entries, merge_managed_labels, is_operator_owned_label,
}
use curity_operator.Resources.Labels.Laws.{Selects, build_selector_labels-Selects, first_found}
use curity_operator.Resources.Labels.Managed.{lookup-merge_managed_labels}
use curity_operator.Resources.Naming.{owned_resource_name, owned_resource_name_max_len}
use curity_operator.Resources.Naming.Bound.{len-owned_resource_name-le}
use curity_operator.Resources.Ports.{build_service_ports, build_container_ports, build_ingress}
use curity_operator.Resources.Ports.Laws.{
  build_service_ports-targets, build_ingress-ports, target_of, different_names, Opens,
}
use curity_operator.Resources.Pod.{Digests, build_pod_spec}
use curity_operator.Resources.Pod.Mounted.{Mounts, build_pod_spec-Mounts}
use curity_operator.Resources.Conflicts.{detect_container_name_conflict, names_of}
use curity_operator.Resources.Conflicts.Laws.{detect_container_name_conflict-distinct}
use Prim.Native.String.{len}

abbrev pod_config : CommonPodConfig String
pod_config = record {
  resources = none;
  node_selector = none;
  tolerations = none;
  topology_spread_constraints = none;
  affinity = none;
  security_context = none;
  container_security_context = none;
  termination_grace_period_seconds = none;
  image_pull_policy = "";
}

abbrev helper : String → Container String
helper name = record {
  name = name;
  image = "busybox";
  image_pull_policy = "";
  command = [];
  args = [];
  ports = record { name = "p"; container_port = 80; protocol = "" } ∷ [];
  env = [];
  env_from = [];
  resources = no_requirements;
  volume_mounts = [];
  liveness_probe = none;
  readiness_probe = none;
  startup_probe = none;
  lifecycle = none;
  termination_message_path = "";
  termination_message_policy = "";
  security_context = none;
  rest = none;
}

-- A spec with labels for the pods and one container beside the main one.
abbrev shared_of : Map String → List (Container String) → SharedSpec String
shared_of labels extra = record {
  pod_annotations = none;
  pod_labels = some labels;
  probes = none;
  logging = some (record { level = "DEBUG"; logs = "audit" ∷ []; image = ""; resources = none });
  autoscaling = none;
  pod_disruption_budget = none;
  pod_config = pod_config;
  init_containers = none;
  extra_containers = some extra;
}

abbrev cluster : IdentityServerCluster String
cluster = record {
  name = "prod";
  namespace = "default";
  version = "10.0.0";
  image = "";
  image_pull_secret = "";
  fips_mode = false;
  admin_credentials = none;
  packages =
      record { url = "https://one.example/a.zip"; tls = none; auth = none; mount_path = "/opt/a" }
      ∷ [];
  network_policy = some "gateway";
  shared = shared_of (("team", "id") ∷ ("curity.io/owned-by", "me") ∷ []) [];
}

abbrev node : List (Container String) → IdentityServerNode String
node extra = record {
  name = "admin";
  namespace = "default";
  node_type = admin;
  role = "admin";
  ui = some (record { enabled = true; secure = none });
  skip_install = none;
  replicas = none;
  service = some (record { type = ""; port = 0; distributed_service_port = 7000; ui_port = 6749 });
  environment_variables = [];
  shared = shared_of (("tier", "1") ∷ []) extra;
}

abbrev eight : String → String → String
eight c n = "01234567"

eight_length : (c n : String) → len (eight c n) ≡ 8
eight_length c n = refl

abbrev digests : Digests
digests = record {
  parse_hostname = λ url. none;
  to_lower = λ s. s;
  volume_hash = λ s. "0123";
  tolerates_taint = λ t key. t.key == key;
  default_toleration_seconds = 300;
}

abbrev configs : List DiscoveredManagedResource
configs =
    record {
      name = "base";
      is_secret = false;
      config_type = config_type_base;
      contents = ("a.xml", 1 ∷ []) ∷ [];
    }
    ∷ []

build_selector_labels-Selects_example :
    Selects
      (build_selector_labels (owned_resource_name eight) cluster (node []))
      (entries (build_pod_labels (owned_resource_name eight) cluster (node [])))
build_selector_labels-Selects_example =
    build_selector_labels-Selects (owned_resource_name eight) cluster (node []) (refl, (refl, tt))
      (refl, tt)

lookup-merge_managed_labels_example :
    lookup "team" (
      entries (
        merge_managed_labels
          (some (("team", "id") ∷ ("curity.io/role", "old") ∷ []))
          (some (("curity.io/role", "admin") ∷ []))))
    ≡ first_found (lookup "team" (entries (some (("curity.io/role", "admin") ∷ [])))) (
        if is_operator_owned_label "team"
        then none
        else lookup "team" (entries (some (("team", "id") ∷ ("curity.io/role", "old") ∷ []))))
lookup-merge_managed_labels_example =
    lookup-merge_managed_labels (some (("team", "id") ∷ ("curity.io/role", "old") ∷ []))
      (some (("curity.io/role", "admin") ∷ [])) "team" (refl, (refl, tt)) (refl, tt)

len-owned_resource_name-le_example :
    len (owned_resource_name eight "a-cluster-with-quite-a-long-name" "and-a-node-with-one")
    ≤ owned_resource_name_max_len
len-owned_resource_name-le_example =
    len-owned_resource_name-le eight eight_length "a-cluster-with-quite-a-long-name"
      "and-a-node-with-one"

build_service_ports-targets_example :
    (build_service_ports (node []) ≡ map target_of (build_container_ports (node [])))
    × (different_names (build_container_ports (node [])) ≡ true)
build_service_ports-targets_example = build_service_ports-targets (node [])

build_ingress-ports_example :
    All
      (λ r. All (Opens (build_container_ports (node []))) r.ports)
      (build_ingress cluster (node []))
build_ingress-ports_example = build_ingress-ports cluster (node []) refl

build_pod_spec-Mounts_example :
    All
      (Mounts (build_pod_spec digests cluster (node (helper "one" ∷ [])) configs "fetcher").volumes)
      ((build_pod_spec digests cluster (node (helper "one" ∷ [])) configs "fetcher").init_containers
        ++ (build_pod_spec digests cluster (node (helper "one" ∷ [])) configs "fetcher").containers)
unfolding resolve_init_containers resolve_extra_containers
build_pod_spec-Mounts_example =
    build_pod_spec-Mounts digests cluster (node (helper "one" ∷ [])) configs "fetcher" tt (tt, tt)

detect_container_name_conflict-distinct_example :
    (detect_container_name_conflict
        (build_pod_spec digests cluster (node (helper "curity" ∷ [])) configs "fetcher")
        cluster
        (node (helper "curity" ∷ []))
      ≡ none)
    ↔ DistinctBy
        (λ x. x)
        (names_of (
          (build_pod_spec digests cluster
            (node (helper "curity" ∷ []))
            configs
            "fetcher").init_containers
          ++ (build_pod_spec digests cluster
              (node (helper "curity" ∷ []))
              configs
              "fetcher").containers))
detect_container_name_conflict-distinct_example =
    detect_container_name_conflict-distinct
      (build_pod_spec digests cluster (node (helper "curity" ∷ [])) configs "fetcher") cluster
      (node (helper "curity" ∷ []))
