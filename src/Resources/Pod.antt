-- ===== src/Resources/Pod.antt =====
-- resources.go: the pod of a node: its init containers (with buildPackageInitContainer of packages.go),
-- its main container, its log sidecars and its template, as buildDeployment composes them. The text of a
-- log's name in lower case is a parameter, as are the digests of names.
use curity_operator.Prelude.{
  ℕ, suc, ◌+◌, ◌-◌, String, Bool, true, false, not, ◌&&◌, Option, none, some, List, [], ◌∷◌, ◌++◌,
  map, ◌==◌, if◌then◌else◌, is_empty, sprint,
}
pub mod Mounted
use Prim.Native.String
use curity_operator.Kube.{Map, Volume, plain_empty_dir}
use curity_operator.Packages.{PackageSpec, package_init_container_name}
use curity_operator.Packages.Env.{build_package_init_env}
use curity_operator.Packages.Script.{build_package_download_script}
use curity_operator.Packages.Volumes.{
  build_package_volumes, build_package_volume_mounts, build_package_init_volume_mounts,
}
use curity_operator.Config.{DiscoveredManagedResource}
use curity_operator.Resources.{
  Container, LoggingSpec, IdentityServerCluster, IdentityServerNode, Toleration, PodSecurityContext,
  ResourceRequirements, no_requirements, package_requirements, given,
}
use curity_operator.Resources.Resolve.{
  resolve_resources, resolve_probes, resolve_logging, resolve_logging_level, resolve_node_selector,
  resolve_tolerations, resolve_affinity, resolve_topology_spread_constraints,
  resolve_init_containers, resolve_extra_containers, resolve_pod_security_context,
  resolve_container_security_context, resolve_termination_grace_period_seconds,
  resolve_image_pull_policy, build_image, build_container_args, or_text,
}
use curity_operator.Resources.Env.{build_env_vars, build_env_from}
use curity_operator.Resources.Ports.{build_container_ports}
use curity_operator.Resources.Volumes.{build_volumes}
use curity_operator.Resources.Defaults.{
  apply_container_defaults_all, merge_pod_security_context, merge_default_tolerations,
  build_liveness_probe, build_readiness_probe,
}

-- The parameters: url.Hostname with a port, strings.ToLower, and the digests in names.
pub record Digests : Type 0 where
  pub parse_hostname : String → Option String
  pub to_lower : String → String
  pub volume_hash : String → String
  pub tolerates_taint : Toleration → String → Bool
  pub default_toleration_seconds : ℕ

pub record PodSpec (U : Type 0) : Type 0 where
  pub security_context : PodSecurityContext U
  pub init_containers : List (Container U)
  pub containers : List (Container U)
  pub volumes : List Volume
  pub node_selector : Option (Map String)
  pub tolerations : List Toleration
  pub affinity : Option U
  pub topology_spread_constraints : List U
  pub termination_grace_period_seconds : Option ℕ
  pub image_pull_secrets : List String

abbrev container_name : String
container_name = "curity"

abbrev pub log_volume : String
log_volume = "log-volume"

abbrev pub has_logs : {U : Type 0} → Option (LoggingSpec U) → Bool
has_logs none = false
has_logs (some logging) = not (is_empty logging.logs)

module _ {U : Type 0} (d : Digests) where
  unfoldable pub build_package_init_container : String → PackageSpec → ℕ → Container U
  build_package_init_container image p idx = record {
    name = package_init_container_name idx;
    image = image;
    image_pull_policy = "IfNotPresent";
    command = "/bin/sh" ∷ "-c" ∷ [];
    args = build_package_download_script p idx ∷ [];
    ports = [];
    env = build_package_init_env d.parse_hostname p;
    env_from = [];
    resources = package_requirements;
    volume_mounts = build_package_init_volume_mounts p idx;
    liveness_probe = none;
    readiness_probe = none;
    startup_probe = none;
    lifecycle = none;
    termination_message_path = "/dev/termination-log";
    termination_message_policy = "File";
    security_context = some (record {
      run_as_user = some 0;
      run_as_group = some 0;
      allow_privilege_escalation = some false;
      drop = "ALL" ∷ [];
      rest = none;
    });
    rest = none;
  }

  init_containers_from : String → ℕ → List PackageSpec → List (Container U)
  init_containers_from image i [] = []
  init_containers_from image i (p ∷ packages) =
      build_package_init_container image p i ∷ init_containers_from image (suc i) packages

  unfoldable pub build_package_init_containers : List PackageSpec → String → List (Container U)
  unfolding init_containers_from
  build_package_init_containers packages image = init_containers_from image 0 packages

  unfoldable pub build_init_containers :
      IdentityServerCluster U → IdentityServerNode U → String → List (Container U)
  build_init_containers cluster node fetcher_image =
      build_package_init_containers cluster.packages fetcher_image
      ++ apply_container_defaults_all (resolve_init_containers cluster node)

  abbrev sidecar_resources : Option U → ResourceRequirements U
  sidecar_resources none = no_requirements
  sidecar_resources (some r) = given r

  abbrev log_sidecar : LoggingSpec U → String → Container U
  log_sidecar logging log_name = record {
    name = log_name;
    image = or_text logging.image "busybox:latest";
    image_pull_policy = "";
    command = "tail" ∷ "-F" ∷ sprint ("/log/" ∷ d.to_lower log_name ∷ ".log" ∷ []) ∷ [];
    args = [];
    ports = [];
    env = [];
    env_from = [];
    resources = sidecar_resources logging.resources;
    volume_mounts =
        record { name = log_volume; mount_path = "/log"; sub_path = ""; read_only = true } ∷ [];
    liveness_probe = none;
    readiness_probe = none;
    startup_probe = none;
    lifecycle = none;
    termination_message_path = "";
    termination_message_policy = "";
    security_context = none;
    rest = none;
  }

  unfoldable pub build_log_sidecars : Option (LoggingSpec U) → List (Container U)
  build_log_sidecars none = []
  build_log_sidecars (some logging) = map (log_sidecar logging) logging.logs

  -- `logging != nil && len(logging.Logs) > 0 && effectiveLevel != "OFF"`
  abbrev pub mounts_logs : IdentityServerCluster U → IdentityServerNode U → Bool
  mounts_logs cluster node =
      has_logs (resolve_logging cluster node) && not (resolve_logging_level cluster node == "OFF")

  unfoldable pub build_pod_volumes :
      IdentityServerCluster U → IdentityServerNode U → List DiscoveredManagedResource → List Volume
  build_pod_volumes cluster node configs =
      (build_volumes d.volume_hash cluster.name configs).0
      ++ build_package_volumes cluster.packages
      ++ (if mounts_logs cluster node
          then record { name = log_volume; source = plain_empty_dir } ∷ []
          else [])

  unfoldable pub build_main_container :
      IdentityServerCluster U → IdentityServerNode U → List DiscoveredManagedResource → Container U
  build_main_container cluster node configs = record {
    name = container_name;
    image = build_image cluster;
    image_pull_policy = resolve_image_pull_policy cluster node;
    command = [];
    args = build_container_args cluster node;
    ports = build_container_ports node;
    env = build_env_vars cluster node;
    env_from = build_env_from configs;
    resources = sidecar_resources (resolve_resources cluster node);
    volume_mounts =
        (build_volumes d.volume_hash cluster.name configs).1
        ++ build_package_volume_mounts cluster.packages
        ++ (if mounts_logs cluster node
            then record {
              name = log_volume;
              mount_path = "/opt/idsvr/var/log/";
              sub_path = "";
              read_only = false;
            }
              ∷ []
            else []);
    liveness_probe = some (build_liveness_probe (resolve_probes cluster node));
    readiness_probe = some (build_readiness_probe (resolve_probes cluster node));
    startup_probe = none;
    lifecycle = none;
    termination_message_path = "/dev/termination-log";
    termination_message_policy = "File";
    security_context = resolve_container_security_context cluster node;
    rest = none;
  }

  unfoldable pub build_containers :
      IdentityServerCluster U
      → IdentityServerNode U
      → List DiscoveredManagedResource
      → List (Container U)
  build_containers cluster node configs =
      build_main_container cluster node configs
        ∷ apply_container_defaults_all (
            if resolve_logging_level cluster node == "OFF"
            then []
            else build_log_sidecars (resolve_logging cluster node))
      ++ apply_container_defaults_all (resolve_extra_containers cluster node)

  unfoldable pub build_pod_spec :
      IdentityServerCluster U
      → IdentityServerNode U
      → List DiscoveredManagedResource
      → String
      → PodSpec U
  build_pod_spec cluster node configs fetcher_image = record {
    security_context = merge_pod_security_context (resolve_pod_security_context cluster node);
    init_containers = build_init_containers cluster node fetcher_image;
    containers = build_containers cluster node configs;
    volumes = build_pod_volumes cluster node configs;
    node_selector = resolve_node_selector cluster node;
    tolerations =
        merge_default_tolerations d.tolerates_taint d.default_toleration_seconds
          (resolve_tolerations cluster node);
    affinity = resolve_affinity cluster node;
    topology_spread_constraints = resolve_topology_spread_constraints cluster node;
    termination_grace_period_seconds = resolve_termination_grace_period_seconds cluster node;
    image_pull_secrets =
        if cluster.image_pull_secret == "" then [] else cluster.image_pull_secret ∷ [];
  }
