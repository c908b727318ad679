-- ===== src/Resources/Objects.antt =====
-- resources.go: the Deployment, the Service, the HorizontalPodAutoscaler, the PodDisruptionBudget, the
-- NetworkPolicy and the ServiceMonitor. Constant fields that nothing else reads are left out. `owned_name`
-- is OwnedResourceName.
use curity_operator.Prelude.{
  ℕ, String, Bool, true, false, Option, none, some, List, [], ◌∷◌, map, if◌then◌else◌, is_some,
}
use curity_operator.Kube.{Map}
use curity_operator.Config.{DiscoveredManagedResource}
use curity_operator.Resources.{
  IdentityServerCluster, IdentityServerNode, AutoscalingSpec, ServicePort, IntOrString, PdbSpec,
}
use curity_operator.Resources.Labels.{
  merge_maps, build_labels, build_selector_labels, build_pod_labels, cluster_managed_labels,
}
use curity_operator.Resources.Resolve.{resolve_replicas, resolve_pdb, resolve_service_type, or_text}
use curity_operator.Resources.Ports.{build_service_ports, build_ingress, IngressRule}
use curity_operator.Resources.Pod.{Digests, PodSpec, build_pod_spec}

pub record Metadata : Type 0 where
  pub name : String
  pub namespace : String
  pub labels : Option (Map String)

pub record PodTemplate (U : Type 0) : Type 0 where
  pub labels : Option (Map String)
  pub annotations : Option (Map String)
  pub spec : PodSpec U

pub record NodeDeployment (U : Type 0) : Type 0 where
  pub metadata : Metadata
  pub replicas : Option ℕ
  pub match_labels : Map String
  pub template : PodTemplate U

pub record Service : Type 0 where
  pub metadata : Metadata
  pub type : String
  pub selector : Map String
  pub ports : List ServicePort

pub data Metric (U : Type 0) : Type 0 where
  -- average CPU utilization in percent
  cpu_utilization : (percentage : ℕ) → Metric U
  custom : (metric : U) → Metric U

pub record HorizontalPodAutoscaler (U : Type 0) : Type 0 where
  pub metadata : Metadata
  pub target_name : String
  pub min_replicas : ℕ
  pub max_replicas : ℕ
  pub metrics : List (Metric U)

pub record PodDisruptionBudget : Type 0 where
  pub metadata : Metadata
  pub match_labels : Map String
  pub min_available : Option IntOrString
  pub max_unavailable : Option IntOrString

pub record NetworkPolicy : Type 0 where
  pub metadata : Metadata
  pub match_labels : Map String
  pub ingress : List IngressRule

-- The user's spec.observability.serviceMonitor.
pub record ServiceMonitorSpec : Type 0 where
  pub enabled : Option Bool
  pub labels : Option (Map String)
  pub interval : String

pub record ServiceMonitor : Type 0 where
  pub metadata : Metadata
  pub match_labels : Map String
  pub match_names : List String
  pub port : String
  pub interval : String

abbrev enabled_ptr : Option ServiceMonitorSpec → Option Bool
enabled_ptr none = none
enabled_ptr (some sm) = sm.enabled

unfoldable pub service_monitor_enabled : Option ServiceMonitorSpec → Bool
service_monitor_enabled spec = elim (enabled_ptr spec) [ none ↦ true | some e ↦ e ]

unfoldable pub explicitly_enabled : Option ServiceMonitorSpec → Bool
explicitly_enabled spec = elim (enabled_ptr spec) [ none ↦ false | some e ↦ e ]

unfoldable pub resolve_service_monitor_spec : Option ServiceMonitorSpec → ServiceMonitorSpec
resolve_service_monitor_spec none = record { enabled = none; labels = none; interval = "30s" }
resolve_service_monitor_spec (some sm) = record {
  enabled = sm.enabled;
  labels = sm.labels;
  interval = or_text sm.interval "30s";
}

-- The limits of a budget: maxUnavailable, where it is given, else minAvailable.
abbrev pub pdb_limits : PdbSpec → Option IntOrString × Option IntOrString
pdb_limits spec =
    if is_some spec.max_unavailable
    then (none, spec.max_unavailable)
    else (spec.min_available, none)

module _ {U : Type 0} (owned_name : String → String → String) where
  abbrev metadata_of : IdentityServerCluster U → IdentityServerNode U → Metadata
  metadata_of cluster node = record {
    name = owned_name cluster.name node.name;
    namespace = node.namespace;
    labels = some (build_labels owned_name cluster node);
  }

  unfoldable pub build_deployment :
      Digests
      → IdentityServerCluster U
      → IdentityServerNode U
      → List DiscoveredManagedResource
      → String
      → NodeDeployment U
  build_deployment d cluster node configs fetcher_image = record {
    metadata = metadata_of cluster node;
    replicas = resolve_replicas cluster node;
    match_labels = build_selector_labels owned_name cluster node;
    template = record {
      labels = build_pod_labels owned_name cluster node;
      annotations = merge_maps cluster.shared.pod_annotations node.shared.pod_annotations;
      spec = build_pod_spec d cluster node configs fetcher_image;
    };
  }

  unfoldable pub build_service : IdentityServerCluster U → IdentityServerNode U → Service
  build_service cluster node = record {
    metadata = metadata_of cluster node;
    type = resolve_service_type node;
    selector = build_selector_labels owned_name cluster node;
    ports = build_service_ports node;
  }

  unfoldable pub build_hpa :
      IdentityServerCluster U → IdentityServerNode U → AutoscalingSpec U → HorizontalPodAutoscaler U
  build_hpa cluster node spec = record {
    metadata = metadata_of cluster node;
    target_name = owned_name cluster.name node.name;
    min_replicas = spec.min_replicas;
    max_replicas = spec.max_replicas;
    metrics =
        cpu_utilization spec.target_cpu_utilization_percentage ∷ map custom spec.custom_metrics;
  }

  -- The code dereferences what resolvePDB finds; its callers make sure that there is something.
  unfoldable pub build_pdb :
      IdentityServerCluster U → IdentityServerNode U → Option PodDisruptionBudget
  build_pdb cluster node = elim (resolve_pdb cluster node) [
    | none ↦ none
    | some spec ↦ some (record {
      metadata = metadata_of cluster node;
      match_labels = build_selector_labels owned_name cluster node;
      min_available = (pdb_limits spec).0;
      max_unavailable = (pdb_limits spec).1;
    })
  ]

  unfoldable pub build_network_policy :
      IdentityServerCluster U → IdentityServerNode U → NetworkPolicy
  build_network_policy cluster node = record {
    metadata = metadata_of cluster node;
    match_labels = build_selector_labels owned_name cluster node;
    ingress = build_ingress cluster node;
  }

  unfoldable pub build_service_monitor :
      IdentityServerCluster U → ServiceMonitorSpec → ServiceMonitor
  build_service_monitor cluster sm = record {
    metadata = record {
      name = owned_name cluster.name "metrics";
      namespace = cluster.namespace;
      labels = merge_maps sm.labels (some (cluster_managed_labels cluster.name));
    };
    match_labels = cluster_managed_labels cluster.name;
    match_names = cluster.namespace ∷ [];
    port = "metrics";
    interval = sm.interval;
  }
