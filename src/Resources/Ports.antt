-- ===== src/Resources/Ports.antt =====
-- resources.go: the ports of a node's container, of its Service and of its NetworkPolicy. The default ports
-- are those of the Curity Identity Server.
pub mod Laws
use curity_operator.Prelude.{
  ℕ, ◌-◌, String, Bool, false, not, ◌&&◌, Option, none, some, List, [], ◌∷◌, ◌==◌, nat_eq,
  if◌then◌else◌,
}
use curity_operator.Kube.{Map}
use curity_operator.Api.{is_admin}
use curity_operator.Resources.{
  IdentityServerCluster, IdentityServerNode, ContainerPort, ServicePort, named, ServiceSpec, UiSpec,
}

-- `if service != nil && service.X != 0 { return service.X }; return default`
abbrev pub or_port : ℕ → ℕ → ℕ
or_port n default = if nat_eq n 0 then default else n

abbrev pub service_port_of : Option ServiceSpec → ℕ
service_port_of none = 0
service_port_of (some s) = s.port

abbrev pub distributed_port_of : Option ServiceSpec → ℕ
distributed_port_of none = 0
distributed_port_of (some s) = s.distributed_service_port

-- `node.Spec.Service.UIPort`; without a service block there is none, which 0 stands for.
abbrev pub ui_port_of : Option ServiceSpec → ℕ
ui_port_of none = 0
ui_port_of (some s) = s.ui_port

-- `node.Spec.UI != nil && node.Spec.UI.Enabled`
abbrev pub ui_enabled : Option UiSpec → Bool
ui_enabled none = false
ui_enabled (some ui) = ui.enabled

abbrev tcp_port : String → ℕ → ContainerPort
tcp_port name n = record { name = name; container_port = n; protocol = "TCP" }

abbrev tcp_target : String → ℕ → ServicePort
tcp_target name n = record { name = name; port = n; target_port = named name; protocol = "TCP" }

-- A peer of an ingress rule: pods or namespaces by their labels.
pub data Peer : Type 0 where
  pod_selector : (match_labels : Map String) → Peer
  namespace_selector : (match_labels : Map String) → Peer

-- The ports are TCP.
pub record IngressRule : Type 0 where
  pub peers : List Peer
  pub ports : List ℕ

abbrev pub gateway_of : Option String → String
gateway_of none = ""
gateway_of (some namespace) = namespace

module _ {U : Type 0} where
  unfoldable pub resolve_http_port : IdentityServerNode U → ℕ
  resolve_http_port node = or_port (service_port_of node.service) 8443

  unfoldable pub resolve_config_port : IdentityServerNode U → ℕ
  resolve_config_port node = or_port (service_port_of node.service) 6789

  unfoldable pub resolve_distributed_service_port : IdentityServerNode U → ℕ
  resolve_distributed_service_port node = or_port (distributed_port_of node.service) 6790

  unfoldable pub admin_ui_exposed : IdentityServerNode U → Bool
  admin_ui_exposed node = ui_enabled node.ui && not (nat_eq (ui_port_of node.service) 0)

  unfoldable pub build_container_ports : IdentityServerNode U → List ContainerPort
  build_container_ports node =
      tcp_port "health-check" 4465
      ∷ tcp_port "metrics" 4466
      ∷ (if is_admin node.node_type
          then tcp_port "config" (resolve_config_port node)
            ∷ tcp_port "ds-port" (resolve_distributed_service_port node)
            ∷ (if admin_ui_exposed node
                then tcp_port "admin-ui" (ui_port_of node.service) ∷ []
                else [])
          else tcp_port "http" (resolve_http_port node) ∷ [])

  unfoldable pub build_service_ports : IdentityServerNode U → List ServicePort
  build_service_ports node =
      tcp_target "health-check" 4465
      ∷ tcp_target "metrics" 4466
      ∷ (if is_admin node.node_type
          then tcp_target "config" (resolve_config_port node)
            ∷ tcp_target "ds-port" (resolve_distributed_service_port node)
            ∷ (if admin_ui_exposed node
                then tcp_target "admin-ui" (ui_port_of node.service) ∷ []
                else [])
          else tcp_target "http" (resolve_http_port node) ∷ [])

  -- The ingress of buildNetworkPolicy; its callers have a cluster with a network policy.
  unfoldable pub build_ingress : IdentityServerCluster U → IdentityServerNode U → List IngressRule
  build_ingress cluster node =
      let gateway = gateway_of cluster.network_policy in
      record {
        peers =
            pod_selector (
              ("curity.io/cluster", cluster.name) ∷ ("app.kubernetes.io/component", "runtime") ∷ [])
            ∷ [];
        ports = resolve_config_port node ∷ resolve_distributed_service_port node ∷ [];
      }
      ∷ record {
        peers =
            pod_selector
              (("curity.io/cluster", cluster.name) ∷ ("curity.io/component", "cluster-config") ∷ [])
            ∷ [];
        ports = resolve_config_port node ∷ [];
      }
      ∷ (if admin_ui_exposed node && not (gateway == "")
          then record {
            peers = namespace_selector (("kubernetes.io/metadata.name", gateway) ∷ []) ∷ [];
            ports = ui_port_of node.service ∷ [];
          }
            ∷ []
          else [])
