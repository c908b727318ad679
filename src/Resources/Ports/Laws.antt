-- ===== src/Resources/Ports/Laws.antt =====
-- The ports of a node's Service, its container and its NetworkPolicy agree (resources.go).
use curity_operator.Prelude.{
  ℕ, String, ◌≡◌, refl, inl, inr, Bool, true, not, ◌&&◌, List, [], ◌∷◌, map, Memᴰ, arith, ◌==◌,
  Bool-cases, all, All,
}
use curity_operator.Api.{admin, is_admin}
use curity_operator.Resources.{
  IdentityServerCluster, IdentityServerNode, ContainerPort, ServicePort, named,
}
use curity_operator.Resources.Ports.{
  build_container_ports, build_service_ports, build_ingress, resolve_config_port,
  resolve_distributed_service_port, admin_ui_exposed, ui_port_of, gateway_of,
}

-- The Service port for a container port: the same number, and the container port's name as target.
abbrev pub target_of : ContainerPort → ServicePort
target_of p = record {
  name = p.name;
  port = p.container_port;
  target_port = named p.name;
  protocol = p.protocol;
}

abbrev pub port_number : ContainerPort → ℕ
port_number p = p.container_port

abbrev pub port_name : ContainerPort → String
port_name p = p.name

-- No two ports have one name.
abbrev pub different_names : List ContainerPort → Bool
different_names [] = true
different_names (p ∷ ports) = all (λ q. not (p.name == q.name)) ports && different_names ports

-- The port is one that a list of container ports opens.
abbrev pub Opens : List ContainerPort → ℕ → Type 0
Opens ports n = Memᴰ n (map port_number ports)

module _ {U : Type 0} where
  -- The ports of a node's Service are, in order, those of its container, each with the name of the
  -- container's port as its target; no two ports of the container have one name.
  pub build_service_ports-targets :
      (node : IdentityServerNode U)
      → (build_service_ports node ≡ map target_of (build_container_ports node))
        × (different_names (build_container_ports node) ≡ true)
  unfolding build_service_ports build_container_ports
  build_service_ports-targets node = elim (Bool-cases (is_admin node.node_type)) [
    | inl a ↦ elim (Bool-cases (admin_ui_exposed node)) [
      | inl u ↦ rw (a, u) (refl, refl)
      | inr u ↦ rw (a, u) (refl, refl)
    ]
    | inr a ↦ rw a (refl, refl)
  ]

  -- Every port that the NetworkPolicy of an admin node admits is a port of the node's container.
  pub build_ingress-ports :
      (cluster : IdentityServerCluster U) (node : IdentityServerNode U)
      → node.node_type ≡ admin
      → All (λ r. All (Opens (build_container_ports node)) r.ports) (build_ingress cluster node)
  unfolding build_ingress build_container_ports
  build_ingress-ports cluster node h =
      let a : is_admin node.node_type ≡ true = rw h refl in
      let config : Memᴰ (resolve_config_port node) (map port_number (build_container_ports node)) =
        rw a (Memᴰ.tail (Memᴰ.tail (Memᴰ.head refl))) in
      let distributed : Memᴰ (resolve_distributed_service_port node)
          (map port_number (build_container_ports node)) =
        rw a (Memᴰ.tail (Memᴰ.tail (Memᴰ.tail (Memᴰ.head refl)))) in
      elim (Bool-cases (admin_ui_exposed node && not (gateway_of cluster.network_policy == ""))) [
        | inl e ↦
            let exposed : admin_ui_exposed node ≡ true = ground (arith, e) in
            let ui : Memᴰ (ui_port_of node.service) (map port_number (build_container_ports node)) =
              rw (a, exposed) (Memᴰ.tail (Memᴰ.tail (Memᴰ.tail (Memᴰ.tail (Memᴰ.head refl))))) in
            rw e ((config, (distributed, tt)), ((config, tt), ((ui, tt), tt)))
        | inr e ↦ rw e ((config, (distributed, tt)), ((config, tt), tt))
      ]
