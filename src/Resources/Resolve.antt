-- ===== src/Resources/Resolve.antt =====
-- resources.go: which setting a node has, where it and its cluster can both give one, and what is given
-- neither way.
use curity_operator.Prelude.{
  ℕ, String, not, ◌||◌, Option, none, some, List, [], ◌∷◌, ◌++◌, ◌==◌, nat_eq, if◌then◌else◌,
  is_some, sprint,
}
use curity_operator.Kube.{Map}
use curity_operator.Api.{is_admin}
use curity_operator.Resources.{
  IdentityServerCluster, IdentityServerNode, AutoscalingSpec, PdbSpec, ProbeSpec, LoggingSpec,
  Toleration, Container, PodSecurityContext, SecurityContext, ServiceSpec,
}
use curity_operator.Resources.Labels.{merge_maps}
use Prim.Native.Char.{code}

-- `if node.X != nil { return node.X }; return cluster.X`
abbrev pub prefer {ℓ} : {A : Type ℓ} → Option A → Option A → Option A
prefer none cluster = cluster
prefer (some own) cluster = some own

-- A slice that may be nil, as a list.
abbrev pub items_of {ℓ} : {A : Type ℓ} → Option (List A) → List A
items_of none = []
items_of (some xs) = xs

abbrev pub or_text : String → String → String
or_text s fallback = if s == "" then fallback else s

-- What follows the last occurrence of a byte, if it occurs.
abbrev pub after_last : ℕ → String → Option String
after_last c String.[] = none
after_last c (String.◌∷◌ d s) =
    let rest = after_last c s in
    if is_some rest then rest else if nat_eq (code d) c then some s else none

-- What stands before the last occurrence of a byte, or the whole.
abbrev pub before_last : ℕ → String → String
before_last c String.[] = ""
before_last c (String.◌∷◌ d s) =
    let rest = before_last c s in
    if is_some (after_last c s)
    then String.◌∷◌ d rest
    else if nat_eq (code d) c
    then ""
    else String.◌∷◌ d rest

abbrev or_empty : Option String → String
or_empty none = ""
or_empty (some s) = s

-- Behind the last slash, if there is one, the tag is what follows the last colon. The codes are those
-- of an at sign, a slash and a colon.
unfoldable pub tag_of : String → String
tag_of image =
    let ref = before_last 64 image in
    elim (after_last 47 ref) [
      | some name ↦ or_empty (after_last 58 name)
      | none ↦ or_empty (after_last 58 ref)
    ]

unfoldable pub default_pull_policy : String → String
default_pull_policy image =
    let tag = tag_of image in if tag == "" || tag == "latest" then "Always" else "IfNotPresent"

-- `s.level`, where there is a spec that gives one.
abbrev level_of : {U : Type 0} → Option (LoggingSpec U) → String
level_of none = ""
level_of (some l) = l.level

abbrev enabled_min : {U : Type 0} → Option (AutoscalingSpec U) → Option ℕ
enabled_min none = none
enabled_min (some spec) = if spec.enabled then some spec.min_replicas else none

abbrev service_type : Option ServiceSpec → String
service_type none = ""
service_type (some s) = s.type

module _ {U : Type 0} (cluster : IdentityServerCluster U) (node : IdentityServerNode U) where
  unfoldable pub resolve_autoscaling : Option (AutoscalingSpec U)
  resolve_autoscaling = prefer node.shared.autoscaling cluster.shared.autoscaling

  unfoldable pub resolve_replicas : Option ℕ
  resolve_replicas =
      if is_admin node.node_type then some 1 else elim (enabled_min resolve_autoscaling) [
        | some n ↦ some n
        | none ↦ elim node.replicas [ some n ↦ some n | none ↦ some 1 ]
      ]

  unfoldable pub resolve_pdb : Option PdbSpec
  resolve_pdb = prefer node.shared.pod_disruption_budget cluster.shared.pod_disruption_budget

  unfoldable pub resolve_resources : Option U
  resolve_resources = prefer node.shared.pod_config.resources cluster.shared.pod_config.resources

  unfoldable pub resolve_probes : Option ProbeSpec
  resolve_probes = prefer node.shared.probes cluster.shared.probes

  unfoldable pub resolve_logging_level : String
  resolve_logging_level =
      or_text (level_of node.shared.logging) (or_text (level_of cluster.shared.logging) "INFO")

  unfoldable pub resolve_logging : Option (LoggingSpec U)
  resolve_logging = prefer node.shared.logging cluster.shared.logging

  unfoldable pub resolve_node_selector : Option (Map String)
  resolve_node_selector =
      merge_maps cluster.shared.pod_config.node_selector node.shared.pod_config.node_selector

  unfoldable pub resolve_tolerations : List Toleration
  resolve_tolerations =
      items_of (prefer node.shared.pod_config.tolerations cluster.shared.pod_config.tolerations)

  unfoldable pub resolve_affinity : Option U
  resolve_affinity = prefer node.shared.pod_config.affinity cluster.shared.pod_config.affinity

  unfoldable pub resolve_topology_spread_constraints : List U
  resolve_topology_spread_constraints = items_of (
      prefer node.shared.pod_config.topology_spread_constraints
        cluster.shared.pod_config.topology_spread_constraints)

  unfoldable pub resolve_init_containers : List (Container U)
  resolve_init_containers =
      items_of (prefer node.shared.init_containers cluster.shared.init_containers)

  unfoldable pub resolve_extra_containers : List (Container U)
  resolve_extra_containers =
      items_of (prefer node.shared.extra_containers cluster.shared.extra_containers)

  unfoldable pub resolve_pod_security_context : Option (PodSecurityContext U)
  resolve_pod_security_context =
      prefer node.shared.pod_config.security_context cluster.shared.pod_config.security_context

  unfoldable pub resolve_container_security_context : Option (SecurityContext U)
  resolve_container_security_context =
      prefer node.shared.pod_config.container_security_context
        cluster.shared.pod_config.container_security_context

  unfoldable pub resolve_termination_grace_period_seconds : Option ℕ
  resolve_termination_grace_period_seconds =
      prefer
        (prefer node.shared.pod_config.termination_grace_period_seconds
          cluster.shared.pod_config.termination_grace_period_seconds)
        (some 30)

-- buildImage
unfoldable pub build_image : {U : Type 0} → IdentityServerCluster U → String
build_image cluster =
    if not (cluster.image == "")
    then cluster.image
    else sprint ("curity.azurecr.io/curity/idsvr" ∷ ":" ∷ cluster.version ∷ [])

unfoldable pub resolve_image_pull_policy :
    {U : Type 0} → IdentityServerCluster U → IdentityServerNode U → String
resolve_image_pull_policy cluster node = or_text node.shared.pod_config.image_pull_policy (
    or_text cluster.shared.pod_config.image_pull_policy (default_pull_policy (build_image cluster)))

unfoldable pub resolve_service_type : {U : Type 0} → IdentityServerNode U → String
resolve_service_type node = or_text (service_type node.service) "ClusterIP"

unfoldable pub build_container_args :
    {U : Type 0} → IdentityServerCluster U → IdentityServerNode U → List String
build_container_args cluster node =
    (if is_admin node.node_type
      then "/opt/idsvr/bin/idsvr" ∷ "-s" ∷ node.role ∷ "-N" ∷ node.name ∷ "--admin" ∷ []
      else "/opt/idsvr/bin/idsvr" ∷ "-s" ∷ node.role ∷ "--no-admin" ∷ [])
    ++ (if cluster.fips_mode then "--fips-mode" ∷ [] else [])
