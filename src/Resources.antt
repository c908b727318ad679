-- ===== src/Resources.antt =====
-- resources.go: the Kubernetes objects of a node. Here are the API types that it reads and builds. `U` is
-- the type of what a user gives and the operator copies unread (affinities, resource requirements and
-- the like). Fields that Go declares as int32 or int64 and the API server keeps from being negative
-- are natural numbers.
pub mod Labels
pub mod Resolve
pub mod Env
pub mod Volumes
pub mod Pod
pub mod Objects
pub mod Conflicts
pub mod Ports
pub mod Defaults
pub mod Naming
use curity_operator.Prelude.{ℕ, String, Bool, Option, List}
use curity_operator.Api.{NodeType}
use curity_operator.Kube.{Map, EnvVar, VolumeMount, KeyToPath}
use curity_operator.Packages.{PackageSpec}

-- intstr.IntOrString
pub data IntOrString : Type 0 where
  number : (n : ℕ) → IntOrString
  named : (name : String) → IntOrString

pub record ContainerPort : Type 0 where
  pub name : String
  pub container_port : ℕ
  pub protocol : String

pub record ServicePort : Type 0 where
  pub name : String
  pub port : ℕ
  pub target_port : IntOrString
  pub protocol : String

pub record HttpGetAction : Type 0 where
  pub path : String
  pub port : IntOrString
  pub scheme : String

pub record Probe (U : Type 0) : Type 0 where
  pub http_get : Option HttpGetAction
  pub initial_delay_seconds : ℕ
  pub period_seconds : ℕ
  pub timeout_seconds : ℕ
  pub failure_threshold : ℕ
  pub success_threshold : ℕ
  pub rest : Option U

pub record LifecycleHandler (U : Type 0) : Type 0 where
  pub http_get : Option HttpGetAction
  pub rest : Option U

pub record Lifecycle (U : Type 0) : Type 0 where
  pub post_start : Option (LifecycleHandler U)
  pub pre_stop : Option (LifecycleHandler U)

pub data EnvFromSource : Type 0 where
  secret_ref : (name : String) (optional : Option Bool) → EnvFromSource
  config_map_ref : (name : String) (optional : Option Bool) → EnvFromSource

pub data ResourceRequirements (U : Type 0) : Type 0 where
  no_requirements : ResourceRequirements U
  -- packageInitContainerResources
  package_requirements : ResourceRequirements U
  given : (requirements : U) → ResourceRequirements U

pub record SecurityContext (U : Type 0) : Type 0 where
  pub run_as_user : Option ℕ
  pub run_as_group : Option ℕ
  pub allow_privilege_escalation : Option Bool
  pub drop : List String
  pub rest : Option U

pub record PodSecurityContext (U : Type 0) : Type 0 where
  pub run_as_user : Option ℕ
  pub run_as_group : Option ℕ
  pub fs_group : Option ℕ
  pub rest : Option U

pub record Container (U : Type 0) : Type 0 where
  pub name : String
  pub image : String
  pub image_pull_policy : String
  pub command : List String
  pub args : List String
  pub ports : List ContainerPort
  pub env : List EnvVar
  pub env_from : List EnvFromSource
  pub resources : ResourceRequirements U
  pub volume_mounts : List VolumeMount
  pub liveness_probe : Option (Probe U)
  pub readiness_probe : Option (Probe U)
  pub startup_probe : Option (Probe U)
  pub lifecycle : Option (Lifecycle U)
  pub termination_message_path : String
  pub termination_message_policy : String
  pub security_context : Option (SecurityContext U)
  pub rest : Option U

pub record Toleration : Type 0 where
  pub key : String
  pub operator : String
  pub effect : String
  pub toleration_seconds : Option ℕ

pub record UiSpec : Type 0 where
  pub enabled : Bool
  pub secure : Option Bool

pub record ServiceSpec : Type 0 where
  pub type : String
  pub port : ℕ
  pub distributed_service_port : ℕ
  pub ui_port : ℕ

pub record ProbeConfig : Type 0 where
  pub initial_delay_seconds : Option ℕ
  pub period_seconds : Option ℕ
  pub timeout_seconds : Option ℕ
  pub failure_threshold : Option ℕ
  pub success_threshold : Option ℕ

pub record ProbeSpec : Type 0 where
  pub liveness : Option ProbeConfig
  pub readiness : Option ProbeConfig

pub record AutoscalingSpec (U : Type 0) : Type 0 where
  pub enabled : Bool
  pub min_replicas : ℕ
  pub max_replicas : ℕ
  pub target_cpu_utilization_percentage : ℕ
  pub custom_metrics : List U

pub record PdbSpec : Type 0 where
  pub min_available : Option IntOrString
  pub max_unavailable : Option IntOrString

pub record LoggingSpec (U : Type 0) : Type 0 where
  pub level : String
  pub logs : List String
  pub image : String
  pub resources : Option U

-- spec.adminCredentials.valueFrom.secretKeyRef
pub record SecretKeyRefSource : Type 0 where
  pub name : String
  pub items : List KeyToPath

pub record CommonPodConfig (U : Type 0) : Type 0 where
  pub resources : Option U
  pub node_selector : Option (Map String)
  pub tolerations : Option (List Toleration)
  pub topology_spread_constraints : Option (List U)
  pub affinity : Option U
  pub security_context : Option (PodSecurityContext U)
  pub container_security_context : Option (SecurityContext U)
  pub termination_grace_period_seconds : Option ℕ
  pub image_pull_policy : String

-- What a node and its cluster can both say.
pub record SharedSpec (U : Type 0) : Type 0 where
  pub pod_annotations : Option (Map String)
  pub pod_labels : Option (Map String)
  pub probes : Option ProbeSpec
  pub logging : Option (LoggingSpec U)
  pub autoscaling : Option (AutoscalingSpec U)
  pub pod_disruption_budget : Option PdbSpec
  pub pod_config : CommonPodConfig U
  pub init_containers : Option (List (Container U))
  pub extra_containers : Option (List (Container U))

pub record IdentityServerCluster (U : Type 0) : Type 0 where
  pub name : String
  pub namespace : String
  pub version : String
  pub image : String
  pub image_pull_secret : String
  pub fips_mode : Bool
  pub admin_credentials : Option SecretKeyRefSource
  pub packages : List PackageSpec
  -- spec.networkPolicy.apiGatewayNamespace
  pub network_policy : Option String
  pub shared : SharedSpec U

pub record IdentityServerNode (U : Type 0) : Type 0 where
  pub name : String
  pub namespace : String
  pub node_type : NodeType
  pub role : String
  pub ui : Option UiSpec
  pub skip_install : Option Bool
  pub replicas : Option ℕ
  pub service : Option ServiceSpec
  pub environment_variables : List EnvVar
  pub shared : SharedSpec U
