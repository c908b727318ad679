-- ===== src/Kube.antt =====
-- The Kubernetes API objects that the operator reads and writes, with the fields that it uses.
-- k8s.io/api is not in the repository: these are data, with no operations of their own.
use curity_operator.Prelude.{
  ℕ, String, Bool, Option, none, some, List, [], ◌∷◌, ◌==◌, if◌then◌else◌, is_some,
}
use curity_operator.Prelude.Int.{ℤ}

-- A Go map with string keys; the keys are different, and their order is not observed.
abbrev pub Map {ℓ} : Type ℓ → Type ℓ
Map V = List (String × V)

module _ {ℓ} {V : Type ℓ} where
  -- `v, ok := m[k]`
  abbrev pub lookup : String → Map V → Option V
  lookup k [] = none
  lookup k ((j, v) ∷ m) = if j == k then some v else lookup k m

  -- `_, ok := m[k]`
  abbrev pub has_key : String → Map V → Bool
  has_key k m = is_some (lookup k m)

  abbrev pub keys : Map V → List String
  keys [] = []
  keys ((j, v) ∷ m) = j ∷ keys m

-- `m[k]` of a map of strings: a missing key reads as "".
abbrev pub value_of : String → Map String → String
value_of k m = elim (lookup k m) [ none ↦ "" | some v ↦ v ]

pub record Secret : Type 0 where
  pub name : String
  pub resource_version : String
  pub secret_type : String
  pub labels : Map String
  pub annotations : Map String
  pub secret_data : Map (List ℕ)

pub record KeyToPath : Type 0 where
  pub key : String
  pub path : String

-- A projected Secret: its name, and the keys with the files that they become.
pub record SecretProjection : Type 0 where
  pub secret_name : String
  pub items : List KeyToPath

pub data VolumeSource : Type 0 where
  -- emptyDir with a size limit in MiB
  empty_dir : (size_limit : ℕ) → VolumeSource
  -- emptyDir without a limit
  plain_empty_dir : VolumeSource
  secret_volume :
      (secret_name : String) (items : List KeyToPath) (optional : Option Bool) (default_mode : ℕ)
      → VolumeSource
  config_map_volume : (name : String) (default_mode : ℕ) → VolumeSource
  projected : (default_mode : ℕ) (sources : List SecretProjection) → VolumeSource

pub record Volume : Type 0 where
  pub name : String
  pub source : VolumeSource

pub record VolumeMount : Type 0 where
  pub name : String
  pub mount_path : String
  pub sub_path : String
  pub read_only : Bool

pub data EnvValue : Type 0 where
  literal : (value : String) → EnvValue
  secret_key_ref : (name key : String) → EnvValue
  -- another source, which only a user can give
  other_source : (description : String) → EnvValue

pub record EnvVar : Type 0 where
  pub name : String
  pub value : EnvValue

pub record Waiting : Type 0 where
  pub reason : String
  pub message : String

pub record Terminated : Type 0 where
  pub exit_code : ℤ
  pub reason : String
  pub message : String

-- corev1.ContainerState: at most one of the three is set; of Running only its presence is read.
pub record ContainerState : Type 0 where
  pub waiting : Option Waiting
  pub running : Bool
  pub terminated : Option Terminated

pub record ContainerStatus : Type 0 where
  pub name : String
  pub image : String
  pub restart_count : ℤ
  pub state : ContainerState
  pub last_termination_state : ContainerState

pub record OwnerReference : Type 0 where
  pub kind : String
  pub uid : String
  pub controller : Option Bool

pub record PodCondition : Type 0 where
  pub type : String
  pub status : String
  pub reason : String
  pub message : String

-- Times are seconds; 0 is the zero time.
pub record Pod : Type 0 where
  pub name : String
  pub creation_timestamp : ℕ
  pub deletion_timestamp : Option ℕ
  pub labels : Map String
  pub annotations : Map String
  pub owner_references : List OwnerReference
  pub phase : String
  pub conditions : List PodCondition
  pub init_container_statuses : List ContainerStatus
  pub container_statuses : List ContainerStatus

pub record JobCondition : Type 0 where
  pub type : String
  pub status : String
  pub reason : String
  pub message : String
  pub last_transition_time : ℕ

pub record Job : Type 0 where
  pub name : String
  pub deletion_timestamp : Option ℕ
  pub active : ℤ
  pub succeeded : ℤ
  pub failed : ℤ
  pub ready : Option ℤ
  pub conditions : List JobCondition

-- corev1.Event, of whose InvolvedObject the kind is read.
pub record KubeEvent : Type 0 where
  pub type : String
  pub reason : String
  pub involved_kind : String

pub record ObjectMeta : Type 0 where
  pub generation : ℕ
  pub labels : Map String
  pub annotations : Map String
  pub owner_references : List OwnerReference
