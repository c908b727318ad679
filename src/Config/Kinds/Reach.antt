-- ===== src/Config/Kinds/Reach.antt =====
-- Which nodes of a cluster get a config: adminExists is whether some node of the cluster is an admin.
use curity_operator.Prelude.{
  String, ◌≡◌, refl, ◌∙◌, inl, inr, Bool, not, ◌&&◌, ◌||◌, List, [], ◌∷◌, arith, ◌==◌, eq_iff,
  Bool-cases, any, is_empty,
}
use curity_operator.Api.{NodeType, is_admin}
use curity_operator.Config.{config_type_post_commit_script, config_type_logging, config_type_env}
use curity_operator.Config.Kinds.{should_mount_config}

-- Whether a config of this type is for every node.
everywhere : Bool → String → Bool
everywhere admin_exists config_type =
    config_type == config_type_logging
    || config_type == config_type_env
    || not (config_type == config_type_post_commit_script) && not admin_exists

should_mount_split :
    (t : NodeType) (b : Bool) (config_type : String)
    → should_mount_config t b config_type ≡ (everywhere b config_type || is_admin t)
unfolding should_mount_config everywhere
should_mount_split t b config_type = ground (
  arith,
  eq_iff config_type config_type_logging,
  eq_iff config_type config_type_env,
  eq_iff config_type config_type_post_commit_script,
)

any_mounts :
    (b : Bool) (config_type : String) (types : List NodeType)
    → any (λ t. should_mount_config t b config_type) types
      ≡ (not (is_empty types) && everywhere b config_type || any is_admin types)
any_mounts b config_type [] = refl
any_mounts b config_type (t ∷ types) =
    ground (arith, should_mount_split t b config_type, any_mounts b config_type types)

any_runtime_mounts :
    (b : Bool) (config_type : String) (types : List NodeType)
    → any (λ t. not (is_admin t) && should_mount_config t b config_type) types
      ≡ (any (λ t. not (is_admin t)) types && everywhere b config_type)
any_runtime_mounts b config_type [] = ground arith
any_runtime_mounts b config_type (t ∷ types) =
    ground (arith, should_mount_split t b config_type, any_runtime_mounts b config_type types)

everywhere_or_admin :
    (b : Bool) (config_type : String)
    → (everywhere b config_type || b) ≡ (not (config_type == config_type_post_commit_script) || b)
unfolding everywhere
everywhere_or_admin b config_type =
    elim (Bool-cases (config_type == config_type_post_commit_script)) [
      | inl e ↦
          let same : config_type ≡ config_type_post_commit_script =
            (eq_iff config_type config_type_post_commit_script).0 e in
          rw same (ground arith)
      | inr e ↦ ground arith
    ]

-- Some node of a cluster that has nodes mounts a config, unless it is a post-commit script and the
-- cluster has no admin. Some runtime node mounts it exactly where there is a runtime node and the
-- config is for logging or for the environment, or the cluster has no admin and the config is not a
-- post-commit script.
pub should_mount_config-reach :
    (t : NodeType) (rest : List NodeType) (config_type : String)
    → let types = t ∷ rest in
      let admin_exists = any is_admin types in
      (any (λ n. should_mount_config n admin_exists config_type) types
        ≡ (not (config_type == config_type_post_commit_script) || admin_exists))
      × (any (λ n. not (is_admin n) && should_mount_config n admin_exists config_type) types ≡ (
          any (λ n. not (is_admin n)) types
          && (config_type == config_type_logging
              || config_type == config_type_env
              || not (config_type == config_type_post_commit_script) && not admin_exists)))
unfolding everywhere
should_mount_config-reach t rest config_type =
    let types = t ∷ rest in
    (
      any_mounts (any is_admin types) config_type types
          ∙ everywhere_or_admin (any is_admin types) config_type,
      any_runtime_mounts (any is_admin types) config_type types,
    )
