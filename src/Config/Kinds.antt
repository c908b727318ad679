-- ===== src/Config/Kinds.antt =====
-- What the type of a config decides: resolveConfigType, mountPathForConfigType, shouldMountConfig,
-- mountFilename and configVolumeName. SHA-256 is not in the repository: the first four bytes of a
-- sum, in hexadecimal, are a parameter.
pub mod Reach
pub mod Filename
use curity_operator.Prelude.{
  ℕ, ◌+◌, ◌-◌, String, ◌⊎◌, inl, inr, Bool, true, false, not, ◌||◌, [], ◌∷◌, ◌++◌, ◌==◌, leb,
  if◌then◌else◌, sprint, quote,
}
use Prim.Native.String
use Prim.Native.String.{len, slice}
use curity_operator.Kube.{Map, value_of}
use curity_operator.Api.{NodeType, is_admin}
use curity_operator.Config.{
  config_type_base, config_type_license, config_type_logging, config_type_post_commit_script,
  config_type_env,
}

abbrev unknown_config_type : String → String
unknown_config_type val = sprint (
    "unknown config type: "
    ∷ quote val
    ∷ " (valid: "
    ∷ quote config_type_base
    ∷ ", "
    ∷ quote config_type_license
    ∷ ", "
    ∷ quote config_type_logging
    ∷ ", "
    ∷ quote config_type_post_commit_script
    ∷ ", "
    ∷ quote config_type_env
    ∷ ")"
    ∷ [])

-- An error, or the type.
unfoldable pub resolve_config_type : Map String → String ⊎ String
resolve_config_type annotations =
    let val = value_of "curity.io/config-type" annotations in
    if val == "" || val == config_type_base
    then inr config_type_base
    else if val == config_type_license
    then inr config_type_license
    else if val == config_type_logging
    then inr config_type_logging
    else if val == config_type_post_commit_script
    then inr config_type_post_commit_script
    else if val == config_type_env
    then inr config_type_env
    else inl (unknown_config_type val)

-- (path, isLeaf)
unfoldable pub mount_path_for_config_type : String → String × Bool
mount_path_for_config_type config_type =
    if config_type == config_type_license
    then ("/opt/idsvr/etc/init/license/", false)
    else if config_type == config_type_logging
    then ("/opt/idsvr/etc/log4j2.xml", true)
    else if config_type == config_type_post_commit_script
    then ("/opt/idsvr/usr/bin/post-commit-scripts/", false)
    else ("/opt/idsvr/etc/init/", false)

unfoldable pub should_mount_config : NodeType → Bool → String → Bool
should_mount_config node_type admin_exists config_type =
    if config_type == config_type_logging
    then true
    else if config_type == config_type_env
    then true
    else if config_type == config_type_post_commit_script
    then is_admin node_type
    else if not admin_exists
    then true
    else is_admin node_type

unfoldable pub mount_filename : Bool → String → String → String
mount_filename is_secret resource_name key =
    sprint ((if is_secret then "secret_" else "cm_") ∷ resource_name ∷ "_" ∷ key ∷ [])

abbrev max_volume_name_length : ℕ
max_volume_name_length = 63

module _ (short_hash : String → String) where
  unfoldable pub config_volume_name : Bool → String → String
  config_volume_name is_secret name =
      let full_name = String.◌++◌ (if is_secret then "cfg-secret-" else "cfg-cm-") name in
      let suffix = short_hash full_name in
      if leb (len full_name) max_volume_name_length
      then full_name
      else sprint (slice full_name 0 (max_volume_name_length - len suffix - 1) ∷ "-" ∷ suffix ∷ [])
