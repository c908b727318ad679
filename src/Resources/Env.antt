-- ===== src/Resources/Env.antt =====
-- resources.go: the environment of the main container (buildEnvVars, buildEnvFrom). sort.Slice does not
-- promise an order for a ConfigMap and a Secret of one name; here they keep theirs.
use curity_operator.Prelude.{
  String, Bool, true, false, not, ◌&&◌, Option, none, some, List, [], ◌∷◌, ◌++◌, map, ◌==◌,
  if◌then◌else◌, any, select, sort_by, less_by,
}
use curity_operator.Kube.{EnvVar, KeyToPath, literal, secret_key_ref}
use curity_operator.Api.{is_admin}
use curity_operator.Config.{DiscoveredManagedResource, config_type_env}
use curity_operator.Resources.{
  IdentityServerCluster, IdentityServerNode, EnvFromSource, secret_ref, config_map_ref, UiSpec,
  SecretKeyRefSource,
}
use curity_operator.Resources.Resolve.{resolve_logging_level}
use curity_operator.Resources.Ports.{ui_enabled}

abbrev pub is_set : Option Bool → Bool
is_set none = false
is_set (some b) = b

abbrev pub env_literal : String → String → EnvVar
env_literal name value = record { name = name; value = literal value }

abbrev pub env_secret : String → String → String → EnvVar
env_secret name secret key = record { name = name; value = secret_key_ref secret key }

-- "true" only where `secure` is given as false.
abbrev http_mode : Option UiSpec → String
http_mode none = "false"
http_mode (some ui) = elim ui.secure [ none ↦ "false" | some s ↦ if s then "false" else "true" ]

abbrev pub credential_env : Bool → String → List KeyToPath → List EnvVar
credential_env is_admin_node secret [] = []
credential_env is_admin_node secret (item ∷ items) =
    let rest = credential_env is_admin_node secret items in
    if item.key == "ADMIN_PASSWORD" && not is_admin_node
    then rest
    else env_secret item.path secret item.key ∷ rest

abbrev pub credentials_env : Bool → Option SecretKeyRefSource → List EnvVar
credentials_env is_admin_node none = []
credentials_env is_admin_node (some ref) = credential_env is_admin_node ref.name ref.items

abbrev pub password_env : Option SecretKeyRefSource → List EnvVar
password_env none = []
password_env (some ref) =
    if any (λ item. item.path == "PASSWORD") ref.items
    then []
    else env_secret "PASSWORD" ref.name "ADMIN_PASSWORD" ∷ []

module _ {U : Type 0} where
  unfoldable pub build_env_vars : IdentityServerCluster U → IdentityServerNode U → List EnvVar
  build_env_vars cluster node =
      let admin_node = is_admin node.node_type in
      let ui = admin_node && ui_enabled node.ui in
      (env_literal "STATUS_CMD_PORT" "4465"
        ∷ env_literal "LOGGING_LEVEL" (resolve_logging_level cluster node)
        ∷ [])
      ++ (if ui then env_literal "ADMIN_UI_HTTP_MODE" (http_mode node.ui) ∷ [] else [])
      ++ credentials_env admin_node cluster.admin_credentials
      ++ (if admin_node && is_set node.skip_install
          then env_literal "SKIP_INSTALL" "1" ∷ []
          else [])
      ++ (if ui then password_env cluster.admin_credentials else [])
      ++ node.environment_variables

abbrev pub env_source : DiscoveredManagedResource → EnvFromSource
env_source cfg =
    if cfg.is_secret then secret_ref cfg.name (some true) else config_map_ref cfg.name (some true)

unfoldable pub build_env_from : List DiscoveredManagedResource → List EnvFromSource
build_env_from configs = map env_source (
    sort_by (less_by (λ cfg. cfg.name))
      (select (λ cfg. cfg.config_type == config_type_env) configs))
