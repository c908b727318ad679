-- ===== src/Packages/Env.antt =====
-- The environment of a package's init container (buildPackageInitEnv in packages.go). The host of
-- a URL is net/url's; its parser is a parameter, `none` where it fails.
use curity_operator.Prelude.{String, Option, none, some, List, [], ◌∷◌, ◌++◌}
use curity_operator.Packages.{PackageAuthSpec, BasicAuthSelector, SecretKeySelector, PackageSpec}
use curity_operator.Kube.{literal, EnvVar, secret_key_ref}

module _ (parse_hostname : String → Option String) where
  abbrev host_or_empty : Option String → String
  host_or_empty none = ""
  host_or_empty (some host) = host

  unfoldable pub package_url_host : String → String
  package_url_host u = host_or_empty (parse_hostname u)

  abbrev pub bearer_env : Option SecretKeySelector → List EnvVar
  bearer_env none = []
  bearer_env (some bt) =
      record { name = "BEARER_TOKEN"; value = secret_key_ref bt.name bt.key } ∷ []

  unfoldable pub basic_env : String → Option BasicAuthSelector → List EnvVar
  basic_env url none = []
  basic_env url (some ba) =
      record { name = "PKG_HOST"; value = literal (package_url_host url) }
      ∷ record { name = "BASIC_AUTH_USER"; value = secret_key_ref ba.name ba.username_key }
      ∷ record { name = "BASIC_AUTH_PASS"; value = secret_key_ref ba.name ba.password_key }
      ∷ []

  unfoldable pub auth_env : String → Option PackageAuthSpec → List EnvVar
  auth_env url none = []
  auth_env url (some auth) = bearer_env auth.bearer_token ++ basic_env url auth.basic_auth

  unfoldable pub build_package_init_env : PackageSpec → List EnvVar
  unfolding auth_env basic_env package_url_host
  build_package_init_env p =
      record { name = "PKG_URL"; value = literal p.url } ∷ auth_env p.url p.auth
