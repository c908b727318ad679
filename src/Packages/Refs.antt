-- ===== src/Packages/Refs.antt =====
-- The Secrets that a package refers to (packageSecretKeyRefs, packageSecretNames,
-- packageReferencesSecret in packages.go).
pub mod Names
use curity_operator.Prelude.{
  String, Bool, false, ◌||◌, Option, none, some, List, [], ◌∷◌, ◌++◌, ◌==◌, if◌then◌else◌, any,
}
use curity_operator.Packages.{
  derive_private_key_key, PackageAuthSpec, PackageTlsSpec, BasicAuthSelector, SecretKeySelector,
  PackageSpec,
}

pub record PackageSecretKeyRef : Type 0 where
  pub name : String
  pub keys : List String

abbrev pub key_ref : Option SecretKeySelector → List PackageSecretKeyRef
key_ref none = []
key_ref (some r) = record { name = r.name; keys = r.key ∷ [] } ∷ []

abbrev pub cert_ref : Option SecretKeySelector → List PackageSecretKeyRef
cert_ref none = []
cert_ref (some r) = record { name = r.name; keys = r.key ∷ derive_private_key_key r.key ∷ [] } ∷ []

abbrev pub basic_ref : Option BasicAuthSelector → List PackageSecretKeyRef
basic_ref none = []
basic_ref (some r) = record { name = r.name; keys = r.username_key ∷ r.password_key ∷ [] } ∷ []

abbrev pub tls_refs : Option PackageTlsSpec → List PackageSecretKeyRef
tls_refs none = []
tls_refs (some tls) = if tls.enabled then key_ref tls.ca ++ cert_ref tls.client_cert else []

abbrev pub auth_refs : Option PackageAuthSpec → List PackageSecretKeyRef
auth_refs none = []
auth_refs (some auth) = key_ref auth.bearer_token ++ basic_ref auth.basic_auth

unfoldable pub package_secret_key_refs : PackageSpec → List PackageSecretKeyRef
package_secret_key_refs p = tls_refs p.tls ++ auth_refs p.auth

-- The inner loop of packageSecretNames over one package's references; `seen` holds the names
-- appended so far, which are the keys of the map of that name.
add_names : List String → List PackageSecretKeyRef → List String
add_names seen [] = seen
add_names seen (ref ∷ refs) =
    add_names (if any (λ n. n == ref.name) seen then seen else seen ++ ref.name ∷ []) refs

names_from : List String → List PackageSpec → List String
unfolding add_names
names_from seen [] = seen
names_from seen (p ∷ packages) = names_from (add_names seen (package_secret_key_refs p)) packages

unfoldable pub package_secret_names : List PackageSpec → List String
unfolding names_from
package_secret_names packages = names_from [] packages

unfoldable pub package_references_secret : List PackageSpec → String → Bool
package_references_secret [] name = false
package_references_secret (p ∷ packages) name =
    any (λ r. r.name == name) (package_secret_key_refs p) || package_references_secret packages name
