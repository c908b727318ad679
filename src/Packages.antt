-- ===== src/Packages.antt =====
-- packages.go: what the operator adds to a pod for the packages of a cluster. The types are those
-- of api/v1alpha1/common_types.go; a struct whose only field is `secretRef` is that field.
pub mod Refs
pub mod Volumes
pub mod Env
pub mod Script
pub mod Check
pub mod Status
pub mod Needs
use curity_operator.Prelude.{
  ℕ, ◌+◌, ◌-◌, String, Bool, false, not, ◌&&◌, ◌||◌, Option, none, some, ◌++◌, ◌==◌, leb,
  if◌then◌else◌, is_some, format_nat,
}
use Prim.Native.String
use Prim.Native.String.{len, slice}

pub record SecretKeySelector : Type 0 where
  pub name : String
  pub key : String

pub record BasicAuthSelector : Type 0 where
  pub name : String
  pub username_key : String
  pub password_key : String

pub record PackageTlsSpec : Type 0 where
  pub enabled : Bool
  pub skip_verify : Bool
  pub ca : Option SecretKeySelector
  pub client_cert : Option SecretKeySelector

pub record PackageAuthSpec : Type 0 where
  pub basic_auth : Option BasicAuthSelector
  pub bearer_token : Option SecretKeySelector

pub record PackageSpec : Type 0 where
  pub url : String
  pub tls : Option PackageTlsSpec
  pub auth : Option PackageAuthSpec
  pub mount_path : String

-- The three names of the n-th package.
unfoldable pub package_volume_name : ℕ → String
package_volume_name idx = String.◌++◌ "pkg-" (format_nat idx)

unfoldable pub package_tls_volume_name : ℕ → String
package_tls_volume_name idx = String.◌++◌ "pkg-" (String.◌++◌ (format_nat idx) "-tls")

unfoldable pub package_init_container_name : ℕ → String
package_init_container_name idx = String.◌++◌ "package-fetch-" (format_nat idx)

-- `p.Source.TLS != nil && p.Source.TLS.Enabled`
abbrev pub tls_enabled : Option PackageTlsSpec → Bool
tls_enabled none = false
tls_enabled (some tls) = tls.enabled

unfoldable pub package_enabled_tls : PackageSpec → Bool
package_enabled_tls p = tls_enabled p.tls

abbrev pub tls_has_material : Option PackageTlsSpec → Bool
tls_has_material none = false
tls_has_material (some tls) = is_some tls.ca || is_some tls.client_cert

unfoldable pub has_package_tls_volume : PackageSpec → Bool
unfolding package_enabled_tls
has_package_tls_volume p = if not (package_enabled_tls p) then false else tls_has_material p.tls

-- `strings.HasSuffix`
abbrev pub has_suffix : String → String → Bool
has_suffix s t = leb (len t) (len s) && slice s (len s - len t) (len s) == t

unfoldable pub derive_private_key_key : String → String
derive_private_key_key cert_key =
    if has_suffix cert_key "crt"
    then String.◌++◌ (slice cert_key 0 (len cert_key - 3)) "key"
    else "tls.key"
