-- ===== src/Packages/Needs.antt =====
-- The keys of Secrets that a pod is given for a package, by its TLS volume and the environment of its
-- init container, are those that checkPackageSecrets requires.
use curity_operator.Prelude.{
  ℕ, String, ◌≡◌, refl, sym, ap, ◌∙◌, Bool, true, false, not, ◌||◌, Option, none, some, List, [],
  ◌∷◌, ◌++◌, append_assoc, if◌then◌else◌, is_some,
}
use curity_operator.Kube.{
  KeyToPath, SecretProjection, VolumeSource, empty_dir, projected, Volume, EnvValue, literal,
  secret_key_ref, EnvVar, plain_empty_dir, secret_volume, config_map_volume, other_source,
}
use curity_operator.Packages.{
  package_tls_volume_name, PackageSpec, PackageTlsSpec, PackageAuthSpec, SecretKeySelector,
  BasicAuthSelector, has_package_tls_volume, package_enabled_tls,
}
use curity_operator.Packages.Refs.{
  basic_ref, cert_ref, key_ref, PackageSecretKeyRef, package_secret_key_refs, tls_refs, auth_refs,
}
use curity_operator.Packages.Volumes.{ca_source, cert_source, build_package_tls_volume}
use curity_operator.Packages.Env.{bearer_env, build_package_init_env, auth_env, basic_env}

-- A Secret's name and a key of it.
abbrev pub SecretKey : Type 0
SecretKey = String × String

abbrev pub with_name : String → List String → List SecretKey
with_name name [] = []
with_name name (k ∷ ks) = (name, k) ∷ with_name name ks

abbrev pub required_keys : List PackageSecretKeyRef → List SecretKey
required_keys [] = []
required_keys (r ∷ rs) = with_name r.name r.keys ++ required_keys rs

abbrev pub item_keys : List KeyToPath → List String
item_keys [] = []
item_keys (i ∷ is) = i.key ∷ item_keys is

abbrev pub source_keys : List SecretProjection → List SecretKey
source_keys [] = []
source_keys (s ∷ ss) = with_name s.secret_name (item_keys s.items) ++ source_keys ss

abbrev pub source_of : VolumeSource → List SecretKey
source_of (empty_dir n) = []
source_of plain_empty_dir = []
source_of (secret_volume name items optional mode) = with_name name (item_keys items)
source_of (config_map_volume name mode) = []
source_of (projected mode sources) = source_keys sources

abbrev pub volume_keys : Option Volume → List SecretKey
volume_keys none = []
volume_keys (some v) = source_of v.source

abbrev pub value_keys : EnvValue → List SecretKey
value_keys (literal v) = []
value_keys (secret_key_ref name key) = (name, key) ∷ []
value_keys (other_source description) = []

abbrev pub env_keys : List EnvVar → List SecretKey
env_keys [] = []
env_keys (e ∷ es) = value_keys e.value ++ env_keys es

required-append :
    (xs ys : List PackageSecretKeyRef)
    → required_keys (xs ++ ys) ≡ required_keys xs ++ required_keys ys
required-append [] ys = refl
required-append (x ∷ xs) ys =
    ap (λ z. with_name x.name x.keys ++ z) (required-append xs ys)
    ∙ sym (append_assoc (with_name x.name x.keys) (required_keys xs) (required_keys ys))

material_keys :
    (name : String) (enabled : Bool) (ca cert : Option SecretKeySelector)
    → volume_keys (
        if not (if not enabled then false else is_some ca || is_some cert)
        then none
        else some
            (record { name = name; source = projected 256 (ca_source ca ++ cert_source cert) }))
      ≡ required_keys (if enabled then key_ref ca ++ cert_ref cert else [])
material_keys name false ca cert = refl
material_keys name true none none = refl
material_keys name true none (some cert) = refl
material_keys name true (some ca) none = refl
material_keys name true (some ca) (some cert) = refl

tls_keys :
    (p : PackageSpec) (i : ℕ) (tls : Option PackageTlsSpec)
    → p.tls ≡ tls
    → volume_keys (build_package_tls_volume p i) ≡ required_keys (tls_refs tls)
unfolding build_package_tls_volume has_package_tls_volume package_enabled_tls
tls_keys p i none e = rw e refl
tls_keys p i (some tls) e =
    rw e (material_keys (package_tls_volume_name i) tls.enabled tls.ca tls.client_cert)

reference_keys :
    (parse_hostname : String → Option String) (url : String) (bearer : Option SecretKeySelector)
    (basic : Option BasicAuthSelector)
    → env_keys (bearer_env parse_hostname bearer ++ basic_env parse_hostname url basic)
      ≡ required_keys (key_ref bearer ++ basic_ref basic)
unfolding basic_env
reference_keys parse_hostname url none none = refl
reference_keys parse_hostname url none (some basic) = refl
reference_keys parse_hostname url (some bearer) none = refl
reference_keys parse_hostname url (some bearer) (some basic) = refl

auth_keys :
    (parse_hostname : String → Option String) (url : String) (auth : Option PackageAuthSpec)
    → env_keys (auth_env parse_hostname url auth) ≡ required_keys (auth_refs auth)
unfolding auth_env basic_env
auth_keys parse_hostname url none = refl
auth_keys parse_hostname url (some auth) =
    reference_keys parse_hostname url auth.bearer_token auth.basic_auth

-- The keys that the check of the Secrets requires for a package are, in order, those that its TLS
-- volume projects and those that the environment of its init container refers to.
pub required_keys-given :
    (parse_hostname : String → Option String) (p : PackageSpec) (i : ℕ)
    → required_keys (package_secret_key_refs p)
      ≡ volume_keys (build_package_tls_volume p i)
        ++ env_keys (build_package_init_env parse_hostname p)
unfolding package_secret_key_refs build_package_init_env
required_keys-given parse_hostname p i =
    required-append (tls_refs p.tls) (auth_refs p.auth)
    ∙ sym (ap (λ z. z ++ required_keys (auth_refs p.auth)) (tls_keys p i p.tls refl))
    ∙ sym (
        ap (λ z. volume_keys (build_package_tls_volume p i) ++ z)
          (auth_keys parse_hostname p.url p.auth))
