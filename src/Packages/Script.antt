-- ===== src/Packages/Script.antt =====
-- The script of a package's init container (buildPackageDownloadScript in packages.go).
use curity_operator.Prelude.{
  ℕ, String, ◌≡◌, Bool, false, Option, none, some, List, [], ◌∷◌, ◌++◌, arith, if◌then◌else◌,
  is_some, sprint, format_nat,
}
use curity_operator.Packages.{
  PackageAuthSpec, BasicAuthSelector, PackageTlsSpec, SecretKeySelector, PackageSpec,
}

abbrev curl_args : String
curl_args = "-fsSL --max-time 120 --max-filesize 268435456 -o /tmp/pkg.zip"

abbrev ca_flag : Option SecretKeySelector → String
ca_flag none = ""
ca_flag (some r) = " --cacert /tls/ca.crt"

abbrev cert_flag : Option SecretKeySelector → String
cert_flag none = ""
cert_flag (some r) = " --cert /tls/tls.crt --key /tls/tls.key"

tls_flags : Option PackageTlsSpec → String
tls_flags none = ""
tls_flags (some tls) =
    if tls.enabled
    then if tls.skip_verify then " -k" else sprint (ca_flag tls.ca ∷ cert_flag tls.client_cert ∷ [])
    else ""

plain_curl : String → List String
plain_curl flags = "curl" ∷ flags ∷ " " ∷ curl_args ∷ " \"$PKG_URL\"\n" ∷ []

basic_curl : String → Option BasicAuthSelector → List String
unfolding plain_curl
basic_curl flags none = plain_curl flags
basic_curl flags (some ba) =
    "touch /tmp/netrc && chmod 600 /tmp/netrc\n"
    ∷ "printf '%s\\n' \"machine $PKG_HOST login $BASIC_AUTH_USER password $BASIC_AUTH_PASS\" > /tmp/netrc\n"
    ∷ "curl" ∷ flags ∷ " --netrc-file /tmp/netrc " ∷ curl_args ∷ " \"$PKG_URL\"\n" ∷ []

bearer_curl : String → Option SecretKeySelector → Option BasicAuthSelector → List String
unfolding basic_curl
bearer_curl flags none ba = basic_curl flags ba
bearer_curl flags (some bt) ba =
    "printf '%s\\n' \"Authorization: Bearer $BEARER_TOKEN\" | curl" ∷ flags ∷ " --header @- "
    ∷ curl_args ∷ " \"$PKG_URL\"\n" ∷ []

curl_command : String → Option PackageAuthSpec → List String
unfolding bearer_curl
curl_command flags none = plain_curl flags
curl_command flags (some auth) = bearer_curl flags auth.bearer_token auth.basic_auth

unfoldable pub build_package_download_script : PackageSpec → ℕ → String
unfolding curl_command tls_flags
build_package_download_script p idx = sprint (
    "set -e\n"
      ∷ "apk add --no-cache curl unzip ca-certificates >/dev/null\n"
      ∷ "mkdir -p /pkg\n"
      ∷ curl_command (tls_flags p.tls) p.auth
    ++ "unzip -q /tmp/pkg.zip -d /pkg || exit 100\n"
      ∷ "echo \"package-fetch-"
      ∷ format_nat idx
      ∷ ": extracted to /pkg\"\n"
      ∷ [])

-- What of a package the script depends on: the switches, and which references are set.
abbrev pub tls_shape : Option PackageTlsSpec → Bool × Bool × Bool × Bool
tls_shape none = (false, false, false, false)
tls_shape (some tls) = (tls.enabled, tls.skip_verify, is_some tls.ca, is_some tls.client_cert)

abbrev pub auth_shape : Option PackageAuthSpec → Bool × Bool
auth_shape none = (false, false)
auth_shape (some auth) = (is_some auth.bearer_token, is_some auth.basic_auth)

tls_flags-shape :
    (t t' : Option PackageTlsSpec) → tls_shape t ≡ tls_shape t' → tls_flags t ≡ tls_flags t'
unfolding tls_flags
tls_flags-shape t t' h = ground arith

curl_command-shape :
    (flags : String) (a a' : Option PackageAuthSpec)
    → auth_shape a ≡ auth_shape a'
    → curl_command flags a ≡ curl_command flags a'
unfolding curl_command
curl_command-shape flags a a' h = ground arith

-- The script of a package's init container is the same for two packages of the same shape: those
-- that set the same TLS switches and the same kinds of references. So no character of a URL, a
-- mount path, a Secret's name or a key occurs in it by way of the package.
pub build_package_download_script-shape :
    (p q : PackageSpec) (idx : ℕ)
    → tls_shape p.tls ≡ tls_shape q.tls
    → auth_shape p.auth ≡ auth_shape q.auth
    → build_package_download_script p idx ≡ build_package_download_script q idx
unfolding build_package_download_script
build_package_download_script-shape p q idx t a =
    cc (tls_flags-shape p.tls q.tls t, curl_command-shape (tls_flags q.tls) p.auth q.auth a)
