-- ===== src/Packages/Volumes.antt =====
-- The volumes and mounts of the packages (buildPackageVolumes, buildPackageTLSVolume,
-- buildPackageVolumeMounts, buildPackageInitVolumeMounts in packages.go).
pub mod Mounted
use curity_operator.Prelude.{
  ℕ, suc, true, false, not, Option, none, some, List, [], ◌∷◌, ◌++◌, if◌then◌else◌, push,
}
use curity_operator.Packages.{
  derive_private_key_key, package_tls_volume_name, package_volume_name, has_package_tls_volume,
  PackageTlsSpec, SecretKeySelector, PackageSpec,
}
use curity_operator.Kube.{projected, empty_dir, SecretProjection, VolumeMount, Volume}

-- packageVolumeSizeLimit, in MiB
abbrev package_volume_size_limit : ℕ
package_volume_size_limit = 256

abbrev pub ca_source : Option SecretKeySelector → List SecretProjection
ca_source none = []
ca_source (some r) =
    record { secret_name = r.name; items = record { key = r.key; path = "ca.crt" } ∷ [] } ∷ []

abbrev pub cert_source : Option SecretKeySelector → List SecretProjection
cert_source none = []
cert_source (some r) =
    record {
      secret_name = r.name;
      items =
          record { key = r.key; path = "tls.crt" }
          ∷ record { key = derive_private_key_key r.key; path = "tls.key" }
          ∷ [];
    }
    ∷ []

abbrev pub tls_sources : Option PackageTlsSpec → List SecretProjection
tls_sources none = []
tls_sources (some tls) = ca_source tls.ca ++ cert_source tls.client_cert

-- `nil` when the package has no TLS volume; 0o400 is 256.
unfoldable pub build_package_tls_volume : PackageSpec → ℕ → Option Volume
build_package_tls_volume p idx =
    if not (has_package_tls_volume p)
    then none
    else some
        (record { name = package_tls_volume_name idx; source = projected 256 (tls_sources p.tls) })

volumes_from : ℕ → List PackageSpec → List Volume
volumes_from i [] = []
volumes_from i (p ∷ packages) =
    record { name = package_volume_name i; source = empty_dir package_volume_size_limit }
    ∷ push (build_package_tls_volume p i) (volumes_from (suc i) packages)

unfoldable pub build_package_volumes : List PackageSpec → List Volume
unfolding volumes_from
build_package_volumes packages = volumes_from 0 packages

mounts_from : ℕ → List PackageSpec → List VolumeMount
mounts_from i [] = []
mounts_from i (p ∷ packages) =
    record {
      name = package_volume_name i;
      mount_path = p.mount_path;
      sub_path = "";
      read_only = true;
    }
    ∷ mounts_from (suc i) packages

unfoldable pub build_package_volume_mounts : List PackageSpec → List VolumeMount
unfolding mounts_from
build_package_volume_mounts packages = mounts_from 0 packages

unfoldable pub build_package_init_volume_mounts : PackageSpec → ℕ → List VolumeMount
build_package_init_volume_mounts p idx =
    let tls =
      record {
        name = package_tls_volume_name idx;
        mount_path = "/tls";
        sub_path = "";
        read_only = true;
      }
      ∷ [] in
    record { name = package_volume_name idx; mount_path = "/pkg"; sub_path = ""; read_only = false }
    ∷ (if has_package_tls_volume p then tls else [])
