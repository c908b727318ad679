-- ===== src/Packages/Volumes/Mounted.antt =====
-- The volumes of the packages have different names, and every mount names one of them.
use curity_operator.Prelude.{
  ℕ, zero, suc, ◌+◌, String, ◌≡◌, refl, sym, ap, subst, inl, inr, true, Option, none, some, List,
  [], ◌∷◌, map, Memᴰ, arith, Bool-cases, get_elem?, push, All, All-imp,
}
use curity_operator.Kube.{Volume, VolumeMount, empty_dir}
use curity_operator.Packages.{
  package_tls_volume_name, package_volume_name, has_package_tls_volume, PackageSpec,
}
use curity_operator.Packages.Volumes.{
  build_package_init_volume_mounts, volumes_from, build_package_tls_volume, build_package_volumes,
  mounts_from, build_package_volume_mounts, package_volume_size_limit,
}

abbrev pub names : List Volume → List String
names vs = map (λ v. v.name) vs

abbrev pub IsMounted : List Volume → VolumeMount → Type 0
IsMounted vs mount = Memᴰ mount.name (names vs)

push-names :
    (o : Option Volume) (vs : List Volume) (s : String)
    → Memᴰ s (names vs)
    → Memᴰ s (names (push o vs))
push-names none vs s h = h
push-names (some v) vs s h = Memᴰ.tail h

tls_volume_listed :
    (p : PackageSpec) (i : ℕ) (vs : List Volume)
    → has_package_tls_volume p ≡ true
    → Memᴰ (package_tls_volume_name i) (names (push (build_package_tls_volume p i) vs))
unfolding build_package_tls_volume
tls_volume_listed p i vs h = rw h (Memᴰ.head refl)

-- The two volumes of the package at position k of the list that starts at index j.
volumes_listed :
    (ps : List PackageSpec) (j k i : ℕ) (p : PackageSpec)
    → get_elem? ps k ≡ some p
    → i ≡ j + k
    → Memᴰ (package_volume_name i) (names (volumes_from j ps))
      × (has_package_tls_volume p ≡ true
          → Memᴰ (package_tls_volume_name i) (names (volumes_from j ps)))
unfolding volumes_from
volumes_listed [] j k i p h e = cc
volumes_listed (q ∷ ps) j zero i p h e =
    let same : i ≡ j = omega arith in
    let it : q ≡ p = cc h in
    let vs = volumes_from (suc j) ps in
    (
      Memᴰ.head (ap package_volume_name same),
      λ t.
          let t' : has_package_tls_volume q ≡ true = cc (it, t) in
          Memᴰ.tail (
            subst
              (λ z.
                Memᴰ (package_tls_volume_name z) (names (push (build_package_tls_volume q j) vs)))
              (sym same) (tls_volume_listed q j vs t')),
    )
volumes_listed (q ∷ ps) j (suc k) i p h e =
    let (pkg, tls) = volumes_listed ps (suc j) k i p h (omega arith) in
    (
      Memᴰ.tail (push-names (build_package_tls_volume q j) _ _ pkg),
      λ t. Memᴰ.tail (push-names (build_package_tls_volume q j) _ _ (tls t)),
    )

-- Each mount of a package's init container names a volume of the pod.
pub init_mounts-IsMounted :
    (ps : List PackageSpec) (i : ℕ) (p : PackageSpec)
    → get_elem? ps i ≡ some p
    → All (IsMounted (build_package_volumes ps)) (build_package_init_volume_mounts p i)
unfolding build_package_volumes build_package_init_volume_mounts
init_mounts-IsMounted ps i p h =
    let (pkg, tls) = volumes_listed ps 0 i i p h (omega arith) in
    elim (Bool-cases (has_package_tls_volume p)) [
      | inl e ↦ (pkg, rw e (tls e, tt))
      | inr e ↦ (pkg, rw e tt)
    ]

-- A mount of the rest of the packages is one of all.
IsMounted-push :
    (v : Volume) (o : Option Volume) (vs : List Volume) (ms : List VolumeMount)
    → All (IsMounted vs) ms
    → All (IsMounted (v ∷ push o vs)) ms
IsMounted-push v o vs ms h =
    All-imp (IsMounted vs) (λ m k. Memᴰ.tail (push-names o vs m.name k)) ms h

mounts_from-IsMounted :
    (ps : List PackageSpec) (j : ℕ) → All (IsMounted (volumes_from j ps)) (mounts_from j ps)
unfolding volumes_from mounts_from
mounts_from-IsMounted [] j = tt
mounts_from-IsMounted (p ∷ ps) j = (
  Memᴰ.head refl,
  IsMounted-push
      (record { name = package_volume_name j; source = empty_dir package_volume_size_limit })
      (build_package_tls_volume p j) (volumes_from (suc j) ps) (mounts_from (suc j) ps)
      (mounts_from-IsMounted ps (suc j)),
)

-- Each mount that the main container has for the packages names a volume of the pod.
pub package_mounts-IsMounted :
    (ps : List PackageSpec)
    → All (IsMounted (build_package_volumes ps)) (build_package_volume_mounts ps)
unfolding build_package_volumes build_package_volume_mounts
package_mounts-IsMounted ps = mounts_from-IsMounted ps 0
