-- ===== src/Resources/Volumes/Mounted.antt =====
-- Every mount that buildVolumes (resources.go) makes names a volume that it makes.
use curity_operator.Prelude.{
  String, ◌≡◌, refl, sym, subst, inl, inr, List, [], ◌∷◌, map, Memᴰ, Bool-cases, All, All-append,
  All-imp,
}
use curity_operator.Kube.{Volume, VolumeMount}
use curity_operator.Config.{DiscoveredManagedResource}
use curity_operator.Packages.Volumes.Mounted.{IsMounted, names}
use curity_operator.Resources.Volumes.{
  build_volumes, discovered_volumes, discovered_mounts, config_volume, config_mounts, is_mounted,
  file_mount, leaf_mount, sorted_keys, is_leaf, volume_name, cluster_config_volume,
}

-- Mounts of one volume.
named_alike :
    (name : String) (f : String → VolumeMount) (vs : List Volume) (ks : List String)
    → ((k : String) → (f k).name ≡ name)
    → Memᴰ name (names vs)
    → All (IsMounted vs) (map f ks)
named_alike name f vs [] e h = tt
named_alike name f vs (k ∷ ks) e h =
    (subst (λ z. Memᴰ z (names vs)) (sym (e k)) h, named_alike name f vs ks e h)

IsMounted-cons :
    (v : Volume) (vs : List Volume) (ms : List VolumeMount)
    → All (IsMounted vs) ms
    → All (IsMounted (v ∷ vs)) ms
IsMounted-cons v vs ms h = All-imp (IsMounted vs) (λ m k. Memᴰ.tail k) ms h

module _ (short_hash : String → String) where
  config_mounts-IsMounted :
      (cfg : DiscoveredManagedResource) (vs : List Volume)
      → All (IsMounted (config_volume short_hash cfg ∷ vs)) (config_mounts short_hash cfg)
  config_mounts-IsMounted cfg vs = elim (Bool-cases (is_leaf short_hash cfg)) [
    | inl e ↦ rw e (
        named_alike (volume_name short_hash cfg) (leaf_mount short_hash cfg)
          (config_volume short_hash cfg ∷ vs) (sorted_keys short_hash cfg) (λ k. refl)
          (Memᴰ.head {xs = names vs} refl))
    | inr e ↦ rw e (
        named_alike (volume_name short_hash cfg) (file_mount short_hash cfg)
          (config_volume short_hash cfg ∷ vs) (sorted_keys short_hash cfg) (λ k. refl)
          (Memᴰ.head {xs = names vs} refl))
  ]

  discovered-IsMounted :
      (configs : List DiscoveredManagedResource)
      → All
          (IsMounted (discovered_volumes short_hash configs))
          (discovered_mounts short_hash configs)
  discovered-IsMounted [] = tt
  discovered-IsMounted (cfg ∷ configs) =
      let rest = discovered-IsMounted configs in
      elim (Bool-cases (is_mounted short_hash cfg)) [
        | inl e ↦ rw e (
            All-append
              (IsMounted (config_volume short_hash cfg ∷ discovered_volumes short_hash configs))
              (config_mounts short_hash cfg) (discovered_mounts short_hash configs)
              (config_mounts-IsMounted cfg (discovered_volumes short_hash configs))
              (IsMounted-cons (config_volume short_hash cfg) (discovered_volumes short_hash configs)
                (discovered_mounts short_hash configs) rest))
        | inr e ↦ rw e rest
      ]

  -- Every mount of buildVolumes names one of its volumes.
  pub build_volumes-IsMounted :
      (cluster_name : String) (configs : List DiscoveredManagedResource)
      → All
          (IsMounted (build_volumes short_hash cluster_name configs).0)
          (build_volumes short_hash cluster_name configs).1
  unfolding build_volumes
  build_volumes-IsMounted cluster_name configs = (
    Memᴰ.head refl,
    IsMounted-cons (cluster_config_volume cluster_name) (discovered_volumes short_hash configs)
        (discovered_mounts short_hash configs) (discovered-IsMounted configs),
  )
