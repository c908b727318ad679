-- ===== src/Resources/Volumes.antt =====
-- resources.go: the volumes and mounts of cluster.xml and of the discovered configs (buildVolumes). The
-- digest that shortens the name of a volume is the parameter of config_volume_name.
pub mod Mounted
use curity_operator.Prelude.{
  ℕ, ◌+◌, ◌-◌, String, Bool, true, false, not, ◌&&◌, none, some, List, [], ◌∷◌, ◌++◌, map, ◌==◌,
  if◌then◌else◌, sort_by, str_ltb,
}
use Prim.Native.String
use curity_operator.Kube.{Volume, VolumeMount, secret_volume, config_map_volume, keys}
use curity_operator.Config.{
  DiscoveredManagedResource, config_type_env, config_type_post_commit_script,
}
use curity_operator.Config.Kinds.{config_volume_name, mount_filename, mount_path_for_config_type}

-- 0o555, 0o755 and 0o644, the default of both kinds of volumes.
unfoldable pub volume_default_mode : String → Bool → ℕ
volume_default_mode config_type is_secret =
    if config_type == config_type_post_commit_script then (if is_secret then 365 else 493) else 420

abbrev pub mount : String → String → String → VolumeMount
mount name mount_path sub_path = record {
  name = name;
  mount_path = mount_path;
  sub_path = sub_path;
  read_only = true;
}

abbrev pub cluster_config_volume : String → Volume
cluster_config_volume cluster_name = record {
  name = "cluster-config";
  source =
      secret_volume (String.◌++◌ cluster_name "-cluster-config")
        (record { key = "cluster.xml"; path = "cluster.xml" } ∷ []) (some true) 420;
}

abbrev cluster_config_mount : VolumeMount
cluster_config_mount = mount "cluster-config" "/opt/idsvr/etc/init/cluster.xml" "cluster.xml"

abbrev one_key : List String → Bool
one_key (k ∷ []) = true
one_key _ = false

module _ (short_hash : String → String) where
  abbrev volume_name : DiscoveredManagedResource → String
  volume_name cfg = config_volume_name short_hash cfg.is_secret cfg.name

  abbrev config_volume : DiscoveredManagedResource → Volume
  config_volume cfg = record {
    name = volume_name cfg;
    source =
        if cfg.is_secret
        then secret_volume cfg.name [] none (volume_default_mode cfg.config_type true)
        else config_map_volume cfg.name (volume_default_mode cfg.config_type false);
  }

  abbrev file_mount : DiscoveredManagedResource → String → VolumeMount
  file_mount cfg key =
      mount (volume_name cfg)
        (String.◌++◌ (mount_path_for_config_type cfg.config_type).0
          (mount_filename cfg.is_secret cfg.name key))
        key

  abbrev leaf_mount : DiscoveredManagedResource → String → VolumeMount
  leaf_mount cfg key = mount (volume_name cfg) (mount_path_for_config_type cfg.config_type).0 key

  -- The keys of a config in order.
  abbrev sorted_keys : DiscoveredManagedResource → List String
  sorted_keys cfg = sort_by str_ltb (keys cfg.contents)

  abbrev is_leaf : DiscoveredManagedResource → Bool
  is_leaf cfg = (mount_path_for_config_type cfg.config_type).1

  -- The two `continue`s before a volume is made.
  abbrev pub is_mounted : DiscoveredManagedResource → Bool
  is_mounted cfg =
      not (cfg.config_type == config_type_env)
      && not (is_leaf cfg && not (one_key (sorted_keys cfg)))

  abbrev config_mounts : DiscoveredManagedResource → List VolumeMount
  config_mounts cfg =
      if is_leaf cfg
      then map (leaf_mount cfg) (sorted_keys cfg)
      else map (file_mount cfg) (sorted_keys cfg)

  abbrev discovered_volumes : List DiscoveredManagedResource → List Volume
  discovered_volumes [] = []
  discovered_volumes (cfg ∷ configs) =
      let rest = discovered_volumes configs in
      if is_mounted cfg then config_volume cfg ∷ rest else rest

  abbrev discovered_mounts : List DiscoveredManagedResource → List VolumeMount
  discovered_mounts [] = []
  discovered_mounts (cfg ∷ configs) =
      let rest = discovered_mounts configs in
      if is_mounted cfg then config_mounts cfg ++ rest else rest

  unfoldable pub build_volumes :
      String → List DiscoveredManagedResource → List Volume × List VolumeMount
  build_volumes cluster_name configs = (
    cluster_config_volume cluster_name ∷ discovered_volumes configs,
    cluster_config_mount ∷ discovered_mounts configs,
  )
