-- ===== src/Resources/Pod/Mounted.antt =====
-- Every mount of the containers that buildDeployment (resources.go) puts into a pod names a volume of the
-- pod.
use curity_operator.Prelude.{
  ℕ, suc, ◌+◌, String, ◌≡◌, refl, sym, ap, ◌∙◌, subst, inl, inr, Bool, true, false, not, Option,
  none, some, List, [], ◌∷◌, ◌++◌, map, append-nil, Memᴰ, arith, ◌==◌, if◌then◌else◌, Bool-cases,
  get_elem?, is_empty, All, All-append, All-imp,
}
use curity_operator.Kube.{Volume, VolumeMount, plain_empty_dir}
use curity_operator.Packages.{PackageSpec}
use curity_operator.Packages.Volumes.{build_package_volumes, build_package_volume_mounts}
use curity_operator.Packages.Volumes.Mounted.{
  IsMounted, names, init_mounts-IsMounted, package_mounts-IsMounted,
}
use curity_operator.Config.{DiscoveredManagedResource}
use curity_operator.Resources.{Container, IdentityServerCluster, IdentityServerNode, LoggingSpec}
use curity_operator.Resources.Resolve.{
  resolve_init_containers, resolve_extra_containers, resolve_logging, resolve_logging_level,
}
use curity_operator.Resources.Defaults.{apply_container_defaults, apply_container_defaults_all}
use curity_operator.Resources.Volumes.{build_volumes}
use curity_operator.Resources.Volumes.Mounted.{build_volumes-IsMounted}
use curity_operator.Resources.Pod.{
  Digests, build_pod_spec, build_pod_volumes, build_main_container, build_containers,
  build_init_containers, build_package_init_containers, build_package_init_container,
  init_containers_from, build_log_sidecars, log_sidecar, mounts_logs, has_logs, log_volume,
}

in_left : {x : String} (xs ys : List String) → Memᴰ x xs → Memᴰ x (xs ++ ys)
in_left [] ys h = elim h [ ]
in_left (x ∷ xs) ys (Memᴰ.head e) = Memᴰ.head e
in_left (x ∷ xs) ys (Memᴰ.tail h) = Memᴰ.tail (in_left xs ys h)

in_right : {x : String} (xs ys : List String) → Memᴰ x ys → Memᴰ x (xs ++ ys)
in_right [] ys h = h
in_right (x ∷ xs) ys h = Memᴰ.tail (in_right xs ys h)

names-append : (vs ws : List Volume) → names (vs ++ ws) ≡ names vs ++ names ws
names-append [] ws = refl
names-append (v ∷ vs) ws = ap (λ z. v.name ∷ z) (names-append vs ws)

IsMounted-left :
    (vs ws : List Volume) (ms : List VolumeMount)
    → All (IsMounted vs) ms
    → All (IsMounted (vs ++ ws)) ms
IsMounted-left vs ws ms h =
    All-imp (IsMounted vs) (λ m k. rw (names-append vs ws) (in_left (names vs) (names ws) k)) ms h

IsMounted-right :
    (vs ws : List Volume) (ms : List VolumeMount)
    → All (IsMounted ws) ms
    → All (IsMounted (vs ++ ws)) ms
IsMounted-right vs ws ms h =
    All-imp (IsMounted ws) (λ m k. rw (names-append vs ws) (in_right (names vs) (names ws) k)) ms h

-- One more mount and its volume, both under one condition.
log_last :
    (c : Bool) (ws : List Volume) (ms : List VolumeMount) (l : Volume) (m : VolumeMount)
    → m.name ≡ l.name
    → All (IsMounted ws) ms
    → All (IsMounted (ws ++ (if c then l ∷ [] else []))) (ms ++ (if c then m ∷ [] else []))
log_last true ws ms l m e h =
    All-append (IsMounted (ws ++ l ∷ [])) ms (m ∷ []) (IsMounted-left ws (l ∷ []) ms h)
      (IsMounted-right ws (l ∷ []) (m ∷ []) (Memᴰ.head e, tt))
log_last false ws ms l m e h = rw (append-nil ms) (IsMounted-left ws [] ms h)

-- Every mount of a container names one of the volumes.
abbrev pub Mounts : {U : Type 0} → List Volume → Container U → Type 0
Mounts vs c = All (IsMounted vs) c.volume_mounts

Mounts-left :
    {U : Type 0} (vs ws : List Volume) (cs : List (Container U))
    → All (Mounts vs) cs
    → All (Mounts (vs ++ ws)) cs
Mounts-left vs ws cs h = All-imp (Mounts vs) (λ c k. IsMounted-left vs ws c.volume_mounts k) cs h

Mounts-right :
    {U : Type 0} (vs ws : List Volume) (cs : List (Container U))
    → All (Mounts ws) cs
    → All (Mounts (vs ++ ws)) cs
Mounts-right vs ws cs h = All-imp (Mounts ws) (λ c k. IsMounted-right vs ws c.volume_mounts k) cs h

defaults-Mounts :
    {U : Type 0} (vs : List Volume) (cs : List (Container U))
    → All (Mounts vs) cs
    → All (Mounts vs) (apply_container_defaults_all cs)
unfolding apply_container_defaults_all apply_container_defaults
defaults-Mounts vs [] h = tt
defaults-Mounts vs (c ∷ cs) h = (h.0, defaults-Mounts vs cs h.1)

fetchers-Mounts :
    (U : Type 0) (d : Digests) (image : String) (ps rest : List PackageSpec) (i : ℕ)
    → ((k : ℕ) → get_elem? ps (i + k) ≡ get_elem? rest k)
    → All (Mounts (build_package_volumes ps)) (init_containers_from {U = U} d image i rest)
unfolding init_containers_from build_package_init_container
fetchers-Mounts U d image ps [] i h = tt
fetchers-Mounts U d image ps (p ∷ rest) i h = (
  init_mounts-IsMounted ps i p (subst (λ j. get_elem? ps j ≡ some p) (omega arith) (h 0)),
  fetchers-Mounts U d image ps rest (suc i)
      (λ k. subst (λ j. get_elem? ps j ≡ get_elem? rest k) (omega arith) (h (suc k))),
)

module _ {U : Type 0} (d : Digests) where
  sidecars-Mounts :
      (vs : List Volume) (logging : LoggingSpec U) (logs : List String)
      → Memᴰ log_volume (names vs)
      → All (Mounts vs) (map (log_sidecar d logging) logs)
  sidecars-Mounts vs logging [] h = tt
  sidecars-Mounts vs logging (l ∷ logs) h = ((h, tt), sidecars-Mounts vs logging logs h)

  log_listed :
      (cluster : IdentityServerCluster U) (node : IdentityServerNode U)
      (configs : List DiscoveredManagedResource)
      → mounts_logs d cluster node ≡ true
      → Memᴰ log_volume (names (build_pod_volumes d cluster node configs))
  unfolding build_pod_volumes
  log_listed cluster node configs e =
      let vs = (build_volumes d.volume_hash cluster.name configs).0 in
      let ps = build_package_volumes cluster.packages in
      let log : Volume = record { name = log_volume; source = plain_empty_dir } in
      rw (e, names-append (vs ++ ps) (log ∷ []))
        (in_right (names (vs ++ ps)) (log_volume ∷ []) (Memᴰ.head refl))

  main-Mounts :
      (cluster : IdentityServerCluster U) (node : IdentityServerNode U)
      (configs : List DiscoveredManagedResource)
      → Mounts
          (build_pod_volumes d cluster node configs)
          (build_main_container d cluster node configs)
  unfolding build_pod_volumes build_main_container
  main-Mounts cluster node configs =
      let vs = (build_volumes d.volume_hash cluster.name configs).0 in
      let ps = build_package_volumes cluster.packages in
      let own =
        All-append (IsMounted (vs ++ ps)) (build_volumes d.volume_hash cluster.name configs).1
          (build_package_volume_mounts cluster.packages)
          (IsMounted-left vs ps (build_volumes d.volume_hash cluster.name configs).1
            (build_volumes-IsMounted d.volume_hash cluster.name configs))
          (IsMounted-right vs ps (build_package_volume_mounts cluster.packages)
            (package_mounts-IsMounted cluster.packages)) in
      log_last (mounts_logs d cluster node) (vs ++ ps)
        ((build_volumes d.volume_hash cluster.name configs).1
          ++ build_package_volume_mounts cluster.packages)
        (record { name = log_volume; source = plain_empty_dir })
        (record {
          name = log_volume;
          mount_path = "/opt/idsvr/var/log/";
          sub_path = "";
          read_only = false;
        })
        refl own

  fetcher_list-Mounts :
      (cluster : IdentityServerCluster U) (node : IdentityServerNode U)
      (configs : List DiscoveredManagedResource) (image : String)
      → All
          (Mounts (build_pod_volumes d cluster node configs))
          (build_package_init_containers {U = U} d cluster.packages image)
  unfolding build_package_init_containers build_pod_volumes
  fetcher_list-Mounts cluster node configs image =
      let vs = (build_volumes d.volume_hash cluster.name configs).0 in
      let ps = build_package_volumes cluster.packages in
      let fetchers = init_containers_from {U = U} d image 0 cluster.packages in
      Mounts-left (vs ++ ps) _ fetchers (
        Mounts-right vs ps fetchers (
          fetchers-Mounts U d image cluster.packages cluster.packages 0
            (λ k. ap (get_elem? cluster.packages) (omega arith))))

  some_sidecars-Mounts :
      (cluster : IdentityServerCluster U) (node : IdentityServerNode U)
      (configs : List DiscoveredManagedResource) (logging : LoggingSpec U)
      → not (is_empty logging.logs) ≡ has_logs (resolve_logging cluster node)
      → (resolve_logging_level cluster node == "OFF") ≡ false
      → (logs : List String) → logs ≡ logging.logs
      → All (Mounts (build_pod_volumes d cluster node configs)) (map (log_sidecar d logging) logs)
  some_sidecars-Mounts cluster node configs logging h e [] k = tt
  some_sidecars-Mounts cluster node configs logging h e (l ∷ logs) k =
      let some_logs : has_logs (resolve_logging cluster node) ≡ true =
        sym h ∙ ap (λ z. not (is_empty z)) (sym k) in
      sidecars-Mounts (build_pod_volumes d cluster node configs) logging (l ∷ logs)
        (log_listed cluster node configs (ground (arith, some_logs, e)))

  sidecar_list-Mounts :
      (cluster : IdentityServerCluster U) (node : IdentityServerNode U)
      (configs : List DiscoveredManagedResource) (logging : Option (LoggingSpec U))
      → has_logs logging ≡ has_logs (resolve_logging cluster node)
      → All
          (Mounts (build_pod_volumes d cluster node configs))
          (if resolve_logging_level cluster node == "OFF" then [] else build_log_sidecars d logging)
  unfolding build_log_sidecars
  sidecar_list-Mounts cluster node configs none h =
      elim (Bool-cases (resolve_logging_level cluster node == "OFF")) [
        | inl e ↦ rw e tt
        | inr e ↦ rw e tt
      ]
  sidecar_list-Mounts cluster node configs (some logging) h =
      elim (Bool-cases (resolve_logging_level cluster node == "OFF")) [
        | inl e ↦ rw e tt
        | inr e ↦ rw e (some_sidecars-Mounts cluster node configs logging h e logging.logs refl)
      ]

  -- Every mount of every container of a pod, init containers and sidecars included, names a volume of the
  -- pod, if this holds for the containers that the users add.
  pub build_pod_spec-Mounts :
      (cluster : IdentityServerCluster U) (node : IdentityServerNode U)
      (configs : List DiscoveredManagedResource) (image : String)
      → All
          (Mounts (build_pod_volumes d cluster node configs))
          (resolve_init_containers cluster node)
      → All
          (Mounts (build_pod_volumes d cluster node configs))
          (resolve_extra_containers cluster node)
      → All (Mounts (build_pod_spec d cluster node configs image).volumes) (
          (build_pod_spec d cluster node configs image).init_containers
          ++ (build_pod_spec d cluster node configs image).containers)
  unfolding build_pod_spec build_init_containers build_containers build_package_init_containers
  build_pod_spec-Mounts cluster node configs image hi he =
      let vs = build_pod_volumes d cluster node configs in
      let users = apply_container_defaults_all (resolve_init_containers cluster node) in
      let extra = apply_container_defaults_all (resolve_extra_containers cluster node) in
      let sidecars : List (Container U) =
        if resolve_logging_level cluster node == "OFF"
        then []
        else build_log_sidecars d (resolve_logging cluster node) in
      let fetchers : List (Container U) = build_package_init_containers d cluster.packages image in
      All-append (Mounts vs) (fetchers ++ users)
        (build_main_container d cluster node configs
          ∷ (apply_container_defaults_all sidecars ++ extra))
        (All-append (Mounts vs) fetchers users (fetcher_list-Mounts cluster node configs image)
          (defaults-Mounts vs (resolve_init_containers cluster node) hi))
        (
          main-Mounts cluster node configs,
          All-append (Mounts vs) (apply_container_defaults_all sidecars) extra
              (defaults-Mounts vs sidecars
                (sidecar_list-Mounts cluster node configs (resolve_logging cluster node) refl))
              (defaults-Mounts vs (resolve_extra_containers cluster node) he),
        )
