-- ===== src/Config/Discover/Laws.antt =====
-- discoverManagedResources loses no resource that is for the cluster, and sorts what it finds.
use curity_operator.Prelude.{
  ◌+◌, String, ◌≡◌, refl, ◌⊎◌, inl, inr, Bool, true, false, List, [], ◌∷◌, ◌++◌, map, sym, ap, ◌∙◌,
  ◌↔◌, Option, some, Memᴰ, Memᴰ-perm, Memᴰ-collect, Memᴰ-append_left, Memᴰ-append_right, Memᴰ-map,
  map_inv, append_inv, collect_inv, perm_symm, sort_by-perm, arith, Bool-cases, length, collect,
  sort_by, sort_by-IsSorted, length-sort_by, IsSorted, less_by, less_by-IsStrictOrder, count_if,
}
use curity_operator.Kube.{Secret}
use curity_operator.Config.{DiscoveredManagedResource, SkippedResource}
use curity_operator.Config.Scope.{ConfigMap, applies_to_cluster, is_cluster_config}
use curity_operator.Config.Kinds.{resolve_config_type}
use curity_operator.Config.Discover.Sources.{
  is_for, TakesConfigMap, TakesSecret, SkipsConfigMap, SkipsSecret, takes_config_map, takes_secret,
  skips_config_map, skips_secret,
}
use curity_operator.Config.Discover.{
  Found, ignored, skipped, taken, taken_of, skipped_of, typed, find_config_map, find_secret,
  all_found, discover_managed_resources,
}

abbrev is_reported : Found → Bool
is_reported ignored = false
is_reported (skipped r) = true
is_reported (taken r) = true

length-found :
    (l : List Found)
    → length (collect taken_of l) + length (collect skipped_of l) ≡ count_if is_reported l
length-found [] = refl
length-found (ignored ∷ l) = length-found l
length-found (skipped r ∷ l) = omega (arith, length-found l)
length-found (taken r ∷ l) = omega (arith, length-found l)

count-append :
    (xs ys : List Found)
    → count_if is_reported (xs ++ ys) ≡ count_if is_reported xs + count_if is_reported ys
count-append [] ys = omega arith
count-append (x ∷ xs) ys = ground (arith, count-append xs ys)

is_reported-typed :
    (name kind : String) (make : String → DiscoveredManagedResource) (r : String ⊎ String)
    → is_reported (typed name kind make r) ≡ true
is_reported-typed name kind make (inl e) = refl
is_reported-typed name kind make (inr t) = refl

is_reported-config_map :
    (cluster : String) (cm : ConfigMap)
    → is_reported (find_config_map cluster cm) ≡ applies_to_cluster cm.annotations cluster
unfolding find_config_map
is_reported-config_map cluster cm = elim (Bool-cases (applies_to_cluster cm.annotations cluster)) [
  | inl e ↦ rw e (is_reported-typed _ _ _ (resolve_config_type cm.annotations))
  | inr e ↦ rw e refl
]

is_reported-secret :
    (cluster : String) (s : Secret) → is_reported (find_secret cluster s) ≡ is_for cluster s
unfolding find_secret
is_reported-secret cluster s = elim (Bool-cases (is_cluster_config s)) [
  | inl e ↦ rw e refl
  | inr e ↦ elim (Bool-cases (applies_to_cluster s.annotations cluster)) [
    | inl e' ↦ rw (e, e') (is_reported-typed _ _ _ (resolve_config_type s.annotations))
    | inr e' ↦ rw (e, e') refl
  ]
]

count-config_maps :
    (cluster : String) (cms : List ConfigMap)
    → count_if is_reported (map (find_config_map cluster) cms)
      ≡ count_if (λ cm. applies_to_cluster cm.annotations cluster) cms
count-config_maps cluster [] = refl
count-config_maps cluster (cm ∷ cms) =
    ground (arith, is_reported-config_map cluster cm, count-config_maps cluster cms)

count-secrets :
    (cluster : String) (ss : List Secret)
    → count_if is_reported (map (find_secret cluster) ss) ≡ count_if (is_for cluster) ss
count-secrets cluster [] = refl
count-secrets cluster (s ∷ ss) =
    ground (arith, is_reported-secret cluster s, count-secrets cluster ss)

-- What is collected from the rounds of both loops comes from a resource of one of the lists.
module _ {R : Type 0} (f : Found → Option R) (cluster : String) (P : ConfigMap → R → Type 0)
    (Q : Secret → R → Type 0)
    (from_map : (cm : ConfigMap) (r : R) → (f (find_config_map cluster cm) ≡ some r) ↔ P cm r)
    (from_secret : (s : Secret) (r : R) → (f (find_secret cluster s) ≡ some r) ↔ Q s r) where
  collected :
      (cms : List ConfigMap) (ss : List Secret) (r : R)
      → Memᴰ r (collect f (all_found cluster cms ss))
        ↔ (((cm : ConfigMap) × Memᴰ cm cms × P cm r) ⊎ ((s : Secret) × Memᴰ s ss × Q s r))
  collected cms ss r =
      let maps = map (find_config_map cluster) cms in
      let secrets = map (find_secret cluster) ss in
      (
        λ h.
            let (found, mem, e) = collect_inv f r (maps ++ secrets) h in
            elim (append_inv maps secrets mem) [
              | inl k ↦
                  let (cm, in_cms, same) = map_inv (find_config_map cluster) cms k in
                  inl (cm, in_cms, (from_map cm r).0 (sym (ap f same) ∙ e))
              | inr k ↦
                  let (s, in_ss, same) = map_inv (find_secret cluster) ss k in
                  inr (s, in_ss, (from_secret s r).0 (sym (ap f same) ∙ e))
            ],
        λ h. elim h [
          | inl (cm, in_cms, p) ↦
              Memᴰ-collect f r (maps ++ secrets)
                (Memᴰ-append_left maps secrets (Memᴰ-map (find_config_map cluster) cms in_cms))
                ((from_map cm r).1 p)
          | inr (s, in_ss, q) ↦
              Memᴰ-collect f r (maps ++ secrets)
                (Memᴰ-append_right maps secrets (Memᴰ-map (find_secret cluster) ss in_ss))
                ((from_secret s r).1 q)
        ],
      )

sorted_members :
    {R : Type 0} (less : R → R → Bool) (l : List R) (r : R) → Memᴰ r (sort_by less l) ↔ Memᴰ r l
sorted_members less l r =
    (λ h. Memᴰ-perm (sort_by-perm less l) h, λ h. Memᴰ-perm (perm_symm (sort_by-perm less l)) h)

through : {A B C : Type 0} → (A ↔ B) → (B ↔ C) → A ↔ C
through f g = (λ a. g.0 (f.0 a), λ c. f.1 (g.1 c))

-- Where both List calls succeed, there are two lists, each sorted by name. A config is found exactly if
-- it has the name, the kind and the data of a ConfigMap that is for the cluster, or of a Secret that is
-- and is not the operator's own, and the type that its annotations give; and a resource is skipped, under
-- its name and kind, exactly if it is one of these and its type cannot be told, with the reason why. Both
-- lists together are as long as there are such ConfigMaps and Secrets.
pub discover_managed_resources_complete :
    (cms : List ConfigMap) (ss : List Secret) (cluster : String)
    → (configs : List DiscoveredManagedResource) × (skips : List SkippedResource)
      × (discover_managed_resources (inr cms) (inr ss) cluster ≡ inr (configs, skips))
      × ((r : DiscoveredManagedResource)
          → Memᴰ r configs ↔ (
              ((cm : ConfigMap) × Memᴰ cm cms × TakesConfigMap cluster cm r)
              ⊎ ((s : Secret) × Memᴰ s ss × TakesSecret cluster s r)))
      × ((r : SkippedResource)
          → Memᴰ r skips ↔ (
              ((cm : ConfigMap) × Memᴰ cm cms × SkipsConfigMap cluster cm r)
              ⊎ ((s : Secret) × Memᴰ s ss × SkipsSecret cluster s r)))
      × (length configs + length skips
          ≡ count_if (λ cm. applies_to_cluster cm.annotations cluster) cms
            + count_if (is_for cluster) ss)
      × IsSorted (less_by (λ (r : DiscoveredManagedResource). r.name)) configs
      × IsSorted (less_by (λ (r : SkippedResource). r.name)) skips
unfolding discover_managed_resources
discover_managed_resources_complete cms ss cluster =
    let found = all_found cluster cms ss in
    let by_name = less_by (λ (r : DiscoveredManagedResource). r.name) in
    let by_name' = less_by (λ (r : SkippedResource). r.name) in
    (
      sort_by by_name (collect taken_of found),
      sort_by by_name' (collect skipped_of found),
      refl,
      λ r. through (sorted_members by_name (collect taken_of found) r) (
          collected taken_of cluster (TakesConfigMap cluster) (TakesSecret cluster)
            (takes_config_map cluster) (takes_secret cluster) cms ss r),
      λ r. through (sorted_members by_name' (collect skipped_of found) r) (
          collected skipped_of cluster (SkipsConfigMap cluster) (SkipsSecret cluster)
            (skips_config_map cluster) (skips_secret cluster) cms ss r),
      omega (
        arith,
        length-sort_by by_name (collect taken_of found),
        length-sort_by by_name' (collect skipped_of found),
        length-found found,
        count-append (map (find_config_map cluster) cms) (map (find_secret cluster) ss),
        count-config_maps cluster cms,
        count-secrets cluster ss,
      ),
      sort_by-IsSorted by_name (less_by-IsStrictOrder (λ (r : DiscoveredManagedResource). r.name))
          (collect taken_of found),
      sort_by-IsSorted by_name' (less_by-IsStrictOrder (λ (r : SkippedResource). r.name))
          (collect skipped_of found),
    )
