-- ===== src/Config/Discover/Sources.antt =====
-- What discoverManagedResources appends, as a relation between a config and the resource it comes from.
use curity_operator.Prelude.{
  ℕ, String, ◌≡◌, refl, sym, ap, subst, ◌↔◌, ◌⊎◌, inl, inr, Bool, true, false, not, ◌&&◌, some,
  List, arith, if◌then◌else◌, Bool-cases, is_some,
}
use mathlib.Core.Option.{some_inj}
use mathlib.Core.Sum.{inl-injective, inr-injective}
use curity_operator.Kube.{Map, Secret}
use curity_operator.Config.{DiscoveredManagedResource, SkippedResource}
use curity_operator.Config.Scope.{ConfigMap, applies_to_cluster, is_cluster_config}
use curity_operator.Config.Kinds.{resolve_config_type}
use curity_operator.Config.Discover.{
  Found, ignored, taken_of, skipped_of, typed, find_config_map, find_secret,
}

-- A Secret is considered: it is not one of the operator's own, and it is for the cluster.
abbrev pub is_for : String → Secret → Bool
is_for cluster s = not (is_cluster_config s) && applies_to_cluster s.annotations cluster

-- The config has the name and the data of a resource that is considered, and the type that the
-- resource's annotations give.
abbrev pub Takes :
    Bool → String → Bool → Map (List ℕ) → String ⊎ String → DiscoveredManagedResource → Type 0
Takes is_considered name is_secret contents config_type r =
    (is_considered ≡ true)
    × (config_type ≡ inr r.config_type)
    × (r.name ≡ name)
    × (r.is_secret ≡ is_secret)
    × (r.contents ≡ contents)

-- The resource is considered, and there is a reason why its type cannot be told.
abbrev pub Skips : Bool → String → String → String ⊎ String → SkippedResource → Type 0
Skips is_considered name kind config_type r =
    (is_considered ≡ true) × (config_type ≡ inl r.reason) × (r.name ≡ name) × (r.kind ≡ kind)

abbrev pub TakesConfigMap : String → ConfigMap → DiscoveredManagedResource → Type 0
TakesConfigMap cluster cm r =
    Takes (applies_to_cluster cm.annotations cluster) cm.name false cm.contents
      (resolve_config_type cm.annotations) r

abbrev pub TakesSecret : String → Secret → DiscoveredManagedResource → Type 0
TakesSecret cluster s r =
    Takes (is_for cluster s) s.name true s.secret_data (resolve_config_type s.annotations) r

abbrev pub SkipsConfigMap : String → ConfigMap → SkippedResource → Type 0
SkipsConfigMap cluster cm r =
    Skips (applies_to_cluster cm.annotations cluster) cm.name "ConfigMap"
      (resolve_config_type cm.annotations) r

abbrev pub SkipsSecret : String → Secret → SkippedResource → Type 0
SkipsSecret cluster s r =
    Skips (is_for cluster s) s.name "Secret" (resolve_config_type s.annotations) r

abbrev made : String → Bool → Map (List ℕ) → String → DiscoveredManagedResource
made name is_secret contents config_type = record {
  name = name;
  is_secret = is_secret;
  config_type = config_type;
  contents = contents;
}

-- Both rounds of the loops have this form.
abbrev round : Bool → String → String → Bool → Map (List ℕ) → String ⊎ String → Found
round is_considered name kind is_secret contents config_type =
    if is_considered then typed name kind (made name is_secret contents) config_type else ignored

module _ (name kind : String) (is_secret : Bool) (contents : Map (List ℕ)) where
  taken_of-round :
      (b : Bool) (t : String ⊎ String) (r : DiscoveredManagedResource)
      → (taken_of (round b name kind is_secret contents t) ≡ some r)
        ↔ Takes b name is_secret contents t r
  taken_of-round false t r =
      (λ h. absurd (ground (arith, ap is_some h)), λ h. absurd (ground (arith, h.0)))
  taken_of-round true (inl e) r = (λ h. absurd (ground (arith, ap is_some h)), λ h. cc (h.1))
  taken_of-round true (inr t) r = (
    λ h.
        let same = some_inj.0 h in
        (
          refl,
          ap (λ d. inr d.config_type) same,
          sym (ap (λ d. d.name) same),
          sym (ap (λ d. d.is_secret) same),
          sym (ap (λ d. d.contents) same),
        ),
    λ h. λ i. some (record {
      name = sym h.2 i;
      is_secret = sym h.3 i;
      config_type = inr-injective t r.config_type h.1 i;
      contents = sym h.4 i;
    }),
  )

  skipped_of-round :
      (b : Bool) (t : String ⊎ String) (r : SkippedResource)
      → (skipped_of (round b name kind is_secret contents t) ≡ some r) ↔ Skips b name kind t r
  skipped_of-round false t r =
      (λ h. absurd (ground (arith, ap is_some h)), λ h. absurd (ground (arith, h.0)))
  skipped_of-round true (inr e) r = (λ h. absurd (ground (arith, ap is_some h)), λ h. cc (h.1))
  skipped_of-round true (inl e) r = (
    λ h.
        let same = some_inj.0 h in
        (
          refl,
          ap (λ d. inl d.reason) same,
          sym (ap (λ d. d.name) same),
          sym (ap (λ d. d.kind) same),
        ),
    λ h. λ i.
        some
          (record { name = sym h.2 i; kind = sym h.3 i; reason = inl-injective e r.reason h.1 i }),
  )

find_config_map-round :
    (cluster : String) (cm : ConfigMap)
    → find_config_map cluster cm
      ≡ round
          (applies_to_cluster cm.annotations cluster)
          cm.name
          "ConfigMap"
          false
          cm.contents
          (resolve_config_type cm.annotations)
unfolding find_config_map
find_config_map-round cluster cm = elim (Bool-cases (applies_to_cluster cm.annotations cluster)) [
  | inl e ↦ rw e refl
  | inr e ↦ rw e refl
]

find_secret-round :
    (cluster : String) (s : Secret)
    → find_secret cluster s
      ≡ round
          (is_for cluster s)
          s.name
          "Secret"
          true
          s.secret_data
          (resolve_config_type s.annotations)
unfolding find_secret
find_secret-round cluster s = elim (Bool-cases (is_cluster_config s)) [
  | inl e ↦ rw e refl
  | inr e ↦ elim (Bool-cases (applies_to_cluster s.annotations cluster)) [
    | inl e' ↦ rw (e, e') refl
    | inr e' ↦ rw (e, e') refl
  ]
]

pub takes_config_map :
    (cluster : String) (cm : ConfigMap) (r : DiscoveredManagedResource)
    → (taken_of (find_config_map cluster cm) ≡ some r) ↔ TakesConfigMap cluster cm r
takes_config_map cluster cm r =
    subst (λ f. (taken_of f ≡ some r) ↔ TakesConfigMap cluster cm r)
      (sym (find_config_map-round cluster cm))
      (taken_of-round cm.name "ConfigMap" false cm.contents
        (applies_to_cluster cm.annotations cluster) (resolve_config_type cm.annotations) r)

pub takes_secret :
    (cluster : String) (s : Secret) (r : DiscoveredManagedResource)
    → (taken_of (find_secret cluster s) ≡ some r) ↔ TakesSecret cluster s r
takes_secret cluster s r =
    subst (λ f. (taken_of f ≡ some r) ↔ TakesSecret cluster s r) (sym (find_secret-round cluster s))
      (taken_of-round s.name "Secret" true s.secret_data (is_for cluster s)
        (resolve_config_type s.annotations) r)

pub skips_config_map :
    (cluster : String) (cm : ConfigMap) (r : SkippedResource)
    → (skipped_of (find_config_map cluster cm) ≡ some r) ↔ SkipsConfigMap cluster cm r
skips_config_map cluster cm r =
    subst (λ f. (skipped_of f ≡ some r) ↔ SkipsConfigMap cluster cm r)
      (sym (find_config_map-round cluster cm))
      (skipped_of-round cm.name "ConfigMap" false cm.contents
        (applies_to_cluster cm.annotations cluster) (resolve_config_type cm.annotations) r)

pub skips_secret :
    (cluster : String) (s : Secret) (r : SkippedResource)
    → (skipped_of (find_secret cluster s) ≡ some r) ↔ SkipsSecret cluster s r
skips_secret cluster s r =
    subst (λ f. (skipped_of f ≡ some r) ↔ SkipsSecret cluster s r)
      (sym (find_secret-round cluster s))
      (skipped_of-round s.name "Secret" true s.secret_data (is_for cluster s)
        (resolve_config_type s.annotations) r)
