-- ===== src/Resources/Labels/Laws.antt =====
-- Laws of the labels (resources.go): what a key reads after the merges, and that the selector of a node's
-- Deployment selects the pods of its template, whatever labels the users give.
use curity_operator.Prelude.{
  String, ◌≡◌, refl, sym, ap, ◌∙◌, inl, inr, false, ◌||◌, Option, none, some, [], ◌∷◌, arith, ◌==◌,
  eq_iff, if◌then◌else◌, Bool-cases, All,
}
use curity_operator.Kube.{Map, lookup, has_key}
use curity_operator.Resources.{IdentityServerCluster, IdentityServerNode}
use curity_operator.Resources.Labels.{
  put, put_all, entries, merge_maps, build_labels, build_selector_labels, build_pod_labels,
}

-- A key stands once, as in any map of Go.
abbrev pub IsMap : Map String → Type 0
IsMap [] = Unit
IsMap ((k, v) ∷ m) = (has_key k m ≡ false) × IsMap m

abbrev pub first_found : Option String → Option String → Option String
first_found none later = later
first_found (some v) later = some v

lookup-put :
    (k j v : String) (m : Map String)
    → lookup j (put k v m) ≡ (if k == j then some v else lookup j m)
lookup-put k j v [] = refl
lookup-put k j v ((i, w) ∷ m) =
    grind (arith, lookup-put k j v m, eq_iff i k, eq_iff i j, eq_iff k j)

pub lookup-put_all :
    (into m : Map String) (k : String)
    → IsMap m
    → lookup k (put_all into m) ≡ first_found (lookup k m) (lookup k into)
lookup-put_all into [] k h = refl
lookup-put_all into ((j, v) ∷ m) k h = elim (Bool-cases (j == k)) [
  | inl e ↦
      let e' : j ≡ k = grind (arith, e, eq_iff j k) in
      let fresh : has_key k m ≡ false = rw e' at h.0 in
      grind (arith, e, fresh, lookup-put_all (put j v into) m k h.1, lookup-put j k v into)
  | inr e ↦ grind (arith, e, lookup-put_all (put j v into) m k h.1, lookup-put j k v into)
]

pub first_found-none : (o : Option String) → first_found o none ≡ o
first_found-none none = refl
first_found-none (some v) = refl

pub copied : (m : Map String) (k : String) → IsMap m → lookup k (put_all [] m) ≡ lookup k m
copied m k h = lookup-put_all [] m k h ∙ first_found-none (lookup k m)

pub lookup-merge_maps :
    (base override : Option (Map String)) (k : String)
    → IsMap (entries base)
    → IsMap (entries override)
    → lookup k (entries (merge_maps base override))
      ≡ first_found (lookup k (entries override)) (lookup k (entries base))
unfolding merge_maps
lookup-merge_maps none none k hb ho = refl
lookup-merge_maps none (some o) k hb ho = copied o k ho ∙ sym (first_found-none (lookup k o))
lookup-merge_maps (some b) o k hb ho =
    lookup-put_all (put_all [] b) (entries o) k ho
    ∙ ap (first_found (lookup k (entries o))) (copied b k hb)

has_key-put : (k i v : String) (m : Map String) → has_key i (put k v m) ≡ ((k == i) || has_key i m)
has_key-put k i v m = grind (arith, lookup-put k i v m)

put-IsMap : (k v : String) (m : Map String) → IsMap m → IsMap (put k v m)
put-IsMap k v [] h = (refl, tt)
put-IsMap k v ((j, w) ∷ m) h = elim (Bool-cases (j == k)) [
  | inl e ↦ let e' : j ≡ k = grind (arith, e, eq_iff j k) in rw e (rw e' at h.0, h.1)
  | inr e ↦
      let e' : (k == j) ≡ false = grind (arith, e, eq_iff j k, eq_iff k j) in
      let fresh : has_key j (put k v m) ≡ false = has_key-put k j v m ∙ ground (arith, e', h.0) in
      rw e (fresh, put-IsMap k v m h.1)
]

put_all-IsMap : (into m : Map String) → IsMap into → IsMap (put_all into m)
put_all-IsMap into [] h = h
put_all-IsMap into ((k, v) ∷ m) h = put_all-IsMap (put k v into) m (put-IsMap k v into h)

pub merge_maps-IsMap :
    (base override : Option (Map String)) → IsMap (entries (merge_maps base override))
unfolding merge_maps
merge_maps-IsMap none none = tt
merge_maps-IsMap none (some o) = put_all-IsMap [] o tt
merge_maps-IsMap (some b) o = put_all-IsMap (put_all [] b) (entries o) (put_all-IsMap [] b tt)

-- Every entry of a selector is among the labels.
abbrev pub Selects : Map String → Map String → Type 0
Selects selector labels = All (λ e. lookup e.0 labels ≡ some e.1) selector

module _ {U : Type 0} (owned_resource_name : String → String → String) where
  build_labels-IsMap :
      (cluster : IdentityServerCluster U) (node : IdentityServerNode U)
      → IsMap (build_labels owned_resource_name cluster node)
  unfolding build_labels
  build_labels-IsMap cluster node =
      (refl, (refl, (refl, (refl, (refl, (refl, (refl, (refl, tt))))))))

  -- A label of a pod is the operator's where the operator has one of that key, else the node's, else the
  -- cluster's.
  pub lookup-build_pod_labels :
      (cluster : IdentityServerCluster U) (node : IdentityServerNode U) (k : String)
      → IsMap (entries cluster.shared.pod_labels)
      → IsMap (entries node.shared.pod_labels)
      → lookup k (entries (build_pod_labels owned_resource_name cluster node))
        ≡ first_found (lookup k (build_labels owned_resource_name cluster node)) (
            first_found
              (lookup k (entries node.shared.pod_labels))
              (lookup k (entries cluster.shared.pod_labels)))
  unfolding build_pod_labels
  lookup-build_pod_labels cluster node k hc hn =
      let users = merge_maps cluster.shared.pod_labels node.shared.pod_labels in
      lookup-merge_maps users (some (build_labels owned_resource_name cluster node)) k
        (merge_maps-IsMap cluster.shared.pod_labels node.shared.pod_labels)
        (build_labels-IsMap cluster node)
      ∙ ap (first_found (lookup k (build_labels owned_resource_name cluster node)))
          (lookup-merge_maps cluster.shared.pod_labels node.shared.pod_labels k hc hn)

  -- The selector of the Deployment selects the pods of its template, and neither label map of a user
  -- can change that.
  pub build_selector_labels-Selects :
      (cluster : IdentityServerCluster U) (node : IdentityServerNode U)
      → IsMap (entries cluster.shared.pod_labels)
      → IsMap (entries node.shared.pod_labels)
      → Selects
          (build_selector_labels owned_resource_name cluster node)
          (entries (build_pod_labels owned_resource_name cluster node))
  unfolding build_selector_labels build_labels
  build_selector_labels-Selects cluster node hc hn =
      (lookup-build_pod_labels cluster node "curity.io/owned-by" hc hn, tt)
