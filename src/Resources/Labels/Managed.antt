-- ===== src/Resources/Labels/Managed.antt =====
-- mergeManagedLabels and userPodLabelsOverridden (resources.go): which labels of others the operator
-- keeps, and which of a user's it reports as ignored.
use curity_operator.Prelude.{
  String, ◌≡◌, refl, sym, ap, ◌∙◌, ◌↔◌, ◌⊎◌, inl, inr, Bool, true, false, ◌||◌, Option, none, some,
  List, [], ◌∷◌, Memᴰ, arith, ◌==◌, eq_iff, eq_refl, if◌then◌else◌, Bool-cases, is_some, select,
  sort_by-perm, str_ltb, Memᴰ-perm, perm_symm,
}
use curity_operator.Kube.{Map, lookup, has_key, keys}
use curity_operator.Resources.{IdentityServerCluster, IdentityServerNode}
use curity_operator.Resources.Labels.{
  put_all, entries, merge_maps, is_operator_owned_label, foreign, merge_managed_labels,
  build_labels, user_pod_labels_overridden,
}
use curity_operator.Resources.Labels.Laws.{
  IsMap, first_found, lookup-put_all, copied, lookup-merge_maps, first_found-none,
}

lookup-foreign :
    (m : Map String) (k : String)
    → lookup k (foreign m) ≡ (if is_operator_owned_label k then none else lookup k m)
lookup-foreign [] k = ground arith
lookup-foreign ((j, v) ∷ m) k = elim (Bool-cases (j == k)) [
  | inl e ↦
      let e' : j ≡ k = grind (arith, e, eq_iff j k) in
      rw (e', eq_refl k) (ground (arith, lookup-foreign m k, eq_refl k))
  | inr e ↦ ground (arith, e, lookup-foreign m k)
]

has_key-foreign :
    (m : Map String) (k : String) → has_key k m ≡ false → has_key k (foreign m) ≡ false
has_key-foreign m k h = ground (arith, lookup-foreign m k, h)

foreign-IsMap : (m : Map String) → IsMap m → IsMap (foreign m)
foreign-IsMap [] h = tt
foreign-IsMap ((k, v) ∷ m) h = elim (Bool-cases (is_operator_owned_label k)) [
  | inl e ↦ rw e (foreign-IsMap m h.1)
  | inr e ↦ rw e (has_key-foreign m k h.0, foreign-IsMap m h.1)
]

-- After the merge into an existing object, a label is the desired one where there is one, else the
-- existing one, unless its key has a prefix of the operator's.
pub lookup-merge_managed_labels :
    (existing desired : Option (Map String)) (k : String)
    → IsMap (entries existing)
    → IsMap (entries desired)
    → lookup k (entries (merge_managed_labels existing desired))
      ≡ first_found
          (lookup k (entries desired))
          (if is_operator_owned_label k then none else lookup k (entries existing))
unfolding merge_managed_labels
lookup-merge_managed_labels none none k he hd = ground arith
lookup-merge_managed_labels none (some d) k he hd =
    copied d k hd ∙ ground (arith, sym (first_found-none (lookup k d)))
lookup-merge_managed_labels (some e) d k he hd =
    lookup-put_all (put_all [] (foreign e)) (entries d) k hd
    ∙ ap (first_found (lookup k (entries d)))
        (copied (foreign e) k (foreign-IsMap e he) ∙ lookup-foreign e k)

Memᴰ-keys : (m : Map String) (k : String) → Memᴰ k (keys m) → has_key k m ≡ true
Memᴰ-keys [] k h = elim h [ ]
Memᴰ-keys ((j, v) ∷ m) k (Memᴰ.head e) = rw (e, eq_refl j) refl
Memᴰ-keys ((j, v) ∷ m) k (Memᴰ.tail h) = ground (arith, Memᴰ-keys m k h)

keys-Memᴰ : (m : Map String) (k : String) → has_key k m ≡ true → Memᴰ k (keys m)
keys-Memᴰ [] k h = cc
keys-Memᴰ ((j, v) ∷ m) k h = elim (Bool-cases (j == k)) [
  | inl e ↦ Memᴰ.head (grind (arith, e, eq_iff j k))
  | inr e ↦ Memᴰ.tail (keys-Memᴰ m k (ground (arith, e, h)))
]

Memᴰ-cases : {x y : String} {ys : List String} → Memᴰ x (y ∷ ys) → (x ≡ y) ⊎ Memᴰ x ys
Memᴰ-cases (Memᴰ.head e) = inl e
Memᴰ-cases (Memᴰ.tail h) = inr h

select_in :
    (p : String → Bool) (xs : List String) (x : String)
    → Memᴰ x (select p xs)
    → Memᴰ x xs × (p x ≡ true)
select_in p [] x h = elim h [ ]
select_in p (y ∷ xs) x h = elim (Bool-cases (p y)) [
  | inl e ↦
      let h' : Memᴰ x (y ∷ select p xs) = rw e at h in
      elim (Memᴰ-cases h') [
        | inl same ↦ (Memᴰ.head same, rw same e)
        | inr k ↦ let (mem, kept) = select_in p xs x k in (Memᴰ.tail mem, kept)
      ]
  | inr e ↦ let (mem, kept) = select_in p xs x (rw e at h) in (Memᴰ.tail mem, kept)
]

in_select :
    (p : String → Bool) (xs : List String) (x : String)
    → Memᴰ x xs
    → p x ≡ true
    → Memᴰ x (select p xs)
in_select p [] x h k = elim h [ ]
in_select p (y ∷ xs) x (Memᴰ.head e) k = rw ((rw e at k)) (Memᴰ.head e)
in_select p (y ∷ xs) x (Memᴰ.tail h) k = elim (Bool-cases (p y)) [
  | inl e ↦ rw e (Memᴰ.tail (in_select p xs x h k))
  | inr e ↦ rw e (in_select p xs x h k)
]

first_found-some : (a b : Option String) → is_some (first_found a b) ≡ (is_some a || is_some b)
first_found-some none b = refl
first_found-some (some v) b = refl

module _ {U : Type 0} (owned_resource_name : String → String → String) where
  -- The labels that are reported as ignored are those whose key the cluster or the node gives for its
  -- pods and the operator gives too.
  pub user_pod_labels_overridden-keys :
      (cluster : IdentityServerCluster U) (node : IdentityServerNode U) (k : String)
      → IsMap (entries cluster.shared.pod_labels)
      → IsMap (entries node.shared.pod_labels)
      → Memᴰ k (user_pod_labels_overridden owned_resource_name cluster node) ↔ (
          ((has_key k (entries cluster.shared.pod_labels)
              || has_key k (entries node.shared.pod_labels))
            ≡ true)
          × (has_key k (build_labels owned_resource_name cluster node) ≡ true))
  unfolding user_pod_labels_overridden
  user_pod_labels_overridden-keys cluster node k hc hn =
      let users = entries (merge_maps cluster.shared.pod_labels node.shared.pod_labels) in
      let p : String → Bool = λ j. has_key j (build_labels owned_resource_name cluster node) in
      let same = sort_by-perm str_ltb (select p (keys users)) in
      let read = lookup-merge_maps cluster.shared.pod_labels node.shared.pod_labels k hc hn in
      let given : has_key k users ≡ (
          has_key k (entries node.shared.pod_labels)
          || has_key k (entries cluster.shared.pod_labels)) =
        ap is_some read ∙ first_found-some _ _ in
      (
        λ h.
            let (mem, kept) = select_in p (keys users) k (Memᴰ-perm same h) in
            (ground (arith, given, Memᴰ-keys users k mem), kept),
        λ h.
            let has : has_key k users ≡ true = ground (arith, given, h.0) in
            Memᴰ-perm (perm_symm same) (in_select p (keys users) k (keys-Memᴰ users k has) h.1),
      )
