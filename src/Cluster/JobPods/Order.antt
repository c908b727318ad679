-- ===== src/Cluster/JobPods/Order.antt =====
-- The pods of a Job come from a cache in any order: what translateJobPodAdmission and
-- extractGenclustFailureMessage of identityservercluster_reconciler.go make of them.
use curity_operator.Prelude.{
  winner_from_of_perm, Apart, String, ◌≡◌, refl, ap, ◌≢◌, ◌⊎◌, inl, inr, true, false, some, List,
  [], ◌∷◌, Permᴰ, arith, ltb, Bool-cases, IsStrictOrder, Apart, Distinct, All-imp, str_ltb,
  str_ltb_total, less_by, less_by-IsStrictOrder, DistinctBy, is_empty-perm,
}
use curity_operator.Kube.{Pod}
use curity_operator.Cluster.JobPods.{
  sooner, translate_job_pod_admission, most_recent_cluster_config_pod,
  extract_genclust_failure_message, pod_exit,
}

by_name : IsStrictOrder (less_by (λ (pod : Pod). pod.name))
by_name = less_by-IsStrictOrder (λ (pod : Pod). pod.name)

sooner_asym : (p q : Pod) → sooner p q ≡ true → sooner q p ≡ false
sooner_asym p q h = ground (arith, by_name.asym p q)

sooner_trans : (p q r : Pod) → sooner p q ≡ true → sooner q r ≡ true → sooner p r ≡ true
sooner_trans p q r h k = ground (arith, by_name.trans p q r)

-- Of three names in order, the middle one is after the first or before the last.
one_of : (p q r : Pod) → sooner p r ≡ true → sooner p q ≡ false → sooner q r ≡ false → ⊥
one_of p q r h e f = elim (Bool-cases (str_ltb p.name r.name)) [
  | inr b ↦ ground arith
  | inl b ↦ elim (by_name.cotrans p q r b) [ inl c ↦ ground (arith, c) | inr c ↦ ground (arith, c) ]
]

sooner_cotrans : (p q r : Pod) → sooner p r ≡ true → (sooner p q ≡ true) ⊎ (sooner q r ≡ true)
sooner_cotrans p q r h = elim (Bool-cases (sooner p q)) [
  | inl e ↦ inl e
  | inr e ↦ elim (Bool-cases (sooner q r)) [ inl f ↦ inr f | inr f ↦ absurd (one_of p q r h e f) ]
]

sooner-IsStrictOrder : IsStrictOrder sooner
sooner-IsStrictOrder = record { asym = sooner_asym; trans = sooner_trans; cotrans = sooner_cotrans }

Apart-names : (p q : Pod) → p.name ≢ q.name → Apart sooner p q
Apart-names p q ne = elim (Bool-cases (ltb q.creation_timestamp p.creation_timestamp)) [
  | inl e ↦ inl (ground (arith, e))
  | inr e ↦ elim (Bool-cases (ltb p.creation_timestamp q.creation_timestamp)) [
    | inl f ↦ inr (ground (arith, f))
    | inr f ↦ elim (str_ltb_total p.name q.name ne) [
      | inl b ↦ inl (ground (arith, e, f, b))
      | inr b ↦ inr (ground (arith, e, f, b))
    ]
  ]
]

Distinct-names : (pods : List Pod) → DistinctBy (λ p. p.name) pods → Distinct sooner pods
Distinct-names [] h = tt
Distinct-names (p ∷ pods) h =
    (All-imp (λ q. p.name ≢ q.name) (Apart-names p) pods h.0, Distinct-names pods h.1)

most_recent_of_perm :
    (pods pods' : List Pod)
    → Permᴰ pods pods'
    → DistinctBy (λ p. p.name) pods
    → most_recent_cluster_config_pod pods ≡ most_recent_cluster_config_pod pods'
unfolding most_recent_cluster_config_pod
most_recent_of_perm [] [] same h = refl
most_recent_of_perm [] (q ∷ qs) same h = absurd (ground (arith, is_empty-perm same))
most_recent_of_perm (p ∷ ps) [] same h = absurd (ground (arith, is_empty-perm same))
most_recent_of_perm (p ∷ ps) (q ∷ qs) same h =
    ap some
      (winner_from_of_perm sooner sooner-IsStrictOrder p q ps qs same (Distinct-names (p ∷ ps) h))

-- In whatever order the pods are listed, which have different names, the cause that is reported of the
-- Job's pod and that of its failure are the same.
pub translate_job_pod_admission_of_perm :
    (pods pods' : List Pod) (message : String)
    → Permᴰ pods pods'
    → DistinctBy (λ p. p.name) pods
    → (translate_job_pod_admission pods message ≡ translate_job_pod_admission pods' message)
      × (extract_genclust_failure_message pods ≡ extract_genclust_failure_message pods')
unfolding translate_job_pod_admission extract_genclust_failure_message
translate_job_pod_admission_of_perm pods pods' message same h =
    let e = most_recent_of_perm pods pods' same h in
    let f = is_empty-perm same in (rw (e, f) refl, ap pod_exit e)
