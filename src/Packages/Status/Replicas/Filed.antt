-- ===== src/Packages/Status/Replicas/Filed.antt =====
-- Every group that the loop of currentReplicaSetPods makes has a pod, and every pod that it files has a group.
use curity_operator.Prelude.{
  String, ◌≡◌, refl, sym, ap, ◌∙◌, inl, inr, Bool, true, false, Option, none, some, List, [], ◌∷◌,
  ◌++◌, Memᴰ, arith, ◌==◌, eq_iff, eq_refl, Bool-cases, select, is_empty, All,
}
use curity_operator.Kube.{Pod}
use curity_operator.Packages.Status.Replicas.{Group, add_pod, file_pod, filed_under, group_pods}
use curity_operator.Packages.Status.Replicas.Grouping.{
  pods_under, is_filed_under, pods_under-group_pods,
}

is_empty-snoc : (pods : List Pod) (p : Pod) → is_empty (pods ++ p ∷ []) ≡ false
is_empty-snoc [] p = refl
is_empty-snoc (q ∷ pods) p = refl

filled-add_pod :
    (u : String) (p : Pod) (gs : List Group)
    → All (λ g. is_empty g.pods ≡ false) gs
    → All (λ g. is_empty g.pods ≡ false) (add_pod u p gs)
unfolding add_pod
filled-add_pod u p [] h = (refl, tt)
filled-add_pod u p (g ∷ gs) h = elim (Bool-cases (g.got_uid == u)) [
  | inl e ↦ rw e (is_empty-snoc g.pods p, h.1)
  | inr e ↦ rw e (h.0, filled-add_pod u p gs h.1)
]

filled-file_pod :
    (o : Option String) (p : Pod) (gs : List Group)
    → All (λ g. is_empty g.pods ≡ false) gs
    → All (λ g. is_empty g.pods ≡ false) (file_pod o p gs)
filled-file_pod none p gs h = h
filled-file_pod (some u) p gs h = filled-add_pod u p gs h

-- A group exists only once it has a pod.
pub filled-group_pods :
    (gs : List Group) (pods : List Pod)
    → All (λ g. is_empty g.pods ≡ false) gs
    → All (λ g. is_empty g.pods ≡ false) (group_pods gs pods)
unfolding group_pods
filled-group_pods gs [] h = h
filled-group_pods gs (p ∷ pods) h =
    filled-group_pods (file_pod (filed_under p) p gs) pods (filled-file_pod (filed_under p) p gs h)

under_inv :
    (uid : String) (gs : List Group)
    → is_empty (pods_under uid gs) ≡ false
    → (g : Group) × Memᴰ g gs × (g.got_uid ≡ uid)
under_inv uid [] h = absurd (ground (arith, h))
under_inv uid (g ∷ gs) h = elim (Bool-cases (g.got_uid == uid)) [
  | inl e ↦ (g, Memᴰ.head refl, (eq_iff g.got_uid uid).0 e)
  | inr e ↦ let (k, mem, same) = under_inv uid gs (rw e at h) in (k, Memᴰ.tail mem, same)
]

is_empty-select :
    {p : Pod} (q : Pod → Bool) (pods : List Pod)
    → q p ≡ true
    → Memᴰ p pods
    → is_empty (select q pods) ≡ false
is_empty-select q [] e h = elim h [ ]
is_empty-select q (x ∷ pods) e (Memᴰ.head k) = rw (sym (ap q k) ∙ e) refl
is_empty-select q (x ∷ pods) e (Memᴰ.tail h) = ground (arith, is_empty-select q pods e h)

-- A ReplicaSet under which a pod is filed has a group.
pub group_of_filed :
    (uid : String) (p : Pod) (pods : List Pod)
    → Memᴰ p pods
    → filed_under p ≡ some uid
    → (g : Group) × Memᴰ g (group_pods [] pods) × (g.got_uid ≡ uid)
group_of_filed uid p pods mem e = under_inv uid (group_pods [] pods) (
    ap is_empty (pods_under-group_pods uid [] pods)
    ∙ is_empty-select (is_filed_under uid) pods
        (ap (λ o. elim o [ none ↦ false | some u ↦ u == uid ]) e ∙ eq_refl uid) mem)
