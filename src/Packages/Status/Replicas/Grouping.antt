-- ===== src/Packages/Status/Replicas/Grouping.antt =====
-- What the loop of currentReplicaSetPods has filed: the pods of each group, and its newest one.
use curity_operator.Prelude.{
  ℕ, String, ◌≡◌, refl, sym, ap, ◌∙◌, ◌≢◌, inl, inr, Bool, true, false, not, ◌&&◌, Option, none,
  some, List, [], ◌∷◌, ◌++◌, append-nil, append_assoc, arith, ◌==◌, eq_iff, eq_refl, ltb,
  if◌then◌else◌, Bool-cases, is_some, any, select, is_empty, All, DistinctBy,
}
use curity_operator.Kube.{Pod}
use curity_operator.Packages.Status.Replicas.{Group, add_pod, file_pod, filed_under, group_pods}

-- The pods of the group with a given UID.
abbrev pub pods_under : String → List Group → List Pod
pods_under uid [] = []
pods_under uid (g ∷ gs) = let rest = pods_under uid gs in if g.got_uid == uid then g.pods else rest

-- The pod is filed under this ReplicaSet.
abbrev pub is_filed_under : String → Pod → Bool
is_filed_under uid p = elim (filed_under p) [ none ↦ false | some u ↦ u == uid ]

under_one :
    (b : Bool) (own others : List Pod) (p : Pod)
    → (if b then own ++ p ∷ [] else others)
      ≡ (if b then own else others) ++ (if b then p ∷ [] else [])
under_one true own others p = refl
under_one false own others p = sym (append-nil others)

pods_under-add_pod :
    (uid u : String) (p : Pod) (gs : List Group)
    → pods_under uid (add_pod u p gs) ≡ pods_under uid gs ++ (if u == uid then p ∷ [] else [])
unfolding add_pod
pods_under-add_pod uid u p [] = refl
pods_under-add_pod uid u p (g ∷ gs) =
    let ih = pods_under-add_pod uid u p gs in
    elim (Bool-cases (g.got_uid == u)) [
      | inl e ↦
          let same : g.got_uid ≡ u = (eq_iff g.got_uid u).0 e in
          rw (e, same) (under_one (u == uid) g.pods (pods_under uid gs) p)
      | inr e ↦ rw e (
          ground
            (arith, ih, append-nil g.pods, eq_iff g.got_uid uid, eq_iff u uid, eq_iff g.got_uid u))
    ]

pods_under-file_pod :
    (uid : String) (o : Option String) (p : Pod) (gs : List Group)
    → pods_under uid (file_pod o p gs)
      ≡ pods_under uid gs ++ (if elim o [ none ↦ false | some u ↦ u == uid ] then p ∷ [] else [])
pods_under-file_pod uid none p gs = sym (append-nil (pods_under uid gs))
pods_under-file_pod uid (some u) p gs = pods_under-add_pod uid u p gs

select_cons :
    (q : Pod → Bool) (p : Pod) (pods : List Pod)
    → select q (p ∷ pods) ≡ (if q p then p ∷ [] else []) ++ select q pods
select_cons q p pods = elim (Bool-cases (q p)) [ inl e ↦ rw e refl | inr e ↦ rw e refl ]

-- The group of a ReplicaSet gets the pods that are filed under it, in their order.
pub pods_under-group_pods :
    (uid : String) (gs : List Group) (pods : List Pod)
    → pods_under uid (group_pods gs pods) ≡ pods_under uid gs ++ select (is_filed_under uid) pods
unfolding group_pods
pods_under-group_pods uid gs [] = sym (append-nil (pods_under uid gs))
pods_under-group_pods uid gs (p ∷ pods) =
    pods_under-group_pods uid (file_pod (filed_under p) p gs) pods
    ∙ ap (λ z. z ++ select (is_filed_under uid) pods) (pods_under-file_pod uid (filed_under p) p gs)
    ∙ append_assoc (pods_under uid gs) _ (select (is_filed_under uid) pods)
    ∙ ap (λ z. pods_under uid gs ++ z) (sym (select_cons (is_filed_under uid) p pods))

other_than-add_pod :
    (x u : String) (p : Pod) (gs : List Group)
    → x ≢ u
    → All (λ g. x ≢ g.got_uid) gs
    → All (λ g. x ≢ g.got_uid) (add_pod u p gs)
unfolding add_pod
other_than-add_pod x u p [] ne h = (ne, tt)
other_than-add_pod x u p (g ∷ gs) ne h = elim (Bool-cases (g.got_uid == u)) [
  | inl e ↦ rw e h
  | inr e ↦ rw e (h.0, other_than-add_pod x u p gs ne h.1)
]

DistinctBy-add_pod :
    (u : String) (p : Pod) (gs : List Group)
    → DistinctBy (λ g. g.got_uid) gs
    → DistinctBy (λ g. g.got_uid) (add_pod u p gs)
unfolding add_pod
DistinctBy-add_pod u p [] h = (tt, tt)
DistinctBy-add_pod u p (g ∷ gs) h = elim (Bool-cases (g.got_uid == u)) [
  | inl e ↦ rw e h
  | inr e ↦ rw e (
    other_than-add_pod g.got_uid u p gs (λ same. ground (arith, eq_iff g.got_uid u)) h.0,
    DistinctBy-add_pod u p gs h.1,
  )
]

DistinctBy-file_pod :
    (o : Option String) (p : Pod) (gs : List Group)
    → DistinctBy (λ g. g.got_uid) gs
    → DistinctBy (λ g. g.got_uid) (file_pod o p gs)
DistinctBy-file_pod none p gs h = h
DistinctBy-file_pod (some u) p gs h = DistinctBy-add_pod u p gs h

pub DistinctBy-group_pods :
    (gs : List Group) (pods : List Pod)
    → DistinctBy (λ g. g.got_uid) gs
    → DistinctBy (λ g. g.got_uid) (group_pods gs pods)
unfolding group_pods
DistinctBy-group_pods gs [] h = h
DistinctBy-group_pods gs (p ∷ pods) h =
    DistinctBy-group_pods (file_pod (filed_under p) p gs) pods
      (DistinctBy-file_pod (filed_under p) p gs h)

All-imp_two {κ μ ν} :
    {P : Group → Type κ} {Q : Group → Type μ} {R : Group → Type ν} (gs : List Group)
    → ((g : Group) → P g → Q g → R g)
    → All P gs
    → All Q gs
    → All R gs
All-imp_two [] f hp hq = tt
All-imp_two (g ∷ gs) f hp hq = (f g hp.0 hq.0, All-imp_two gs f hp.1 hq.1)

pub own_of_distinct :
    (gs : List Group)
    → DistinctBy (λ g. g.got_uid) gs
    → All (λ g. pods_under g.got_uid gs ≡ g.pods) gs
own_of_distinct [] h = tt
own_of_distinct (g ∷ gs) h = (
  rw (eq_refl g.got_uid) refl,
  All-imp_two gs (λ k ne own. ground (arith, own, eq_iff g.got_uid k.got_uid)) h.0
      (own_of_distinct gs h.1),
)

is_empty-add_pod : (u : String) (p : Pod) (gs : List Group) → is_empty (add_pod u p gs) ≡ false
unfolding add_pod
is_empty-add_pod u p [] = refl
is_empty-add_pod u p (g ∷ gs) = ground arith

is_empty-file_pod :
    (o : Option String) (p : Pod) (gs : List Group)
    → is_empty (file_pod o p gs) ≡ is_empty gs && not (is_some o)
is_empty-file_pod none p gs = ground arith
is_empty-file_pod (some u) p gs = ground (arith, is_empty-add_pod u p gs)

-- There is a group exactly where a pod was filed.
pub nothing_filed :
    (gs : List Group) (pods : List Pod)
    → is_empty (group_pods gs pods) ≡ is_empty gs && not (any (λ p. is_some (filed_under p)) pods)
unfolding group_pods
nothing_filed gs [] = ground arith
nothing_filed gs (p ∷ pods) = ground (
  arith,
  nothing_filed (file_pod (filed_under p) p gs) pods,
  is_empty-file_pod (filed_under p) p gs,
)

-- The newest of the pods; 0 is the zero time.
abbrev pub newest_of : List Pod → ℕ
newest_of [] = 0
newest_of (p ∷ pods) =
    let rest = newest_of pods in
    if ltb rest p.creation_timestamp then p.creation_timestamp else rest

newest_of-append :
    (pods : List Pod) (p : Pod)
    → newest_of (pods ++ p ∷ [])
      ≡ (if ltb (newest_of pods) p.creation_timestamp then p.creation_timestamp else newest_of pods)
newest_of-append [] p = ground arith
newest_of-append (q ∷ pods) p = ground (arith, newest_of-append pods p)

newest-add_pod :
    (u : String) (p : Pod) (gs : List Group)
    → All (λ g. g.newest ≡ newest_of g.pods) gs
    → All (λ g. g.newest ≡ newest_of g.pods) (add_pod u p gs)
unfolding add_pod
newest-add_pod u p [] h = (ground arith, tt)
newest-add_pod u p (g ∷ gs) h = elim (Bool-cases (g.got_uid == u)) [
  | inl e ↦ rw e (ground (arith, newest_of-append g.pods p, h.0), h.1)
  | inr e ↦ rw e (h.0, newest-add_pod u p gs h.1)
]

newest-file_pod :
    (o : Option String) (p : Pod) (gs : List Group)
    → All (λ g. g.newest ≡ newest_of g.pods) gs
    → All (λ g. g.newest ≡ newest_of g.pods) (file_pod o p gs)
newest-file_pod none p gs h = h
newest-file_pod (some u) p gs h = newest-add_pod u p gs h

-- A group knows the time of its newest pod.
pub newest-group_pods :
    (gs : List Group) (pods : List Pod)
    → All (λ g. g.newest ≡ newest_of g.pods) gs
    → All (λ g. g.newest ≡ newest_of g.pods) (group_pods gs pods)
unfolding group_pods
newest-group_pods gs [] h = h
newest-group_pods gs (p ∷ pods) h =
    newest-group_pods (file_pod (filed_under p) p gs) pods (newest-file_pod (filed_under p) p gs h)
