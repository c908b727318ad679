-- ===== src/Predicates/Dropped.antt =====
-- What the watch on the pods of nodes drops (predicates.go) does not change what
-- translatePackagesReady (packages_status.go) reads of a pod.
use curity_operator.Predicates.{pod_object}
use curity_operator.Predicates.Watches.{package_init_container_status_changed}
use curity_operator.Packages.{PackageSpec}
use curity_operator.Packages.Status.Classify.{
  classify_init_container, package_fetch_prefix, Failure, label_managed_by, managed_by_operator,
}
use curity_operator.Packages.Status.Translate.{
  scan_containers, succeeded, is_fetch, failure_result, stopped,
}
use curity_operator.Predicates.Containers.{
  equal_container_state, equal_init_container_status, find_by_name, any_status_changed,
  package_init_container_status_differs,
}
use curity_operator.Prelude.{
  ℕ, suc, String, ◌≡◌, refl, sym, ap, ◌∙◌, ◌⊎◌, inl, inr, Bool, true, false, not, ◌&&◌, Option,
  none, some, List, [], ◌∷◌, arith, ◌==◌, starts_with, eq_iff, eq_refl, if◌then◌else◌, Bool-cases,
  is_some, All,
}
use curity_operator.Kube.{
  value_of, Pod, ObjectMeta, ContainerStatus, ContainerState, Waiting, Terminated,
}
use curity_operator.Prelude.Int.{ℤ, pos, negsuc, eq_ℤ}

-- At most one of the three is set, as the API promises.
abbrev pub at_most_one : ContainerState → Bool
at_most_one s =
    if is_some s.waiting
    then not s.running && not (is_some s.terminated)
    else not (s.running && is_some s.terminated)

eq_ℤ-sound : (a b : ℤ) → eq_ℤ a b ≡ true → a ≡ b
eq_ℤ-sound (pos n) (pos m) h = ground (arith, h)
eq_ℤ-sound (pos n) (negsuc m) h = ground (arith, h)
eq_ℤ-sound (negsuc n) (pos m) h = ground (arith, h)
eq_ℤ-sound (negsuc n) (negsuc m) h = ground (arith, h)

eta_Waiting : (a b : Waiting) → (a.reason == b.reason && a.message == b.message) ≡ true → a ≡ b
eta_Waiting a b h = grind (arith, h, eq_iff a.reason b.reason, eq_iff a.message b.message)

eta_Terminated :
    (a b : Terminated)
    → (eq_ℤ a.exit_code b.exit_code && a.reason == b.reason && a.message == b.message) ≡ true
    → a ≡ b
eta_Terminated a b h = grind (
  arith,
  h,
  eq_ℤ-sound a.exit_code b.exit_code,
  eq_iff a.reason b.reason,
  eq_iff a.message b.message,
)

same_set :
    (w v : Option Waiting) (r s : Bool) (t u : Option Terminated)
    → at_most_one (record { waiting = w; running = r; terminated = t }) ≡ true
    → at_most_one (record { waiting = v; running = s; terminated = u }) ≡ true
    → equal_container_state
        (record { waiting = w; running = r; terminated = t })
        (record { waiting = v; running = s; terminated = u })
      ≡ true
    → (w ≡ v) × (r ≡ s) × (t ≡ u)
unfolding equal_container_state
same_set (some w) (some v) false false none none hw hv h = (ap some (eta_Waiting w v h), refl, refl)
same_set none none true true none none hw hv h = (refl, refl, refl)
same_set none none false false (some t) (some u) hw hv h =
    (refl, refl, ap some (eta_Terminated t u h))
same_set none none false false none none hw hv h = (refl, refl, refl)
same_set w v r s t u hw hv h = ground arith

-- Two states that equalContainerState equates are one state.
equal_container_state_sound :
    (a b : ContainerState)
    → at_most_one a ≡ true
    → at_most_one b ≡ true
    → equal_container_state a b ≡ true
    → a ≡ b
equal_container_state_sound a b ha hb h =
    let (hw, hr, ht) =
      same_set a.waiting b.waiting a.running b.running a.terminated b.terminated ha hb h in
    λ i. record { waiting = hw i; running = hr i; terminated = ht i }

-- The states of a container are as the API promises.
abbrev pub IsStatus : ContainerStatus → Type 0
IsStatus cs = (at_most_one cs.state ≡ true) × (at_most_one cs.last_termination_state ≡ true)

abbrev Same : ContainerStatus → ContainerStatus → Type 0
Same a b =
    (a.restart_count ≡ b.restart_count)
    × (a.state ≡ b.state)
    × (a.last_termination_state ≡ b.last_termination_state)

equal_init_container_status_sound :
    (a b : ContainerStatus)
    → IsStatus a
    → IsStatus b
    → equal_init_container_status a b ≡ true
    → Same a b
unfolding equal_init_container_status
equal_init_container_status_sound a b ha hb h = (
  eq_ℤ-sound a.restart_count b.restart_count (ground (arith, h)),
  equal_container_state_sound a.state b.state ha.0 hb.0 (ground (arith, h)),
  equal_container_state_sound a.last_termination_state b.last_termination_state ha.1 hb.1
      (ground (arith, h)),
)

-- The two lists have the same names in the same order, and no name comes twice.
abbrev pub Paired : List ContainerStatus → List ContainerStatus → Type 0
Paired [] [] = Unit
Paired [] (n ∷ ns) = ⊥
Paired (o ∷ os) [] = ⊥
Paired (o ∷ os) (n ∷ ns) = (o.name ≡ n.name) × (find_by_name n.name os ≡ none) × Paired os ns

abbrev AllFound : List ContainerStatus → List ContainerStatus → Type 0
AllFound os ns = All (λ n. is_some (find_by_name n.name os) ≡ true) ns

found_later :
    (name : String) (o : ContainerStatus) (os : List ContainerStatus)
    → is_some (find_by_name name os) ≡ true
    → find_by_name name (o ∷ os) ≡ find_by_name name os
unfolding find_by_name
found_later name o os h = ground (arith, h)

find_by_name-here :
    (name : String) (o : ContainerStatus) (os : List ContainerStatus)
    → o.name ≡ name
    → find_by_name name os ≡ none
    → find_by_name name (o ∷ os) ≡ some o
unfolding find_by_name
find_by_name-here name o os e h = grind (arith, h, e, eq_refl name)

find_by_name-kept :
    (name : String) (o : ContainerStatus) (os : List ContainerStatus)
    → is_some (find_by_name name os) ≡ true
    → is_some (find_by_name name (o ∷ os)) ≡ true
find_by_name-kept name o os h = rw (found_later name o os h) h

AllFound-cons :
    (o : ContainerStatus) (os ns : List ContainerStatus) → AllFound os ns → AllFound (o ∷ os) ns
AllFound-cons o os [] h = tt
AllFound-cons o os (n ∷ ns) h = (find_by_name-kept n.name o os h.0, AllFound-cons o os ns h.1)

Paired-AllFound : (os ns : List ContainerStatus) → Paired os ns → AllFound os ns
Paired-AllFound [] [] h = tt
Paired-AllFound [] (n ∷ ns) h = ground (arith, h)
Paired-AllFound (o ∷ os) [] h = tt
Paired-AllFound (o ∷ os) (n ∷ ns) h = (
  rw (find_by_name-here n.name o os h.0 h.1) refl,
  AllFound-cons o os ns (Paired-AllFound os ns h.2),
)

any_status_changed-cons :
    (p : String → Bool) (o : ContainerStatus) (os ns : List ContainerStatus)
    → AllFound os ns
    → any_status_changed p (o ∷ os) ns ≡ any_status_changed p os ns
unfolding any_status_changed
any_status_changed-cons p o os [] h = refl
any_status_changed-cons p o os (n ∷ ns) h =
    rw (found_later n.name o os h.0, any_status_changed-cons p o os ns h.1) refl

-- What an unchanged, watched container has in common with its old status, and the rest of a list.
unchanged_head :
    (p : String → Bool) (o n : ContainerStatus) (os ns : List ContainerStatus)
    → Paired (o ∷ os) (n ∷ ns)
    → any_status_changed p (o ∷ os) (n ∷ ns) ≡ false
    → (p n.name ≡ false) ⊎ (equal_init_container_status o n ≡ true)
unfolding any_status_changed
unchanged_head p o n os ns hp h = elim (Bool-cases (p n.name)) [
  | inl e ↦
      let found : find_by_name n.name (o ∷ os) ≡ some o = find_by_name-here n.name o os hp.0 hp.1 in
      inr (ground (arith, e, found, h))
  | inr e ↦ inl e
]

unchanged_tail :
    (p : String → Bool) (o n : ContainerStatus) (os ns : List ContainerStatus)
    → Paired (o ∷ os) (n ∷ ns)
    → any_status_changed p (o ∷ os) (n ∷ ns) ≡ false
    → any_status_changed p os ns ≡ false
unfolding any_status_changed
unchanged_tail p o n os ns hp h =
    let step : any_status_changed p (o ∷ os) ns ≡ false = ground (arith, h) in
    sym (any_status_changed-cons p o os ns (Paired-AllFound os ns hp.2)) ∙ step

step-Same :
    (packages : List PackageSpec) (o n : ContainerStatus)
    → o.name ≡ n.name
    → Same o n
    → (classify_init_container o ≡ classify_init_container n)
      × (succeeded o ≡ succeeded n)
      × ((f : Failure) → failure_result packages o f ≡ failure_result packages n f)
unfolding classify_init_container failure_result
step-Same packages o n e (er, es, el) = (rw (er, es, el) refl, rw es refl, λ f. rw e refl)

scan_containers_unchanged :
    (packages : List PackageSpec) (os ns : List ContainerStatus)
    → Paired os ns
    → All IsStatus os
    → All IsStatus ns
    → any_status_changed (λ name. starts_with name package_fetch_prefix) os ns ≡ false
    → (count : ℕ) (saw : Bool)
    → scan_containers packages count saw os ≡ scan_containers packages count saw ns
unfolding scan_containers
scan_containers_unchanged packages [] [] hp ho hn h count saw = refl
scan_containers_unchanged packages [] (n ∷ ns) hp ho hn h count saw = ground (arith, hp)
scan_containers_unchanged packages (o ∷ os) [] hp ho hn h count saw = ground (arith, hp)
scan_containers_unchanged packages (o ∷ os) (n ∷ ns) hp ho hn h count saw =
    let rest =
      scan_containers_unchanged packages os ns hp.2 ho.1 hn.1
        (unchanged_tail (λ name. starts_with name package_fetch_prefix) o n os ns hp h) in
    elim (unchanged_head (λ name. starts_with name package_fetch_prefix) o n os ns hp h) [
      | inl e ↦
          let e' : starts_with o.name package_fetch_prefix ≡ false = rw hp.0 e in
          rw (e, e', rest count saw) refl
      | inr e ↦
          let (hc, hs, hf) =
            step-Same packages o n hp.0 (equal_init_container_status_sound o n ho.0 hn.0 e) in
          let ef : is_fetch o ≡ is_fetch n = rw hp.0 refl in
          λ i.
            let next =
              rest (if ef i && hs i then suc count else count) (if ef i then true else saw) i in
            if ef i then elim (hc i) [ some f ↦ stopped (hf f i) | none ↦ next ] else next
    ]

-- An update of one of the operator's pods that the watch drops leaves the loop of translatePackagesReady
-- over its init containers where it was, with the same count or the same verdict, where both revisions
-- list the same init containers, none twice, and each state of each has at most one of its parts set.
pub scan_containers_dropped :
    (packages : List PackageSpec) (m m' : ObjectMeta) (old new : Pod)
    → value_of label_managed_by new.labels ≡ managed_by_operator
    → Paired old.init_container_statuses new.init_container_statuses
    → All IsStatus old.init_container_statuses
    → All IsStatus new.init_container_statuses
    → package_init_container_status_changed.update
        (some (pod_object m old))
        (some (pod_object m' new))
      ≡ false
    → (count : ℕ) (saw : Bool)
    → scan_containers packages count saw old.init_container_statuses
      ≡ scan_containers packages count saw new.init_container_statuses
unfolding package_init_container_status_changed package_init_container_status_differs
scan_containers_dropped packages m m' old new hl hp ho hn h =
    let managed : (value_of label_managed_by new.labels == managed_by_operator) ≡ true =
      rw hl (eq_refl managed_by_operator) in
    scan_containers_unchanged packages old.init_container_statuses new.init_container_statuses hp ho
      hn (ground (arith, managed, h))
