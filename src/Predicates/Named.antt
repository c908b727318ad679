-- ===== src/Predicates/Named.antt =====
-- databaseInitPodStatusDiffers stops at the first container of its name, where
-- clusterConfigPodStatusDiffers goes on (predicates.go): over the containers of one pod, whose names
-- are different, the two ways agree.
use curity_operator.Prelude.{
  String, ◌≡◌, refl, inl, inr, Bool, false, not, ◌||◌, none, List, [], ◌∷◌, arith, ◌==◌, eq_iff,
  Bool-cases,
}
use curity_operator.Kube.{ContainerStatus, Pod}
use curity_operator.Predicates.Containers.{
  find_by_name, any_status_changed, database_status_changed, database_container_name,
  database_init_pod_status_differs, equal_pod_scheduled_condition,
}

-- No name comes twice.
abbrev pub AllNamed : List ContainerStatus → Type 0
AllNamed [] = Unit
AllNamed (cs ∷ statuses) = (find_by_name cs.name statuses ≡ none) × AllNamed statuses

abbrev pub is_database : String → Bool
is_database name = name == database_container_name

not_found-cons :
    (name : String) (c : ContainerStatus) (statuses : List ContainerStatus)
    → find_by_name name (c ∷ statuses) ≡ none
    → ((c.name == name) ≡ false) × (find_by_name name statuses ≡ none)
unfolding find_by_name
not_found-cons name c statuses h = (ground (arith, h), ground (arith, h))

none_changed :
    (old new : List ContainerStatus)
    → find_by_name database_container_name new ≡ none
    → any_status_changed is_database old new ≡ false
unfolding any_status_changed
none_changed old [] h = refl
none_changed old (cs ∷ new) h =
    let (hc, ht) = not_found-cons database_container_name cs new h in
    ground (arith, hc, none_changed old new ht)

changed_alike :
    (old new : List ContainerStatus)
    → AllNamed new
    → database_status_changed old new ≡ any_status_changed is_database old new
unfolding any_status_changed database_status_changed
changed_alike old [] h = refl
changed_alike old (cs ∷ new) h = elim (Bool-cases (cs.name == database_container_name)) [
  | inl e ↦
      let e' : cs.name ≡ database_container_name =
        grind (arith, e, eq_iff cs.name database_container_name) in
      let ht : any_status_changed is_database old new ≡ false =
        none_changed old new (rw e' at h.0) in
      ground (arith, e, ht)
  | inr e ↦ ground (arith, e, changed_alike old new h.1)
]

-- Where no two containers of the new revision have one name, an update of a database pod counts as a
-- change exactly if the phase or the scheduling condition differs, or some container of the database
-- name is new or has another status.
pub database_init_pod_status_differs-any :
    (old new : Pod)
    → AllNamed new.container_statuses
    → database_init_pod_status_differs old new ≡ (
        not (old.phase == new.phase)
        || not (equal_pod_scheduled_condition old.conditions new.conditions)
        || any_status_changed is_database old.container_statuses new.container_statuses)
unfolding database_init_pod_status_differs
database_init_pod_status_differs-any old new h =
    rw (changed_alike old.container_statuses new.container_statuses h) (ground arith)
