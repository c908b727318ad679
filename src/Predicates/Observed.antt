-- ===== src/Predicates/Observed.antt =====
-- Which updates of nodes wake their cluster (nodeStatusConditionsChangedPredicate in predicates.go).
use curity_operator.Prelude.{
  String, ◌≡◌, refl, ap, ◌↔◌, true, false, Option, none, some, List, [], ◌∷◌, map, arith, eq_iff,
  eq_refl,
}
use curity_operator.Kube.{ObjectMeta, OwnerReference}
use curity_operator.Api.{Condition, ConditionStatus, yes_status, no_status, unknown_status}
use curity_operator.Predicates.{
  Predicate, node_object, conditions_equal, extract_conditions, same_condition, equal_status,
  uid_changed,
}
use curity_operator.Predicates.Watches.{
  node_status_conditions_changed, controller_owner_ref_changed, is_generation_changed,
}

-- What conditionsEqual compares of a condition.
abbrev pub Observation : Type 0
Observation = String × ConditionStatus × String × String

abbrev pub observed : Condition → Observation
observed c = (c.type, c.status, c.reason, c.message)

-- The UID of a controller, if there is one.
abbrev pub uid_of : Option OwnerReference → Option String
uid_of none = none
uid_of (some ref) = some ref.uid

equal_status_sound : (a b : ConditionStatus) → equal_status a b ≡ true → a ≡ b
equal_status_sound yes_status yes_status h = refl
equal_status_sound no_status no_status h = refl
equal_status_sound unknown_status unknown_status h = refl
equal_status_sound a b h = ground (arith, h)

equal_status_refl : (a : ConditionStatus) → equal_status a a ≡ true
equal_status_refl yes_status = refl
equal_status_refl no_status = refl
equal_status_refl unknown_status = refl

same_condition_sound : (a b : Condition) → same_condition a b ≡ true → observed a ≡ observed b
same_condition_sound a b h =
    let e : a.status ≡ b.status = equal_status_sound a.status b.status (ground (arith, h)) in
    grind (arith, h, e, eq_iff a.type b.type, eq_iff a.reason b.reason, eq_iff a.message b.message)

same_condition_complete : (a b : Condition) → observed a ≡ observed b → same_condition a b ≡ true
same_condition_complete a b h =
    rw
      (
        ap (λ o. o.0) h,
        ap (λ o. o.1) h,
        ap (λ o. o.2) h,
        ap (λ o. o.3) h,
        eq_refl b.type,
        equal_status_refl b.status,
        eq_refl b.reason,
        eq_refl b.message,
      )
      refl

abbrev head_or : Observation → List Observation → Observation
head_or d [] = d
head_or d (o ∷ os) = o

abbrev tail : List Observation → List Observation
tail [] = []
tail (o ∷ os) = os

conditions_equal_sound :
    (a b : List Condition) → conditions_equal a b ≡ true → map observed a ≡ map observed b
unfolding conditions_equal
conditions_equal_sound [] [] h = refl
conditions_equal_sound [] (d ∷ b) h = ground (arith, h)
conditions_equal_sound (c ∷ a) [] h = ground (arith, h)
conditions_equal_sound (c ∷ a) (d ∷ b) h =
    let hc = same_condition_sound c d (ground (arith, h)) in
    let ht = conditions_equal_sound a b (ground (arith, h)) in λ i. hc i ∷ ht i

conditions_equal_complete :
    (a b : List Condition) → map observed a ≡ map observed b → conditions_equal a b ≡ true
unfolding conditions_equal
conditions_equal_complete [] [] h = refl
conditions_equal_complete [] (d ∷ b) h = ground (arith, h)
conditions_equal_complete (c ∷ a) [] h = ground (arith, h)
conditions_equal_complete (c ∷ a) (d ∷ b) h =
    rw
      (
        same_condition_complete c d (ap (head_or (observed c)) h),
        conditions_equal_complete a b (ap tail h),
      )
      refl

uid_changed_iff : (a b : Option OwnerReference) → (uid_changed a b ≡ false) ↔ (uid_of a ≡ uid_of b)
uid_changed_iff none none = (λ h. refl, λ h. refl)
uid_changed_iff none (some b) = (λ h. ground (arith, h), λ h. ground (arith, h))
uid_changed_iff (some a) none = (λ h. ground (arith, h), λ h. ground (arith, h))
uid_changed_iff (some a) (some b) =
    (λ h. grind (arith, h, eq_iff a.uid b.uid), λ h. grind (arith, h, eq_iff a.uid b.uid))

-- An update of a node is kept from its cluster exactly where the generation, the UID of the
-- controlling owner and, condition by condition, the type, status, reason and message are as before.
pub node_status_conditions_changed-update :
    (get_controller_of : List OwnerReference → Option OwnerReference) (funcs : Predicate)
    (old new : ObjectMeta) (before after : List Condition)
    → ((node_status_conditions_changed get_controller_of funcs).update
          (some (node_object old before))
          (some (node_object new after))
        ≡ false)
      ↔ ((new.generation ≡ old.generation)
          × (uid_of (get_controller_of old.owner_references)
              ≡ uid_of (get_controller_of new.owner_references))
          × (map observed before ≡ map observed after))
unfolding node_status_conditions_changed controller_owner_ref_changed is_generation_changed
    extract_conditions
node_status_conditions_changed-update get_controller_of funcs old new before after =
    let (u, u') =
      uid_changed_iff (get_controller_of old.owner_references)
        (get_controller_of new.owner_references) in
    (
      λ h. (
        ground (arith, h),
        u (ground (arith, h)),
        conditions_equal_sound before after (ground (arith, h)),
      ),
      λ h. ground (arith, h.0, u' h.1, conditions_equal_complete before after h.2),
    )
