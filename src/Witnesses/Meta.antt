-- ===== src/Witnesses/Meta.antt =====
-- A condition list as apimeta keeps it: an implementation of the functions that the model takes as a
-- parameter, with the laws that it asks of them.
use curity_operator.Prelude.{
  String, ◌≡◌, refl, ap, inl, inr, Bool, true, false, ◌&&◌, Option, none, some, List, [], ◌∷◌,
  arith, ◌==◌, eq_iff, eq_refl, nat_eq, if◌then◌else◌, Bool-cases,
}
use curity_operator.Api.{ApiMeta, Condition, ConditionStatus, yes_status, no_status, unknown_status}

abbrev same_status : ConditionStatus → ConditionStatus → Bool
same_status yes_status yes_status = true
same_status no_status no_status = true
same_status unknown_status unknown_status = true
same_status _ _ = false

same_status_path : (a b : ConditionStatus) → same_status a b ≡ true → a ≡ b
same_status_path yes_status yes_status h = refl
same_status_path no_status no_status h = refl
same_status_path unknown_status unknown_status h = refl
same_status_path yes_status no_status h = cc
same_status_path yes_status unknown_status h = cc
same_status_path no_status yes_status h = cc
same_status_path no_status unknown_status h = cc
same_status_path unknown_status yes_status h = cc
same_status_path unknown_status no_status h = cc

same_status_refl : (a : ConditionStatus) → same_status a a ≡ true
same_status_refl yes_status = refl
same_status_refl no_status = refl
same_status_refl unknown_status = refl

unfoldable pub same : Condition → Condition → Bool
same c d =
    c.type == d.type
    && same_status c.status d.status
    && c.reason == d.reason
    && c.message == d.message
    && nat_eq c.observed_generation d.observed_generation

same_path : (c d : Condition) → same c d ≡ true → c ≡ d
unfolding same
same_path c d h =
    let p1 : c.type ≡ d.type = ground (arith, eq_iff c.type d.type) in
    let p2 : c.status ≡ d.status = same_status_path c.status d.status (ground arith) in
    let p3 : c.reason ≡ d.reason = ground (arith, eq_iff c.reason d.reason) in
    let p4 : c.message ≡ d.message = ground (arith, eq_iff c.message d.message) in
    let p5 : c.observed_generation ≡ d.observed_generation = ground arith in cc (p1, p2, p3, p4, p5)

same_refl : (c : Condition) → same c c ≡ true
unfolding same
same_refl c =
    ground (arith, eq_refl c.type, eq_refl c.reason, eq_refl c.message, same_status_refl c.status)

unfoldable pub find : List Condition → String → Option Condition
find [] t = none
find (c ∷ cs) t = let rest = find cs t in if c.type == t then some c else rest

unfoldable pub set : List Condition → Condition → List Condition × Bool
set [] c = (c ∷ [], true)
set (d ∷ cs) c =
    let (rest, changed) = set cs c in
    if d.type == c.type
    then if same d c then (d ∷ cs, false) else (c ∷ cs, true)
    else (d ∷ rest, changed)

unfoldable pub remove : List Condition → String → List Condition
remove [] t = []
remove (c ∷ cs) t = let rest = remove cs t in if c.type == t then rest else c ∷ rest

pub find-nil_lem : (t : String) → find [] t ≡ none
unfolding find
find-nil_lem t = refl

pub find-set_lem :
    (cs : List Condition) (c : Condition) (t : String)
    → find (set cs c).0 t ≡ (if c.type == t then some c else find cs t)
unfolding find set
find-set_lem [] c t = refl
find-set_lem (d ∷ cs) c t = elim (Bool-cases (d.type == c.type)) [
  | inr e ↦
      rw e (
        ground (arith, find-set_lem cs c t, eq_iff d.type t, eq_iff c.type t, eq_iff d.type c.type))
  | inl e ↦ elim (Bool-cases (same d c)) [
    | inl e' ↦ rw (e, e') (ground (arith, same_path d c e'))
    | inr e' ↦ rw (e, e') (ground (arith, ap (λ z. z == t) ((eq_iff d.type c.type).0 e)))
  ]
]

pub set_unchanged_lem :
    (cs : List Condition) (c : Condition) → (set cs c).1 ≡ false → (set cs c).0 ≡ cs
unfolding set
set_unchanged_lem [] c h = cc
set_unchanged_lem (d ∷ cs) c h = ground (arith, set_unchanged_lem cs c)

pub set_present_lem :
    (cs : List Condition) (c : Condition) → find cs c.type ≡ some c → (set cs c).1 ≡ false
unfolding find set
set_present_lem [] c h = cc
set_present_lem (d ∷ cs) c h = ground (arith, set_present_lem cs c, same_refl c)

pub find-remove_lem :
    (cs : List Condition) (r t : String)
    → find (remove cs r) t ≡ (if r == t then none else find cs t)
unfolding find remove
find-remove_lem [] r t = ground arith
find-remove_lem (c ∷ cs) r t =
    ground (arith, find-remove_lem cs r t, eq_iff c.type r, eq_iff c.type t, eq_iff r t)

unfoldable pub meta : ApiMeta
meta = record {
  set_status_condition = set;
  find_status_condition = find;
  remove_status_condition = remove;
  find-nil = find-nil_lem;
  find-set = find-set_lem;
  set_unchanged = set_unchanged_lem;
  set_present = set_present_lem;
  find-remove = find-remove_lem;
}
