-- ===== src/Cluster/Wakes/Union.antt =====
-- What newUnionScopeHandler of managed_config_handler.go adds to the queue.
use curity_operator.Prelude.{
  ◌+◌, ◌≤◌, ◌≡◌, refl, ap, ◌∙◌, inl, inr, Bool, true, false, ◌||◌, List, [], ◌∷◌, ◌++◌, arith,
  eq_iff, if◌then◌else◌, Bool-cases, any, any-append, count_if,
}
use curity_operator.Predicates.{Object}
use curity_operator.Database.Template.{Request}
use curity_operator.Cluster.Wakes.{same_request, see, see_all, update_event, union_scope_handler}

-- An element of the list passes the test.
abbrev pub asks : Request → List Request → Bool
asks r requests = any (same_request r) requests

same_request-≡ : (a b : Request) → same_request a b ≡ true → a ≡ b
same_request-≡ a b h =
    ap (λ x. (x, a.1)) ((eq_iff a.0 b.0).0 (ground (arith, h)))
    ∙ ap (λ y. (b.0, y)) ((eq_iff a.1 b.1).0 (ground (arith, h)))

asks_same :
    (r s : Request) (seen : List Request) → same_request r s ≡ true → asks r seen ≡ asks s seen
asks_same r s seen h = ap (λ t. asks t seen) (same_request-≡ r s h)

asks-see :
    (r s : Request) (seen : List Request) → asks r (see seen s) ≡ (asks r seen || same_request r s)
asks-see r s seen = elim (Bool-cases (any (same_request s) seen)) [
  | inl e ↦ rw e (ground (arith, e, asks_same r s seen))
  | inr e ↦ rw e (any-append (same_request r) seen (s ∷ []) ∙ ground arith)
]

asks-see_all :
    (r : Request) (seen requests : List Request)
    → asks r (see_all seen requests) ≡ (asks r seen || asks r requests)
asks-see_all r seen [] = ground arith
asks-see_all r seen (s ∷ requests) =
    ground (arith, asks-see_all r (see seen s) requests, asks-see r s seen)

count-snoc :
    (p : Request → Bool) (seen : List Request) (s : Request)
    → count_if p (seen ++ s ∷ []) ≡ count_if p seen + (if p s then 1 else 0)
count-snoc p [] s = ground arith
count-snoc p (x ∷ seen) s = ground (arith, count-snoc p seen s)

count_none : (p : Request → Bool) (seen : List Request) → any p seen ≡ false → count_if p seen ≡ 0
count_none p [] h = refl
count_none p (x ∷ seen) h = ground (arith, count_none p seen)

-- No request is in the list twice.
abbrev pub Once : List Request → Type 0
Once requests = (r : Request) → count_if (same_request r) requests ≤ 1

Once-see : (s : Request) (seen : List Request) → Once seen → Once (see seen s)
Once-see s seen h r = elim (Bool-cases (any (same_request s) seen)) [
  | inl e ↦ rw e (h r)
  | inr e ↦
      rw (e, count-snoc (same_request r) seen s)
        (ground (arith, h r, asks_same r s seen, count_none (same_request r) seen))
]

Once-see_all : (seen requests : List Request) → Once seen → Once (see_all seen requests)
Once-see_all seen [] h = h
Once-see_all seen (s ∷ requests) h = Once-see_all (see seen s) requests (Once-see s seen h)

-- An update asks for the requests of the object as it was and as it is, each once, and for no other.
pub union_scope_handler-update :
    (list : Object → List Request) (object_old object_new : Object)
    → ((r : Request)
        → asks r (union_scope_handler list (update_event object_old object_new))
          ≡ (asks r (list object_old) || asks r (list object_new)))
      × Once (union_scope_handler list (update_event object_old object_new))
unfolding union_scope_handler
union_scope_handler-update list object_old object_new = (
  λ r.
      asks-see_all r (see_all [] (list object_old)) (list object_new)
      ∙ ground (arith, asks-see_all r [] (list object_old)),
  Once-see_all (see_all [] (list object_old)) (list object_new)
      (Once-see_all [] (list object_old) (λ r. ground arith)),
)
