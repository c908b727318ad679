-- ===== src/Packages/Refs/Names.antt =====
-- packageSecretNames and packageReferencesSecret agree, and no name is listed twice.
use curity_operator.Prelude.{
  String, ◌≡◌, ap, ◌≢◌, inl, inr, Bool, true, false, ◌||◌, List, [], ◌∷◌, ◌++◌, arith, ◌==◌, eq_iff,
  Bool-cases, any, any-append, All-append, DistinctBy,
}
use curity_operator.Packages.{PackageSpec}
use curity_operator.Packages.Refs.{
  package_secret_key_refs, package_references_secret, package_secret_names, names_from, add_names,
  PackageSecretKeyRef,
}

abbrev lists : String → List String → Bool
lists name names = any (λ n. n == name) names

lists-append-one :
    (name n : String) (seen : List String)
    → lists name (seen ++ n ∷ []) ≡ lists name seen || n == name
lists-append-one name n seen = ground (arith, any-append (λ k. k == name) seen (n ∷ []))

lists_same : (a b : String) (seen : List String) → (a == b) ≡ true → lists a seen ≡ lists b seen
lists_same a b seen h = ap (λ z. lists z seen) ((eq_iff a b).0 h)

lists-add_names :
    (name : String) (seen : List String) (refs : List PackageSecretKeyRef)
    → lists name (add_names seen refs) ≡ lists name seen || any (λ r. r.name == name) refs
unfolding add_names
lists-add_names name seen [] = ground arith
lists-add_names name seen (ref ∷ refs) = elim (Bool-cases (lists ref.name seen)) [
  | inl e ↦ rw e (ground (arith, lists-add_names name seen refs, lists_same ref.name name seen))
  | inr e ↦ rw e (
      ground (
        arith,
        lists-add_names name (seen ++ ref.name ∷ []) refs,
        lists-append-one name ref.name seen,
      ))
]

lists-names_from :
    (name : String) (seen : List String) (ps : List PackageSpec)
    → lists name (names_from seen ps) ≡ lists name seen || package_references_secret ps name
unfolding names_from package_references_secret
lists-names_from name seen [] = ground arith
lists-names_from name seen (p ∷ ps) = ground (
  arith,
  lists-names_from name (add_names seen (package_secret_key_refs p)) ps,
  lists-add_names name seen (package_secret_key_refs p),
)

DistinctBy-append-one :
    (n : String) (xs : List String)
    → DistinctBy (λ x. x) xs
    → lists n xs ≡ false
    → DistinctBy (λ x. x) (xs ++ n ∷ [])
DistinctBy-append-one n [] h e = (tt, tt)
DistinctBy-append-one n (x ∷ xs) h e = (
  All-append (λ y. x ≢ y) xs (n ∷ []) h.0 ((λ same. ground (arith, eq_iff x n)), tt),
  DistinctBy-append-one n xs h.1 (ground arith),
)

DistinctBy-add_names :
    (seen : List String) (refs : List PackageSecretKeyRef)
    → DistinctBy (λ x. x) seen
    → DistinctBy (λ x. x) (add_names seen refs)
unfolding add_names
DistinctBy-add_names seen [] h = h
DistinctBy-add_names seen (ref ∷ refs) h = elim (Bool-cases (lists ref.name seen)) [
  | inl e ↦ rw e (DistinctBy-add_names seen refs h)
  | inr e ↦
      rw e (
        DistinctBy-add_names (seen ++ ref.name ∷ []) refs (DistinctBy-append-one ref.name seen h e))
]

DistinctBy-names_from :
    (seen : List String) (ps : List PackageSpec)
    → DistinctBy (λ x. x) seen
    → DistinctBy (λ x. x) (names_from seen ps)
unfolding names_from
DistinctBy-names_from seen [] h = h
DistinctBy-names_from seen (p ∷ ps) h =
    DistinctBy-names_from (add_names seen (package_secret_key_refs p)) ps
      (DistinctBy-add_names seen (package_secret_key_refs p) h)

-- The list of Secret names that a Secret event is matched against holds each name once, and holds
-- exactly the names that a package refers to.
pub package_secret_names-references :
    (ps : List PackageSpec)
    → DistinctBy (λ x. x) (package_secret_names ps)
      × ((name : String)
          → any (λ n. n == name) (package_secret_names ps) ≡ package_references_secret ps name)
unfolding package_secret_names
package_secret_names-references ps =
    (DistinctBy-names_from [] ps tt, λ name. lists-names_from name [] ps)
