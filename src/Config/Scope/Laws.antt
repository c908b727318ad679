-- ===== src/Config/Scope/Laws.antt =====
-- What the scope of a managed resource means for the clusters of its namespace.
use curity_operator.Prelude.{
  String, ◌≡◌, refl, sym, ◌∙◌, subst, inl, inr, Bool, false, not, ◌&&◌, ◌||◌, Option, none, some,
  List, [], ◌∷◌, arith, ◌==◌, eq_iff, eq_refl, Bool-cases, Option-cases, any, select, is_empty,
  sort_by, sort_by-perm, str_ltb, any-perm, is_empty-perm,
}
use curity_operator.Kube.{Map, lookup}
use curity_operator.Config.Scope.{
  annotation_cluster_scope, parse_cluster_scope, applies_to_cluster, in_scope, judge_scope,
  scope_issue, ScopeIssue,
}

abbrev pub holds_name : List String → String → Bool
holds_name names n = any (λ k. k == n) names

-- The set that parseClusterScope returns is not empty.
parse_nonempty :
    (val : String) (names : List String)
    → parse_cluster_scope val ≡ some names
    → is_empty names ≡ false
unfolding parse_cluster_scope
parse_nonempty val names h = ground arith

holds-select :
    (p : String → Bool) (names : List String) (n : String)
    → holds_name (select p names) n ≡ holds_name names n && p n
holds-select p [] n = ground arith
holds-select p (k ∷ names) n = elim (Bool-cases (k == n)) [
  | inl e ↦
      let same : k ≡ n = (eq_iff k n).0 e in
      rw same (ground (arith, holds-select p names n, eq_refl n))
  | inr e ↦ ground (arith, holds-select p names n, e)
]

holds-sort :
    (names : List String) (n : String) → holds_name (sort_by str_ltb names) n ≡ holds_name names n
holds-sort names n = any-perm (λ k. k == n) (sort_by-perm str_ltb names)

abbrev Says : List String → Option (List String) → ScopeIssue → Type 0
Says existing scope issue =
    (issue.empty ≡ is_empty issue.unknown)
    × ((cluster : String)
        → (in_scope scope cluster
            ≡ (holds_name issue.unknown cluster || holds_name issue.applied cluster))
          × (holds_name issue.unknown cluster
              ≡ (in_scope scope cluster && not (holds_name existing cluster))))

abbrev Reports : List String → Option (List String) → Option ScopeIssue → Type 0
Reports existing scope none = Unit
Reports existing scope (some issue) = Says existing scope issue

judge_scope-Reports :
    (existing : List String) (kind name : String) (scope : Option (List String))
    → Reports existing scope (judge_scope kind name existing scope)
judge_scope-Reports existing kind name none = (refl, λ cluster. (refl, refl))
judge_scope-Reports existing kind name (some names) =
    let exists : String → Bool = λ n. holds_name existing n in
    let missing = select (λ n. not (exists n)) names in
    let applied = select exists names in
    elim (Bool-cases (is_empty missing)) [
      | inl e ↦ rw e tt
      | inr e ↦ rw e (
        sym (is_empty-perm (sort_by-perm str_ltb missing) ∙ e),
        λ cluster. (
          ground (
            arith,
            holds-sort missing cluster,
            holds-sort applied cluster,
            holds-select (λ n. not (exists n)) names cluster,
            holds-select exists names cluster,
          ),
          holds-sort missing cluster ∙ holds-select (λ n. not (exists n)) names cluster,
        ),
      )
    ]

-- What an issue of scanConfigScopeIssues says: where the scope is empty, the resource applies to no
-- cluster; otherwise it applies exactly to the clusters of the two lists, of which the applied ones
-- exist and the unknown ones do not, and some cluster is unknown.
pub scope_issue-applies :
    (existing : List String) (kind name : String) (annotations : Map String) (issue : ScopeIssue)
    → scope_issue existing kind name annotations ≡ some issue
    → (issue.empty ≡ is_empty issue.unknown)
      × ((cluster : String)
          → (applies_to_cluster annotations cluster
              ≡ (holds_name issue.unknown cluster || holds_name issue.applied cluster))
            × (holds_name issue.unknown cluster
                ≡ (applies_to_cluster annotations cluster && not (holds_name existing cluster))))
unfolding scope_issue applies_to_cluster
scope_issue-applies existing kind name annotations issue h =
    elim (Option-cases (lookup annotation_cluster_scope annotations)) [
      | inl e ↦ absurd (cc (rw (scope_issue, e) at h))
      | inr (raw, e) ↦
          rw (applies_to_cluster, e)
            (subst (Reports existing (parse_cluster_scope raw)) (rw (scope_issue, e) at h)
              (judge_scope-Reports existing kind name (parse_cluster_scope raw)))
    ]
