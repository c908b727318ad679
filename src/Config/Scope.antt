-- ===== src/Config/Scope.antt =====
-- Which clusters a managed resource is for: parseClusterScope, appliesToCluster and the issues of
-- scanConfigScopeIssues. A set of names is a list in which each name stands once.
pub mod Laws
use curity_operator.Prelude.{
  ℕ, ◌+◌, ◌-◌, String, ◌⊎◌, inl, inr, Bool, true, false, not, ◌&&◌, ◌||◌, Option, none, some, List,
  [], ◌∷◌, ◌++◌, ◌==◌, leb, nat_eq, if◌then◌else◌, any, select, is_empty, collect, sprint, join,
  sort_by, str_ltb,
}
use Prim.Native.String
use Prim.Native.Char.{Char, code}
use curity_operator.Kube.{Map, lookup, Secret, value_of}
use curity_operator.Config.{kind_name_ltb}

abbrev pub annotation_cluster_scope : String
annotation_cluster_scope = "curity.io/cluster"

-- `unicode.IsSpace`
abbrev is_space : ℕ → Bool
is_space c =
    leb 9 c && leb c 13
    || any (λ k. nat_eq c k) (32 ∷ 133 ∷ 160 ∷ 5760 ∷ 8232 ∷ 8233 ∷ 8239 ∷ 8287 ∷ 12288 ∷ [])
    || leb 8192 c && leb c 8202

trim_left : String → String
trim_left String.[] = ""
trim_left (String.◌∷◌ c s) =
    let rest = trim_left s in if is_space (code c) then rest else String.◌∷◌ c s

trim_right : String → String
trim_right String.[] = ""
trim_right (String.◌∷◌ c s) =
    let rest = trim_right s in if is_space (code c) && rest == "" then "" else String.◌∷◌ c rest

-- `strings.TrimSpace`
unfoldable pub trim_space : String → String
unfolding trim_left trim_right
trim_space s = trim_right (trim_left s)

abbrev onto_first : Char → List String → List String
onto_first c [] = String.◌∷◌ c "" ∷ []
onto_first c (part ∷ parts) = String.◌∷◌ c part ∷ parts

-- `strings.Split(val, ",")`
unfoldable pub split_commas : String → List String
split_commas String.[] = "" ∷ []
split_commas (String.◌∷◌ c s) =
    let rest = split_commas s in if nat_eq (code c) 44 then "" ∷ rest else onto_first c rest

-- `names[p] = struct{}{}`
abbrev pub add_name : String → List String → List String
add_name p names = if any (λ n. n == p) names then names else names ++ p ∷ []

unfoldable pub scope_names : List String → List String → List String
scope_names names [] = names
scope_names names (p ∷ parts) =
    let trimmed = trim_space p in
    scope_names (if trimmed == "" then names else add_name trimmed names) parts

-- `(nil, true)` is `none`.
unfoldable pub parse_cluster_scope : String → Option (List String)
parse_cluster_scope val =
    let names = scope_names [] (split_commas val) in if is_empty names then none else some names

-- `names, empty := parseClusterScope(val)` with the membership test
abbrev pub in_scope : Option (List String) → String → Bool
in_scope none cluster_name = false
in_scope (some names) cluster_name = any (λ n. n == cluster_name) names

unfoldable pub applies_to_cluster : Map String → String → Bool
applies_to_cluster annotations cluster_name = elim (lookup annotation_cluster_scope annotations) [
  | none ↦ true
  | some val ↦ in_scope (parse_cluster_scope val) cluster_name
]

pub record ScopeIssue : Type 0 where
  pub kind : String
  pub name : String
  pub empty : Bool
  pub unknown : List String
  pub applied : List String

-- What the closure `eval` appends for a resource, if anything; `existing` are the clusters.
abbrev pub judge_scope : String → String → List String → Option (List String) → Option ScopeIssue
judge_scope kind name existing none =
    some (record { kind = kind; name = name; empty = true; unknown = []; applied = [] })
judge_scope kind name existing (some names) =
    let exists = λ (n : String). any (λ k. k == n) existing in
    let missing = select (λ n. not (exists n)) names in
    let applied = select exists names in
    if is_empty missing
    then none
    else some (record {
      kind = kind;
      name = name;
      empty = false;
      unknown = sort_by str_ltb missing;
      applied = sort_by str_ltb applied;
    })

unfoldable pub scope_issue : List String → String → String → Map String → Option ScopeIssue
scope_issue existing kind name annotations = elim (lookup annotation_cluster_scope annotations) [
  | none ↦ none
  | some raw ↦ judge_scope kind name existing (parse_cluster_scope raw)
]

-- Of a ConfigMap the operator reads these fields; its values are kept as bytes.
pub record ConfigMap : Type 0 where
  pub name : String
  pub annotations : Map String
  pub contents : Map (List ℕ)

-- A secret that the operator itself writes for a cluster.
abbrev pub is_cluster_config : Secret → Bool
is_cluster_config s = value_of "curity.io/component" s.labels == "cluster-config"

-- What a List call answers: an error or the items.
abbrev pub Listing {ℓ} : Type ℓ → Type ℓ
Listing A = String ⊎ List A

abbrev secret_scope_issue : List String → Secret → Option ScopeIssue
secret_scope_issue existing s =
    if is_cluster_config s then none else scope_issue existing "Secret" s.name s.annotations

unfoldable pub scan_config_scope_issues :
    Listing ConfigMap → Listing Secret → List String → Listing ScopeIssue
scan_config_scope_issues (inl error) secrets existing =
    inl (sprint ("listing managed ConfigMaps: " ∷ error ∷ []))
scan_config_scope_issues (inr config_maps) (inl error) existing =
    inl (sprint ("listing managed Secrets: " ∷ error ∷ []))
scan_config_scope_issues (inr config_maps) (inr secrets) existing = inr (
    sort_by (λ a b. kind_name_ltb (a.kind, a.name) (b.kind, b.name))
      (collect (λ cm. scope_issue existing "ConfigMap" cm.name cm.annotations) config_maps
        ++ collect (secret_scope_issue existing) secrets))

unfoldable pub format_name_list : List String → String
format_name_list names =
    if is_empty names then "[]" else sprint ("[" ∷ join (sort_by str_ltb names) ", " ∷ "]" ∷ [])

unfoldable pub format_unknown_cluster_message : List String → List String → String
format_unknown_cluster_message missing applied = sprint (
    "curity.io/cluster references clusters not found in namespace: "
    ∷ format_name_list missing
    ∷ ". Config applied to existing clusters "
    ∷ format_name_list applied
    ∷ ". Missing clusters will apply if/when created."
    ∷ [])
