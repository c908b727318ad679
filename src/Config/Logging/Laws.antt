-- ===== src/Config/Logging/Laws.antt =====
-- What is left of the configs for logging, and what is said of those that are not.
use curity_operator.Prelude.{
  ℕ, suc, ◌+◌, ◌≤◌, String, ◌≡◌, refl, sym, ap, ◌∙◌, subst, inl, inr, Bool, true, false, not,
  Option, none, some, List, [], ◌∷◌, map, Permᴰ, arith, ◌==◌, eq_refl, leb, Bool-cases,
  Option-cases, is_some, length, any, select, select_same, select-select, Agree, is_empty, push,
  collect, All, length-append, sort_by, All-imp, sort_by-perm, length-perm, count_if, any-perm,
  is_empty-perm,
}
use curity_operator.Config.{DiscoveredManagedResource, kind_of}
use curity_operator.Config.Logging.{
  is_logging, owner_of, owner_ltb, owner_name, invalid_issue, is_kept, drop_duplicates,
  detect_duplicate_logging_configs, apply_logging_validations, LoggingValidationIssue,
  DuplicateLoggingOwner,
}

-- How many configs for logging a list has.
abbrev pub logging_count : List DiscoveredManagedResource → ℕ
logging_count configs = count_if is_logging configs

length-owners :
    (configs : List DiscoveredManagedResource)
    → length (collect owner_of configs) ≡ logging_count configs
length-owners [] = refl
length-owners (c ∷ configs) = ground (arith, length-owners configs)

any-map-names :
    (s : String) (ds : List DuplicateLoggingOwner)
    → any (λ k. k == s) (map owner_name ds) ≡ any (λ d. owner_name d == s) ds
any-map-names s [] = refl
any-map-names s (d ∷ ds) = ground (arith, any-map-names s ds)

abbrev own_name : DiscoveredManagedResource → String
own_name cfg = owner_name (record { kind = kind_of cfg; name = cfg.name })

-- The duplicates among `own ++ configs` name every config for logging of `configs`.
abbrev Names : List DuplicateLoggingOwner → DiscoveredManagedResource → Type 0
Names owners cfg = is_logging cfg ≡ true → any (λ d. owner_name d == own_name cfg) owners ≡ true

any-push :
    (p : DuplicateLoggingOwner → Bool) (o : Option DuplicateLoggingOwner)
    (owners : List DuplicateLoggingOwner)
    → any p owners ≡ true
    → any p (push o owners) ≡ true
any-push p none owners h = h
any-push p (some d) owners h = ground arith

owners-Names :
    (configs : List DiscoveredManagedResource) → All (Names (collect owner_of configs)) configs
owners-Names [] = tt
owners-Names (c ∷ configs) = (
  λ h. rw h (ground (arith, eq_refl (own_name c))),
  All-imp (Names (collect owner_of configs))
      (λ k named h.
        any-push (λ d. owner_name d == own_name k) (owner_of c) (collect owner_of configs)
          (named h))
      configs (owners-Names configs),
)

-- The set of the duplicates' names, in any order.
kept-Agree :
    (owners dups : List DuplicateLoggingOwner) (configs : List DiscoveredManagedResource)
    → Permᴰ dups owners
    → All (Names owners) configs
    → Agree (is_kept (map owner_name dups)) (λ c. not (is_logging c)) configs
kept-Agree owners dups [] d h = tt
kept-Agree owners dups (c ∷ configs) d h = (
  ground
      (arith, any-map-names (own_name c) dups, any-perm (λ o. owner_name o == own_name c) d, h.0),
  kept-Agree owners dups configs d h.1,
)

select-kept :
    (configs : List DiscoveredManagedResource)
    → select (is_kept (map owner_name (sort_by owner_ltb (collect owner_of configs)))) configs
      ≡ select (λ c. not (is_logging c)) configs
select-kept configs = select_same _ _ configs (
    kept-Agree (collect owner_of configs) (sort_by owner_ltb (collect owner_of configs)) configs
      (sort_by-perm owner_ltb (collect owner_of configs)) (owners-Names configs))

count-select_plain :
    (l : List DiscoveredManagedResource)
    → (logging_count (select (λ c. not (is_logging c)) l) ≡ 0)
      × (length (select (λ c. not (is_logging c)) l) + logging_count l ≡ length l)
count-select_plain [] = (refl, refl)
count-select_plain (c ∷ l) =
    (ground (arith, count-select_plain l), ground (arith, count-select_plain l))

invalid_of_plain :
    (c : DiscoveredManagedResource)
    → not (is_logging c) ≡ true
    → not (is_some (invalid_issue c)) ≡ true
unfolding invalid_issue
invalid_of_plain c h = ground arith

-- What the first loop keeps and what it reports make up the list.
first_loop :
    (l : List DiscoveredManagedResource)
    → (length (select (λ c. not (is_some (invalid_issue c))) l) + length (collect invalid_issue l)
        ≡ length l)
      × All (λ c. invalid_issue c ≡ none) (select (λ c. not (is_some (invalid_issue c))) l)
first_loop [] = (refl, tt)
first_loop (c ∷ l) =
    let (lengths, valid) = first_loop l in
    elim (Option-cases (invalid_issue c)) [
      | inl e ↦ rw e (omega (arith, lengths), (e, valid))
      | inr (i, e) ↦ rw e (omega (arith, lengths), valid)
    ]

All-select :
    (p : DiscoveredManagedResource → Bool) (l : List DiscoveredManagedResource)
    → All (λ c. invalid_issue c ≡ none) l
    → All (λ c. invalid_issue c ≡ none) (select p l)
All-select p [] h = tt
All-select p (c ∷ l) h = elim (Bool-cases (p c)) [
  | inl e ↦ rw e (h.0, All-select p l h.1)
  | inr e ↦ rw e (All-select p l h.1)
]

-- What is promised of a list of configs and the result for it.
abbrev IsClean :
    List DiscoveredManagedResource
    → List DiscoveredManagedResource × List LoggingValidationIssue
    → Type 0
IsClean configs (left, issues) =
    (logging_count left ≤ 1)
    × (select (λ c. not (is_logging c)) left ≡ select (λ c. not (is_logging c)) configs)
    × (length left + length issues ≡ length configs)
    × All (λ c. invalid_issue c ≡ none) left

length-map-issues :
    (f : DuplicateLoggingOwner → LoggingValidationIssue) (ds : List DuplicateLoggingOwner)
    → length (map f ds) ≡ length ds
length-map-issues f [] = refl
length-map-issues f (d ∷ ds) = ap suc (length-map-issues f ds)

dropped_none :
    (valid : List DiscoveredManagedResource) (issues : List LoggingValidationIssue)
    → leb (length (collect owner_of valid)) 1 ≡ true
    → drop_duplicates valid issues (detect_duplicate_logging_configs valid) ≡ (valid, issues)
unfolding drop_duplicates detect_duplicate_logging_configs
dropped_none valid issues h = rw h refl

is_empty-length :
    (ds : List DuplicateLoggingOwner) → leb (length ds) 1 ≡ false → is_empty ds ≡ false
is_empty-length [] h = absurd (ground arith)
is_empty-length (d ∷ ds) h = refl

dropped_many :
    (valid : List DiscoveredManagedResource) (issues : List LoggingValidationIssue)
    → leb (length (collect owner_of valid)) 1 ≡ false
    → let (left, issues') = drop_duplicates valid issues (detect_duplicate_logging_configs valid) in
      (left ≡ select (λ c. not (is_logging c)) valid)
      × (length issues' ≡ length issues + logging_count valid)
unfolding drop_duplicates detect_duplicate_logging_configs
dropped_many valid issues h =
    let owners = collect owner_of valid in
    let dups = sort_by owner_ltb owners in
    let some_left : is_empty dups ≡ false =
      is_empty-perm (sort_by-perm owner_ltb owners) ∙ is_empty-length owners h in
    rw (h, some_left)
      (
        select-kept valid,
        length-append issues _
            ∙ ap (λ n. length issues + n)
                (length-map-issues _ dups
                  ∙ length-perm (sort_by-perm owner_ltb owners)
                  ∙ length-owners valid),
      )

-- After applyLoggingValidations at most one config for logging is left, all other configs are left,
-- in their order, as many issues are reported as configs are left out, and no config that is left
-- fails the validation of its keys.
pub apply_logging_validations-one :
    (configs : List DiscoveredManagedResource)
    → let (left, issues) = apply_logging_validations configs in
      (logging_count left ≤ 1)
      × (select (λ c. not (is_logging c)) left ≡ select (λ c. not (is_logging c)) configs)
      × (length left + length issues ≡ length configs)
      × All (λ c. invalid_issue c ≡ none) left
unfolding apply_logging_validations
apply_logging_validations-one configs =
    let valid = select (λ c. not (is_some (invalid_issue c))) configs in
    let issues = collect invalid_issue configs in
    let owners = collect owner_of valid in
    let dups = sort_by owner_ltb owners in
    let (lengths, all_valid) = first_loop configs in
    let same : select (λ c. not (is_logging c)) valid ≡ select (λ c. not (is_logging c)) configs =
      select-select (λ c. not (is_logging c)) (λ c. not (is_some (invalid_issue c))) configs
        invalid_of_plain in
    elim (Bool-cases (leb (length owners) 1)) [
      | inl e ↦
          subst (IsClean configs) (sym (dropped_none valid issues e))
            (ground (arith, length-owners valid), same, lengths, all_valid)
      | inr e ↦
          let (left, count) = dropped_many valid issues e in
          let (no_logging, plain) = count-select_plain valid in
          rw left (
            ground (arith, no_logging),
            select-select (λ c. not (is_logging c)) (λ c. not (is_logging c)) valid (λ c k. k)
                ∙ same,
            omega (arith, count, plain, lengths),
            All-select (λ c. not (is_logging c)) valid all_valid,
          )
    ]
