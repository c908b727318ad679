-- ===== src/Config/Logging.antt =====
-- The configs for logging (validateLoggingResource, detectDuplicateLoggingConfigs,
-- applyLoggingValidations): a node mounts at most one, in a single file.
pub mod Laws
use curity_operator.Prelude.{
  ◌+◌, ◌-◌, String, Bool, true, false, not, ◌&&◌, Option, none, some, List, [], ◌∷◌, ◌++◌, map,
  ◌==◌, leb, if◌then◌else◌, is_some, length, any, all, select, is_empty, collect, sprint,
  format_nat, quote, sort_by, str_ltb,
}
use curity_operator.Kube.{keys}
use curity_operator.Config.{
  DiscoveredManagedResource, config_type_logging, kind_of, kind_name_ltb, format_list,
}

abbrev pub logging_data_key : String
logging_data_key = "log4j2.xml"

abbrev pub is_logging : DiscoveredManagedResource → Bool
is_logging cfg = cfg.config_type == config_type_logging

-- The sorted keys are exactly the one that is wanted.
abbrev pub only_logging_key : List String → Bool
only_logging_key [] = false
only_logging_key (k ∷ rest) = is_empty rest && k == logging_data_key

-- `("", true)` is `none`; otherwise the message.
unfoldable pub validate_logging_resource : DiscoveredManagedResource → Option String
validate_logging_resource cfg =
    let names = sort_by str_ltb (keys cfg.contents) in
    if only_logging_key names
    then none
    else some (
        sprint (
          "Logging-typed resource must have exactly one data key named "
          ∷ quote logging_data_key
          ∷ "; got "
          ∷ format_nat (length names)
          ∷ " keys: "
          ∷ format_list names
          ∷ []))

pub record DuplicateLoggingOwner : Type 0 where
  pub kind : String
  pub name : String

abbrev pub owner_of : DiscoveredManagedResource → Option DuplicateLoggingOwner
owner_of cfg =
    if is_logging cfg then some (record { kind = kind_of cfg; name = cfg.name }) else none

abbrev pub owner_ltb : DuplicateLoggingOwner → DuplicateLoggingOwner → Bool
owner_ltb a b = kind_name_ltb (a.kind, a.name) (b.kind, b.name)

-- `nil` is [].
unfoldable pub detect_duplicate_logging_configs :
    List DiscoveredManagedResource → List DuplicateLoggingOwner
detect_duplicate_logging_configs configs =
    let owners = collect owner_of configs in
    if leb (length owners) 1 then [] else sort_by owner_ltb owners

pub record LoggingValidationIssue : Type 0 where
  pub kind : String
  pub name : String
  pub event_reason : String
  pub message : String

-- The issue of the first loop for a config, if it has one.
unfoldable pub invalid_issue : DiscoveredManagedResource → Option LoggingValidationIssue
invalid_issue cfg = if not (is_logging cfg) then none else elim (validate_logging_resource cfg) [
  | none ↦ none
  | some message ↦ some (record {
    kind = kind_of cfg;
    name = cfg.name;
    event_reason = "LoggingConfigInvalid";
    message = message;
  })
]

abbrev pub owner_name : DuplicateLoggingOwner → String
owner_name d = sprint (d.kind ∷ "/" ∷ d.name ∷ [])

duplicate_message : List DuplicateLoggingOwner → String
duplicate_message dups = sprint (
    "Cluster has "
    ∷ format_nat (length dups)
    ∷ " applicable logging-typed resources: "
    ∷ format_list (map owner_name dups)
    ∷ ". None will be mounted; remove or scope all but one."
    ∷ [])

-- Whether the last loop keeps a config; `dup_set` is the set of the owners' names.
abbrev pub is_kept : List String → DiscoveredManagedResource → Bool
is_kept dup_set cfg =
    if not (is_logging cfg)
    then true
    else not (any (λ k. k == owner_name (record { kind = kind_of cfg; name = cfg.name })) dup_set)

unfoldable pub drop_duplicates :
    List DiscoveredManagedResource
    → List LoggingValidationIssue
    → List DuplicateLoggingOwner
    → List DiscoveredManagedResource × List LoggingValidationIssue
unfolding duplicate_message
drop_duplicates valid issues dups = if is_empty dups then (valid, issues) else (
  select (is_kept (map owner_name dups)) valid,
  issues
      ++ map
          (λ (d : DuplicateLoggingOwner). record {
            kind = d.kind;
            name = d.name;
            event_reason = "DuplicateLoggingConfig";
            message = duplicate_message dups;
          })
          dups,
)

unfoldable pub apply_logging_validations :
    List DiscoveredManagedResource → List DiscoveredManagedResource × List LoggingValidationIssue
apply_logging_validations configs =
    let valid = select (λ cfg. not (is_some (invalid_issue cfg))) configs in
    drop_duplicates valid (collect invalid_issue configs) (detect_duplicate_logging_configs valid)
