-- ===== src/Config/Duplicates.antt =====
-- detectDuplicateKeys and newDuplicateKeyWarning. The map `seen` is a list of its entries in the
-- order in which they were made; the warnings are sorted at the end.
use curity_operator.Prelude.{
  String, Bool, ◌&&◌, ◌||◌, Option, none, some, List, [], ◌∷◌, ◌++◌, map, ◌==◌, ltb, leb,
  if◌then◌else◌, length, collect, sprint, quote, sort_by, less_by,
}
use curity_operator.Kube.{keys}
use curity_operator.Config.{
  DiscoveredManagedResource, config_type_logging, config_type_post_commit_script, config_type_env,
  kind_of, kind_name_ltb, format_list,
}

pub record DuplicateKeyOwner : Type 0 where
  pub kind : String
  pub name : String

pub record DuplicateKeyWarning : Type 0 where
  pub owners : List DuplicateKeyOwner
  pub message : String

-- An entry of the map: the struct `mountKey` and the owners.
pub record Mounted : Type 0 where
  pub config_type : String
  pub filename : String
  pub owners : List DuplicateKeyOwner

unfoldable pub new_duplicate_key_warning :
    List DuplicateKeyOwner → String → Option DuplicateKeyWarning
new_duplicate_key_warning owners message =
    if ltb (length owners) 2 then none else some (record { owners = owners; message = message })

-- `seen[mk] = append(seen[mk], owner)`
unfoldable pub add_owner : String → String → DuplicateKeyOwner → List Mounted → List Mounted
add_owner config_type filename owner [] =
    record { config_type = config_type; filename = filename; owners = owner ∷ [] } ∷ []
add_owner config_type filename owner (e ∷ seen) =
    let rest = e ∷ add_owner config_type filename owner seen in
    if e.config_type == config_type && e.filename == filename
    then record {
      config_type = e.config_type;
      filename = e.filename;
      owners = e.owners ++ owner ∷ [];
    }
      ∷ seen
    else rest

unfoldable pub add_keys : DiscoveredManagedResource → List String → List Mounted → List Mounted
add_keys cfg [] seen = seen
add_keys cfg (key ∷ rest) seen =
    add_keys cfg rest
      (add_owner cfg.config_type key (record { kind = kind_of cfg; name = cfg.name }) seen)

-- Files of these types do not merge.
abbrev pub is_separate : String → Bool
is_separate config_type =
    config_type == config_type_logging || config_type == config_type_post_commit_script

unfoldable pub seen_keys : List Mounted → List DiscoveredManagedResource → List Mounted
seen_keys seen [] = seen
seen_keys seen (cfg ∷ configs) =
    seen_keys (if is_separate cfg.config_type then seen else add_keys cfg (keys cfg.contents) seen)
      configs

duplicate_key_message : String → String → List String → String
duplicate_key_message config_type filename refs =
    if config_type == config_type_env
    then sprint (
        "environment variable "
        ∷ quote filename
        ∷ " is defined by multiple env resources: "
        ∷ format_list refs
        ∷ " — one value will shadow the others (envFrom order is non-deterministic), remove the duplicate"
        ∷ [])
    else sprint (
        "data key "
        ∷ quote filename
        ∷ " (config type "
        ∷ quote config_type
        ∷ ") exists in multiple resources: "
        ∷ format_list refs
        ∷ " — all will be mounted at distinct paths (prefixed by resource name), verify this is intentional"
        ∷ [])

abbrev owner_less : DuplicateKeyOwner → DuplicateKeyOwner → Bool
owner_less a b = kind_name_ltb (a.kind, a.name) (b.kind, b.name)

abbrev owner_ref : DuplicateKeyOwner → String
owner_ref o = sprint (o.kind ∷ "/" ∷ o.name ∷ [])

unfoldable pub warn_duplicate : Mounted → Option DuplicateKeyWarning
unfolding duplicate_key_message
warn_duplicate e =
    if leb (length e.owners) 1
    then none
    else let owners = sort_by owner_less e.owners in
      new_duplicate_key_warning owners
        (duplicate_key_message e.config_type e.filename (map owner_ref owners))

unfoldable pub detect_duplicate_keys : List DiscoveredManagedResource → List DuplicateKeyWarning
detect_duplicate_keys configs =
    sort_by (less_by (λ (w : DuplicateKeyWarning). w.message))
      (collect warn_duplicate (seen_keys [] configs))
