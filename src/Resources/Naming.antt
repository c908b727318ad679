-- ===== src/Resources/Naming.antt =====
-- OwnedResourceName (resources.go): the name of the objects of a node, cut so that a pod's name still fits
-- into a DNS label. The eight hexadecimal digits of SHA-256 over the two names are a parameter.
use curity_operator.Prelude.{
  ℕ, ◌+◌, ◌-◌, String, ◌&&◌, [], ◌∷◌, ◌++◌, ◌==◌, ltb, nat_eq, if◌then◌else◌,
}
pub mod Bound
use Prim.Native.String
use Prim.Native.String.{len, slice}
use Prim.Native.Char.{code}

abbrev pub owned_resource_name_max_len : ℕ
owned_resource_name_max_len = 47

-- strings.TrimRight of dashes; 45 is the code of a dash.
unfoldable pub trim_dashes : String → String
trim_dashes String.[] = ""
trim_dashes (String.◌∷◌ c s) =
    let rest = trim_dashes s in if nat_eq (code c) 45 && rest == "" then "" else String.◌∷◌ c rest

module _ (short_hash : String → String → String) where
  unfoldable pub owned_resource_name : String → String → String
  owned_resource_name cluster_name node_name =
      let suffix = String.◌++◌ "-" (short_hash cluster_name node_name) in
      let base = String.◌++◌ cluster_name (String.◌++◌ "-" node_name) in
      String.◌++◌
        (if ltb owned_resource_name_max_len (len base + len suffix)
          then trim_dashes (slice base 0 (owned_resource_name_max_len - len suffix))
          else base)
        suffix
