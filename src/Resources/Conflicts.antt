-- ===== src/Resources/Conflicts.antt =====
-- resources.go: two containers of a pod with one name (detectContainerNameConflict), and whose container
-- the message names (containerSourceHint).
pub mod Laws
use curity_operator.Prelude.{
  ◌+◌, ◌-◌, String, Option, none, some, List, [], ◌∷◌, ◌++◌, map, ◌==◌, starts_with, if◌then◌else◌,
  any, sprint, quote,
}
use curity_operator.Resources.{Container, IdentityServerCluster, IdentityServerNode, LoggingSpec}
use curity_operator.Resources.Resolve.{resolve_logging}
use curity_operator.Resources.Pod.{PodSpec}
use curity_operator.Packages.Status.Classify.{package_fetch_prefix}

-- The first name that was seen before; `seen` lists the names so far.
abbrev pub repeated_name : List String → List String → Option String
repeated_name seen [] = none
repeated_name seen (n ∷ names) =
    let rest = repeated_name (n ∷ seen) names in if any (λ m. m == n) seen then some n else rest

module _ {U : Type 0} where
  abbrev logs_of : Option (LoggingSpec U) → List String
  logs_of none = []
  logs_of (some logging) = logging.logs

  unfoldable pub container_source_hint :
      String → IdentityServerCluster U → IdentityServerNode U → String
  container_source_hint name cluster node =
      if name == "curity"
      then "the main Curity container"
      else if starts_with name package_fetch_prefix
      then "an operator package-fetcher init container (spec.packages)"
      else if any (λ l. l == name) (logs_of (resolve_logging cluster node))
      then sprint ("the log sidecar generated for spec.logging.logs entry " ∷ quote name ∷ [])
      else "another container in this node's spec"

  abbrev pub names_of : List (Container U) → List String
  names_of cs = map (λ c. c.name) cs

  unfoldable pub detect_container_name_conflict :
      PodSpec U → IdentityServerCluster U → IdentityServerNode U → Option String
  detect_container_name_conflict spec cluster node =
      elim (repeated_name [] (names_of (spec.init_containers ++ spec.containers))) [
        | none ↦ none
        | some n ↦ some (
            sprint (
              "container name "
              ∷ quote n
              ∷ " is used more than once; it collides with "
              ∷ container_source_hint n cluster node
              ∷ " — rename the conflicting initContainers/extraContainers entry"
              ∷ []))
      ]
