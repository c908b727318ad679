-- ===== src/Database/Connection.antt =====
-- identityserverdatabase_reconciler.go: the Secrets of a JDBC connection: which there are, whether they can
-- be read, their digest, and the environment that they give the Job.
pub mod Named
pub mod Laws
use curity_operator.Prelude.{
  ℕ, ◌+◌, String, ◌⊎◌, inl, inr, Bool, true, not, Option, none, some, List, [], ◌∷◌, ◌++◌, ◌==◌,
  if◌then◌else◌, any, is_empty, sprint, quote, sort_by, str_ltb,
}
use curity_operator.Kube.{Secret, has_key, keys, lookup, EnvVar, literal, secret_key_ref}
use curity_operator.Packages.Check.{Reader, GetResult, found, not_found, failed}
use curity_operator.Resources.{EnvFromSource, secret_ref}
use curity_operator.Database.{
  JdbcConnection, ValueSource, ConnectionSecretKeyRef, Externals, reason_jdbc_url_missing,
  reason_connection_secret_missing, reason_connection_key_missing,
}

abbrev pub ref_of : Option ValueSource → Option ConnectionSecretKeyRef
ref_of none = none
ref_of (some vs) = vs.secret_key_ref

-- The closure `add`: not the empty name, and no name twice.
abbrev pub add_secret_name : List String → String → List String
add_secret_name names n =
    if n == "" then names else if any (λ m. m == n) names then names else names ++ n ∷ []

abbrev pub add_ref : List String → Option ConnectionSecretKeyRef → List String
add_ref names none = names
add_ref names (some ref) = add_secret_name names ref.name

unfoldable pub connection_secret_names : JdbcConnection → List String
connection_secret_names conn = sort_by str_ltb (
    add_ref
      (add_ref (add_ref (add_secret_name [] conn.secret_ref) (ref_of conn.url))
        (ref_of conn.username))
      (ref_of conn.password))

unfoldable pub database_references_secret : JdbcConnection → String → Bool
database_references_secret conn name = any (λ n. n == name) (connection_secret_names conn)

-- The results (reason, message, err) of the checks.
pub data CheckResult : Type 0 where
  resolved : CheckResult
  unresolved : (reason message : String) → CheckResult
  broken : (error : String) → CheckResult

-- A Get of a Secret and the test for a key.
abbrev pub check_key : GetResult → String → CheckResult → CheckResult → String → CheckResult
check_key (found s) key missing_secret missing_key what =
    if has_key key s.secret_data then resolved else missing_key
check_key not_found key missing_secret missing_key what = missing_secret
check_key (failed error) key missing_secret missing_key what =
    broken (sprint ("failed to get " ∷ what ∷ ": " ∷ error ∷ []))

unfoldable pub check_value_source_secret :
    Reader → String → String → Option ConnectionSecretKeyRef → CheckResult
check_value_source_secret r namespace field none = resolved
check_value_source_secret r namespace field (some ref) =
    check_key (r namespace ref.name) ref.key
      (unresolved reason_connection_secret_missing
        (sprint (field ∷ ".secretKeyRef Secret " ∷ quote ref.name ∷ " not found" ∷ [])))
      (unresolved reason_connection_key_missing (
        sprint
          ("Secret " ∷ quote ref.name ∷ " has no key " ∷ quote ref.key ∷ " for " ∷ field ∷ [])))
      (sprint (field ∷ " Secret " ∷ quote ref.name ∷ []))

-- The first check: where JDBC_URL comes from.
unfoldable pub check_url : Reader → String → JdbcConnection → CheckResult
check_url r namespace conn = elim conn.url [
  | none ↦
      check_key (r namespace conn.secret_ref) "JDBC_URL"
        (unresolved reason_connection_secret_missing
          (sprint ("connection.secretRef Secret " ∷ quote conn.secret_ref ∷ " not found" ∷ [])))
        (unresolved reason_jdbc_url_missing (
          sprint (
            "Secret "
            ∷ quote conn.secret_ref
            ∷ " has no JDBC_URL key; set connection.url or add the key"
            ∷ [])))
        (sprint ("connection Secret " ∷ quote conn.secret_ref ∷ []))
  | some vs ↦ elim vs.secret_key_ref [
    | none ↦ resolved
    | some ref ↦
        check_key (r namespace ref.name) ref.key
          (unresolved reason_connection_secret_missing
            (sprint ("connection.url.secretKeyRef Secret " ∷ quote ref.name ∷ " not found" ∷ [])))
          (unresolved reason_jdbc_url_missing (
            sprint
              ("Secret " ∷ quote ref.name ∷ " has no key " ∷ quote ref.key ∷ " for JDBC_URL" ∷ [])))
          (sprint ("connection.url Secret " ∷ quote ref.name ∷ []))
  ]
]

abbrev pub and_then : CheckResult → CheckResult → CheckResult
and_then resolved next = next
and_then (unresolved reason message) next = unresolved reason message
and_then (broken error) next = broken error

unfoldable pub check_connection_sources : Reader → String → JdbcConnection → CheckResult
check_connection_sources r namespace conn = and_then (check_url r namespace conn) (
    and_then (check_value_source_secret r namespace "connection.username" (ref_of conn.username))
      (check_value_source_secret r namespace "connection.password" (ref_of conn.password)))

abbrev value_bytes : Option (List ℕ) → List ℕ
value_bytes none = []
value_bytes (some bytes) = bytes

module _ {U : Type 0} (x : Externals U) where
  abbrev zero_byte : List ℕ
  zero_byte = 0 ∷ []

  -- What is hashed of the keys of a Secret.
  abbrev key_chunks : Secret → List String → List (List ℕ)
  key_chunks s [] = []
  key_chunks s (k ∷ ks) =
      x.bytes_of k ∷ zero_byte ∷ value_bytes (lookup k s.secret_data) ∷ zero_byte ∷ key_chunks s ks

  abbrev prepend : List (List ℕ) → String ⊎ List (List ℕ) → String ⊎ List (List ℕ)
  prepend chunks (inl error) = inl error
  prepend chunks (inr rest) = inr (chunks ++ rest)

  -- An error of a Get, or what is hashed of the Secrets.
  secret_chunks : Reader → String → List String → String ⊎ List (List ℕ)
  secret_chunks r namespace [] = inr []
  secret_chunks r namespace (name ∷ names) =
      let rest = secret_chunks r namespace names in
      elim (r namespace name) [
        | found s ↦
            prepend
              (x.bytes_of name ∷ zero_byte ∷ key_chunks s (sort_by str_ltb (keys s.secret_data)))
              rest
        | not_found ↦ prepend (x.bytes_of name ∷ zero_byte ∷ []) rest
        | failed error ↦
            inl (sprint ("getting Secret " ∷ quote name ∷ " for connection hash: " ∷ error ∷ []))
      ]

  abbrev digest_of : String ⊎ List (List ℕ) → String ⊎ String
  digest_of (inl error) = inl error
  digest_of (inr chunks) = inr (x.digest chunks)

  unfoldable pub compute_connection_secrets_hash :
      Reader → String → JdbcConnection → String ⊎ String
  unfolding secret_chunks
  compute_connection_secrets_hash r namespace conn =
      let names = connection_secret_names conn in
      if is_empty names then inr "" else digest_of (secret_chunks r namespace names)

abbrev pub value_source_to_env_var : String → Option ValueSource → List EnvVar
value_source_to_env_var name none = []
value_source_to_env_var name (some vs) =
    record {
      name = name;
      value = elim vs.secret_key_ref [
        | none ↦ literal vs.value
        | some ref ↦ secret_key_ref ref.name ref.key
      ];
    }
    ∷ []

unfoldable pub build_jdbc_env_vars : JdbcConnection → List EnvVar
build_jdbc_env_vars conn =
    value_source_to_env_var "JDBC_URL" conn.url
    ++ value_source_to_env_var "JDBC_USERNAME" conn.username
    ++ value_source_to_env_var "JDBC_PASSWORD" conn.password

unfoldable pub build_jdbc_env_from : JdbcConnection → List EnvFromSource
build_jdbc_env_from conn =
    if conn.secret_ref == "" then [] else secret_ref conn.secret_ref (some true) ∷ []
