-- ===== src/Database/Connection/Laws.antt =====
-- The checks of a connection's Secrets in identityserverdatabase_reconciler.go, against the list of the
-- keys that the connection names.
use curity_operator.Prelude.{
  Memᴰ-map, Memᴰ-select, String, ◌≡◌, refl, sym, ap, ◌∙◌, ◌≢◌, ◌↔◌, inl, inr, Bool, true, false,
  ◌&&◌, ◌||◌, Option, none, some, List, [], ◌++◌, Memᴰ, arith, ◌==◌, if◌then◌else◌, Option-cases,
  all, select, all-append,
}
use curity_operator.Packages.Check.{Reader, GetResult, found, not_found, failed}
use curity_operator.Kube.{has_key, ObjectMeta, Secret}
use curity_operator.Predicates.{is_connection_secret_candidate, secret_object}
use curity_operator.Database.Template.{
  ListedDatabase, Request, find_databases_for_connection_secret,
}
use curity_operator.Database.{JdbcConnection, ValueSource, ConnectionSecretKeyRef}
use curity_operator.Database.Connection.Named.{key_of_ref, url_key, needed_keys, refers_to}
use curity_operator.Database.Connection.{
  CheckResult, resolved, unresolved, broken, check_key, check_url, check_value_source_secret,
  and_then, check_connection_sources, database_references_secret, ref_of,
}

abbrev has_secret_key : GetResult → String → Bool
has_secret_key (found s) key = has_key key s.secret_data
has_secret_key not_found key = false
has_secret_key (failed error) key = false

-- The Secret is there, and has the key.
abbrev pub provides : Reader → String → String × String → Bool
provides r namespace k = has_secret_key (r namespace k.0) k.1

abbrev is_resolved : CheckResult → Bool
is_resolved resolved = true
is_resolved (unresolved reason message) = false
is_resolved (broken error) = false

resolved_of : (c : CheckResult) → is_resolved c ≡ true → c ≡ resolved
resolved_of resolved e = refl
resolved_of (unresolved reason message) e = ground arith
resolved_of (broken error) e = ground arith

both-is_resolved :
    (c d : CheckResult) → is_resolved (and_then c d) ≡ (is_resolved c && is_resolved d)
both-is_resolved resolved d = refl
both-is_resolved (unresolved reason message) d = refl
both-is_resolved (broken error) d = refl

key-has_secret_key :
    (b : Bool) (x y : String) → is_resolved (if b then resolved else unresolved x y) ≡ b
key-has_secret_key true x y = refl
key-has_secret_key false x y = refl

check_key-has_secret_key :
    (g : GetResult) (key a b x y what : String)
    → is_resolved (check_key g key (unresolved a b) (unresolved x y) what) ≡ has_secret_key g key
check_key-has_secret_key (found s) key a b x y what =
    key-has_secret_key (has_key key s.secret_data) x y
check_key-has_secret_key not_found key a b x y what = refl
check_key-has_secret_key (failed error) key a b x y what = refl

module _ (r : Reader) (namespace : String) where
  check_value_source_secret-provides :
      (field : String) (ref : Option ConnectionSecretKeyRef)
      → is_resolved (check_value_source_secret r namespace field ref)
        ≡ all (provides r namespace) (key_of_ref ref)
  unfolding check_value_source_secret
  check_value_source_secret-provides field none = refl
  check_value_source_secret-provides field (some ref) =
      ground (arith, check_key-has_secret_key (r namespace ref.name) ref.key _ _ _ _ _)

  check_url-provides :
      (conn : JdbcConnection) (url : Option ValueSource)
      → conn.url ≡ url
      → is_resolved (check_url r namespace conn)
        ≡ all (provides r namespace) (url_key conn.secret_ref url)
  unfolding check_url
  check_url-provides conn none e =
      rw e (
        ground (arith, check_key-has_secret_key (r namespace conn.secret_ref) "JDBC_URL" _ _ _ _ _))
  check_url-provides conn (some vs) e = elim (Option-cases vs.secret_key_ref) [
    | inl n ↦ rw (e, n) refl
    | inr (ref, h) ↦
        rw (e, h)
          (ground (arith, check_key-has_secret_key (r namespace ref.name) ref.key _ _ _ _ _))
  ]

  check_connection_sources-provides :
      (conn : JdbcConnection)
      → is_resolved (check_connection_sources r namespace conn)
        ≡ all (provides r namespace) (needed_keys conn)
  unfolding check_connection_sources
  check_connection_sources-provides conn =
      both-is_resolved (check_url r namespace conn) _
      ∙ ground (
        arith,
        both-is_resolved
            (check_value_source_secret r namespace "connection.username" (ref_of conn.username))
            (check_value_source_secret r namespace "connection.password" (ref_of conn.password)),
        check_url-provides conn conn.url refl,
        check_value_source_secret-provides "connection.username" (ref_of conn.username),
        check_value_source_secret-provides "connection.password" (ref_of conn.password),
        all-append (provides r namespace) (url_key conn.secret_ref conn.url)
            (key_of_ref (ref_of conn.username) ++ key_of_ref (ref_of conn.password)),
        all-append (provides r namespace) (key_of_ref (ref_of conn.username))
            (key_of_ref (ref_of conn.password)),
      )

-- What the watch on Secrets asks for where a Secret is created: its test, and then its map over the
-- databases of the namespace.
abbrev pub requests_of : List ListedDatabase → ObjectMeta → Secret → List Request
requests_of dbs meta s =
    if is_connection_secret_candidate (some (secret_object meta s))
    then find_databases_for_connection_secret s.name (inr dbs)
    else []

-- An untyped or Opaque Secret.
abbrev pub is_opaque : Secret → Bool
is_opaque s = s.secret_type == "" || s.secret_type == "Opaque"

candidate-is_opaque :
    (meta : ObjectMeta) (s : Secret)
    → is_connection_secret_candidate (some (secret_object meta s)) ≡ is_opaque s
unfolding is_connection_secret_candidate
candidate-is_opaque meta s = ground arith

not_opaque :
    (dbs : List ListedDatabase) (meta : ObjectMeta) (s : Secret)
    → is_opaque s ≡ false
    → requests_of dbs meta s ≡ []
not_opaque dbs meta s h = rw (candidate-is_opaque meta s ∙ h) refl

asks_for :
    (dbs : List ListedDatabase) (db : ListedDatabase) (meta : ObjectMeta) (s : Secret)
    → Memᴰ db dbs
    → database_references_secret db.connection s.name ≡ true
    → is_opaque s ≡ true
    → Memᴰ (db.namespace, db.name) (requests_of dbs meta s)
unfolding find_databases_for_connection_secret
asks_for dbs db meta s mem refers h = rw (candidate-is_opaque meta s ∙ h) (
    Memᴰ-map (λ (d : ListedDatabase). (d.namespace, d.name))
      (select (λ d. database_references_secret d.connection s.name) dbs)
      (Memᴰ-select (λ d. database_references_secret d.connection s.name) dbs refers mem))

-- The checks resolve exactly where every key that the connection needs is in its Secret, which is there.
-- Where a Secret is created under a name that is not empty, and one of the needed keys is to be in a
-- Secret of that name, the watch asks for the database if the Secret is untyped or Opaque; for a Secret
-- of any other type it asks for nothing.
pub check_connection_sources_resolved :
    (r : Reader) (dbs : List ListedDatabase) (db : ListedDatabase)
    → Memᴰ db dbs
    → ((check_connection_sources r db.namespace db.connection ≡ resolved)
        ↔ (all (provides r db.namespace) (needed_keys db.connection) ≡ true))
      × ((meta : ObjectMeta) (s : Secret) (key : String)
          → s.name ≢ ""
          → Memᴰ (s.name, key) (needed_keys db.connection)
          → is_opaque s ≡ true
          → Memᴰ (db.namespace, db.name) (requests_of dbs meta s))
      × ((meta : ObjectMeta) (s : Secret) → is_opaque s ≡ false → requests_of dbs meta s ≡ [])
check_connection_sources_resolved r dbs db listed =
    let conn = db.connection in
    let same = check_connection_sources-provides r db.namespace conn in
    (
      (
        λ h. sym same ∙ ap is_resolved h,
        λ h. resolved_of (check_connection_sources r db.namespace conn) (same ∙ h),
      ),
      λ meta s key ne mem h. asks_for dbs db meta s listed (refers_to conn (s.name, key) mem ne) h,
      not_opaque dbs,
    )
