-- ===== src/Database/Connection/Named.antt =====
-- The names of the Secrets that a JDBC connection needs (connectionSecretNames and databaseReferencesSecret of
-- identityserverdatabase_reconciler.go).
use curity_operator.Prelude.{
  all-Memᴰ, String, ◌≡◌, refl, sym, ap, ◌∙◌, ◌≢◌, inl, inr, Bool, true, ◌&&◌, ◌||◌, Option, none,
  some, List, [], ◌∷◌, ◌++◌, Memᴰ, arith, ◌==◌, eq_iff, eq_refl, Bool-cases, any, all, any-append,
  all-append, sort_by-perm, str_ltb, any-perm,
}
use curity_operator.Database.{JdbcConnection, ValueSource, ConnectionSecretKeyRef}
use curity_operator.Database.Connection.{
  database_references_secret, connection_secret_names, add_secret_name, add_ref, ref_of,
}

abbrev pub key_of_ref : Option ConnectionSecretKeyRef → List (String × String)
key_of_ref none = []
key_of_ref (some ref) = (ref.name, ref.key) ∷ []

-- Without a URL the key JDBC_URL of the connection's Secret is needed.
abbrev pub url_key : String → Option ValueSource → List (String × String)
url_key secret none = (secret, "JDBC_URL") ∷ []
url_key secret (some vs) = key_of_ref vs.secret_key_ref

-- The names and keys of the Secrets that the connection needs.
abbrev pub needed_keys : JdbcConnection → List (String × String)
needed_keys conn =
    url_key conn.secret_ref conn.url
    ++ (key_of_ref (ref_of conn.username) ++ key_of_ref (ref_of conn.password))

both_true : (a b : Bool) → (a && b) ≡ true → (a ≡ true) × (b ≡ true)
both_true a b h = (ground arith, ground arith)

true_both : {a b : Bool} → a ≡ true → b ≡ true → (a && b) ≡ true
true_both {a} {b} h k = ground arith

-- The name is empty, or among the names.
abbrev named_in : List String → String → Bool
named_in names n = n == "" || any (λ k. k == n) names

module _ (n : String) where
  named_in-snoc :
      (names : List String) (k : String)
      → named_in names n ≡ true
      → named_in (names ++ k ∷ []) n ≡ true
  named_in-snoc names k h = ground (arith, any-append (λ j. j == n) names (k ∷ []))

  named_in-add_secret_name :
      (names : List String) (k : String)
      → named_in names n ≡ true
      → named_in (add_secret_name names k) n ≡ true
  named_in-add_secret_name names k h = elim (Bool-cases (k == "")) [
    | inl e ↦ rw e h
    | inr e ↦ elim (Bool-cases (any (λ m. m == k) names)) [
      | inl f ↦ rw (e, f) h
      | inr f ↦ rw (e, f) (named_in-snoc names k h)
    ]
  ]

  add_secret_name-named_in : (names : List String) → named_in (add_secret_name names n) n ≡ true
  add_secret_name-named_in names = elim (Bool-cases (n == "")) [
    | inl e ↦ rw e refl
    | inr e ↦ elim (Bool-cases (any (λ m. m == n) names)) [
      | inl f ↦ rw (e, f) (ground (arith, f))
      | inr f ↦ rw (e, f) (ground (arith, any-append (λ j. j == n) names (n ∷ []), eq_refl n))
    ]
  ]

  named_in-add_ref :
      (names : List String) (ref : Option ConnectionSecretKeyRef)
      → named_in names n ≡ true
      → named_in (add_ref names ref) n ≡ true
  named_in-add_ref names none h = h
  named_in-add_ref names (some ref) h = named_in-add_secret_name names ref.name h

-- Every name of the keys is named.
abbrev all_named : List String → List (String × String) → Bool
all_named names ks = all (λ k. named_in names k.0) ks

all_named-add_ref_old :
    (names : List String) (ref : Option ConnectionSecretKeyRef) (ks : List (String × String))
    → all_named names ks ≡ true
    → all_named (add_ref names ref) ks ≡ true
all_named-add_ref_old names ref [] h = refl
all_named-add_ref_old names ref (k ∷ ks) h =
    let (here, later) = both_true _ _ h in
    true_both (named_in-add_ref k.0 names ref here) (all_named-add_ref_old names ref ks later)

all_named-add_ref :
    (names : List String) (ref : Option ConnectionSecretKeyRef)
    → all_named (add_ref names ref) (key_of_ref ref) ≡ true
all_named-add_ref names none = refl
all_named-add_ref names (some ref) = true_both (add_secret_name-named_in ref.name names) refl

all_named-append :
    (names : List String) (ks ks' : List (String × String))
    → all_named names ks ≡ true
    → all_named names ks' ≡ true
    → all_named names (ks ++ ks') ≡ true
all_named-append names ks ks' h h' = all-append _ ks ks' ∙ true_both h h'

all_named-url :
    (secret : String) (url : Option ValueSource)
    → all_named (add_ref (add_secret_name [] secret) (ref_of url)) (url_key secret url) ≡ true
all_named-url secret none = true_both (add_secret_name-named_in secret []) refl
all_named-url secret (some vs) = all_named-add_ref (add_secret_name [] secret) vs.secret_key_ref

-- Before they are sorted.
abbrev found_names : JdbcConnection → List String
found_names conn =
    add_ref
      (add_ref (add_ref (add_secret_name [] conn.secret_ref) (ref_of conn.url))
        (ref_of conn.username))
      (ref_of conn.password)

found_names-all : (conn : JdbcConnection) → all_named (found_names conn) (needed_keys conn) ≡ true
found_names-all conn =
    let names = add_ref (add_secret_name [] conn.secret_ref) (ref_of conn.url) in
    let more = add_ref names (ref_of conn.username) in
    all_named-append (found_names conn) (url_key conn.secret_ref conn.url)
      (key_of_ref (ref_of conn.username) ++ key_of_ref (ref_of conn.password))
      (all_named-add_ref_old more (ref_of conn.password) (url_key conn.secret_ref conn.url) (
        all_named-add_ref_old names (ref_of conn.username) (url_key conn.secret_ref conn.url)
          (all_named-url conn.secret_ref conn.url)))
      (all_named-append (found_names conn) (key_of_ref (ref_of conn.username))
        (key_of_ref (ref_of conn.password))
        (all_named-add_ref_old more (ref_of conn.password) (key_of_ref (ref_of conn.username))
          (all_named-add_ref names (ref_of conn.username)))
        (all_named-add_ref more (ref_of conn.password)))

-- The name is empty, or one that databaseReferencesSecret accepts.
abbrev wakes : JdbcConnection → String × String → Bool
wakes conn k = k.0 == "" || database_references_secret conn k.0

named-wakes :
    (conn : JdbcConnection) (k : String × String) → named_in (found_names conn) k.0 ≡ wakes conn k
unfolding database_references_secret connection_secret_names
named-wakes conn k =
    ap (λ b. k.0 == "" || b)
      (sym (any-perm (λ n. n == k.0) (sort_by-perm str_ltb (found_names conn))))

all_same {ℓ} :
    {A : Type ℓ} (p q : A → Bool) (l : List A) → ((a : A) → p a ≡ q a) → all p l ≡ all q l
all_same p q [] h = refl
all_same p q (a ∷ l) h = ground (arith, h a, all_same p q l h)

pub refers_to :
    (conn : JdbcConnection) (k : String × String)
    → Memᴰ k (needed_keys conn)
    → k.0 ≢ ""
    → database_references_secret conn k.0 ≡ true
refers_to conn k mem ne =
    let woken : wakes conn k ≡ true =
      all-Memᴰ (wakes conn) (needed_keys conn)
        (sym (all_same _ _ (needed_keys conn) (named-wakes conn)) ∙ found_names-all conn) mem in
    elim (Bool-cases (k.0 == "")) [
      | inl e ↦ absurd (ne ((eq_iff k.0 "").0 e))
      | inr e ↦ ground (arith, e, woken)
    ]
