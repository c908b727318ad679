-- ===== src/Config/Kinds/Filename.antt =====
-- Two keys of managed resources are mounted under different file names: the kind, the name of the
-- resource and the key are read back from the file name, as the names of resources have no underscore.
use curity_operator.Prelude.{
  String, ◌≡◌, refl, sym, ap, ◌∙◌, Bool, true, false, ◌||◌, arith, nat_eq, if◌then◌else◌,
}
use Prim.Native.String
use Prim.Native.Char.{code}
use text.Mathlib.TextLemmas
use text.Mathlib.TextLemmas.{append-nil, cons-append, nil-append}
use curity_operator.Config.Kinds.{mount_filename}

abbrev pub has_underscore : String → Bool
has_underscore String.[] = false
has_underscore (String.◌∷◌ c s) = nat_eq (code c) 95 || has_underscore s

-- What stands before the first underscore, and what stands behind it.
cut : String → String × String
cut String.[] = ("", "")
cut (String.◌∷◌ c s) =
    let (before, behind) = cut s in
    if nat_eq (code c) 95 then ("", s) else (String.◌∷◌ c before, behind)

cut-append :
    (n k : String) → has_underscore n ≡ false → cut (String.◌++◌ n (String.◌++◌ "_" k)) ≡ (n, k)
unfolding cut
cut-append String.[] k h = rw (nil-append) (rw (cons-append, nil-append) refl)
cut-append (String.◌∷◌ c n) k h =
    rw (cons-append c n (String.◌++◌ "_" k)) (ground (arith, cut-append n k, h))

same_kind :
    (a b : Bool)
    → ◌≡◌ {A = String} (if a then "secret" else "cm") (if b then "secret" else "cm")
    → a ≡ b
same_kind true true h = refl
same_kind false false h = refl
same_kind true false h = cc h
same_kind false true h = cc h

cut-mount_filename :
    (is_secret : Bool) (name key : String)
    → cut (mount_filename is_secret name key)
      ≡ (if is_secret then "secret" else "cm", String.◌++◌ name (String.◌++◌ "_" key))
unfolding mount_filename
cut-mount_filename true name key =
    ap cut (
      TextLemmas.append_assoc "secret" "_"
        (String.◌++◌ name (String.◌++◌ "_" (String.◌++◌ key ""))))
    ∙ cut-append "secret" (String.◌++◌ name (String.◌++◌ "_" (String.◌++◌ key ""))) refl
    ∙ ap (λ k. ("secret", String.◌++◌ name (String.◌++◌ "_" k))) (append-nil key)
cut-mount_filename false name key =
    ap cut
      (TextLemmas.append_assoc "cm" "_" (String.◌++◌ name (String.◌++◌ "_" (String.◌++◌ key ""))))
    ∙ cut-append "cm" (String.◌++◌ name (String.◌++◌ "_" (String.◌++◌ key ""))) refl
    ∙ ap (λ k. ("cm", String.◌++◌ name (String.◌++◌ "_" k))) (append-nil key)

-- Where two mounted keys get the same file name, they are the same key of the same resource, as long
-- as the names of the resources have no underscore, which the names of Kubernetes objects have not.
pub mount_filename_inj :
    (is_secret is_secret' : Bool) (name name' key key' : String)
    → has_underscore name ≡ false
    → has_underscore name' ≡ false
    → mount_filename is_secret name key ≡ mount_filename is_secret' name' key'
    → (is_secret ≡ is_secret') × (name ≡ name') × (key ≡ key')
mount_filename_inj is_secret is_secret' name name' key key' h h' e =
    let parts : (if is_secret then "secret" else "cm", String.◌++◌ name (String.◌++◌ "_" key))
        ≡ (if is_secret' then "secret" else "cm", String.◌++◌ name' (String.◌++◌ "_" key')) =
      sym (cut-mount_filename is_secret name key)
      ∙ ap cut e
      ∙ cut-mount_filename is_secret' name' key' in
    let rest : (name, key) ≡ (name', key') =
      sym (cut-append name key h) ∙ ap (λ p. cut p.1) parts ∙ cut-append name' key' h' in
    (same_kind is_secret is_secret' (ap (λ p. p.0) parts), ap (λ p. p.0) rest, ap (λ p. p.1) rest)
