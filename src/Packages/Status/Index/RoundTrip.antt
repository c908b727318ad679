-- ===== src/Packages/Status/Index/RoundTrip.antt =====
-- The index that is read from the name of a package's init container is the index that named it.
use curity_operator.Prelude.{
  ℕ, zero, suc, ◌+◌, ◌/◌, ◌<◌, String, ◌≡◌, refl, sym, ap, ◌∙◌, inl, inr, true, false, ◌||◌, none,
  some, arith, ◌==◌, starts_with, eq_iff, ltb, if◌then◌else◌, Bool-cases, format_nat, digit, digits,
  scan_digits, scan_digits-format_nat,
}
use Prim.Native.String
use Prim.Native.String.{len, slice}
use text.Mathlib.TextLemmas.{append-nil, cons-append}
use text.Mathlib.TextPositions.{starts_with-append, slice-append_middle, len-append}
use text.Mathlib.TextEquality.{starts_with_iff}
use curity_operator.Prelude.Int.{pos}
use curity_operator.Packages.{package_init_container_name}
use curity_operator.Packages.Status.Classify.{package_fetch_prefix}
use curity_operator.Packages.Status.Index.{
  starts_with_digit, trim_prefix, scan_positive, scan_int, parse_package_fetch_index,
}

digit_first-append :
    (s t : String) → starts_with_digit s ≡ true → starts_with_digit (String.◌++◌ s t) ≡ true
digit_first-append String.[] t h = cc
digit_first-append (String.◌∷◌ c s) t h = rw (cons-append c s t) h

digit_first-digit : (d : ℕ) → d < 10 → starts_with_digit (digit d) ≡ true
unfolding digit
digit_first-digit zero h = refl
digit_first-digit (suc zero) h = refl
digit_first-digit (suc (suc zero)) h = refl
digit_first-digit (suc (suc (suc zero))) h = refl
digit_first-digit (suc (suc (suc (suc zero)))) h = refl
digit_first-digit (suc (suc (suc (suc (suc zero))))) h = refl
digit_first-digit (suc (suc (suc (suc (suc (suc zero)))))) h = refl
digit_first-digit (suc (suc (suc (suc (suc (suc (suc zero))))))) h = refl
digit_first-digit (suc (suc (suc (suc (suc (suc (suc (suc zero)))))))) h = refl
digit_first-digit (suc (suc (suc (suc (suc (suc (suc (suc (suc zero))))))))) h = refl
digit_first-digit (suc (suc (suc (suc (suc (suc (suc (suc (suc (suc d)))))))))) h =
    absurd (omega arith)

digit_first-digits : (f n : ℕ) → n < f → starts_with_digit (digits f n) ≡ true
unfolding digits
digit_first-digits zero n h = absurd (omega arith)
digit_first-digits (suc f) n h = elim (Bool-cases (ltb n 10)) [
  | inl e ↦ rw e (digit_first-digit n (ground arith))
  | inr e ↦
      rw e (digit_first-append (digits f (n / 10)) _ (digit_first-digits f (n / 10) (ground arith)))
]

digit_first-format_nat : (n : ℕ) → starts_with_digit (format_nat n) ≡ true
unfolding format_nat
digit_first-format_nat n = digit_first-digits (suc n) n (omega arith)

suffix-name :
    (s : String) → trim_prefix (String.◌++◌ package_fetch_prefix s) package_fetch_prefix ≡ s
suffix-name s = rw (starts_with-append package_fetch_prefix s) (
    ap (λ n. slice (String.◌++◌ package_fetch_prefix s) 14 n) (len-append package_fetch_prefix s)
    ∙ ap (λ u. slice (String.◌++◌ package_fetch_prefix u) 14 (14 + len s)) (sym (append-nil s))
    ∙ slice-append_middle package_fetch_prefix s "")

minus_first : (u : String) → starts_with_digit (String.◌++◌ "-" u) ≡ false
minus_first u = rw (cons-append) refl

not_minus : (s : String) → starts_with_digit s ≡ true → starts_with s "-" ≡ false
not_minus s h = elim (Bool-cases (starts_with s "-")) [
  | inr e ↦ e
  | inl e ↦
      let (u, same) = (starts_with_iff s "-").0 e in
      absurd (cc (h, ap starts_with_digit same, minus_first u))
]

not_whole : (s : String) → (s == String.◌++◌ package_fetch_prefix s) ≡ false
not_whole s = elim (Bool-cases (s == String.◌++◌ package_fetch_prefix s)) [
  | inr e ↦ e
  | inl e ↦
      let same : len s ≡ len (String.◌++◌ package_fetch_prefix s) =
        ap len ((eq_iff s (String.◌++◌ package_fetch_prefix s)).0 e) in
      absurd (omega (arith, same, len-append package_fetch_prefix s))
]

not_empty : (s : String) → starts_with_digit s ≡ true → (s == "") ≡ false
not_empty s h = elim (Bool-cases (s == "")) [
  | inr e ↦ e
  | inl e ↦ absurd (cc (h, ap starts_with_digit ((eq_iff s "").0 e)))
]

scan_digits-whole : (n : ℕ) → scan_digits 0 (format_nat n) ≡ n
unfolding scan_digits
scan_digits-whole n =
    ap (scan_digits 0) (sym (append-nil (format_nat n))) ∙ scan_digits-format_nat n ""

scan_int-format_nat : (n : ℕ) → n < 9223372036854775808 → scan_int (format_nat n) ≡ some (pos n)
unfolding scan_int scan_positive
scan_int-format_nat n h =
    let first = digit_first-format_nat n in
    rw (not_minus (format_nat n) first, first, scan_digits-whole n) (ground arith)

-- The index in the name of a package's init container is read back from it, as long as it is a value
-- of Go's int.
pub parse_package_fetch_index-package_init_container_name :
    (idx : ℕ)
    → idx < 9223372036854775808
    → parse_package_fetch_index (package_init_container_name idx) ≡ some (pos idx)
unfolding parse_package_fetch_index package_init_container_name
parse_package_fetch_index-package_init_container_name idx h =
    let s = format_nat idx in
    let name = String.◌++◌ package_fetch_prefix s in
    let first = digit_first-format_nat idx in
    ap (λ suffix. if suffix == name || suffix == "" then none else scan_int suffix) (suffix-name s)
    ∙ rw (not_whole s, not_empty s first) (scan_int-format_nat idx h)
