-- ===== src/Prelude/Decimal.antt =====
-- Reading a decimal number back (`%d` of fmt.Sscanf): `format_nat` is injective, and what follows a
-- number is kept apart from it.
use Prim.Native.Nat.{ℕ, zero, suc, ◌+◌, ◌-◌, ◌*◌, ◌/◌, ◌%◌, ◌<◌}
use Prim.Native.Char.{code}
use Prim.Native.String.{String, [], ◌∷◌, ◌++◌}
use mathlib.Core.Path.{◌≡◌, refl, ap, ◌∙◌, sym}
use mathlib.Core.Bool.{Bool, ◌&&◌}
use mathlib.Core.Logic.{inl, inr}
use native.Mathlib.Omega.{arith}
use text.Mathlib.TextLemmas.{append_assoc, cons-append, nil-append}
use curity_operator.Prelude.Tests.{ltb, leb, if◌then◌else◌, Bool-cases}
use curity_operator.Prelude.Text.{digit, digits, format_nat}

abbrev pub is_digit : ℕ → Bool
is_digit c = leb b'0' c && leb c b'9'

-- The value of the digits at the front, behind the value of those already read.
unfoldable pub scan_digits : ℕ → String → ℕ
scan_digits acc [] = acc
scan_digits acc (c ∷ s) =
    if is_digit (code c) then scan_digits (acc * 10 + (code c - b'0')) s else acc

scan_digits-digit :
    (acc d : ℕ) (t : String)
    → d < 10
    → scan_digits acc (digit d ++ t) ≡ scan_digits (acc * 10 + d) t
unfolding digit scan_digits
scan_digits-digit acc zero t h = rw (cons-append, nil-append) refl
scan_digits-digit acc (suc zero) t h = rw (cons-append, nil-append) refl
scan_digits-digit acc (suc (suc zero)) t h = rw (cons-append, nil-append) refl
scan_digits-digit acc (suc (suc (suc zero))) t h = rw (cons-append, nil-append) refl
scan_digits-digit acc (suc (suc (suc (suc zero)))) t h = rw (cons-append, nil-append) refl
scan_digits-digit acc (suc (suc (suc (suc (suc zero))))) t h = rw (cons-append, nil-append) refl
scan_digits-digit acc (suc (suc (suc (suc (suc (suc zero)))))) t h =
    rw (cons-append, nil-append) refl
scan_digits-digit acc (suc (suc (suc (suc (suc (suc (suc zero))))))) t h =
    rw (cons-append, nil-append) refl
scan_digits-digit acc (suc (suc (suc (suc (suc (suc (suc (suc zero)))))))) t h =
    rw (cons-append, nil-append) refl
scan_digits-digit acc (suc (suc (suc (suc (suc (suc (suc (suc (suc zero))))))))) t h =
    rw (cons-append, nil-append) refl
scan_digits-digit acc (suc (suc (suc (suc (suc (suc (suc (suc (suc (suc d)))))))))) t h =
    absurd (omega arith)

scan_digits-digits :
    (f n : ℕ) (t : String) → n < f → scan_digits 0 (digits f n ++ t) ≡ scan_digits n t
unfolding digits
scan_digits-digits zero n t h = absurd (omega arith)
scan_digits-digits (suc f) n t h = elim (Bool-cases (ltb n 10)) [
  | inl e ↦ rw e (scan_digits-digit 0 n t (ground arith) ∙ ap (λ k. scan_digits k t) (omega arith))
  | inr e ↦
      rw (e, append_assoc)
        (scan_digits-digits f (n / 10) (digit (n % 10) ++ t) (ground arith)
          ∙ scan_digits-digit (n / 10) (n % 10) t (omega arith)
          ∙ ap (λ k. scan_digits k t) (omega arith))
]

-- Reading a formatted number gives the number, and reading goes on behind it.
pub scan_digits-format_nat :
    (n : ℕ) (t : String) → scan_digits 0 (format_nat n ++ t) ≡ scan_digits n t
unfolding format_nat
scan_digits-format_nat n t = scan_digits-digits (suc n) n t (omega arith)

pub format_nat_inj : (n k : ℕ) → format_nat n ≡ format_nat k → n ≡ k
unfolding scan_digits
format_nat_inj n k e =
    sym (scan_digits-format_nat n [])
    ∙ ap (λ s. scan_digits 0 (s ++ [])) e
    ∙ scan_digits-format_nat k []
