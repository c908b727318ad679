-- ===== src/Prelude/TextOrder.antt =====
-- Go's `<` on strings, which compares bytes: a strict order in which two different texts never tie.
use Prim.Native.Char.{Char, code}
use Prim.Native.String.{String, [], ◌∷◌, compare}
use Prim.Native.String.compare as clauses
use text.Mathlib.TextEquality.{Char-path}
use mathlib.Core.Path.{◌≡◌, refl}
use mathlib.Core.Bool.{Bool, true, false}
use mathlib.Core.Logic.{◌⊎◌, inl, inr, ◌≢◌}
use curity_operator.Prelude.Tests.{ltb, nat_eq, Bool-cases, if◌then◌else◌}
use native.Mathlib.Omega.{arith}
use text.Mathlib.Text.{is_lt}
use curity_operator.Prelude.Sort.{IsStrictOrder, Apart}

-- `s < t`
abbrev pub str_ltb : String → String → Bool
str_ltb s t = is_lt (compare s t)

str_ltb-cons :
    (c d : Char) (s t : String)
    → str_ltb (c ∷ s) (d ∷ t) ≡ (
        if ltb (code c) (code d)
        then true
        else if nat_eq (code c) (code d)
        then str_ltb s t
        else false)
str_ltb-cons c d s t = ground (arith, clauses.cons-cons c d s t)

str_ltb-nil : (s : String) → str_ltb s [] ≡ false
str_ltb-nil [] = refl
str_ltb-nil (c ∷ s) = rw (clauses.cons-nil c s)

str_ltb_asym : (s t : String) → str_ltb s t ≡ true → str_ltb t s ≡ false
str_ltb_asym [] t h = str_ltb-nil t
str_ltb_asym (c ∷ s) [] h = cc (h, str_ltb-nil (c ∷ s))
str_ltb_asym (c ∷ s) (d ∷ t) h =
    ground (arith, str_ltb-cons c d s t, str_ltb-cons d c t s, str_ltb_asym s t)

str_ltb_trans : (s t u : String) → str_ltb s t ≡ true → str_ltb t u ≡ true → str_ltb s u ≡ true
str_ltb_trans s t [] h k = cc (k, str_ltb-nil t)
str_ltb_trans s [] (e ∷ u) h k = cc (h, str_ltb-nil s)
str_ltb_trans [] (d ∷ t) (e ∷ u) h k = rw (clauses.nil-cons e u)
str_ltb_trans (c ∷ s) (d ∷ t) (e ∷ u) h k =
    ground
      (arith, str_ltb-cons c d s t, str_ltb-cons d e t u, str_ltb-cons c e s u, str_ltb_trans s t u)

str_ltb_antisym : (s t : String) → str_ltb s t ≡ false → str_ltb t s ≡ false → s ≡ t
str_ltb_antisym [] [] h k = refl
str_ltb_antisym [] (d ∷ t) h k = cc (h, clauses.nil-cons d t)
str_ltb_antisym (c ∷ s) [] h k = cc (k, clauses.nil-cons c s)
str_ltb_antisym (c ∷ s) (d ∷ t) h k =
    let parts : (code c ≡ code d) × (str_ltb s t ≡ false) × (str_ltb t s ≡ false) =
      ground (arith, str_ltb-cons c d s t, str_ltb-cons d c t s) in
    cc (Char-path c d parts.0, str_ltb_antisym s t parts.1 parts.2)

-- Two different texts do not tie.
pub str_ltb_total : (s t : String) → s ≢ t → Apart str_ltb s t
str_ltb_total s t h = elim (Bool-cases (str_ltb s t)) [
  | inl before ↦ inl before
  | inr later ↦ elim (Bool-cases (str_ltb t s)) [
    | inl before ↦ inr before
    | inr same ↦ absurd (h (str_ltb_antisym s t later same))
  ]
]

str_ltb_cotrans :
    (s t u : String) → str_ltb s u ≡ true → (str_ltb s t ≡ true) ⊎ (str_ltb t u ≡ true)
str_ltb_cotrans s t u h = elim (Bool-cases (str_ltb s t)) [
  | inl before ↦ inl before
  | inr later ↦ elim (Bool-cases (str_ltb t s)) [
    | inl before ↦ inr (str_ltb_trans t s u before h)
    | inr same ↦ inr (rw (str_ltb_antisym s t later same) at h)
  ]
]

pub str_ltb_irrefl : (s : String) → str_ltb s s ≡ false
str_ltb_irrefl s = elim (Bool-cases (str_ltb s s)) [
  | inl before ↦ str_ltb_asym s s before
  | inr same ↦ same
]

-- An order of elements by a text that each has.
module _ {ℓ} {A : Type ℓ} (key : A → String) where
  abbrev pub less_by : A → A → Bool
  less_by a b = str_ltb (key a) (key b)

  pub less_by-IsStrictOrder : IsStrictOrder less_by
  less_by-IsStrictOrder = record {
    asym = λ a b. str_ltb_asym (key a) (key b);
    trans = λ a b c. str_ltb_trans (key a) (key b) (key c);
    cotrans = λ a b c. str_ltb_cotrans (key a) (key b) (key c);
  }
