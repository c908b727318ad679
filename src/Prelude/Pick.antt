-- ===== src/Prelude/Pick.antt =====
-- A loop that keeps a winner: it is the same in whatever order the elements come, where none tie.
use mathlib.Core.Path.{sym, ◌≡◌, refl, ap, subst, ◌∙◌}
use mathlib.Core.Bool.{Bool, false}
use mathlib.Core.Logic.{◌⊎◌, inl, inr}
use mathlib.Core.List.{List, [], ◌∷◌, Permᴰ, Memᴰ}
use native.Mathlib.Omega.{arith}
use curity_operator.Prelude.Tests.{if◌then◌else◌, Bool-cases}
use curity_operator.Prelude.Lists.{All}
use curity_operator.Prelude.Sort.{Apart, Distinct, IsStrictOrder}
use curity_operator.Prelude.Permute.{perm_symm, Memᴰ-perm, All-Memᴰ}

module _ {ℓ} {A : Type ℓ} (beats : A → A → Bool) where
  abbrev pub winner_from : A → List A → A
  winner_from w [] = w
  winner_from w (x ∷ l) = winner_from (if beats x w then x else w) l

  -- In the list, and beaten by none.
  abbrev pub Wins : A → List A → Type ℓ
  Wins r l = Memᴰ r l × All (λ x. beats x r ≡ false) l

  module _ (order : IsStrictOrder beats) where
    irreflexive : (a : A) → beats a a ≡ false
    irreflexive a = elim (Bool-cases (beats a a)) [ inl e ↦ order.asym a a e | inr e ↦ e ]

    not_beaten : (x v w : A) → beats x v ≡ false → beats v w ≡ false → beats x w ≡ false
    not_beaten x v w e le = elim (Bool-cases (beats x w)) [
      | inr b ↦ b
      | inl b ↦ elim (order.cotrans x v w b) [
        | inl c ↦ absurd (ground (arith, c, e))
        | inr c ↦ absurd (ground (arith, c, le))
      ]
    ]

    -- The winner after `v` and the list.
    abbrev Unbeaten : A → A → List A → Type ℓ
    Unbeaten r v l = ((r ≡ v) ⊎ Memᴰ r l) × (beats v r ≡ false) × All (λ x. beats x r ≡ false) l

    unbeaten : (v : A) (l : List A) → Unbeaten (winner_from v l) v l
    unbeaten v [] = (inl refl, irreflexive v, tt)
    unbeaten v (x ∷ l) = elim (Bool-cases (beats x v)) [
      | inl e ↦
          let (mem, le, rest) = unbeaten x l in
          subst (λ r. Unbeaten r v (x ∷ l)) (ap (λ b. winner_from (if b then x else v) l) (sym e))
            (
              inr (elim mem [ inl e' ↦ Memᴰ.head e' | inr m ↦ Memᴰ.tail m ]),
              ground (arith, order.trans x v (winner_from x l) e, le),
              (le, rest),
            )
      | inr e ↦
          let (mem, le, rest) = unbeaten v l in
          subst (λ r. Unbeaten r v (x ∷ l)) (ap (λ b. winner_from (if b then x else v) l) (sym e))
            (
              elim mem [ inl e' ↦ inl e' | inr m ↦ inr (Memᴰ.tail m) ],
              le,
              (not_beaten x v (winner_from v l) e le, rest),
            )
    ]

    winner_from-Wins : (v : A) (l : List A) → Wins (winner_from v l) (v ∷ l)
    winner_from-Wins v l =
        let (mem, le, rest) = unbeaten v l in
        (elim mem [ inl e ↦ Memᴰ.head e | inr m ↦ Memᴰ.tail m ], (le, rest))

    same_or_Apart :
        (x y : A) (l : List A) → Distinct beats l → Memᴰ x l → Memᴰ y l → (x ≡ y) ⊎ Apart beats x y
    same_or_Apart x y [] d h k = elim h [ ]
    same_or_Apart x y (z ∷ l) d (Memᴰ.head e) (Memᴰ.head e') = inl (e ∙ sym e')
    same_or_Apart x y (z ∷ l) d (Memᴰ.head e) (Memᴰ.tail k) =
        inr (rw e (All-Memᴰ (Apart beats z) l d.0 k))
    same_or_Apart x y (z ∷ l) d (Memᴰ.tail h) (Memᴰ.head e') =
        inr (rw e' (elim (All-Memᴰ (Apart beats z) l d.0 h) [ inl b ↦ inr b | inr b ↦ inl b ]))
    same_or_Apart x y (z ∷ l) d (Memᴰ.tail h) (Memᴰ.tail k) = same_or_Apart x y l d.1 h k

    Wins-unique :
        (r r' : A) {l l' : List A} → Permᴰ l l' → Distinct beats l → Wins r l → Wins r' l' → r ≡ r'
    Wins-unique r r' {l} {l'} same d (mem, best) (mem', best') =
        let mem'' = Memᴰ-perm (perm_symm same) mem' in
        elim (same_or_Apart r r' l d mem mem'') [
          | inl e ↦ e
          | inr (inl b) ↦
              absurd (
                ground (arith, b, All-Memᴰ (λ x. beats x r' ≡ false) l' best' (Memᴰ-perm same mem)))
          | inr (inr b) ↦ absurd (ground (arith, b, All-Memᴰ (λ x. beats x r ≡ false) l best mem''))
        ]

    -- The winner is the same for a list in another order.
    pub winner_from_of_perm :
        (v v' : A) (l l' : List A)
        → Permᴰ (v ∷ l) (v' ∷ l')
        → Distinct beats (v ∷ l)
        → winner_from v l ≡ winner_from v' l'
    winner_from_of_perm v v' l l' same d =
        Wins-unique (winner_from v l) (winner_from v' l') same d (winner_from-Wins v l)
          (winner_from-Wins v' l')
