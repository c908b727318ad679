-- ===== src/Prelude/Members.antt =====
-- Where the elements of a list that a loop builds come from.
use mathlib.Core.Path.{sym, ◌≡◌, refl, ap, ◌∙◌}
use mathlib.Core.Bool.{Bool, true}
use mathlib.Core.Logic.{◌⊎◌, inl, inr}
use mathlib.Core.List.{List, [], ◌∷◌, ◌++◌, map, Memᴰ}
use native.Mathlib.Omega.{arith}
use curity_operator.Prelude.Tests.{Bool-cases}
use curity_operator.Prelude.Lists.{all, select}

module _ {ℓ} {A : Type ℓ} where
  pub Memᴰ-append_left : {a : A} (xs ys : List A) → Memᴰ a xs → Memᴰ a (xs ++ ys)
  Memᴰ-append_left [] ys h = elim h [ ]
  Memᴰ-append_left (x ∷ xs) ys (Memᴰ.head e) = Memᴰ.head e
  Memᴰ-append_left (x ∷ xs) ys (Memᴰ.tail h) = Memᴰ.tail (Memᴰ-append_left xs ys h)

  pub Memᴰ-append_right : {a : A} (xs ys : List A) → Memᴰ a ys → Memᴰ a (xs ++ ys)
  Memᴰ-append_right [] ys h = h
  Memᴰ-append_right (x ∷ xs) ys h = Memᴰ.tail (Memᴰ-append_right xs ys h)

  pub append_inv : {a : A} (xs ys : List A) → Memᴰ a (xs ++ ys) → Memᴰ a xs ⊎ Memᴰ a ys
  append_inv [] ys h = inr h
  append_inv (x ∷ xs) ys (Memᴰ.head e) = inl (Memᴰ.head e)
  append_inv (x ∷ xs) ys (Memᴰ.tail h) = elim (append_inv xs ys h) [
    | inl k ↦ inl (Memᴰ.tail k)
    | inr k ↦ inr k
  ]

  -- An element that passes is selected.
  pub Memᴰ-select :
      {a : A} (p : A → Bool) (l : List A) → p a ≡ true → Memᴰ a l → Memᴰ a (select p l)
  Memᴰ-select p [] e h = elim h [ ]
  Memᴰ-select p (x ∷ l) e (Memᴰ.head k) = rw (sym (ap p k) ∙ e) (Memᴰ.head k)
  Memᴰ-select p (x ∷ l) e (Memᴰ.tail h) = elim (Bool-cases (p x)) [
    | inl f ↦ rw f (Memᴰ.tail (Memᴰ-select p l e h))
    | inr f ↦ rw f (Memᴰ-select p l e h)
  ]

  -- What holds of all holds of each.
  pub all-Memᴰ : {a : A} (p : A → Bool) (l : List A) → all p l ≡ true → Memᴰ a l → p a ≡ true
  all-Memᴰ p [] e h = elim h [ ]
  all-Memᴰ p (x ∷ l) e (Memᴰ.head k) = ap p k ∙ ground (arith, e)
  all-Memᴰ p (x ∷ l) e (Memᴰ.tail h) = all-Memᴰ p l (ground (arith, e)) h

module _ {ℓ κ} {A : Type ℓ} {B : Type κ} (f : A → B) where
  pub Memᴰ-map : {a : A} (l : List A) → Memᴰ a l → Memᴰ (f a) (map f l)
  Memᴰ-map [] h = elim h [ ]
  Memᴰ-map (x ∷ l) (Memᴰ.head e) = Memᴰ.head (ap f e)
  Memᴰ-map (x ∷ l) (Memᴰ.tail h) = Memᴰ.tail (Memᴰ-map l h)

  pub map_inv : {b : B} (l : List A) → Memᴰ b (map f l) → (a : A) × Memᴰ a l × (b ≡ f a)
  map_inv [] h = elim h [ ]
  map_inv (x ∷ l) (Memᴰ.head e) = (x, Memᴰ.head refl, e)
  map_inv (x ∷ l) (Memᴰ.tail h) = let (a, mem, e) = map_inv l h in (a, Memᴰ.tail mem, e)
