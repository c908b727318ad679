-- ===== src/Prelude/SortLaws.antt =====
-- The laws of `insert_by` and `sort_by` (sort.Slice): the sorted list has the elements of the given
-- one, is in order, and does not depend on the order in which they were given.
use mathlib.Core.Path.{◌≡◌, refl, sym, ◌∙◌, subst}
use mathlib.Core.Bool.{Bool, true, false}
use mathlib.Core.Logic.{inl, inr}
use mathlib.Core.List.{List, [], ◌∷◌, Permᴰ}
use mathlib.Core.List.Permᴰ
use native.Mathlib.Omega.{arith}
use curity_operator.Prelude.Tests.{Bool-cases}
use curity_operator.Prelude.Lists.{All, length}
use curity_operator.Prelude.Sort.{IsStrictOrder, Apart, Distinct, insert_by, sort_by}

-- Every element stands before none of the earlier ones.
abbrev pub IsSorted {ℓ} : {A : Type ℓ} (less : A → A → Bool) → List A → Type ℓ
IsSorted less [] = Unit
IsSorted less (x ∷ xs) = All (λ y. less y x ≡ false) xs × IsSorted less xs

module _ {ℓ κ} {A : Type ℓ} (P : A → Type κ) (less : A → A → Bool) where
  pub All-insert_by : (x : A) (l : List A) → P x → All P l → All P (insert_by less x l)
  unfolding insert_by
  All-insert_by x [] px h = (px, h)
  All-insert_by x (y ∷ l) px h = elim (Bool-cases (less y x)) [
    | inl before ↦ rw before (h.0, All-insert_by x l px h.1)
    | inr after ↦ rw after (px, h)
  ]

  pub All-sort_by : (l : List A) → All P l → All P (sort_by less l)
  unfolding sort_by
  All-sort_by [] h = h
  All-sort_by (x ∷ l) h = All-insert_by x (sort_by less l) h.0 (All-sort_by l h.1)

module _ {ℓ κ} {A : Type ℓ} (P : A → Type κ) where
  pub All-perm : {l l' : List A} → Permᴰ l l' → All P l → All P l'
  All-perm Permᴰ.nil h = h
  All-perm (Permᴰ.cons e d) h = (rw e at h.0, All-perm d h.1)
  All-perm (Permᴰ.swap e e') h = (rw e' at h.1.0, (rw e at h.0, h.1.1))
  All-perm (Permᴰ.trans d d') h = All-perm d' (All-perm d h)

  pub All-imp {μ} : {Q : A → Type μ} → ((a : A) → P a → Q a) → (l : List A) → All P l → All Q l
  All-imp f [] h = tt
  All-imp f (x ∷ l) h = (f x h.0, All-imp f l h.1)

module _ {ℓ} {A : Type ℓ} (less : A → A → Bool) where
  pub length-insert_by : (x : A) (l : List A) → length (insert_by less x l) ≡ length (x ∷ l)
  unfolding insert_by
  length-insert_by x [] = refl
  length-insert_by x (y ∷ l) = ground (arith, length-insert_by x l)

  pub length-sort_by : (l : List A) → length (sort_by less l) ≡ length l
  unfolding sort_by
  length-sort_by [] = refl
  length-sort_by (x ∷ l) = omega (arith, length-insert_by x (sort_by less l), length-sort_by l)

  insert_by-perm : (x : A) (l : List A) → Permᴰ (insert_by less x l) (x ∷ l)
  unfolding insert_by
  insert_by-perm x [] = Permᴰ.refl (x ∷ [])
  insert_by-perm x (y ∷ l) = elim (Bool-cases (less y x)) [
    | inl before ↦
        rw before (Permᴰ.trans (Permᴰ.cons refl (insert_by-perm x l)) (Permᴰ.swap refl refl))
    | inr after ↦ rw after (Permᴰ.refl (x ∷ y ∷ l))
  ]

  -- The sorted list has the elements of the given one.
  pub sort_by-perm : (l : List A) → Permᴰ (sort_by less l) l
  unfolding sort_by
  sort_by-perm [] = Permᴰ.nil
  sort_by-perm (x ∷ l) =
      Permᴰ.trans (insert_by-perm x (sort_by less l)) (Permᴰ.cons refl (sort_by-perm l))

  Apart-comm : {x y : A} → Apart less x y → Apart less y x
  Apart-comm (inl h) = inr h
  Apart-comm (inr h) = inl h

  Apart-from : (l : List A) {x y : A} → x ≡ y → All (Apart less x) l → All (Apart less y) l
  Apart-from l e h = subst (λ z. All (Apart less z) l) e h

  pub Distinct-perm : {l l' : List A} → Permᴰ l l' → Distinct less l → Distinct less l'
  Distinct-perm Permᴰ.nil h = h
  Distinct-perm (Permᴰ.cons {l₂ = l} e d) h =
      (Apart-from l e (All-perm (Apart less _) d h.0), Distinct-perm d h.1)
  Distinct-perm (Permᴰ.swap {l = l} e e') h =
      ((rw (e, e') at (Apart-comm h.0.0), Apart-from l e' h.1.0), (Apart-from l e h.0.1, h.1.1))
  Distinct-perm (Permᴰ.trans d d') h = Distinct-perm d' (Distinct-perm d h)

module _ {ℓ} {A : Type ℓ} (less : A → A → Bool) (o : IsStrictOrder less) where
  insert_comm_lt :
      (x y : A) (l : List A)
      → less x y ≡ true
      → insert_by less x (insert_by less y l) ≡ insert_by less y (insert_by less x l)
  unfolding insert_by
  insert_comm_lt x y [] h = ground (arith, o.asym x y h)
  insert_comm_lt x y (z ∷ l) h =
      ground (arith, o.asym x y h, o.asym z x, o.trans z x y, o.trans x y z, insert_comm_lt x y l h)

  -- Two elements that do not tie can be inserted in either order.
  insert_comm :
      (x y : A) (l : List A)
      → Apart less x y
      → insert_by less x (insert_by less y l) ≡ insert_by less y (insert_by less x l)
  insert_comm x y l (inl h) = insert_comm_lt x y l h
  insert_comm x y l (inr h) = sym (insert_comm_lt y x l h)

  -- Where no two elements tie, the sorted list does not depend on the order of the given one.
  pub sort_by_of_perm :
      {l l' : List A} → Permᴰ l l' → Distinct less l → sort_by less l ≡ sort_by less l'
  unfolding sort_by
  sort_by_of_perm Permᴰ.nil h = refl
  sort_by_of_perm (Permᴰ.cons e d) h = cc (e, sort_by_of_perm d h.1)
  sort_by_of_perm (Permᴰ.swap {l = rest} e e') h =
      insert_comm _ _ (sort_by less rest) h.0.0 ∙ cc (e, e')
  sort_by_of_perm (Permᴰ.trans d d') h =
      sort_by_of_perm d h ∙ sort_by_of_perm d' (Distinct-perm less d h)

  insert_by-IsSorted : (x : A) (l : List A) → IsSorted less l → IsSorted less (insert_by less x l)
  unfolding insert_by
  insert_by-IsSorted x [] h = (tt, tt)
  insert_by-IsSorted x (y ∷ l) h = elim (Bool-cases (less y x)) [
    | inl before ↦ rw before (
      All-insert_by (λ z. less z y ≡ false) less x l (o.asym y x before) h.0,
      insert_by-IsSorted x l h.1,
    )
    | inr after ↦ rw after (
      (after, All-imp (λ z. less z y ≡ false) (λ z late. ground (arith, o.cotrans z y x)) l h.0),
      h,
    )
  ]

  -- The sorted list is in order.
  pub sort_by-IsSorted : (l : List A) → IsSorted less (sort_by less l)
  unfolding sort_by
  sort_by-IsSorted [] = tt
  sort_by-IsSorted (x ∷ l) = insert_by-IsSorted x (sort_by less l) (sort_by-IsSorted l)
