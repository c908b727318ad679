-- ===== src/Prelude/Sort.antt =====
-- `sort.Slice` and `sort.Strings`. They are modelled as insertion sort, which is what Go runs on
-- short slices; where no two elements tie, the result is the only sorted one.
use mathlib.Core.Path.{◌≡◌}
use mathlib.Core.Bool.{Bool, true, false}
use mathlib.Core.Logic.{◌⊎◌}
use mathlib.Core.List.{List, [], ◌∷◌}
use curity_operator.Prelude.Tests.{if◌then◌else◌}
use curity_operator.Prelude.Lists.{All}

-- What a comparison function has to satisfy for the sorted order to be determined.
pub record IsStrictOrder {ℓ} {A : Type ℓ} (less : A → A → Bool) : Type ℓ where
  pub asym : (a b : A) → less a b ≡ true → less b a ≡ false
  pub trans : (a b c : A) → less a b ≡ true → less b c ≡ true → less a c ≡ true
  pub cotrans : (a b c : A) → less a c ≡ true → (less a b ≡ true) ⊎ (less b c ≡ true)

-- One of the two stands before the other.
abbrev pub Apart {ℓ} : {A : Type ℓ} (less : A → A → Bool) → A → A → Type 0
Apart less a b = (less a b ≡ true) ⊎ (less b a ≡ true)

-- No two elements tie.
abbrev pub Distinct {ℓ} : {A : Type ℓ} (less : A → A → Bool) → List A → Type 0
Distinct less [] = Unit
Distinct less (x ∷ xs) = All (Apart less x) xs × Distinct less xs

module _ {ℓ} {A : Type ℓ} (less : A → A → Bool) where
  -- Before the first element that is not smaller, so that ties keep their order.
  unfoldable pub insert_by : A → List A → List A
  insert_by x [] = x ∷ []
  insert_by x (y ∷ ys) = let later = y ∷ insert_by x ys in if less y x then later else x ∷ y ∷ ys

  unfoldable pub sort_by : List A → List A
  unfolding insert_by
  sort_by [] = []
  sort_by (x ∷ xs) = insert_by x (sort_by xs)
