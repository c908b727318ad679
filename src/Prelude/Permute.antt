-- ===== src/Prelude/Permute.antt =====
-- What does not depend on the order of a list: lengths, searches, counts, and the lists that a loop
-- collects. Lists whose elements have different names.
use Prim.Native.Nat.{ℕ, suc}
use Prim.Native.String.{String}
use mathlib.Core.Path.{sym, ◌≡◌, refl, ap, ◌∙◌, subst}
use mathlib.Core.Bool.{Bool, false}
use mathlib.Core.Logic.{◌≢◌, ◌⊎◌, inl, inr}
use mathlib.Core.Option.{Option, none, some}
use mathlib.Core.List.{List, [], ◌∷◌, Permᴰ, Memᴰ}
use mathlib.Core.List.Permᴰ
use native.Mathlib.Omega.{arith}
use curity_operator.Prelude.Tests.{if◌then◌else◌, Option-cases}
use curity_operator.Prelude.Lists.{All, any, all, length, is_empty, push, collect}
use curity_operator.Prelude.Sort.{Distinct, sort_by}
use curity_operator.Prelude.SortLaws.{All-imp, All-perm, IsSorted, sort_by-perm, sort_by-IsSorted}
use curity_operator.Prelude.TextOrder.{
  str_ltb, str_ltb_irrefl, str_ltb_total, less_by, less_by-IsStrictOrder,
}

-- The elements have different keys.
abbrev pub DistinctBy {ℓ} : {A : Type ℓ} (key : A → String) → List A → Type 0
DistinctBy key [] = Unit
DistinctBy key (x ∷ xs) = All (λ y. key x ≢ key y) xs × DistinctBy key xs

-- Different keys never tie in the order of the keys.
pub Distinct-of_DistinctBy {ℓ} :
    {A : Type ℓ} (key : A → String) (l : List A) → DistinctBy key l → Distinct (less_by key) l
Distinct-of_DistinctBy key [] h = tt
Distinct-of_DistinctBy key (x ∷ l) h = (
  All-imp (λ y. key x ≢ key y) (λ y ne. str_ltb_total (key x) (key y) ne) l h.0,
  Distinct-of_DistinctBy key l h.1,
)

module _ {ℓ} {A : Type ℓ} where
  pub perm_symm : {l l' : List A} → Permᴰ l l' → Permᴰ l' l
  perm_symm Permᴰ.nil = Permᴰ.nil
  perm_symm (Permᴰ.cons e d) = Permᴰ.cons (sym e) (perm_symm d)
  perm_symm (Permᴰ.swap e e') = Permᴰ.swap (sym e') (sym e)
  perm_symm (Permᴰ.trans d d') = Permᴰ.trans (perm_symm d') (perm_symm d)

  pub length-perm : {l l' : List A} → Permᴰ l l' → length l ≡ length l'
  length-perm Permᴰ.nil = refl
  length-perm (Permᴰ.cons e d) = ap suc (length-perm d)
  length-perm (Permᴰ.swap e e') = refl
  length-perm (Permᴰ.trans d d') = length-perm d ∙ length-perm d'

  pub any-perm : (p : A → Bool) {l l' : List A} → Permᴰ l l' → any p l ≡ any p l'
  any-perm p Permᴰ.nil = refl
  any-perm p (Permᴰ.cons e d) = ground (arith, ap p e, any-perm p d)
  any-perm p (Permᴰ.swap e e') = ground (arith, ap p e, ap p e')
  any-perm p (Permᴰ.trans d d') = any-perm p d ∙ any-perm p d'

  pub all-perm : (p : A → Bool) {l l' : List A} → Permᴰ l l' → all p l ≡ all p l'
  all-perm p Permᴰ.nil = refl
  all-perm p (Permᴰ.cons e d) = ground (arith, ap p e, all-perm p d)
  all-perm p (Permᴰ.swap e e') = ground (arith, ap p e, ap p e')
  all-perm p (Permᴰ.trans d d') = all-perm p d ∙ all-perm p d'

  -- The number of elements that pass a test.
  abbrev pub count_if : (A → Bool) → List A → ℕ
  count_if p [] = 0
  count_if p (x ∷ xs) = let rest = count_if p xs in if p x then suc rest else rest

  pub count_if-perm : (p : A → Bool) {l l' : List A} → Permᴰ l l' → count_if p l ≡ count_if p l'
  count_if-perm p Permᴰ.nil = refl
  count_if-perm p (Permᴰ.cons e d) = ground (arith, ap p e, count_if-perm p d)
  count_if-perm p (Permᴰ.swap e e') = ground (arith, ap p e, ap p e')
  count_if-perm p (Permᴰ.trans d d') = count_if-perm p d ∙ count_if-perm p d'

module _ {ℓ κ} {A : Type ℓ} {B : Type κ} (f : A → Option B) where
  push-perm : (o : Option B) {l l' : List B} → Permᴰ l l' → Permᴰ (push o l) (push o l')
  push-perm none d = d
  push-perm (some b) d = Permᴰ.cons refl d

  push-swap : (o o' : Option B) (l : List B) → Permᴰ (push o (push o' l)) (push o' (push o l))
  push-swap none o' l = Permᴰ.refl (push o' l)
  push-swap (some b) none l = Permᴰ.refl (b ∷ l)
  push-swap (some b) (some b') l = Permᴰ.swap refl refl

  pub collect-perm : {l l' : List A} → Permᴰ l l' → Permᴰ (collect f l) (collect f l')
  collect-perm Permᴰ.nil = Permᴰ.nil
  collect-perm (Permᴰ.cons {a = a} {l₁ = l} {l₂ = l'} e d) =
      subst (λ z. Permᴰ (collect f (a ∷ l)) (collect f (z ∷ l'))) e
        (push-perm (f a) (collect-perm d))
  collect-perm (Permᴰ.swap {a = a} {b = b} {a' = a'} {b' = b'} {l = l} e e') =
      let same : b ∷ a ∷ l ≡ a' ∷ b' ∷ l = cc (e, e') in
      subst (λ z. Permᴰ (collect f (a ∷ b ∷ l)) (collect f z)) same
        (push-swap (f a) (f b) (collect f l))
  collect-perm (Permᴰ.trans d d') = Permᴰ.trans (collect-perm d) (collect-perm d')

  -- What is collected keeps the keys of the elements that it is made of.
  abbrev pub KeepsKey : (A → String) → (B → String) → Type (ℓ ⊔ κ)
  KeepsKey key key' = (a : A) (b : B) → f a ≡ some b → key' b ≡ key a

  pub All-collect {μ ν} :
      {P : A → Type μ} {Q : B → Type ν}
      → ((a : A) (b : B) → f a ≡ some b → P a → Q b)
      → (l : List A) → All P l
      → All Q (collect f l)
  All-collect k [] h = tt
  All-collect k (a ∷ l) h = elim (Option-cases (f a)) [
    | inl e ↦ rw e (All-collect k l h.1)
    | inr (b, e) ↦ rw e (k a b e h.0, All-collect k l h.1)
  ]

  pub DistinctBy-collect :
      (key : A → String) (key' : B → String)
      → KeepsKey key key'
      → (l : List A) → DistinctBy key l
      → DistinctBy key' (collect f l)
  DistinctBy-collect key key' keep [] h = tt
  DistinctBy-collect key key' keep (a ∷ l) h = elim (Option-cases (f a)) [
    | inl e ↦ rw e (DistinctBy-collect key key' keep l h.1)
    | inr (b, e) ↦ rw e (
      All-collect (λ a' b' e' ne. λ same. ne (cc (keep a b e, keep a' b' e', same))) l h.0,
      DistinctBy-collect key key' keep l h.1,
    )
  ]

module _ {ℓ} {A : Type ℓ} where
  pub Memᴰ-perm : {x : A} {l l' : List A} → Permᴰ l l' → Memᴰ x l → Memᴰ x l'
  Memᴰ-perm Permᴰ.nil h = h
  Memᴰ-perm (Permᴰ.cons e d) (Memᴰ.head p) = Memᴰ.head (p ∙ e)
  Memᴰ-perm (Permᴰ.cons e d) (Memᴰ.tail h) = Memᴰ.tail (Memᴰ-perm d h)
  Memᴰ-perm (Permᴰ.swap e e') (Memᴰ.head p) = Memᴰ.tail (Memᴰ.head (p ∙ e))
  Memᴰ-perm (Permᴰ.swap e e') (Memᴰ.tail (Memᴰ.head p)) = Memᴰ.head (p ∙ e')
  Memᴰ-perm (Permᴰ.swap e e') (Memᴰ.tail (Memᴰ.tail h)) = Memᴰ.tail (Memᴰ.tail h)
  Memᴰ-perm (Permᴰ.trans d d') h = Memᴰ-perm d' (Memᴰ-perm d h)

  pub All-Memᴰ {κ} : (P : A → Type κ) {x : A} (l : List A) → All P l → Memᴰ x l → P x
  All-Memᴰ P [] h k = elim k [ ]
  All-Memᴰ P (y ∷ l) h (Memᴰ.head e) = rw e h.0
  All-Memᴰ P (y ∷ l) h (Memᴰ.tail k) = All-Memᴰ P l h.1 k

module _ {ℓ κ} {A : Type ℓ} {B : Type κ} (f : A → Option B) where
  push-Memᴰ : (o : Option B) (b : B) (l : List B) → o ≡ some b → Memᴰ b (push o l)
  push-Memᴰ none b l e = cc
  push-Memᴰ (some b') b l e = Memᴰ.head (cc e)

  push_tail : (o : Option B) {b : B} (l : List B) → Memᴰ b l → Memᴰ b (push o l)
  push_tail none l h = h
  push_tail (some b') l h = Memᴰ.tail h

  push_inv : (o : Option B) {b : B} (l : List B) → Memᴰ b (push o l) → (o ≡ some b) ⊎ Memᴰ b l
  push_inv none l h = inr h
  push_inv (some b') l (Memᴰ.head e) = inl (cc e)
  push_inv (some b') l (Memᴰ.tail h) = inr h

  -- What is made of an element is collected.
  pub Memᴰ-collect : {a : A} (b : B) (l : List A) → Memᴰ a l → f a ≡ some b → Memᴰ b (collect f l)
  Memᴰ-collect b [] h e = elim h [ ]
  Memᴰ-collect b (x ∷ l) (Memᴰ.head p) e = push-Memᴰ (f x) b (collect f l) (cc (ap f p, e))
  Memᴰ-collect b (x ∷ l) (Memᴰ.tail h) e = push_tail (f x) (collect f l) (Memᴰ-collect b l h e)

  -- What is collected is made of an element.
  pub collect_inv :
      (b : B) (l : List A) → Memᴰ b (collect f l) → (a : A) × Memᴰ a l × (f a ≡ some b)
  collect_inv b [] h = elim h [ ]
  collect_inv b (x ∷ l) h = elim (push_inv (f x) (collect f l) h) [
    | inl e ↦ (x, Memᴰ.head refl, e)
    | inr k ↦ let (a, mem, e) = collect_inv b l k in (a, Memᴰ.tail mem, e)
  ]

-- The first of a list sorted by a key is an element of the list whose key is least.
pub sorted_first {ℓ} :
    {A : Type ℓ} (key : A → String) (l : List A) (first : A) (rest : List A)
    → sort_by (less_by key) l ≡ first ∷ rest
    → Memᴰ first l × All (λ x. str_ltb (key x) (key first) ≡ false) l
sorted_first key l first rest e =
    let order = less_by-IsStrictOrder key in
    let sorted : IsSorted (less_by key) (first ∷ rest) =
      subst (λ z. IsSorted (less_by key) z) e (sort_by-IsSorted (less_by key) order l) in
    let same : Permᴰ (first ∷ rest) l = subst (λ z. Permᴰ z l) e (sort_by-perm (less_by key) l) in
    (
      Memᴰ-perm same (Memᴰ.head refl),
      All-perm (λ x. str_ltb (key x) (key first) ≡ false) same
          (str_ltb_irrefl (key first), sorted.0),
    )

pub is_empty-perm {ℓ} : {A : Type ℓ} {l l' : List A} → Permᴰ l l' → is_empty l ≡ is_empty l'
is_empty-perm Permᴰ.nil = refl
is_empty-perm (Permᴰ.cons e d) = refl
is_empty-perm (Permᴰ.swap e e') = refl
is_empty-perm (Permᴰ.trans d d') = is_empty-perm d ∙ is_empty-perm d'
