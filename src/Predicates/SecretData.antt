-- ===== src/Predicates/SecretData.antt =====
-- secretDataEqual (predicates.go) compares two maps as Go's maps are meant to be compared.
use curity_operator.Prelude.{
  ℕ, suc, String, ◌≡◌, refl, sym, ap, ◌∙◌, ◌↔◌, inl, inr, true, false, Option, none, some, List, [],
  ◌∷◌, arith, ◌==◌, eq_iff, eq_refl, if◌then◌else◌, Bool-cases, length,
}
use curity_operator.Kube.{lookup, has_key, Map}
use curity_operator.Predicates.{secret_data_equal, data_within, found_equal, bytes_equal}

bytes_equal_sound : (a b : List ℕ) → bytes_equal a b ≡ true → a ≡ b
bytes_equal_sound [] [] h = refl
bytes_equal_sound [] (b ∷ bs) h = ground (arith, h)
bytes_equal_sound (a ∷ rest) [] h = ground (arith, h)
bytes_equal_sound (a ∷ rest) (b ∷ bs) h = grind (arith, bytes_equal_sound rest bs)

bytes_equal_refl : (a : List ℕ) → bytes_equal a a ≡ true
bytes_equal_refl [] = refl
bytes_equal_refl (a ∷ rest) = ground (arith, bytes_equal_refl rest)

-- A map without its first entry of a key.
abbrev without : String → Map (List ℕ) → Map (List ℕ)
without k [] = []
without k ((j, v) ∷ m) = let rest = without k m in if j == k then m else (j, v) ∷ rest

-- No key occurs twice.
abbrev pub IsMap : Map (List ℕ) → Type 0
IsMap [] = Unit
IsMap ((k, v) ∷ m) = (has_key k m ≡ false) × IsMap m

lookup-without_other :
    (k j : String) (m : Map (List ℕ)) → (k == j) ≡ false → lookup j (without k m) ≡ lookup j m
lookup-without_other k j [] h = refl
lookup-without_other k j ((i, v) ∷ m) h =
    grind (arith, lookup-without_other k j m h, eq_iff i k, eq_iff i j, eq_iff k j)

lookup-without : (k : String) (m : Map (List ℕ)) → IsMap m → lookup k (without k m) ≡ none
lookup-without k [] h = refl
lookup-without k ((i, v) ∷ m) h = grind (arith, lookup-without k m h.1, eq_iff i k, h.0)

length-without :
    (k : String) (m : Map (List ℕ)) → has_key k m ≡ true → length m ≡ suc (length (without k m))
length-without k [] h = ground (arith, h)
length-without k ((i, v) ∷ m) h = elim (Bool-cases (i == k)) [
  | inl e ↦ ground (arith, e)
  | inr e ↦ ground (arith, e, h, length-without k m)
]

has_key-without :
    (i k : String) (m : Map (List ℕ)) → has_key i m ≡ false → has_key i (without k m) ≡ false
has_key-without i k [] h = refl
has_key-without i k ((j, v) ∷ m) h = ground (arith, has_key-without i k m, h)

without-IsMap : (k : String) (m : Map (List ℕ)) → IsMap m → IsMap (without k m)
without-IsMap k [] h = tt
without-IsMap k ((j, v) ∷ m) h = elim (Bool-cases (j == k)) [
  | inl e ↦ rw e h.1
  | inr e ↦ rw e (has_key-without j k m h.0, without-IsMap k m h.1)
]

data_within-without :
    (k : String) (a m : Map (List ℕ))
    → has_key k a ≡ false
    → data_within a (without k m) ≡ data_within a m
data_within-without k [] m h = refl
data_within-without k ((j, v) ∷ a) m h = elim (Bool-cases (j == k)) [
  | inl e ↦ ground (arith, e, h)
  | inr e ↦
      let e' : (k == j) ≡ false = grind (arith, e, eq_iff j k, eq_iff k j) in
      rw (lookup-without_other k j m e', data_within-without k a m (ground (arith, e, h))) refl
]

found_equal-some : (v : List ℕ) (o : Option (List ℕ)) → found_equal v o ≡ true → o ≡ some v
found_equal-some v none h = ground (arith, h)
found_equal-some v (some w) h = ap some (sym (bytes_equal_sound v w h))

found_equal_refl : (v : List ℕ) (o : Option (List ℕ)) → o ≡ some v → found_equal v o ≡ true
found_equal_refl v o h = rw h (bytes_equal_refl v)

Same : Map (List ℕ) → Map (List ℕ) → Type 0
Same a b = (k : String) → lookup k a ≡ lookup k b

agree_without :
    (k : String) (v : List ℕ) (a b : Map (List ℕ))
    → IsMap ((k, v) ∷ a)
    → IsMap b
    → Same ((k, v) ∷ a) b
    → Same a (without k b)
unfolding Same
agree_without k v a b ha hb h j = elim (Bool-cases (k == j)) [
  | inl e ↦ grind (arith, lookup-without k b hb, eq_iff k j, ha.0, e)
  | inr e ↦ grind (arith, lookup-without_other k j b e, h j, e)
]

agree_with :
    (k : String) (v : List ℕ) (a b : Map (List ℕ))
    → lookup k b ≡ some v
    → Same a (without k b)
    → Same ((k, v) ∷ a) b
unfolding Same
agree_with k v a b hk h j = elim (Bool-cases (k == j)) [
  | inl e ↦ grind (arith, hk, eq_iff k j, e)
  | inr e ↦ grind (arith, lookup-without_other k j b e, h j, e)
]

within_sound :
    (a b : Map (List ℕ))
    → IsMap a
    → IsMap b
    → length a ≡ length b
    → data_within a b ≡ true
    → Same a b
unfolding Same
within_sound [] [] ha hb hl hw = λ k. refl
within_sound [] (e ∷ b) ha hb hl hw = ground (arith, hl)
within_sound ((k, v) ∷ a) b ha hb hl hw =
    let found : lookup k b ≡ some v = found_equal-some v (lookup k b) (ground (arith, hw)) in
    let lens : length b ≡ suc (length (without k b)) = length-without k b (rw found refl) in
    agree_with k v a b found (
      within_sound a (without k b) ha.1 (without-IsMap k b hb) (omega (arith, lens, hl))
        (data_within-without k a b ha.0 ∙ ground (arith, hw)))

within_complete :
    (a b : Map (List ℕ))
    → IsMap a
    → IsMap b
    → Same a b
    → (length a ≡ length b) × (data_within a b ≡ true)
unfolding Same
within_complete [] [] ha hb h = (refl, refl)
within_complete [] ((j, w) ∷ b) ha hb h = grind (arith, h j, eq_refl j)
within_complete ((k, v) ∷ a) b ha hb h =
    let found : lookup k b ≡ some v = grind (arith, h k, eq_refl k) in
    let lens : length b ≡ suc (length (without k b)) = length-without k b (rw found refl) in
    let (hl, hw) =
      within_complete a (without k b) ha.1 (without-IsMap k b hb) (agree_without k v a b ha hb h) in
    (
      omega (arith, lens, hl),
      rw found (rw (found_equal_refl v (some v) refl) (sym (data_within-without k a b ha.0) ∙ hw)),
    )

-- Two maps of a Secret's data, in neither of which a key occurs twice, count as equal exactly when
-- every key reads the same in both.
pub secret_data_equal-lookup :
    (a b : Map (List ℕ))
    → IsMap a
    → IsMap b
    → (secret_data_equal a b ≡ true) ↔ ((k : String) → lookup k a ≡ lookup k b)
unfolding secret_data_equal Same
secret_data_equal-lookup a b ha hb = (
  λ h. within_sound a b ha hb (ground (arith, h)) (ground (arith, h)),
  λ h. ground (arith, (within_complete a b ha hb h).0, (within_complete a b ha hb h).1),
)
