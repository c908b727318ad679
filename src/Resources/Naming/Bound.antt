-- ===== src/Resources/Naming/Bound.antt =====
-- OwnedResourceName (resources.go) keeps its bound, and keeps nodes apart whose hashes differ.
use curity_operator.Prelude.{
  ℕ, ◌+◌, ◌-◌, ◌≤◌, String, ◌≡◌, refl, sym, ap, ◌∙◌, inl, inr, ◌&&◌, arith, ◌==◌, ltb, nat_eq,
  Bool-cases,
}
use Prim.Native.String.len
use Prim.Native.String.slice
use Prim.Native.Nat.{compare as compare_ℕ, Ordering}
use Prim.Native.Char.{Char, len_utf8, code}
use Prim.Native.String.{len, slice, fits}
use Prim.Native.String
use text.Mathlib.TextPositions.{len-append, slice-append_right}
use curity_operator.Resources.Naming.{trim_dashes, owned_resource_name, owned_resource_name_max_len}

fits-le :
    (k : ℕ) (o : Ordering) (c : Char) (r : String)
    → compare_ℕ (len_utf8 c) k ≡ o
    → len r ≤ k - len_utf8 c
    → len (fits o c r) ≤ k
fits-le k Ordering.lt c r e h = rw (len.cons c r) (ground (arith, e, h))
fits-le k Ordering.eq c r e h = rw (len.cons c r) (ground (arith, e, h))
fits-le k Ordering.gt c r e h = rw len.nil (omega arith)

len-slice-le : (s : String) (k : ℕ) → len (slice s 0 k) ≤ k
len-slice-le String.[] k = rw (slice.nil 0 k, len.nil) (omega arith)
len-slice-le (String.◌∷◌ c s) k = rw (slice.cons-zero c s k) (
    fits-le k (compare_ℕ (len_utf8 c) k) c (slice s 0 (k - len_utf8 c)) refl
      (len-slice-le s (k - len_utf8 c)))

len-trim_dashes-le : (s : String) → len (trim_dashes s) ≤ len s
unfolding trim_dashes
len-trim_dashes-le String.[] = omega arith
len-trim_dashes-le (String.◌∷◌ c s) =
    elim (Bool-cases (nat_eq (code c) 45 && trim_dashes s == "")) [
      | inl e ↦ rw (e, len.nil) (omega arith)
      | inr e ↦
          rw (e, len.cons c s, len.cons c (trim_dashes s)) (omega (arith, len-trim_dashes-le s))
    ]

right_part : (s t s' t' : String) → String.◌++◌ s t ≡ String.◌++◌ s' t' → len t ≡ len t' → t ≡ t'
right_part s t s' t' e h =
    let total : len s + len t ≡ len s' + len t' =
      sym (len-append s t) ∙ ap len e ∙ len-append s' t' in
    let start : len s ≡ len s' = omega (arith, total, h) in
    sym (slice-append_right s t) ∙ (λ i. slice (e i) (start i) (total i)) ∙ slice-append_right s' t'

module _ (short_hash : String → String → String)
    (hash_length : (c n : String) → len (short_hash c n) ≡ 8) where
  suffix_length : (c n : String) → len (String.◌++◌ "-" (short_hash c n)) ≡ 9
  suffix_length c n = len-append "-" (short_hash c n) ∙ omega (arith, hash_length c n)

  -- With a hash of eight digits, the name of a node's objects has at most 47 bytes.
  pub len-owned_resource_name-le :
      (cluster_name node_name : String)
      → len (owned_resource_name short_hash cluster_name node_name) ≤ owned_resource_name_max_len
  unfolding owned_resource_name
  len-owned_resource_name-le c n =
      let suffix = String.◌++◌ "-" (short_hash c n) in
      let base = String.◌++◌ c (String.◌++◌ "-" n) in
      let room = owned_resource_name_max_len - len suffix in
      let short = len-trim_dashes-le (slice base 0 room) in
      let fit = len-slice-le base room in
      elim (Bool-cases (ltb owned_resource_name_max_len (len base + len suffix))) [
        | inl e ↦
            rw (e, len-append (trim_dashes (slice base 0 room)) suffix)
              (omega (arith, short, fit, suffix_length c n))
        | inr e ↦ rw (e, len-append base suffix) (ground (arith, e))
      ]

  -- Nodes of which the hashes differ have different names, however the names are cut.
  pub owned_resource_name-short_hash :
      (c n c' n' : String)
      → owned_resource_name short_hash c n ≡ owned_resource_name short_hash c' n'
      → short_hash c n ≡ short_hash c' n'
  unfolding owned_resource_name
  owned_resource_name-short_hash c n c' n' e =
      right_part "-" (short_hash c n) "-" (short_hash c' n')
        (right_part _ _ _ _ e (suffix_length c n ∙ sym (suffix_length c' n')))
        (hash_length c n ∙ sym (hash_length c' n'))
