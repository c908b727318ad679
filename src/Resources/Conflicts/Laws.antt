-- ===== src/Resources/Conflicts/Laws.antt =====
-- detectContainerNameConflict (resources.go) reports a pod exactly if two of its containers have one name.
use curity_operator.Prelude.{
  String, ◌≡◌, refl, ◌≢◌, ◌↔◌, inl, inr, false, Option, none, some, List, [], ◌∷◌, ◌++◌, arith,
  ◌==◌, eq_iff, Bool-cases, any, All, All-imp, DistinctBy,
}
use curity_operator.Resources.{IdentityServerCluster, IdentityServerNode}
use curity_operator.Resources.Pod.{PodSpec}
use curity_operator.Resources.Conflicts.{names_of, repeated_name, detect_container_name_conflict}

-- None of the names was seen, and no two of them are equal.
abbrev Fresh : List String → List String → Type 0
Fresh seen [] = Unit
Fresh seen (n ∷ names) = (any (λ m. m == n) seen ≡ false) × Fresh (n ∷ seen) names

repeated_name-Fresh :
    (seen names : List String) → (repeated_name seen names ≡ none) ↔ Fresh seen names
repeated_name-Fresh seen [] = (λ h. tt, λ h. refl)
repeated_name-Fresh seen (n ∷ names) =
    let (down, up) = repeated_name-Fresh (n ∷ seen) names in
    elim (Bool-cases (any (λ m. m == n) seen)) [
      | inl e ↦ rw e (λ h. ground (arith, h), λ h. ground (arith, h.0))
      | inr e ↦ rw e (λ h. (refl, down h), λ h. up h.1)
    ]

abbrev Unseen : List String → String → Type 0
Unseen seen n = any (λ m. m == n) seen ≡ false

apart_of : (n k : String) (seen : List String) → Unseen (n ∷ seen) k → (n ≢ k) × Unseen seen k
apart_of n k seen h = (λ e. grind (arith, h, eq_iff n k, e), ground (arith, h))

still_new : (n k : String) (seen : List String) → n ≢ k → Unseen seen k → Unseen (n ∷ seen) k
still_new n k seen ne h = elim (Bool-cases (n == k)) [
  | inl e ↦ elim (ne ((eq_iff n k).0 e)) [ ]
  | inr e ↦ ground (arith, e, h)
]

both_All :
    {A : Type 0} (P Q : A → Type 0) (xs : List A) → All P xs → All Q xs → All (λ x. P x × Q x) xs
both_All P Q [] hp hq = tt
both_All P Q (x ∷ xs) hp hq = ((hp.0, hq.0), both_All P Q xs hp.1 hq.1)

Fresh-DistinctBy :
    (seen names : List String)
    → Fresh seen names ↔ (All (Unseen seen) names × DistinctBy (λ x. x) names)
Fresh-DistinctBy seen [] = (λ h. (tt, tt), λ h. tt)
Fresh-DistinctBy seen (n ∷ names) =
    let (down, up) = Fresh-DistinctBy (n ∷ seen) names in
    (
      λ h.
          let (unseen, distinct) = down h.1 in
          (
            (h.0, All-imp (Unseen (n ∷ seen)) (λ k u. (apart_of n k seen u).1) names unseen),
            (All-imp (Unseen (n ∷ seen)) (λ k u. (apart_of n k seen u).0) names unseen, distinct),
          ),
      λ h. (
        h.0.0,
        up (
          All-imp (λ k. (n ≢ k) × Unseen seen k) (λ k u. still_new n k seen u.0 u.1) names
              (both_All (λ k. n ≢ k) (Unseen seen) names h.1.0 h.0.1),
          h.1.1,
        ),
      ),
    )

no_seen : (names : List String) → All (Unseen []) names
no_seen [] = tt
no_seen (n ∷ names) = (refl, no_seen names)

is_none_message :
    (o : Option String) (f : String → String)
    → (elim o [ none ↦ none | some n ↦ some (f n) ] ≡ none) ↔ (o ≡ none)
is_none_message none f = (λ h. refl, λ h. refl)
is_none_message (some n) f = (λ h. cc, λ h. cc)

-- No conflict is reported exactly if all containers of the pod, init containers and others together,
-- have different names.
pub detect_container_name_conflict-distinct :
    {U : Type 0} (spec : PodSpec U) (cluster : IdentityServerCluster U)
    (node : IdentityServerNode U)
    → (detect_container_name_conflict spec cluster node ≡ none)
      ↔ DistinctBy (λ x. x) (names_of (spec.init_containers ++ spec.containers))
unfolding detect_container_name_conflict
detect_container_name_conflict-distinct spec cluster node =
    let names = names_of (spec.init_containers ++ spec.containers) in
    let (silent, quiet) = is_none_message (repeated_name [] names) _ in
    let (fresh, back) = repeated_name-Fresh [] names in
    let (split, join_) = Fresh-DistinctBy [] names in
    (λ h. (split (fresh (silent h))).1, λ h. quiet (back (join_ (no_seen names, h))))
