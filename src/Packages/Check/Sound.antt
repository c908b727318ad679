-- ===== src/Packages/Check/Sound.antt =====
-- What the outcome of checkPackageSecrets says of the referenced Secrets.
use curity_operator.Prelude.{
  ℕ, suc, String, ◌≡◌, refl, subst, ◌≢◌, ◌↔◌, inl, inr, true, false, none, List, [], ◌∷◌, arith,
  eq_iff, Bool-cases, All,
}
use curity_operator.Packages.{PackageSpec}
use curity_operator.Packages.Refs.{PackageSecretKeyRef}
use curity_operator.Kube.{has_key, Secret}
use curity_operator.Packages.Check.{
  found, not_found, failed, failed, SecretRefCheckResult, GetResult, package_secret_key_refs,
  check_package_refs, check_secret_keys, is_failure, check_package_secrets, check_from, report,
  check_refs, answer, check_keys, found, Reader,
}

module _ (r : Reader) (namespace : String) where
  -- The Secret is there and has every key that the package requires of it.
  abbrev pub Resolves : PackageSecretKeyRef → Type 0
  Resolves ref =
      (s : Secret) × (r namespace ref.name ≡ found s)
      × All (λ k. has_key k s.secret_data ≡ true) ref.keys

  check_keys-passes :
      (name : String) (s : Secret) (ks : List String)
      → (is_failure (check_keys name s ks) ≡ false) ↔ All (λ k. has_key k s.secret_data ≡ true) ks
  unfolding check_keys is_failure
  check_keys-passes name s [] = (λ _. tt, λ _. refl)
  check_keys-passes name s (k ∷ ks) =
      let (there, back) = check_keys-passes name s ks in
      elim (Bool-cases (has_key k s.secret_data)) [
        | inl e ↦ rw e (λ h. (refl, there h), λ h. back h.1)
        | inr e ↦ rw e (λ h. ground arith, λ h. ground arith)
      ]

  answer-passes :
      (name : String) (a : GetResult) (ks : List String)
      → (is_failure (answer name a ks) ≡ false)
        ↔ ((s : Secret) × (a ≡ found s) × All (λ k. has_key k s.secret_data ≡ true) ks)
  unfolding answer is_failure
  answer-passes name (found s) ks =
      let (there, back) = check_keys-passes name s ks in
      (
        λ h. (s, refl, there h),
        λ (s', e, h).
            let same : s' ≡ s = cc e in
            back (subst (λ (z : Secret). All (λ k. has_key k z.secret_data ≡ true) ks) same h),
      )
  answer-passes name not_found ks = (λ h. ground arith, λ (s', e, h). cc e)
  answer-passes name (failed x) ks = (λ h. ground arith, λ (s', e, h). cc e)

  check_refs-passes :
      (refs : List PackageSecretKeyRef)
      → (is_failure (check_refs r namespace refs) ≡ false) ↔ All Resolves refs
  unfolding check_refs check_secret_keys
  check_refs-passes [] = (λ _. tt, λ _. unfold is_failure in refl)
  check_refs-passes (ref ∷ refs) =
      let (there, back) = check_refs-passes refs in
      let (now, ago) = answer-passes ref.name (r namespace ref.name) ref.keys in
      elim (Bool-cases (is_failure (answer ref.name (r namespace ref.name) ref.keys))) [
        | inl e ↦ rw e (λ h. absurd (cc (e, h)), λ h. absurd (cc (e, ago h.0)))
        | inr e ↦ rw e (λ h. (now e, there h), λ h. back h.1)
      ]

  -- No failure is reported with an empty reason and no error.
  report-ne :
      (i : ℕ) (p : PackageSpec) (res : SecretRefCheckResult)
      → is_failure res ≡ true
      → report r namespace i p res ≢ ("", "", none)
  unfolding report is_failure
  report-ne i p res h = ground (arith, eq_iff res.reason "")

  check_from-passes :
      (i : ℕ) (ps : List PackageSpec)
      → (check_from r namespace i ps ≡ ("", "", none))
        ↔ All (λ p. All Resolves (package_secret_key_refs p)) ps
  unfolding check_from check_package_refs
  check_from-passes i [] = (λ _. tt, λ _. refl)
  check_from-passes i (p ∷ ps) =
      let (there, back) = check_from-passes (suc i) ps in
      let (now, ago) = check_refs-passes (package_secret_key_refs p) in
      let res = check_refs r namespace (package_secret_key_refs p) in
      elim (Bool-cases (is_failure res)) [
        | inl e ↦ rw e (λ h. absurd (report-ne i p res e h), λ h. absurd (cc (e, ago h.0)))
        | inr e ↦ rw e (λ h. (now e, there h), λ h. back h.1)
      ]

  -- The check of the packages' Secrets passes, with no reason, no message and no error, exactly
  -- when every Secret that a package refers to is there with every key that is required of it.
  pub check_package_secrets-passes :
      (ps : List PackageSpec)
      → (check_package_secrets r namespace ps ≡ ("", "", none))
        ↔ All (λ p. All Resolves (package_secret_key_refs p)) ps
  unfolding check_package_secrets
  check_package_secrets-passes ps = check_from-passes 0 ps
