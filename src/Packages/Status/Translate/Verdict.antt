-- ===== src/Packages/Status/Translate/Verdict.antt =====
-- What translatePackagesReady decides, told apart from its loops: by the first failing package-fetch
-- container of the current pods, and otherwise by how many of them have succeeded.
use curity_operator.Prelude.{
  ℕ, suc, ◌+◌, String, ◌≡◌, refl, sym, ap, ◌∙◌, inl, inr, Bool, true, false, not, ◌||◌, Option,
  none, some, List, [], ◌∷◌, ◌++◌, arith, nat_eq, if◌then◌else◌, Bool-cases, select, is_empty,
  sprint, format_nat, count_if,
}
use curity_operator.Kube.{Pod, ContainerStatus}
use curity_operator.Api.{reason_all_packages_fetched, yes_status}
use curity_operator.Packages.{PackageSpec}
use curity_operator.Packages.Status.Classify.{Failure, classify_init_container}
use curity_operator.Packages.Status.Replicas.{
  pick_winner, group_pods, current_replica_set_pods, pods_matching_packages_hash,
}
use curity_operator.Packages.Status.Translate.{
  Scan, stopped, scanned, Verdict, TranslatePackagesReadyResult, is_fetch, succeeded,
  failure_result, scan_containers, scan_pods, conclude, translate_packages_ready,
}

-- The package-fetch containers of the pods.
abbrev pub fetches : List Pod → List ContainerStatus
fetches [] = []
fetches (p ∷ pods) = select is_fetch p.init_container_statuses ++ fetches pods

abbrev pub first_failing : List ContainerStatus → Option (ContainerStatus × Failure)
first_failing [] = none
first_failing (c ∷ cs) = elim (classify_init_container c) [
  | some f ↦ some (c, f)
  | none ↦ first_failing cs
]

abbrev pub all_fetched : ℕ → TranslatePackagesReadyResult
all_fetched n = record {
  status = yes_status;
  reason = reason_all_packages_fetched;
  message = sprint (format_nat n ∷ " package-fetch init container(s) succeeded" ∷ []);
}

abbrev pub judge : List PackageSpec → List ContainerStatus → Verdict
judge packages cs = elim (first_failing cs) [
  | some (c, f) ↦ some (failure_result packages c f)
  | none ↦
      if nat_eq (count_if succeeded cs) 0 then none else some (all_fetched (count_if succeeded cs))
]

summary : List PackageSpec → ℕ → Bool → List ContainerStatus → Scan
summary packages n saw cs = elim (first_failing cs) [
  | some (c, f) ↦ stopped (failure_result packages c f)
  | none ↦ scanned (n + count_if succeeded cs) (saw || not (is_empty cs))
]

scan_containers-summary :
    (packages : List PackageSpec) (n : ℕ) (saw : Bool) (l : List ContainerStatus)
    → scan_containers packages n saw l ≡ summary packages n saw (select is_fetch l)
unfolding scan_containers summary
scan_containers-summary packages n saw [] = ground arith
scan_containers-summary packages n saw (c ∷ l) = ground (
  arith,
  scan_containers-summary packages (suc n) true l,
  scan_containers-summary packages n true l,
  scan_containers-summary packages n saw l,
)

resume : (ℕ → Bool → Scan) → Scan → Scan
resume go (stopped result) = stopped result
resume go (scanned n saw) = go n saw

resume_same :
    (go go' : ℕ → Bool → Scan) (s : Scan)
    → ((n : ℕ) (saw : Bool) → go n saw ≡ go' n saw)
    → resume go s ≡ resume go' s
unfolding resume
resume_same go go' (stopped result) h = refl
resume_same go go' (scanned n saw) h = h n saw

summary-append :
    (packages : List PackageSpec) (n : ℕ) (saw : Bool) (xs ys : List ContainerStatus)
    → summary packages n saw (xs ++ ys)
      ≡ resume (λ n' saw'. summary packages n' saw' ys) (summary packages n saw xs)
unfolding summary resume
summary-append packages n saw [] ys = ground arith
summary-append packages n saw (c ∷ xs) ys = ground (arith, summary-append packages n saw xs ys)

scan_pods-summary :
    (packages : List PackageSpec) (n : ℕ) (saw : Bool) (pods : List Pod)
    → scan_pods packages n saw pods ≡ summary packages n saw (fetches pods)
unfolding scan_pods resume
scan_pods-summary packages n saw [] = unfold summary in ground arith
scan_pods-summary packages n saw (p ∷ pods) =
    let go : ℕ → Bool → Scan = λ n' saw'. scan_pods packages n' saw' pods in
    let own = select is_fetch p.init_container_statuses in
    ap (resume go) (scan_containers-summary packages n saw p.init_container_statuses)
    ∙ resume_same go (λ n' saw'. summary packages n' saw' (fetches pods))
        (summary packages n saw own) (λ n' saw'. scan_pods-summary packages n' saw' pods)
    ∙ sym (summary-append packages n saw own (fetches pods))

conclude-summary :
    (packages : List PackageSpec) (cs : List ContainerStatus)
    → conclude (summary packages 0 false cs) ≡ judge packages cs
unfolding conclude summary
conclude-summary packages cs = ground arith

judge-none :
    (packages : List PackageSpec) (pods : List Pod)
    → is_empty pods ≡ true
    → judge packages (fetches pods) ≡ none
judge-none packages [] h = refl
judge-none packages (p ∷ pods) h = cc

matching_of_current :
    (pods : List Pod) → is_empty (current_replica_set_pods pods) ≡ false → is_empty pods ≡ false
unfolding current_replica_set_pods group_pods pick_winner
matching_of_current [] h = h
matching_of_current (p ∷ pods) h = refl

-- The verdict of translatePackagesReady is the failure of the first failing package-fetch container
-- of the current pods, with its reason and detail; where none fails, it is true with the number of
-- those that have exited with 0, and not set while there is none of these.
pub translate_packages_ready-judge :
    (pods : List Pod) (hash : String) (packages : List PackageSpec)
    → translate_packages_ready pods hash packages
      ≡ judge packages (fetches (current_replica_set_pods (pods_matching_packages_hash pods hash)))
unfolding translate_packages_ready
translate_packages_ready-judge pods hash packages =
    let matching = pods_matching_packages_hash pods hash in
    let current = current_replica_set_pods matching in
    let whole =
      ap conclude (scan_pods-summary packages 0 false current)
      ∙ conclude-summary packages (fetches current) in
    elim (Bool-cases (is_empty current)) [
      | inr e ↦ rw (e, matching_of_current matching e) whole
      | inl e ↦ ground (arith, judge-none packages current e)
    ]
