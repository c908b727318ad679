-- ===== src/Conditions/Set.antt =====
-- setCondition (conditions.go) and the Ready overlay (identityservernode_reconciler.go).
use curity_operator.Prelude.{
  arith, ◌==◌, [], ◌≡◌, ℕ, String, Option, none, some, List, if◌then◌else◌,
}
use curity_operator.Api.{
  ApiMeta, Condition, ConditionStatus, no_status, is_false, condition_ready,
  condition_packages_ready, reason_packages_not_ready,
}

module _ (m : ApiMeta) where
  open m use {set_status_condition, find_status_condition}

  -- Conditions are values here: the new slice is the result.
  unfoldable pub set_condition :
      List Condition → String → ConditionStatus → String → String → ℕ → List Condition
  set_condition conditions cond_type status reason message generation =
      (set_status_condition conditions (record {
        type = cond_type;
        status = status;
        reason = reason;
        message = message;
        observed_generation = generation;
      })).0

  -- The status of a condition, if the condition is there.
  unfoldable pub status_of : List Condition → String → Option ConditionStatus
  status_of cs t = elim (find_status_condition cs t) [ none ↦ none | some c ↦ some c.status ]

  -- Setting a condition shows in its own type alone.
  pub status_of-set_condition :
      (cs : List Condition) (t : String) (status : ConditionStatus) (reason message : String)
      (g : ℕ) (u : String)
      → status_of (set_condition cs t status reason message g) u
        ≡ (if t == u then some status else status_of cs u)
  unfolding status_of set_condition
  status_of-set_condition cs t status reason message g u = ground (
    arith,
    m.find-set cs
        (record {
          type = t;
          status = status;
          reason = reason;
          message = message;
          observed_generation = g;
        })
        u,
  )

  pub status_of-nil : (u : String) → status_of [] u ≡ none
  unfolding status_of
  status_of-nil u = ground (arith, m.find-nil u)

  unfoldable pub overlay : Option Condition → List Condition → ℕ → List Condition
  overlay none conditions generation = conditions
  overlay (some pkgs) conditions generation =
      if is_false pkgs.status
      then set_condition conditions condition_ready no_status reason_packages_not_ready
          "package fetch not ready; see PackagesReady condition" generation
      else conditions

  unfoldable pub apply_ready_overlay : List Condition → ℕ → List Condition
  unfolding overlay
  apply_ready_overlay conditions generation =
      overlay (find_status_condition conditions condition_packages_ready) conditions generation
