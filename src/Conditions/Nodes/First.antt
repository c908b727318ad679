-- ===== src/Conditions/Nodes/First.antt =====
-- Which node aggregateNodeDegraded and aggregatePackagesReady report.
use curity_operator.Prelude.{
  ℕ, String, ◌≡◌, refl, ap, ◌∙◌, inl, inr, true, false, not, ◌&&◌, Option, none, some, List, [],
  ◌∷◌, Memᴰ, arith, if◌then◌else◌, Bool-cases, Option-cases, is_some, length, all, is_empty, All,
  sort_by, sort_by-perm, str_ltb, less_by, All-Memᴰ, Memᴰ-collect, collect_inv, sorted_first,
  is_empty-perm,
}
use curity_operator.Api.{no_status, condition_degraded, yes_status, Condition, ApiMeta, Node}
use curity_operator.Conditions.Nodes.{
  node_holds, holds, aggregate_node_degraded, failing_cond, Aggregate, NodeCond, describe_degraded,
  degraded_nodes,
}
use curity_operator.Conditions.Nodes.Statuses.{aggregate_status, node_holds_iff, NodeIs}
use curity_operator.Conditions.Set.{status_of}

module _ (m : ApiMeta) where
  open m use {find_status_condition}

  describe_degraded_inv :
      (total : ℕ) (l : List NodeCond) (a : Aggregate)
      → describe_degraded m total l ≡ some a
      → (first : NodeCond) × (rest : List NodeCond) × (l ≡ first ∷ rest)
        × (a.status ≡ yes_status)
        × (a.reason ≡ first.cond.reason)
  unfolding describe_degraded
  describe_degraded_inv total [] a h = cc
  describe_degraded_inv total (c ∷ rest) a h = (c, rest, refl, ground arith, ground arith)

  failing_cond_inv :
      (name : String) (o : Option Condition) (c : NodeCond)
      → failing_cond m name o ≡ some c
      → (o ≡ some c.cond) × (c.cond.status ≡ yes_status) × (c.name ≡ name)
  failing_cond_inv name none c h = cc
  failing_cond_inv name (some x) c h = ground arith

  abbrev by_name : List NodeCond → List NodeCond
  by_name = sort_by (less_by (λ c. c.name))

  failing_cond_of :
      (name : String) (o : Option Condition)
      → holds m o ≡ true
      → (c : NodeCond) × (failing_cond m name o ≡ some c) × (c.name ≡ name)
  failing_cond_of name none h = cc
  failing_cond_of name (some c) h = (record { name = name; cond = c }, ground arith, refl)

  degraded_of :
      (n : Node)
      → NodeIs m condition_degraded yes_status n
      → (c : NodeCond) × (failing_cond m n.name
            (find_status_condition n.conditions condition_degraded)
          ≡ some c)
        × (c.name ≡ n.name)
  degraded_of n h =
      failing_cond_of n.name (find_status_condition n.conditions condition_degraded)
        ((node_holds_iff m condition_degraded n).1 h)

  All-of_Memᴰ : {P : Node → Type 0} (ns : List Node) → ((n : Node) → Memᴰ n ns → P n) → All P ns
  All-of_Memᴰ [] f = tt
  All-of_Memᴰ (n ∷ ns) f = (f n (Memᴰ.head refl), All-of_Memᴰ ns (λ k mem. f k (Memᴰ.tail mem)))

  -- A cluster's forwarded degradation comes from one of its degraded nodes, the one whose name is
  -- least: the Degraded condition takes that node's reason.
  pub aggregate_node_degraded_first :
      (ns : List Node) (a : Aggregate)
      → aggregate_node_degraded m ns ≡ some a
      → (n : Node) × (c : Condition) × Memᴰ n ns
        × (find_status_condition n.conditions condition_degraded ≡ some c)
        × (c.status ≡ yes_status)
        × (a.status ≡ yes_status)
        × (a.reason ≡ c.reason)
        × All (λ n'. (node_holds m condition_degraded n' && str_ltb n'.name n.name) ≡ false) ns
  unfolding aggregate_node_degraded degraded_nodes status_of
  aggregate_node_degraded_first ns a h =
      let (first, rest, e, status, reason) = describe_degraded_inv _ _ a h in
      let (mem, least) = sorted_first (λ c. c.name) _ first rest e in
      let (n, inside, made) = collect_inv _ first ns mem in
      let (found, failing, named) =
        failing_cond_inv n.name (find_status_condition n.conditions condition_degraded) first
          made in
      (
        n,
        first.cond,
        inside,
        found,
        failing,
        status,
        reason,
        All-of_Memᴰ ns (λ n' mem'. elim (Bool-cases (node_holds m condition_degraded n')) [
          | inr e ↦ rw e refl
          | inl e ↦
              let (c', made', named') =
                degraded_of n' ((node_holds_iff m condition_degraded n').0 e) in
              rw (e, ← named, ← named')
                (All-Memᴰ (λ c. str_ltb c.name first.name ≡ false) (degraded_nodes m ns) least
                  (Memᴰ-collect _ c' ns mem' made'))
        ]),
      )

  collect-is_empty :
      (ns : List Node)
      → is_empty (degraded_nodes m ns) ≡ all (λ n. not (node_holds m condition_degraded n)) ns
  unfolding degraded_nodes
  collect-is_empty [] = refl
  collect-is_empty (n ∷ ns) = ground (arith, collect-is_empty ns)

  describe_degraded-is_some :
      (total : ℕ) (l : List NodeCond) → is_some (describe_degraded m total l) ≡ not (is_empty l)
  unfolding describe_degraded
  describe_degraded-is_some total [] = refl
  describe_degraded-is_some total (c ∷ l) = refl

  -- An aggregate is there exactly when some node is degraded.
  pub aggregate_node_degraded-is_some :
      (ns : List Node)
      → is_some (aggregate_node_degraded m ns)
        ≡ not (all (λ n. not (node_holds m condition_degraded n)) ns)
  unfolding aggregate_node_degraded
  aggregate_node_degraded-is_some ns =
      describe_degraded-is_some (length ns) _
      ∙ ap not (
          is_empty-perm (sort_by-perm (less_by (λ c. c.name)) (degraded_nodes m ns))
          ∙ collect-is_empty ns)

  -- The status that is forwarded is True.
  pub aggregate_node_degraded-status :
      (ns : List Node)
      → aggregate_status (aggregate_node_degraded m ns)
        ≡ (if is_some (aggregate_node_degraded m ns) then yes_status else no_status)
  aggregate_node_degraded-status ns = elim (Option-cases (aggregate_node_degraded m ns)) [
    | inl e ↦ rw e
    | inr (a, e) ↦ rw e (aggregate_node_degraded_first ns a e).5
  ]
