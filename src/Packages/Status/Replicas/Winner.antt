-- ===== src/Packages/Status/Replicas/Winner.antt =====
-- The pods of currentReplicaSetPods are those of one ReplicaSet, the one with the newest pod,
-- whatever the order in which the groups are visited.
use curity_operator.Prelude.{
  subst, String, Bool, Distinct-perm, ◌≡◌, refl, sym, ap, ◌∙◌, ◌≢◌, ◌⊎◌, inl, inr, true, false,
  ◌&&◌, ◌||◌, Option, none, some, List, [], ◌∷◌, Permᴰ, Memᴰ, arith, ltb, nat_eq, Bool-cases,
  is_some, any, select, is_empty, All, IsStrictOrder, Apart, Distinct, All-imp, str_ltb,
  str_ltb_total, less_by-IsStrictOrder, DistinctBy, All-Memᴰ,
}
use curity_operator.Kube.{Pod}
use curity_operator.Packages.Status.Replicas.Grouping.{
  pods_under, is_filed_under, newest_of, newest-group_pods, pods_under-group_pods,
  DistinctBy-group_pods, own_of_distinct, nothing_filed,
}
use curity_operator.Packages.Status.Replicas.Filed.{filled-group_pods, group_of_filed}
use curity_operator.Packages.Status.Replicas.{
  Group, beats, choose, pick_winner, pods_of, filed_under, group_pods, current_replica_set_pods,
}

beats-IsStrictOrder : IsStrictOrder beats
unfolding beats
beats-IsStrictOrder =
    let o = less_by-IsStrictOrder (λ (g : Group). g.got_uid) in
    record {
      asym = λ a b h. ground (arith, o.asym a b);
      trans = λ a b c h h'. ground (arith, o.trans a b c);
      cotrans = λ a b c h. ground (arith, o.cotrans a b c);
    }

choose_comm_lt :
    (w : Option Group) (a b : Group)
    → beats a b ≡ true
    → choose (choose w a) b ≡ choose (choose w b) a
choose_comm_lt none a b h = ground (arith, beats-IsStrictOrder.asym a b h)
choose_comm_lt (some w) a b h =
    ground (arith, beats-IsStrictOrder.asym a b h, beats-IsStrictOrder.trans a b w h)

choose_comm :
    (w : Option Group) (a b : Group)
    → Apart beats a b
    → choose (choose w a) b ≡ choose (choose w b) a
choose_comm w a b (inl h) = choose_comm_lt w a b h
choose_comm w a b (inr h) = sym (choose_comm_lt w b a h)

pick_winner_of_perm :
    (w : Option Group) {l l' : List Group}
    → Permᴰ l l'
    → Distinct beats l
    → pick_winner w l ≡ pick_winner w l'
unfolding pick_winner
pick_winner_of_perm w Permᴰ.nil h = refl
pick_winner_of_perm w (Permᴰ.cons {a = x} {l₂ = l'} e d) h =
    pick_winner_of_perm (choose w x) d h.1 ∙ ap (λ g. pick_winner (choose w g) l') e
pick_winner_of_perm w (Permᴰ.swap {a = a} {b = b} {a' = a'} {b' = b'} {l = l} e e') h =
    ap (λ z. pick_winner z l) (choose_comm w a b h.0.0)
    ∙ ap (λ z. pick_winner (choose (choose w z) a) l) e'
    ∙ ap (λ z. pick_winner (choose (choose w a') z) l) e
pick_winner_of_perm w (Permᴰ.trans d d') h =
    pick_winner_of_perm w d h ∙ pick_winner_of_perm w d' (Distinct-perm beats d h)

-- Groups of different ReplicaSets do not tie.
Distinct-groups : (gs : List Group) → DistinctBy (λ g. g.got_uid) gs → Distinct beats gs
unfolding beats
Distinct-groups [] h = tt
Distinct-groups (g ∷ gs) h = (
  All-imp (λ (k : Group). g.got_uid ≢ k.got_uid)
      (λ k ne. elim (str_ltb_total g.got_uid k.got_uid ne) [
        | inl e ↦ elim (Bool-cases (ltb g.newest k.newest)) [
          | inl e' ↦ inr (ground arith)
          | inr e' ↦ inl (ground arith)
        ]
        | inr e ↦ elim (Bool-cases (ltb k.newest g.newest)) [
          | inl e' ↦ inl (ground arith)
          | inr e' ↦ inr (ground arith)
        ]
      ])
      gs h.0,
  Distinct-groups gs h.1,
)

-- The pods that currentReplicaSetPods returns do not depend on the order in which Go's range visits
-- the map of groups: any order of the groups gives the same pods.
pub current_replica_set_pods_of_perm :
    (pods : List Pod) (visited : List Group)
    → Permᴰ (group_pods [] pods) visited
    → pods_of (pick_winner none visited) ≡ current_replica_set_pods pods
unfolding current_replica_set_pods
current_replica_set_pods_of_perm pods visited d = ap pods_of (
    sym (
      pick_winner_of_perm none d
        (Distinct-groups (group_pods [] pods) (DistinctBy-group_pods [] pods tt))))

-- The winner of a list of groups is one of them, and none of them beats it.
beats_irrefl : (g : Group) → beats g g ≡ false
beats_irrefl g = elim (Bool-cases (beats g g)) [
  | inl e ↦ beats-IsStrictOrder.asym g g e
  | inr e ↦ e
]

not_beaten : (g v w : Group) → beats g v ≡ false → beats v w ≡ false → beats g w ≡ false
not_beaten g v w h h' = elim (Bool-cases (beats g w)) [
  | inr e ↦ e
  | inl e ↦ elim (beats-IsStrictOrder.cotrans g v w e) [
    | inl e' ↦ absurd (cc (e', h))
    | inr e' ↦ absurd (cc (e', h'))
  ]
]

unbeaten :
    (v : Group) (gs : List Group)
    → (w : Group) × (pick_winner (some v) gs ≡ some w)
      × ((w ≡ v) ⊎ Memᴰ w gs)
      × (beats v w ≡ false)
      × All (λ g. beats g w ≡ false) gs
unfolding pick_winner
unbeaten v [] = (v, refl, inl refl, beats_irrefl v, tt)
unbeaten v (g ∷ gs) = elim (Bool-cases (beats g v)) [
  | inl e ↦
      let (w, is, mem, le, rest) = unbeaten g gs in
      (
        w,
        rw e is,
        inr (elim mem [ inl e' ↦ Memᴰ.head e' | inr m ↦ Memᴰ.tail m ]),
        ground (arith, beats-IsStrictOrder.trans g v w, e, le),
        (le, rest),
      )
  | inr e ↦
      let (w, is, mem, le, rest) = unbeaten v gs in
      (
        w,
        rw e is,
        elim mem [ inl e' ↦ inl e' | inr m ↦ inr (Memᴰ.tail m) ],
        le,
        (not_beaten g v w e le, rest),
      )
]

best_of :
    (gs : List Group)
    → (gs ≡ [])
      ⊎ ((w : Group) × (pick_winner none gs ≡ some w) × Memᴰ w gs × All (λ g. beats g w ≡ false) gs)
unfolding pick_winner
best_of [] = inl refl
best_of (g ∷ gs) =
    let (w, is, mem, le, rest) = unbeaten g gs in
    inr (w, is, elim mem [ inl e ↦ Memᴰ.head e | inr m ↦ Memᴰ.tail m ], (le, rest))

-- The group of a ReplicaSet has the time of the newest of the pods that are filed under it.
newest-group :
    (pods : List Pod) (g : Group)
    → Memᴰ g (group_pods [] pods)
    → (g.pods ≡ select (is_filed_under g.got_uid) pods)
      × (g.newest ≡ newest_of (select (is_filed_under g.got_uid) pods))
newest-group pods g mem =
    let gs = group_pods [] pods in
    let own =
      All-Memᴰ (λ k. pods_under k.got_uid gs ≡ k.pods) gs
        (own_of_distinct gs (DistinctBy-group_pods [] pods tt)) mem in
    let all_of = sym own ∙ pods_under-group_pods g.got_uid [] pods in
    let newest =
      All-Memᴰ (λ k. k.newest ≡ newest_of k.pods) gs (newest-group_pods [] pods tt) mem in
    (all_of, newest ∙ ap newest_of all_of)

-- The pods of the ReplicaSet come after those of the other one: the newest of the other's is later, or
-- both times are the same and the other has the smaller UID.
abbrev pub is_behind : List Pod → String → String → Bool
is_behind pods uid other =
    let ours = newest_of (select (is_filed_under uid) pods) in
    let theirs = newest_of (select (is_filed_under other) pods) in
    ltb ours theirs || nat_eq theirs ours && str_ltb other uid

not_behind :
    (pods : List Pod) (w g : Group)
    → w.newest ≡ newest_of (select (is_filed_under w.got_uid) pods)
    → g.newest ≡ newest_of (select (is_filed_under g.got_uid) pods)
    → beats g w ≡ false
    → is_behind pods w.got_uid g.got_uid ≡ false
unfolding beats
not_behind pods w g e e' h = rw (sym e, sym e') h

-- Where some pod that is not being deleted has a ReplicaSet, currentReplicaSetPods returns, in their
-- order, all pods of one ReplicaSet that are not being deleted, and there is one. For every pod that is
-- not being deleted and has a ReplicaSet, the newest of the pods of that ReplicaSet that are not being
-- deleted is not later than the newest of those that are returned, and with the same time its UID is
-- not smaller.
pub current_replica_set_pods-newest :
    (pods : List Pod)
    → any (λ p. is_some (filed_under p)) pods ≡ true
    → (uid : String) × (current_replica_set_pods pods ≡ select (is_filed_under uid) pods)
      × (is_empty (current_replica_set_pods pods) ≡ false)
      × ((p : Pod) (other : String)
          → Memᴰ p pods
          → filed_under p ≡ some other
          → is_behind pods uid other ≡ false)
unfolding current_replica_set_pods beats
current_replica_set_pods-newest pods some_filed = elim (best_of (group_pods [] pods)) [
  | inl e ↦ absurd (ground (arith, nothing_filed [] pods, ap is_empty e))
  | inr (w, is, mem, best) ↦
      let gs = group_pods [] pods in
      let winner : pods_of (pick_winner none gs) ≡ w.pods = ap pods_of is in
      let (own, newest) = newest-group pods w mem in
      (
        w.got_uid,
        winner ∙ own,
        ap is_empty winner
            ∙ All-Memᴰ (λ g. is_empty g.pods ≡ false) gs (filled-group_pods [] pods tt) mem,
        λ p other in_pods filed.
            let (g, g_mem, same) = group_of_filed other p pods in_pods filed in
            let (_, g_newest) = newest-group pods g g_mem in
            subst (λ u. is_behind pods w.got_uid u ≡ false) same
              (not_behind pods w g newest g_newest
                (All-Memᴰ (λ k. beats k w ≡ false) gs best g_mem)),
      )
]
