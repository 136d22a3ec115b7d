-- ===== src/Graph/Rvwmo/Order/Round.antt =====
-- One round of the loop keeps its invariant (_topological_total_order, src/umcm/graph/rvwmo.py).
use com_mcm.Prelude.{
  ◌≡◌, ◌≢◌, refl, sym, ◌∙◌, ap, subst, ◌⊎◌, inl, inr, String, List, [], ◌∷◌, ◌++◌, Memᴰ, has, arith,
  text_eq_instance, pair_eq, Bool-cases, NoDup, NoDup-concat, has_iff, not-Memᴰ, has-eq-false,
}
use mathlib.Core.List.Memᴰ
use com_mcm.Graph.Relation.{Edge}
use com_mcm.Graph.Rvwmo.Complete.{Sorting, release_targets, successor_set}
use com_mcm.Graph.Rvwmo.Order.{
  Memᴰ-successor_set, successor_set-NoDup, Released, release_targets-Released,
}
use com_mcm.Graph.Rvwmo.Order.Loop.{
  pending, pending-concat, pending-eq-zero, Respects, Respects-concat, Inv, Inv-closed,
}

-- The node leaves the ready list for the order.
abbrev pub taken : Sorting → String → List String → Sorting
taken s node rest = record { indegree = s.indegree; ready = rest; order = s.order ++ (node ∷ []) }

module _ (edges : List Edge) (once : NoDup edges) (nodes : List String)
    (targets : (u x : String) → Memᴰ (u, x) edges → Memᴰ x nodes) (s : Sorting) (node : String)
    (rest : List String) (i : Inv edges nodes s) (r : s.ready ≡ node ∷ rest) where
  was_ready : Memᴰ node nodes × ¬ Memᴰ node s.order × (s.indegree node ≡ 0)
  was_ready = (i.ready_iff node).0 (subst (λ z. Memᴰ node z) (sym r) (Memᴰ.head refl))

  rest_once : NoDup (node ∷ rest)
  rest_once = subst NoDup r i.ready_once

  of_rest : (x : String) → Memᴰ x rest → Memᴰ x nodes × ¬ Memᴰ x s.order × (s.indegree x ≡ 0)
  of_rest x m = (i.ready_iff x).0 (subst (λ z. Memᴰ x z) (sym r) (Memᴰ.tail m))

  -- A target of the node has an open edge.
  open_target : (x : String) → Memᴰ (node, x) edges → s.indegree x ≢ 0
  open_target x m z = was_ready.1 (pending-eq-zero edges s.order x node (sym (i.degrees x) ∙ z) m)

  released :
      Released
        (successor_set edges node)
        (taken s node rest)
        (release_targets (successor_set edges node) (taken s node rest))
  released =
      release_targets-Released (successor_set edges node) (taken s node rest)
        (successor_set-NoDup edges node) rest_once.1
        (λ x m k. open_target x ((Memᴰ-successor_set edges node x).0 m) (of_rest x k).2)

  after : Sorting
  after = release_targets (successor_set edges node) (taken s node rest)

  in_order : (x : String) → Memᴰ x (s.order ++ (node ∷ [])) → Memᴰ x s.order ⊎ (x ≡ node)
  in_order x m = elim (Memᴰ.append_cases s.order m) [
    | inl k ↦ inl k
    | inr k ↦ elim (Memᴰ.cases_cons k) [ inl same ↦ inr same | inr l ↦ absurd (Memᴰ.not-nil l) ]
  ]

  has_target : (x : String) → has x (successor_set edges node) ≡ has (node, x) edges
  has_target x = elim (Bool-cases (has (node, x) edges)) [
    | inl y ↦ rw y (
        (has_iff x (successor_set edges node)).1
          ((Memᴰ-successor_set edges node x).1 ((has_iff (node, x) edges).0 y)))
    | inr n ↦ rw n (
        has-eq-false x (successor_set edges node)
          (λ m. not-Memᴰ (node, x) edges n ((Memᴰ-successor_set edges node x).0 m)))
  ]

  degrees_after : (x : String) → after.indegree x ≡ pending edges (s.order ++ (node ∷ [])) x
  unfolding after
  degrees_after x =
      released.indegree x
      ∙ rw (has_target x)
          (ground (arith, i.degrees x, pending-concat edges s.order node x once was_ready.1))

  unready : (x : String) → Memᴰ (node, x) edges → ¬ Memᴰ x (s.order ++ (node ∷ []))
  unready x m k = elim (in_order x k) [
    | inl l ↦ was_ready.1 (Inv-closed edges nodes s i node x l m)
    | inr same ↦ open_target x m (ap s.indegree same ∙ was_ready.2)
  ]

  to_ready :
      (x : String)
      → Memᴰ x after.ready
      → Memᴰ x nodes × ¬ Memᴰ x (s.order ++ (node ∷ [])) × (after.indegree x ≡ 0)
  unfolding after
  to_ready x m = elim ((released.ready x).0 m) [
    | inl k ↦
        let (a, b, c) = of_rest x k in
        (
          a,
          λ l. elim (in_order x l) [
            | inl w ↦ b w
            | inr same ↦ rest_once.0 (Memᴰ.cast (sym same) k)
          ],
          ground (arith, released.indegree x, c),
        )
    | inr k ↦
        let e = (Memᴰ-successor_set edges node x).0 k.0 in
        (
          targets node x e,
          unready x e,
          ground (arith, released.indegree x, (has_iff x (successor_set edges node)).1 k.0, k.1),
        )
  ]

  from_ready :
      (x : String)
      → Memᴰ x nodes × ¬ Memᴰ x (s.order ++ (node ∷ [])) × (after.indegree x ≡ 0)
      → Memᴰ x after.ready
  unfolding after
  from_ready x (a, b, c) = elim (Bool-cases (has x (successor_set edges node))) [
    | inl y ↦ (released.ready x).1 (
        inr ((has_iff x (successor_set edges node)).0 y, ground (arith, released.indegree x, y, c)))
    | inr n ↦ (released.ready x).1 (
        inl
          (elim (Memᴰ.cases_cons (
            subst (λ z. Memᴰ x z) r
              ((i.ready_iff x).1 (
                a,
                (λ m. b (Memᴰ.append_left (node ∷ []) m)),
                ground (arith, released.indegree x, n, c),
              )))) [
                | inl same ↦ absurd (b (Memᴰ.append_right s.order (Memᴰ.head same)))
                | inr k ↦ k
              ]))
  ]

  -- The invariant after the round.
  pub round-Inv : Inv edges nodes (release_targets (successor_set edges node) (taken s node rest))
  unfolding after
  round-Inv = record {
    degrees = λ x. degrees_after x ∙ ap (λ z. pending edges z x) (sym released.order);
    ready_iff = λ x. (
      λ m.
          let (a, b, c) = to_ready x m in (a, (λ k. b (subst (λ z. Memᴰ x z) released.order k)), c),
      λ (a, b, c). from_ready x (a, (λ k. b (subst (λ z. Memᴰ x z) (sym released.order) k)), c),
    );
    ready_once = released.ready_once;
    order_once =
        subst NoDup (sym released.order) (NoDup-concat s.order node i.order_once was_ready.1);
    inside = λ x m. elim (in_order x (subst (λ z. Memᴰ x z) released.order m)) [
      | inl k ↦ i.inside x k
      | inr same ↦ Memᴰ.cast same was_ready.0
    ];
    respects = subst (Respects edges []) (sym released.order) (
        Respects-concat edges [] s.order node i.respects (λ u m.
          inr (pending-eq-zero edges s.order node u (sym (i.degrees node) ∙ was_ready.2) m)));
  }

  pub round-order :
      (release_targets (successor_set edges node) (taken s node rest)).order
      ≡ s.order ++ (node ∷ [])
  round-order = released.order
