-- ===== src/Graph/Rvwmo/Order/Verdict.antt =====
-- A total order is found exactly if there is no cycle (_topological_total_order,
-- src/umcm/graph/rvwmo.py).
use com_mcm.Prelude.{
  none-some, some-injective, ◌≡◌, refl, sym, ◌∙◌, ap, subst, ◌↔◌, ◌⊎◌, inl, inr, String, Bool, true,
  Option, none, some, List, [], ◌∷◌, Memᴰ, Memᴰ-to_set, has, all, all_iff, filter, Memᴰ-filter,
  filter-NoDup, to_set, length, ℕ, ◌+◌, arith, if◌then◌else◌, ◌==◌, text_eq_instance, pair_eq,
  nat_eq, Bool-cases, NoDup, to_set-NoDup, length-NoDup_le, NoDup_full, has_iff, not-Memᴰ,
}
use mathlib.Core.List.Memᴰ
use com_mcm.Errors.{ok-injective, ok, guard, guard-eq-ok, key_error, ◌>>◌, >>=-eq-ok}
use com_mcm.Graph.Relation.{Edge, Relation}
use com_mcm.Graph.Relation.Closure.{Chain, edge, further}
use com_mcm.Graph.Cycle.{all_edges, nodes}
use com_mcm.Graph.Cycle.Invariant.{Finishing}
use com_mcm.Graph.Cycle.Step.{Memᴰ-nodes}
use com_mcm.Graph.Cycle.Verdict.{acyclic-Finishing}
use com_mcm.Graph.Rvwmo.Complete.{sort_nodes, start_of, edge_set, topological_total_order}
use com_mcm.Graph.Rvwmo.Order.Loop.{pending-open, Respects}
use com_mcm.Graph.Rvwmo.Order.Total.{Ended, start-Ended}
use com_mcm.Graph.Rvwmo.Order.Acyclic.{
  Respects-acyclic, Finishing-to_set, Finishing-filter, none_missing,
}

-- Both ends of every edge are listed.
abbrev pub AreEndsListed : List String → List Relation → Type 0
AreEndsListed node_ids relations =
    (u x : String) → Memᴰ (u, x) (all_edges relations) → Memᴰ u node_ids × Memᴰ x node_ids

module _ (node_ids : List String) (relations : List Relation) where
  abbrev sorted_order : List String
  sorted_order =
      sort_nodes (edge_set relations) (length (to_set node_ids))
        (start_of (to_set node_ids) (edge_set relations))

  abbrev targets_listed : Bool
  targets_listed = all (λ edge. has edge.1 (to_set node_ids)) (edge_set relations)

  abbrev choice : Bool → Option (List String)
  choice b = if b then some sorted_order else none

  result_of : topological_total_order node_ids relations ≡ (
      guard targets_listed key_error
      >> ok (choice (length sorted_order == length (to_set node_ids))))
  unfolding topological_total_order
  result_of = refl

  listed_targets :
      targets_listed ≡ true
      → (u x : String) → Memᴰ (u, x) (edge_set relations)
      → Memᴰ x (to_set node_ids)
  listed_targets h u x m =
      (has_iff x (to_set node_ids)).0 ((all_iff _ (edge_set relations)).0 h (u, x) m)

  ended :
      targets_listed ≡ true
      → Ended
          (edge_set relations)
          (to_set node_ids)
          (length (to_set node_ids))
          (start_of (to_set node_ids) (edge_set relations))
  ended h =
      start-Ended (edge_set relations) (to_set-NoDup _) (to_set node_ids) (to_set-NoDup node_ids)
        (listed_targets h)

  -- What a returned order is.
  of_some :
      (order : List String)
      → topological_total_order node_ids relations ≡ ok (some order)
      → (targets_listed ≡ true)
        × (length sorted_order ≡ length (to_set node_ids))
        × (sorted_order ≡ order)
  of_some order h =
      let (u, g, q) = >>=-eq-ok (guard targets_listed key_error) _ (sym result_of ∙ h) in
      elim (Bool-cases (length sorted_order == length (to_set node_ids))) [
        | inl y ↦ (
          guard-eq-ok targets_listed key_error g,
          (nat_eq.beq_iff _ _).0 y,
          some-injective (ap choice (sym y) ∙ ok-injective q),
        )
        | inr n ↦ absurd (none-some (ap choice (sym n) ∙ ok-injective q))
      ]

  Memᴰ-edge_set : (e : Edge) → Memᴰ e (edge_set relations) ↔ Memᴰ e (all_edges relations)
  Memᴰ-edge_set e = Memᴰ-to_set e (all_edges relations)

Respects-fewer :
    (es fs : List Edge) (seen xs : List String)
    → ((e : Edge) → Memᴰ e fs → Memᴰ e es)
    → Respects es seen xs
    → Respects fs seen xs
Respects-fewer es fs seen [] s r = tt
Respects-fewer es fs seen (x ∷ xs) s r =
    ((λ u m. r.0 u (s (u, x) m)), Respects-fewer es fs (x ∷ seen) xs s r.1)

-- If _topological_total_order returns an order, this lists each node once and nothing else, and the
-- source of every edge of the relations stands before its target.
pub topological_total_order_lem :
    (node_ids : List String) (relations : List Relation) (order : List String)
    → topological_total_order node_ids relations ≡ ok (some order)
    → NoDup order
      × ((x : String) → Memᴰ x order ↔ Memᴰ x node_ids)
      × Respects (all_edges relations) [] order
topological_total_order_lem node_ids relations order h = (
  subst NoDup whole d.inv.order_once,
  λ x. (to x, from x),
  subst (Respects (all_edges relations) []) whole (
      Respects-fewer (edge_set relations) (all_edges relations) [] d.last.order
        (λ e. (Memᴰ-edge_set node_ids relations e).1) d.inv.respects),
)
  where
    t : (all (λ edge. has edge.1 (to_set node_ids)) (edge_set relations) ≡ true)
    t = (of_some node_ids relations order h).0

    d :
        Ended
          (edge_set relations)
          (to_set node_ids)
          (length (to_set node_ids))
          (start_of (to_set node_ids) (edge_set relations))
    d = ended node_ids relations t

    whole : d.last.order ≡ order
    whole = sym d.result ∙ (of_some node_ids relations order h).2

    to : (x : String) → Memᴰ x order → Memᴰ x node_ids
    to x m = (Memᴰ-to_set x node_ids).0 (d.inv.inside x (subst (λ z. Memᴰ x z) (sym whole) m))

    from : (x : String) → Memᴰ x node_ids → Memᴰ x order
    from x m =
        subst (λ z. Memᴰ x z) whole
          (NoDup_full d.last.order (to_set node_ids) d.inv.order_once d.inv.inside
            (omega (arith, ap length (sym d.result), (of_some node_ids relations order h).1)) x
            ((Memᴰ-to_set x node_ids).1 m))

module _ (node_ids : List String) (relations : List Relation)
    (listed : AreEndsListed node_ids relations) where
  checked : all (λ edge. has edge.1 (to_set node_ids)) (edge_set relations) ≡ true
  checked = (all_iff _ (edge_set relations)).1 (λ (u, x) m.
      (has_iff x (to_set node_ids)).1
        ((Memᴰ-to_set x node_ids).1 (listed u x ((Memᴰ-edge_set node_ids relations (u, x)).0 m)).1))

  abbrev done :
      Ended
        (edge_set relations)
        (to_set node_ids)
        (length (to_set node_ids))
        (start_of (to_set node_ids) (edge_set relations))
  done = ended node_ids relations checked

  -- A node that is missing has an edge from a node that is missing.
  blocked :
      (x : String)
      → Memᴰ x node_ids
      → ¬ Memᴰ x done.last.order
      → (u : String) × Memᴰ (u, x) (all_edges relations) × ¬ Memᴰ u done.last.order
  blocked x m n =
      let (u, e, w) = pending-open (edge_set relations) done.last.order x (λ z. Memᴰ.not-nil (
        subst (λ l. Memᴰ x l) done.finished
          ((done.inv.ready_iff x).1 ((Memᴰ-to_set x node_ids).1 m, n, done.inv.degrees x ∙ z)))) in
      (u, (Memᴰ-edge_set node_ids relations (u, x)).0 e, w)

  all_placed :
      ((a : String) → ¬ Chain (all_edges relations) a a)
      → (x : String) → Memᴰ x node_ids
      → Memᴰ x done.last.order
  all_placed acyclic x m = elim (Bool-cases (has x done.last.order)) [
    | inl t ↦ (has_iff x done.last.order).0 t
    | inr n ↦
        let (u, e, w) = blocked x m (not-Memᴰ x done.last.order n) in
        none_missing (all_edges relations) done.last.order [] candidates candidates_once finishing
          (λ z l. absurd (Memᴰ.not-nil l)) (λ z l. predecessor z (candidate_listed z l)) x
          (candidate x (Memᴰ-nodes relations u x e).1 m)
  ]
    where
      f :
          (order : List String) × Finishing (all_edges relations) order
          × ((z : String) → Memᴰ z (nodes relations) → Memᴰ z order)
      f = acyclic-Finishing relations acyclic

      is_listed : String → Bool
      is_listed z = has z node_ids

      candidates : List String
      candidates = filter is_listed (to_set f.0)

      candidates_once : NoDup candidates
      candidates_once = filter-NoDup is_listed (to_set f.0) (to_set-NoDup f.0)

      finishing : Finishing (all_edges relations) candidates
      finishing =
          Finishing-filter (all_edges relations) is_listed (to_set f.0)
            (λ z v e. (has_iff v node_ids).1 (listed z v e).1)
            (Finishing-to_set (all_edges relations) f.0 f.1)

      candidate : (z : String) → Memᴰ z (nodes relations) → Memᴰ z node_ids → Memᴰ z candidates
      candidate z k l =
          (Memᴰ-filter is_listed z (to_set f.0)).1
            ((Memᴰ-to_set z f.0).1 (f.2 z k), (has_iff z node_ids).1 l)

      candidate_listed : (z : String) → Memᴰ z candidates → Memᴰ z node_ids
      candidate_listed z k = (has_iff z node_ids).0 ((Memᴰ-filter is_listed z (to_set f.0)).0 k).1

      predecessor :
          (z : String)
          → Memᴰ z node_ids
          → ¬ Memᴰ z done.last.order
          → (u : String) × Memᴰ (u, z) (all_edges relations)
            × ¬ Memᴰ u done.last.order
            × (Memᴰ u [] ⊎ Memᴰ u candidates)
      predecessor z k n =
          let (u, e, w) = blocked z k n in
          (u, e, w, inr (candidate u (Memᴰ-nodes relations u z e).0 (listed u z e).0))

  -- An acyclic union has an order.
  order_found :
      ((a : String) → ¬ Chain (all_edges relations) a a)
      → (order : List String) × (topological_total_order node_ids relations ≡ ok (some order))
  order_found acyclic =
      let y =
        (nat_eq.beq_iff (length (sorted_order node_ids relations)) (length (to_set node_ids))).1
          same in
      (sorted_order node_ids relations, result_of node_ids relations ∙ rw (checked, y) refl)
    where
      same : length (sorted_order node_ids relations) ≡ length (to_set node_ids)
      same = omega (
        arith,
        ap length done.result,
        length-NoDup_le done.last.order (to_set node_ids) done.inv.order_once done.inv.inside,
        length-NoDup_le (to_set node_ids) done.last.order (to_set-NoDup node_ids)
            (λ x m. all_placed acyclic x ((Memᴰ-to_set x node_ids).0 m)),
      )

-- If both ends of every edge are listed, _topological_total_order returns an order exactly if the
-- union of the relations is acyclic.
pub topological_total_order_iff :
    (node_ids : List String) (relations : List Relation)
    → AreEndsListed node_ids relations
    → ((order : List String) × (topological_total_order node_ids relations ≡ ok (some order)))
      ↔ ((a : String) → ¬ Chain (all_edges relations) a a)
topological_total_order_iff node_ids relations listed = (to, order_found node_ids relations listed)
  where
    first : (a b : String) → Chain (all_edges relations) a b → Memᴰ a node_ids
    first a b (edge e) = (listed a b e).0
    first a b (further {b = z} d e) = first a z d

    to :
        (order : List String) × (topological_total_order node_ids relations ≡ ok (some order))
        → (a : String) → ¬ Chain (all_edges relations) a a
    to (order, h) a c =
        let (d, m, r) = topological_total_order_lem node_ids relations order h in
        Respects-acyclic (all_edges relations) [] order r (λ u x k. absurd (Memᴰ.not-nil k))
          (λ b k. absurd (Memᴰ.not-nil k)) a (inr ((m a).1 (first a a c))) c

-- Where the targets of the edges are listed, the loop of _topological_total_order ends within as many
-- rounds as there are nodes: more rounds give the same order.
pub sort_nodes_enough :
    (node_ids : List String) (relations : List Relation) (more : ℕ)
    → ((u x : String) → Memᴰ (u, x) (all_edges relations) → Memᴰ x node_ids)
    → sort_nodes
        (edge_set relations)
        (length (to_set node_ids) + more)
        (start_of (to_set node_ids) (edge_set relations))
      ≡ sort_nodes
          (edge_set relations)
          (length (to_set node_ids))
          (start_of (to_set node_ids) (edge_set relations))
sort_nodes_enough node_ids relations more listed = d.enough more ∙ sym d.result
  where
    d :
        Ended
          (edge_set relations)
          (to_set node_ids)
          (length (to_set node_ids))
          (start_of (to_set node_ids) (edge_set relations))
    d =
        start-Ended (edge_set relations) (to_set-NoDup _) (to_set node_ids) (to_set-NoDup node_ids)
          (λ u x m.
            (Memᴰ-to_set x node_ids).1 (listed u x ((Memᴰ-edge_set node_ids relations (u, x)).0 m)))
