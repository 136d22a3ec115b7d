-- ===== src/Graph/Rvwmo/Order/Total.antt =====
-- What _topological_total_order (src/umcm/graph/rvwmo.py) returns.
use com_mcm.Prelude.{
  ◌≡◌, refl, sym, ap, subst, String, Bool, List, [], ◌∷◌, Memᴰ, Memᴰ-filter, Memᴰ-sorted, filter,
  has, text_leb, length, length-append, ℕ, zero, suc, ◌+◌, ◌≤◌, arith, ◌==◌, text_eq_instance,
  pair_eq, nat_eq, NoDup, filter-NoDup, sorted-NoDup, NoDup_full,
}
use mathlib.Core.List.Memᴰ
use com_mcm.Graph.Relation.{Edge}
use com_mcm.Graph.Rvwmo.Complete.{
  Sorting, release_targets, successor_set, sort_nodes, indegree_of, start_of,
}
use com_mcm.Graph.Rvwmo.Order.Loop.{pending, Inv}
use com_mcm.Graph.Rvwmo.Order.Round.{taken, round-Inv, round-order}

pending-start : (es : List Edge) (x : String) → indegree_of es x ≡ pending es [] x
unfolding pending filter has
pending-start [] x = refl
pending-start (e ∷ es) x = ground (arith, pending-start es x)

-- The end of the loop.
pub record Ended (edges : List Edge) (nodes : List String) (rounds : ℕ) (s : Sorting) : Type 0 where
  pub last : Sorting
  pub inv : Inv edges nodes last
  pub finished : last.ready ≡ []
  pub result : sort_nodes edges rounds s ≡ last.order
  pub enough : (more : ℕ) → sort_nodes edges (rounds + more) s ≡ last.order

module _ (edges : List Edge) (once : NoDup edges) (nodes : List String) (nodes_once : NoDup nodes)
    (targets : (u x : String) → Memᴰ (u, x) edges → Memᴰ x nodes) where
  pub start-Inv : Inv edges nodes (start_of nodes edges)
  start-Inv = record {
    degrees = pending-start edges;
    ready_iff = λ x. (
      λ m.
          let (a, b) =
            (Memᴰ-filter zero_degree x nodes).0
              ((Memᴰ-sorted text_leb x (filter zero_degree nodes)).0 m) in
          (a, Memᴰ.not-nil, (nat_eq.beq_iff (indegree_of edges x) 0).0 b),
      λ (a, b, c).
          (Memᴰ-sorted text_leb x (filter zero_degree nodes)).1
            ((Memᴰ-filter zero_degree x nodes).1 (a, (nat_eq.beq_iff (indegree_of edges x) 0).1 c)),
    );
    ready_once = sorted-NoDup text_leb _ (filter-NoDup _ nodes nodes_once);
    order_once = tt;
    inside = λ x m. absurd (Memᴰ.not-nil m);
    respects = tt;
  }
    where
      zero_degree : String → Bool
      zero_degree node = indegree_of edges node == 0

  -- All nodes are in the order: nothing is ready.
  full_ready : (s : Sorting) → Inv edges nodes s → length nodes ≤ length s.order → s.ready ≡ []
  full_ready s i l = go s.ready refl
    where
      go : (ready : List String) → s.ready ≡ ready → s.ready ≡ []
      go [] r = r
      go (x ∷ xs) r =
          let (a, b, c) = (i.ready_iff x).0 (subst (λ z. Memᴰ x z) (sym r) (Memᴰ.head refl)) in
          absurd (b (NoDup_full s.order nodes i.order_once i.inside l x a))

  idle : (rounds : ℕ) (s : Sorting) → s.ready ≡ [] → sort_nodes edges rounds s ≡ s.order
  unfolding sort_nodes
  idle zero s e = refl
  idle (suc rounds) s e = rw e refl

  after_round : Sorting → String → List String → Sorting
  after_round s node rest = release_targets (successor_set edges node) (taken s node rest)

  -- A round, given how the loop ends after it.
  by_ready :
      (rounds : ℕ) (s : Sorting)
      → Inv edges nodes s
      → (ready : List String) → s.ready ≡ ready
      → ((node : String) (rest : List String)
          → s.ready ≡ node ∷ rest
          → Ended edges nodes rounds (after_round s node rest))
      → Ended edges nodes (suc rounds) s
  unfolding sort_nodes after_round
  by_ready rounds s i [] r k = record {
    last = s;
    inv = i;
    finished = r;
    result = idle (suc rounds) s r;
    enough = λ more. idle (suc rounds + more) s r;
  }
  by_ready rounds s i (node ∷ rest) r k =
      let e = k node rest r in
      record {
        last = e.last;
        inv = e.inv;
        finished = e.finished;
        result = rw r e.result;
        enough = λ more.
            subst (λ z. sort_nodes edges z s ≡ e.last.order) {x = suc (rounds + more)} (omega arith)
              (one_more e.last (rounds + more) (e.enough more));
      }
    where
      one_more :
          (last : Sorting) (n : ℕ)
          → sort_nodes edges n (after_round s node rest) ≡ last.order
          → sort_nodes edges (suc n) s ≡ last.order
      one_more last n h = rw r h

  pub sort_nodes-Ended :
      (rounds : ℕ) (s : Sorting)
      → Inv edges nodes s
      → length nodes ≤ rounds + length s.order
      → Ended edges nodes rounds s
  unfolding sort_nodes after_round
  sort_nodes-Ended zero s i l = record {
    last = s;
    inv = i;
    finished = full_ready s i (omega (arith, l));
    result = refl;
    enough = λ more. idle (0 + more) s (full_ready s i (omega (arith, l)));
  }
  sort_nodes-Ended (suc rounds) s i l = by_ready rounds s i s.ready refl (λ node rest r.
      sort_nodes-Ended rounds (after_round s node rest)
        (round-Inv edges once nodes targets s node rest i r)
        (ground (
          arith,
          l,
          ap length (round-order edges once nodes targets s node rest i r),
          length-append s.order (node ∷ []),
        )))

  -- How the loop ends from its start.
  pub start-Ended : Ended edges nodes (length nodes) (start_of nodes edges)
  start-Ended = sort_nodes-Ended (length nodes) (start_of nodes edges) start-Inv (omega arith)
