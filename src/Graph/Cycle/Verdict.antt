-- ===== src/Graph/Cycle/Verdict.antt =====
-- What find_labeled_cycle (src/umcm/graph/relation.py) returns.
use com_mcm.Prelude.{
  ◌≡◌, refl, sym, ◌∙◌, ◌⊎◌, inl, inr, String, List, [], ◌∷◌, Memᴰ, arith, ◌≢◌, ℕ, ◌≤◌, length,
  subst, flat_map,
}
use mathlib.Core.List.Memᴰ
use native.Mathlib.Nat.{le_trans}
use com_mcm.Graph.Relation.{Edge, Relation}
use com_mcm.Graph.Relation.Closure.{Chain, edge, further}
use com_mcm.Graph.Cycle.{
  LabeledEdge, gray, black, State, Outcome, found, finished, raised, exhausted, all_edges, nodes,
  dfs, search, initial, find_labeled_cycle,
}
use com_mcm.Graph.Cycle.Invariant.{
  FirstHolder, this, later, Trail, IsCycle, Finishing, Finishing-acyclic, Chain-cons, Inv, Keeps,
  Keeps-refl, whites, is_white,
}
use com_mcm.Graph.Cycle.Search.{Ensures, Ensures-bind, After, Color-cases}
use com_mcm.Graph.Cycle.Step.{Memᴰ-nodes, dfs_lem}

whites-le : (s : State) (xs : List String) → whites s xs ≤ length xs
unfolding whites is_white
whites-le s [] = omega arith
whites-le s (x ∷ xs) = ground (arith, whites-le s xs)

FirstHolder-Memᴰ :
    {e : Edge} {name : String} {rs : List Relation} → FirstHolder e name rs → Memᴰ e (all_edges rs)
unfolding flat_map
FirstHolder-Memᴰ (this {rs} m q) = Memᴰ.append_left (all_edges rs) m
FirstHolder-Memᴰ (later {r} n h) = Memᴰ.append_right r.edges (FirstHolder-Memᴰ h)

module _ (relations : List Relation) where
  Trail-Chain :
      (a b : String) (e : LabeledEdge) (es : List LabeledEdge)
      → Trail relations a b (e ∷ es)
      → Chain (all_edges relations) a b
  Trail-Chain a b e [] (p, h, q) = edge (Memᴰ.cast (λ i. (sym p i, sym q i)) (FirstHolder-Memᴰ h))
  Trail-Chain a b e (f ∷ es) (p, h, t) =
      Chain-cons (all_edges relations) (Memᴰ.cast (λ i. (sym p i, e.target)) (FirstHolder-Memᴰ h))
        (Trail-Chain e.target b f es t)

  pub IsCycle-Chain :
      (es : List LabeledEdge)
      → IsCycle relations es
      → (a : String) × Chain (all_edges relations) a a
  IsCycle-Chain [] (n, h) = absurd (n refl)
  IsCycle-Chain (e ∷ es) (n, (a, t)) = (a, Trail-Chain a a e es t)

  -- The nodes before `rest` are black, and no node is on the stack.
  record Between (rest : List String) (s : State) : Type 0 where
    order : List String
    inv : Inv (all_edges relations) s order
    empty : s.stack ≡ []
    no_gray : (x : String) → s.color x ≢ gray
    visited : (x : String) → Memᴰ x (nodes relations) → (s.color x ≡ black) ⊎ Memᴰ x rest

  drop_black :
      (node : String) (rest : List String) (s t : State)
      → Between (node ∷ rest) s
      → (order : List String) → Inv (all_edges relations) t order
      → Keeps s t
      → t.color node ≡ black
      → Between rest t
  drop_black node rest s t b order inv k c = record {
    order = order;
    inv = inv;
    empty = k.stack ∙ b.empty;
    no_gray = λ x h. b.no_gray x (k.no_grays x h);
    visited = λ x m. elim (b.visited x m) [
      | inl h ↦ inl (k.blacks x h)
      | inr l ↦ elim (Memᴰ.cases_cons l) [
        | inl e ↦ inl (subst (λ z. t.color z ≡ black) (sym e) c)
        | inr r ↦ inr r
      ]
    ];
  }

  search_lem :
      (depth : ℕ) (rest : List String) (s : State)
      → length (nodes relations) ≤ depth
      → ((x : String) → Memᴰ x rest → Memᴰ x (nodes relations))
      → Between rest s
      → Ensures relations (Between []) (search relations depth rest s)
  unfolding search
  search_lem depth [] s d sub b = b
  search_lem depth (node ∷ rest) s d sub b = elim (Color-cases relations (s.color node)) [
    | inl c ↦
        rw (c, search)
          (Ensures-bind relations (After relations (λ t. t.color node ≡ black) s) (Between [])
            (dfs relations depth node s) (λ t. search relations depth rest t)
            (dfs_lem relations depth node s b.order b.inv c (inl b.empty)
              (sub node (Memᴰ.head refl)) (le_trans (whites-le s (nodes relations)) d))
            (λ t a.
              search_lem depth rest t d (λ x m. sub x (Memᴰ.tail m))
                (drop_black node rest s t b a.order a.inv a.keeps a.fact)))
    | inr (inl c) ↦ absurd (b.no_gray node c)
    | inr (inr c) ↦
        rw (c, search)
          (search_lem depth rest s d (λ x m. sub x (Memᴰ.tail m))
            (drop_black node rest s s b b.order b.inv (Keeps-refl s) c))
  ]

  start : Between (nodes relations) initial
  start = record {
    order = [];
    inv = record {
      done = λ x. (λ h. cc, λ m. absurd (Memᴰ.not-nil m));
      ordered = tt;
      placed = λ x h. cc;
      linked = tt;
    };
    empty = refl;
    no_gray = λ x h. cc;
    visited = λ x m. inr m;
  }

  ensured : Ensures relations (Between []) (find_labeled_cycle relations)
  unfolding find_labeled_cycle
  ensured =
      search_lem (length (nodes relations)) (nodes relations) initial (omega arith) (λ x m. m) start

  no-Chain : (t : State) → Between [] t → (a : String) → ¬ Chain (all_edges relations) a a
  no-Chain t b a c =
      Finishing-acyclic (all_edges relations) b.order b.inv.ordered a
        ((b.inv.done a).0 (black_node (first c))) c
    where
      first : {z : String} → Chain (all_edges relations) a z → Memᴰ a (nodes relations)
      first (edge {b = y} e) = (Memᴰ-nodes relations a y e).0
      first (further d e) = first d

      black_node : Memᴰ a (nodes relations) → t.color a ≡ black
      black_node m = elim (b.visited a m) [ inl h ↦ h | inr l ↦ absurd (Memᴰ.not-nil l) ]

  Verdict : Outcome → Type 0
  Verdict o =
      ((es : List LabeledEdge) × (o ≡ found es) × IsCycle relations es)
      ⊎ ((t : State) × (o ≡ finished t) × ((a : String) → ¬ Chain (all_edges relations) a a))

  verdict : (o : Outcome) → Ensures relations (Between []) o → Verdict o
  unfolding Verdict
  verdict (found es) h = inl (es, refl, h)
  verdict (finished t) h = inr (t, refl, no-Chain t h)
  verdict (raised e) h = absurd h
  verdict exhausted h = absurd h

-- For every sequence of relations the search ends, raises no KeyError and is not cut off. Either
-- it returns a non-empty closed trail of edges, each labelled by the name of the first relation
-- that holds it, or it finds nothing and no node is reached from itself over the edges.
pub find_labeled_cycle_lem :
    (relations : List Relation)
    → ((es : List LabeledEdge) × (find_labeled_cycle relations ≡ found es) × IsCycle relations es)
      ⊎ ((t : State) × (find_labeled_cycle relations ≡ finished t)
          × ((a : String) → ¬ Chain (all_edges relations) a a))
unfolding Verdict
find_labeled_cycle_lem relations =
    verdict relations (find_labeled_cycle relations) (ensured relations)

-- An order of the nodes in which the targets of the edges of a node stand after it, in an acyclic
-- union.
pub acyclic-Finishing :
    (relations : List Relation)
    → ((a : String) → ¬ Chain (all_edges relations) a a)
    → (order : List String) × Finishing (all_edges relations) order
      × ((x : String) → Memᴰ x (nodes relations) → Memᴰ x order)
acyclic-Finishing relations n = from (find_labeled_cycle relations) (ensured relations)
  where
    from :
        (o : Outcome)
        → Ensures relations (Between relations []) o
        → (order : List String) × Finishing (all_edges relations) order
          × ((x : String) → Memᴰ x (nodes relations) → Memᴰ x order)
    from (found es) c = let (a, k) = IsCycle-Chain relations es c in absurd (n a k)
    from (finished t) b = (
      b.order,
      b.inv.ordered,
      λ x m.
          (b.inv.done x).0 (elim (b.visited x m) [ inl h ↦ h | inr l ↦ absurd (Memᴰ.not-nil l) ]),
    )
    from (raised e) h = absurd h
    from exhausted h = absurd h
