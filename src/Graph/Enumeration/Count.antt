-- ===== src/Graph/Enumeration/Count.antt =====
-- How many graphs iter_execution_graphs (src/umcm/graph/builder.py) yields, and their numbers.
use com_mcm.Prelude.{
  ◌≡◌, refl, sym, ap, ◌∙◌, String, Bool, true, List, [], ◌∷◌, ◌++◌, ℕ, suc, ◌+◌, ◌*◌, map, length,
  length-append, length-map, sorted, insert_sorted, text_leb, arith, flat_map, Bool-cases, inl, inr,
  subst,
}
use com_mcm.Prelude.Int.{ℤ, pos, leb_ℤ}
use com_mcm.Errors.{ok, graph_error, guard, guard-eq-ok, >>=-eq-ok, ok-injective}
use com_mcm.Ir.Sort.{Value}
use com_mcm.Ir.Trace.{Trace}
use com_mcm.Graph.Relation.{Relation}
use mathlib.Core.Path.{ap₂}
use com_mcm.Graph.Execution.{ExecutionGraph, make_graph, graph_is_valid, ids}
use com_mcm.Graph.Model.{GraphModelSpec}
use com_mcm.Graph.Hints.{CoHintEvidence}
use com_mcm.Graph.Builder.{po_relation}
use com_mcm.Graph.Candidates.{
  CandidateSpace, product_of_lengths, estimated_candidates, build_candidate_space,
}
use com_mcm.Graph.Enumeration.{
  base_relations, add_derived, complete, numbered_graph, graph_metadata, product, candidate_graph,
  order_loop, source_loop, items_by, iter_graphs, iter_execution_graphs, zip,
}

module _ {ℓ ℓ'} {A : Type ℓ} {B : Type ℓ'} where
  length-flat_map :
      (f : A → List B) (n : ℕ)
      → ((x : A) → length (f x) ≡ n)
      → (xs : List A) → length (flat_map f xs) ≡ length xs * n
  unfolding flat_map
  length-flat_map f n h [] = ground arith
  length-flat_map f n h (x ∷ xs) =
      omega (arith, length-append (f x) (flat_map f xs), h x, length-flat_map f n h xs)

length-product :
    {A : Type 0} {K : Type 0} (items : List (K × List A))
    → length (product (map (λ item. item.1) items)) ≡ product_of_lengths items
unfolding product
length-product [] = refl
length-product ((k, choices) ∷ rest) =
    length-flat_map _ (length (product (map (λ item. item.1) rest))) (λ x. length-map _ _) choices
    ∙ ap (λ n. length choices * n) (length-product rest)

product-insert_sorted :
    {A : Type 0} {K : Type 0} (le : K × List A → K × List A → Bool) (x : K × List A)
    (items : List (K × List A))
    → product_of_lengths (insert_sorted le x items) ≡ length x.1 * product_of_lengths items
unfolding insert_sorted
product-insert_sorted le x [] = refl
product-insert_sorted le x (y ∷ items) = elim (Bool-cases (le x y)) [
  | inl t ↦ rw t refl
  | inr f ↦ rw f (omega (arith, ap (λ n. length y.1 * n) (product-insert_sorted le x items)))
]

product-items_by :
    {A : Type 0} {K : Type 0} (repr : K → String) (items : List (K × List A))
    → product_of_lengths (items_by repr items) ≡ product_of_lengths items
unfolding items_by sorted
product-items_by repr [] = refl
product-items_by repr (x ∷ items) =
    product-insert_sorted (λ a b. text_leb (repr a.0) (repr b.0)) x
      (sorted (λ a b. text_leb (repr a.0) (repr b.0)) items)
    ∙ ap (λ n. length x.1 * n) (product-items_by repr items)

-- The graphs are numbered from a number on.
abbrev pub NumberedFrom : ℕ → List ExecutionGraph → Type 0
NumberedFrom c [] = Unit
NumberedFrom c (g ∷ graphs) = (g.candidate_id ≡ pos c) × NumberedFrom (suc c) graphs

NumberedFrom-append :
    (c : ℕ) (xs ys : List ExecutionGraph)
    → NumberedFrom c xs
    → NumberedFrom (c + length xs) ys
    → NumberedFrom c (xs ++ ys)
NumberedFrom-append c [] ys p q = subst (λ n. NumberedFrom n ys) (omega arith) q
NumberedFrom-append c (x ∷ xs) ys p q =
    (p.0, NumberedFrom-append (suc c) xs ys p.1 (subst (λ n. NumberedFrom n ys) (omega arith) q))

made : (g h : ExecutionGraph) → make_graph g ≡ ok h → g ≡ h
unfolding make_graph
made g h e =
    let (u, p, q) = >>=-eq-ok (guard (graph_is_valid g) graph_error) (λ u. ok g) e in ok-injective q

module _ (spec : GraphModelSpec) (space : CandidateSpace) (po : Relation) where
  candidate_graph-id :
      (c : ℕ) (sources : List (String × String)) (orders : List (List String)) (g : ExecutionGraph)
      → candidate_graph spec space po c sources orders ≡ ok g
      → g.candidate_id ≡ pos c
  unfolding candidate_graph
  candidate_graph-id c sources orders g h =
      let (relations, p₁, h₁) =
        >>=-eq-ok (base_relations space spec.ppo_rules po sources orders) _ h in
      let (graph, p₂, h₂) =
        >>=-eq-ok (make_graph (numbered_graph space c (graph_metadata spec.model) relations)) _
          h₁ in
      let (completed, p₃, h₃) = >>=-eq-ok (complete spec.builtin_model graph) _ h₂ in
      let (derived, p₄, h₄) =
        >>=-eq-ok (add_derived spec.derived_relations (ids space.operations) completed.relations) _
          h₃ in
      sym (ap (λ z. z.candidate_id) (made (numbered_graph space c completed.metadata derived) g h₄))

  -- A loop that numbers its graphs from `c` on yields `n` graphs.
  abbrev Yields : ℕ → ℕ → List ExecutionGraph → Type 0
  Yields n c graphs = (length graphs ≡ n) × NumberedFrom c graphs

  order_loop-Yields :
      (c : ℕ) (sources : List (String × String)) (orders : List (List (List String)))
      (graphs : List ExecutionGraph)
      → order_loop spec space po c sources orders ≡ ok graphs
      → Yields (length orders) c graphs
  unfolding order_loop
  order_loop-Yields c sources [] graphs h = subst (Yields 0 c) (ok-injective h) (refl, tt)
  order_loop-Yields c sources (o ∷ orders) graphs h =
      let (g, p, h₁) = >>=-eq-ok (candidate_graph spec space po c sources o) _ h in
      let (gs, q, h₂) = >>=-eq-ok (order_loop spec space po (suc c) sources orders) _ h₁ in
      let (l, n) = order_loop-Yields (suc c) sources orders gs q in
      subst (Yields (suc (length orders)) c) (ok-injective h₂)
        (ap suc l, (candidate_graph-id c sources o g p, n))

  source_loop-Yields :
      (c : ℕ) (read_ids : List String) (choices : List (List String))
      (orders : List (List (List String))) (graphs : List ExecutionGraph)
      → source_loop spec space po c read_ids choices orders ≡ ok graphs
      → Yields (length choices * length orders) c graphs
  unfolding source_loop
  source_loop-Yields c read_ids [] orders graphs h =
      subst (Yields (0 * length orders) c) (ok-injective h) (omega arith, tt)
  source_loop-Yields c read_ids (writes ∷ rest) orders graphs h =
      let (gs, p, h₁) = >>=-eq-ok (order_loop spec space po c (zip read_ids writes) orders) _ h in
      let (os, q, h₂) =
        >>=-eq-ok (source_loop spec space po (c + length orders) read_ids rest orders) _ h₁ in
      let (l, n) = order_loop-Yields c (zip read_ids writes) orders gs p in
      let (k, m) = source_loop-Yields (c + length orders) read_ids rest orders os q in
      subst (Yields (suc (length rest) * length orders) c) (ok-injective h₂) (
        omega (arith, length-append gs os, l, k),
        NumberedFrom-append c gs os n (subst (λ z. NumberedFrom (c + z) os) (sym l) m),
      )

iter_graphs-Yields :
    (repr : Value → String) (spec : GraphModelSpec) (space : CandidateSpace)
    (graphs : List ExecutionGraph)
    → iter_graphs repr spec space ≡ ok graphs
    → (length graphs ≡ estimated_candidates space) × NumberedFrom 0 graphs
unfolding iter_graphs estimated_candidates
iter_graphs-Yields repr spec space graphs h =
    let choices = items_by (λ id. id) space.rf_choices in
    let orders = items_by repr space.co_orders in
    let (po, p, h₁) = >>=-eq-ok (po_relation space.operations) _ h in
    let (l, n) =
      source_loop-Yields spec space po 0 (map (λ item. item.0) choices)
        (product (map (λ item. item.1) choices)) (product (map (λ item. item.1) orders)) graphs
        h₁ in
    (
      l
          ∙ ap₂ ◌*◌ (length-product choices ∙ product-items_by (λ id. id) space.rf_choices)
              (length-product orders ∙ product-items_by repr space.co_orders),
      n,
    )

-- If iter_execution_graphs raises nothing, it yields as many graphs as the estimate of the candidate
-- space says, which are at most max_candidates, and their ids count up from 0.
pub iter_execution_graphs_lem :
    (repr : Value → String) (repr_hint : CoHintEvidence → String) (trace : Trace)
    (spec : GraphModelSpec) (max_candidates : ℤ) (graphs : List ExecutionGraph)
    → iter_execution_graphs repr repr_hint trace spec max_candidates ≡ ok graphs
    → (leb_ℤ (pos (length graphs)) max_candidates ≡ true)
      × NumberedFrom 0 graphs
      × (space : CandidateSpace) × (build_candidate_space repr_hint trace spec ≡ ok space)
      × (length graphs ≡ estimated_candidates space)
unfolding iter_execution_graphs
iter_execution_graphs_lem repr repr_hint trace spec max graphs h =
    let (u, p, h₁) = >>=-eq-ok (guard (leb_ℤ (pos 1) max) graph_error) _ h in
    let (space, q, h₂) = >>=-eq-ok (build_candidate_space repr_hint trace spec) _ h₁ in
    let (w, r, h₃) =
      >>=-eq-ok (guard (leb_ℤ (pos (estimated_candidates space)) max) graph_error) _ h₂ in
    let (l, n) = iter_graphs-Yields repr spec space graphs h₃ in
    (subst (λ m. leb_ℤ (pos m) max ≡ true) (sym l) (guard-eq-ok _ graph_error r), n, space, q, l)
