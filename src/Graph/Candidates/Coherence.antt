-- ===== src/Graph/Candidates/Coherence.antt =====
-- The coherence orders that a candidate space offers (build_candidate_space,
-- src/umcm/graph/builder.py).
use com_mcm.Prelude.{
  ◌≡◌, refl, sym, ap, ◌∙◌, subst, ◌↔◌, inl, inr, String, true, false, List, [], ◌∷◌, filter, Memᴰ,
  Memᴰ-filter, NoDup, length, leb, ltb, ℕ, ◌≤◌, ◌<◌, arith, Bool-cases, not,
}
use mathlib.Core.List.Memᴰ
use com_mcm.Errors.{ok, graph_error, guard, guard-eq-ok, >>=-eq-ok, ok-injective}
use com_mcm.Ir.Sort.{Value}
use com_mcm.Ir.Trace.{Trace}
use com_mcm.Solver.Value.{py_eq}
use com_mcm.Graph.Checker.{is_empty}
use com_mcm.Graph.Execution.{MemoryOperation, is_write}
use com_mcm.Graph.Model.{GraphModelSpec}
use com_mcm.Graph.Hints.{CoHintEvidence, co_hints}
use com_mcm.Graph.Projection.Distinct.{ids_in, ids_in-filter, project_operations-Keyed}
use com_mcm.Graph.Rvwmo.Validate.{Operations, values}
use com_mcm.Graph.Candidates.{
  CandidateSpace, ids_of, is_initial, possible_orders, index_of, follows_hints, hinted_orders,
  check_co_hints, co_order, co_orders, add_writes, build_candidate_space,
}
use com_mcm.Graph.Candidates.Parts.{Built, build-Built, writes_of}
use com_mcm.Graph.Candidates.Groups.{add_writes-Grouped}
use com_mcm.Graph.Candidates.Orders.{IsOrder, possible_orders_iff}

-- The write that a hint puts first stands before the other.
abbrev pub Follows : List String → CoHintEvidence → Type 0
Follows order hint =
    (i : ℕ) × (index_of hint.before_write_id order ≡ ok i)
    × (j : ℕ) × (index_of hint.after_write_id order ≡ ok j)
    × (i < j)

follows_hints-Follows :
    (hints : List CoHintEvidence) (order : List String)
    → follows_hints hints order ≡ ok true
    → (hint : CoHintEvidence) → Memᴰ hint hints
    → Follows order hint
unfolding follows_hints
follows_hints-Follows [] order h hint m = absurd (Memᴰ.not-nil m)
follows_hints-Follows (x ∷ hints) order h hint m =
    let (i, p, h₁) = >>=-eq-ok (index_of x.before_write_id order) _ h in
    let (j, q, h₂) = >>=-eq-ok (index_of x.after_write_id order) _ h₁ in
    elim (Bool-cases (ltb i j)) [
      | inl t ↦ elim (Memᴰ.cases_cons m) [
        | inl e ↦ subst (Follows order) (sym e) (i, p, j, q, ground (arith, t))
        | inr k ↦
            let r : follows_hints hints order ≡ ok true = rw t at h₂ in
            follows_hints-Follows hints order r hint k
      ]
      | inr f ↦ let r : ok false ≡ ok true = rw f at h₂ in absurd cc
    ]

hinted_orders_sound :
    (hints : List CoHintEvidence) (possible orders : List (List String))
    → hinted_orders hints possible ≡ ok orders
    → (order : List String) → Memᴰ order orders
    → Memᴰ order possible × (follows_hints hints order ≡ ok true)
unfolding hinted_orders
hinted_orders_sound hints [] orders h order m =
    absurd (Memᴰ.not-nil (subst (Memᴰ order) (sym (ok-injective h)) m))
hinted_orders_sound hints (o ∷ possible) orders h order m =
    let (keep, p, h₁) = >>=-eq-ok (follows_hints hints o) _ h in
    let (rest, q, h₂) = >>=-eq-ok (hinted_orders hints possible) _ h₁ in
    let later : Memᴰ order rest
        → Memᴰ order (o ∷ possible) × (follows_hints hints order ≡ ok true) =
      λ k. let (a, b) = hinted_orders_sound hints possible rest q order k in (Memᴰ.tail a, b) in
    elim (Bool-cases keep) [
      | inl t ↦
          let e : o ∷ rest ≡ orders = rw t at (ok-injective h₂) in
          elim (Memᴰ.cases_cons (subst (Memᴰ order) (sym e) m)) [
            | inl same ↦ (Memᴰ.head same, ap (follows_hints hints) same ∙ p ∙ ap ok t)
            | inr k ↦ later k
          ]
      | inr f ↦
          let e : rest ≡ orders = rw f at (ok-injective h₂) in later (subst (Memᴰ order) (sym e) m)
    ]

hinted_orders-nil : (possible : List (List String)) → hinted_orders [] possible ≡ ok possible
unfolding hinted_orders follows_hints
hinted_orders-nil [] = refl
hinted_orders-nil (o ∷ possible) = rw (hinted_orders-nil possible) refl

first_order :
    (orders : List (List String))
    → not (is_empty orders) ≡ true
    → (order : List String) × Memᴰ order orders
first_order [] h = cc
first_order (order ∷ orders) h = (order, Memᴰ.head refl)

-- The hints that a candidate space uses for an address.
abbrev hints_at : Value → List CoHintEvidence → List CoHintEvidence
hints_at address hints = filter (λ hint. py_eq hint.address address) hints

-- What the body of the loop over the addresses gives.
record Ordered (operations : Operations) (hints : List CoHintEvidence) (address : Value)
    (ws : List MemoryOperation) (orders : List (List String)) : Type 0 where
  single : length (ids_of is_initial ws) ≤ 1
  chosen : hinted_orders (hints_at address hints) (possible_orders ws) ≡ ok orders
  some_order : (order : List String) × Memᴰ order orders

co_order-Ordered :
    (operations : Operations) (hints : List CoHintEvidence) (address : Value)
    (ws : List MemoryOperation) (orders : List (List String))
    → co_order operations hints address ws ≡ ok orders
    → Ordered operations hints address ws orders
unfolding co_order
co_order-Ordered operations hints address ws orders h =
    let (u, p, h₁) = >>=-eq-ok (guard (leb (length (ids_of is_initial ws)) 1) graph_error) _ h in
    let (v, q, h₂) = >>=-eq-ok (check_co_hints operations address (hints_at address hints)) _ h₁ in
    let (os, r, h₃) =
      >>=-eq-ok (hinted_orders (hints_at address hints) (possible_orders ws)) _ h₂ in
    let (w, s, h₄) = >>=-eq-ok (guard (not (is_empty os)) graph_error) _ h₃ in
    let t = guard-eq-ok _ graph_error p in
    subst (Ordered operations hints address ws) (ok-injective h₄) (record {
      single = ground (arith, t);
      chosen = r;
      some_order = first_order os (guard-eq-ok _ graph_error s);
    })

co_orders-entry :
    (operations : Operations) (hints : List CoHintEvidence)
    (groups : List (Value × List MemoryOperation)) (all_orders : List (Value × List (List String)))
    → co_orders operations hints groups ≡ ok all_orders
    → (a : Value) (ws : List MemoryOperation) → Memᴰ (a, ws) groups
    → (orders : List (List String)) × Memᴰ (a, orders) all_orders
      × Ordered operations hints a ws orders
unfolding co_orders
co_orders-entry operations hints [] all_orders h a ws m = absurd (Memᴰ.not-nil m)
co_orders-entry operations hints ((b, us) ∷ groups) all_orders h a ws m =
    let (orders, p, h₁) = >>=-eq-ok (co_order operations hints b us) _ h in
    let (rest, q, h₂) = >>=-eq-ok (co_orders operations hints groups) _ h₁ in
    let e = ok-injective h₂ in
    elim (Memᴰ.cases_cons m) [
      | inl same ↦ (
        orders,
        subst (Memᴰ (a, orders)) e (Memᴰ.head (ap (λ z. (z.0, orders)) same)),
        subst (λ z. Ordered operations hints z.0 z.1 orders) (sym same)
            (co_order-Ordered operations hints b us orders p),
      )
      | inr k ↦
          let (os, n, o) = co_orders-entry operations hints groups rest q a ws k in
          (os, subst (Memᴰ (a, os)) e (Memᴰ.tail n), o)
    ]

-- The writes to an address.
abbrev pub writes_to : CandidateSpace → Value → List MemoryOperation
writes_to space address = filter (λ w. py_eq address w.address) (writes_of space)

module _ (repr : CoHintEvidence → String) (trace : Trace) (spec : GraphModelSpec)
    (space : CandidateSpace) (built : Built repr trace spec space) where
  writes_to-distinct : (address : Value) → NoDup (ids_in (writes_to space address))
  writes_to-distinct address = ids_in-filter _ _ (
      ids_in-filter is_write _
        (project_operations-Keyed trace spec.projection space.operations built.projected).distinct)

  entry_of :
      (w : MemoryOperation)
      → Memᴰ w (values space.operations)
      → is_write w ≡ true
      → (a : Value) × (py_eq a w.address ≡ true)
        × (orders : List (List String)) × Memᴰ (a, orders) space.co_orders
        × Ordered space.operations built.order_hints a (writes_to space a) orders
  entry_of w m t =
      let g = add_writes-Grouped (writes_of space) in
      let (a, ws, k, e) = g.covers w ((Memᴰ-filter is_write w _).1 (m, t)) in
      let (orders, n, o) =
        co_orders-entry space.operations built.order_hints (add_writes (writes_of space) [])
          space.co_orders built.grouped a ws k in
      (
        a,
        e,
        orders,
        n,
        subst (λ z. Ordered space.operations built.order_hints a z orders) (g.members a ws k) o,
      )

-- Where a candidate space is built, the address of every write has orders to choose from: each
-- lists the initial write to the address, if there is one, then the plain writes to it, each once,
-- and no other operation, and it agrees with every co hint for the address.
pub build_candidate_space-IsOrder :
    (repr : CoHintEvidence → String) (trace : Trace) (spec : GraphModelSpec)
    (space : CandidateSpace)
    → build_candidate_space repr trace spec ≡ ok space
    → (w : MemoryOperation) → Memᴰ w (values space.operations)
    → is_write w ≡ true
    → (hints : List CoHintEvidence) × (co_hints repr trace spec.projection.co_hints ≡ ok hints)
      × (a : Value) × (py_eq a w.address ≡ true)
      × (orders : List (List String)) × Memᴰ (a, orders) space.co_orders
      × ((order : List String) × Memᴰ order orders)
      × ((order : List String)
          → Memᴰ order orders
          → IsOrder (writes_to space a) order
            × ((hint : CoHintEvidence)
                → Memᴰ hint hints
                → py_eq hint.address a ≡ true
                → Follows order hint))
build_candidate_space-IsOrder repr trace spec space h w m t =
    let b = build-Built repr trace spec space h in
    let (a, e, orders, n, o) = entry_of repr trace spec space b w m t in
    (
      b.order_hints,
      b.ordered,
      a,
      e,
      orders,
      n,
      o.some_order,
      λ order k.
          let (p, f) = hinted_orders_sound (hints_at a b.order_hints) _ orders o.chosen order k in
          (
            (possible_orders_iff (writes_to space a) (writes_to-distinct repr trace spec space b a)
                  o.single order).0
                p,
            λ hint l q.
                follows_hints-Follows (hints_at a b.order_hints) order f hint
                  ((Memᴰ-filter _ hint b.order_hints).1 (l, q)),
          ),
    )

no_hints-nil :
    (repr : CoHintEvidence → String) (trace : Trace) (hints : List CoHintEvidence)
    → co_hints repr trace [] ≡ ok hints
    → hints ≡ []
unfolding co_hints
no_hints-nil repr trace hints h = sym (ok-injective h)

-- Where a candidate space is built and the model has no co hints, the orders of the address of a
-- write are the orders of the initial write to it, if there is one, followed by the plain writes to
-- it, each once, and no other orders.
pub build_candidate_space-all_orders :
    (repr : CoHintEvidence → String) (trace : Trace) (spec : GraphModelSpec)
    (space : CandidateSpace)
    → spec.projection.co_hints ≡ []
    → build_candidate_space repr trace spec ≡ ok space
    → (w : MemoryOperation) → Memᴰ w (values space.operations)
    → is_write w ≡ true
    → (a : Value) × (py_eq a w.address ≡ true)
      × (orders : List (List String)) × Memᴰ (a, orders) space.co_orders
      × ((order : List String) → Memᴰ order orders ↔ IsOrder (writes_to space a) order)
unfolding filter
build_candidate_space-all_orders repr trace spec space no_hints h w m t =
    let b = build-Built repr trace spec space h in
    let (a, e, orders, n, o) = entry_of repr trace spec space b w m t in
    let none_hinted =
      no_hints-nil repr trace b.order_hints (ap (co_hints repr trace) (sym no_hints) ∙ b.ordered) in
    let c : hinted_orders [] (possible_orders (writes_to space a)) ≡ ok orders =
      subst (λ z. hinted_orders (hints_at a z) (possible_orders (writes_to space a)) ≡ ok orders)
        none_hinted o.chosen in
    let same = ok-injective (sym (hinted_orders-nil (possible_orders (writes_to space a))) ∙ c) in
    (
      a,
      e,
      orders,
      n,
      λ order.
          subst (λ z. Memᴰ order z ↔ IsOrder (writes_to space a) order) same
            (possible_orders_iff (writes_to space a) (writes_to-distinct repr trace spec space b a)
              o.single order),
    )
