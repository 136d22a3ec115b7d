-- ===== src/Graph/Relation/Closure.antt =====
-- `Relation.transitive_closure` (src/umcm/graph/relation.py): the search of one source marks the
-- nodes that a chain of edges reaches, and the rounds allowed are enough.
use com_mcm.Prelude.{
  ◌≡◌, refl, sym, ap, ◌↔◌, ◌⊎◌, inl, inr, String, true, false, not, Option, some, List, [], ◌∷◌,
  map, Memᴰ, Memᴰ-flat_map, Memᴰ-map, Memᴰ-to_set, Memᴰ-sorted, has_iff, has, filter, to_set, arith,
  text_eq_instance, pair_eq, Bool-cases, ℕ, zero, suc, ◌+◌, ◌≤◌, length, length-append, sorted,
  text_leb, subst,
}
use Prim.Native.String.{◌++◌}
use mathlib.Core.List.{◌++◌ as append}
use mathlib.Core.List.Memᴰ
use mathlib.Core.Option.{some-injective}
use com_mcm.Errors.{Result}
use com_mcm.Graph.Relation.{
  Edge, Relation, edge_is_valid, or_text, from_edges, successors, endpoints, walk, close_sources,
  transitive_closure,
}
use com_mcm.Graph.Relation.Algebra.{
  Returns-map, IsValid, Returns, from_edges_lem, Memᴰ-successors, valid_edge, valid_name,
  truthy-or_text, truthy-append,
}

-- `b` can be reached from `a` by one or more edges.
pub data Chain (edges : List Edge) (a : String) : String → Type 0 where
  edge : {b : String} → Memᴰ (a, b) edges → Chain edges a b
  further : {b c : String} → Chain edges a b → Memᴰ (b, c) edges → Chain edges a c

module _ (edges : List Edge) where
  -- The edges out of nodes that are not marked.
  waiting : List String → List Edge → ℕ
  waiting seen es = length (filter (λ e. not (has e.0 seen)) es)

  waiting-mark :
      (t : String) (seen : List String) (es : List Edge)
      → has t seen ≡ false
      → waiting seen es ≡ waiting (t ∷ seen) es + length (successors es t)
  unfolding waiting filter successors has
  waiting-mark t seen [] h = omega arith
  waiting-mark t seen ((a, b) ∷ es) h =
      ground (arith, waiting-mark t seen es h, text_eq_instance.beq_iff a t, ap (λ x. has x seen))

  waiting-le : (es : List Edge) → waiting [] es ≤ length es
  unfolding waiting filter has
  waiting-le [] = omega arith
  waiting-le (e ∷ es) = omega (arith, waiting-le es)

  module _ (source : String) where
    -- With a round for each element on the stack and each edge not yet pushed the loop ends.
    walk_returns :
        (fuel : ℕ) (stack seen : List String) (closure : List Edge)
        → length stack + waiting seen edges ≤ fuel
        → (r : List String × List Edge) × (walk edges source fuel stack seen closure ≡ some r)
    unfolding walk
    walk_returns zero [] seen closure h = ((seen, closure), refl)
    walk_returns (suc fuel) [] seen closure h = ((seen, closure), refl)
    walk_returns zero (t ∷ stack) seen closure h = absurd (omega arith)
    walk_returns (suc fuel) (t ∷ stack) seen closure h = elim (Bool-cases (has t seen)) [
      | inl old ↦ rw old (walk_returns fuel stack seen closure (omega arith))
      | inr new ↦ rw new (
          walk_returns fuel (append (successors edges t) stack) (t ∷ seen) ((source, t) ∷ closure) (
            omega (arith, length-append (successors edges t) stack, waiting-mark t seen edges new)))
    ]

    -- An invariant of one pop holds when the stack is empty.
    walk_rule {ℓ} :
        (P : List String → List String → List Edge → Type ℓ)
        → ((t : String) (stack seen : List String) (closure : List Edge)
            → has t seen ≡ true
            → P (t ∷ stack) seen closure
            → P stack seen closure)
        → ((t : String) (stack seen : List String) (closure : List Edge)
            → has t seen ≡ false
            → P (t ∷ stack) seen closure
            → P (append (successors edges t) stack) (t ∷ seen) ((source, t) ∷ closure))
        → (fuel : ℕ) (stack seen : List String) (closure : List Edge) (r : List String × List Edge)
        → P stack seen closure
        → walk edges source fuel stack seen closure ≡ some r
        → P [] r.0 r.1
    unfolding walk
    walk_rule P skip visit zero [] seen closure r p h =
        subst (λ (q : List String × List Edge). P [] q.0 q.1) (some-injective _ _ h) p
    walk_rule P skip visit (suc fuel) [] seen closure r p h =
        subst (λ (q : List String × List Edge). P [] q.0 q.1) (some-injective _ _ h) p
    walk_rule P skip visit zero (t ∷ stack) seen closure r p h = cc
    walk_rule P skip visit (suc fuel) (t ∷ stack) seen closure r p h =
        elim (Bool-cases (has t seen)) [
          | inl old ↦
              walk_rule P skip visit fuel stack seen closure r (skip t stack seen closure old p)
                (rw old at h)
          | inr new ↦
              walk_rule P skip visit fuel _ _ _ r (visit t stack seen closure new p) (rw new at h)
        ]

    -- What holds whenever the loop is at its test.
    record Inv (base : List Edge) (stack seen : List String) (closure : List Edge) : Type 0 where
      pushed : (t : String) → Memᴰ t stack → Chain edges source t
      marked : (t : String) → Memᴰ t seen → Chain edges source t
      start : (t : String) → Memᴰ (source, t) edges → Memᴰ t seen ⊎ Memᴰ t stack
      closed : (u v : String) → Memᴰ u seen → Memᴰ (u, v) edges → Memᴰ v seen ⊎ Memᴰ v stack
      collected : closure ≡ append (map (λ t. (source, t)) seen) base

    skip-Inv :
        (base : List Edge) (t : String) (stack seen : List String) (closure : List Edge)
        → has t seen ≡ true
        → Inv base (t ∷ stack) seen closure
        → Inv base stack seen closure
    skip-Inv base t stack seen closure old p = record {
      pushed = λ v m. p.pushed v (Memᴰ.tail m);
      marked = p.marked;
      start = λ v m. drop_head v (p.start v m);
      closed = λ u v m e. drop_head v (p.closed u v m e);
      collected = p.collected;
    }
      where
        drop_head : (v : String) → Memᴰ v seen ⊎ Memᴰ v (t ∷ stack) → Memᴰ v seen ⊎ Memᴰ v stack
        drop_head v (inl m) = inl m
        drop_head v (inr (Memᴰ.head e)) = inl (Memᴰ.cast e ((has_iff t seen).0 old))
        drop_head v (inr (Memᴰ.tail m)) = inr m

    visit-Inv :
        (base : List Edge) (t : String) (stack seen : List String) (closure : List Edge)
        → has t seen ≡ false
        → Inv base (t ∷ stack) seen closure
        → Inv base (append (successors edges t) stack) (t ∷ seen) ((source, t) ∷ closure)
    visit-Inv base t stack seen closure new p = record {
      pushed = λ v m. elim (Memᴰ.append_cases (successors edges t) m) [
        | inl k ↦ further (p.pushed t (Memᴰ.head refl)) ((Memᴰ-successors edges t v).0 k)
        | inr k ↦ p.pushed v (Memᴰ.tail k)
      ];
      marked = λ v m. elim (Memᴰ.cases_cons m) [
        | inl e ↦ p.pushed v (Memᴰ.head e)
        | inr k ↦ p.marked v k
      ];
      start = λ v m. move v (p.start v m);
      closed = λ u v m e. elim (Memᴰ.cases_cons m) [
        | inl q ↦ inr (
            Memᴰ.append_left stack
              ((Memᴰ-successors edges t v).1 (Memᴰ.cast (λ i. (sym q i, v)) e)))
        | inr k ↦ move v (p.closed u v k e)
      ];
      collected = ap (λ (c : List Edge). (source, t) ∷ c) p.collected;
    }
      where
        move :
            (v : String)
            → Memᴰ v seen ⊎ Memᴰ v (t ∷ stack)
            → Memᴰ v (t ∷ seen) ⊎ Memᴰ v (append (successors edges t) stack)
        move v (inl m) = inl (Memᴰ.tail m)
        move v (inr (Memᴰ.head e)) = inl (Memᴰ.head e)
        move v (inr (Memᴰ.tail m)) = inr (Memᴰ.append_right (successors edges t) m)

    -- At the end the marked nodes are the nodes that a chain reaches.
    marked_iff :
        (base : List Edge) (seen : List String) (closure : List Edge)
        → Inv base [] seen closure
        → (t : String) → Memᴰ t seen ↔ Chain edges source t
    marked_iff base seen closure p t = (p.marked t, all_marked)
      where
        settle : {v : String} → Memᴰ v seen ⊎ Memᴰ v [] → Memᴰ v seen
        settle (inl m) = m
        settle (inr m) = absurd (Memᴰ.not-nil m)

        all_marked : {v : String} → Chain edges source v → Memᴰ v seen
        all_marked (edge e) = settle (p.start _ e)
        all_marked (further {b = u} c e) = settle (p.closed u _ (all_marked c) e)

  start-Inv :
      (source : String) (base : List Edge) → Inv source base (successors edges source) [] base
  start-Inv source base = record {
    pushed = λ t m. edge ((Memᴰ-successors edges source t).0 m);
    marked = λ t m. absurd (Memᴰ.not-nil m);
    start = λ t e. inr ((Memᴰ-successors edges source t).1 e);
    closed = λ u v m e. absurd (Memᴰ.not-nil m);
    collected = refl;
  }

  collected_iff :
      (source : String) (base : List Edge) (seen : List String) (closure : List Edge)
      → Inv source base [] seen closure
      → (e : Edge) → Memᴰ e closure ↔ (((e.0 ≡ source) × Chain edges source e.1) ⊎ Memᴰ e base)
  collected_iff source base seen closure p e = (
    λ m. elim (Memᴰ.append_cases pairs (subst (Memᴰ e) p.collected m)) [
      | inl k ↦
          let (t, n, q) = (Memᴰ-map (λ (t : String). (source, t)) e seen).0 k in
          inl (
            ap (λ (d : Edge). d.0) (sym q),
            subst (λ (d : Edge). Chain edges source d.1) q ((reached t).0 n),
          )
      | inr k ↦ inr k
    ],
    λ m. subst (Memᴰ e) (sym p.collected) (elim m [
      | inl (q, c) ↦ Memᴰ.append_left base (
          (Memᴰ-map (λ (t : String). (source, t)) e seen).1
            (e.1, (reached e.1).1 c, λ i. (sym q i, e.1)))
      | inr k ↦ Memᴰ.append_right pairs k
    ]),
  )
    where
      pairs : List Edge
      pairs = map (λ t. (source, t)) seen

      reached : (t : String) → Memᴰ t seen ↔ Chain edges source t
      reached = marked_iff source base seen closure p

  -- One source: the loop returns, and adds its pairs to the closure.
  close_source :
      (source : String) (base : List Edge)
      → (r : List String × List Edge) × (walk edges source
            (length (successors edges source) + length edges)
            (successors edges source)
            []
            base
          ≡ some r)
        × ((e : Edge) → Memᴰ e r.1 ↔ (((e.0 ≡ source) × Chain edges source e.1) ⊎ Memᴰ e base))
  close_source source base =
      let (r, ends) =
        walk_returns source (length (successors edges source) + length edges)
          (successors edges source) [] base (omega (arith, waiting-le edges)) in
      let inv =
        walk_rule source (Inv source base) (skip-Inv source base) (visit-Inv source base)
          (length (successors edges source) + length edges) (successors edges source) [] base r
          (start-Inv source base) ends in
      (r, ends, λ e. collected_iff source base r.0 r.1 inv e)

  close_sources_lem :
      (sources : List String) (base : List Edge)
      → (closure : List Edge) × (close_sources edges sources base ≡ some closure)
        × ((e : Edge) → Memᴰ e closure ↔ (Memᴰ e.0 sources × Chain edges e.0 e.1 ⊎ Memᴰ e base))
  unfolding close_sources
  close_sources_lem [] base =
      (base, refl, λ e. (inr, λ m. elim m [ inl (k, c) ↦ absurd (Memᴰ.not-nil k) | inr k ↦ k ]))
  close_sources_lem (source ∷ sources) base =
      let (r, ends, one) = close_source source base in
      let (closure, rest, all_of) = close_sources_lem sources r.1 in
      (
        closure,
        rw ends rest,
        λ e. (
          λ m. elim ((all_of e).0 m) [
            | inl (k, c) ↦ inl (Memᴰ.tail k, c)
            | inr k ↦ elim ((one e).0 k) [
              | inl (q, c) ↦ inl (Memᴰ.head q, subst (λ s. Chain edges s e.1) (sym q) c)
              | inr l ↦ inr l
            ]
          ],
          λ m. (all_of e).1 (elim m [
            | inl (k, c) ↦ elim (Memᴰ.cases_cons k) [
              | inl q ↦ inr ((one e).1 (inl (q, subst (λ s. Chain edges s e.1) q c)))
              | inr l ↦ inl (l, c)
            ]
            | inr l ↦ inr ((one e).1 (inr l))
          ]),
        ),
      )

  Chain-source : {a b : String} → Chain edges a b → (c : String) × Memᴰ (a, c) edges
  Chain-source (edge {b} m) = (b, m)
  Chain-source (further c m) = Chain-source c

  Chain-target : {a b : String} → Chain edges a b → (c : String) × Memᴰ (c, b) edges
  Chain-target {a} (edge m) = (a, m)
  Chain-target (further {b} c m) = (b, m)

  Memᴰ-endpoints : (a b : String) → Memᴰ (a, b) edges → Memᴰ a (endpoints edges)
  unfolding endpoints
  Memᴰ-endpoints a b m =
      (Memᴰ-flat_map (λ ((s, t) : Edge). s ∷ t ∷ []) a edges).1 ((a, b), m, Memᴰ.head refl)

-- On a valid relation the closure is found within the rounds, no exception is raised, and it
-- holds (a, b) exactly if one or more edges lead from a to b, whatever nodes are listed.
pub transitive_closure_lem :
    (nodes : List String) (name : Option String) (r : Relation)
    → IsValid r
    → (result : Result Relation) × (transitive_closure nodes name r ≡ some result)
      × Returns result (λ (a, b). Chain r.edges a b)
unfolding transitive_closure
transitive_closure_lem nodes name r v =
    let (closure, ends, all_of) = close_sources_lem r.edges sources [] in
    (
      from_edges (or_text name (r.name ++ "+")) closure,
      rw ends refl,
      Returns-map (λ (a, b). members closure all_of a b)
          (from_edges_lem _ closure
            (truthy-or_text name _ (truthy-append r.name "+" (valid_name r v)))
            (λ (a, b) m. both_valid a b ((members closure all_of a b).0 m))),
    )
  where
    sources : List String
    sources = sorted text_leb (to_set (append nodes (endpoints r.edges)))

    members :
        (closure : List Edge)
        → ((e : Edge) → Memᴰ e closure ↔ (Memᴰ e.0 sources × Chain r.edges e.0 e.1 ⊎ Memᴰ e []))
        → (a b : String) → Memᴰ (a, b) closure ↔ Chain r.edges a b
    members closure all_of a b = (
      λ m. elim ((all_of (a, b)).0 m) [ inl (k, c) ↦ c | inr k ↦ absurd (Memᴰ.not-nil k) ],
      λ c.
          let (t, m) = Chain-source r.edges c in
          (all_of (a, b)).1 (
            inl (
              (Memᴰ-sorted text_leb a _).1
                  ((Memᴰ-to_set a _).1 (Memᴰ.append_right nodes (Memᴰ-endpoints r.edges a t m))),
              c,
            )),
    )

    both_valid : (a b : String) → Chain r.edges a b → edge_is_valid (a, b) ≡ true
    both_valid a b c =
        let (t, m) = Chain-source r.edges c in
        let (s, n) = Chain-target r.edges c in
        ground (arith, valid_edge r (a, t) v m, valid_edge r (s, b) v n)
