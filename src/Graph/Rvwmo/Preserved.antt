-- ===== src/Graph/Rvwmo/Preserved.antt =====
-- Preserved program order lies in program order, and explicit synchronization is preserved
-- (derive_ppo, src/umcm/graph/rvwmo.py).
use com_mcm.Prelude.{
  lookup, ◌≡◌, refl, sym, ◌∙◌, ap, subst, ◌⊎◌, inl, inr, String, Bool, true, ◌&&◌, List, [], ◌∷◌,
  ◌++◌, Memᴰ, Memᴰ-flat_map, some, arith, ℕ, has, has_iff, pair_eq, text_eq_instance, length, ◌<◌,
  ◌==◌,
}
use mathlib.Core.List.Memᴰ
use com_mcm.Errors.{ok-injective_back, ok, ◌>>=◌, >>=-eq-ok}
use com_mcm.Graph.Relation.{Relation, Edge, union_relations}
use com_mcm.Graph.Execution.{MemoryOperation, is_read, is_write, atomic_kind}
use com_mcm.Graph.Rvwmo.Footprint.{overlap, regular, is_one_of, acquire, release}
use com_mcm.Graph.Rvwmo.Validate.{Operations, relation_or_empty, and_also}
use com_mcm.Graph.Rvwmo.Ppo.{
  Inputs, same_address_loads, source_of, pipeline_load, rules_of, rules_of_all, bit, rule_edges,
  rule_names, name_rules, inputs_of, validate_inputs, derive_ppo,
}
use com_mcm.Graph.Rvwmo.Rules.{
  from_edges-eq-ok, made_iff, Memᴰ-rule_edges, name_rules-within, name_rules-holds,
  rules_of_all-within, rules_of_all-holds,
}

-- The parts of a successful call.
record Derived (operations : Operations) (relations : List (String × Relation))
    (sources : List (String × String)) (rs : List Relation) : Type 0 where
  po : Relation
  po_found : relation_or_empty relations "po" ≡ ok po
  inputs : Inputs
  inputs_found : inputs_of relations ≡ ok inputs
  items : List (Edge × List Bool)
  items_found : rules_of_all operations inputs sources po.edges ≡ ok items
  named : List Relation
  named_found : name_rules 0 rule_names items ≡ ok named
  ppo : Relation
  ppo_found : union_relations "ppo" named ≡ ok ppo
  result : rs ≡ named ++ (ppo ∷ [])

derive_ppo-eq-ok :
    (operations : Operations) (relations : List (String × Relation))
    (sources : List (String × String)) (rs : List Relation)
    → derive_ppo operations relations sources ≡ ok rs
    → Derived operations relations sources rs
unfolding derive_ppo
derive_ppo-eq-ok operations relations sources rs h =
    let (po, p, h₁) = >>=-eq-ok (relation_or_empty relations "po") _ h in
    let (inputs, q, h₂) = >>=-eq-ok (inputs_of relations) _ h₁ in
    let (u, g, h₃) = >>=-eq-ok (validate_inputs po operations inputs) _ h₂ in
    let (items, a, h₄) = >>=-eq-ok (rules_of_all operations inputs sources po.edges) _ h₃ in
    let (named, b, h₅) = >>=-eq-ok (name_rules 0 rule_names items) _ h₄ in
    let (ppo, c, h₆) = >>=-eq-ok (union_relations "ppo" named) _ h₅ in
    record {
      po = po;
      po_found = p;
      inputs = inputs;
      inputs_found = q;
      items = items;
      items_found = a;
      named = named;
      named_found = b;
      ppo = ppo;
      ppo_found = c;
      result = ok-injective_back h₆;
    }

Memᴰ-union_relations :
    (rs : List Relation) (r : Relation) (e : Edge)
    → union_relations "ppo" rs ≡ ok r
    → (Memᴰ e r.edges → (s : Relation) × Memᴰ s rs × Memᴰ e s.edges)
      × ((s : Relation) × Memᴰ s rs × Memᴰ e s.edges → Memᴰ e r.edges)
unfolding union_relations
Memᴰ-union_relations rs r e h = (
  λ m. (Memᴰ-flat_map (λ s. s.edges) e rs).0 ((made_iff "ppo" _ r e h).0 m),
  λ k. (made_iff "ppo" _ r e h).1 ((Memᴰ-flat_map (λ s. s.edges) e rs).1 k),
)

-- If derive_ppo raises nothing, every edge of every relation that it returns, the thirteen rules and
-- their union, is an edge of program order.
pub derive_ppo-within_po :
    (operations : Operations) (relations : List (String × Relation))
    (sources : List (String × String)) (rs : List Relation)
    → derive_ppo operations relations sources ≡ ok rs
    → (r : Relation) → Memᴰ r rs
    → (e : Edge) → Memᴰ e r.edges
    → (po : Relation) × (relation_or_empty relations "po" ≡ ok po) × Memᴰ e po.edges
derive_ppo-within_po operations relations sources rs h r m e k = (d.po, d.po_found, member)
  where
    d : Derived operations relations sources rs
    d = derive_ppo-eq-ok operations relations sources rs h

    of_rule : (s : Relation) → Memᴰ s d.named → Memᴰ e s.edges → Memᴰ e d.po.edges
    of_rule s l t =
        let (bits, w) = name_rules-within 0 rule_names d.items d.named d.named_found s l e t in
        rules_of_all-within operations d.inputs sources d.po.edges d.items d.items_found e bits w

    of_ppo : Memᴰ e d.ppo.edges → Memᴰ e d.po.edges
    of_ppo t =
        let (s, l, w) = (Memᴰ-union_relations d.named d.ppo e d.ppo_found).0 t in of_rule s l w

    member : Memᴰ e d.po.edges
    member = elim (Memᴰ.append_cases d.named (subst (λ z. Memᴰ r z) d.result m)) [
      | inl l ↦ of_rule r l k
      | inr l ↦ elim (Memᴰ.cases_cons l) [
        | inl here ↦ of_ppo (subst (λ z. Memᴰ e z.edges) here k)
        | inr there ↦ absurd (Memᴰ.not-nil there)
      ]
    ]

inputs_of-fence :
    (relations : List (String × Relation)) (inputs : Inputs)
    → inputs_of relations ≡ ok inputs
    → relation_or_empty relations "fence" ≡ ok inputs.fence
unfolding inputs_of
inputs_of-fence relations inputs h =
    let (addr, a, h₁) = >>=-eq-ok (relation_or_empty relations "addr") _ h in
    let (dependency, b, h₂) = >>=-eq-ok (relation_or_empty relations "data") _ h₁ in
    let (ctrl, c, h₃) = >>=-eq-ok (relation_or_empty relations "ctrl") _ h₂ in
    let (fence, d, h₄) = >>=-eq-ok (relation_or_empty relations "fence") _ h₃ in
    let (pair, e, h₅) = >>=-eq-ok (relation_or_empty relations "pair") _ h₄ in
    let (pipeline, f, h₆) = >>=-eq-ok (relation_or_empty relations "pipeline") _ h₅ in
    d ∙ ap (λ z. ok z.fence) (sym (ok-injective_back h₆))

module _ (operations : Operations) (inputs : Inputs) (sources : List (String × String))
    (source_id target_id : String) (source target : MemoryOperation) where
  -- Rules 4, 5 and 6 of an edge between regular operations.
  rules_of-bits :
      (bits : List Bool)
      → lookup source_id operations ≡ some source
      → lookup target_id operations ≡ some target
      → regular source ≡ true
      → regular target ≡ true
      → rules_of operations inputs sources (source_id, target_id) ≡ ok bits
      → (bit 3 bits ≡ has (source_id, target_id) inputs.fence.edges)
        × (bit 4 bits ≡ acquire source)
        × (bit 5 bits ≡ release target)
  unfolding rules_of bit
  rules_of-bits bits p q a b =
      rw (p, q, a, b)
        (λ h.
          let (r₁, e₁, h₁) = >>=-eq-ok (and_also (is_write target) (overlap source target)) _ h in
          let (r₂, e₂, h₂) =
            >>=-eq-ok
              (same_address_loads operations inputs sources source_id target_id source target) _
              h₁ in
          let (r₃, e₃, h₃) =
            >>=-eq-ok
              (and_also (is_one_of ("amo" ∷ "sc" ∷ []) (atomic_kind source) && is_read target) (
                source_of operations inputs sources target_id >>= λ written.
                ok (written == source_id)))
              _ h₂ in
          let (r₄, e₄, h₄) =
            >>=-eq-ok (pipeline_load operations inputs sources source_id target_id source target) _
              h₃ in
          rw (ok-injective_back h₄) (refl, refl, refl))

-- What orders two operations explicitly: an acquire before, a release after, or a fence edge.
abbrev pub Synchronizes :
    List (String × Relation) → MemoryOperation → MemoryOperation → Edge → Type 0
Synchronizes relations source target edge =
    (acquire source ≡ true)
    ⊎ ((release target ≡ true)
        ⊎ ((fence : Relation) × (relation_or_empty relations "fence" ≡ ok fence)
            × Memᴰ edge fence.edges))

-- If derive_ppo raises nothing, an edge of program order between two operations on regular memory
-- that an acquire, a release or a fence orders is an edge of the last relation returned, `ppo`.
pub derive_ppo-Synchronizes :
    (operations : Operations) (relations : List (String × Relation))
    (sources : List (String × String)) (rs : List Relation) (source_id target_id : String)
    (source target : MemoryOperation) (po : Relation)
    → derive_ppo operations relations sources ≡ ok rs
    → relation_or_empty relations "po" ≡ ok po
    → Memᴰ (source_id, target_id) po.edges
    → lookup source_id operations ≡ some source
    → lookup target_id operations ≡ some target
    → regular source ≡ true
    → regular target ≡ true
    → Synchronizes relations source target (source_id, target_id)
    → (named : List Relation) × (ppo : Relation) × (rs ≡ named ++ (ppo ∷ []))
      × (ppo.name ≡ "ppo")
      × Memᴰ (source_id, target_id) ppo.edges
unfolding union_relations
derive_ppo-Synchronizes operations relations sources rs s t source target po h p m a b c e y = (
  d.named,
  d.ppo,
  d.result,
  ap (λ r. r.name) (from_edges-eq-ok "ppo" _ d.ppo d.ppo_found),
  member,
)
  where
    d : Derived operations relations sources rs
    d = derive_ppo-eq-ok operations relations sources rs h

    po_same : po ≡ d.po
    po_same = ok-injective_back (sym d.po_found ∙ p)

    fence_same :
        (fence : Relation) → relation_or_empty relations "fence" ≡ ok fence → fence ≡ d.inputs.fence
    fence_same fence q =
        ok-injective_back (sym (inputs_of-fence relations d.inputs d.inputs_found) ∙ q)

    holds_bit :
        (k : ℕ) (bits : List Bool)
        → k < length rule_names
        → Memᴰ ((s, t), bits) d.items
        → bit k bits ≡ true
        → Memᴰ (s, t) d.ppo.edges
    holds_bit k bits l w z =
        let (r, u, v) =
          name_rules-holds k 0 rule_names d.items d.named d.named_found l (s, t)
            (subst (λ j. Memᴰ (s, t) (rule_edges j d.items)) (omega arith)
              ((Memᴰ-rule_edges k (s, t) d.items).1 (bits, w, z))) in
        (Memᴰ-union_relations d.named d.ppo (s, t) d.ppo_found).1 (r, u, v)

    member : Memᴰ (s, t) d.ppo.edges
    member =
        let (bits, w, z) =
          rules_of_all-holds operations d.inputs sources d.po.edges d.items d.items_found (s, t)
            (subst (λ r. Memᴰ (s, t) r.edges) po_same m) in
        let (f, g, i) =
          rules_of-bits operations d.inputs sources s t source target bits a b c e z in
        elim y [
          | inl q ↦ holds_bit 4 bits (omega arith) w (g ∙ q)
          | inr (inl q) ↦ holds_bit 5 bits (omega arith) w (i ∙ q)
          | inr (inr (fence, q, k)) ↦ holds_bit 3 bits (omega arith) w (
              f
              ∙ (has_iff (s, t) d.inputs.fence.edges).1
                  (subst (λ r. Memᴰ (s, t) r.edges) (fence_same fence q) k))
        ]
