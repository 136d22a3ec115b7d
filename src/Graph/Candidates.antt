-- ===== src/Graph/Candidates.antt =====
-- The candidate executions of a trace: `build_candidate_space` and `iter_execution_graphs` of
-- src/umcm/graph/builder.py. `repr` of addresses and hints, which only orders them, is an argument.
pub mod Parts
pub mod Sources
pub mod Permutations
pub mod Groups
pub mod Orders
pub mod Coherence
use com_mcm.Prelude.{
  lookup, put, ◌≡◌, String, Bool, true, false, not, ◌&&◌, ◌||◌, Option, none, some, List, [], ◌∷◌,
  ◌++◌, ℕ, zero, suc, ◌+◌, ◌*◌, map, any, all, length, ltb, leb, to_set, sorted, text_leb,
  if◌then◌else◌, ◌==◌, text_eq_instance, filter, flat_map, has, nat_eq,
}
use com_mcm.Prelude.Int.{ℤ, pos, leb_ℤ}
use com_mcm.Errors.{Result, ok, err, graph_error, value_error, guard, ◌>>=◌, ◌>>◌}
use com_mcm.Ir.Sort.{Value, text, is_none}
use com_mcm.Ir.Trace.{Trace}
use com_mcm.Solver.Value.{py_eq}
use com_mcm.Graph.Relation.{Relation, from_edges, inverse, compose}
use com_mcm.Graph.Checker.{is_empty}
use com_mcm.Graph.Execution.{
  MemoryOperation, is_read, is_write, is_init, read_value, stored_value, ExecutionGraph, Meta,
  scalar, make_graph, put_all, ids,
}
use com_mcm.Graph.Model.{ProjectionSpec, GraphModelSpec}
use com_mcm.Graph.Projection.{project_operations}
use com_mcm.Graph.Hints.{RfHintEvidence, rf_hints, CoHintEvidence, co_hints, relation_hints}
use com_mcm.Graph.Builder.{
  DerivedRelationSpec, derive_relation, po_relation, co_relation, rfe_relation, ppo_relation,
  is_plain_write,
}
use com_mcm.Graph.Rvwmo.Validate.{Operations, values}
use com_mcm.Graph.Rvwmo.Complete.{complete_rvwmo_relations}

pub record CandidateSpace : Type 0 where
  pub operations : Operations
  pub rf_choices : List (String × List String)
  pub co_orders : List (Value × List (List String))
  pub relation_hints : List (String × Relation)

abbrev pub product_of_lengths {ℓ ℓ'} : {K : Type ℓ} {A : Type ℓ'} → List (K × List A) → ℕ
product_of_lengths [] = 1
product_of_lengths ((k, choices) ∷ rest) = length choices * product_of_lengths rest

unfoldable pub estimated_candidates : CandidateSpace → ℕ
estimated_candidates space =
    product_of_lengths space.rf_choices * product_of_lengths space.co_orders

-- Whether the read can read from the write.
unfoldable pub can_read : MemoryOperation → MemoryOperation → Result Bool
unfolding py_eq stored_value read_value
can_read r w =
    if w.id == r.id || not (py_eq w.address r.address)
    then ok false
    else (stored_value w >>= λ stored. read_value r >>= λ v. ok (py_eq stored v))

unfoldable pub sources_of : MemoryOperation → List MemoryOperation → Result (List String)
unfolding can_read
sources_of r [] = ok []
sources_of r (w ∷ ws) =
    can_read r w >>= λ can. sources_of r ws >>= λ rest. ok (if can then w.id ∷ rest else rest)

-- The write that a hint names.
abbrev pub write_or_raise : Option MemoryOperation → Result MemoryOperation
write_or_raise none = err graph_error
write_or_raise (some w) = guard (is_write w) graph_error >> ok w

-- The candidates of a read, of which a hint leaves one.
unfoldable pub hinted_sources :
    Operations → MemoryOperation → Option RfHintEvidence → List String → Result (List String)
unfolding lookup py_eq stored_value read_value has
hinted_sources operations r none candidates = ok candidates
hinted_sources operations r (some evidence) candidates =
    write_or_raise (lookup evidence.write_id operations) >>= λ w.
    guard (py_eq evidence.address r.address && py_eq evidence.address w.address) graph_error
    >> (read_value r >>= λ v. stored_value w >>= λ stored.
        guard (py_eq evidence.value v && py_eq evidence.value stored) graph_error
        >> guard (has evidence.write_id candidates) graph_error
        >> ok (evidence.write_id ∷ []))

-- The body of the loop over the reads.
unfoldable pub rf_choice :
    Operations
    → List MemoryOperation
    → List (String × RfHintEvidence)
    → MemoryOperation
    → Result (List String)
unfolding sources_of hinted_sources lookup sorted
rf_choice operations writes hints r = sources_of r writes >>= λ sources.
    hinted_sources operations r (lookup r.id hints) sources >>= λ candidates.
    guard (not (is_empty candidates)) graph_error >> ok (sorted text_leb candidates)

unfoldable pub rf_choices :
    Operations
    → List MemoryOperation
    → List (String × RfHintEvidence)
    → List MemoryOperation
    → Result (List (String × List String))
unfolding rf_choice
rf_choices operations writes hints [] = ok []
rf_choices operations writes hints (r ∷ reads) = rf_choice operations writes hints r >>= λ sources.
    rf_choices operations writes hints reads >>= λ rest. ok ((r.id, sources) ∷ rest)

-- `writes_by_address[write.address].append(write)`
unfoldable pub add_write :
    MemoryOperation → List (Value × List MemoryOperation) → List (Value × List MemoryOperation)
unfolding py_eq
add_write w [] = (w.address, w ∷ []) ∷ []
add_write w ((address, ws) ∷ rest) =
    let later = add_write w rest in
    if py_eq address w.address then (address, ws ++ (w ∷ [])) ∷ rest else (address, ws) ∷ later

unfoldable pub add_writes :
    List MemoryOperation → List (Value × List MemoryOperation) → List (Value × List MemoryOperation)
unfolding add_write
add_writes [] groups = groups
add_writes (w ∷ ws) groups = add_writes ws (add_write w groups)

-- Each member of a list, with the others.
unfoldable pub picks {ℓ} : {A : Type ℓ} → List A → List (A × List A)
picks [] = []
picks (x ∷ xs) = (x, xs) ∷ map (λ (y, ys). (y, x ∷ ys)) (picks xs)

-- The orders of `n` members, in the order of `itertools.permutations`.
unfoldable pub orders_of {ℓ} : {A : Type ℓ} → ℕ → List A → List (List A)
unfolding picks flat_map
orders_of zero xs = [] ∷ []
orders_of (suc n) xs = flat_map (λ (y, ys). map (λ zs. y ∷ zs) (orders_of n ys)) (picks xs)

-- `permutations(xs)`
unfoldable pub permutations {ℓ} : {A : Type ℓ} → List A → List (List A)
unfolding orders_of
permutations xs = orders_of (length xs) xs

-- The ids of the writes of one kind, sorted.
abbrev pub ids_of : (MemoryOperation → Bool) → List MemoryOperation → List String
ids_of p ws = sorted text_leb (map (λ w. w.id) (filter p ws))

abbrev pub is_initial : MemoryOperation → Bool
is_initial w = is_init w.kind

-- The initial write first, then the plain writes in any order.
unfoldable pub possible_orders : List MemoryOperation → List (List String)
unfolding permutations sorted filter
possible_orders ws =
    map (λ order. ids_of is_initial ws ++ order) (permutations (ids_of is_plain_write ws))

-- The operation that a hint names is a write to the address.
abbrev pub is_write_to : Value → Option MemoryOperation → Bool
is_write_to address none = false
is_write_to address (some w) = is_write w && py_eq w.address address

-- The tests of a hint.
unfoldable pub check_co_hint : Operations → Value → CoHintEvidence → Result (Unit {0})
unfolding lookup py_eq
check_co_hint operations address hint =
    guard (is_write_to address (lookup hint.before_write_id operations)) graph_error
    >> guard (is_write_to address (lookup hint.after_write_id operations)) graph_error
    >> guard (not (hint.before_write_id == hint.after_write_id)) graph_error

unfoldable pub check_co_hints : Operations → Value → List CoHintEvidence → Result (Unit {0})
unfolding check_co_hint
check_co_hints operations address [] = ok tt
check_co_hints operations address (hint ∷ hints) =
    check_co_hint operations address hint >> check_co_hints operations address hints

-- `order.index(x)`
unfoldable pub index_of : String → List String → Result ℕ
index_of x [] = err value_error
index_of x (y ∷ ys) =
    let rest = index_of x ys in if y == x then ok 0 else (rest >>= λ n. ok (suc n))

unfoldable pub follows_hints : List CoHintEvidence → List String → Result Bool
unfolding index_of
follows_hints [] order = ok true
follows_hints (hint ∷ hints) order = index_of hint.before_write_id order >>= λ i.
    index_of hint.after_write_id order >>= λ j.
    (let rest = follows_hints hints order in if ltb i j then rest else ok false)

unfoldable pub hinted_orders :
    List CoHintEvidence → List (List String) → Result (List (List String))
unfolding follows_hints
hinted_orders hints [] = ok []
hinted_orders hints (order ∷ orders) = follows_hints hints order >>= λ keep.
    hinted_orders hints orders >>= λ rest. ok (if keep then order ∷ rest else rest)

-- The body of the loop over the addresses.
unfoldable pub co_order :
    Operations → List CoHintEvidence → Value → List MemoryOperation → Result (List (List String))
unfolding possible_orders check_co_hints hinted_orders filter py_eq sorted
co_order operations hints address ws =
    guard (leb (length (ids_of is_initial ws)) 1) graph_error
    >> (let relevant = filter (λ hint. py_eq hint.address address) hints in
        check_co_hints operations address relevant
        >> (hinted_orders relevant (possible_orders ws) >>= λ orders.
            guard (not (is_empty orders)) graph_error >> ok orders))

unfoldable pub co_orders :
    Operations
    → List CoHintEvidence
    → List (Value × List MemoryOperation)
    → Result (List (Value × List (List String)))
unfolding co_order
co_orders operations hints [] = ok []
co_orders operations hints ((address, ws) ∷ rest) =
    co_order operations hints address ws >>= λ orders.
    co_orders operations hints rest >>= λ others. ok ((address, orders) ∷ others)

abbrev pub id_leb : MemoryOperation → MemoryOperation → Bool
id_leb a b = text_leb a.id b.id

unfoldable pub build_candidate_space :
    (CoHintEvidence → String) → Trace → GraphModelSpec → Result CandidateSpace
unfolding project_operations rf_hints co_hints rf_choices co_orders relation_hints add_writes filter
    any all py_eq sorted
build_candidate_space repr trace spec = project_operations trace spec.projection >>= λ operations.
    rf_hints trace spec.projection.rf_hints [] >>= λ hints.
    co_hints repr trace spec.projection.co_hints >>= λ order_hints.
    let writes = filter is_write (values operations) in
    let groups = add_writes writes [] in
    rf_choices operations writes hints (sorted id_leb (filter is_read (values operations)))
    >>= λ choices. co_orders operations order_hints groups >>= λ orders.
        guard (all (λ hint. any (λ group. py_eq group.0 hint.address) groups) order_hints)
          graph_error
        >> (relation_hints trace spec.projection.relation_hints operations >>= λ relations.
            ok (record {
              operations = operations;
              rf_choices = choices;
              co_orders = orders;
              relation_hints = relations;
            }))
