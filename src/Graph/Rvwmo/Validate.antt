-- ===== src/Graph/Rvwmo/Validate.antt =====
-- Program order and the checks of rf, co and the input relations: `_relation` to
-- `_validate_input_edges` of src/umcm/graph/rvwmo.py.
use com_mcm.Prelude.{
  lookup, String, Bool, true, false, not, ◌&&◌, ◌||◌, Option, none, some, List, [], ◌∷◌, ◌++◌,
  if◌then◌else◌, ◌==◌, text_eq_instance, pair_eq, nat_eq, any, all, filter, map, has, flat_map,
  to_set, sorted, text_leb,
}
use com_mcm.Prelude.Int.{ℤ, leb_ℤ, ltb_ℤ, int_eq}
use com_mcm.Errors.{Result, ok, err, graph_error, type_error, guard, ◌>>=◌, ◌>>◌}
use com_mcm.Ir.Sort.{option_beq, is_none}
use com_mcm.Solver.Value.{py_eq}
use com_mcm.Graph.Relation.{Relation, Edge, from_edges}
use com_mcm.Graph.Cycle.{find_labeled_cycle}
use com_mcm.Graph.Checker.{cycle_of}
use com_mcm.Graph.Execution.{
  MemoryOperation, is_read, is_write, is_init, read_value, stored_value, or_raise,
}
use com_mcm.Graph.Rvwmo.Footprint.{overlap, same_location}

-- The dict of operations.
abbrev pub Operations : Type 0
Operations = List (String × MemoryOperation)

abbrev pub values : Operations → List MemoryOperation
values operations = map (λ item. item.1) operations

-- The loop `for x in xs: check(x)`.
unfoldable pub each {ℓ} : {A : Type ℓ} → (A → Result (Unit {0})) → List A → Result (Unit {0})
each check [] = ok tt
each check (x ∷ xs) = check x >> each check xs

-- `for i, left in enumerate(xs): for right in xs[i + 1:]`
unfoldable pub pairs {ℓ} : {A : Type ℓ} → List A → List (A × A)
pairs [] = []
pairs (x ∷ xs) = map (λ y. (x, y)) xs ++ pairs xs

-- `first and second`, where the second may raise.
abbrev pub and_also : Bool → Result Bool → Result Bool
and_also true second = second
and_also false second = ok false

-- `if test: raise GraphError`
abbrev pub refuse_if : Result Bool → Result (Unit {0})
refuse_if test = test >>= λ b. guard (not b) graph_error

unfoldable pub relation_or_empty : List (String × Relation) → String → Result Relation
unfolding lookup from_edges
relation_or_empty relations name = elim (lookup name relations) [
  | some r ↦ ok r
  | none ↦ from_edges name []
]

-- The order of the keys `(item.program_index, item.id)`.
abbrev pub key_leb : Option ℤ → Option ℤ → String → String → Bool
key_leb (some i) (some j) a b = if i == j then text_leb a b else leb_ℤ i j
key_leb (some i) none a b = text_leb a b
key_leb none _ a b = text_leb a b

abbrev pub index_leb : MemoryOperation → MemoryOperation → Bool
index_leb a b = key_leb a.program_index b.program_index a.id b.id

unfoldable pub repeats_index : List MemoryOperation → Bool
unfolding any
repeats_index [] = false
repeats_index (op ∷ ops) =
    any (λ other. option_beq op.program_index other.program_index) ops || repeats_index ops

-- `None < i` is a TypeError, so an operation without an index is not sorted among others with one.
unfoldable pub indexes_compare : List MemoryOperation → Bool
unfolding all
indexes_compare ops =
    all (λ op. is_none op.program_index) ops || all (λ op. not (is_none op.program_index)) ops

abbrev pub on_hart : Operations → ℤ → List MemoryOperation
on_hart operations h = filter (λ op. option_beq op.hart (some h)) (values operations)

-- The edges of one hart.
unfoldable pub hart_order : List MemoryOperation → Result (List Edge)
unfolding indexes_compare repeats_index sorted pairs
hart_order ops =
    guard (indexes_compare ops) type_error
    >> guard (not (repeats_index ops)) graph_error
    >> ok (map (λ (source, target). (source.id, target.id)) (pairs (sorted index_leb ops)))

abbrev pub hart_list : Option ℤ → List ℤ
hart_list none = []
hart_list (some h) = h ∷ []

abbrev pub harts : Operations → List ℤ
harts operations = to_set (flat_map (λ op. hart_list op.hart) (values operations))

unfoldable pub harts_order : Operations → List ℤ → Result (List Edge)
unfolding hart_order
harts_order operations [] = ok []
harts_order operations (h ∷ hs) = hart_order (on_hart operations h) >>= λ edges.
    harts_order operations hs >>= λ rest. ok (edges ++ rest)

unfoldable pub canonical_po : Operations → Result Relation
unfolding harts_order from_edges
canonical_po operations = harts_order operations (harts operations) >>= from_edges "po"

unfoldable pub validate_scalar_locations : Operations → Result (Unit {0})
unfolding each pairs overlap same_location
validate_scalar_locations operations =
    each
      (λ (left, right). refuse_if (
        overlap left right >>= λ meeting.
        and_also meeting (same_location left right >>= λ same. ok (not same))))
      (pairs (values operations))

unfoldable pub validate_rf_edge : Operations → Edge → Result (Unit {0})
unfolding lookup same_location stored_value read_value
validate_rf_edge operations (source_id, read_id) =
    or_raise (lookup source_id operations) >>= λ source.
    or_raise (lookup read_id operations) >>= λ target.
    guard (is_write source && is_read target && not (source_id == read_id)) graph_error
    >> (same_location source target >>= λ same. guard same graph_error)
    >> (stored_value source >>= λ stored.
        read_value target >>= λ read. guard (py_eq stored read) graph_error)

-- `incoming[read_id]`
abbrev pub incoming : List Edge → String → List String
incoming edges target = map (λ edge. edge.0) (filter (λ edge. edge.1 == target) edges)

-- The only source of a read.
abbrev pub single : List String → Result String
single (source ∷ []) = ok source
single _ = err graph_error

unfoldable pub read_sources : List Edge → List MemoryOperation → Result (List (String × String))
read_sources edges [] = ok []
read_sources edges (op ∷ ops) =
    let rest = read_sources edges ops in
    if is_read op
    then (single (incoming edges op.id) >>= λ source.
        rest >>= λ items. ok ((op.id, source) ∷ items))
    else rest

unfoldable pub rf_sources : Operations → Relation → Result (List (String × String))
unfolding each validate_rf_edge read_sources
rf_sources operations rf =
    each (validate_rf_edge operations) rf.edges >> read_sources rf.edges (values operations)

unfoldable pub validate_co_edge : Operations → Edge → Result (Unit {0})
unfolding lookup same_location
validate_co_edge operations (source_id, target_id) =
    or_raise (lookup source_id operations) >>= λ source.
    or_raise (lookup target_id operations) >>= λ target.
    guard (is_write source && is_write target) graph_error
    >> guard (not (source_id == target_id)) graph_error
    >> (same_location source target >>= λ same. guard same graph_error)

-- Exactly one direction.
abbrev pub one_direction : Relation → MemoryOperation → MemoryOperation → Bool
one_direction co left right =
    if has (left.id, right.id) co.edges
    then not (has (right.id, left.id) co.edges)
    else has (right.id, left.id) co.edges

unfoldable pub validate_co_total : Relation → MemoryOperation × MemoryOperation → Result (Unit {0})
unfolding same_location
validate_co_total co (left, right) =
    same_location left right >>= λ same. guard (not same || one_direction co left right) graph_error

unfoldable pub validate_co_init : Relation → MemoryOperation → MemoryOperation → Result (Unit {0})
unfolding same_location
validate_co_init co init write = refuse_if (
    and_also (not (write.id == init.id))
      (same_location init write >>= λ same. ok (same && not (has (init.id, write.id) co.edges))))

unfoldable pub validate_co : Operations → Relation → Result (Unit {0})
unfolding each validate_co_edge validate_co_total validate_co_init pairs find_labeled_cycle
validate_co operations co =
    let writes = filter is_write (values operations) in
    each (validate_co_edge operations) co.edges
    >> each (validate_co_total co) (pairs writes)
    >> (cycle_of (find_labeled_cycle (co ∷ [])) >>= λ cycle. guard (is_none cycle) graph_error)
    >> each (λ init. each (validate_co_init co init) writes) (filter (λ op. is_init op.kind) writes)

-- `first < second` where both are given.
abbrev pub index_ltb : Option ℤ → Option ℤ → Bool
index_ltb (some i) (some j) = ltb_ℤ i j
index_ltb _ _ = false

unfoldable pub between : MemoryOperation → MemoryOperation → MemoryOperation → Bool
between source middle target =
    not (is_none source.hart)
    && option_beq source.hart middle.hart
    && option_beq middle.hart target.hart
    && index_ltb source.program_index middle.program_index
    && index_ltb middle.program_index target.program_index

unfoldable pub validate_input_edges : Relation → Relation → Operations → Result (Unit {0})
unfolding each
validate_input_edges r po operations =
    each
      (λ edge. or_raise (lookup edge.0 operations) >>= λ source.
        or_raise (lookup edge.1 operations) >>= λ target. guard (has edge po.edges) graph_error)
      r.edges
