-- ===== src/Graph/Execution.antt =====
-- Memory operations and execution graphs: src/umcm/graph/execution.py. A dict is the list of its
-- items. A value of `metadata` is a scalar or a sequence of scalars, and None where it is missing.
use com_mcm.Prelude.{
  lookup, put, String, Bool, true, false, not, ◌&&◌, ◌||◌, Option, none, some, List, [], ◌∷◌, ℕ,
  leb, ◌+◌, if◌then◌else◌, ◌==◌, text_eq_instance, nat_eq, all, has, map,
}
use Prim.Native.Char.{code}
use com_mcm.Prelude.Int.{ℤ}
use com_mcm.Errors.{Result, ok, err, graph_error, guard, ◌>>◌}
use com_mcm.Ir.Sort.{Value, text, null, is_none}
use com_mcm.Solver.Value.{truth}
use com_mcm.Graph.Relation.{Relation, truthy}

pub data OperationKind : Type 0 where
  init_write read write amo : OperationKind

pub data Meta : Type 0 where
  scalar : Value → Meta
  sequence : List Value → Meta

-- `write_value` is the value None where it is missing.
pub record MemoryOperation : Type 0 where
  pub id : String
  pub kind : OperationKind
  pub address : Value
  pub value : Value
  pub write_value : Value
  pub hart : Option ℤ
  pub program_index : Option ℤ
  pub source_event_id : String
  pub commit_event_id : String
  pub metadata : String → Option Meta

abbrev pub is_init : OperationKind → Bool
is_init init_write = true
is_init _ = false

abbrev pub is_amo : OperationKind → Bool
is_amo amo = true
is_amo _ = false

abbrev pub is_null : Value → Bool
is_null null = true
is_null _ = false

abbrev pub is_read : MemoryOperation → Bool
is_read op = elim op.kind [ read ↦ true | amo ↦ true | _ ↦ false ]

abbrev pub is_write : MemoryOperation → Bool
is_write op = elim op.kind [ read ↦ false | _ ↦ true ]

-- The tests of `__post_init__`.
unfoldable pub operation_is_valid : MemoryOperation → Bool
operation_is_valid op =
    truthy op.id
    && not (is_amo op.kind && is_null op.write_value)
    && (is_init op.kind || not (is_none op.hart || is_none op.program_index))
    && not (is_read op && not (truthy op.commit_event_id))

unfoldable pub make_operation : MemoryOperation → Result MemoryOperation
unfolding operation_is_valid
make_operation op = guard (operation_is_valid op) graph_error >> ok op

unfoldable pub read_value : MemoryOperation → Result Value
read_value op = if is_read op then ok op.value else err graph_error

unfoldable pub stored_value : MemoryOperation → Result Value
stored_value op =
    if is_write op
    then ok (if is_amo op.kind then op.write_value else op.value)
    else err graph_error

-- `text.lower()`, as the codes of its characters, for the letters of ASCII. The texts it is compared
-- with are spelled in letters that no other character is lowered to.
unfoldable pub lower : String → List ℕ
lower String.[] = []
lower (String.◌∷◌ c s) =
    (if leb 65 (code c) && leb (code c) 90 then code c + 32 else code c) ∷ lower s

unfoldable pub spells : List ℕ → String → Bool
spells [] String.[] = true
spells (n ∷ ns) (String.◌∷◌ c s) = n == code c && spells ns s
spells _ _ = false

-- `str(value).lower()` with a text as the value where it is missing. The texts of other values are
-- none of the words that the program asks for, so they are the empty word.
abbrev pub word : String → Option Meta → List ℕ
word default none = lower default
word default (some (scalar (text s))) = lower s
word default (some _) = []

unfoldable pub atomic_kind : MemoryOperation → List ℕ
unfolding lower
atomic_kind op = if is_amo op.kind then lower "amo" else word "ordinary" (op.metadata "atomic_kind")

-- `bool(metadata.get(key, False))`
abbrev pub flag : Option Meta → Bool
flag none = false
flag (some (scalar v)) = truth v
flag (some (sequence [])) = false
flag (some (sequence (v ∷ vs))) = true

unfoldable pub put_all : List Relation → List (String × Relation) → List (String × Relation)
unfolding put
put_all [] items = items
put_all (r ∷ rs) items = put_all rs (put r.name r items)

pub record ExecutionGraph : Type 0 where
  pub operations : List (String × MemoryOperation)
  pub relations : List (String × Relation)
  pub candidate_id : ℤ
  pub metadata : String → Option Meta
  pub schema_version : String

abbrev pub ids : List (String × MemoryOperation) → List String
ids operations = map (λ item. item.0) operations

unfoldable pub relation_is_valid : List String → String × Relation → Bool
unfolding all has
relation_is_valid known (name, r) =
    name == r.name && all (λ edge. has edge.0 known && has edge.1 known) r.edges

-- The tests of `__post_init__`.
unfoldable pub graph_is_valid : ExecutionGraph → Bool
unfolding relation_is_valid
graph_is_valid g =
    all (λ item. item.0 == item.1.id) g.operations
    && all (relation_is_valid (ids g.operations)) g.relations

unfoldable pub make_graph : ExecutionGraph → Result ExecutionGraph
unfolding graph_is_valid
make_graph g = guard (graph_is_valid g) graph_error >> ok g

abbrev pub or_raise {ℓ} : {A : Type ℓ} → Option A → Result A
or_raise none = err graph_error
or_raise (some a) = ok a

unfoldable pub relation : ExecutionGraph → String → Result Relation
unfolding lookup
relation g name = or_raise (lookup name g.relations)

unfoldable pub with_relations : ExecutionGraph → List Relation → Result ExecutionGraph
unfolding make_graph put_all
with_relations g relations = make_graph (record g { relations = put_all relations g.relations })
