-- ===== src/Graph/Builder.antt =====
-- The relations of one candidate: `_po_relation` to `_derive_relation` of src/umcm/graph/builder.py.
-- The operations of DerivedRelationSpec (src/umcm/graph/model.py) are an enumeration, since its
-- constructor refuses every other text.
pub mod Derived
use com_mcm.Prelude.{
  lookup, ◌≡◌, String, Bool, true, false, not, ◌&&◌, ◌||◌, Option, none, some, List, [], ◌∷◌, ◌++◌,
  ℕ, if◌then◌else◌, ◌==◌, text_eq_instance, any, filter, map, flat_map, has, length, leb, nat_eq,
}
use com_mcm.Prelude.Int.{int_eq}
use com_mcm.Errors.{
  Result, ok, err, axiom_error, assertion_error, recursion_error, index_error, guard, ◌>>=◌, ◌>>◌,
}
use com_mcm.Ir.Sort.{option_beq, is_none}
use com_mcm.Solver.Value.{py_eq}
use com_mcm.Graph.Relation.{
  Relation, Edge, from_edges, union_relations, intersection, difference, inverse, compose,
  transitive_closure, truthy,
}
use com_mcm.Graph.Execution.{MemoryOperation, OperationKind, write, is_read, or_raise}
use com_mcm.Graph.Rvwmo.Validate.{Operations, values, canonical_po, pairs, index_ltb}
use com_mcm.Graph.Rvwmo.Ppo.{or_key_error}
use com_mcm.Graph.Rvwmo.Complete.{hart_of}

-- The same loop as `_canonical_po` of rvwmo.py.
unfoldable pub po_relation : Operations → Result Relation
unfolding canonical_po
po_relation operations = canonical_po operations

unfoldable pub co_relation : List (List String) → Result Relation
unfolding from_edges flat_map pairs
co_relation orders = from_edges "co" (flat_map pairs orders)

-- The edges whose ends are on different harts.
unfoldable pub different_harts : Operations → List Edge → Result (List Edge)
unfolding lookup
different_harts operations [] = ok []
different_harts operations ((source, target) ∷ edges) = hart_of operations source >>= λ a.
    hart_of operations target >>= λ b. different_harts operations edges >>= λ rest.
    ok (if option_beq a b then rest else (source, target) ∷ rest)

unfoldable pub rfe_relation : Relation → Operations → Result Relation
unfolding different_harts from_edges
rfe_relation rf operations = different_harts operations rf.edges >>= from_edges "rfe"

abbrev pub is_plain_write : MemoryOperation → Bool
is_plain_write op = elim op.kind [ write ↦ true | _ ↦ false ]

-- A store between two loads, to their address.
unfoldable pub intervening_store : Operations → MemoryOperation → MemoryOperation → Bool
unfolding any py_eq
intervening_store operations source target =
    any
      (λ op.
        is_plain_write op
        && option_beq op.hart source.hart
        && py_eq op.address source.address
        && index_ltb source.program_index op.program_index
        && index_ltb op.program_index target.program_index)
      (values operations)

-- The body of the loop over po: whether the edge is kept.
unfoldable pub keeps_edge : Operations → List (String × String) → Edge → Result Bool
unfolding lookup py_eq intervening_store
keeps_edge operations sources (source_id, target_id) =
    or_key_error (lookup source_id operations) >>= λ source.
    or_key_error (lookup target_id operations) >>= λ target.
    (if not (is_read source && is_read target) || not (py_eq source.address target.address)
      then ok false
      else (or_key_error (lookup source.id sources) >>= λ a.
          or_key_error (lookup target.id sources) >>= λ b.
          (if a == b
            then ok false
            else (guard (option_beq source.hart target.hart) assertion_error
                >> guard (not (is_none source.program_index || is_none target.program_index))
                    assertion_error
                >> ok (not (intervening_store operations source target))))))

unfoldable pub kept_edges : Operations → List (String × String) → List Edge → Result (List Edge)
unfolding keeps_edge
kept_edges operations sources [] = ok []
kept_edges operations sources (edge ∷ edges) = keeps_edge operations sources edge >>= λ keep.
    kept_edges operations sources edges >>= λ rest. ok (if keep then edge ∷ rest else rest)

unfoldable pub ppo_relation :
    Relation → List (String × String) → Operations → List String → Result Relation
unfolding kept_edges from_edges has
ppo_relation po sources operations rules =
    if has "load_load_different_write" rules
    then (kept_edges operations sources po.edges >>= from_edges "ppo")
    else from_edges "ppo" []

pub data DerivedOp : Type 0 where
  union_op intersection_op difference_op inverse_op compose_op closure_op : DerivedOp

pub record DerivedRelationSpec : Type 0 where
  pub name : String
  pub op : DerivedOp
  pub relations : List String

abbrev pub arity_is_valid : DerivedOp → ℕ → Bool
arity_is_valid union_op arity = leb 1 arity
arity_is_valid intersection_op arity = arity == 2
arity_is_valid difference_op arity = arity == 2
arity_is_valid inverse_op arity = arity == 1
arity_is_valid compose_op arity = arity == 2
arity_is_valid closure_op arity = arity == 1

-- The tests of `__post_init__`.
unfoldable pub make_derived : DerivedRelationSpec → Result DerivedRelationSpec
make_derived spec =
    guard (truthy spec.name) axiom_error
    >> guard (arity_is_valid spec.op (length spec.relations)) axiom_error
    >> ok spec

unfoldable pub operands_of : List (String × Relation) → List String → Result (List Relation)
unfolding lookup
operands_of relations [] = ok []
operands_of relations (name ∷ names) =
    or_raise (lookup name relations) >>= λ r. operands_of relations names >>= λ rs. ok (r ∷ rs)

-- `none` stands for a closure that ran out of rounds, which it does not.
abbrev pub finished_closure : Option (Result Relation) → Result Relation
finished_closure none = err recursion_error
finished_closure (some r) = r

-- The operation on the operands. An operand that is missing, which `make_derived` rules out, is an
-- IndexError.
unfoldable pub apply_op : DerivedOp → String → List String → List Relation → Result Relation
unfolding union_relations intersection difference inverse compose transitive_closure
apply_op union_op name nodes rs = union_relations name rs
apply_op intersection_op name nodes (r ∷ (s ∷ rs)) = intersection (some name) r s
apply_op difference_op name nodes (r ∷ (s ∷ rs)) = difference (some name) r s
apply_op compose_op name nodes (r ∷ (s ∷ rs)) = compose (some name) r s
apply_op inverse_op name nodes (r ∷ rs) = inverse (some name) r
apply_op closure_op name nodes (r ∷ rs) = finished_closure (transitive_closure nodes (some name) r)
apply_op op name nodes rs = err index_error

unfoldable pub derive_relation :
    DerivedRelationSpec → List (String × Relation) → List String → Result Relation
unfolding operands_of apply_op
derive_relation spec relations nodes =
    operands_of relations spec.relations >>= apply_op spec.op spec.name nodes
