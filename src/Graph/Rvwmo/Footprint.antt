-- ===== src/Graph/Rvwmo/Footprint.antt =====
-- The bytes and the ordering bits of an operation: `_footprint` to `_rcsc` of
-- src/umcm/graph/rvwmo.py.
use com_mcm.Prelude.{
  String, Bool, ◌&&◌, ◌||◌, Option, none, some, List, [], ◌∷◌, ℕ, zero, suc, ◌/◌, ◌%◌,
  if◌then◌else◌, ◌==◌, nat_eq, any, all, map,
}
use com_mcm.Prelude.Int.{ℤ, pos, ◌+ℤ◌, leb_ℤ, pos_part}
use com_mcm.Errors.{Result, ok, err, graph_error, ◌>>=◌}
use com_mcm.Ir.Sort.{Value, int, text, null}
use com_mcm.Solver.Value.{number, py_eq}
use com_mcm.Graph.Execution.{Meta, scalar, sequence, MemoryOperation, lower, spells, word, flag}

-- `offset, ..., offset + n - 1`
unfoldable pub range : ℕ → ℕ → List ℕ
range offset zero = []
range offset (suc n) = offset ∷ range (suc offset) n

-- The positions of the set bits of `mask`, which has at most `fuel` bits.
unfoldable pub set_bits : ℕ → ℕ → ℕ → List ℕ
set_bits zero mask offset = []
set_bits (suc fuel) zero offset = []
set_bits (suc fuel) (suc mask) offset =
    let rest = set_bits fuel (suc mask / 2) (suc offset) in
    if (suc mask % 2) == 1 then offset ∷ rest else rest

-- The addresses at the given offsets.
abbrev pub addresses : ℤ → List ℕ → List Value
addresses base offsets = map (λ offset. int (base +ℤ pos offset)) offsets

-- The integer that a value of `metadata` is, if it is one.
abbrev pub meta_number : Option Meta → Option ℤ
meta_number (some (scalar v)) = number v
meta_number _ = none

-- `metadata.get("size", 1)`
abbrev pub size_of : Option Meta → Option ℤ
size_of none = some (pos 1)
size_of (some m) = meta_number (some m)

unfoldable pub sized : Value → Option ℤ → Option ℤ → Result (List Value)
unfolding range
sized address (some base) (some size) =
    if leb_ℤ size (pos 0) then err graph_error else ok (addresses base (range 0 (pos_part size)))
sized address _ _ = ok (address ∷ [])

unfoldable pub masked : Value → Option ℤ → Option ℤ → Option ℤ → Result (List Value)
unfolding sized set_bits
masked address (some base) (some mask) size =
    if leb_ℤ mask (pos 0)
    then err graph_error
    else ok (addresses base (set_bits (pos_part mask) (pos_part mask) 0))
masked address base _ size = sized address base size

unfoldable pub explicit_or : Result (List Value) → Option Meta → Result (List Value)
explicit_or default none = default
explicit_or default (some (scalar null)) = default
explicit_or default (some (scalar v)) = err graph_error
explicit_or default (some (sequence [])) = err graph_error
explicit_or default (some (sequence (v ∷ vs))) = ok (v ∷ vs)

unfoldable pub footprint : MemoryOperation → Result (List Value)
unfolding explicit_or masked
footprint op =
    explicit_or
      (masked op.address (number op.address) (meta_number (op.metadata "byte_mask"))
        (size_of (op.metadata "size")))
      (op.metadata "byte_addresses")

-- `value in values`
unfoldable pub holds : Value → List Value → Bool
unfolding any
holds v vs = any (py_eq v) vs

-- `bool(xs & ys)`
unfoldable pub meets : List Value → List Value → Bool
unfolding any holds
meets xs ys = any (λ v. holds v ys) xs

-- `xs == ys` on sets
unfoldable pub same_set : List Value → List Value → Bool
unfolding all holds
same_set xs ys = all (λ v. holds v ys) xs && all (λ v. holds v xs) ys

unfoldable pub overlap : MemoryOperation → MemoryOperation → Result Bool
unfolding footprint meets
overlap left right = footprint left >>= λ xs. footprint right >>= λ ys. ok (meets xs ys)

unfoldable pub same_location : MemoryOperation → MemoryOperation → Result Bool
unfolding footprint same_set
same_location left right = footprint left >>= λ xs. footprint right >>= λ ys. ok (same_set xs ys)

-- `text in words`
unfoldable pub is_one_of : List String → List ℕ → Bool
unfolding any spells
is_one_of words w = any (spells w) words

unfoldable pub regular : MemoryOperation → Bool
unfolding is_one_of lower
regular op =
    is_one_of ("main" ∷ "regular" ∷ "memory" ∷ []) (word "main" (op.metadata "memory_region"))

-- `.replace("-", "_")`
abbrev pub underscored : List ℕ → List ℕ
underscored w = map (λ c. if c == 45 then 95 else c) w

abbrev pub token : Value → List ℕ
token v = underscored (word "" (some (scalar v)))

unfoldable pub tokens : MemoryOperation → List (List ℕ)
unfolding lower
tokens op = elim (op.metadata "ordering") [
  | none ↦ []
  | some (scalar (text s)) ↦ token (text s) ∷ []
  | some (scalar v) ↦ []
  | some (sequence vs) ↦ map token vs
]

-- `bool(tokens & words)`
abbrev pub has_token : MemoryOperation → List String → Bool
has_token op words = any (is_one_of words) (tokens op)

unfoldable pub acquire : MemoryOperation → Bool
unfolding tokens any is_one_of
acquire op =
    flag (op.metadata "acquire")
    || has_token op ("acquire" ∷ "acquire_rcpc" ∷ "acquire_rcsc" ∷ "aq" ∷ [])

unfoldable pub release : MemoryOperation → Bool
unfolding tokens any is_one_of
release op =
    flag (op.metadata "release")
    || has_token op ("release" ∷ "release_rcpc" ∷ "release_rcsc" ∷ "rl" ∷ [])

unfoldable pub rcsc : MemoryOperation → Bool
unfolding tokens any is_one_of
rcsc op =
    flag (op.metadata "rcsc")
    || has_token op ("acquire_rcsc" ∷ "release_rcsc" ∷ "rcsc" ∷ "aq" ∷ "rl" ∷ [])
