-- ===== src/Graph/Cycle.antt =====
-- `find_labeled_cycle` of src/umcm/graph/relation.py: the depth-first search with three colours.
pub mod Invariant
pub mod Search
pub mod Step
pub mod Verdict
use com_mcm.Prelude.{
  ◌≡◌, String, Bool, true, false, Option, none, some, List, [], ◌∷◌, has, to_set, flat_map, sorted,
  text_leb, if◌then◌else◌, ◌==◌, text_eq_instance, pair_eq, ℕ, zero, suc, length, drop, map, ◌++◌,
}
use com_mcm.Errors.{Result, ok, err, Error, key_error, ◌>>=◌}
use com_mcm.Graph.Relation.{Edge, Relation, successors, endpoints}

pub record LabeledEdge : Type 0 where
  pub source : String
  pub relation : String
  pub target : String

-- The values 0, 1 and 2 of `color`.
pub data Color : Type 0 where
  white gray black : Color

-- `stack` grows at its end. `color` and `position` are the dicts, as functions.
pub record State : Type 0 where
  pub color : String → Color
  pub stack : List String
  pub position : String → Option ℕ

-- `mapping[key] = value`
abbrev pub update {ℓ} : {V : Type ℓ} → (String → V) → String → V → String → V
update f key v x = if x == key then v else f x

-- A search returns a cycle, or goes on in a new state, or raises. `exhausted`: the recursion
-- was cut off.
pub data Outcome : Type 0 where
  found : List LabeledEdge → Outcome
  finished : State → Outcome
  raised : Error → Outcome
  exhausted : Outcome

-- Go on only where no cycle was found: `if found is not None: return found`.
abbrev pub and_then : Outcome → (State → Outcome) → Outcome
and_then (found es) next = found es
and_then (finished s) next = next s
and_then (raised e) next = raised e
and_then exhausted next = exhausted

-- `stack.pop()`
unfoldable pub pop : List String → List String
pop [] = []
pop (x ∷ []) = []
pop (x ∷ (y ∷ ys)) = x ∷ pop (y ∷ ys)

-- `labels[edge]`: `setdefault` keeps the name of the first relation that holds the edge.
unfoldable pub label : Edge → List Relation → Result String
label e [] = err key_error
label e (r ∷ rs) = if has e r.edges then ok r.name else label e rs

abbrev pub enter : String → State → State
enter node s = record {
  color = update s.color node gray;
  stack = s.stack ++ (node ∷ []);
  position = update s.position node (some (length s.stack));
}

abbrev pub leave : String → State → State
leave node s = record {
  color = update s.color node black;
  stack = pop s.stack;
  position = update s.position node none;
}

abbrev pub initial : State
initial = record { color = λ x. white; stack = []; position = λ x. none }

module _ (relations : List Relation) where
  abbrev pub all_edges : List Edge
  all_edges = flat_map (λ r. r.edges) relations

  -- `sorted(adjacency.get(node, ()))`
  unfoldable pub targets : String → List String
  targets node = sorted text_leb (to_set (successors all_edges node))

  abbrev pub nodes : List String
  nodes = sorted text_leb (to_set (endpoints all_edges))

  -- The labelled edges along `cycle_nodes`.
  unfoldable pub label_path : List String → Result (List LabeledEdge)
  unfolding label
  label_path [] = ok []
  label_path (a ∷ []) = ok []
  label_path (a ∷ (b ∷ rest)) = label (a, b) relations >>= λ name.
      label_path (b ∷ rest) >>= λ es. ok (record { source = a; relation = name; target = b } ∷ es)

  abbrev pub outcome_of : Result (List LabeledEdge) → Outcome
  outcome_of (ok es) = found es
  outcome_of (err e) = raised e

  -- The branch at a node on the stack: `stack[start:] + [target]` is a cycle.
  unfoldable pub close : String → State → Outcome
  unfolding label_path
  close target s = elim (s.position target) [
    | none ↦ raised key_error
    | some start ↦ outcome_of (label_path (drop start s.stack ++ (target ∷ [])))
  ]

  -- The loop over the targets, given `dfs`.
  unfoldable pub scan : (String → State → Outcome) → List String → State → Outcome
  unfolding close
  scan dfs [] s = finished s
  scan dfs (target ∷ rest) s = elim (s.color target) [
    | white ↦ and_then (dfs target s) (λ t. scan dfs rest t)
    | gray ↦ close target s
    | black ↦ scan dfs rest s
  ]

  unfoldable pub dfs : ℕ → String → State → Outcome
  unfolding scan targets pop
  dfs zero node s = exhausted
  dfs (suc depth) node s =
      and_then (scan (dfs depth) (targets node) (enter node s)) (λ t. finished (leave node t))

  -- The loop over the nodes at the end of the function.
  unfoldable pub search : ℕ → List String → State → Outcome
  unfolding dfs
  search depth [] s = finished s
  search depth (node ∷ rest) s = elim (s.color node) [
    | white ↦ and_then (dfs depth node s) (λ t. search depth rest t)
    | gray ↦ search depth rest s
    | black ↦ search depth rest s
  ]

  -- A path without repetition holds each node at most once, so the recursion is no deeper than
  -- the number of nodes.
  unfoldable pub find_labeled_cycle : Outcome
  unfolding search
  find_labeled_cycle = search (length nodes) nodes initial
