-- ===== src/Graph/Relation.antt =====
-- Finite binary relations: src/umcm/graph/relation.py. A frozenset of edges is the list of its
-- members; the theorems speak of membership only.
pub mod Algebra
pub mod Closure
use com_mcm.Prelude.{
  ◌≡◌, String, Bool, true, false, not, ◌&&◌, Option, none, some, List, [], ◌∷◌, map, has, add,
  to_set, filter, all, flat_map, length, ℕ, zero, suc, ◌+◌, sorted, text_leb, if◌then◌else◌, ◌==◌,
  text_eq_instance, pair_eq, Memᴰ,
}
use Prim.Native.String.{◌++◌}
use mathlib.Core.List.{◌++◌ as append}
use mathlib.Core.Option
use com_mcm.Errors.{Result, ok, err, Error, graph_error, guard, ◌>>=◌, ◌>>◌}

abbrev pub Edge : Type 0
Edge = String × String

pub record Relation : Type 0 where
  pub name : String
  pub edges : List Edge

-- `bool(text)`
abbrev pub truthy : String → Bool
truthy s = not (s == "")

-- `first or second`
abbrev pub or_text : Option String → String → String
or_text none d = d
or_text (some s) d = if truthy s then s else d

abbrev pub edge_is_valid : Edge → Bool
edge_is_valid (a, b) = truthy a && truthy b

-- the tests of `__post_init__`
unfoldable pub is_valid : Relation → Bool
is_valid r = truthy r.name && all edge_is_valid r.edges

unfoldable pub make : Relation → Result Relation
unfolding is_valid
make r = do guard (is_valid r) graph_error; ok r

unfoldable pub from_edges : String → List Edge → Result Relation
unfolding make
from_edges name edges = make (record { name = name; edges = to_set edges })

unfoldable pub contains : Relation → String → String → Bool
contains r source target = has (source, target) r.edges

-- the order of tuples of texts
abbrev pub edge_leb : Edge → Edge → Bool
edge_leb (a, b) (c, d) = if a == c then text_leb b d else text_leb a c

unfoldable pub sorted_edges : Relation → List Edge
sorted_edges r = sorted edge_leb r.edges

abbrev pub swap : Edge → Edge
swap (source, target) = (target, source)

unfoldable pub inverse : Option String → Relation → Result Relation
unfolding from_edges
inverse name r = from_edges (or_text name (r.name ++ "^-1")) (map swap r.edges)

-- `self.union(*others, name=name)`
unfoldable pub union : Option String → Relation → List Relation → Result Relation
unfolding from_edges
union name r others =
    from_edges (or_text name r.name) (append r.edges (flat_map (λ s. s.edges) others))

unfoldable pub intersection : Option String → Relation → Relation → Result Relation
unfolding from_edges
intersection name r s = from_edges (or_text name r.name) (filter (λ edge. has edge s.edges) r.edges)

unfoldable pub difference : Option String → Relation → Relation → Result Relation
unfolding from_edges
difference name r s =
    from_edges (or_text name r.name) (filter (λ edge. not (has edge s.edges)) r.edges)

-- The members of `adjacency[source]`: the targets of the edges out of `source`.
unfoldable pub successors : List Edge → String → List String
successors edges source = map (λ edge. edge.1) (filter (λ edge. edge.0 == source) edges)

unfoldable pub compose_edges : List Edge → List Edge → List Edge
unfolding successors
compose_edges left right =
    flat_map (λ (source, middle). map (λ target. (source, target)) (successors right middle)) left

unfoldable pub compose : Option String → Relation → Relation → Result Relation
unfolding from_edges compose_edges
compose name r s =
    from_edges (or_text name ((r.name ++ ";") ++ s.name)) (compose_edges r.edges s.edges)

unfoldable pub union_relations : String → List Relation → Result Relation
unfolding from_edges
union_relations name relations = from_edges name (flat_map (λ r. r.edges) relations)

-- The endpoints of the edges.
unfoldable pub endpoints : List Edge → List String
endpoints edges = flat_map (λ (source, target). source ∷ target ∷ []) edges

-- The `while stack` loop of one source: the head of `stack` is the element that `pop` takes.
-- `none` means that the rounds ran out.
unfoldable pub walk :
    List Edge
    → String
    → ℕ
    → List String
    → List String
    → List Edge
    → Option (List String × List Edge)
unfolding successors
walk edges source fuel [] seen closure = some (seen, closure)
walk edges source zero (target ∷ stack) seen closure = none
walk edges source (suc fuel) (target ∷ stack) seen closure =
    let again = walk edges source fuel stack seen closure in
    let visit =
      walk edges source fuel (append (successors edges target) stack) (target ∷ seen)
        ((source, target) ∷ closure) in
    if has target seen then again else visit

-- The loop over the sources. Each pop either drops an element or marks a node and pushes its
-- successors, so a source takes at most as many rounds as it pushes edges.
unfoldable pub close_sources : List Edge → List String → List Edge → Option (List Edge)
unfolding walk Option.bind
close_sources edges [] closure = some closure
close_sources edges (source ∷ sources) closure =
    Option.bind
      (walk edges source (length (successors edges source) + length edges) (successors edges source)
        [] closure)
      (λ (seen, closure'). close_sources edges sources closure')

unfoldable pub transitive_closure :
    List String → Option String → Relation → Option (Result Relation)
unfolding close_sources from_edges endpoints
transitive_closure nodes name r =
    Option.map (from_edges (or_text name (r.name ++ "+")))
      (close_sources r.edges (sorted text_leb (to_set (append nodes (endpoints r.edges)))) [])
