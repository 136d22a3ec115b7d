-- ===== src/Graph/Relation/Algebra.antt =====
-- The operations of relation.py on valid relations: none of them raises, the result is valid
-- again, and its edges are those of the relational operation.
use com_mcm.Prelude.{
  ◌≡◌, refl, sym, ap, ◌↔◌, ◌⊎◌, inl, inr, String, Bool, true, not, Option, none, some, List, map,
  Memᴰ, Memᴰ-append, Memᴰ-flat_map, Memᴰ-map, Memᴰ-filter, Memᴰ-to_set, all_iff, has_iff,
  has-eq-false, has, filter, flat_map, to_set, arith, ◌==◌, text_eq_instance, pair_eq,
}
use Prim.Native.String.{◌++◌}
use mathlib.Core.List.{◌++◌ as append}
use mathlib.Core.List.Memᴰ
use text.Mathlib.TextLemmas.{append-eq-nil_iff}
use com_mcm.Errors.{Result, ok}
use com_mcm.Graph.Relation.{
  Edge, Relation, truthy, or_text, edge_is_valid, is_valid, from_edges, swap, inverse, union,
  intersection, difference, successors, compose_edges, compose, union_relations,
}

abbrev pub IsValid : Relation → Type 0
IsValid r = is_valid r ≡ true

-- `result` is a valid relation that holds exactly the edges of which `P` holds.
pub record Returns (result : Result Relation) (P : Edge → Type 0) : Type 0 where
  pub relation : Relation
  pub returned : result ≡ ok relation
  pub valid : IsValid relation
  pub members : (e : Edge) → Memᴰ e relation.edges ↔ P e

pub valid_name : (r : Relation) → IsValid r → truthy r.name ≡ true
unfolding is_valid
valid_name r v = ground arith

pub valid_edge : (r : Relation) (e : Edge) → IsValid r → Memᴰ e r.edges → edge_is_valid e ≡ true
unfolding is_valid
valid_edge r e v m = (all_iff edge_is_valid r.edges).0 (ground arith) e m

truthy_iff : (s : String) → (truthy s ≡ true) ↔ (s ≡ "" → ⊥)
truthy_iff s = ground (arith, text_eq_instance.beq_iff s "")

pub truthy-append : (s t : String) → truthy s ≡ true → truthy (s ++ t) ≡ true
truthy-append s t h =
    (truthy_iff (s ++ t)).1 (λ e. (truthy_iff s).0 h ((append-eq-nil_iff {p = s} {q = t}).0 e).0)

pub truthy-or_text :
    (n : Option String) (d : String) → truthy d ≡ true → truthy (or_text n d) ≡ true
truthy-or_text none d h = h
truthy-or_text (some s) d h = ground arith

pub from_edges_lem :
    (name : String) (edges : List Edge)
    → truthy name ≡ true
    → ((e : Edge) → Memᴰ e edges → edge_is_valid e ≡ true)
    → Returns (from_edges name edges) (λ e. Memᴰ e edges)
unfolding from_edges is_valid
from_edges_lem name edges n h =
    let every = (all_iff edge_is_valid (to_set edges)).1 (λ e m. h e ((Memᴰ-to_set e edges).0 m)) in
    record {
      relation = record { name = name; edges = to_set edges };
      returned = rw (n, every) refl;
      valid = rw (n, every) refl;
      members = λ e. Memᴰ-to_set e edges;
    }

module _ {P Q : Edge → Type 0} where
  pub Returns-map : {m : Result Relation} → ((e : Edge) → P e ↔ Q e) → Returns m P → Returns m Q
  Returns-map h r = record {
    relation = r.relation;
    returned = r.returned;
    valid = r.valid;
    members = λ e. (λ m. (h e).0 ((r.members e).0 m), λ q. (r.members e).1 ((h e).1 q));
  }

-- The inverse of a valid relation raises nothing, is valid, and holds its edges turned round.
pub inverse_lem :
    (name : Option String) (r : Relation)
    → IsValid r
    → Returns (inverse name r) (λ (a, b). Memᴰ (b, a) r.edges)
unfolding inverse
inverse_lem name r v =
    Returns-map (λ (a, b). swapped a b)
      (from_edges_lem _ _ (truthy-or_text name _ (truthy-append r.name "^-1" (valid_name r v)))
        (λ (a, b) m. turned a b ((swapped a b).0 m)))
  where
    swapped : (a b : String) → Memᴰ (a, b) (map swap r.edges) ↔ Memᴰ (b, a) r.edges
    swapped a b = (
      λ m. let ((c, d), k, e) = (Memᴰ-map swap (a, b) r.edges).0 m in Memᴰ.cast (ap swap (sym e)) k,
      λ m. (Memᴰ-map swap (a, b) r.edges).1 ((b, a), m, refl),
    )

    turned : (a b : String) → Memᴰ (b, a) r.edges → edge_is_valid (a, b) ≡ true
    turned a b m = ground (arith, valid_edge r (b, a) v m)

-- The union of valid relations raises nothing, is valid, and holds the edges that one of them
-- holds.
pub union_lem :
    (name : Option String) (r : Relation) (others : List Relation)
    → IsValid r
    → ((s : Relation) → Memᴰ s others → IsValid s)
    → Returns
        (union name r others)
        (λ e. Memᴰ e r.edges ⊎ (s : Relation) × Memᴰ s others × Memᴰ e s.edges)
unfolding union
union_lem name r others v vs = Returns-map either (
    from_edges_lem _ _ (truthy-or_text name _ (valid_name r v)) (λ e m. elim ((either e).0 m) [
      | inl k ↦ valid_edge r e v k
      | inr (s, k, l) ↦ valid_edge s e (vs s k) l
    ]))
  where
    rest : List Edge
    rest = flat_map (λ s. s.edges) others

    either :
        (e : Edge)
        → Memᴰ e (append r.edges rest)
          ↔ (Memᴰ e r.edges ⊎ (s : Relation) × Memᴰ s others × Memᴰ e s.edges)
    either e = (
      λ m. elim ((Memᴰ-append e r.edges rest).0 m) [
        | inl k ↦ inl k
        | inr k ↦ inr ((Memᴰ-flat_map (λ (s : Relation). s.edges) e others).0 k)
      ],
      λ m. elim m [
        | inl k ↦ (Memᴰ-append e r.edges rest).1 (inl k)
        | inr k ↦
            (Memᴰ-append e r.edges rest).1
              (inr ((Memᴰ-flat_map (λ (s : Relation). s.edges) e others).1 k))
      ],
    )

-- The intersection of a valid relation with another raises nothing, is valid, and holds the edges
-- that both hold.
pub intersection_lem :
    (name : Option String) (r s : Relation)
    → IsValid r
    → Returns (intersection name r s) (λ e. Memᴰ e r.edges × Memᴰ e s.edges)
unfolding intersection
intersection_lem name r s v =
    Returns-map (λ e. ground (arith, Memᴰ-filter test e r.edges, has_iff e s.edges))
      (from_edges_lem _ _ (truthy-or_text name _ (valid_name r v))
        (λ e m. valid_edge r e v ((Memᴰ-filter test e r.edges).0 m).0))
  where
    test : Edge → Bool
    test edge = has edge s.edges

-- The difference of a valid relation and another raises nothing, is valid, and holds the edges
-- that the first holds and the second does not.
pub difference_lem :
    (name : Option String) (r s : Relation)
    → IsValid r
    → Returns (difference name r s) (λ e. Memᴰ e r.edges × ¬ Memᴰ e s.edges)
unfolding difference
difference_lem name r s v =
    Returns-map
      (λ e. (
        λ m. ground (arith, (Memᴰ-filter test e r.edges).0 m, has_iff e s.edges),
        λ (m, n). (Memᴰ-filter test e r.edges).1 (m, ap not (has-eq-false e s.edges n)),
      ))
      (from_edges_lem _ _ (truthy-or_text name _ (valid_name r v))
        (λ e m. valid_edge r e v ((Memᴰ-filter test e r.edges).0 m).0))
  where
    test : Edge → Bool
    test edge = not (has edge s.edges)

-- The targets of the edges out of `a`.
pub Memᴰ-successors :
    (edges : List Edge) (a b : String) → Memᴰ b (successors edges a) ↔ Memᴰ (a, b) edges
unfolding successors
Memᴰ-successors edges a b = (to, from)
  where
    out : Edge → Bool
    out edge = edge.0 == a

    to : Memᴰ b (map (λ (edge : Edge). edge.1) (filter out edges)) → Memᴰ (a, b) edges
    to m =
        let ((c, d), k, e) = (Memᴰ-map (λ (edge : Edge). edge.1) b (filter out edges)).0 m in
        let (l, t) = (Memᴰ-filter out (c, d) edges).0 k in
        Memᴰ.cast (λ i. (sym ((text_eq_instance.beq_iff c a).0 t) i, sym e i)) l

    from : Memᴰ (a, b) edges → Memᴰ b (map (λ (edge : Edge). edge.1) (filter out edges))
    from m =
        (Memᴰ-map (λ (edge : Edge). edge.1) b (filter out edges)).1 (
          (a, b),
          (Memᴰ-filter out (a, b) edges).1 (m, (text_eq_instance.beq_iff a a).1 refl),
          refl,
        )

Memᴰ-compose_edges :
    (left right : List Edge) (a c : String)
    → Memᴰ (a, c) (compose_edges left right) ↔ ((b : String) × Memᴰ (a, b) left × Memᴰ (b, c) right)
unfolding compose_edges
Memᴰ-compose_edges left right a c = (to, from)
  where
    paths : Edge → List Edge
    paths (source, middle) = map (λ target. (source, target)) (successors right middle)

    to : Memᴰ (a, c) (flat_map paths left) → (b : String) × Memᴰ (a, b) left × Memᴰ (b, c) right
    to m =
        let ((s, b), k, l) = (Memᴰ-flat_map paths (a, c) left).0 m in
        let (t, n, e) =
          (Memᴰ-map (λ (target : String). (s, target)) (a, c) (successors right b)).0 l in
        let o = (Memᴰ-successors right b t).0 n in
        (b, Memᴰ.cast (λ i. ((sym e i).0, b)) k, Memᴰ.cast (λ i. (b, (sym e i).1)) o)

    from : (b : String) × Memᴰ (a, b) left × Memᴰ (b, c) right → Memᴰ (a, c) (flat_map paths left)
    from (b, k, l) = (Memᴰ-flat_map paths (a, c) left).1 (
      (a, b),
      k,
      (Memᴰ-map (λ (target : String). (a, target)) (a, c) (successors right b)).1
          (c, (Memᴰ-successors right b c).1 l, refl),
    )

-- The composition of valid relations raises nothing, is valid, and holds a pair exactly if some
-- middle node joins an edge of `r` to an edge of `s`.
pub compose_lem :
    (name : Option String) (r s : Relation)
    → IsValid r
    → IsValid s
    → Returns
        (compose name r s)
        (λ (a, c). (b : String) × Memᴰ (a, b) r.edges × Memᴰ (b, c) s.edges)
unfolding compose
compose_lem name r s v w =
    Returns-map (λ (a, c). Memᴰ-compose_edges r.edges s.edges a c)
      (from_edges_lem _ _
        (truthy-or_text name _
          (truthy-append (r.name ++ ";") s.name (truthy-append r.name ";" (valid_name r v))))
        (λ (a, c) m. joined a c ((Memᴰ-compose_edges r.edges s.edges a c).0 m)))
  where
    joined :
        (a c : String)
        → ((b : String) × Memᴰ (a, b) r.edges × Memᴰ (b, c) s.edges)
        → edge_is_valid (a, c) ≡ true
    joined a c (b, k, l) = ground (arith, valid_edge r (a, b) v k, valid_edge s (b, c) w l)

-- The union of any number of valid relations under a non-empty name raises nothing, is valid, and
-- holds the edges that one of them holds.
pub union_relations_lem :
    (name : String) (relations : List Relation)
    → truthy name ≡ true
    → ((s : Relation) → Memᴰ s relations → IsValid s)
    → Returns
        (union_relations name relations)
        (λ e. (s : Relation) × Memᴰ s relations × Memᴰ e s.edges)
unfolding union_relations
union_relations_lem name relations n vs =
    Returns-map (λ e. Memᴰ-flat_map (λ (s : Relation). s.edges) e relations)
      (from_edges_lem _ _ n (λ e m.
        let (s, k, l) = (Memᴰ-flat_map (λ (s : Relation). s.edges) e relations).0 m in
        valid_edge s e (vs s k) l))
