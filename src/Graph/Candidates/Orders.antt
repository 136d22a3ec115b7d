-- ===== src/Graph/Candidates/Orders.antt =====
-- The coherence orders of a candidate space (build_candidate_space, src/umcm/graph/builder.py).
use com_mcm.Prelude.{
  ◌≡◌, refl, sym, ap, ◌∙◌, subst, ◌↔◌, inl, inr, String, Bool, true, false, List, [], ◌∷◌, ◌++◌,
  map, filter, text_leb, Memᴰ, Memᴰ-filter, Memᴰ-sorted, Memᴰ-map, NoDup, sorted-NoDup, length, ◌≤◌,
  arith,
}
use mathlib.Core.List.Memᴰ
use com_mcm.Graph.Builder.{is_plain_write}
use com_mcm.Graph.Execution.{MemoryOperation, OperationKind, init_write, read, write, amo, is_init}
use com_mcm.Graph.Projection.Distinct.{ids_in, ids_in-filter, ids_in-injective}
use com_mcm.Graph.Candidates.{ids_of, is_initial, possible_orders, permutations}
use com_mcm.Graph.Candidates.Permutations.{permutations_iff}

-- The id of a listed operation with a property.
abbrev pub IsIdOf : (MemoryOperation → Bool) → List MemoryOperation → String → Type 0
IsIdOf p ws id = (w : MemoryOperation) × Memᴰ w ws × (p w ≡ true) × (id ≡ w.id)

ids_of_iff :
    (p : MemoryOperation → Bool) (ws : List MemoryOperation) (id : String)
    → Memᴰ id (ids_of p ws) ↔ IsIdOf p ws id
ids_of_iff p ws id = (
  λ m.
      let (w, k, e) = (Memᴰ-map (λ w. w.id) id (filter p ws)).0 ((Memᴰ-sorted text_leb id _).0 m) in
      let (l, t) = (Memᴰ-filter p w ws).0 k in (w, l, t, sym e),
  λ (w, l, t, e).
      (Memᴰ-sorted text_leb id _).1
        ((Memᴰ-map (λ w. w.id) id (filter p ws)).1 (w, (Memᴰ-filter p w ws).1 (l, t), sym e)),
)

ids_of-NoDup :
    (p : MemoryOperation → Bool) (ws : List MemoryOperation)
    → NoDup (ids_in ws)
    → NoDup (ids_of p ws)
ids_of-NoDup p ws d = sorted-NoDup text_leb _ (ids_in-filter p ws d)

not_both : (k : OperationKind) → is_init k ≡ true → (elim k [ write ↦ true | _ ↦ false ]) ≡ true → ⊥
not_both init_write h i = cc
not_both read h i = cc
not_both write h i = cc
not_both amo h i = cc

module _ {A : Type 0} where
  NoDup-append :
      (xs ys : List A)
      → NoDup xs
      → NoDup ys
      → ((a : A) → Memᴰ a xs → ¬ Memᴰ a ys)
      → NoDup (xs ++ ys)
  NoDup-append [] ys d e n = e
  NoDup-append (x ∷ xs) ys d e n = (
    λ m. elim (Memᴰ.append_cases xs m) [ inl k ↦ d.0 k | inr k ↦ n x (Memᴰ.head refl) k ],
    NoDup-append xs ys d.1 e (λ a m. n a (Memᴰ.tail m)),
  )

  append-NoDup : (xs ys : List A) → NoDup (xs ++ ys) → NoDup ys
  append-NoDup [] ys d = d
  append-NoDup (x ∷ xs) ys d = append-NoDup xs ys d.1

  -- Two lists of at most one member, the same.
  single-eq :
      (xs ys : List A) → length xs ≤ 1 → length ys ≤ 1 → ((a : A) → Memᴰ a xs ↔ Memᴰ a ys) → xs ≡ ys
  single-eq [] [] h k s = refl
  single-eq [] (y ∷ ys) h k s = absurd (Memᴰ.not-nil ((s y).1 (Memᴰ.head refl)))
  single-eq (x ∷ xs) [] h k s = absurd (Memᴰ.not-nil ((s x).0 (Memᴰ.head refl)))
  single-eq (x ∷ []) (y ∷ []) h k s = elim (Memᴰ.cases_cons ((s x).0 (Memᴰ.head refl))) [
    | inl e ↦ ap (λ z. z ∷ []) e
    | inr m ↦ absurd (Memᴰ.not-nil m)
  ]
  single-eq (x ∷ []) (y ∷ (z ∷ ys)) h k s = absurd (omega (arith, k))
  single-eq (x ∷ (z ∷ xs)) (y ∷ ys) h k s = absurd (omega (arith, h))

-- The initial write of some writes, if there is one, then the plain writes, each once.
pub record IsOrder (ws : List MemoryOperation) (order : List String) : Type 0 where
  pub front : List String
  pub rest : List String
  pub split : order ≡ front ++ rest
  pub once : NoDup order
  pub single : length front ≤ 1
  pub initial : (id : String) → Memᴰ id front ↔ IsIdOf is_initial ws id
  pub plain : (id : String) → Memᴰ id rest ↔ IsIdOf is_plain_write ws id

pub possible_orders_iff :
    (ws : List MemoryOperation)
    → NoDup (ids_in ws)
    → length (ids_of is_initial ws) ≤ 1
    → (order : List String) → Memᴰ order (possible_orders ws) ↔ IsOrder ws order
unfolding possible_orders
possible_orders_iff ws d l order = (to, from)
  where
    to :
        Memᴰ order
          (map (λ rest. ids_of is_initial ws ++ rest) (permutations (ids_of is_plain_write ws)))
        → IsOrder ws order
    to m =
        let (rest, k, e) =
          (Memᴰ-map (λ rest. ids_of is_initial ws ++ rest) order
              (permutations (ids_of is_plain_write ws))).0
            m in
        let (once, same) =
          (permutations_iff (ids_of is_plain_write ws) (ids_of-NoDup is_plain_write ws d) rest).0
            k in
        record {
          front = ids_of is_initial ws;
          rest = rest;
          split = sym e;
          once = subst NoDup e (
              NoDup-append (ids_of is_initial ws) rest (ids_of-NoDup is_initial ws d) once (λ a m n.
                let (v, p, t, i) = (ids_of_iff is_initial ws a).0 m in
                let (w, q, u, j) = (ids_of_iff is_plain_write ws a).0 ((same a).0 n) in
                let s = ids_in-injective ws d v w p q (sym i ∙ j) in
                not_both v.kind t (ap is_plain_write s ∙ u)));
          single = l;
          initial = ids_of_iff is_initial ws;
          plain = λ id. (
            λ m. (ids_of_iff is_plain_write ws id).0 ((same id).0 m),
            λ m. (same id).1 ((ids_of_iff is_plain_write ws id).1 m),
          );
        }

    from :
        IsOrder ws order
        → Memᴰ order
            (map (λ rest. ids_of is_initial ws ++ rest) (permutations (ids_of is_plain_write ws)))
    from o =
        let front : o.front ≡ ids_of is_initial ws =
          single-eq o.front (ids_of is_initial ws) o.single l (λ a. (
            λ m. (ids_of_iff is_initial ws a).1 ((o.initial a).0 m),
            λ m. (o.initial a).1 ((ids_of_iff is_initial ws a).0 m),
          )) in
        let k =
          (permutations_iff (ids_of is_plain_write ws) (ids_of-NoDup is_plain_write ws d) o.rest).1
            (
              append-NoDup o.front o.rest (subst NoDup o.split o.once),
              λ a. (
                λ m. (ids_of_iff is_plain_write ws a).1 ((o.plain a).0 m),
                λ m. (o.plain a).1 ((ids_of_iff is_plain_write ws a).0 m),
              ),
            ) in
        (Memᴰ-map (λ rest. ids_of is_initial ws ++ rest) order
            (permutations (ids_of is_plain_write ws))).1
          (o.rest, k, sym (o.split ∙ ap (λ z. z ++ o.rest) front))
