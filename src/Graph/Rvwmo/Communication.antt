-- ===== src/Graph/Rvwmo/Communication.antt =====
-- The relations rfi, rfe, fr, fri and fre that complete_rvwmo_relations derives
-- (src/umcm/graph/rvwmo.py).
use com_mcm.Prelude.{
  ◌≡◌, ◌≢◌, refl, sym, ◌∙◌, ap, subst, ◌↔◌, inl, inr, String, Bool, true, not, ◌&&◌, Option, List,
  [], ◌∷◌, Memᴰ, Memᴰ-filter, Memᴰ-map, Memᴰ-flat_map, filter, map, has, has_iff, arith, pair_eq,
  text_eq_instance, ◌==◌, if◌then◌else◌, Bool-cases, beq_refl, flat_map, and-left, and-right,
}
use mathlib.Core.List.Memᴰ
use com_mcm.Prelude.Int.{ℤ, int_eq}
use com_mcm.Errors.{ok-injective_back, ok, >>=-eq-ok}
use com_mcm.Ir.Sort.{option_beq, option_beq_iff}
use com_mcm.Graph.Relation.{Relation, Edge, from_edges}
use com_mcm.Graph.Rvwmo.Validate.{Operations}
use com_mcm.Graph.Rvwmo.Complete.{hart_of, same_hart, from_reads, minus, communication}
use com_mcm.Graph.Rvwmo.Rules.{made_iff}

-- Both ends are operations of one hart.
abbrev pub IsInternal : Operations → Edge → Type 0
IsInternal operations (a, b) =
    (h : Option ℤ) × (hart_of operations a ≡ ok h) × (hart_of operations b ≡ ok h)

-- The read and the overwriting write of an fr edge, with the write that is read.
abbrev pub FromRead : Relation → Relation → Edge → Type 0
FromRead rf co (read_id, later) =
    (source_write : String) × Memᴰ (source_write, read_id) rf.edges
    × Memᴰ (source_write, later) co.edges
    × (later ≢ read_id)

-- One round of `same_hart`.
keep_iff :
    (operations : Operations) (a b : Option ℤ) (f e : Edge) (edges rest : List Edge)
    → hart_of operations f.0 ≡ ok a
    → hart_of operations f.1 ≡ ok b
    → Memᴰ e rest ↔ (Memᴰ e edges × IsInternal operations e)
    → Memᴰ e (if option_beq a b then f ∷ rest else rest)
      ↔ (Memᴰ e (f ∷ edges) × IsInternal operations e)
keep_iff operations a b f e edges rest p q k = elim (Bool-cases (option_beq a b)) [
  | inl y ↦ rw y (
    λ m. elim (Memᴰ.cases_cons m) [
      | inl here ↦ (
        Memᴰ.head here,
        subst (IsInternal operations) (sym here) (b, p ∙ ap ok ((option_beq_iff a b).0 y), q),
      )
      | inr there ↦ (Memᴰ.tail (k.0 there).0, (k.0 there).1)
    ],
    λ (m, i). elim (Memᴰ.cases_cons m) [
      | inl here ↦ Memᴰ.head here
      | inr there ↦ Memᴰ.tail (k.1 (there, i))
    ],
  )
  | inr n ↦ rw n (
    λ m. (Memᴰ.tail (k.0 m).0, (k.0 m).1),
    λ (m, i). elim (Memᴰ.cases_cons m) [
      | inl here ↦
          let (h, p', q') = subst (IsInternal operations) here i in
          let y =
            (option_beq_iff a b).1
              (ok-injective_back (sym p' ∙ p) ∙ sym (ok-injective_back (sym q' ∙ q))) in
          cc
      | inr there ↦ k.1 (there, i)
    ],
  )
]

Memᴰ-same_hart :
    (operations : Operations) (edges result : List Edge) (e : Edge)
    → same_hart operations edges ≡ ok result
    → Memᴰ e result ↔ (Memᴰ e edges × IsInternal operations e)
unfolding same_hart
Memᴰ-same_hart operations [] result e h =
    subst (λ z. Memᴰ e z ↔ (Memᴰ e [] × IsInternal operations e)) (sym (ok-injective_back h))
      (λ m. absurd (Memᴰ.not-nil m), λ m. absurd (Memᴰ.not-nil m.0))
Memᴰ-same_hart operations ((s, t) ∷ edges) result (u, v) h =
    let (a, p, h₁) = >>=-eq-ok (hart_of operations s) _ h in
    let (b, q, h₂) = >>=-eq-ok (hart_of operations t) _ h₁ in
    let (rest, r, h₃) = >>=-eq-ok (same_hart operations edges) _ h₂ in
    subst (λ z. Memᴰ (u, v) z ↔ (Memᴰ (u, v) ((s, t) ∷ edges) × IsInternal operations (u, v)))
      (sym (ok-injective_back h₃))
      (keep_iff operations a b (s, t) (u, v) edges rest p q
        (Memᴰ-same_hart operations edges rest (u, v) r))

differ : (a b : String) → not (a == b) ≡ true → a ≢ b
differ a b h e = ground (arith, text_eq_instance.beq_iff a b)

Memᴰ-from_reads :
    (rf co : Relation) (read_id later : String)
    → Memᴰ (read_id, later) (from_reads rf.edges co.edges) ↔ FromRead rf co (read_id, later)
unfolding from_reads
Memᴰ-from_reads rf co read_id later = (to, from)
  where
    test : Edge → Edge → Bool
    test (w, r) edge = edge.0 == w && not (edge.1 == r)

    body : Edge → List Edge
    body (w, r) = map (λ edge. (r, edge.1)) (filter (test (w, r)) co.edges)

    to : Memᴰ (read_id, later) (flat_map body rf.edges) → FromRead rf co (read_id, later)
    to m =
        let ((w, r), k, t) = (Memᴰ-flat_map body (read_id, later) rf.edges).0 m in
        let ((w', l), k', e) =
          (Memᴰ-map (λ edge. (r, edge.1)) (read_id, later) (filter (test (w, r)) co.edges)).0 t in
        let (k'', y) = (Memᴰ-filter (test (w, r)) (w', l) co.edges).0 k' in
        let p = (text_eq_instance.beq_iff w' w).0 (and-left (w' == w) _ y) in
        let e₀ = ap (λ z. z.0) e in
        let e₁ = ap (λ z. z.1) e in
        (
          w,
          subst (λ z. Memᴰ (w, z) rf.edges) e₀ k,
          subst (λ z. Memᴰ (z, later) co.edges) p (subst (λ z. Memᴰ (w', z) co.edges) e₁ k''),
          λ same. differ l r (and-right (w' == w) (not (l == r)) y) (e₁ ∙ same ∙ sym e₀),
        )

    from : FromRead rf co (read_id, later) → Memᴰ (read_id, later) (flat_map body rf.edges)
    from (w, k, k', n) = (Memᴰ-flat_map body (read_id, later) rf.edges).1 (
      (w, read_id),
      k,
      (Memᴰ-map (λ edge. (read_id, edge.1)) (read_id, later)
            (filter (test (w, read_id)) co.edges)).1
          (
            (w, later),
            (Memᴰ-filter (test (w, read_id)) (w, later) co.edges).1
                (k', ground (arith, beq_refl w, text_eq_instance.beq_iff later read_id)),
            refl,
          ),
    )

Memᴰ-minus : (xs ys : List Edge) (e : Edge) → Memᴰ e (minus xs ys) ↔ (Memᴰ e xs × ¬ Memᴰ e ys)
Memᴰ-minus xs ys e = ground (arith, Memᴰ-filter (λ edge. not (has edge ys)) e xs, has_iff e ys)

-- What `communication` derives.
pub record Communicates (operations : Operations) (rf co : Relation) (rs : List Relation)
    : Type 0 where
  pub rfi : Relation
  pub rfe : Relation
  pub fr : Relation
  pub fri : Relation
  pub fre : Relation
  pub result : rs ≡ rfi ∷ rfe ∷ fr ∷ fri ∷ fre ∷ []
  pub rfi_iff : (e : Edge) → Memᴰ e rfi.edges ↔ (Memᴰ e rf.edges × IsInternal operations e)
  pub rfe_iff : (e : Edge) → Memᴰ e rfe.edges ↔ (Memᴰ e rf.edges × ¬ IsInternal operations e)
  pub fr_iff : (e : Edge) → Memᴰ e fr.edges ↔ FromRead rf co e
  pub fri_iff : (e : Edge) → Memᴰ e fri.edges ↔ (FromRead rf co e × IsInternal operations e)
  pub fre_iff : (e : Edge) → Memᴰ e fre.edges ↔ (FromRead rf co e × ¬ IsInternal operations e)

-- If the derivation raises nothing, it returns five relations: rfi and rfe split rf by whether both
-- ends are on one hart; fr joins a read to every other write that follows, in co, a write that rf
-- gives to the read; fri and fre split fr in the same way.
pub communication_lem :
    (operations : Operations) (rf co : Relation) (rs : List Relation)
    → communication operations rf co ≡ ok rs
    → Communicates operations rf co rs
unfolding communication
communication_lem operations rf co rs h =
    let (internal, p, h₁) = >>=-eq-ok (same_hart operations rf.edges) _ h in
    let (rfi, p₁, h₂) = >>=-eq-ok (from_edges "rfi" internal) _ h₁ in
    let (rfe, p₂, h₃) = >>=-eq-ok (from_edges "rfe" (minus rf.edges rfi.edges)) _ h₂ in
    let (fr, p₃, h₄) = >>=-eq-ok (from_edges "fr" (from_reads rf.edges co.edges)) _ h₃ in
    let (internal', q, h₅) = >>=-eq-ok (same_hart operations fr.edges) _ h₄ in
    let (fri, p₄, h₆) = >>=-eq-ok (from_edges "fri" internal') _ h₅ in
    let (fre, p₅, h₇) = >>=-eq-ok (from_edges "fre" (minus fr.edges fri.edges)) _ h₆ in
    assemble rfi rfe fr fri fre (ok-injective_back h₇)
      (λ e.
        iff_trans (made_iff "rfi" internal rfi e p₁)
          (Memᴰ-same_hart operations rf.edges internal e p))
      (λ e. iff_trans (made_iff "rfe" _ rfe e p₂) (Memᴰ-minus rf.edges rfi.edges e))
      (λ (a, b). iff_trans (made_iff "fr" _ fr (a, b) p₃) (Memᴰ-from_reads rf co a b))
      (λ e.
        iff_trans (made_iff "fri" internal' fri e p₄)
          (Memᴰ-same_hart operations fr.edges internal' e q))
      (λ e. iff_trans (made_iff "fre" _ fre e p₅) (Memᴰ-minus fr.edges fri.edges e))
  where
    iff_trans : {P Q R : Type 0} → P ↔ Q → Q ↔ R → P ↔ R
    iff_trans (a, b) (c, d) = (λ x. c (a x), λ x. b (d x))

    assemble :
        (rfi rfe fr fri fre : Relation)
        → rs ≡ rfi ∷ rfe ∷ fr ∷ fri ∷ fre ∷ []
        → ((e : Edge) → Memᴰ e rfi.edges ↔ (Memᴰ e rf.edges × IsInternal operations e))
        → ((e : Edge) → Memᴰ e rfe.edges ↔ (Memᴰ e rf.edges × ¬ Memᴰ e rfi.edges))
        → ((e : Edge) → Memᴰ e fr.edges ↔ FromRead rf co e)
        → ((e : Edge) → Memᴰ e fri.edges ↔ (Memᴰ e fr.edges × IsInternal operations e))
        → ((e : Edge) → Memᴰ e fre.edges ↔ (Memᴰ e fr.edges × ¬ Memᴰ e fri.edges))
        → Communicates operations rf co rs
    assemble rfi rfe fr fri fre r i₁ i₂ i₃ i₄ i₅ = record {
      rfi = rfi;
      rfe = rfe;
      fr = fr;
      fri = fri;
      fre = fre;
      result = r;
      rfi_iff = i₁;
      rfe_iff = λ e. (
        λ m. (((i₂ e).0 m).0, λ i. ((i₂ e).0 m).1 ((i₁ e).1 (((i₂ e).0 m).0, i))),
        λ (m, n). (i₂ e).1 (m, λ k. n ((i₁ e).0 k).1),
      );
      fr_iff = i₃;
      fri_iff =
          λ e. (λ m. ((i₃ e).0 ((i₄ e).0 m).0, ((i₄ e).0 m).1), λ (m, i). (i₄ e).1 ((i₃ e).1 m, i));
      fre_iff = λ e. (
        λ m. ((i₃ e).0 ((i₅ e).0 m).0, λ i. ((i₅ e).0 m).1 ((i₄ e).1 (((i₅ e).0 m).0, i))),
        λ (m, n). (i₅ e).1 ((i₃ e).1 m, λ k. n ((i₄ e).0 k).1),
      );
    }
