-- ===== src/Graph/Candidates/Sources.antt =====
-- The writes that a read may read from in a candidate (build_candidate_space,
-- src/umcm/graph/builder.py).
use com_mcm.Prelude.{
  lookup, ◌≡◌, ◌≢◌, ◌↔◌, refl, sym, ap, ◌∙◌, subst, inl, inr, String, true, false, not, ◌||◌, ◌&&◌,
  Option, none, some, List, [], ◌∷◌, Memᴰ, Memᴰ-filter, Memᴰ-sorted, text_leb, Bool-cases, ◌==◌,
  text_eq_instance, has, has_iff, arith,
}
use mathlib.Core.List.Memᴰ
use com_mcm.Errors.{ok, graph_error, guard, guard-eq-ok, ◌>>=◌, ◌>>◌, >>=-eq-ok, ok-injective}
use com_mcm.Ir.Trace.{Trace}
use com_mcm.Ir.Sort.{Value}
use com_mcm.Solver.Value.{py_eq}
use com_mcm.Graph.Checker.{is_empty}
use com_mcm.Graph.Execution.{MemoryOperation, is_read, is_write, read_value, stored_value}
use com_mcm.Graph.Model.{GraphModelSpec}
use com_mcm.Graph.Hints.{RfHintEvidence, rf_hints, CoHintEvidence}
use com_mcm.Graph.Rvwmo.Validate.{Operations, values}
use com_mcm.Graph.Candidates.Parts.{build-Built, writes_of, reads_of}
use com_mcm.Graph.Candidates.{
  id_leb, CandidateSpace, can_read, sources_of, write_or_raise, hinted_sources, rf_choice,
  rf_choices, build_candidate_space,
}

-- Another operation, at the address of the read, that stores the value that is read.
abbrev pub CanRead : MemoryOperation → MemoryOperation → Type 0
CanRead r w =
    (w.id ≢ r.id)
    × (py_eq w.address r.address ≡ true)
    × (stored : Value) × (stored_value w ≡ ok stored)
    × (v : Value) × (read_value r ≡ ok v)
    × (py_eq stored v ≡ true)

can_read-CanRead : (r w : MemoryOperation) → can_read r w ≡ ok true → CanRead r w
unfolding can_read
can_read-CanRead r w h = elim (Bool-cases (w.id == r.id || not (py_eq w.address r.address))) [
  | inl t ↦ absurd (let p : ok false ≡ ok true = rw t at h in cc)
  | inr f ↦
      let p : (stored_value w >>= λ stored. read_value r >>= λ v. ok (py_eq stored v)) ≡ ok true =
        rw f at h in
      let (stored, a, h₁) = >>=-eq-ok (stored_value w) _ p in
      let (v, b, h₂) = >>=-eq-ok (read_value r) _ h₁ in
      (
        λ same. let t = (text_eq_instance.beq_iff w.id r.id).1 same in ground arith,
        ground arith,
        stored,
        a,
        v,
        b,
        ok-injective h₂,
      )
]

CanRead-can_read : (r w : MemoryOperation) → CanRead r w → can_read r w ≡ ok true
unfolding can_read
CanRead-can_read r w (n, a, stored, p, v, q, e) = elim (Bool-cases (w.id == r.id)) [
  | inl t ↦ absurd (n ((text_eq_instance.beq_iff w.id r.id).0 t))
  | inr f ↦ rw (f, a, p, q) (ap ok e)
]

-- What sources_of collects.
sources_of_sound :
    (r : MemoryOperation) (writes : List MemoryOperation) (ids : List String)
    → sources_of r writes ≡ ok ids
    → (id : String) → Memᴰ id ids
    → (w : MemoryOperation) × Memᴰ w writes × (id ≡ w.id) × CanRead r w
unfolding sources_of
sources_of_sound r [] ids h id m = absurd (Memᴰ.not-nil (subst (Memᴰ id) (sym (ok-injective h)) m))
sources_of_sound r (w ∷ ws) ids h id m =
    let (can, p, h₁) = >>=-eq-ok (can_read r w) _ h in
    let (rest, q, h₂) = >>=-eq-ok (sources_of r ws) _ h₁ in
    let later : Memᴰ id rest
        → (w' : MemoryOperation) × Memᴰ w' (w ∷ ws) × (id ≡ w'.id) × CanRead r w' =
      λ k. let (w', a, b, c) = sources_of_sound r ws rest q id k in (w', Memᴰ.tail a, b, c) in
    elim (Bool-cases can) [
      | inl t ↦
          let e : w.id ∷ rest ≡ ids = rw t at (ok-injective h₂) in
          elim (Memᴰ.cases_cons (subst (Memᴰ id) (sym e) m)) [
            | inl same ↦ (w, Memᴰ.head refl, same, can_read-CanRead r w (p ∙ ap ok t))
            | inr k ↦ later k
          ]
      | inr f ↦ let e : rest ≡ ids = rw f at (ok-injective h₂) in later (subst (Memᴰ id) (sym e) m)
    ]

sources_of-complete :
    (r : MemoryOperation) (writes : List MemoryOperation) (ids : List String)
    → sources_of r writes ≡ ok ids
    → (w : MemoryOperation) → Memᴰ w writes
    → CanRead r w
    → Memᴰ w.id ids
unfolding sources_of
sources_of-complete r [] ids h w m c = absurd (Memᴰ.not-nil m)
sources_of-complete r (x ∷ xs) ids h w m c =
    let (can, p, h₁) = >>=-eq-ok (can_read r x) _ h in
    let (rest, q, h₂) = >>=-eq-ok (sources_of r xs) _ h₁ in
    elim (Memᴰ.cases_cons m) [
      | inl same ↦
          let t : can ≡ true =
            ok-injective (sym p ∙ ap (can_read r) (sym same) ∙ CanRead-can_read r w c) in
          let e : x.id ∷ rest ≡ ids = rw t at (ok-injective h₂) in
          subst (Memᴰ w.id) e (Memᴰ.head (ap (λ z. z.id) same))
      | inr k ↦
          let n = sources_of-complete r xs rest q w k c in
          elim (Bool-cases can) [
            | inl t ↦
                let e : x.id ∷ rest ≡ ids = rw t at (ok-injective h₂) in
                subst (Memᴰ w.id) e (Memᴰ.tail n)
            | inr f ↦ let e : rest ≡ ids = rw f at (ok-injective h₂) in subst (Memᴰ w.id) e n
          ]
    ]

-- A hint leaves only a candidate.
hinted_sources-within :
    (operations : Operations) (r : MemoryOperation) (hint : Option RfHintEvidence)
    (candidates ids : List String)
    → hinted_sources operations r hint candidates ≡ ok ids
    → (id : String) → Memᴰ id ids
    → Memᴰ id candidates
unfolding hinted_sources
hinted_sources-within operations r none candidates ids h id m =
    subst (Memᴰ id) (sym (ok-injective h)) m
hinted_sources-within operations r (some e) candidates ids h id m =
    let (w, a, h₁) = >>=-eq-ok (write_or_raise (lookup e.write_id operations)) _ h in
    let (u, b, h₂) =
      >>=-eq-ok (guard (py_eq e.address r.address && py_eq e.address w.address) graph_error) _ h₁ in
    let (v, c, h₃) = >>=-eq-ok (read_value r) _ h₂ in
    let (stored, d, h₄) = >>=-eq-ok (stored_value w) _ h₃ in
    let (u', f, h₅) =
      >>=-eq-ok
        (guard (py_eq e.value v && py_eq e.value stored) graph_error
          >> guard (has e.write_id candidates) graph_error)
        _ h₄ in
    let (u'', g, h₆) =
      >>=-eq-ok (guard (py_eq e.value v && py_eq e.value stored) graph_error) _ f in
    elim (Memᴰ.cases_cons (subst (Memᴰ id) (sym (ok-injective h₅)) m)) [
      | inl same ↦ Memᴰ.cast same ((has_iff e.write_id candidates).0 (guard-eq-ok _ graph_error h₆))
      | inr k ↦ absurd (Memᴰ.not-nil k)
    ]

first_member : (ids : List String) → not (is_empty ids) ≡ true → (id : String) × Memᴰ id ids
first_member [] h = cc
first_member (id ∷ ids) h = (id, Memᴰ.head refl)

module _ (operations : Operations) (writes : List MemoryOperation)
    (hints : List (String × RfHintEvidence)) where
  rf_choice-sources :
      (r : MemoryOperation) (ids : List String)
      → rf_choice operations writes hints r ≡ ok ids
      → ((id : String) × Memᴰ id ids)
        × ((id : String)
            → Memᴰ id ids
            → (w : MemoryOperation) × Memᴰ w writes × (id ≡ w.id) × CanRead r w)
  unfolding rf_choice
  rf_choice-sources r ids h =
      let (all_ids, a, h₁) = >>=-eq-ok (sources_of r writes) _ h in
      let (some_ids, b, h₂) =
        >>=-eq-ok (hinted_sources operations r (lookup r.id hints) all_ids) _ h₁ in
      let (u, c, h₃) = >>=-eq-ok (guard (not (is_empty some_ids)) graph_error) _ h₂ in
      let (id, m) = first_member some_ids (guard-eq-ok _ graph_error c) in
      let e = ok-injective h₃ in
      (
        (id, subst (Memᴰ id) e ((Memᴰ-sorted text_leb id some_ids).1 m)),
        λ i k. sources_of_sound r writes all_ids a i (
            hinted_sources-within operations r (lookup r.id hints) all_ids some_ids b i
              ((Memᴰ-sorted text_leb i some_ids).0 (subst (Memᴰ i) (sym e) k))),
      )

  rf_choice-all :
      (r : MemoryOperation) (ids : List String)
      → lookup r.id hints ≡ none
      → rf_choice operations writes hints r ≡ ok ids
      → (w : MemoryOperation) → Memᴰ w writes
      → CanRead r w
      → Memᴰ w.id ids
  unfolding rf_choice hinted_sources
  rf_choice-all r ids n h w m c =
      let (all_ids, a, h₁) = >>=-eq-ok (sources_of r writes) _ h in
      let (some_ids, b, h₂) =
        >>=-eq-ok (hinted_sources operations r (lookup r.id hints) all_ids) _ h₁ in
      let (u, d, h₃) = >>=-eq-ok (guard (not (is_empty some_ids)) graph_error) _ h₂ in
      let e : ok all_ids ≡ ok some_ids = rw n at b in
      subst (Memᴰ w.id) (ok-injective h₃) (
        (Memᴰ-sorted text_leb w.id some_ids).1
          (subst (Memᴰ w.id) (ok-injective e) (sources_of-complete r writes all_ids a w m c)))

  -- Each read has its entry.
  rf_choices-entry :
      (reads : List MemoryOperation) (choices : List (String × List String))
      → rf_choices operations writes hints reads ≡ ok choices
      → (r : MemoryOperation) → Memᴰ r reads
      → (ids : List String) × Memᴰ (r.id, ids) choices
        × (rf_choice operations writes hints r ≡ ok ids)
  unfolding rf_choices
  rf_choices-entry [] choices h r m = absurd (Memᴰ.not-nil m)
  rf_choices-entry (x ∷ xs) choices h r m =
      let (ids, a, h₁) = >>=-eq-ok (rf_choice operations writes hints x) _ h in
      let (rest, b, h₂) = >>=-eq-ok (rf_choices operations writes hints xs) _ h₁ in
      let e = ok-injective h₂ in
      elim (Memᴰ.cases_cons m) [
        | inl same ↦ (
          ids,
          subst (Memᴰ (r.id, ids)) e (Memᴰ.head (ap (λ z. (z.id, ids)) same)),
          ap (rf_choice operations writes hints) same ∙ a,
        )
        | inr k ↦
            let (is, n, c) = rf_choices-entry xs rest b r k in
            (is, subst (Memᴰ (r.id, is)) e (Memᴰ.tail n), c)
      ]

-- A write of the trace that the read may read from, by its id.
abbrev pub IsSource : CandidateSpace → MemoryOperation → String → Type 0
IsSource space r id =
    (w : MemoryOperation) × Memᴰ w (values space.operations)
    × (is_write w ≡ true)
    × (id ≡ w.id)
    × CanRead r w

listed_read :
    (space : CandidateSpace) (r : MemoryOperation)
    → Memᴰ r (values space.operations)
    → is_read r ≡ true
    → Memᴰ r (reads_of space)
listed_read space r m t = (Memᴰ-sorted id_leb r _).1 ((Memᴰ-filter is_read r _).1 (m, t))

-- Where a candidate space is built, every read has sources to choose from, and each is another
-- write to the address of the read that stores the value that is read.
pub build_candidate_space-IsSource :
    (repr : CoHintEvidence → String) (trace : Trace) (spec : GraphModelSpec)
    (space : CandidateSpace)
    → build_candidate_space repr trace spec ≡ ok space
    → (r : MemoryOperation) → Memᴰ r (values space.operations)
    → is_read r ≡ true
    → (ids : List String) × Memᴰ (r.id, ids) space.rf_choices
      × ((id : String) × Memᴰ id ids)
      × ((id : String) → Memᴰ id ids → IsSource space r id)
build_candidate_space-IsSource repr trace spec space h r m t =
    let b = build-Built repr trace spec space h in
    let (ids, n, e) =
      rf_choices-entry space.operations (writes_of space) b.hints (reads_of space) space.rf_choices
        b.chosen r (listed_read space r m t) in
    let (first, all_sources) =
      rf_choice-sources space.operations (writes_of space) b.hints r ids e in
    (
      ids,
      n,
      first,
      λ id k.
          let (w, l, i, c) = all_sources id k in
          let (l', s) = (Memᴰ-filter is_write w _).0 l in (w, l', s, i, c),
    )

-- Where a candidate space is built and the model has no rf hints, the choices of a read are the
-- writes other than itself to its address that store the value it reads, and no others.
pub build_candidate_space-all_sources :
    (repr : CoHintEvidence → String) (trace : Trace) (spec : GraphModelSpec)
    (space : CandidateSpace)
    → spec.projection.rf_hints ≡ []
    → build_candidate_space repr trace spec ≡ ok space
    → (r : MemoryOperation) → Memᴰ r (values space.operations)
    → is_read r ≡ true
    → (ids : List String) × Memᴰ (r.id, ids) space.rf_choices
      × ((id : String) → Memᴰ id ids ↔ IsSource space r id)
unfolding rf_hints lookup
build_candidate_space-all_sources repr trace spec space no_hints h r m t =
    let b = build-Built repr trace spec space h in
    let e₁ : ok [] ≡ ok b.hints = rw no_hints at b.hinted in
    let none_hinted : lookup r.id b.hints ≡ none = rw (← ok-injective e₁) refl in
    let (ids, n, e) =
      rf_choices-entry space.operations (writes_of space) b.hints (reads_of space) space.rf_choices
        b.chosen r (listed_read space r m t) in
    let (first, all_sources) =
      rf_choice-sources space.operations (writes_of space) b.hints r ids e in
    (
      ids,
      n,
      λ id. (
        λ k.
            let (w, l, i, c) = all_sources id k in
            let (l', s) = (Memᴰ-filter is_write w _).0 l in (w, l', s, i, c),
        λ (w, l, s, i, c). Memᴰ.cast i (
            rf_choice-all space.operations (writes_of space) b.hints r ids none_hinted e w
              ((Memᴰ-filter is_write w _).1 (l, s)) c),
      ),
    )
