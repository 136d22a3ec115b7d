-- ===== src/Graph/Rvwmo/Sources.antt =====
-- What _rf_sources (src/umcm/graph/rvwmo.py) has checked when it returns.
use com_mcm.Prelude.{
  lookup, ◌≡◌, ◌≢◌, refl, sym, ◌∙◌, ap, subst, inl, inr, String, true, false, not, ◌&&◌, Option,
  none, some, List, [], ◌∷◌, Memᴰ, Memᴰ-filter, Memᴰ-map, filter, arith, pair_eq, text_eq_instance,
  ◌==◌, Bool-cases, and-left, and-right,
}
use mathlib.Core.List.Memᴰ
use com_mcm.Errors.{
  ok-injective_back, Result, ok, guard, guard-eq-ok, graph_error, ◌>>=◌, ◌>>◌, >>=-eq-ok,
}
use com_mcm.Ir.Sort.{Value}
use com_mcm.Solver.Value.{py_eq}
use com_mcm.Graph.Relation.{Relation, Edge}
use com_mcm.Graph.Execution.{MemoryOperation, is_read, is_write, stored_value, read_value, or_raise}
use com_mcm.Graph.Rvwmo.Footprint.{same_location}
use com_mcm.Graph.Rvwmo.Validate.{
  Operations, values, each, validate_rf_edge, incoming, single, read_sources, rf_sources,
}

-- A loop that raises nothing has passed the check at every member.
pub each-eq-ok {ℓ} :
    {A : Type ℓ} (check : A → Result (Unit {0})) (xs : List A)
    → each check xs ≡ ok tt
    → (x : A) → Memᴰ x xs
    → check x ≡ ok tt
unfolding each
each-eq-ok check [] h x m = absurd (Memᴰ.not-nil m)
each-eq-ok check (y ∷ ys) h x m =
    let (u, p, q) = >>=-eq-ok (check y) (λ done. each check ys) h in
    elim (Memᴰ.cases_cons m) [
      | inl here ↦ ap check here ∙ p
      | inr there ↦ each-eq-ok check ys q x there
    ]

single-eq-ok : (xs : List String) (s : String) → single xs ≡ ok s → xs ≡ s ∷ []
single-eq-ok [] s h = cc
single-eq-ok (x ∷ []) s h = cc
single-eq-ok (x ∷ (y ∷ ys)) s h = cc

or_raise-eq-ok {ℓ} : {A : Type ℓ} (o : Option A) (a : A) → or_raise o ≡ ok a → o ≡ some a
or_raise-eq-ok none a h = cc
or_raise-eq-ok (some b) a h = cc

Memᴰ-incoming :
    (edges : List Edge) (target s : String)
    → Memᴰ s (incoming edges target)
    → Memᴰ (s, target) edges
Memᴰ-incoming edges target s m =
    let ((a, b), k, p) =
      (Memᴰ-map (λ edge. edge.0) s (filter (λ edge. edge.1 == target) edges)).0 m in
    let (l, t) = (Memᴰ-filter (λ edge. edge.1 == target) (a, b) edges).0 k in
    subst (λ z. Memᴰ (z, target) edges) p
      (subst (λ z. Memᴰ (a, z) edges) ((text_eq_instance.beq_iff b target).0 t) l)

read_sources-other :
    (edges : List Edge) (o : MemoryOperation) (ops : List MemoryOperation)
    (items : List (String × String))
    → is_read o ≡ false
    → read_sources edges (o ∷ ops) ≡ ok items
    → read_sources edges ops ≡ ok items
unfolding read_sources
read_sources-other edges o ops items n = rw n (λ h. h)

read_sources-read :
    (edges : List Edge) (o : MemoryOperation) (ops : List MemoryOperation)
    (items : List (String × String))
    → is_read o ≡ true
    → read_sources edges (o ∷ ops) ≡ ok items
    → (s : String) × (rest : List (String × String)) × (incoming edges o.id ≡ s ∷ [])
      × (read_sources edges ops ≡ ok rest)
      × (items ≡ (o.id, s) ∷ rest)
unfolding read_sources
read_sources-read edges o ops items y = rw y (λ h.
    let (s, p, h₁) = >>=-eq-ok (single (incoming edges o.id)) _ h in
    let (rest, q, h₂) = >>=-eq-ok (read_sources edges ops) _ h₁ in
    (s, rest, single-eq-ok (incoming edges o.id) s p, q, ok-injective_back h₂))

read_sources_lem :
    (edges : List Edge) (ops : List MemoryOperation) (items : List (String × String))
    → read_sources edges ops ≡ ok items
    → (op : MemoryOperation) → Memᴰ op ops
    → is_read op ≡ true
    → (s : String) × (incoming edges op.id ≡ s ∷ []) × (lookup op.id items ≡ some s)
unfolding read_sources lookup
read_sources_lem edges [] items h op m r = absurd (Memᴰ.not-nil m)
read_sources_lem edges (o ∷ ops) items h op m r = elim (Bool-cases (is_read o)) [
  | inl y ↦
      let (s, rest, p, q, e) = read_sources-read edges o ops items y h in
      subst (λ z. (x : String) × (incoming edges op.id ≡ x ∷ []) × (lookup op.id z ≡ some x))
        (sym e)
        (elim (Bool-cases (o.id == op.id)) [
          | inl same ↦
              let i = (text_eq_instance.beq_iff o.id op.id).0 same in
              (s, subst (λ z. incoming edges z ≡ s ∷ []) i p, rw same refl)
          | inr new ↦ rw new (
              read_sources_lem edges ops rest q op
                (elim (Memᴰ.cases_cons m) [
                  | inl here ↦
                      let t = (text_eq_instance.beq_iff o.id op.id).1 (ap (λ z. z.id) (sym here)) in
                      absurd cc
                  | inr there ↦ there
                ])
                r)
        ])
  | inr n ↦
      read_sources_lem edges ops items (read_sources-other edges o ops items n h) op
        (elim (Memᴰ.cases_cons m) [
          | inl here ↦ let t = ap is_read here in absurd cc
          | inr there ↦ there
        ])
        r
]

-- The source of a read: a write to its location that stores the value read.
pub record ReadsFrom (operations : Operations) (s read_id : String) : Type 0 where
  pub source : MemoryOperation
  pub source_found : lookup s operations ≡ some source
  pub target : MemoryOperation
  pub target_found : lookup read_id operations ≡ some target
  pub writes : is_write source ≡ true
  pub reads : is_read target ≡ true
  pub other : s ≢ read_id
  pub location : same_location source target ≡ ok true
  pub stored : Value
  pub stored_found : stored_value source ≡ ok stored
  pub read : Value
  pub read_found : read_value target ≡ ok read
  pub equal : py_eq stored read ≡ true

differ : (a b : String) → not (a == b) ≡ true → a ≢ b
differ a b h e = ground (arith, text_eq_instance.beq_iff a b)

validate_rf_edge-ReadsFrom :
    (operations : Operations) (s read_id : String)
    → validate_rf_edge operations (s, read_id) ≡ ok tt
    → ReadsFrom operations s read_id
unfolding validate_rf_edge
validate_rf_edge-ReadsFrom operations s read_id h =
    let (source, p, h₁) = >>=-eq-ok (or_raise (lookup s operations)) _ h in
    let (target, q, h₂) = >>=-eq-ok (or_raise (lookup read_id operations)) _ h₁ in
    let (u, h₃, h₄) =
      >>=-eq-ok
        (guard (is_write source && is_read target && not (s == read_id)) graph_error
          >> (same_location source target >>= λ same. guard same graph_error))
        _ h₂ in
    let (u', g, h₅) =
      >>=-eq-ok (guard (is_write source && is_read target && not (s == read_id)) graph_error) _
        h₃ in
    let (same, l, h₆) = >>=-eq-ok (same_location source target) _ h₅ in
    let (stored, v, h₇) = >>=-eq-ok (stored_value source) _ h₄ in
    let (read, w, h₈) = >>=-eq-ok (read_value target) _ h₇ in
    let t = guard-eq-ok _ graph_error g in
    let t' = and-left (is_write source && is_read target) _ t in
    record {
      source = source;
      source_found = or_raise-eq-ok _ source p;
      target = target;
      target_found = or_raise-eq-ok _ target q;
      writes = and-left (is_write source) _ t';
      reads = and-right (is_write source) _ t';
      other = differ s read_id (and-right (is_write source && is_read target) _ t);
      location = l ∙ ap ok (guard-eq-ok same graph_error h₆);
      stored = stored;
      stored_found = v;
      read = read;
      read_found = w;
      equal = guard-eq-ok _ graph_error h₈;
    }

-- If _rf_sources returns, every read has exactly one incoming edge in rf; the result gives its source,
-- which is another operation, a write to the location of the read, and stores the value that is read.
pub rf_sources_lem :
    (operations : Operations) (rf : Relation) (items : List (String × String))
    → rf_sources operations rf ≡ ok items
    → (op : MemoryOperation) → Memᴰ op (values operations)
    → is_read op ≡ true
    → (s : String) × (incoming rf.edges op.id ≡ s ∷ [])
      × (lookup op.id items ≡ some s)
      × ReadsFrom operations s op.id
unfolding rf_sources
rf_sources_lem operations rf items h op m r =
    let (u, g, h₁) = >>=-eq-ok (each (validate_rf_edge operations) rf.edges) _ h in
    let (s, p, q) = read_sources_lem rf.edges (values operations) items h₁ op m r in
    (
      s,
      p,
      q,
      validate_rf_edge-ReadsFrom operations s op.id (
          each-eq-ok (validate_rf_edge operations) rf.edges g (s, op.id)
            (Memᴰ-incoming rf.edges op.id s (subst (λ z. Memᴰ s z) (sym p) (Memᴰ.head refl)))),
    )
