-- ===== src/Ir/Expression/Rename.antt =====
-- `substitute_event_ids` (src/umcm/ir/expression.py).
use com_mcm.Prelude.{
  ◌≡◌, refl, sym, ◌∙◌, ap, String, true, not, List, ◌++◌, map, Option, some, ◌≢◌, ◌==◌,
  text_eq_instance, and-left, and-right, Bool-cases, Option-cases, inl, inr,
}
use mathlib.Core.List.{map-append}
use com_mcm.Errors.{ok}
use com_mcm.Ir.Sort.{Value, Sort}
use com_mcm.Ir.Expression.{
  UnaryOp, not_op, neg_op, BinaryOp, NaryOp, all_op, any_op, distinct_op, Expr, Exprs, literal,
  symbol, event_field, unary, binary, nary, if_expr, call, nil, cons, sort_of, node_is_valid, make,
  well_formed, well_formed_all, FieldRef, iter_event_fields, iter_event_fields_all, iter_symbols,
  iter_symbols_all, iter_literals, iter_literals_all, renamed, substitute_event_ids, substitute_all,
  all_bool, all_compatible, nary_is_valid, binary_sort, binary_is_valid,
}

abbrev pub rename_ref : (String → Option String) → FieldRef → FieldRef
rename_ref mapping (i, f, s) = (renamed mapping i, f, s)

-- `e'` is `e` with the event ids renamed, and nothing else changed that the solver reads.
pub record IsRenamed (mapping : String → Option String) (e e' : Expr) : Type 0 where
  pub valid : well_formed e' ≡ true
  pub sort : sort_of e' ≡ sort_of e
  pub refs : iter_event_fields e' ≡ map (rename_ref mapping) (iter_event_fields e)
  pub symbols : iter_symbols e' ≡ iter_symbols e
  pub literals : iter_literals e' ≡ iter_literals e

record AreRenamed (mapping : String → Option String) (es es' : Exprs) : Type 0 where
  valid : well_formed_all es' ≡ true
  bools : all_bool es' ≡ all_bool es
  alike : (h : Expr) → all_compatible h es' ≡ all_compatible h es
  nary_valid : (op : NaryOp) → nary_is_valid op es' ≡ nary_is_valid op es
  refs : iter_event_fields_all es' ≡ map (rename_ref mapping) (iter_event_fields_all es)
  symbols : iter_symbols_all es' ≡ iter_symbols_all es
  literals : iter_literals_all es' ≡ iter_literals_all es

make-eq-ok : (e : Expr) → node_is_valid e ≡ true → make e ≡ ok e
unfolding make
make-eq-ok e h = rw h refl

all_compatible-sort :
    (h k : Expr) → sort_of h ≡ sort_of k → (es : Exprs) → all_compatible h es ≡ all_compatible k es
all_compatible-sort h k p nil = refl
all_compatible-sort h k p (cons e es) = rw (p, all_compatible-sort h k p es) refl

append_refs :
    (mapping : String → Option String) {a b : List FieldRef} (c d : List FieldRef)
    → a ≡ map (rename_ref mapping) c
    → b ≡ map (rename_ref mapping) d
    → a ++ b ≡ map (rename_ref mapping) (c ++ d)
append_refs mapping c d p q = rw (p, q) (sym (map-append (rename_ref mapping) c d))

binary_well_formed :
    (op : BinaryOp) (l r : Expr)
    → node_is_valid (binary op l r) ≡ true
    → well_formed l ≡ true
    → well_formed r ≡ true
    → well_formed (binary op l r) ≡ true
unfolding well_formed
binary_well_formed op l r v p q = rw (v, p, q) refl

if_well_formed :
    (c t e : Expr)
    → node_is_valid (if_expr c t e) ≡ true
    → well_formed c ≡ true
    → well_formed t ≡ true
    → well_formed e ≡ true
    → well_formed (if_expr c t e) ≡ true
unfolding well_formed
if_well_formed c t e v p q r = rw (v, p, q, r) refl

module _ (mapping : String → Option String) (full : (k : String) → mapping k ≢ some "") where
  renamed-ne-empty : (i : String) → not (i == "") ≡ true → not (renamed mapping i == "") ≡ true
  renamed-ne-empty i h = elim (Option-cases (mapping i)) [
    | inl none_there ↦ rw (none_there, renamed) h
    | inr (t, e) ↦
        rw (e, renamed)
          (elim (Bool-cases (t == "")) [
            | inl b ↦ absurd (full i (e ∙ ap some ((text_eq_instance.beq_iff t "").0 b)))
            | inr b ↦ rw b refl
          ])
  ]

  cons_renamed :
      (e e' : Expr) (es es' : Exprs)
      → IsRenamed mapping e e'
      → AreRenamed mapping es es'
      → AreRenamed mapping (cons e es) (cons e' es')
  unfolding well_formed iter_event_fields iter_symbols iter_literals
  cons_renamed e e' es es' p q = record {
    valid = rw (p.valid, q.valid) refl;
    bools = rw (p.sort, q.bools) refl;
    alike = λ h. rw (p.sort, q.alike h) refl;
    nary_valid = elim [
      | all_op ↦ rw (p.sort, q.bools) refl
      | any_op ↦ rw (p.sort, q.bools) refl
      | distinct_op ↦ q.alike e' ∙ all_compatible-sort e' e p.sort es
    ];
    refs = append_refs mapping (iter_event_fields e) (iter_event_fields_all es) p.refs q.refs;
    symbols = rw (p.symbols, q.symbols) refl;
    literals = rw (p.literals, q.literals) refl;
  }

  abbrev Renames : Expr → Type 0
  Renames e = (e' : Expr) × (substitute_event_ids mapping e ≡ ok e') × IsRenamed mapping e e'

  abbrev RenamesAll : Exprs → Type 0
  RenamesAll es = (es' : Exprs) × (substitute_all mapping es ≡ ok es') × AreRenamed mapping es es'

  -- A node over one renamed child.
  unary-IsRenamed :
      (op : UnaryOp) (e e' : Expr)
      → node_is_valid (unary op e) ≡ true
      → IsRenamed mapping e e'
      → IsRenamed mapping (unary op e) (unary op e') × (node_is_valid (unary op e') ≡ true)
  unfolding well_formed iter_event_fields iter_symbols iter_literals node_is_valid
  unary-IsRenamed not_op e e' v p = (
    record {
      valid = rw (p.sort, v, p.valid) refl;
      sort = refl;
      refs = p.refs;
      symbols = p.symbols;
      literals = p.literals;
    },
    rw p.sort v,
  )
  unary-IsRenamed neg_op e e' v p = (
    record {
      valid = rw (p.sort, v, p.valid) refl;
      sort = p.sort;
      refs = p.refs;
      symbols = p.symbols;
      literals = p.literals;
    },
    rw p.sort v,
  )

  binary-IsRenamed :
      (op : BinaryOp) (l l' r r' : Expr)
      → node_is_valid (binary op l r) ≡ true
      → IsRenamed mapping l l'
      → IsRenamed mapping r r'
      → IsRenamed mapping (binary op l r) (binary op l' r')
        × (node_is_valid (binary op l' r') ≡ true)
  unfolding well_formed iter_event_fields iter_symbols iter_literals node_is_valid
  binary-IsRenamed op l l' r r' v p q =
      let v' : node_is_valid (binary op l' r') ≡ true =
        (λ i. binary_is_valid op (p.sort i) (q.sort i)) ∙ v in
      (
        record {
          valid = binary_well_formed op l' r' v' p.valid q.valid;
          sort = ap (binary_sort op) p.sort;
          refs = append_refs mapping (iter_event_fields l) (iter_event_fields r) p.refs q.refs;
          symbols = rw (p.symbols, q.symbols) refl;
          literals = rw (p.literals, q.literals) refl;
        },
        v',
      )

  if_IsRenamed :
      (c c' t t' e e' : Expr)
      → node_is_valid (if_expr c t e) ≡ true
      → IsRenamed mapping c c'
      → IsRenamed mapping t t'
      → IsRenamed mapping e e'
      → IsRenamed mapping (if_expr c t e) (if_expr c' t' e')
        × (node_is_valid (if_expr c' t' e') ≡ true)
  unfolding well_formed iter_event_fields iter_symbols iter_literals node_is_valid
  if_IsRenamed c c' t t' e e' v p q r =
      let v' : node_is_valid (if_expr c' t' e') ≡ true = rw (p.sort, q.sort, r.sort) v in
      (
        record {
          valid = if_well_formed c' t' e' v' p.valid q.valid r.valid;
          sort = q.sort;
          refs =
              append_refs mapping (iter_event_fields c) (iter_event_fields t ++ iter_event_fields e)
                p.refs
                (append_refs mapping (iter_event_fields t) (iter_event_fields e) q.refs r.refs);
          symbols = rw (p.symbols, q.symbols, r.symbols) refl;
          literals = rw (p.literals, q.literals, r.literals) refl;
        },
        v',
      )

  leaf_literal :
      (v : Value) (s : Sort)
      → well_formed (literal v s) ≡ true
      → IsRenamed mapping (literal v s) (literal v s)
  unfolding iter_event_fields iter_symbols iter_literals
  leaf_literal v s w = record {
    valid = w;
    sort = refl;
    refs = refl;
    symbols = refl;
    literals = refl;
  }

  leaf_symbol :
      (n : String) (s : Sort)
      → well_formed (symbol n s) ≡ true
      → IsRenamed mapping (symbol n s) (symbol n s)
  unfolding iter_event_fields iter_symbols iter_literals
  leaf_symbol n s w = record {
    valid = w;
    sort = refl;
    refs = refl;
    symbols = refl;
    literals = refl;
  }

  leaf_field :
      (i f : String) (s : Sort)
      → well_formed (event_field i f s) ≡ true
      → IsRenamed mapping (event_field i f s) (event_field (renamed mapping i) f s)
        × (node_is_valid (event_field (renamed mapping i) f s) ≡ true)
  unfolding well_formed iter_event_fields iter_symbols iter_literals node_is_valid
  leaf_field i f s w =
      let v : node_is_valid (event_field (renamed mapping i) f s) ≡ true =
        rw (renamed-ne-empty i (and-left _ (not (f == "")) w), and-right (not (i == "")) _ w)
          refl in
      (record { valid = v; sort = refl; refs = refl; symbols = refl; literals = refl }, v)

  nary-IsRenamed :
      (op : NaryOp) (es es' : Exprs)
      → node_is_valid (nary op es) ≡ true
      → AreRenamed mapping es es'
      → IsRenamed mapping (nary op es) (nary op es') × (node_is_valid (nary op es') ≡ true)
  unfolding well_formed iter_event_fields iter_symbols iter_literals node_is_valid
  nary-IsRenamed op es es' v q = (
    record {
      valid = rw (q.nary_valid op, v, q.valid) refl;
      sort = refl;
      refs = q.refs;
      symbols = q.symbols;
      literals = q.literals;
    },
    q.nary_valid op ∙ v,
  )

  call-IsRenamed :
      (g : String) (es es' : Exprs) (s : Sort)
      → node_is_valid (call g es s) ≡ true
      → AreRenamed mapping es es'
      → IsRenamed mapping (call g es s) (call g es' s) × (node_is_valid (call g es' s) ≡ true)
  unfolding well_formed iter_event_fields iter_symbols iter_literals node_is_valid
  call-IsRenamed g es es' s v q = (
    record {
      valid = rw (v, q.valid) refl;
      sort = refl;
      refs = q.refs;
      symbols = q.symbols;
      literals = q.literals;
    },
    v,
  )

  nil_renamed : AreRenamed mapping nil nil
  unfolding well_formed iter_event_fields iter_symbols iter_literals
  nil_renamed = record {
    valid = refl;
    bools = refl;
    alike = λ h. refl;
    nary_valid = λ op. refl;
    refs = refl;
    symbols = refl;
    literals = refl;
  }

  mutual
    unfolding substitute_event_ids well_formed

    rename : (e : Expr) → well_formed e ≡ true → Renames e
    rename (literal v s) w = (literal v s, refl, leaf_literal v s w)
    rename (symbol n s) w = (symbol n s, refl, leaf_symbol n s w)
    rename (event_field i f s) w =
        let (r, v) = leaf_field i f s w in (event_field (renamed mapping i) f s, make-eq-ok _ v, r)
    rename (unary op e) w =
        let v = and-left _ (well_formed e) w in
        let (e', p, q) = rename e (and-right (node_is_valid (unary op e)) _ w) in
        let (r, v') = unary-IsRenamed op e e' v q in
        (unary op e', rw p (make-eq-ok (unary op e') v'), r)
    rename (binary op l r) w =
        let v = and-left _ (well_formed l) (and-left _ (well_formed r) w) in
        let (l', p, q) =
          rename l (and-right (node_is_valid (binary op l r)) _ (and-left _ (well_formed r) w)) in
        let (r', p', q') = rename r (and-right _ (well_formed r) w) in
        let (z, v') = binary-IsRenamed op l l' r r' v q q' in
        (binary op l' r', rw (p, p') (make-eq-ok (binary op l' r') v'), z)
    rename (nary op es) w =
        let (es', p, q) = rename_all es (and-right (node_is_valid (nary op es)) _ w) in
        let (r, v) = nary-IsRenamed op es es' (and-left _ (well_formed_all es) w) q in
        (nary op es', rw p (make-eq-ok (nary op es') v), r)
    rename (if_expr c t e) w =
        let w₁ = and-left _ (well_formed e) w in
        let w₂ = and-left _ (well_formed t) w₁ in
        let (c', pc, qc) = rename c (and-right (node_is_valid (if_expr c t e)) _ w₂) in
        let (t', pt, qt) = rename t (and-right _ (well_formed t) w₁) in
        let (e', pe, qe) = rename e (and-right _ (well_formed e) w) in
        let (r, v) = if_IsRenamed c c' t t' e e' (and-left _ (well_formed c) w₂) qc qt qe in
        (if_expr c' t' e', rw (pc, pt, pe) (make-eq-ok (if_expr c' t' e') v), r)
    rename (call g es s) w =
        let (es', p, q) = rename_all es (and-right (node_is_valid (call g es s)) _ w) in
        let (r, v) = call-IsRenamed g es es' s (and-left _ (well_formed_all es) w) q in
        (call g es' s, rw p (make-eq-ok (call g es' s) v), r)

    rename_all : (es : Exprs) → well_formed_all es ≡ true → RenamesAll es
    rename_all nil w = (nil, refl, nil_renamed)
    rename_all (cons e es) w =
        let (e', p, q) = rename e (and-left _ (well_formed_all es) w) in
        let (es', p', q') = rename_all es (and-right (well_formed e) _ w) in
        (cons e' es', rw (p, p') refl, cons_renamed e e' es es' q q')

-- Renaming the events of a well-formed expression by a mapping that gives no empty id raises no
-- exception. The result is well-formed and of the same sort, refers to the renamed events in the
-- same order, and has the same symbols and literals.
pub substitute_event_ids_lem :
    (mapping : String → Option String) (e : Expr)
    → ((k : String) → mapping k ≢ some "")
    → well_formed e ≡ true
    → (e' : Expr) × (substitute_event_ids mapping e ≡ ok e') × IsRenamed mapping e e'
substitute_event_ids_lem mapping e full w = rename mapping full e w
