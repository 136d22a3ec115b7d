-- ===== src/Ir/Codec/Checked.antt =====
-- What the decoder accepts (src/umcm/ir/expression.py, src/umcm/ir/sort.py).
use com_mcm.Prelude.{
  lookup, some-injective, Memᴰ-lookup, ◌≡◌, refl, sym, ap, ◌∙◌, subst, inl, inr, String, true, not,
  Option, none, some, List, ◌==◌, text_eq_instance, arith, Memᴰ, Bool-cases, Option-cases,
}
use mathlib.Core.List.Memᴰ
use com_mcm.Errors.{
  ok, err, guard, guard-eq-ok, >>=-eq-ok, ok-injective, schema_error, serialization_error,
  expression_type_error,
}
use com_mcm.Ir.Sort.{bool, int, text, null, Sort, sort_is_valid, is_blank}
use com_mcm.Ir.Expression.{
  Expr, Exprs, literal, symbol, event_field, unary, binary, nary, if_expr, call, nil, make,
  well_formed, well_formed_all, node_is_valid,
}
use com_mcm.Ir.Codec.{
  Data, Items, Entries, scalar, sequence, mapping, no_items, item, no_entries, entry, View, find,
  make_sort, unary_op, binary_ops, nary_op, supported, sort_from_dict, decode_node, decode_literal,
  decode_symbol, decode_event_field, decode_unary, decode_binary, decode_nary, decode_ite,
  decode_call, expr_from_dict, members_of, all_from_dict, views_of, width_of, signed_of, or_missing,
  or_schema_error, text_of, text_at, sort_at, expr_at, is_node, value_of, members_or_raise,
  arguments_of, expr_to_dict,
}
use com_mcm.Ir.Codec.RoundTrip.{has_valid_sorts, have_valid_sorts, expr_from_dict-expr_to_dict}

-- The nodes and the sorts went through their constructors.
abbrev pub IsChecked : Expr → Type 0
IsChecked e = (well_formed e ≡ true) × (has_valid_sorts e ≡ true)

abbrev AreChecked : Exprs → Type 0
AreChecked es = (well_formed_all es ≡ true) × (have_valid_sorts es ≡ true)

made : (e e' : Expr) → make e ≡ ok e' → (node_is_valid e ≡ true) × (e ≡ e')
unfolding make
made e e' h =
    let (u, p, q) = >>=-eq-ok (guard (node_is_valid e) expression_type_error) _ h in
    (guard-eq-ok _ expression_type_error p, ok-injective q)

make_sort-valid :
    (name : String) (w b : Option Data) (s : Sort)
    → make_sort name w b ≡ ok s
    → sort_is_valid s ≡ true
unfolding make_sort
make_sort-valid name w b s h =
    let (u, p, h₁) = >>=-eq-ok (guard (not (is_blank name)) schema_error) _ h in
    let (w', q, h₂) = >>=-eq-ok (width_of w) _ h₁ in
    let (b', r, h₃) = >>=-eq-ok (signed_of b) _ h₂ in
    let sort : Sort = record { name = name; width = w'; signed = b' } in
    let (u', t, h₄) = >>=-eq-ok (guard (sort_is_valid sort) schema_error) (λ u. ok sort) h₃ in
    subst (λ z. sort_is_valid z ≡ true) (ok-injective h₄) (guard-eq-ok _ schema_error t)

members_given :
    (v : View) (es : Exprs) → members_or_raise (some v) ≡ ok es → v.members ≡ some (ok es)
members_given v es h = elim (Option-cases v.members) [
  | inl n ↦ let p : err serialization_error ≡ ok es = rw n at h in absurd cc
  | inr (r, t) ↦ let p : r ≡ ok es = rw t at h in t ∙ ap some p
]

module _ (repr : Data → String) where
  sort_from_dict-valid :
      (d : Data) (s : Sort) → sort_from_dict repr d ≡ ok s → sort_is_valid s ≡ true
  unfolding sort_from_dict
  sort_from_dict-valid (scalar (text n)) s h = make_sort-valid n none none s h
  sort_from_dict-valid (mapping entries) s h =
      let (name, p, q) = >>=-eq-ok (or_schema_error (find "name" entries)) _ h in
      make_sort-valid (text_of repr name) (find "width" entries) (find "signed" entries) s q
  sort_from_dict-valid (scalar (bool b)) s h = absurd cc
  sort_from_dict-valid (scalar (int i)) s h = absurd cc
  sort_from_dict-valid (scalar null) s h = absurd cc
  sort_from_dict-valid (sequence items) s h = absurd cc

  record IsGoodView (v : View) : Type 0 where
    decodes : (e : Expr) → v.decoded ≡ ok e → IsChecked e
    has_members : (es : Exprs) → v.members ≡ some (ok es) → AreChecked es

  module _ (views : List (String × View))
      (good : (key : String) (v : View) → Memᴰ (key, v) views → IsGoodView v) where
    sort_at-valid : (s : Sort) → sort_at repr views ≡ ok s → sort_is_valid s ≡ true
    sort_at-valid s h =
        let (v, p, q) = >>=-eq-ok (or_missing (lookup "sort" views)) _ h in
        sort_from_dict-valid v.whole s q

    found : (key : String) (v : View) → or_missing (lookup key views) ≡ ok v → IsGoodView v
    found key v h = elim (Option-cases (lookup key views)) [
      | inl n ↦ let p : err serialization_error ≡ ok v = rw n at h in absurd cc
      | inr (u, t) ↦
          let p : ok u ≡ ok v = rw t at h in
          subst IsGoodView (ok-injective p) (good key u (Memᴰ-lookup key u views t))
    ]

    expr_at-IsChecked : (key : String) (e : Expr) → expr_at repr key views ≡ ok e → IsChecked e
    expr_at-IsChecked key e h =
        let (v, p, q) = >>=-eq-ok (or_missing (lookup key views)) _ h in (found key v p).decodes e q

    members-checked :
        (key : String) (es : Exprs) → members_or_raise (lookup key views) ≡ ok es → AreChecked es
    members-checked key es h = elim (Option-cases (lookup key views)) [
      | inl n ↦ let p : err serialization_error ≡ ok es = rw n at h in absurd cc
      | inr (u, t) ↦
          let p : members_or_raise (some u) ≡ ok es = rw t at h in
          (good key u (Memᴰ-lookup key u views t)).has_members es (members_given u es p)
    ]

    arguments-checked :
        (es : Exprs) → arguments_of (lookup "arguments" views) ≡ ok es → AreChecked es
    unfolding well_formed_all have_valid_sorts
    arguments-checked es h = elim (Option-cases (lookup "arguments" views)) [
      | inl n ↦ let p : ok nil ≡ ok es = rw n at h in subst AreChecked (ok-injective p) (refl, refl)
      | inr (u, t) ↦
          members-checked "arguments" es
            (ap members_or_raise t ∙ (let p : members_or_raise (some u) ≡ ok es = rw t at h in p))
    ]

    leaf-IsChecked :
        (e e' : Expr) → (node_is_valid e ≡ true → IsChecked e) → make e ≡ ok e' → IsChecked e'
    leaf-IsChecked e e' f h = let (v, same) = made e e' h in subst IsChecked same (f v)

    decode_literal-IsChecked : (e : Expr) → decode_literal repr views ≡ ok e → IsChecked e
    unfolding decode_literal well_formed has_valid_sorts
    decode_literal-IsChecked e h =
        let (s, a, p₁) = >>=-eq-ok (sort_at repr views) _ h in
        let (v, b, p₂) = >>=-eq-ok (value_of (lookup "value" views)) _ p₁ in
        leaf-IsChecked (literal v s) e (λ u. (u, sort_at-valid s a)) p₂

    decode_symbol-IsChecked : (e : Expr) → decode_symbol repr views ≡ ok e → IsChecked e
    unfolding decode_symbol well_formed has_valid_sorts
    decode_symbol-IsChecked e h =
        let (n, a, p₁) = >>=-eq-ok (text_at repr "name" views) _ h in
        let (s, b, p₂) = >>=-eq-ok (sort_at repr views) _ p₁ in
        leaf-IsChecked (symbol n s) e (λ u. (u, sort_at-valid s b)) p₂

    decode_event_field-IsChecked : (e : Expr) → decode_event_field repr views ≡ ok e → IsChecked e
    unfolding decode_event_field well_formed has_valid_sorts
    decode_event_field-IsChecked e h =
        let (i, a, p₁) = >>=-eq-ok (text_at repr "event_id" views) _ h in
        let (f, b, p₂) = >>=-eq-ok (text_at repr "field" views) _ p₁ in
        let (s, c, p₃) = >>=-eq-ok (sort_at repr views) _ p₂ in
        leaf-IsChecked (event_field i f s) e (λ u. (u, sort_at-valid s c)) p₃

    decode_unary-IsChecked : (e : Expr) → decode_unary repr views ≡ ok e → IsChecked e
    unfolding decode_unary well_formed has_valid_sorts
    decode_unary-IsChecked e h =
        let (name, a, p₁) = >>=-eq-ok (text_at repr "op" views) _ h in
        let (x, b, p₂) = >>=-eq-ok (expr_at repr "operand" views) _ p₁ in
        let (op, c, p₃) = >>=-eq-ok (supported (unary_op name)) _ p₂ in
        let (w, s) = expr_at-IsChecked "operand" x b in
        leaf-IsChecked (unary op x) e (λ u. (ground (arith, u, w), s)) p₃

    decode_binary-IsChecked : (e : Expr) → decode_binary repr views ≡ ok e → IsChecked e
    unfolding decode_binary well_formed has_valid_sorts
    decode_binary-IsChecked e h =
        let (name, a, p₁) = >>=-eq-ok (text_at repr "op" views) _ h in
        let (l, b, p₂) = >>=-eq-ok (expr_at repr "left" views) _ p₁ in
        let (r, c, p₃) = >>=-eq-ok (expr_at repr "right" views) _ p₂ in
        let (op, d, p₄) = >>=-eq-ok (supported (lookup name binary_ops)) _ p₃ in
        let (wl, sl) = expr_at-IsChecked "left" l b in
        let (wr, sr) = expr_at-IsChecked "right" r c in
        leaf-IsChecked (binary op l r) e (λ u. (ground (arith, u, wl, wr), ground (arith, sl, sr)))
          p₄

    decode_nary-IsChecked : (e : Expr) → decode_nary repr views ≡ ok e → IsChecked e
    unfolding decode_nary well_formed has_valid_sorts
    decode_nary-IsChecked e h =
        let (name, a, p₁) = >>=-eq-ok (text_at repr "op" views) _ h in
        let (es, b, p₂) = >>=-eq-ok (members_or_raise (lookup "operands" views)) _ p₁ in
        let (op, c, p₃) = >>=-eq-ok (supported (nary_op name)) _ p₂ in
        let (w, s) = members-checked "operands" es b in
        leaf-IsChecked (nary op es) e (λ u. (ground (arith, u, w), s)) p₃

    decode_ite-IsChecked : (e : Expr) → decode_ite repr views ≡ ok e → IsChecked e
    unfolding decode_ite well_formed has_valid_sorts
    decode_ite-IsChecked e h =
        let (c, a, p₁) = >>=-eq-ok (expr_at repr "condition" views) _ h in
        let (t, b, p₂) = >>=-eq-ok (expr_at repr "then" views) _ p₁ in
        let (x, d, p₃) = >>=-eq-ok (expr_at repr "else" views) _ p₂ in
        let (wc, sc) = expr_at-IsChecked "condition" c a in
        let (wt, st) = expr_at-IsChecked "then" t b in
        let (wx, sx) = expr_at-IsChecked "else" x d in
        leaf-IsChecked (if_expr c t x) e
          (λ u. (ground (arith, u, wc, wt, wx), ground (arith, sc, st, sx))) p₃

    decode_call-IsChecked : (e : Expr) → decode_call repr views ≡ ok e → IsChecked e
    unfolding decode_call well_formed has_valid_sorts
    decode_call-IsChecked e h =
        let (f, a, p₁) = >>=-eq-ok (text_at repr "function" views) _ h in
        let (es, b, p₂) = >>=-eq-ok (arguments_of (lookup "arguments" views)) _ p₁ in
        let (s, c, p₃) = >>=-eq-ok (sort_at repr views) _ p₂ in
        let (w, t) = arguments-checked es b in
        let v = sort_at-valid s c in
        leaf-IsChecked (call f es s) e (λ u. (ground (arith, u, w), ground (arith, v, t))) p₃

    decode_node-IsChecked : (e : Expr) → decode_node repr views ≡ ok e → IsChecked e
    unfolding decode_node
    decode_node-IsChecked e h =
        let kind = lookup "node" views in
        elim (Bool-cases (is_node kind "literal")) [
          | inl t ↦
              let p : decode_literal repr views ≡ ok e = rw t at h in decode_literal-IsChecked e p
          | inr f0 ↦ elim (Bool-cases (is_node kind "symbol")) [
            | inl t ↦
                let p : decode_symbol repr views ≡ ok e = rw (f0, t) at h in
                decode_symbol-IsChecked e p
            | inr f1 ↦ elim (Bool-cases (is_node kind "event_field")) [
              | inl t ↦
                  let p : decode_event_field repr views ≡ ok e = rw (f0, f1, t) at h in
                  decode_event_field-IsChecked e p
              | inr f2 ↦ elim (Bool-cases (is_node kind "unary")) [
                | inl t ↦
                    let p : decode_unary repr views ≡ ok e = rw (f0, f1, f2, t) at h in
                    decode_unary-IsChecked e p
                | inr f3 ↦ elim (Bool-cases (is_node kind "binary")) [
                  | inl t ↦
                      let p : decode_binary repr views ≡ ok e = rw (f0, f1, f2, f3, t) at h in
                      decode_binary-IsChecked e p
                  | inr f4 ↦ elim (Bool-cases (is_node kind "nary")) [
                    | inl t ↦
                        let p : decode_nary repr views ≡ ok e = rw (f0, f1, f2, f3, f4, t) at h in
                        decode_nary-IsChecked e p
                    | inr f5 ↦ elim (Bool-cases (is_node kind "ite")) [
                      | inl t ↦
                          let p : decode_ite repr views ≡ ok e =
                            rw (f0, f1, f2, f3, f4, f5, t) at h in
                          decode_ite-IsChecked e p
                      | inr f6 ↦ elim (Bool-cases (is_node kind "call")) [
                        | inl t ↦
                            let p : decode_call repr views ≡ ok e =
                              rw (f0, f1, f2, f3, f4, f5, f6, t) at h in
                            decode_call-IsChecked e p
                        | inr f7 ↦
                            let p : err serialization_error ≡ ok e =
                              rw (f0, f1, f2, f3, f4, f5, f6, f7) at h in
                            absurd cc
                      ]
                    ]
                  ]
                ]
              ]
            ]
          ]
        ]

  mutual
    unfolding expr_from_dict well_formed has_valid_sorts

    checked : (d : Data) (e : Expr) → expr_from_dict repr d ≡ ok e → IsChecked e
    checked (scalar v) e h = absurd cc
    checked (sequence items) e h = absurd cc
    checked (mapping entries) e h =
        decode_node-IsChecked (views_of repr entries) (views-good entries) e h

    members-good : (d : Data) (es : Exprs) → members_of repr d ≡ some (ok es) → AreChecked es
    members-good (scalar (text t)) es h = elim (Bool-cases (t == "")) [
      | inl y ↦
          let p : some (ok nil) ≡ some (ok es) = rw y at h in
          subst AreChecked (ok-injective (some-injective p)) (refl, refl)
      | inr n ↦
          let p : some (err serialization_error) ≡ some (ok es) = rw n at h in
          let q = some-injective p in absurd cc
    ]
    members-good (scalar (bool b)) es h = absurd cc
    members-good (scalar (int i)) es h = absurd cc
    members-good (scalar null) es h = absurd cc
    members-good (sequence items) es h = all-checked items es (some-injective h)
    members-good (mapping _) es h = absurd cc

    all-checked : (items : Items) (es : Exprs) → all_from_dict repr items ≡ ok es → AreChecked es
    all-checked no_items es h = subst AreChecked (ok-injective h) (refl, refl)
    all-checked (item d rest) es h =
        let (e, a, h₁) = >>=-eq-ok (expr_from_dict repr d) _ h in
        let (others, b, h₂) = >>=-eq-ok (all_from_dict repr rest) _ h₁ in
        let (w, s) = checked d e a in
        let (ws, ss) = all-checked rest others b in
        subst AreChecked (ok-injective h₂) (ground (arith, w, ws), ground (arith, s, ss))

    views-good :
        (entries : Entries) (key : String) (v : View)
        → Memᴰ (key, v) (views_of repr entries)
        → IsGoodView v
    views-good no_entries key v m = absurd (Memᴰ.not-nil m)
    views-good (entry k d rest) key v m = elim (Memᴰ.cases_cons m) [
      | inl e ↦
          subst IsGoodView (sym (ap (λ z. z.1) e))
            (record { decodes = checked d; has_members = members-good d })
      | inr n ↦ views-good rest key v n
    ]

-- An expression that the decoder accepts has only nodes and sorts that their constructors accept, and
-- decoding its encoding gives it back.
pub expr_from_dict-IsChecked :
    (repr : Data → String) (d : Data) (e : Expr)
    → expr_from_dict repr d ≡ ok e
    → IsChecked e × (expr_from_dict repr (expr_to_dict e) ≡ ok e)
expr_from_dict-IsChecked repr d e h =
    let (w, s) = checked repr d e h in ((w, s), expr_from_dict-expr_to_dict repr e w s)
