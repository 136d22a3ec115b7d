-- ===== src/Solver/Evaluator/Operators.antt =====
-- The operators of the evaluator grow with their operands (src/umcm/solver/evaluator.py).
use com_mcm.Prelude.{
  ◌≡◌, refl, sym, ◌∙◌, ap, Bool, true, false, not, ◌&&◌, ◌||◌, Option, none, some, List, [], ◌∷◌,
  arith, Bool-cases, inl, inr, any, all, ◌⊎◌, text_eq_instance,
}
use com_mcm.Ir.Sort.{Value, bool, is_bool_value}
use com_mcm.Ir.Expression.{
  UnaryOp, BinaryOp, and_op, or_op, implies_op, NaryOp, all_op, any_op, distinct_op,
}
use com_mcm.Solver.Value.{py_eq, py_eq-same_kind}
use com_mcm.Solver.Evaluator.{
  Partial, Function, evaluate_unary, evaluate_binary, evaluate_nary, agree, apply, all_known,
  is_true, is_false, is_unknown, concrete, repeats,
}
use com_mcm.Solver.Evaluator.Growth.{
  Below, Grows, BelowAll, Below-refl, Grows-refl, Grows-none, Below-is_true, Below-is_false,
  not-both, three, three_mono,
}

pub binary_mono :
    (op : BinaryOp) (p p' q q' : Partial)
    → Below p p'
    → Below q q'
    → Grows (evaluate_binary op p q) (evaluate_binary op p' q')
unfolding evaluate_binary
binary_mono and_op p p' q q' b c =
    three_mono (is_false p || is_false q) (is_true p && is_true q) _ _ _ _
      (λ h. ground (arith, Below-is_false p p' b, Below-is_false q q' c))
      (λ _ h. (
        ground (arith, Below-is_true p p' b, Below-is_true q q' c),
        ground (arith, Below-is_true p p' b, Below-is_true q q' c, not-both p', not-both q'),
      ))
binary_mono or_op p p' q q' b c =
    three_mono (is_true p || is_true q) (is_false p && is_false q) _ _ _ _
      (λ h. ground (arith, Below-is_true p p' b, Below-is_true q q' c))
      (λ _ h. (
        ground (arith, Below-is_false p p' b, Below-is_false q q' c),
        ground (arith, Below-is_false p p' b, Below-is_false q q' c, not-both p', not-both q'),
      ))
binary_mono implies_op p p' q q' b c =
    three_mono (is_false p || is_true q) (is_true p && is_false q) _ _ _ _
      (λ h. ground (arith, Below-is_false p p' b, Below-is_true q q' c))
      (λ _ h. (
        ground (arith, Below-is_true p p' b, Below-is_false q q' c),
        ground (arith, Below-is_true p p' b, Below-is_false q q' c, not-both p', not-both q'),
      ))
binary_mono op none p' q q' b c = Grows-none (evaluate_binary op p' q')
binary_mono op (some v) p' none q' b c = Grows-none (evaluate_binary op p' q')
binary_mono op (some v) p' (some w) q' b c =
    rw (b, c) (Grows-refl (evaluate_binary op (some v) (some w)))

pub any_mono :
    (t : Partial → Bool) (ps qs : List Partial)
    → ((p q : Partial) → Below p q → t p ≡ true → t q ≡ true)
    → BelowAll ps qs
    → any t ps ≡ true
    → any t qs ≡ true
unfolding any
any_mono t [] [] h b a = cc
any_mono t [] (q ∷ qs) h b a = absurd b
any_mono t (p ∷ ps) [] h b a = absurd b
any_mono t (p ∷ ps) (q ∷ qs) h (b, c) a = ground (arith, h p q b, any_mono t ps qs h c)

pub all_mono :
    (t : Partial → Bool) (ps qs : List Partial)
    → ((p q : Partial) → Below p q → t p ≡ true → t q ≡ true)
    → BelowAll ps qs
    → all t ps ≡ true
    → all t qs ≡ true
unfolding all
all_mono t [] [] h b a = refl
all_mono t [] (q ∷ qs) h b a = absurd b
all_mono t (p ∷ ps) [] h b a = absurd b
all_mono t (p ∷ ps) (q ∷ qs) h (b, c) a = ground (arith, h p q b, all_mono t ps qs h c)

pub no_false_of_all-true : (ps : List Partial) → all is_true ps ≡ true → any is_false ps ≡ false
unfolding any all
no_false_of_all-true [] h = refl
no_false_of_all-true (p ∷ ps) h = ground (arith, no_false_of_all-true ps, not-both p)

pub no_true_of_all-false : (ps : List Partial) → all is_false ps ≡ true → any is_true ps ≡ false
unfolding any all
no_true_of_all-false [] h = refl
no_true_of_all-false (p ∷ ps) h = ground (arith, no_true_of_all-false ps, not-both p)

pub any-concrete_mono :
    (t : Value → Bool) (ps qs : List Partial)
    → BelowAll ps qs
    → any t (concrete ps) ≡ true
    → any t (concrete qs) ≡ true
unfolding any concrete
any-concrete_mono t [] [] b h = cc
any-concrete_mono t [] (q ∷ qs) b h = absurd b
any-concrete_mono t (p ∷ ps) [] b h = absurd b
any-concrete_mono t (none ∷ ps) (none ∷ qs) (b, c) h = any-concrete_mono t ps qs c h
any-concrete_mono t (none ∷ ps) (some w ∷ qs) (b, c) h =
    ground (arith, any-concrete_mono t ps qs c h)
any-concrete_mono t (some v ∷ ps) (q ∷ qs) (b, c) h =
    rw b (ground (arith, any-concrete_mono t ps qs c))

pub repeats_mono :
    (ps qs : List Partial)
    → BelowAll ps qs
    → repeats (concrete ps) ≡ true
    → repeats (concrete qs) ≡ true
unfolding repeats concrete
repeats_mono [] [] b h = cc
repeats_mono [] (q ∷ qs) b h = absurd b
repeats_mono (p ∷ ps) [] b h = absurd b
repeats_mono (none ∷ ps) (none ∷ qs) (b, c) h = repeats_mono ps qs c h
repeats_mono (none ∷ ps) (some w ∷ qs) (b, c) h = ground (arith, repeats_mono ps qs c h)
repeats_mono (some v ∷ ps) (q ∷ qs) (b, c) h =
    rw b (ground (arith, any-concrete_mono (py_eq v) ps qs c, repeats_mono ps qs c))

-- A list of values has nothing left to learn.
pub known_all : (ps qs : List Partial) → BelowAll ps qs → any is_unknown ps ≡ false → qs ≡ ps
unfolding any
known_all [] [] b h = refl
known_all [] (q ∷ qs) b h = absurd b
known_all (p ∷ ps) [] b h = absurd b
known_all (none ∷ ps) (q ∷ qs) (b, c) h = cc
known_all (some v ∷ ps) (q ∷ qs) (b, c) h = rw (b, known_all ps qs c h) refl

pub distinct-eq-three :
    (ps : List Partial)
    → evaluate_nary distinct_op ps
      ≡ three (repeats (concrete ps)) (not (any is_unknown ps)) (bool false) (bool true)
unfolding evaluate_nary
distinct-eq-three ps = ground arith

pub nary_mono :
    (op : NaryOp) (ps qs : List Partial)
    → BelowAll ps qs
    → Grows (evaluate_nary op ps) (evaluate_nary op qs)
unfolding evaluate_nary
nary_mono all_op ps qs b =
    three_mono (any is_false ps) (all is_true ps) (any is_false qs) (all is_true qs) _ _
      (any_mono is_false ps qs Below-is_false b)
      (λ _ h. let t = all_mono is_true ps qs Below-is_true b h in (t, no_false_of_all-true qs t))
nary_mono any_op ps qs b =
    three_mono (any is_true ps) (all is_false ps) (any is_true qs) (all is_false qs) _ _
      (any_mono is_true ps qs Below-is_true b)
      (λ _ h. let t = all_mono is_false ps qs Below-is_false b h in (t, no_true_of_all-false qs t))
nary_mono distinct_op ps qs b =
    rw (distinct-eq-three ps, distinct-eq-three qs)
      (three_mono (repeats (concrete ps)) (not (any is_unknown ps)) (repeats (concrete qs))
        (not (any is_unknown qs)) _ _ (repeats_mono ps qs b)
        (λ r h. let e = known_all ps qs b (ground arith) in (rw e h, rw e r)))

pub unary_mono :
    (op : UnaryOp) (p q : Partial) → Below p q → Grows (evaluate_unary op p) (evaluate_unary op q)
unfolding evaluate_unary
unary_mono op none q b = Grows-none (evaluate_unary op q)
unary_mono op (some v) q b = rw b (Grows-refl (evaluate_unary op (some v)))

pub all_known_mono : (ps qs : List Partial) → BelowAll ps qs → (all_known ps ≡ none) ⊎ (qs ≡ ps)
unfolding all_known
all_known_mono [] [] b = inr refl
all_known_mono [] (q ∷ qs) b = absurd b
all_known_mono (p ∷ ps) [] b = absurd b
all_known_mono (none ∷ ps) (q ∷ qs) b = inl refl
all_known_mono (some v ∷ ps) (q ∷ qs) (b, c) = elim (all_known_mono ps qs c) [
  | inl n ↦ inl (rw (n, all_known) refl)
  | inr e ↦ inr (rw (b, e) refl)
]

pub apply_mono :
    (f : Option Function) (ps qs : List Partial) → BelowAll ps qs → Grows (apply f ps) (apply f qs)
unfolding apply
apply_mono f ps qs b = elim (all_known_mono ps qs b) [
  | inl n ↦ rw (n, apply) (Grows-none (apply f qs))
  | inr e ↦ rw e (Grows-refl (apply f ps))
]

pub agree-Below_left : (a b a' : Partial) → Below a a' → Below (agree a b) a'
unfolding agree
agree-Below_left none b a' h = tt
agree-Below_left (some v) none a' h = tt
agree-Below_left (some v) (some w) a' h = elim (Bool-cases (py_eq v w)) [
  | inl e ↦ rw e h
  | inr e ↦ rw e tt
]

unfoldable pub SameKind : Partial → Partial → Type 0
SameKind a b = (v w : Value) → a ≡ some v → b ≡ some w → is_bool_value v ≡ is_bool_value w

pub agree-Below_right : (a b b' : Partial) → SameKind a b → Below b b' → Below (agree a b) b'
unfolding agree SameKind
agree-Below_right none b b' k h = tt
agree-Below_right (some v) none b' k h = tt
agree-Below_right (some v) (some w) b' k h = elim (Bool-cases (py_eq v w)) [
  | inl e ↦ rw e (h ∙ ap some (sym (py_eq-same_kind v w (k v w refl refl) e)))
  | inr e ↦ rw e tt
]

pub agree_mono : (a b a' b' : Partial) → Below a a' → Below b b' → Below (agree a b) (agree a' b')
unfolding agree
agree_mono none b a' b' h k = tt
agree_mono (some v) none a' b' h k = tt
agree_mono (some v) (some w) a' b' h k = rw (h, k) (Below-refl (agree (some v) (some w)))
