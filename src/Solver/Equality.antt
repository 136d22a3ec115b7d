-- ===== src/Solver/Equality.antt =====
-- Python's `==` on scalars, as src/umcm/solver/evaluator.py and src/umcm/graph/builder.py use it, is
-- an equivalence.
use com_mcm.Prelude.{◌≡◌, refl, sym, ap, ◌∙◌, ◌↔◌, true, false, text_eq_instance}
use com_mcm.Prelude.Int.{ℤ, pos, int_beq, int_beq_iff}
use com_mcm.Ir.Sort.{Value, bool, int, text, null}
use com_mcm.Solver.Value.{py_eq}

-- A value for each class of `==`: True is 1 and False is 0.
abbrev pub canonical : Value → Value
canonical (bool true) = int (pos 1)
canonical (bool false) = int (pos 0)
canonical v = v

same_int_iff : (i j : ℤ) → (int_beq i j ≡ true) ↔ (int i ≡ int j)
same_int_iff i j = (λ h. ap int ((int_beq_iff i j).0 h), λ h. (int_beq_iff i j).1 cc)

pub py_eq_iff : (v w : Value) → (py_eq v w ≡ true) ↔ (canonical v ≡ canonical w)
unfolding py_eq
py_eq_iff (bool true) (bool true) = (λ h. refl, λ h. refl)
py_eq_iff (bool true) (bool false) = same_int_iff (pos 1) (pos 0)
py_eq_iff (bool true) (int j) = same_int_iff (pos 1) j
py_eq_iff (bool true) (text t) = (λ h. absurd cc, λ h. absurd cc)
py_eq_iff (bool true) null = (λ h. absurd cc, λ h. absurd cc)
py_eq_iff (bool false) (bool true) = same_int_iff (pos 0) (pos 1)
py_eq_iff (bool false) (bool false) = (λ h. refl, λ h. refl)
py_eq_iff (bool false) (int j) = same_int_iff (pos 0) j
py_eq_iff (bool false) (text t) = (λ h. absurd cc, λ h. absurd cc)
py_eq_iff (bool false) null = (λ h. absurd cc, λ h. absurd cc)
py_eq_iff (int i) (bool true) = same_int_iff i (pos 1)
py_eq_iff (int i) (bool false) = same_int_iff i (pos 0)
py_eq_iff (int i) (int j) = same_int_iff i j
py_eq_iff (int i) (text t) = (λ h. absurd cc, λ h. absurd cc)
py_eq_iff (int i) null = (λ h. absurd cc, λ h. absurd cc)
py_eq_iff (text s) (bool true) = (λ h. absurd cc, λ h. absurd cc)
py_eq_iff (text s) (bool false) = (λ h. absurd cc, λ h. absurd cc)
py_eq_iff (text s) (int j) = (λ h. absurd cc, λ h. absurd cc)
py_eq_iff (text s) (text t) =
    (λ h. ap text ((text_eq_instance.beq_iff s t).0 h), λ h. (text_eq_instance.beq_iff s t).1 cc)
py_eq_iff (text s) null = (λ h. absurd cc, λ h. absurd cc)
py_eq_iff null (bool true) = (λ h. absurd cc, λ h. absurd cc)
py_eq_iff null (bool false) = (λ h. absurd cc, λ h. absurd cc)
py_eq_iff null (int j) = (λ h. absurd cc, λ h. absurd cc)
py_eq_iff null (text t) = (λ h. absurd cc, λ h. absurd cc)
py_eq_iff null null = (λ h. refl, λ h. refl)

pub py_eq_sym : (a b : Value) → py_eq a b ≡ true → py_eq b a ≡ true
py_eq_sym a b h = (py_eq_iff b a).1 (sym ((py_eq_iff a b).0 h))

pub py_eq_trans : (a b c : Value) → py_eq a b ≡ true → py_eq b c ≡ true → py_eq a c ≡ true
py_eq_trans a b c h k = (py_eq_iff a c).1 ((py_eq_iff a b).0 h ∙ (py_eq_iff b c).0 k)

pub py_eq_refl : (v : Value) → py_eq v v ≡ true
py_eq_refl v = (py_eq_iff v v).1 refl
