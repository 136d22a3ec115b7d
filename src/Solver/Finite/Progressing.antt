-- ===== src/Solver/Finite/Progressing.antt =====
-- Partial assignments and the counters of the search (src/umcm/solver/finite.py) as it goes on.
use com_mcm.Prelude.{
  ◌≡◌, ◌≢◌, refl, sym, ◌∙◌, ap, subst, String, true, false, Option, none, some, List, [], ◌∷◌,
  arith, Bool-cases, inl, inr, ℕ, ◌≤◌, ltb, ◌==◌, text_eq_instance, Memᴰ,
}
use mathlib.Core.List.Memᴰ
use com_mcm.Errors.{ok}
use com_mcm.Ir.Sort.{Value}
use com_mcm.Solver.Evaluator.{Partial}
use com_mcm.Solver.Evaluator.Growth.{Below, Below-refl}
use com_mcm.Solver.Finite.{FiniteVariable, Assignment, assign, Progress, Step}
use com_mcm.Solver.Finite.Sound.{Completes}

-- The keys of the dict of symbols differ.
abbrev pub DistinctNames : List FiniteVariable → Type 0
DistinctNames [] = Unit
DistinctNames (v ∷ vs) = ((u : FiniteVariable) → Memᴰ u vs → u.name ≢ v.name) × DistinctNames vs

-- The variables have no value yet.
abbrev pub Fresh : List FiniteVariable → Assignment → Type 0
Fresh [] a = Unit
Fresh (v ∷ vs) a = (a v.name ≡ none) × ((x : Value) → Fresh vs (assign a v.name x))

-- Every value is of the domain of its variable.
abbrev pub Within : List FiniteVariable → Assignment → Type 0
Within variables a =
    (n : String) (x : Value)
    → a n ≡ some x
    → (v : FiniteVariable) × Memᴰ v variables × (v.name ≡ n) × Memᴰ x v.domain

pub assign_other : (a : Assignment) (k n : String) (x : Value) → n ≢ k → assign a k x n ≡ a n
assign_other a k n x h = elim (Bool-cases (n == k)) [
  | inl b ↦ absurd (h ((text_eq_instance.beq_iff n k).0 b))
  | inr b ↦ rw b refl
]

pub Fresh-of_DistinctNames :
    (vs : List FiniteVariable) (a : Assignment)
    → DistinctNames vs
    → ((v : FiniteVariable) → Memᴰ v vs → a v.name ≡ none)
    → Fresh vs a
Fresh-of_DistinctNames [] a d h = tt
Fresh-of_DistinctNames (v ∷ vs) a d h = (
  h v (Memᴰ.head refl),
  λ x.
      Fresh-of_DistinctNames vs (assign a v.name x) d.1
        (λ u m. assign_other a v.name u.name x (d.0 u m) ∙ h u (Memᴰ.tail m)),
)

pub Below-trans : (p q r : Partial) → Below p q → Below q r → Below p r
Below-trans none q r h k = tt
Below-trans (some v) q r h k = subst (λ z. Below z r) h k

pub Below-assign :
    (a : Assignment) (k n : String) (x : Value) → a k ≡ none → Below (a n) (assign a k x n)
Below-assign a k n x h = elim (Bool-cases (n == k)) [
  | inl b ↦
      subst (λ z. Below z (assign a k x n)) (sym (ap a ((text_eq_instance.beq_iff n k).0 b) ∙ h)) tt
  | inr b ↦ rw b (Below-refl (a n))
]

pub Below-of_Completes :
    (vs : List FiniteVariable) (a b : Assignment)
    → Fresh vs a
    → Completes vs a b
    → (n : String) → Below (a n) (b n)
Below-of_Completes [] a b f c n =
    subst (λ (z : Assignment). Below (a n) (z n)) (sym c) (Below-refl (a n))
Below-of_Completes (v ∷ vs) a b f (x, m, c) n =
    Below-trans (a n) (assign a v.name x n) (b n) (Below-assign a v.name n x f.0)
      (Below-of_Completes vs (assign a v.name x) b (f.1 x) c n)

pub Within-assign :
    (variables : List FiniteVariable) (a : Assignment) (v : FiniteVariable) (x : Value)
    → Memᴰ v variables
    → Memᴰ x v.domain
    → Within variables a
    → Within variables (assign a v.name x)
Within-assign variables a v x m d w n y h = elim (Bool-cases (n == v.name)) [
  | inl b ↦
      let e : x ≡ y = same_value (rw b at h) in
      (v, m, sym ((text_eq_instance.beq_iff n v.name).0 b), Memᴰ.cast (sym e) d)
  | inr b ↦ w n y (rw b at h)
]
  where
    same_value : some x ≡ some y → x ≡ y
    same_value k = cc

-- The counters only grow.
pub record Later (p q : Progress) : Type 0 where
  pub explored : p.explored ≤ q.explored
  pub unknown : p.hit_unknown_leaf ≡ true → q.hit_unknown_leaf ≡ true

pub Later-refl : (p : Progress) → Later p p
Later-refl p = record { explored = omega arith; unknown = λ h. h }

pub Later-trans : (p q r : Progress) → Later p q → Later q r → Later p r
Later-trans p q r h k = record {
  explored = omega (arith, h.explored, k.explored);
  unknown = λ u. k.unknown (h.unknown u);
}

-- The search was neither cut off nor left a constraint undecided.
abbrev pub Conclusive : ℕ → Progress → Type 0
Conclusive node_limit q = (ltb node_limit q.explored ≡ false) × (q.hit_unknown_leaf ≡ false)

pub Conclusive-Later :
    (limit : ℕ) (p q : Progress) → Later p q → Conclusive limit q → Conclusive limit p
Conclusive-Later limit p q l c = (ground (arith, l.explored), ground (arith, l.unknown))

pub ok_pair :
    (o o' : Option Assignment) (p q : Progress)
    → ◌≡◌ {A = Step} (ok (o, p)) (ok (o', q))
    → (o ≡ o') × (p ≡ q)
ok_pair o o' p q h = (cc, cc)
