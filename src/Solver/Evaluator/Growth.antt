-- ===== src/Solver/Evaluator/Growth.antt =====
-- The order by which partial results grow (src/umcm/solver/evaluator.py).
use com_mcm.Prelude.{
  ◌≡◌, refl, Bool, true, false, none, some, List, [], ◌∷◌, arith, if◌then◌else◌, text_eq_instance,
}
use com_mcm.Errors.{Result, ok, err, Error, ◌>>=◌}
use com_mcm.Ir.Sort.{Value, bool, int, text, null}
use com_mcm.Solver.Evaluator.{Partial, is_true, is_false}

-- What is known stays.
abbrev pub Below : Partial → Partial → Type 0
Below none q = Unit
Below (some v) q = q ≡ some v

-- If the first result is a value, the second is the same value or an exception.
abbrev pub Grows : Result Partial → Result Partial → Type 0
Grows (err e) r = Unit
Grows (ok p) (err e) = Unit
Grows (ok p) (ok q) = Below p q

abbrev pub BelowAll : List Partial → List Partial → Type 0
BelowAll [] [] = Unit
BelowAll [] (q ∷ qs) = ⊥
BelowAll (p ∷ ps) [] = ⊥
BelowAll (p ∷ ps) (q ∷ qs) = Below p q × BelowAll ps qs

abbrev pub GrowsAll : Result (List Partial) → Result (List Partial) → Type 0
GrowsAll (err e) r = Unit
GrowsAll (ok ps) (err e) = Unit
GrowsAll (ok ps) (ok qs) = BelowAll ps qs

pub Below-refl : (p : Partial) → Below p p
Below-refl none = tt
Below-refl (some v) = refl

pub Grows-refl : (r : Result Partial) → Grows r r
Grows-refl (err e) = tt
Grows-refl (ok p) = Below-refl p

pub Grows-err : (r : Result Partial) (e : Error) → Grows r (err e)
Grows-err (err x) e = tt
Grows-err (ok p) e = tt

pub Grows-none : (r : Result Partial) → Grows (ok none) r
Grows-none (err e) = tt
Grows-none (ok p) = tt

pub Grows-bind :
    (r s : Result Partial) (f g : Partial → Result Partial)
    → Grows r s
    → ((p q : Partial) → Below p q → Grows (f p) (g q))
    → Grows (r >>= f) (s >>= g)
Grows-bind (err e) s f g b h = tt
Grows-bind (ok p) (err e) f g b h = Grows-err (f p) e
Grows-bind (ok p) (ok q) f g b h = h p q b

pub GrowsAll-bind :
    (r s : Result (List Partial)) (f g : List Partial → Result Partial)
    → GrowsAll r s
    → ((ps qs : List Partial) → BelowAll ps qs → Grows (f ps) (g qs))
    → Grows (r >>= f) (s >>= g)
GrowsAll-bind (err e) s f g b h = tt
GrowsAll-bind (ok p) (err e) f g b h = Grows-err (f p) e
GrowsAll-bind (ok p) (ok q) f g b h = h p q b

pub Below-is_true : (p q : Partial) → Below p q → is_true p ≡ true → is_true q ≡ true
Below-is_true (some v) q b h = rw b h
Below-is_true none q b h = cc

pub Below-is_false : (p q : Partial) → Below p q → is_false p ≡ true → is_false q ≡ true
Below-is_false (some v) q b h = rw b h
Below-is_false none q b h = cc

pub not-both : (p : Partial) → is_true p ≡ true → is_false p ≡ false
not-both (some (bool b)) h = ground arith
not-both (some (int i)) h = refl
not-both (some (text s)) h = refl
not-both (some null) h = refl
not-both none h = refl

-- A decision in three ways, as the logical operators make it.
abbrev pub three : Bool → Bool → Value → Value → Result Partial
three a b v w = if a then ok (some v) else if b then ok (some w) else ok none

pub three_mono :
    (a b a' b' : Bool) (v w : Value)
    → (a ≡ true → a' ≡ true)
    → (a ≡ false → b ≡ true → (b' ≡ true) × (a' ≡ false))
    → Grows (three a b v w) (three a' b' v w)
three_mono true b a' b' v w h k = rw (h refl) refl
three_mono false true a' b' v w h k = rw ((k refl refl).1, (k refl refl).0) refl
three_mono false false a' b' v w h k = Grows-none (three a' b' v w)
