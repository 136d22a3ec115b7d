-- ===== src/Errors.antt =====
-- The exceptions of errors.py, those of Python that the modelled code can meet, and the
-- result of code that may raise. Messages are left out.
use com_mcm.Prelude.{◌≡◌, refl, Bool, true, false}

pub data Error : Type 0 where
  graph_error axiom_error schema_error expression_type_error serialization_error : Error
  trace_validation_error solver_error composition_error : Error
  -- Python's own
  assertion_error index_error type_error key_error value_error stop_iteration recursion_error :
      Error

-- A call that raises, or returns a value.
pub data Result {u} (Value : Type u) : Type u where
  err : Error → Result Value
  ok : Value → Result Value

-- What stands before `else: raise e` in a test.
abbrev pub guard : Bool → Error → Result (Unit {0})
guard false error = err error
guard true error = ok tt

infixl 5 ◌>>=◌
abbrev pub ◌>>=◌ {u v} : {P : Type u} {Q : Type v} → Result P → (P → Result Q) → Result Q
err error >>= next = err error
ok value >>= next = next value

pub guard-eq-ok : (b : Bool) (e : Error) → guard b e ≡ ok tt → b ≡ true
guard-eq-ok true e h = refl
guard-eq-ok false e h = cc

infixl 5 ◌>>◌
abbrev pub ◌>>◌ {v} : {Q : Type v} → Result (Unit {0}) → Result Q → Result Q
first >> second = first >>= λ done. second

pub >>=-eq-ok {u v} :
    {P : Type u} {Q : Type v} (first : Result P) (next : P → Result Q) {b : Q}
    → (first >>= next) ≡ ok b
    → (a : P) × (first ≡ ok a) × (next a ≡ ok b)
>>=-eq-ok (err error) next h = cc
>>=-eq-ok (ok value) next h = (value, refl, h)

pub ok-injective {ℓ} : {A : Type ℓ} {a b : A} → ok a ≡ ok b → a ≡ b
ok-injective h = cc

pub ok-injective_back {ℓ} : {A : Type ℓ} {a b : A} → ok a ≡ ok b → b ≡ a
ok-injective_back h = cc
