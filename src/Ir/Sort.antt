-- ===== src/Ir/Sort.antt =====
-- Sorts and the values that are literals of them: src/umcm/ir/sort.py. Values of type float, which
-- only a domain sort accepts, are left out.
use Prim.Native.Char.{code}
use com_mcm.Prelude.{
  ◌≡◌, ◌↔◌, String, Bool, true, false, not, ◌&&◌, ◌||◌, Option, none, some, ℕ, ◌^◌, ltb, leb, arith,
  ◌==◌, text_eq_instance, nat_eq, Eq, if◌then◌else◌,
}
use com_mcm.Prelude.Int.{ℤ, pos, int_eq}
use com_mcm.Errors.{Result, ok, err, expression_type_error}

-- A Python scalar.
pub data Value : Type 0 where
  bool : Bool → Value
  int : ℤ → Value
  text : String → Value
  null : Value

pub record Sort : Type 0 where
  pub name : String
  pub width : Option ℕ
  pub signed : Option Bool

-- `str.isspace` of one character.
unfoldable pub is_space : ℕ → Bool
is_space c =
    (leb 9 c && leb c 13)
    || (leb 28 c && leb c 32)
    || (c == 133)
    || (c == 160)
    || (c == 5760)
    || (leb 8192 c && leb c 8202)
    || (c == 8232)
    || (c == 8233)
    || (c == 8239)
    || (c == 8287)
    || (c == 12288)

-- `not name.strip()`
unfoldable pub is_blank : String → Bool
unfolding is_space
is_blank String.[] = true
is_blank (String.◌∷◌ c s) = is_space (code c) && is_blank s

abbrev pub is_none {ℓ} : {A : Type ℓ} → Option A → Bool
is_none none = true
is_none (some x) = false

abbrev positive_width : Option ℕ → Bool
positive_width none = true
positive_width (some w) = ltb 0 w

-- The tests of `__post_init__`. A width below zero is no width of the model.
unfoldable pub sort_is_valid : Sort → Bool
unfolding is_blank
sort_is_valid s =
    not (is_blank s.name)
    && positive_width s.width
    && (not (s.name == "bool" || s.name == "string") || is_none s.width)
    && (not (s.name == "bv") || not (is_none s.width))
    && (is_none s.signed || s.name == "int" || s.name == "bv")

abbrev pub is_bool : Sort → Bool
is_bool s = s.name == "bool"

abbrev pub is_int : Sort → Bool
is_int s = s.name == "int"

abbrev pub is_string : Sort → Bool
is_string s = s.name == "string"

abbrev pub is_bitvector : Sort → Bool
is_bitvector s = s.name == "bv"

abbrev pub option_beq {ℓ} : {A : Type ℓ} ⦃e : Eq A⦄ → Option A → Option A → Bool
option_beq none none = true
option_beq ⦃e⦄ (some a) (some b) = e.beq a b
option_beq none (some b) = false
option_beq (some a) none = false

pub option_beq_iff {ℓ} :
    {A : Type ℓ} ⦃e : Eq A⦄ (a b : Option A) → (option_beq a b ≡ true) ↔ (a ≡ b)
option_beq_iff none none = ground arith
option_beq_iff ⦃e⦄ (some a) (some b) = ground (arith, e.beq_iff a b)
option_beq_iff none (some b) = ground arith
option_beq_iff (some a) none = ground arith

abbrev pub bool_beq : Bool → Bool → Bool
bool_beq true b = b
bool_beq false b = not b

pub bool_beq_iff : (a b : Bool) → (bool_beq a b ≡ true) ↔ (a ≡ b)
bool_beq_iff a b = ground arith

instance abbrev pub bool_eq : Eq Bool
bool_eq = record { beq = bool_beq; beq_iff = bool_beq_iff }

-- `self == other`
unfoldable pub compatible_with : Sort → Sort → Bool
compatible_with s t = s.name == t.name && option_beq s.width t.width && option_beq s.signed t.signed

pub compatible_with_iff : (s t : Sort) → (compatible_with s t ≡ true) ↔ (s ≡ t)
unfolding compatible_with
compatible_with_iff s t = ground (
  arith,
  text_eq_instance.beq_iff s.name t.name,
  option_beq_iff s.width t.width,
  option_beq_iff s.signed t.signed,
)

abbrev pub is_bool_value : Value → Bool
is_bool_value (bool b) = true
is_bool_value _ = false

abbrev pub is_int_value : Value → Bool
is_int_value (int i) = true
is_int_value _ = false

abbrev pub is_text_value : Value → Bool
is_text_value (text s) = true
is_text_value _ = false

-- `0 <= value < 1 << width` on integers; the constructor makes sure of the width.
abbrev fits_width : Option ℕ → Value → Bool
fits_width (some w) (int (pos n)) = ltb n (2 ^ w)
fits_width _ _ = false

unfoldable pub accepts_literal : Sort → Value → Bool
accepts_literal s v =
    if is_bool s
    then is_bool_value v
    else if is_int s
    then is_int_value v
    else if is_string s
    then is_text_value v
    else if is_bitvector s
    then fits_width s.width v
    else true

abbrev pub bool_sort : Sort
bool_sort = record { name = "bool"; width = none; signed = none }

abbrev pub int_sort : Sort
int_sort = record { name = "int"; width = none; signed = none }

abbrev pub string_sort : Sort
string_sort = record { name = "string"; width = none; signed = none }

-- `_infer_literal_sort` of expression.py
unfoldable pub infer_literal_sort : Value → Result Sort
infer_literal_sort (bool b) = ok bool_sort
infer_literal_sort (int i) = ok int_sort
infer_literal_sort (text s) = ok string_sort
infer_literal_sort null = err expression_type_error
