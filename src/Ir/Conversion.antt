-- ===== src/Ir/Conversion.antt =====
-- Python's `str` and `int` of scalars, as src/umcm/graph/builder.py calls them on the fields of
-- events. The only digits that `int` reads in a text are those of ASCII.
use Prim.Native.Char.{code}
use Prim.Native.String.{◌++◌}
use com_mcm.Prelude.{
  String, Bool, true, false, ◌&&◌, Option, none, some, List, [], ◌∷◌, get_elem?, ℕ, zero, suc, ◌+◌,
  ◌-◌, ◌*◌, ◌/◌, ◌%◌, leb, if◌then◌else◌, ◌==◌, nat_eq,
}
use com_mcm.Prelude.Int.{ℤ, pos, negsuc, ◌-ℤ◌}
use com_mcm.Errors.{Result, ok, err, type_error, value_error}
use com_mcm.Ir.Sort.{Value, bool, int, text, null, is_blank, is_space}

abbrev digits : List String
digits = "0" ∷ "1" ∷ "2" ∷ "3" ∷ "4" ∷ "5" ∷ "6" ∷ "7" ∷ "8" ∷ "9" ∷ []

abbrev digit : ℕ → String
digit n = elim (get_elem? digits n) [ none ↦ "" | some d ↦ d ]

-- The digits of a number below 10 to the power of the rounds.
unfoldable pub decimal : ℕ → ℕ → String
decimal zero n = ""
decimal (suc rounds) n =
    let front = decimal rounds (n / 10) in (if n / 10 == 0 then "" else front) ++ digit (n % 10)

-- `str(value)`
unfoldable pub str : Value → String
unfolding decimal
str (text s) = s
str (bool true) = "True"
str (bool false) = "False"
str null = "None"
str (int (pos n)) = decimal (suc n) n
str (int (negsuc n)) = "-" ++ decimal (suc (suc n)) (suc n)

-- The digits that are left, of which the one before is given, with single underscores between them.
unfoldable pub read_digits : ℕ → Bool → String → Option ℕ
unfolding is_blank
read_digits n after_digit String.[] = if after_digit then some n else none
read_digits n after_digit (String.◌∷◌ c s) =
    let next = read_digits (n * 10 + (code c - 48)) true s in
    let skip = read_digits n false s in
    if leb 48 (code c) && leb (code c) 57
    then next
    else if code c == 95 && after_digit
    then skip
    else if is_space (code c) && after_digit && is_blank s
    then some n
    else none

abbrev negated : Option ℕ → Option ℤ
negated none = none
negated (some n) = some (pos 0 -ℤ pos n)

abbrev signless : Option ℕ → Option ℤ
signless none = none
signless (some n) = some (pos n)

-- `int(text)`
unfoldable pub read_int : String → Option ℤ
unfolding read_digits
read_int String.[] = none
read_int (String.◌∷◌ c s) =
    let rest = read_int s in
    if is_space (code c)
    then rest
    else if code c == 45
    then negated (read_digits 0 false s)
    else if code c == 43
    then signless (read_digits 0 false s)
    else signless (read_digits 0 false (String.◌∷◌ c s))

-- `int(value)`
unfoldable pub int_of : Value → Result ℤ
unfolding read_int
int_of (int i) = ok i
int_of (bool true) = ok (pos 1)
int_of (bool false) = ok (pos 0)
int_of null = err type_error
int_of (text s) = elim (read_int s) [ none ↦ err value_error | some i ↦ ok i ]
