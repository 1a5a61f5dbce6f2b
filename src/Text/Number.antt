-- ===== src/Text/Number.antt =====
-- `strconv.Atoi` and `strconv.Itoa`.
use mathlib.Core.Option
use sipbridge.Prelude.{
  ℕ, zero, suc, ◌+◌, ◌-◌, ◌*◌, ◌/◌, ◌%◌, ℤ, pos, negsuc, Bool, ◌&&◌, Option, none, some, [], ◌∷◌,
  ◌++◌, ◌==◌, leb, ltb, if◌then◌else◌,
}
use sipbridge.Text.{Text}

abbrev pub is_digit : ℕ → Bool
is_digit c = leb b'0' c && leb c b'9'

-- The digits of a number read so far as `acc`, to the end of the text.
unfoldable pub digits_from : ℕ → Text → Option ℕ
digits_from acc [] = some acc
digits_from acc (c ∷ cs) =
    let rest = digits_from (acc * 10 + (c - b'0')) cs in if is_digit c then rest else none

unfoldable pub unsigned : Text → Option ℕ
unfolding digits_from
unsigned [] = none
unsigned (c ∷ cs) = digits_from 0 (c ∷ cs)

-- `math.MaxInt64`
abbrev pub max_int : ℕ
max_int = 9223372036854775807

abbrev positive : ℕ → Option ℤ
positive n = if leb n max_int then some (pos n) else none

abbrev negated : ℕ → Option ℤ
negated zero = some (pos 0)
negated (suc n) = if leb n max_int then some (negsuc n) else none

-- `none` for the error.
unfoldable pub atoi : Text → Option ℤ
unfolding unsigned Option.bind
atoi [] = none
atoi (c ∷ cs) =
    if c == b'-'
    then Option.bind (unsigned cs) negated
    else if c == b'+'
    then Option.bind (unsigned cs) positive
    else Option.bind (unsigned (c ∷ cs)) positive

-- Decimal digits, on fuel above the number.
unfoldable pub decimal_within : ℕ → ℕ → Text
decimal_within zero n = []
decimal_within (suc f) n =
    let front = decimal_within f (n / 10) in
    if ltb n 10 then (b'0' + n) ∷ [] else front ++ (b'0' + n % 10) ∷ []

unfoldable pub decimal : ℕ → Text
unfolding decimal_within
decimal n = decimal_within (suc n) n
