-- ===== src/Python/Decimal.antt =====
-- `int(b)` on the bytes of a decimal literal and `str(n)`, with the interpreter's limit on digits.
pub mod Laws
use aiobt.Prelude.{
  ℕ, zero, suc, ◌+◌, ◌-◌, ◌*◌, ◌/◌, ◌%◌, List, [], ◌∷◌, ◌++◌, Bool, true, false, ◌&&◌, ◌||◌, Option,
  none, some, ltb, leb, ◌==◌, if◌then◌else◌, length,
}
use aiobt.Python.Bytes.{Bytes}
use aiobt.Python.Result.{Result, ok, raised, value_error}

-- Python's integers; `negsuc n` is -(n + 1).
pub data ℤ : Type 0 where
  pos : ℕ → ℤ
  negsuc : ℕ → ℤ

-- sys.get_int_max_str_digits(), at its default
abbrev pub max_str_digits : ℕ
max_str_digits = 4300

abbrev pub is_digit : ℕ → Bool
is_digit c = leb b'0' c && leb c b'9'

abbrev pub is_space : ℕ → Bool
is_space c = c == 32 || (leb 9 c && leb c 13)

unfoldable pub strip_left : Bytes → Bytes
strip_left [] = []
strip_left (c ∷ r) = elim (is_space c) [ true ↦ strip_left r | false ↦ c ∷ r ]

unfoldable pub all_space : Bytes → Bool
all_space [] = true
all_space (c ∷ r) = is_space c && all_space r

pub data CharClass : Type 0 where
  digit underscore other : CharClass

unfoldable pub classify : ℕ → CharClass
classify c = if is_digit c then digit else if c == b'_' then underscore else other

-- Digits, where one underscore may stand between two of them; the first argument says whether the
-- last byte read was a digit. The digits come back with the bytes that follow them.
unfoldable pub scan_digits : Bool → Bytes → Option (Bytes × Bytes)
unfolding classify
scan_digits after [] = if after then some ([], []) else none
scan_digits after (c ∷ r) = elim (classify c) [
  | digit ↦ (elim (scan_digits true r) [ none ↦ none | some (ds, rest) ↦ some (c ∷ ds, rest) ])
  | underscore ↦ (if after then scan_digits false r else none)
  | other ↦ (if after then some ([], c ∷ r) else none)
]

unfoldable pub digits_value : ℕ → Bytes → ℕ
digits_value acc [] = acc
digits_value acc (c ∷ r) = digits_value (acc * 10 + (c - 48)) r

abbrev pub negate : ℕ → ℤ
negate zero = pos zero
negate (suc n) = negsuc n

pub data Sign : Type 0 where
  plus minus : Sign

abbrev pub signed : Sign → ℕ → ℤ
signed plus n = pos n
signed minus n = negate n

-- White space may follow the digits, and their number is limited.
unfoldable pub finish_int : Sign → Option (Bytes × Bytes) → Option ℤ
unfolding all_space digits_value
finish_int s none = none
finish_int s (some (ds, rest)) =
    if all_space rest && leb (length ds) max_str_digits
    then some (signed s (digits_value 0 ds))
    else none

unfoldable pub unsigned_int : Sign → Bytes → Option ℤ
unfolding finish_int scan_digits
unsigned_int s b = finish_int s (scan_digits false b)

unfoldable pub signed_int : Bytes → Option ℤ
unfolding unsigned_int
signed_int [] = none
signed_int (c ∷ r) =
    if c == b'-'
    then unsigned_int minus r
    else if c == b'+'
    then unsigned_int plus r
    else unsigned_int plus (c ∷ r)

-- int(b); `none` is a ValueError.
unfoldable pub int_of_bytes : Bytes → Option ℤ
unfolding strip_left signed_int
int_of_bytes b = signed_int (strip_left b)

-- The decimal digits of n, the last one first divided off. Fuel above n is enough.
unfoldable pub decimal_fuel : ℕ → ℕ → Bytes
decimal_fuel zero n = []
decimal_fuel (suc f) n =
    let rest = decimal_fuel f (n / 10) in
    if ltb n 10 then (48 + n) ∷ [] else rest ++ (48 + n % 10) ∷ []

unfoldable pub decimal : ℕ → Bytes
unfolding decimal_fuel
decimal n = decimal_fuel (suc n) n

abbrev pub limited : ℕ → Bytes → Result Bytes
limited k b = if leb k max_str_digits then ok b else raised (value_error "exceeds the limit")

-- str(n).encode("ascii")
unfoldable pub str_of_int : ℤ → Result Bytes
unfolding decimal
str_of_int (pos n) = limited (length (decimal n)) (decimal n)
str_of_int (negsuc n) = limited (length (decimal (suc n))) (b'-' ∷ decimal (suc n))
