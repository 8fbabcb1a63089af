-- ===== src/Bencode/Decode.antt =====
-- The decoder of src/aiobt/bencode.py. A position in the buffer is given by the bytes from there to
-- the end, so `pos >= len(buf)` is the empty list; a function returns what it decoded with the
-- bytes that follow it. Every call of `decode_any` costs one unit of fuel, and the recursion limit
-- of the interpreter is not modelled.
pub mod Total
use aiobt.Prelude.{
  ℕ, zero, suc, ◌+◌, ◌*◌, List, [], ◌∷◌, Bool, true, false, ◌&&◌, not, Option, none, some, ltb,
  ◌==◌, if◌then◌else◌, length, take, drop,
}
use aiobt.Python.Bytes.{Bytes, bytes_eq, bytes_lt}
use aiobt.Python.Result.{
  Result, ok, raised, Exception, decode_error, out_of_fuel, ◌>>=◌, ◌>>◌, raise_if,
}
use aiobt.Python.Decimal.{ℤ, pos, negsuc, is_digit, int_of_bytes}
use aiobt.Bencode.Value.{
  Value, Items, Fields, int, bytes, list, dict, no_items, item, no_fields, field,
}

-- The bytes before the first `byte`, and those after it.
unfoldable pub find_byte : ℕ → Bytes → Result (Bytes × Bytes)
find_byte byte [] = raised (decode_error "expected byte not found")
find_byte byte (c ∷ r) =
    let later = find_byte byte r >>= (λ (before, after). ok (c ∷ before, after)) in
    if c == byte then ok ([], r) else later

-- raw[0:1] == b"0" and len(raw) > 1
abbrev pub leading_zero : Bytes → Bool
leading_zero (c ∷ d ∷ r) = c == b'0'
leading_zero _ = false

-- raw[0:2] == b"-0" and len(raw) > 1
abbrev pub leading_minus_zero : Bytes → Bool
leading_minus_zero (c ∷ d ∷ r) = c == b'-' && d == b'0'
leading_minus_zero _ = false

abbrev pub is_empty : Bytes → Bool
is_empty [] = true
is_empty (c ∷ r) = false

abbrev pub or_raise {ℓ} : {A : Type ℓ} → Exception → Option A → Result A
or_raise e none = raised e
or_raise e (some a) = ok a

-- The text between `i` and `e`.
unfoldable pub check_int : Bytes → Result ℤ
unfolding bytes_eq
check_int raw = do
  raise_if (is_empty raw) (decode_error "empty integer")
  raise_if (bytes_eq raw (b'-' ∷ b'0' ∷ [])) (decode_error "negative zero is not allowed")
  raise_if (leading_zero raw) (decode_error "leading zero in integer")
  raise_if (leading_minus_zero raw) (decode_error "leading zero in negative integer")
  or_raise (decode_error "invalid integer") (int_of_bytes raw)

-- The argument starts behind the `i`.
unfoldable pub decode_int : Bytes → Result (ℤ × Bytes)
unfolding find_byte check_int
decode_int b = do (raw, rest) ← find_byte b'e' b; value ← check_int raw; ok (value, rest)

-- A negative length stands here for completeness: the first byte of the text is a digit.
unfoldable pub slice_bytes : ℤ → Bytes → Result (Bytes × Bytes)
slice_bytes (pos n) rest =
    if ltb (length rest) n
    then raised (decode_error "string extends past end of data")
    else ok (take n rest, drop n rest)
slice_bytes (negsuc n) rest = raised (decode_error "invalid string length")

unfoldable pub decode_bytes : Bytes → Result (Bytes × Bytes)
unfolding find_byte slice_bytes
decode_bytes b = do
  (raw_len, rest) ← find_byte b':' b
  raise_if (leading_zero raw_len) (decode_error "leading zero in string length")
  n ← or_raise (decode_error "invalid string length") (int_of_bytes raw_len)
  slice_bytes n rest

-- `prev_key is not None and key <= prev_key`
abbrev pub out_of_order : Option Bytes → Bytes → Bool
out_of_order none key = false
out_of_order (some prev_key) key = not (bytes_lt prev_key key)

-- The byte that a value starts with.
pub data Lead : Type 0 where
  int_lead list_lead dict_lead digit_lead bad_lead : Lead

unfoldable pub lead_of : ℕ → Lead
lead_of c =
    if c == b'i'
    then int_lead
    else if c == b'l'
    then list_lead
    else if c == b'd'
    then dict_lead
    else if is_digit c
    then digit_lead
    else bad_lead

unfoldable mutual
  pub decode_any : ℕ → Bytes → Result (Value × Bytes)
  decode_any zero b = raised out_of_fuel
  decode_any (suc f) [] = raised (decode_error "unexpected end of data")
  decode_any (suc f) (c ∷ r) = elim (lead_of c) [
    | int_lead ↦ decode_int r >>= (λ (z, rest). ok (int z, rest))
    | list_lead ↦ decode_list f r >>= (λ (xs, rest). ok (list xs, rest))
    | dict_lead ↦ decode_dict f none r >>= (λ (fs, rest). ok (dict fs, rest))
    | digit_lead ↦ decode_bytes (c ∷ r) >>= (λ (s, rest). ok (bytes s, rest))
    | bad_lead ↦ raised (decode_error "unexpected byte")
  ]

  -- The loop of `_decode_list`, from any round on.
  pub decode_list : ℕ → Bytes → Result (Items × Bytes)
  decode_list zero b = raised out_of_fuel
  decode_list (suc f) [] = raised (decode_error "unterminated list")
  decode_list (suc f) (c ∷ r) = elim (c == b'e') [
    | true ↦ ok (no_items, r)
    | false ↦
        decode_any f (c ∷ r)
        >>= (λ (v, rest). decode_list f rest >>= (λ (xs, rest'). ok (item v xs, rest')))
  ]

  -- The loop of `_decode_dict`, from any round on. A key that passes the order test is new.
  pub decode_dict : ℕ → Option Bytes → Bytes → Result (Fields × Bytes)
  decode_dict zero prev_key b = raised out_of_fuel
  decode_dict (suc f) prev_key [] = raised (decode_error "unterminated dict")
  decode_dict (suc f) prev_key (c ∷ r) = elim (c == b'e') [
    | true ↦ ok (no_fields, r)
    | false ↦ (do
      raise_if (not (is_digit c)) (decode_error "dict key must be a byte string")
      (key, rest) ← decode_bytes (c ∷ r)
      raise_if (out_of_order prev_key key) (decode_error "dict keys out of order")
      (v, rest') ← decode_any f rest
      (fs, rest'') ← decode_dict f (some key) rest'
      ok (field key v fs, rest''))
  ]

-- Twice the length and two more is fuel enough for any buffer.
abbrev pub enough : Bytes → ℕ
enough b = suc (suc (2 * length b))

unfoldable pub decode : Bytes → Result Value
unfolding decode_any decode_int decode_bytes lead_of bytes_lt int_of_bytes
decode b = do
  raise_if (is_empty b) (decode_error "empty data")
  (v, rest) ← decode_any (enough b) b
  raise_if (not (is_empty rest)) (decode_error "trailing data")
  ok v

-- The loop of `decode_all`; each round costs one unit of fuel.
unfoldable pub decode_all_loop : ℕ → Bytes → Result (List Value)
decode_all_loop zero b = raised out_of_fuel
decode_all_loop (suc f) [] = ok []
decode_all_loop (suc f) (c ∷ r) = do
  (v, rest) ← decode_any (enough (c ∷ r)) (c ∷ r)
  vs ← decode_all_loop f rest
  ok (v ∷ vs)

unfoldable pub decode_all : Bytes → Result (List Value)
unfolding decode_all_loop decode
decode_all b = decode_all_loop (suc (length b)) b
