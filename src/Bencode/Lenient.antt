-- ===== src/Bencode/Lenient.antt =====
-- The integers that _decode_int of src/aiobt/bencode.py accepts beyond those that are written.
use aiobt.Prelude.{
  ℕ, zero, suc, ◌+◌, ◌≤◌, [], ◌∷◌, ◌++◌, length, length-append, length-replicate, ◌<◌, replicate,
  ◌≡◌, ◌∙◌, refl, ap, arith, All, All-append, some,
}
use aiobt.Python.Bytes.{Bytes}
use aiobt.Python.Result.{ok}
use aiobt.Python.Decimal.{ℤ, pos, max_str_digits, digits_value, int_of_bytes, decimal}
use aiobt.Python.Decimal.Laws.{
  IsDigit, decimal-All, decimal-cons, digits_value-decimal, int_of_bytes-plus_digits,
}
use aiobt.Bencode.Value.{int}
use aiobt.Bencode.Decode.{check_int, decode_int, decode}
use aiobt.Bencode.Scalars.{find_byte-append, digits_avoid}

zeros-All : (k : ℕ) → All IsDigit (replicate k b'0')
zeros-All zero = tt
zeros-All (suc k) = (refl, zeros-All k)

digits_value-zeros :
    (k : ℕ) (ds : Bytes) → digits_value 0 (replicate k b'0' ++ ds) ≡ digits_value 0 ds
unfolding digits_value
digits_value-zeros zero ds = refl
digits_value-zeros (suc k) ds = digits_value-zeros k ds

check_int-plus :
    (ds : Bytes) (z : ℤ) → int_of_bytes (b'+' ∷ ds) ≡ some z → check_int (b'+' ∷ ds) ≡ ok z
unfolding check_int
check_int-plus [] z h = rw h
check_int-plus (d ∷ ds) z h = rw h

decode_int-plus :
    (ds : Bytes) (n : ℕ)
    → 0 < length ds
    → All IsDigit ds
    → length ds ≤ max_str_digits
    → digits_value 0 ds ≡ n
    → decode_int (b'+' ∷ (ds ++ b'e' ∷ [])) ≡ ok (pos n, [])
unfolding decode_int
decode_int-plus [] n p h fits e = absurd (omega arith)
decode_int-plus (d ∷ ds) n p h fits e =
    rw (find_byte-append b'e' (b'+' ∷ d ∷ ds) [] (refl, digits_avoid b'e' (d ∷ ds) (omega arith) h))
      (rw (check_int-plus (d ∷ ds) (pos n) (int_of_bytes-plus_digits d ds n h fits e)))

-- A plus sign and any number of leading zeros before the digits of n are accepted, and read as n.
pub decode-plus_zeros :
    (k n : ℕ)
    → k + length (decimal n) ≤ max_str_digits
    → decode (b'i' ∷ b'+' ∷ ((replicate k b'0' ++ decimal n) ++ b'e' ∷ [])) ≡ ok (int (pos n))
unfolding decode
decode-plus_zeros k n fits =
    let ds = replicate k b'0' ++ decimal n in
    let sizes : length ds ≡ k + length (decimal n) =
      length-append (replicate k b'0') (decimal n)
      ∙ ap (λ m. m + length (decimal n)) (length-replicate k b'0') in
    let (d, r, e) = decimal-cons n in
    rw (
      decode_int-plus ds n (omega (arith, sizes, ap length e))
        (All-append IsDigit _ _ (zeros-All k) (decimal-All n)) (omega (arith, sizes))
        (digits_value-zeros k (decimal n) ∙ digits_value-decimal n))
