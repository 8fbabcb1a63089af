-- ===== src/Bencode/Scalars.antt =====
-- The decoder of src/aiobt/bencode.py on encoded integers and byte strings.
use aiobt.Prelude.{
  ℕ, zero, suc, ◌<◌, [], ◌∷◌, ◌++◌, false, some, ◌==◌, length, length-append, take-append_length,
  drop-append_length, append_assoc, ◌≡◌, ◌∙◌, refl, sym, ap, arith, All,
}
use aiobt.Python.Bytes.{Bytes}
use aiobt.Python.Result.{ok, >>=-eq-ok}
use aiobt.Python.Decimal.{ℤ, pos, negsuc, int_of_bytes, str_of_int, decimal}
use aiobt.Python.Decimal.Laws.{
  IsDigit, decimal-All, decimal-cons, int_of_bytes-str_of_int, decimal-zero, decimal-head,
  str_of_int-pos, str_of_int-negsuc,
}
use aiobt.Bencode.Decode.{find_byte, check_int, decode_int, slice_bytes, decode_bytes, leading_zero}
use aiobt.Bencode.Encode.{encode_bytes}

-- The text before a byte that it does not hold.
abbrev pub Avoids : ℕ → Bytes → Type 0
Avoids byte = All (λ c. (c == byte) ≡ false)

pub find_byte-append :
    (byte : ℕ) (b rest : Bytes) → Avoids byte b → find_byte byte (b ++ byte ∷ rest) ≡ ok (b, rest)
unfolding find_byte
find_byte-append byte [] rest h = ground arith
find_byte-append byte (c ∷ b) rest h = ground (arith, find_byte-append byte b rest h.1)

pub digits_avoid : (byte : ℕ) (b : Bytes) → 57 < byte → All IsDigit b → Avoids byte b
digits_avoid byte [] h d = tt
digits_avoid byte (c ∷ b) h d = (ground arith, digits_avoid byte b h d.1)

-- `str` writes no leading zero.
decimal-leading_zero : (n : ℕ) → leading_zero (decimal n) ≡ false
decimal-leading_zero zero = rw decimal-zero
decimal-leading_zero (suc n) = let (d, ds, e, ne) = decimal-head n in rw e (head_ne d ds ne)
  where
    head_ne : (d : ℕ) (ds : Bytes) → (d == b'0') ≡ false → leading_zero (d ∷ ds) ≡ false
    head_ne d [] h = refl
    head_ne d (c ∷ ds) h = h

check_int-digits :
    (d : ℕ) (ds : Bytes) (z : ℤ)
    → IsDigit d
    → leading_zero (d ∷ ds) ≡ false
    → int_of_bytes (d ∷ ds) ≡ some z
    → check_int (d ∷ ds) ≡ ok z
unfolding check_int
check_int-digits d [] z h l e = ground arith
check_int-digits d (c ∷ ds) z h l e = ground arith

check_int-minus :
    (d : ℕ) (ds : Bytes) (z : ℤ)
    → (d == b'0') ≡ false
    → int_of_bytes (b'-' ∷ d ∷ ds) ≡ some z
    → check_int (b'-' ∷ d ∷ ds) ≡ ok z
unfolding check_int
check_int-minus d ds z h e = ground arith

pub check_int-str_of_int : (z : ℤ) {s : Bytes} → str_of_int z ≡ ok s → check_int s ≡ ok z
check_int-str_of_int (pos n) {s} h =
    let (d, ds, e) = decimal-cons n in
    let same : s ≡ d ∷ ds = sym (str_of_int-pos n h) ∙ e in
    rw same (
      check_int-digits d ds (pos n) (rw e at (decimal-All n)).0 (rw e at (decimal-leading_zero n))
        (rw same at (int_of_bytes-str_of_int (pos n) h)))
check_int-str_of_int (negsuc n) {s} h =
    let (d, ds, e, ne) = decimal-head n in
    let same : s ≡ b'-' ∷ d ∷ ds = sym (str_of_int-negsuc n h) ∙ ap (◌∷◌ b'-') e in
    rw same (check_int-minus d ds (negsuc n) ne (rw same at (int_of_bytes-str_of_int (negsuc n) h)))

-- `str` writes no byte from b':' on.
str_of_int-Avoids : (z : ℤ) {s : Bytes} (byte : ℕ) → 57 < byte → str_of_int z ≡ ok s → Avoids byte s
str_of_int-Avoids (pos n) byte p h =
    rw (← (str_of_int-pos n h)) (digits_avoid byte (decimal n) p (decimal-All n))
str_of_int-Avoids (negsuc n) byte p h =
    rw (← (str_of_int-negsuc n h))
      (ground arith, digits_avoid byte (decimal (suc n)) p (decimal-All (suc n)))

pub decode_int-encode :
    (z : ℤ) {s : Bytes} (rest : Bytes)
    → str_of_int z ≡ ok s
    → decode_int (s ++ b'e' ∷ rest) ≡ ok (z, rest)
unfolding decode_int
decode_int-encode z {s} rest h =
    rw (find_byte-append b'e' s rest (str_of_int-Avoids z b'e' (omega arith) h))
      (rw (check_int-str_of_int z h))

slice_bytes-append : (s rest : Bytes) → slice_bytes (pos (length s)) (s ++ rest) ≡ ok (s, rest)
unfolding slice_bytes
slice_bytes-append s rest =
    ground (arith, length-append s rest, take-append_length s rest, drop-append_length s rest)

decode_bytes-digits :
    (s ds rest : Bytes)
    → str_of_int (pos (length s)) ≡ ok ds
    → decode_bytes (ds ++ b':' ∷ (s ++ rest)) ≡ ok (s, rest)
unfolding decode_bytes
decode_bytes-digits s ds rest h =
    rw
      (find_byte-append b':' ds (s ++ rest)
        (str_of_int-Avoids (pos (length s)) b':' (omega arith) h))
      (rw (rw (str_of_int-pos (length s) h) at (decimal-leading_zero (length s)))
        (rw (int_of_bytes-str_of_int (pos (length s)) h) (slice_bytes-append s rest)))

-- An encoded byte string starts with a digit and reads back.
encode_bytes-parts :
    (s : Bytes) {b : Bytes}
    → encode_bytes s ≡ ok b
    → (ds : Bytes) × (str_of_int (pos (length s)) ≡ ok ds) × (b ≡ ds ++ (b':' ∷ s))
unfolding encode_bytes
encode_bytes-parts s h = let (ds, p, q) = >>=-eq-ok (str_of_int (pos (length s))) _ h in (ds, p, cc)

pub encode_bytes-cons :
    (s : Bytes) {b : Bytes}
    → encode_bytes s ≡ ok b
    → (d : ℕ) × (r : Bytes) × (b ≡ d ∷ r) × IsDigit d
encode_bytes-cons s h =
    let (ds, p, q) = encode_bytes-parts s h in
    let (d, r, e) = decimal-cons (length s) in
    let same = sym (str_of_int-pos (length s) p) ∙ e in
    (d, r ++ (b':' ∷ s), q ∙ ap (λ x. x ++ (b':' ∷ s)) same, (rw e at (decimal-All (length s))).0)

pub decode_bytes-encode :
    (s : Bytes) {b : Bytes} (rest : Bytes)
    → encode_bytes s ≡ ok b
    → decode_bytes (b ++ rest) ≡ ok (s, rest)
decode_bytes-encode s rest h =
    let (ds, p, q) = encode_bytes-parts s h in
    rw (q, append_assoc) (decode_bytes-digits s ds rest p)
