-- ===== src/Bencode/Decode/Total.antt =====
-- The end of every run of the decoder of src/aiobt/bencode.py, and its fuel.
use aiobt.Prelude.{
  String, List, ◌⊎◌, ◌≡◌, ℕ, zero, suc, ◌*◌, ◌<◌, ◌≤◌, [], ◌∷◌, Option, none, some, ◌==◌, length,
  length-drop, arith,
}
use aiobt.Python.Bytes.{Bytes}
use aiobt.Python.Result.{ok, raised, Exception, decode_error}
use aiobt.Bencode.Value.{Value}
use aiobt.Python.Decimal.{ℤ, pos, negsuc}
use aiobt.Python.Settled.{Settled, Settled-bind, Settled-cases, Settled-if, IsDecodeError}
use aiobt.Bencode.Decode.{
  find_byte, check_int, decode_int, slice_bytes, decode_bytes, decode_any, decode_list, decode_dict,
  decode, decode_all_loop, decode_all, or_raise, enough,
}

-- What is left after a step is shorter than `b`, or no longer.
abbrev Shorter {ℓ} : {A : Type ℓ} → Bytes → A × Bytes → Type 0
Shorter b (a, rest) = length rest < length b

abbrev NoLonger {ℓ} : {A : Type ℓ} → Bytes → A × Bytes → Type 0
NoLonger b (a, rest) = length rest ≤ length b

find_byte-Settled : (byte : ℕ) (b : Bytes) → Settled (Shorter b) (find_byte byte b)
unfolding find_byte
find_byte-Settled byte [] = tt
find_byte-Settled byte (c ∷ r) =
    Settled-if (Shorter (c ∷ r)) (c == byte) _ _ (λ e. omega arith)
      λ e.
        Settled-bind (Shorter r) _ (find_byte byte r) _ (find_byte-Settled byte r)
          λ (x, y) h. omega arith

or_raise-Settled {ℓ} :
    {A : Type ℓ} (e : Exception) (o : Option A)
    → IsDecodeError e
    → Settled (λ a. Unit {0}) (or_raise e o)
or_raise-Settled e none h = h
or_raise-Settled e (some a) h = tt

check_int-Settled : (raw : Bytes) → Settled (λ a. Unit {0}) (check_int raw)
unfolding check_int
check_int-Settled raw = ground arith

decode_int-Settled : (b : Bytes) → Settled (Shorter b) (decode_int b)
unfolding decode_int
decode_int-Settled b = ground (arith, find_byte-Settled b'e' b)

slice_bytes-Settled : (z : ℤ) (rest : Bytes) → Settled (NoLonger rest) (slice_bytes z rest)
unfolding slice_bytes
slice_bytes-Settled (pos n) rest = ground (arith, length-drop n rest)
slice_bytes-Settled (negsuc n) rest = tt

decode_bytes-Settled : (b : Bytes) → Settled (Shorter b) (decode_bytes b)
unfolding decode_bytes
decode_bytes-Settled b = grind (arith, find_byte-Settled, slice_bytes-Settled)

mutual
  unfolding decode_any

  decode_any-Settled :
      (f : ℕ) (b : Bytes) → 0 < f → 2 * length b ≤ f → Settled (Shorter b) (decode_any f b)
  decode_any-Settled zero b p h = absurd (omega arith)
  decode_any-Settled (suc f) [] p h = tt
  decode_any-Settled (suc f) (c ∷ r) p h = ground (
    arith,
    decode_int-Settled r,
    decode_list-Settled f r,
    decode_dict-Settled f none r,
    decode_bytes-Settled (c ∷ r),
  )

  decode_list-Settled :
      (f : ℕ) (b : Bytes) → 2 * length b < f → Settled (Shorter b) (decode_list f b)
  decode_list-Settled zero b h = absurd (omega arith)
  decode_list-Settled (suc f) [] h = tt
  decode_list-Settled (suc f) (c ∷ r) h = grind (arith, decode_any-Settled f, decode_list-Settled f)

  decode_dict-Settled :
      (f : ℕ) (prev_key : Option Bytes) (b : Bytes)
      → 2 * length b < f
      → Settled (Shorter b) (decode_dict f prev_key b)
  decode_dict-Settled zero p b h = absurd (omega arith)
  decode_dict-Settled (suc f) p [] h = tt
  decode_dict-Settled (suc f) p (c ∷ r) h =
      grind (arith, decode_bytes-Settled, decode_any-Settled f, decode_dict-Settled f)

decode_all_loop-Settled :
    (f : ℕ) (b : Bytes) → length b < f → Settled (λ vs. Unit {0}) (decode_all_loop f b)
unfolding decode_all_loop
decode_all_loop-Settled zero b h = absurd (omega arith)
decode_all_loop-Settled (suc f) [] h = tt
decode_all_loop-Settled (suc f) (c ∷ r) h = grind (
  arith,
  decode_any-Settled (enough (c ∷ r)) (c ∷ r) (omega arith) (omega arith),
  decode_all_loop-Settled f,
)

decode-Settled : (b : Bytes) → Settled (λ v. Unit {0}) (decode b)
unfolding decode
decode-Settled b = ground (arith, decode_any-Settled (enough b) b (omega arith) (omega arith))

-- But for the interpreter's recursion limit, which is not modelled, `decode` returns a value or
-- raises DecodeError on every buffer; it never runs out of fuel.
pub decode-total :
    (b : Bytes)
    → ((v : Value) × (decode b ≡ ok v)) ⊎ ((s : String) × (decode b ≡ raised (decode_error s)))
decode-total b = Settled-cases _ _ (decode-Settled b)

-- But for the recursion limit, `decode_all` returns values or raises DecodeError on every buffer; it
-- never runs out of fuel.
pub decode_all-total :
    (b : Bytes)
    → ((vs : List Value) × (decode_all b ≡ ok vs))
      ⊎ ((s : String) × (decode_all b ≡ raised (decode_error s)))
unfolding decode_all
decode_all-total b = Settled-cases _ _ (decode_all_loop-Settled (suc (length b)) b (omega arith))
