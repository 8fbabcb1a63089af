-- ===== src/Bencode/Readers.antt =====
-- One lemma for each rule of the format: when the decoder reads a value off the front of a buffer.
use aiobt.Prelude.{
  ℕ, zero, suc, ◌+◌, ◌*◌, ◌<◌, ◌≤◌, List, [], ◌∷◌, ◌++◌, false, Option, none, some, ◌==◌, length,
  length-append, append_assoc, ◌≡◌, ◌∙◌, sym, refl, ap, arith,
}
use aiobt.Python.Bytes.{Bytes}
use aiobt.Python.Result.{ok, >>=-eq-ok, subst_ok}
use aiobt.Python.Decimal.{ℤ, str_of_int}
use aiobt.Python.Decimal.Laws.{IsDigit}
use aiobt.Bencode.Value.{
  Value, Items, Fields, int, bytes, list, dict, no_items, item, no_fields, field,
}
use aiobt.Bencode.Decode.{decode_bytes, lead_of, decode_any, decode_list, decode_dict, out_of_order}
use aiobt.Bencode.Encode.{
  encode_int, encode_bytes, sort_keys, join_fields, encode_any, encode_items, encode_values,
}
use aiobt.Bencode.Sorted.{from_list, IsAscending, Matches}
use aiobt.Bencode.Scalars.{decode_int-encode, decode_bytes-encode, encode_bytes-cons}

-- The byte starts a value: it is not the end mark.
abbrev pub Starts : Bytes → Type 0
Starts s = (c : ℕ) × (r : Bytes) × (s ≡ c ∷ r) × ((c == b'e') ≡ false)

pub encode_any-Starts : (v : Value) {s : Bytes} → encode_any v ≡ ok s → Starts s
unfolding encode_any encode_int
encode_any-Starts (int z) h =
    let (ds, p, q) = >>=-eq-ok (str_of_int z) _ h in (b'i', ds ++ b'e' ∷ [], cc, refl)
encode_any-Starts (bytes s) h = let (d, r, e, g) = encode_bytes-cons s h in (d, r, e, ground arith)
encode_any-Starts (list xs) h =
    let (s, p, q) = >>=-eq-ok (encode_items xs) _ h in (b'l', s, cc, refl)
encode_any-Starts (dict fs) h =
    let (l, p, q) = >>=-eq-ok (encode_values fs) _ h in
    let (s, p', q') = >>=-eq-ok (join_fields (sort_keys l)) _ q in (b'd', s, cc, refl)

-- The decoder reads `v` off the front of `s`, whatever follows.
abbrev pub Reads : Bytes → Value → Type 0
Reads s v = (rest : Bytes) (f : ℕ) → 2 * length s ≤ f → decode_any f (s ++ rest) ≡ ok (v, rest)

-- A single value, by the byte that it starts with.
pub decode_any-int :
    (z : ℤ) {ds : Bytes} → str_of_int z ≡ ok ds → Reads (b'i' ∷ (ds ++ b'e' ∷ [])) (int z)
unfolding decode_any lead_of
decode_any-int z {ds} h rest zero k = absurd (omega arith)
decode_any-int z {ds} h rest (suc f) k = rw append_assoc (rw (decode_int-encode z rest h))

pub decode_any-bytes : (s : Bytes) {b : Bytes} → encode_bytes s ≡ ok b → Reads b (bytes s)
decode_any-bytes s {b} h rest zero k =
    let (d, r, e, g) = encode_bytes-cons s h in absurd (omega (arith, ap length e))
decode_any-bytes s {b} h rest (suc f) k =
    let (d, r, e, g) = encode_bytes-cons s h in
    rw e (step d (r ++ rest) g (rw e at (decode_bytes-encode s rest h)))
  where
    step :
        (d : ℕ) (b : Bytes)
        → IsDigit d
        → decode_bytes (d ∷ b) ≡ ok (s, rest)
        → decode_any (suc f) (d ∷ b) ≡ ok (bytes s, rest)
    step d b g e = unfold decode_any lead_of in ground arith

-- The rest of a list, up to its end mark.
abbrev pub ReadsItems : Bytes → Items → Type 0
ReadsItems s xs =
    (rest : Bytes) (f : ℕ) → 2 * length s < f → decode_list f (s ++ rest) ≡ ok (xs, rest)

pub decode_list-end : ReadsItems (b'e' ∷ []) no_items
unfolding decode_list
decode_list-end rest zero k = absurd (omega arith)
decode_list-end rest (suc f) k = refl

pub decode_list-item :
    (s t : Bytes) (v : Value) (xs : Items)
    → Starts s
    → Reads s v
    → ReadsItems t xs
    → ReadsItems (s ++ t) (item v xs)
decode_list-item s t v xs st rv rx rest zero k = absurd (omega arith)
decode_list-item s t v xs (c, r, e, ne) rv rx rest (suc f) k =
    let whole : decode_any f (s ++ (t ++ rest)) ≡ ok (v, t ++ rest) =
      rv (t ++ rest) f (omega (arith, length-append s t)) in
    let more : decode_list f (t ++ rest) ≡ ok (xs, rest) =
      rx rest f (omega (arith, length-append s t, ap length e)) in
    rw append_assoc (rw e (step c (r ++ (t ++ rest)) ne (rw e at whole) more))
  where
    step :
        (c : ℕ) (b : Bytes)
        → (c == b'e') ≡ false
        → decode_any f (c ∷ b) ≡ ok (v, t ++ rest)
        → decode_list f (t ++ rest) ≡ ok (xs, rest)
        → decode_list (suc f) (c ∷ b) ≡ ok (item v xs, rest)
    step c b ne e e' = unfold decode_list in ground arith

pub decode_any-list : (s : Bytes) (xs : Items) → ReadsItems s xs → Reads (b'l' ∷ s) (list xs)
unfolding decode_any lead_of
decode_any-list s xs r rest zero k = absurd (omega arith)
decode_any-list s xs r rest (suc f) k = rw (r rest f (omega arith))

-- The rest of a dict after the key `prev`, up to its end mark.
abbrev pub ReadsFields : Option Bytes → Bytes → Fields → Type 0
ReadsFields prev s fs =
    (rest : Bytes) (f : ℕ) → 2 * length s < f → decode_dict f prev (s ++ rest) ≡ ok (fs, rest)

decode_dict-end : (prev : Option Bytes) → ReadsFields prev (b'e' ∷ []) no_fields
unfolding decode_any
decode_dict-end prev rest zero k = absurd (omega arith)
decode_dict-end prev rest (suc f) k = refl

decode_dict-field :
    (prev : Option Bytes) (k : Bytes) {key : Bytes} (s t : Bytes) (v : Value) (fs : Fields)
    → encode_bytes k ≡ ok key
    → out_of_order prev k ≡ false
    → Reads s v
    → ReadsFields (some k) t fs
    → ReadsFields prev (key ++ (s ++ t)) (field k v fs)
decode_dict-field prev k s t v fs ek o rv rx rest zero b = absurd (omega arith)
decode_dict-field prev k {key} s t v fs ek o rv rx rest (suc f) b =
    let (d, r, e, g) = encode_bytes-cons k ek in
    let sizes : length (key ++ (s ++ t)) ≡ length key + (length s + length t) =
      length-append key (s ++ t) ∙ ap (λ n. length key + n) (length-append s t) in
    let whole : decode_any f (s ++ (t ++ rest)) ≡ ok (v, t ++ rest) =
      rv (t ++ rest) f (omega (arith, sizes, ap length e)) in
    let more : decode_dict f (some k) (t ++ rest) ≡ ok (fs, rest) =
      rx rest f (omega (arith, sizes, ap length e)) in
    let first : decode_bytes (key ++ (s ++ (t ++ rest))) ≡ ok (k, s ++ (t ++ rest)) =
      decode_bytes-encode k (s ++ (t ++ rest)) ek in
    rw (append_assoc, append_assoc)
      (rw e (step d (r ++ (s ++ (t ++ rest))) g (rw e at first) whole more))
  where
    step :
        (d : ℕ) (b : Bytes)
        → IsDigit d
        → decode_bytes (d ∷ b) ≡ ok (k, s ++ (t ++ rest))
        → decode_any f (s ++ (t ++ rest)) ≡ ok (v, t ++ rest)
        → decode_dict f (some k) (t ++ rest) ≡ ok (fs, rest)
        → decode_dict (suc f) prev (d ∷ b) ≡ ok (field k v fs, rest)
    step d b g e e' e'' = unfold decode_any in ground arith

-- The fields that `join_fields` writes in ascending order read back.
pub decode_dict-join_fields :
    (prev : Option Bytes) (l : List (Bytes × Bytes)) (m : List (Bytes × Value)) {s : Bytes}
    → Matches Reads l m
    → IsAscending prev m
    → join_fields l ≡ ok s
    → ReadsFields prev s (from_list m)
unfolding join_fields
decode_dict-join_fields prev [] [] h a e =
    subst_ok (λ b. ReadsFields prev b no_fields) e (decode_dict-end prev)
decode_dict-join_fields prev ((k, v) ∷ l) ((j, w) ∷ m) h a e =
    let (key, p, q) = >>=-eq-ok (encode_bytes k) _ e in
    let (t, p', q') = >>=-eq-ok (join_fields l) _ q in
    let same : encode_bytes j ≡ ok key = ap encode_bytes (sym h.0) ∙ p in
    subst_ok (λ b. ReadsFields prev b (field j w (from_list m))) q'
      (decode_dict-field prev j v t w (from_list m) same a.0 h.1
        (decode_dict-join_fields (some j) l m h.2 a.1 p'))
decode_dict-join_fields prev [] (y ∷ m) h a e = absurd h
decode_dict-join_fields prev (x ∷ l) [] h a e = absurd h

pub decode_any-dict : (s : Bytes) (fs : Fields) → ReadsFields none s fs → Reads (b'd' ∷ s) (dict fs)
unfolding decode_any lead_of
decode_any-dict s fs r rest zero k = absurd (omega arith)
decode_any-dict s fs r rest (suc f) k = rw (r rest f (omega arith))
