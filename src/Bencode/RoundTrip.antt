-- ===== src/Bencode/RoundTrip.antt =====
-- The decoder of src/aiobt/bencode.py on what the encoder writes: whole values, and runs of values.
use aiobt.Prelude.{
  ℕ, zero, suc, ◌<◌, List, [], ◌∷◌, ◌++◌, none, length, length-append, append-nil, ◌≡◌, ◌∙◌, refl,
  sym, ap, arith, All, map,
}
use aiobt.Python.Bytes.{Bytes}
use aiobt.Python.Result.{Result, ok, raised, ◌>>=◌, >>=-eq-ok, subst_ok, decode_error, ok-injective}
use aiobt.Python.Decimal.{str_of_int}
use aiobt.Bencode.Value.{
  Value, Items, Fields, int, bytes, list, dict, no_items, item, no_fields, field,
}
use aiobt.Bencode.Decode.{decode_any, decode, decode_all_loop, decode_all, enough}
use aiobt.Bencode.Encode.{
  encode_int, sort_keys, join_fields, encode_any, encode_items, encode_values, encode,
}
use aiobt.Bencode.Sorted.{
  from_list, normalize, normalize_items, normalize_fields, IsDict, IsDictItems, IsDictFields,
  Matches, sort_keys-IsAscending, sort_keys-Matches,
}
use aiobt.Bencode.Readers.{
  encode_any-Starts, Reads, ReadsItems, decode_any-int, decode_any-bytes, decode_list-end,
  decode_list-item, decode_any-list, decode_dict-join_fields, decode_any-dict,
}

mutual
  unfolding encode_any normalize IsDict encode_int

  pub encode_any-Reads :
      (v : Value) {s : Bytes} → IsDict v → encode_any v ≡ ok s → Reads s (normalize v)
  encode_any-Reads (int z) w h =
      let (ds, p, q) = >>=-eq-ok (str_of_int z) _ h in
      subst_ok (λ b. Reads b (int z)) q (decode_any-int z p)
  encode_any-Reads (bytes b) w h = decode_any-bytes b h
  encode_any-Reads (list xs) w h =
      let (s, p, q) = >>=-eq-ok (encode_items xs) _ h in
      subst_ok (λ b. Reads b (list (normalize_items xs))) q
        (decode_any-list s (normalize_items xs) (encode_items-Reads xs w p))
  encode_any-Reads (dict fs) w h =
      let (l, p, q) = >>=-eq-ok (encode_values fs) _ h in
      let (s, p', q') = >>=-eq-ok (join_fields (sort_keys l)) _ q in
      let m = normalize_fields fs in
      subst_ok (λ b. Reads b (dict (from_list (sort_keys m)))) q'
        (decode_any-dict s (from_list (sort_keys m)) (
          decode_dict-join_fields none (sort_keys l) (sort_keys m)
            (sort_keys-Matches Reads l m (encode_values-Matches fs w.1 p))
            (sort_keys-IsAscending m w.0) p'))

  encode_items-Reads :
      (xs : Items) {s : Bytes}
      → IsDictItems xs
      → encode_items xs ≡ ok s
      → ReadsItems s (normalize_items xs)
  encode_items-Reads no_items w h = subst_ok (λ b. ReadsItems b no_items) h decode_list-end
  encode_items-Reads (item v xs) w h =
      let (s, p, q) = >>=-eq-ok (encode_any v) _ h in
      let (t, p', q') = >>=-eq-ok (encode_items xs) _ q in
      subst_ok (λ b. ReadsItems b (item (normalize v) (normalize_items xs))) q'
        (decode_list-item s t (normalize v) (normalize_items xs) (encode_any-Starts v p)
          (encode_any-Reads v w.0 p) (encode_items-Reads xs w.1 p'))

  encode_values-Matches :
      (fs : Fields) {l : List (Bytes × Bytes)}
      → IsDictFields fs
      → encode_values fs ≡ ok l
      → Matches Reads l (normalize_fields fs)
  encode_values-Matches no_fields w h = subst_ok (λ l. Matches Reads l []) h tt
  encode_values-Matches (field k v fs) w h =
      let (s, p, q) = >>=-eq-ok (encode_any v) _ h in
      let (l, p', q') = >>=-eq-ok (encode_values fs) _ q in
      subst_ok (λ b. Matches Reads b ((k, normalize v) ∷ normalize_fields fs)) q'
        (refl, encode_any-Reads v w.0 p, encode_values-Matches fs w.1 p')

-- Where `encode` writes a value without a repeated key, `decode` reads back that value, with the
-- keys of each dict sorted.
pub decode-encode :
    (v : Value) {s : Bytes} → IsDict v → encode v ≡ ok s → decode s ≡ ok (normalize v)
unfolding encode decode
decode-encode v {s} w h =
    let (c, r, e, ne) = encode_any-Starts v h in
    let whole : decode_any (enough s) s ≡ ok (normalize v, []) =
      rw append-nil at (encode_any-Reads v w h [] (enough s) (omega arith)) in
    rw whole (rw e)

-- A text that `encode` wrote, with more behind it, is refused as trailing data.
pub decode-trailing :
    (v : Value) {s : Bytes} (c : ℕ) (r : Bytes)
    → IsDict v
    → encode v ≡ ok s
    → decode (s ++ c ∷ r) ≡ raised (decode_error "trailing data")
unfolding encode decode
decode-trailing v {s} c r w h =
    let (d, t, e, ne) = encode_any-Starts v h in
    let whole : decode_any (enough (s ++ c ∷ r)) (s ++ c ∷ r) ≡ ok (normalize v, c ∷ r) =
      encode_any-Reads v w h (c ∷ r) (enough (s ++ c ∷ r))
        (omega (arith, length-append s (c ∷ r))) in
    rw whole (rw e)

abbrev pub AllIsDict : List Value → Type 0
AllIsDict = All IsDict

-- The encodings of several values, one after the other.
unfoldable pub encode_each : List Value → Result Bytes
encode_each [] = ok []
encode_each (v ∷ vs) = encode v >>= (λ s. encode_each vs >>= (λ t. ok (s ++ t)))

decode_all_loop-encode_each :
    (f : ℕ) (vs : List Value) {s : Bytes}
    → length s < f
    → AllIsDict vs
    → encode_each vs ≡ ok s
    → decode_all_loop f s ≡ ok (map normalize vs)
unfolding encode_each decode_all_loop encode
decode_all_loop-encode_each zero vs k w h = elim k [ ]
decode_all_loop-encode_each (suc f) [] k w h =
    subst_ok (λ b. decode_all_loop (suc f) b ≡ ok []) h refl
decode_all_loop-encode_each (suc f) (v ∷ vs) {s} k w h =
    let (b, p, q) = >>=-eq-ok (encode v) _ h in
    let (t, p', q') = >>=-eq-ok (encode_each vs) _ q in
    let (d, r, e, ne) = encode_any-Starts v p in
    let same : s ≡ d ∷ (r ++ t) = ok-injective (sym q') ∙ ap (λ x. x ++ t) e in
    let whole : decode_any (enough (b ++ t)) (b ++ t) ≡ ok (normalize v, t) =
      encode_any-Reads v w.0 p t (enough (b ++ t)) (omega (arith, length-append b t)) in
    rw same (
      step d (r ++ t) t (rw e at whole) (
        decode_all_loop-encode_each f vs (omega (arith, ap length same, length-append r t)) w.1 p'))
  where
    step :
        (d : ℕ) (b t : Bytes)
        → decode_any (enough (d ∷ b)) (d ∷ b) ≡ ok (normalize v, t)
        → decode_all_loop f t ≡ ok (map normalize vs)
        → decode_all_loop (suc f) (d ∷ b) ≡ ok (map normalize (v ∷ vs))
    step d b t e e' = rw e (rw e')

-- `decode_all` reads the values of concatenated encodings, in order.
pub decode_all-encode_each :
    (vs : List Value) {s : Bytes}
    → AllIsDict vs
    → encode_each vs ≡ ok s
    → decode_all s ≡ ok (map normalize vs)
unfolding decode_all
decode_all-encode_each vs {s} w h =
    decode_all_loop-encode_each (suc (length s)) vs (omega arith) w h
