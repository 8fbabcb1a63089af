-- ===== src/Bencode/Encode.antt =====
-- The encoder of src/aiobt/bencode.py. The fragments that the source appends to `parts` are
-- concatenated at once.
use aiobt.Prelude.{List, [], ◌∷◌, ◌++◌, if◌then◌else◌, length}
use aiobt.Python.Bytes.{Bytes, bytes_lt}
use aiobt.Python.Result.{Result, ok, ◌>>=◌}
use aiobt.Python.Decimal.{ℤ, pos, str_of_int}
use aiobt.Bencode.Value.{
  Value, Items, Fields, int, bytes, list, dict, no_items, item, no_fields, field,
}

unfoldable pub encode_int : ℤ → Result Bytes
encode_int z = do digits ← str_of_int z; ok (b'i' ∷ (digits ++ b'e' ∷ []))

unfoldable pub encode_bytes : Bytes → Result Bytes
encode_bytes s = do digits ← str_of_int (pos (length s)); ok (digits ++ (b':' ∷ s))

-- A dict's keys in the order of `sorted`, each with something of its own.
module _ {ℓ} {A : Type ℓ} where
  unfoldable pub insert_key : Bytes → A → List (Bytes × A) → List (Bytes × A)
  insert_key k a [] = (k, a) ∷ []
  insert_key k a ((j, b) ∷ l) =
      if bytes_lt j k then (j, b) ∷ insert_key k a l else (k, a) ∷ (j, b) ∷ l

  unfoldable pub sort_keys : List (Bytes × A) → List (Bytes × A)
  unfolding insert_key
  sort_keys [] = []
  sort_keys ((k, a) ∷ l) = insert_key k a (sort_keys l)

-- The loop of `_encode_dict` over the sorted keys, with the encoding of each value.
unfoldable pub join_fields : List (Bytes × Bytes) → Result Bytes
unfolding encode_bytes
join_fields [] = ok (b'e' ∷ [])
join_fields ((k, v) ∷ l) = do key ← encode_bytes k; rest ← join_fields l; ok (key ++ (v ++ rest))

unfoldable mutual
  pub encode_any : Value → Result Bytes
  encode_any (int z) = encode_int z
  encode_any (bytes s) = encode_bytes s
  encode_any (list xs) = encode_items xs >>= (λ s. ok (b'l' ∷ s))
  encode_any (dict fs) =
      encode_values fs >>= (λ l. join_fields (sort_keys l) >>= (λ s. ok (b'd' ∷ s)))

  -- The loop of `_encode_list`, and the end mark.
  pub encode_items : Items → Result Bytes
  encode_items no_items = ok (b'e' ∷ [])
  encode_items (item v xs) = encode_any v >>= (λ s. encode_items xs >>= (λ rest. ok (s ++ rest)))

  -- The keys of a dict with their encoded values, in the order of insertion.
  pub encode_values : Fields → Result (List (Bytes × Bytes))
  encode_values no_fields = ok []
  encode_values (field k v fs) = encode_any v >>= (λ s. encode_values fs >>= (λ l. ok ((k, s) ∷ l)))

unfoldable pub encode : Value → Result Bytes
unfolding encode_any encode_int encode_bytes join_fields sort_keys bytes_lt str_of_int
encode v = encode_any v
