-- ===== src/Bencode/Order.antt =====
-- The order of keys in the decoder of src/aiobt/bencode.py.
use aiobt.Prelude.{
  ℕ, zero, suc, List, [], ◌∷◌, Bool, true, false, not, Option, none, some, ◌≡◌, ◌∙◌, refl, ap,
  arith,
}
use aiobt.Python.Bytes.{Bytes, bytes_lt, bytes_lt_trans, bytes_lt_asymm, bytes_eq_of_lt}
use aiobt.Python.Result.{Result, ok, raised}
use aiobt.Bencode.Value.{
  Value, Items, Fields, int, bytes, list, dict, no_items, item, no_fields, field,
}
use aiobt.Bencode.Decode.{out_of_order, decode_any, decode_list, decode_dict, decode, enough}
use aiobt.Bencode.Encode.{encode, sort_keys, insert_key}
use aiobt.Bencode.Sorted.{
  IsAbove, from_list, normalize, normalize_items, normalize_fields, IsDict, IsDictItems,
  IsDictFields, IsAscending, IsSorted, IsSortedItems, IsSortedFields, IsFresh, HasFreshKeys,
}
use aiobt.Bencode.RoundTrip.{decode-encode}

-- `P` holds of the value that is returned, if one is.
abbrev OnSuccess {ℓ} : {A : Type ℓ} → (A → Type 0) → Result A → Type 0
OnSuccess P (ok a) = P a
OnSuccess P (raised e) = Unit

not-false : (b : Bool) → not b ≡ false → b ≡ true
not-false b h = ground arith

-- The decoder's test of a key lets pass those above the key before it.
IsAbove-of_not_out_of_order :
    (prev : Option Bytes) (key : Bytes) → out_of_order prev key ≡ false → IsAbove prev key
IsAbove-of_not_out_of_order none key h = tt
IsAbove-of_not_out_of_order (some prev_key) key h = not-false _ h

out_of_order-of_IsAbove :
    (prev : Option Bytes) (key : Bytes) → IsAbove prev key → out_of_order prev key ≡ false
out_of_order-of_IsAbove none key h = refl
out_of_order-of_IsAbove (some prev_key) key h = ap not h

mutual
  unfolding decode_any IsSorted

  decode_any-IsSorted : (f : ℕ) (b : Bytes) → OnSuccess (λ (v, rest). IsSorted v) (decode_any f b)
  decode_any-IsSorted zero b = tt
  decode_any-IsSorted (suc f) [] = tt
  decode_any-IsSorted (suc f) (c ∷ r) =
      ground (arith, decode_list-IsSorted f r, decode_dict-IsSorted f none r)

  decode_list-IsSorted :
      (f : ℕ) (b : Bytes) → OnSuccess (λ (xs, rest). IsSortedItems xs) (decode_list f b)
  decode_list-IsSorted zero b = tt
  decode_list-IsSorted (suc f) [] = tt
  decode_list-IsSorted (suc f) (c ∷ r) =
      grind (arith, decode_any-IsSorted f, decode_list-IsSorted f)

  decode_dict-IsSorted :
      (f : ℕ) (prev : Option Bytes) (b : Bytes)
      → OnSuccess (λ (fs, rest). IsSortedFields prev fs) (decode_dict f prev b)
  decode_dict-IsSorted zero prev b = tt
  decode_dict-IsSorted (suc f) prev [] = tt
  decode_dict-IsSorted (suc f) prev (c ∷ r) =
      grind (arith, decode_any-IsSorted f, decode_dict-IsSorted f, IsAbove-of_not_out_of_order)

decode-OnSuccess : (b : Bytes) → OnSuccess IsSorted (decode b)
unfolding decode
decode-OnSuccess b = ground (arith, decode_any-IsSorted (enough b) b)

-- In every dict of a value that `decode` returns the keys ascend strictly.
pub decode-IsSorted : (b : Bytes) {v : Value} → decode b ≡ ok v → IsSorted v
decode-IsSorted b h = rw h at (decode-OnSuccess b)

module _ {ℓ} {A : Type ℓ} where
  insert_key-IsAscending_head :
      (k : Bytes) (a : A) (l : List (Bytes × A))
      → IsAscending (some k) l
      → insert_key k a l ≡ (k, a) ∷ l
  unfolding insert_key
  insert_key-IsAscending_head k a [] h = refl
  insert_key-IsAscending_head k a ((j, b) ∷ l) h = rw (bytes_lt_asymm k j (not-false _ h.0))

  pub sort_keys_of_IsAscending :
      (prev : Option Bytes) (l : List (Bytes × A)) → IsAscending prev l → sort_keys l ≡ l
  unfolding sort_keys
  sort_keys_of_IsAscending prev [] h = refl
  sort_keys_of_IsAscending prev ((k, a) ∷ l) h =
      rw (sort_keys_of_IsAscending (some k) l h.1) (insert_key-IsAscending_head k a l h.1)

  IsFresh-of_IsAscending :
      (k j : Bytes) (l : List (Bytes × A))
      → bytes_lt k j ≡ true
      → IsAscending (some j) l
      → IsFresh k l
  IsFresh-of_IsAscending k j [] h s = tt
  IsFresh-of_IsAscending k j ((i, a) ∷ l) h s =
      let above = bytes_lt_trans k j i h (not-false _ s.0) in
      (bytes_eq_of_lt k i above, IsFresh-of_IsAscending k i l above s.1)

  HasFreshKeys-of_IsAscending :
      (prev : Option Bytes) (l : List (Bytes × A)) → IsAscending prev l → HasFreshKeys l
  HasFreshKeys-of_IsAscending prev [] s = tt
  HasFreshKeys-of_IsAscending prev ((k, a) ∷ []) s = (tt, tt)
  HasFreshKeys-of_IsAscending prev ((k, a) ∷ (j, b) ∷ l) s =
      let above = not-false _ s.1.0 in
      (
        (bytes_eq_of_lt k j above, IsFresh-of_IsAscending k j l above s.1.1),
        HasFreshKeys-of_IsAscending (some k) ((j, b) ∷ l) s.1,
      )

normalize_fields-IsAscending :
    (prev : Option Bytes) (fs : Fields)
    → IsSortedFields prev fs
    → IsAscending prev (normalize_fields fs)
unfolding normalize IsSorted
normalize_fields-IsAscending prev no_fields h = tt
normalize_fields-IsAscending prev (field k v fs) h =
    (out_of_order-of_IsAbove prev k h.0, normalize_fields-IsAscending (some k) fs h.2)

mutual
  unfolding normalize IsSorted

  normalize_of_IsSorted : (v : Value) → IsSorted v → normalize v ≡ v
  normalize_of_IsSorted (int z) h = refl
  normalize_of_IsSorted (bytes s) h = refl
  normalize_of_IsSorted (list xs) h = ap list (normalize_items_of_IsSorted xs h)
  normalize_of_IsSorted (dict fs) h = ap dict (
      ap from_list (
        sort_keys_of_IsAscending none (normalize_fields fs)
          (normalize_fields-IsAscending none fs h))
      ∙ normalize_fields_of_IsSorted none fs h)

  normalize_items_of_IsSorted : (xs : Items) → IsSortedItems xs → normalize_items xs ≡ xs
  normalize_items_of_IsSorted no_items h = refl
  normalize_items_of_IsSorted (item v xs) h =
      cc (normalize_of_IsSorted v h.0, normalize_items_of_IsSorted xs h.1)

  normalize_fields_of_IsSorted :
      (prev : Option Bytes) (fs : Fields)
      → IsSortedFields prev fs
      → from_list (normalize_fields fs) ≡ fs
  normalize_fields_of_IsSorted prev no_fields h = refl
  normalize_fields_of_IsSorted prev (field k v fs) h =
      cc (normalize_of_IsSorted v h.1, normalize_fields_of_IsSorted (some k) fs h.2)

mutual
  unfolding IsDict IsSorted

  IsDict-of_IsSorted : (v : Value) → IsSorted v → IsDict v
  IsDict-of_IsSorted (int z) h = tt
  IsDict-of_IsSorted (bytes s) h = tt
  IsDict-of_IsSorted (list xs) h = IsDictItems-of_IsSorted xs h
  IsDict-of_IsSorted (dict fs) h = (
    HasFreshKeys-of_IsAscending none (normalize_fields fs) (normalize_fields-IsAscending none fs h),
    IsDictFields-of_IsSorted none fs h,
  )

  IsDictItems-of_IsSorted : (xs : Items) → IsSortedItems xs → IsDictItems xs
  IsDictItems-of_IsSorted no_items h = tt
  IsDictItems-of_IsSorted (item v xs) h = (IsDict-of_IsSorted v h.0, IsDictItems-of_IsSorted xs h.1)

  IsDictFields-of_IsSorted :
      (prev : Option Bytes) (fs : Fields) → IsSortedFields prev fs → IsDictFields fs
  IsDictFields-of_IsSorted prev no_fields h = tt
  IsDictFields-of_IsSorted prev (field k v fs) h =
      (IsDict-of_IsSorted v h.1, IsDictFields-of_IsSorted (some k) fs h.2)

-- Whatever `decode` accepts, the encoding of the value that it returned decodes to that value.
pub decode-encode-decode :
    (b : Bytes) {v : Value} {s : Bytes} → decode b ≡ ok v → encode v ≡ ok s → decode s ≡ ok v
decode-encode-decode b {v} h e =
    let sorted = decode-IsSorted b h in
    decode-encode v (IsDict-of_IsSorted v sorted) e ∙ ap ok (normalize_of_IsSorted v sorted)
