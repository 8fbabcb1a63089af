-- ===== src/Bencode/Stable.antt =====
-- The encoder of src/aiobt/bencode.py on a value with sorted keys: it writes the same bytes.
use aiobt.Bencode.Decode.{out_of_order}
use aiobt.Python.Result.{subst_ok, >>=-eq-ok, ok}
use aiobt.Bencode.Encode.{sort_keys, encode_items, encode_values, encode_any}
use aiobt.Python.Bytes.{Bytes}
use aiobt.Bencode.Value.{
  Value, Items, Fields, int, bytes, list, dict, no_items, item, no_fields, field,
}
use aiobt.Bencode.Sorted.{
  IsAscending, from_list, normalize, normalize_items, normalize_fields, IsDict, IsDictItems,
  IsDictFields, Matches, sort_keys-IsAscending, sort_keys-Matches,
}
use aiobt.Bencode.Order.{sort_keys_of_IsAscending}
use aiobt.Prelude.{some, false, subst, sym, ap, Option, List, [], ◌∷◌, none, refl, ◌≡◌}

abbrev Writes : Bytes → Value → Type 0
Writes s v = encode_any v ≡ ok s

encode_values-Matches :
    (l : List (Bytes × Bytes)) (m : List (Bytes × Value))
    → Matches Writes l m
    → encode_values (from_list m) ≡ ok l
unfolding encode_any
encode_values-Matches [] [] h = refl
encode_values-Matches ((k, s) ∷ l) ((j, v) ∷ m) h =
    rw (h.1, encode_values-Matches l m h.2) (ap (λ i. ok ((i, s) ∷ l)) (sym h.0))
encode_values-Matches [] (y ∷ m) h = absurd h
encode_values-Matches (x ∷ l) [] h = absurd h

Matches-IsAscending :
    (prev : Option Bytes) (l : List (Bytes × Bytes)) (m : List (Bytes × Value))
    → Matches Writes l m
    → IsAscending prev m
    → IsAscending prev l
Matches-IsAscending prev [] [] h a = tt
Matches-IsAscending prev ((k, s) ∷ l) ((j, v) ∷ m) h a = (
  subst (λ i. out_of_order prev i ≡ false) (sym h.0) a.0,
  subst (λ i. IsAscending (some i) l) (sym h.0) (Matches-IsAscending (some j) l m h.2 a.1),
)
Matches-IsAscending prev [] (y ∷ m) h a = absurd h
Matches-IsAscending prev (x ∷ l) [] h a = absurd h

mutual
  unfolding encode_any normalize IsDict

  pub encode_any-normalize :
      (v : Value) {s : Bytes} → IsDict v → encode_any v ≡ ok s → encode_any (normalize v) ≡ ok s
  encode_any-normalize (int z) w h = h
  encode_any-normalize (bytes b) w h = h
  encode_any-normalize (list xs) w h =
      let (s, p, q) = >>=-eq-ok (encode_items xs) _ h in rw (encode_items-normalize xs w p) q
  encode_any-normalize (dict fs) w h =
      let (l, p, q) = >>=-eq-ok (encode_values fs) _ h in
      let m = normalize_fields fs in
      let ms = encode_values-normalize fs w.1 p in
      let sorted = sort_keys-Matches Writes l m ms in
      let again = sort_keys_of_IsAscending none (sort_keys l) (
        Matches-IsAscending none (sort_keys l) (sort_keys m) sorted
          (sort_keys-IsAscending m w.0)) in
      rw (encode_values-Matches (sort_keys l) (sort_keys m) sorted, again) q

  encode_items-normalize :
      (xs : Items) {s : Bytes}
      → IsDictItems xs
      → encode_items xs ≡ ok s
      → encode_items (normalize_items xs) ≡ ok s
  encode_items-normalize no_items w h = h
  encode_items-normalize (item v xs) w h =
      let (s, p, q) = >>=-eq-ok (encode_any v) _ h in
      let (t, p', q') = >>=-eq-ok (encode_items xs) _ q in
      rw (encode_any-normalize v w.0 p, encode_items-normalize xs w.1 p') q'

  encode_values-normalize :
      (fs : Fields) {l : List (Bytes × Bytes)}
      → IsDictFields fs
      → encode_values fs ≡ ok l
      → Matches Writes l (normalize_fields fs)
  encode_values-normalize no_fields w h = subst_ok (λ l. Matches Writes l []) h tt
  encode_values-normalize (field k v fs) w h =
      let (s, p, q) = >>=-eq-ok (encode_any v) _ h in
      let (l, p', q') = >>=-eq-ok (encode_values fs) _ q in
      subst_ok (λ b. Matches Writes b ((k, normalize v) ∷ normalize_fields fs)) q'
        (refl, encode_any-normalize v w.0 p, encode_values-normalize fs w.1 p')
