-- ===== src/Create/Serialize/Values.antt =====
-- The values that src/aiobt/create.py writes for the parts of a torrent, without the errors of
-- encoding texts, and that src/aiobt/torrent.py parses them.
use aiobt.Bencode.Encode.{insert_key, sort_keys}
use aiobt.Python.Bytes.{bytes_lt, bytes_eq, Bytes}
use aiobt.Python.Result.{unicode_error, raised, >>=-eq-ok, ok-injective, ok, Result}
use aiobt.Torrent.{ParsedFile}
use aiobt.Torrent.Parse.{parse_strings, parse_files, parse_announce_list}
use aiobt.Bencode.Sorted.{normalize_items, IsDictItems, normalize, IsDict}
use aiobt.Create.Serialize.{
  encode_text, encode_texts, file_dict, file_list, tier_list, list_or_none, text_or_none,
}
use aiobt.Bencode.Value.{Value, Items, no_items, item, bytes, list}
use aiobt.Prelude.{
  inr, inl, Bool-cases, sym, String, Bool, ◌≡◌, Option, List, [], ◌∷◌, none, some, refl,
}

abbrev text_items : List Bytes → Items
text_items [] = no_items
text_items (t ∷ l) = item (bytes t) (text_items l)

abbrev pub file_items : List ParsedFile → Items
file_items [] = no_items
file_items (f ∷ l) = item (file_dict f.length (text_items f.path)) (file_items l)

abbrev pub tier_items : List (List Bytes) → Items
tier_items [] = no_items
tier_items (t ∷ l) = item (list (text_items t)) (tier_items l)

abbrev pub list_value {ℓ} : {A : Type ℓ} → (A → Items) → Option A → Option Value
list_value f none = none
list_value f (some a) = some (list (f a))

abbrev pub text_value : Option Bytes → Option Value
text_value none = none
text_value (some t) = some (bytes t)

module _ (utf8 : Bytes → Bool) where
  pub encode_text_eq : (t : Bytes) {b : Bytes} → encode_text utf8 t ≡ ok b → b ≡ t
  encode_text_eq t h = elim (Bool-cases (utf8 t)) [
    | inl e ↦ sym (ok-injective (rw e at h))
    | inr e ↦ let bad : raised unicode_error ≡ ok _ = rw e at h in cc
  ]

  encode_texts_eq : (l : List Bytes) {xs : Items} → encode_texts utf8 l ≡ ok xs → xs ≡ text_items l
  unfolding encode_texts
  encode_texts_eq [] h = sym (ok-injective h)
  encode_texts_eq (t ∷ l) h =
      let (b, p, q) = >>=-eq-ok (encode_text utf8 t) _ h in
      let (xs, p', q') = >>=-eq-ok (encode_texts utf8 l) _ q in
      cc (ok-injective q', encode_text_eq t p, encode_texts_eq l p')

  pub file_list_eq :
      (l : List ParsedFile) {xs : Items} → file_list utf8 l ≡ ok xs → xs ≡ file_items l
  unfolding file_list
  file_list_eq [] h = sym (ok-injective h)
  file_list_eq (f ∷ l) h =
      let (parts, p, q) = >>=-eq-ok (encode_texts utf8 f.path) _ h in
      let (xs, p', q') = >>=-eq-ok (file_list utf8 l) _ q in
      cc (ok-injective q', encode_texts_eq f.path p, file_list_eq l p')

  pub tier_list_eq :
      (l : List (List Bytes)) {xs : Items} → tier_list utf8 l ≡ ok xs → xs ≡ tier_items l
  unfolding tier_list
  tier_list_eq [] h = sym (ok-injective h)
  tier_list_eq (t ∷ l) h =
      let (parts, p, q) = >>=-eq-ok (encode_texts utf8 t) _ h in
      let (xs, p', q') = >>=-eq-ok (tier_list utf8 l) _ q in
      cc (ok-injective q', encode_texts_eq t p, tier_list_eq l p')

  pub text_or_none_eq :
      (o : Option Bytes) {v : Option Value} → text_or_none utf8 o ≡ ok v → v ≡ text_value o
  text_or_none_eq none h = sym (ok-injective h)
  text_or_none_eq (some t) h =
      let (b, p, q) = >>=-eq-ok (encode_text utf8 t) _ h in cc (ok-injective q, encode_text_eq t p)

pub list_or_none_eq :
    {A : Type 0} (f : A → Result Items) (g : A → Items) (o : Option A) {v : Option Value}
    → ((a : A) (xs : Items) → f a ≡ ok xs → xs ≡ g a)
    → list_or_none f o ≡ ok v
    → v ≡ list_value g o
list_or_none_eq f g none e h = sym (ok-injective h)
list_or_none_eq f g (some a) e h =
    let (xs, p, q) = >>=-eq-ok (f a) _ h in cc (ok-injective q, e a xs p)

text_items-IsDict : (l : List Bytes) → IsDictItems (text_items l)
unfolding IsDict
text_items-IsDict [] = tt
text_items-IsDict (t ∷ l) = (tt, text_items-IsDict l)

pub file_items-IsDict : (l : List ParsedFile) → IsDictItems (file_items l)
unfolding IsDict normalize bytes_eq
file_items-IsDict [] = tt
file_items-IsDict (f ∷ l) =
    ((((refl, tt), (tt, tt)), (tt, (text_items-IsDict f.path, tt))), file_items-IsDict l)

pub tier_items-IsDict : (l : List (List Bytes)) → IsDictItems (tier_items l)
unfolding IsDict
tier_items-IsDict [] = tt
tier_items-IsDict (t ∷ l) = (text_items-IsDict t, tier_items-IsDict l)

parse_strings_eq :
    (message : String) (l : List Bytes)
    → parse_strings message (normalize_items (text_items l)) ≡ ok l
unfolding parse_strings normalize
parse_strings_eq message [] = refl
parse_strings_eq message (t ∷ l) = rw (parse_strings_eq message l) refl

pub parse_files_eq : (l : List ParsedFile) → parse_files (normalize_items (file_items l)) ≡ ok l
unfolding parse_files normalize sort_keys insert_key bytes_lt bytes_eq
parse_files_eq [] = refl
parse_files_eq (f ∷ l) =
    rw (parse_strings_eq "path component must be bytes" f.path, parse_files_eq l) refl

pub parse_announce_list_eq :
    (l : List (List Bytes)) → parse_announce_list (normalize_items (tier_items l)) ≡ ok l
unfolding parse_announce_list normalize
parse_announce_list_eq [] = refl
parse_announce_list_eq (t ∷ l) =
    rw (parse_strings_eq "tracker URL must be bytes" t, parse_announce_list_eq l) refl
