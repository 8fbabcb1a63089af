-- ===== src/Create/Serialize.antt =====
-- The serialization of torrents in src/aiobt/create.py. `utf8` tells the texts that
-- `.encode("utf-8")` accepts, those without surrogates; a text is kept as its bytes.
pub mod Keys
pub mod Values
pub mod Written
pub mod RoundTrip
use aiobt.Torrent.{TorrentMeta, TorrentInfo, ParsedFile}
use aiobt.Bencode.Encode.{encode}
use aiobt.Torrent.Parse.{
  key_created_by, key_private, key_comment, key_files, key_creation_date, key_pieces,
  key_piece_length, key_announce_list, key_name, key_announce, key_path, key_length, key_info,
}
use aiobt.Python.Bytes.{Bytes}
use aiobt.Bencode.Value.{
  Value, Items, Fields, int, bytes, list, dict, no_items, item, no_fields, field,
}
use aiobt.Python.Result.{◌>>◌, unicode_error, raise_if, ◌>>=◌, Result, ok, raised}
use aiobt.Python.Decimal.{ℤ, pos}
use aiobt.Prelude.{not, List, [], ◌∷◌, Bool, true, false, Option, none, some}

abbrev pub encode_text : (Bytes → Bool) → Bytes → Result Bytes
encode_text utf8 text = raise_if (not (utf8 text)) unicode_error >> ok text

-- The texts of a path or a tier.
unfoldable pub encode_texts : (Bytes → Bool) → List Bytes → Result Items
encode_texts utf8 [] = ok no_items
encode_texts utf8 (t ∷ l) = do
  b ← encode_text utf8 t
  xs ← encode_texts utf8 l
  ok (item (bytes b) xs)

abbrev pub file_dict : ℤ → Items → Value
file_dict len parts = dict (field key_length (int len) (field key_path (list parts) no_fields))

unfoldable pub file_list : (Bytes → Bool) → List ParsedFile → Result Items
unfolding encode_texts
file_list utf8 [] = ok no_items
file_list utf8 (f ∷ l) = do
  parts ← encode_texts utf8 f.path
  xs ← file_list utf8 l
  ok (item (file_dict f.length parts) xs)

-- A dict that is built key by key: the keys whose value is there.
unfoldable pub present : List (Bytes × Option Value) → Fields
present [] = no_fields
present ((k, none) ∷ l) = present l
present ((k, some v) ∷ l) = field k v (present l)

abbrev pub list_or_none {ℓ} : {A : Type ℓ} → (A → Result Items) → Option A → Result (Option Value)
list_or_none f none = ok none
list_or_none f (some a) = f a >>= (λ xs. ok (some (list xs)))

abbrev pub text_or_none : (Bytes → Bool) → Option Bytes → Result (Option Value)
text_or_none utf8 none = ok none
text_or_none utf8 (some t) = encode_text utf8 t >>= (λ b. ok (some (bytes b)))

abbrev pub number_or_none : Option ℤ → Option Value
number_or_none none = none
number_or_none (some n) = some (int n)

abbrev pub flag_or_none : Bool → Option Value
flag_or_none true = some (int (pos 1))
flag_or_none false = none

abbrev pub info_keys : TorrentInfo → Option Value → List (Bytes × Option Value)
info_keys info files =
    (key_name, some (bytes info.name))
    ∷ (key_piece_length, some (int info.piece_length))
    ∷ (key_pieces, some (bytes info.pieces_raw))
    ∷ (key_length, number_or_none info.length)
    ∷ (key_files, files)
    ∷ (key_private, flag_or_none info.private)
    ∷ []

unfoldable pub info_to_bencode : (Bytes → Bool) → TorrentInfo → Result Fields
unfolding file_list present
info_to_bencode utf8 info = do
  name ← encode_text utf8 info.name
  files ← list_or_none (file_list utf8) info.files
  ok (present (info_keys (record info { name = name }) files))

unfoldable pub tier_list : (Bytes → Bool) → List (List Bytes) → Result Items
unfolding encode_texts
tier_list utf8 [] = ok no_items
tier_list utf8 (t ∷ l) = do
  urls ← encode_texts utf8 t
  xs ← tier_list utf8 l
  ok (item (list urls) xs)

abbrev pub top_keys :
    Fields
    → Option Value
    → Option Value
    → Option ℤ
    → Option Value
    → Option Value
    → List (Bytes × Option Value)
top_keys info announce tiers date comment created_by =
    (key_info, some (dict info))
    ∷ (key_announce, announce)
    ∷ (key_announce_list, tiers)
    ∷ (key_creation_date, number_or_none date)
    ∷ (key_comment, comment)
    ∷ (key_created_by, created_by)
    ∷ []

unfoldable pub torrent_to_bytes : (Bytes → Bool) → TorrentMeta → Result Bytes
unfolding info_to_bencode tier_list present encode
torrent_to_bytes utf8 meta = do
  info ← info_to_bencode utf8 meta.info
  announce ← text_or_none utf8 meta.announce
  tiers ← list_or_none (tier_list utf8) meta.announce_list
  comment ← text_or_none utf8 meta.comment
  created_by ← text_or_none utf8 meta.created_by
  encode (dict (present (top_keys info announce tiers meta.creation_date comment created_by)))
