-- ===== src/Torrent/Parse.antt =====
-- The parsing of torrent files in src/aiobt/torrent.py. Text is kept as its bytes: decoding with
-- surrogateescape loses nothing. hashlib.sha1 is a parameter.
use aiobt.Python.Decimal.{pos, ℤ}
use aiobt.Python.Bytes.{Bytes}
use aiobt.Python.Result.{raise_if, decode_error, ◌>>◌, raised, ◌>>=◌, ok, Result}
use aiobt.Torrent.{TorrentInfo, TorrentMeta, ParsedFile}
use aiobt.Resume.{lookup}
use aiobt.Bencode.Decode.{decode}
use aiobt.Bencode.Encode.{encode}
use aiobt.Bencode.Value.{Value, Items, Fields, int, bytes, list, dict, no_items, item}
use aiobt.Prelude.{false, ◌==◌, true, Bool, none, some, Option, String, List, [], ◌∷◌}

abbrev pub key_info : Bytes
key_info = b'i' ∷ b'n' ∷ b'f' ∷ b'o' ∷ []

abbrev pub key_name : Bytes
key_name = b'n' ∷ b'a' ∷ b'm' ∷ b'e' ∷ []

abbrev pub key_piece_length : Bytes
key_piece_length =
    b'p' ∷ b'i' ∷ b'e' ∷ b'c' ∷ b'e' ∷ 32 ∷ b'l' ∷ b'e' ∷ b'n' ∷ b'g' ∷ b't' ∷ b'h' ∷ []

abbrev pub key_pieces : Bytes
key_pieces = b'p' ∷ b'i' ∷ b'e' ∷ b'c' ∷ b'e' ∷ b's' ∷ []

abbrev pub key_length : Bytes
key_length = b'l' ∷ b'e' ∷ b'n' ∷ b'g' ∷ b't' ∷ b'h' ∷ []

abbrev pub key_files : Bytes
key_files = b'f' ∷ b'i' ∷ b'l' ∷ b'e' ∷ b's' ∷ []

abbrev pub key_path : Bytes
key_path = b'p' ∷ b'a' ∷ b't' ∷ b'h' ∷ []

abbrev pub key_private : Bytes
key_private = b'p' ∷ b'r' ∷ b'i' ∷ b'v' ∷ b'a' ∷ b't' ∷ b'e' ∷ []

abbrev pub key_announce : Bytes
key_announce = b'a' ∷ b'n' ∷ b'n' ∷ b'o' ∷ b'u' ∷ b'n' ∷ b'c' ∷ b'e' ∷ []

abbrev pub key_announce_list : Bytes
key_announce_list =
    b'a' ∷ b'n' ∷ b'n' ∷ b'o' ∷ b'u' ∷ b'n' ∷ b'c' ∷ b'e' ∷ b'-' ∷ b'l' ∷ b'i' ∷ b's' ∷ b't' ∷ []

abbrev pub key_creation_date : Bytes
key_creation_date =
    b'c' ∷ b'r' ∷ b'e' ∷ b'a' ∷ b't' ∷ b'i' ∷ b'o' ∷ b'n' ∷ 32 ∷ b'd' ∷ b'a' ∷ b't' ∷ b'e' ∷ []

abbrev pub key_comment : Bytes
key_comment = b'c' ∷ b'o' ∷ b'm' ∷ b'm' ∷ b'e' ∷ b'n' ∷ b't' ∷ []

abbrev pub key_created_by : Bytes
key_created_by = b'c' ∷ b'r' ∷ b'e' ∷ b'a' ∷ b't' ∷ b'e' ∷ b'd' ∷ 32 ∷ b'b' ∷ b'y' ∷ []

abbrev pub refuse {ℓ} : {A : Type ℓ} → String → Result A
refuse message = raised (decode_error message)

-- _bytes_or_none and _int_or_none, on what d.get(key) returns
abbrev pub bytes_or_none : Option Value → Result (Option Bytes)
bytes_or_none none = ok none
bytes_or_none (some (bytes b)) = ok (some b)
bytes_or_none (some v) = refuse "expected bytes"

abbrev pub int_or_none : Option Value → Result (Option ℤ)
int_or_none none = ok none
int_or_none (some (int z)) = ok (some z)
int_or_none (some v) = refuse "expected int"

abbrev pub required {ℓ} : {A : Type ℓ} → Option A → Result A
required none = refuse "missing required key"
required (some a) = ok a

abbrev pub require_bytes : Option Value → Result Bytes
require_bytes o = bytes_or_none o >>= required

abbrev pub require_int : Option Value → Result ℤ
require_int o = int_or_none o >>= required

abbrev pub require_dict : Option Value → Result Fields
require_dict none = refuse "missing required key"
require_dict (some (dict fs)) = ok fs
require_dict (some v) = refuse "expected dict"

-- The components of a path, or the URLs of a tier.
unfoldable pub parse_strings : String → Items → Result (List Bytes)
parse_strings message no_items = ok []
parse_strings message (item (bytes b) xs) = parse_strings message xs >>= (λ l. ok (b ∷ l))
parse_strings message (item v xs) = refuse message

abbrev pub path_of : Option Value → Result (List Bytes)
path_of (some (list xs)) = parse_strings "path component must be bytes" xs
path_of _ = refuse "file entry missing 'path' list"

unfoldable pub parse_file : Value → Result ParsedFile
unfolding lookup parse_strings
parse_file (dict fs) = do
  len ← require_int (lookup key_length fs)
  parts ← path_of (lookup key_path fs)
  ok (record { path = parts; length = len })
parse_file v = refuse "file entry must be a dict"

unfoldable pub parse_files : Items → Result (List ParsedFile)
unfolding parse_file
parse_files no_items = ok []
parse_files (item v xs) = do entry ← parse_file v; entries ← parse_files xs; ok (entry ∷ entries)

abbrev pub tier_of : Value → Result (List Bytes)
tier_of (list xs) = parse_strings "tracker URL must be bytes" xs
tier_of v = refuse "announce-list tier must be a list"

unfoldable pub parse_announce_list : Items → Result (List (List Bytes))
unfolding parse_strings
parse_announce_list no_items = ok []
parse_announce_list (item v xs) = do
  tier ← tier_of v
  tiers ← parse_announce_list xs
  ok (tier ∷ tiers)

abbrev pub files_of : Option Value → Result (Option (List ParsedFile))
files_of none = ok none
files_of (some (list xs)) = parse_files xs >>= (λ l. ok (some l))
files_of (some v) = refuse "'files' must be a list"

-- An announce-list that is not a list is ignored.
abbrev pub announce_list_of : Option Value → Result (Option (List (List Bytes)))
announce_list_of (some (list xs)) = parse_announce_list xs >>= (λ l. ok (some l))
announce_list_of _ = ok none

abbrev pub is_one : Option ℤ → Bool
is_one (some (pos n)) = n == 1
is_one _ = false

-- length is None and files is None
abbrev pub lacks_size : Option ℤ → Option (List ParsedFile) → Bool
lacks_size none none = true
lacks_size _ _ = false

unfoldable pub parse_info : Fields → Result TorrentInfo
unfolding lookup parse_files
parse_info fs = do
  name ← require_bytes (lookup key_name fs)
  piece_length ← require_int (lookup key_piece_length fs)
  pieces_raw ← require_bytes (lookup key_pieces fs)
  len ← int_or_none (lookup key_length fs)
  files ← files_of (lookup key_files fs)
  raise_if (lacks_size len files) (decode_error "info dict has neither 'length' nor 'files'")
  private_val ← int_or_none (lookup key_private fs)
  ok (record {
    name = name;
    piece_length = piece_length;
    pieces_raw = pieces_raw;
    length = len;
    files = files;
    private = is_one private_val;
  })

-- The fields of the file beside the info dict.
unfoldable pub parse_top : Fields → TorrentInfo → Bytes → Result TorrentMeta
unfolding lookup parse_announce_list
parse_top top info info_hash = do
  announce ← bytes_or_none (lookup key_announce top)
  announce_list ← announce_list_of (lookup key_announce_list top)
  creation_date ← int_or_none (lookup key_creation_date top)
  comment ← bytes_or_none (lookup key_comment top)
  created_by ← bytes_or_none (lookup key_created_by top)
  ok (record {
    info = info;
    info_hash = info_hash;
    announce = announce;
    announce_list = announce_list;
    creation_date = creation_date;
    comment = comment;
    created_by = created_by;
  })

abbrev pub dict_of : Value → Result Fields
dict_of (dict fs) = ok fs
dict_of v = refuse "torrent must be a dict"

unfoldable pub parse_torrent_bytes : (Bytes → Bytes) → Bytes → Result TorrentMeta
unfolding decode encode lookup parse_info parse_top
parse_torrent_bytes sha1 data' = do
  value ← decode data'
  top ← dict_of value
  info_dict ← require_dict (lookup key_info top)
  written ← encode (dict info_dict)
  info ← parse_info info_dict
  parse_top top info (sha1 written)
