-- ===== src/Create/Build.antt =====
-- create_torrent of src/aiobt/create.py, on what the scan of the paths found. `exponent` is the
-- floating-point computation max(0, ceil(log2(max(n / 1500, 1)))), `now` is int(time.time()), and a
-- given piece length is non-negative.
use aiobt.Python.Result.{◌>>◌, value_error, raise_if, ◌>>=◌, ok, Result}
use aiobt.Python.Bytes.{Bytes}
use aiobt.Bencode.Value.{dict}
use aiobt.Bencode.Encode.{encode}
use aiobt.Create.{hash_pieces}
use aiobt.Create.Serialize.{info_to_bencode}
use aiobt.Python.Decimal.{pos}
use aiobt.Torrent.{TorrentInfo, TorrentMeta, ParsedFile}
use aiobt.Prelude.{
  ◌-◌, not, ltb, false, ◌^◌, ◌/◌, min, ◌*◌, if◌then◌else◌, ◌==◌, ◌+◌, ◌%◌, Bool, map, max, length,
  List, [], ◌∷◌, none, some, ℕ, zero, suc, Option,
}

abbrev pub min_piece_size : ℕ
min_piece_size = 16384

abbrev max_piece_size : ℕ
max_piece_size = 16777216

abbrev pub optimal_piece_size : (ℕ → ℕ) → ℕ → ℕ
optimal_piece_size exponent zero = min_piece_size
optimal_piece_size exponent (suc n) = max min_piece_size (min (2 ^ exponent (suc n)) max_piece_size)

-- _FileSpec: the size is the one found when the file is scanned. `content` is what reading the file
-- that disk_path names gives, later.
pub record FileSpec : Type 0 where
  pub torrent_path : List Bytes
  pub length : ℕ
  pub content : Bytes

abbrev pub total_size : List FileSpec → ℕ
total_size [] = 0
total_size (s ∷ l) = s.length + total_size l

abbrev pub contents : List FileSpec → List Bytes
contents = map FileSpec.content

-- a & b, on the first binary digits.
unfoldable pub and_digits : ℕ → ℕ → ℕ → ℕ
and_digits zero a b = 0
and_digits (suc n) a b = a % 2 * (b % 2) + 2 * and_digits n (a / 2) (b / 2)

unfoldable pub chosen_piece_length : (ℕ → ℕ) → ℕ → Option ℕ → Result ℕ
unfolding and_digits
chosen_piece_length exponent total none = ok (optimal_piece_size exponent total)
chosen_piece_length exponent total (some n) =
    raise_if (ltb n min_piece_size) (value_error "piece_length below minimum")
    >> (raise_if (not (and_digits n n (n - 1) == 0)) (value_error "not a power of two") >> ok n)

-- len(specs) == 1 and len(specs[0].torrent_path) == 1
abbrev pub is_single : List FileSpec → Bool
is_single (s ∷ []) = length s.torrent_path == 1
is_single _ = false

abbrev pub file_entries : List FileSpec → List ParsedFile
file_entries = map (λ s. record { path = s.torrent_path; length = pos s.length })

-- The parameter `trackers`: the URLs of one tier, or tiers.
pub data Trackers : Type 0 where
  flat : List Bytes → Trackers
  nested : List (List Bytes) → Trackers

-- The first URL of the first tier that has one.
abbrev first_of_tiers : List (List Bytes) → Option Bytes
first_of_tiers [] = none
first_of_tiers ([] ∷ l) = first_of_tiers l
first_of_tiers ((u ∷ t) ∷ l) = some u

abbrev announce_of : Option Trackers → Option Bytes
announce_of (some (flat (u ∷ l))) = some u
announce_of (some (nested tiers)) = first_of_tiers tiers
announce_of _ = none

abbrev tiers_from : Option Trackers → Option (List (List Bytes))
tiers_from (some (flat (u ∷ l))) = some ((u ∷ l) ∷ [])
tiers_from (some (nested (t ∷ l))) = some (t ∷ l)
tiers_from _ = none

abbrev pub info_of : (Bytes → Bytes) → Bytes → List FileSpec → ℕ → Bool → TorrentInfo
info_of sha1 root_name specs n private = record {
  name = root_name;
  piece_length = pos n;
  pieces_raw = hash_pieces sha1 (contents specs) n;
  length = if is_single specs then some (pos (total_size specs)) else none;
  files = if is_single specs then none else some (file_entries specs);
  private = private;
}

unfoldable pub create_torrent :
    (Bytes → Bytes)
    → (Bytes → Bool)
    → (ℕ → ℕ)
    → ℕ
    → Bytes
    → List FileSpec
    → Option Trackers
    → Option ℕ
    → Option Bytes
    → Bool
    → Bytes
    → Result TorrentMeta
unfolding hash_pieces info_to_bencode chosen_piece_length encode
create_torrent sha1 utf8 exponent now root_name specs trackers piece_length comment private
      created_by =
    do
      n ← chosen_piece_length exponent (total_size specs) piece_length
      info_dict ← info_to_bencode utf8 (info_of sha1 root_name specs n private)
      written ← encode (dict info_dict)
      ok (record {
        info = info_of sha1 root_name specs n private;
        info_hash = sha1 written;
        announce = announce_of trackers;
        announce_list = tiers_from trackers;
        creation_date = some (pos now);
        comment = comment;
        created_by = some created_by;
      })
