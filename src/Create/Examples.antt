-- ===== src/Create/Examples.antt =====
-- Two files hashed in pieces of four bytes, one of which spans both.
use aiobt.Create.Serialize.RoundTrip.{parse_torrent_bytes-torrent_to_bytes}
use aiobt.Bencode.Encode.{encode}
use aiobt.Create.Created.{IsUnchanged, create_torrent_lem, parse_torrent_bytes-create_torrent}
use aiobt.Torrent.Parse.{parse_torrent_bytes}
use aiobt.Python.Decimal.{pos}
use aiobt.Bencode.Value.{dict, Fields}
use aiobt.Create.Serialize.{info_to_bencode, torrent_to_bytes}
use aiobt.Torrent.{total_length, TorrentMeta}
use aiobt.Python.Result.{ok}
use aiobt.Create.Build.{contents, nested, Trackers, create_torrent, FileSpec}
use aiobt.Create.{hash_pieces}
use aiobt.Create.Pieces.{hash_pieces-joined, piece_hashes}
use aiobt.Python.Bytes.{bytes_lt, bytes_eq, Bytes}
use aiobt.Prelude.{
  All, joined, ◌≤◌, ◌^◌, none, some, true, ℕ, Option, Bool, take, ◌≡◌, List, [], ◌∷◌, arith, refl,
}

-- A stand-in for a digest.
abbrev two_bytes : Bytes → Bytes
two_bytes m = take 2 m

abbrev files : List Bytes
files = (1 ∷ 2 ∷ 3 ∷ 4 ∷ 5 ∷ 6 ∷ []) ∷ [] ∷ (7 ∷ 8 ∷ 9 ∷ []) ∷ []

hashed : hash_pieces two_bytes files 4 ≡ 1 ∷ 2 ∷ 5 ∷ 6 ∷ 9 ∷ []
unfolding hash_pieces
hashed = refl

hash_pieces-joined_example :
    hash_pieces two_bytes files 4
    ≡ piece_hashes two_bytes 4 (1 ∷ 2 ∷ 3 ∷ 4 ∷ 5 ∷ 6 ∷ 7 ∷ 8 ∷ 9 ∷ [])
hash_pieces-joined_example = hash_pieces-joined two_bytes 4 files (omega arith)

abbrev always_utf8 : Bytes → Bool
always_utf8 t = true

abbrev exponent_zero : ℕ → ℕ
exponent_zero n = 0

abbrev two_files : List FileSpec
two_files =
    record { torrent_path = (b'a' ∷ []) ∷ []; length = 3; content = 1 ∷ 2 ∷ 3 ∷ [] }
    ∷ record { torrent_path = (b'd' ∷ []) ∷ (b'b' ∷ []) ∷ []; length = 1; content = 4 ∷ [] }
    ∷ []

abbrev two_tiers : Option Trackers
two_tiers = some (nested ([] ∷ ((b'u' ∷ []) ∷ []) ∷ []))

abbrev made : TorrentMeta
made = record {
  info = record {
    name = b'r' ∷ [];
    piece_length = pos 16384;
    pieces_raw = 1 ∷ 2 ∷ [];
    length = none;
    files = some (
        record { path = (b'a' ∷ []) ∷ []; length = pos 3 }
        ∷ record { path = (b'd' ∷ []) ∷ (b'b' ∷ []) ∷ []; length = pos 1 }
        ∷ []);
    private = true;
  };
  info_hash = 100 ∷ 53 ∷ [];
  announce = some (b'u' ∷ []);
  announce_list = some ([] ∷ ((b'u' ∷ []) ∷ []) ∷ []);
  creation_date = some (pos 7);
  comment = some (b'c' ∷ []);
  created_by = some (b'm' ∷ []);
}

create_made :
    create_torrent two_bytes always_utf8 exponent_zero 7
      (b'r' ∷ [])
      two_files
      two_tiers
      none
      (some (b'c' ∷ []))
      true
      (b'm' ∷ [])
    ≡ ok made
unfolding create_torrent bytes_eq bytes_lt
create_made = refl

create_torrent_lem_example :
    (n : ℕ) × (k : ℕ) × (made.info.piece_length ≡ pos n)
    × (n ≡ 2 ^ k)
    × (16384 ≤ n)
    × (total_length made.info ≡ ok (pos 4))
    × (All IsUnchanged two_files → total_length made.info ≡ ok (pos 4))
    × (made.info.pieces_raw ≡ piece_hashes two_bytes n (joined (contents two_files)))
create_torrent_lem_example =
    create_torrent_lem two_bytes always_utf8 exponent_zero 7 (b'r' ∷ []) two_files two_tiers none
      (some (b'c' ∷ [])) true (b'm' ∷ []) create_made

abbrev made_bytes : Bytes
made_bytes =
    100 ∷ 56 ∷ 58 ∷ 97 ∷ 110 ∷ 110 ∷ 111 ∷ 117 ∷ 110 ∷ 99 ∷ 101 ∷ 49 ∷ 58 ∷ 117 ∷ 49 ∷ 51 ∷ 58 ∷ 97
    ∷ 110 ∷ 110 ∷ 111 ∷ 117 ∷ 110 ∷ 99 ∷ 101 ∷ 45 ∷ 108 ∷ 105 ∷ 115 ∷ 116 ∷ 108 ∷ 108 ∷ 101 ∷ 108
    ∷ 49 ∷ 58 ∷ 117 ∷ 101 ∷ 101 ∷ 55 ∷ 58 ∷ 99 ∷ 111 ∷ 109 ∷ 109 ∷ 101 ∷ 110 ∷ 116 ∷ 49 ∷ 58 ∷ 99
    ∷ 49 ∷ 48 ∷ 58 ∷ 99 ∷ 114 ∷ 101 ∷ 97 ∷ 116 ∷ 101 ∷ 100 ∷ 32 ∷ 98 ∷ 121 ∷ 49 ∷ 58 ∷ 109 ∷ 49 ∷ 51
    ∷ 58 ∷ 99 ∷ 114 ∷ 101 ∷ 97 ∷ 116 ∷ 105 ∷ 111 ∷ 110 ∷ 32 ∷ 100 ∷ 97 ∷ 116 ∷ 101 ∷ 105 ∷ 55 ∷ 101
    ∷ 52 ∷ 58 ∷ 105 ∷ 110 ∷ 102 ∷ 111 ∷ 100 ∷ 53 ∷ 58 ∷ 102 ∷ 105 ∷ 108 ∷ 101 ∷ 115 ∷ 108 ∷ 100 ∷ 54
    ∷ 58 ∷ 108 ∷ 101 ∷ 110 ∷ 103 ∷ 116 ∷ 104 ∷ 105 ∷ 51 ∷ 101 ∷ 52 ∷ 58 ∷ 112 ∷ 97 ∷ 116 ∷ 104 ∷ 108
    ∷ 49 ∷ 58 ∷ 97 ∷ 101 ∷ 101 ∷ 100 ∷ 54 ∷ 58 ∷ 108 ∷ 101 ∷ 110 ∷ 103 ∷ 116 ∷ 104 ∷ 105 ∷ 49 ∷ 101
    ∷ 52 ∷ 58 ∷ 112 ∷ 97 ∷ 116 ∷ 104 ∷ 108 ∷ 49 ∷ 58 ∷ 100 ∷ 49 ∷ 58 ∷ 98 ∷ 101 ∷ 101 ∷ 101 ∷ 52
    ∷ 58 ∷ 110 ∷ 97 ∷ 109 ∷ 101 ∷ 49 ∷ 58 ∷ 114 ∷ 49 ∷ 50 ∷ 58 ∷ 112 ∷ 105 ∷ 101 ∷ 99 ∷ 101 ∷ 32
    ∷ 108 ∷ 101 ∷ 110 ∷ 103 ∷ 116 ∷ 104 ∷ 105 ∷ 49 ∷ 54 ∷ 51 ∷ 56 ∷ 52 ∷ 101 ∷ 54 ∷ 58 ∷ 112 ∷ 105
    ∷ 101 ∷ 99 ∷ 101 ∷ 115 ∷ 50 ∷ 58 ∷ 1 ∷ 2 ∷ 55 ∷ 58 ∷ 112 ∷ 114 ∷ 105 ∷ 118 ∷ 97 ∷ 116 ∷ 101
    ∷ 105 ∷ 49 ∷ 101 ∷ 101 ∷ 101 ∷ []

write_made : torrent_to_bytes always_utf8 made ≡ ok made_bytes
unfolding torrent_to_bytes bytes_eq bytes_lt
write_made = refl

parse_torrent_bytes-create_torrent_example : parse_torrent_bytes two_bytes made_bytes ≡ ok made
parse_torrent_bytes-create_torrent_example =
    parse_torrent_bytes-create_torrent two_bytes always_utf8 exponent_zero 7 (b'r' ∷ []) two_files
      two_tiers none (some (b'c' ∷ [])) true (b'm' ∷ []) create_made write_made

parse_torrent_bytes-torrent_to_bytes_example :
    (fs : Fields) × (written : Bytes) × (info_to_bencode always_utf8 made.info ≡ ok fs)
    × (encode (dict fs) ≡ ok written)
    × (parse_torrent_bytes two_bytes made_bytes
        ≡ ok (record made { info_hash = two_bytes written }))
parse_torrent_bytes-torrent_to_bytes_example =
    parse_torrent_bytes-torrent_to_bytes two_bytes always_utf8 made write_made refl
