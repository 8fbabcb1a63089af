-- ===== src/Torrent/Examples.antt =====
-- A torrent of one file, and the theorems of the modules beside this one at it.
use aiobt.Resume.{lookup}
use aiobt.Python.Result.{ok}
use aiobt.Python.Bytes.{Bytes, bytes_eq, bytes_lt}
use aiobt.Python.Decimal.{ℤ, pos}
use aiobt.Torrent.{TorrentInfo, TorrentMeta, total_length, piece_count, tracker_urls}
use aiobt.Torrent.Parse.{parse_torrent_bytes, parse_info, key_info}
use aiobt.Torrent.Facts.{parse_torrent_bytes_sound}
use aiobt.Bencode.Value.{Fields, dict}
use aiobt.Bencode.Decode.{decode}
use aiobt.Bencode.Encode.{encode}
use aiobt.Prelude.{false, [], ◌∷◌, none, some, refl, ◌≡◌, take, replicate}

-- d8:announce2:t/4:infod6:lengthi3e4:name1:f12:piece lengthi4e6:pieces20:...ee
abbrev sample : Bytes
sample =
    100 ∷ 56 ∷ 58 ∷ 97 ∷ 110 ∷ 110 ∷ 111 ∷ 117 ∷ 110 ∷ 99 ∷ 101 ∷ 50 ∷ 58 ∷ 116 ∷ 47 ∷ 52 ∷ 58 ∷ 105
    ∷ 110 ∷ 102 ∷ 111 ∷ 100 ∷ 54 ∷ 58 ∷ 108 ∷ 101 ∷ 110 ∷ 103 ∷ 116 ∷ 104 ∷ 105 ∷ 51 ∷ 101 ∷ 52 ∷ 58
    ∷ 110 ∷ 97 ∷ 109 ∷ 101 ∷ 49 ∷ 58 ∷ 102 ∷ 49 ∷ 50 ∷ 58 ∷ 112 ∷ 105 ∷ 101 ∷ 99 ∷ 101 ∷ 32 ∷ 108
    ∷ 101 ∷ 110 ∷ 103 ∷ 116 ∷ 104 ∷ 105 ∷ 52 ∷ 101 ∷ 54 ∷ 58 ∷ 112 ∷ 105 ∷ 101 ∷ 99 ∷ 101 ∷ 115 ∷ 50
    ∷ 48 ∷ 58 ∷ 7 ∷ 7 ∷ 7 ∷ 7 ∷ 7 ∷ 7 ∷ 7 ∷ 7 ∷ 7 ∷ 7 ∷ 7 ∷ 7 ∷ 7 ∷ 7 ∷ 7 ∷ 7 ∷ 7 ∷ 7 ∷ 7 ∷ 7 ∷ 101
    ∷ 101 ∷ []

-- A stand-in for a digest.
abbrev first_bytes : Bytes → Bytes
first_bytes m = take 20 m

abbrev sample_info : TorrentInfo
sample_info = record {
  name = b'f' ∷ [];
  piece_length = pos 4;
  pieces_raw = replicate 20 7;
  length = some (pos 3);
  files = none;
  private = false;
}

abbrev sample_meta : TorrentMeta
sample_meta = record {
  info = sample_info;
  info_hash =
      100 ∷ 54 ∷ 58 ∷ 108 ∷ 101 ∷ 110 ∷ 103 ∷ 116 ∷ 104 ∷ 105 ∷ 51 ∷ 101 ∷ 52 ∷ 58 ∷ 110 ∷ 97 ∷ 109
      ∷ 101 ∷ 49 ∷ 58 ∷ [];
  announce = some (b't' ∷ b'/' ∷ []);
  announce_list = none;
  creation_date = none;
  comment = none;
  created_by = none;
}

parsed : parse_torrent_bytes first_bytes sample ≡ ok sample_meta
unfolding parse_torrent_bytes bytes_eq bytes_lt
parsed = refl

parse_torrent_bytes_sound_example :
    (top : Fields) × (fs : Fields) × (written : Bytes) × (decode sample ≡ ok (dict top))
    × (lookup key_info top ≡ some (dict fs))
    × (encode (dict fs) ≡ ok written)
    × (sample_meta.info_hash ≡ first_bytes written)
    × (parse_info fs ≡ ok sample_info)
    × ((n : ℤ) × (total_length sample_info ≡ ok n))
parse_torrent_bytes_sound_example = parse_torrent_bytes_sound first_bytes sample parsed

counted : piece_count sample_info ≡ ok 1
unfolding piece_count
counted = refl

-- The primary URL again in a tier, and another one twice.
abbrev tiered : TorrentMeta
tiered = record sample_meta {
  announce_list =
      some (((b't' ∷ b'/' ∷ []) ∷ (b'u' ∷ b'/' ∷ []) ∷ []) ∷ ((b'u' ∷ b'/' ∷ []) ∷ []) ∷ []);
}

tiered_urls : tracker_urls tiered ≡ (b't' ∷ b'/' ∷ []) ∷ (b'u' ∷ b'/' ∷ []) ∷ []
unfolding tracker_urls bytes_eq
tiered_urls = refl
