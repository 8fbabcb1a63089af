-- ===== src/Create/Serialize/RoundTrip.antt =====
-- Torrents written by src/aiobt/create.py and parsed by src/aiobt/torrent.py.
use aiobt.Create.Serialize.Written.{
  info_to_bencode_eq, info_values, info_values-HasFreshKeys, info_values-IsDict, top_values,
  top_values-HasFreshKeys, top_values-IsDict, torrent_to_bytes_eq,
}
use aiobt.Resume.{lookup}
use aiobt.Bencode.Decode.{decode}
use aiobt.Bencode.Stable.{encode_any-normalize}
use aiobt.Bencode.RoundTrip.{decode-encode}
use aiobt.Bencode.Lookup.{normalized}
use aiobt.Torrent.Parse.{
  key_info, parse_torrent_bytes, key_private, key_files, key_created_by, key_length, key_comment,
  key_pieces, key_creation_date, is_one, key_piece_length, key_name, key_announce_list, files_of,
  int_or_none, lacks_size, announce_list_of, bytes_or_none, key_announce, parse_info, parse_top,
}
use aiobt.Bencode.Encode.{encode_any, encode_values, sort_keys, encode}
use aiobt.Python.Result.{>>=-eq-ok, ok}
use aiobt.Python.Decimal.{pos, ℤ}
use aiobt.Torrent.{ParsedFile, TorrentInfo, TorrentMeta}
use aiobt.Python.Bytes.{bytes_eq, Bytes}
use aiobt.Bencode.Sorted.{normalize_fields, from_list, normalize}
use aiobt.Create.Serialize.{
  flag_or_none, number_or_none, present, info_to_bencode, torrent_to_bytes,
}
use aiobt.Create.Serialize.Keys.{lookup-read, value_at}
use aiobt.Create.Serialize.Values.{
  parse_announce_list_eq, parse_files_eq, list_value, text_value, file_items, tier_items,
}
use aiobt.Bencode.Value.{Value, Fields, dict}
use aiobt.Prelude.{true, ap, ◌∙◌, false, ◌≡◌, Bool, Option, List, none, some, refl}

-- The fields of a dict as the decoder returns it.
abbrev read_back : List (Bytes × Option Value) → Fields
read_back l = from_list (sort_keys (normalize_fields (present l)))

bytes_or_none_eq : (o : Option Bytes) → bytes_or_none (normalized (text_value o)) ≡ ok o
unfolding normalize
bytes_or_none_eq none = refl
bytes_or_none_eq (some t) = refl

int_or_none_eq : (o : Option ℤ) → int_or_none (normalized (number_or_none o)) ≡ ok o
unfolding normalize
int_or_none_eq none = refl
int_or_none_eq (some n) = refl

files_of_eq :
    (o : Option (List ParsedFile)) → files_of (normalized (list_value file_items o)) ≡ ok o
unfolding normalize
files_of_eq none = refl
files_of_eq (some l) = rw (parse_files_eq l) refl

announce_list_of_eq :
    (o : Option (List (List Bytes)))
    → announce_list_of (normalized (list_value tier_items o)) ≡ ok o
unfolding normalize
announce_list_of_eq none = refl
announce_list_of_eq (some l) = rw (parse_announce_list_eq l) refl

flag_eq :
    (b : Bool)
    → (o : Option ℤ) × (int_or_none (normalized (flag_or_none b)) ≡ ok o) × (is_one o ≡ b)
unfolding normalize
flag_eq true = (some (pos 1), refl, refl)
flag_eq false = (none, refl, refl)

parse_info_eq :
    (info : TorrentInfo)
    → lacks_size info.length info.files ≡ false
    → parse_info (read_back (info_values info)) ≡ ok info
unfolding parse_info normalize value_at bytes_eq
parse_info_eq info h =
    let fresh = info_values-HasFreshKeys info in
    let at = λ (key : Bytes). lookup-read key (info_values info) fresh in
    let (o, e, f) = flag_eq info.private in
    rw
      (
        at key_name,
        at key_piece_length,
        at key_pieces,
        at key_length,
        at key_files,
        at key_private,
        int_or_none_eq info.length,
        files_of_eq info.files,
        h,
        e,
        f,
      )
      refl

parse_top_eq :
    (fs : Fields) (meta : TorrentMeta) (info_hash : Bytes)
    → parse_top (read_back (top_values fs meta)) meta.info info_hash
      ≡ ok (record meta { info_hash = info_hash })
unfolding parse_top normalize value_at bytes_eq
parse_top_eq fs meta info_hash =
    let fresh = top_values-HasFreshKeys fs meta in
    let at = λ (key : Bytes). lookup-read key (top_values fs meta) fresh in
    rw
      (
        at key_announce,
        at key_announce_list,
        at key_creation_date,
        at key_comment,
        at key_created_by,
        bytes_or_none_eq meta.announce,
        announce_list_of_eq meta.announce_list,
        int_or_none_eq meta.creation_date,
        bytes_or_none_eq meta.comment,
        bytes_or_none_eq meta.created_by,
      )
      refl

-- The info dict is written as a part of the file.
encode-info :
    (fs : Fields) (meta : TorrentMeta) {b : Bytes}
    → encode (dict (present (top_values fs meta))) ≡ ok b
    → (written : Bytes) × (encode (dict fs) ≡ ok written)
unfolding encode present
encode-info fs meta h =
    let (l, p, q) = >>=-eq-ok (encode_values (present (top_values fs meta))) _ h in
    let (written, p', q') = >>=-eq-ok (encode_any (dict fs)) _ p in (written, p')

-- The steps of the parser, once each of them returns.
parse_torrent_bytes_eq :
    (sha1 : Bytes → Bytes) (b : Bytes) (top fs : Fields) (written : Bytes) (info : TorrentInfo)
    (meta : TorrentMeta)
    → decode b ≡ ok (dict top)
    → lookup key_info top ≡ some (dict fs)
    → encode (dict fs) ≡ ok written
    → parse_info fs ≡ ok info
    → parse_top top info (sha1 written) ≡ ok meta
    → parse_torrent_bytes sha1 b ≡ ok meta
unfolding parse_torrent_bytes
parse_torrent_bytes_eq sha1 b top fs written info meta e e' e'' f g = rw (e, e', e'', f) g

-- A torrent with a length or files is parsed as it was written, with the digest of its info dict
-- as it is written.
pub parse_torrent_bytes-torrent_to_bytes :
    (sha1 : Bytes → Bytes) (utf8 : Bytes → Bool) (meta : TorrentMeta) {b : Bytes}
    → torrent_to_bytes utf8 meta ≡ ok b
    → lacks_size meta.info.length meta.info.files ≡ false
    → (fs : Fields) × (written : Bytes) × (info_to_bencode utf8 meta.info ≡ ok fs)
      × (encode (dict fs) ≡ ok written)
      × (parse_torrent_bytes sha1 b ≡ ok (record meta { info_hash = sha1 written }))
unfolding torrent_to_bytes encode normalize value_at bytes_eq
parse_torrent_bytes-torrent_to_bytes sha1 utf8 meta {b} h some_size =
    let (fs, p, q) = >>=-eq-ok (info_to_bencode utf8 meta.info) _ h in
    let same = info_to_bencode_eq utf8 meta.info p in
    let top = torrent_to_bytes_eq utf8 meta h in
    let info = present (info_values meta.info) in
    let (written, w) = encode-info info meta top in
    let valid = info_values-IsDict meta.info in
    (
      fs,
      written,
      p,
      ap (λ x. encode (dict x)) same ∙ w,
      parse_torrent_bytes_eq sha1 b (read_back (top_values info meta))
          (read_back (info_values meta.info)) written meta.info _
          (decode-encode _ (top_values-IsDict info meta valid) top)
          (lookup-read key_info (top_values info meta) (top_values-HasFreshKeys info meta))
          (encode_any-normalize (dict info) valid w) (parse_info_eq meta.info some_size)
          (parse_top_eq info meta (sha1 written)),
    )
