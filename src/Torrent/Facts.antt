-- ===== src/Torrent/Facts.antt =====
-- What holds of a torrent that src/aiobt/torrent.py parsed.
use aiobt.Bencode.Encode.{encode}
use aiobt.Resume.{lookup}
use aiobt.Bencode.Decode.{decode}
use aiobt.Python.Result.{
  value_error, ok-injective, ok, raised, >>=-eq-ok, raise_if-eq-ok, index_error,
}
use aiobt.Python.Bytes.{Bytes}
use aiobt.Python.Decimal.{ℤ}
use aiobt.Torrent.{
  sum_lengths, ParsedFile, TorrentInfo, TorrentMeta, total_length, piece_count, piece_hash,
}
use aiobt.Torrent.Parse.{
  key_private, key_files, key_created_by, key_comment, files_of, key_creation_date, key_length,
  int_or_none, key_pieces, key_piece_length, key_announce_list, require_int, announce_list_of,
  key_announce, key_name, bytes_or_none, require_bytes, parse_torrent_bytes, parse_info, parse_top,
  dict_of, require_dict, key_info, lacks_size,
}
use aiobt.Bencode.Value.{Value, Fields, int, bytes, list, dict}
use aiobt.Prelude.{
  lt→ltb, length-drop, subst, length-take, ◌+◌, ◌*◌, drop, refl, take, ◌/◌, ◌==◌, false, ◌%◌, not,
  ltb, sym, ◌∙◌, ◌≤◌, none, length, ◌<◌, ap, some, ℕ, Option, ◌≡◌, List, arith,
}

ltb-false : (m n : ℕ) → n ≤ m → ltb m n ≡ false
ltb-false m n h = ground arith

-- Where the blob of hashes can be counted, each index below the count has a hash of 20 bytes, and
-- each other index raises IndexError.
pub piece_hash-piece_count :
    (info : TorrentInfo) (index : ℕ) {n : ℕ}
    → piece_count info ≡ ok n
    → (index < n → (h : Bytes) × (piece_hash info index ≡ ok h) × (length h ≡ 20))
      × (n ≤ index → piece_hash info index ≡ raised index_error)
unfolding piece_count piece_hash
piece_hash-piece_count info index {n} e =
    let (whole, counted) =
      raise_if-eq-ok (not (length info.pieces_raw % 20 == 0)) _ (ok (length info.pieces_raw / 20))
        e in
    let count : length info.pieces_raw / 20 ≡ n = ok-injective counted in
    (
      λ h. (
        take 20 (drop (index * 20) info.pieces_raw),
        rw (ltb-false (length info.pieces_raw) (index * 20 + 20) (omega arith)) refl,
        length-take 20 (drop (index * 20) info.pieces_raw)
            ∙ omega (arith, length-drop (index * 20) info.pieces_raw),
      ),
      λ h. rw (lt→ltb (length info.pieces_raw) (index * 20 + 20) (omega arith)) refl,
    )

sized-total :
    (o : Option ℤ) (files : Option (List ParsedFile))
    → lacks_size o files ≡ false
    → (n : ℤ) × ((elim o [
      | some n ↦ ok n
      | none ↦ (elim files [
        | some l ↦ ok (sum_lengths l)
        | none ↦ raised (value_error "torrent has neither length nor files")
      ])
    ])
        ≡ ok n)
sized-total (some n) files e = (n, refl)
sized-total none (some l) e = (sum_lengths l, refl)
sized-total none none e = cc

info-total :
    (fs : Fields) {info : TorrentInfo}
    → parse_info fs ≡ ok info
    → (n : ℤ) × (total_length info ≡ ok n)
unfolding parse_info total_length
info-total fs e =
    let (name, p1, e1) = >>=-eq-ok (require_bytes (lookup key_name fs)) _ e in
    let (piece_length, p2, e2) = >>=-eq-ok (require_int (lookup key_piece_length fs)) _ e1 in
    let (pieces_raw, p3, e3) = >>=-eq-ok (require_bytes (lookup key_pieces fs)) _ e2 in
    let (len, p4, e4) = >>=-eq-ok (int_or_none (lookup key_length fs)) _ e3 in
    let (files, p5, e5) = >>=-eq-ok (files_of (lookup key_files fs)) _ e4 in
    let (sized, e6) = raise_if-eq-ok (lacks_size len files) _ _ e5 in
    let (private_val, p6, e7) = >>=-eq-ok (int_or_none (lookup key_private fs)) _ e6 in
    subst (λ i. (n : ℤ) × (total_length i ≡ ok n)) (ok-injective e7) (sized-total len files sized)

dict_of-ok : (v : Value) {fs : Fields} → dict_of v ≡ ok fs → v ≡ dict fs
dict_of-ok (dict fs) e = ap dict (ok-injective e)
dict_of-ok (int z) e = cc
dict_of-ok (bytes b) e = cc
dict_of-ok (list xs) e = cc

require_dict-ok : (o : Option Value) {fs : Fields} → require_dict o ≡ ok fs → o ≡ some (dict fs)
require_dict-ok none e = cc
require_dict-ok (some (dict fs)) e = ap (λ x. some (dict x)) (ok-injective e)
require_dict-ok (some (int z)) e = cc
require_dict-ok (some (bytes b)) e = cc
require_dict-ok (some (list xs)) e = cc

top-info :
    (top : Fields) (info : TorrentInfo) (hash : Bytes) {meta : TorrentMeta}
    → parse_top top info hash ≡ ok meta
    → (meta.info ≡ info) × (meta.info_hash ≡ hash)
unfolding parse_top
top-info top info hash e =
    let (a, p1, e1) = >>=-eq-ok (bytes_or_none (lookup key_announce top)) _ e in
    let (l, p2, e2) = >>=-eq-ok (announce_list_of (lookup key_announce_list top)) _ e1 in
    let (d, p3, e3) = >>=-eq-ok (int_or_none (lookup key_creation_date top)) _ e2 in
    let (c, p4, e4) = >>=-eq-ok (bytes_or_none (lookup key_comment top)) _ e3 in
    let (b, p5, e5) = >>=-eq-ok (bytes_or_none (lookup key_created_by top)) _ e4 in
    let m = ok-injective e5 in (sym (ap (λ x. x.info) m), sym (ap (λ x. x.info_hash) m))

-- A parsed torrent was decoded from a dict with a dict under "info": its info is what that dict
-- parses to, its info hash the digest of that dict as it is encoded, and it has a total length.
pub parse_torrent_bytes_sound :
    (sha1 : Bytes → Bytes) (data' : Bytes) {meta : TorrentMeta}
    → parse_torrent_bytes sha1 data' ≡ ok meta
    → (top : Fields) × (fs : Fields) × (written : Bytes) × (decode data' ≡ ok (dict top))
      × (lookup key_info top ≡ some (dict fs))
      × (encode (dict fs) ≡ ok written)
      × (meta.info_hash ≡ sha1 written)
      × (parse_info fs ≡ ok meta.info)
      × ((n : ℤ) × (total_length meta.info ≡ ok n))
unfolding parse_torrent_bytes
parse_torrent_bytes_sound sha1 data' {meta} e =
    let (v, d, e1) = >>=-eq-ok (decode data') _ e in
    let (top, t, e2) = >>=-eq-ok (dict_of v) _ e1 in
    let (fs, r, e3) = >>=-eq-ok (require_dict (lookup key_info top)) _ e2 in
    let (w, s, e4) = >>=-eq-ok (encode (dict fs)) _ e3 in
    let (info, p, e5) = >>=-eq-ok (parse_info fs) _ e4 in
    let (same, hash) = top-info top info (sha1 w) e5 in
    let parsed : parse_info fs ≡ ok meta.info = p ∙ ap ok (sym same) in
    (
      top,
      fs,
      w,
      d ∙ ap ok (dict_of-ok v t),
      require_dict-ok (lookup key_info top) r,
      s,
      hash,
      parsed,
      info-total fs parsed,
    )
