-- ===== src/Create/Serialize/Written.antt =====
-- What src/aiobt/create.py writes for a torrent, as a value without a repeated key.
use aiobt.Bencode.Encode.{encode}
use aiobt.Python.Result.{ok-injective, >>=-eq-ok, ok}
use aiobt.Python.Decimal.{ℤ}
use aiobt.Torrent.{TorrentInfo, TorrentMeta}
use aiobt.Python.Bytes.{bytes_eq, Bytes}
use aiobt.Bencode.Sorted.{IsDictItems, HasFreshKeys, IsDict}
use aiobt.Create.Serialize.{
  tier_list, file_list, list_or_none, encode_text, text_or_none, flag_or_none, number_or_none,
  present, info_keys, top_keys, info_to_bencode, torrent_to_bytes,
}
use aiobt.Create.Serialize.Keys.{IsDictOption, present-IsDict}
use aiobt.Create.Serialize.Values.{
  file_list_eq, tier_list_eq, list_or_none_eq, text_or_none_eq, encode_text_eq, tier_items-IsDict,
  file_items-IsDict, list_value, text_value, file_items, tier_items,
}
use aiobt.Bencode.Value.{Items, Value, Fields, dict}
use aiobt.Prelude.{true, arith, ap, ◌∙◌, sym, false, ◌≡◌, Bool, Option, List, none, some}

-- The keys of the info dict and of the file, with the values that are written.
abbrev pub info_values : TorrentInfo → List (Bytes × Option Value)
info_values info = info_keys info (list_value file_items info.files)

abbrev pub top_values : Fields → TorrentMeta → List (Bytes × Option Value)
top_values info meta =
    top_keys info (text_value meta.announce) (list_value tier_items meta.announce_list)
      meta.creation_date (text_value meta.comment) (text_value meta.created_by)

pub info_to_bencode_eq :
    (utf8 : Bytes → Bool) (info : TorrentInfo) {fs : Fields}
    → info_to_bencode utf8 info ≡ ok fs
    → fs ≡ present (info_values info)
unfolding info_to_bencode
info_to_bencode_eq utf8 info h =
    let (name, p, q) = >>=-eq-ok (encode_text utf8 info.name) _ h in
    let (files, p', q') = >>=-eq-ok (list_or_none (file_list utf8) info.files) _ q in
    let e = encode_text_eq utf8 info.name p in
    let e' =
      list_or_none_eq (file_list utf8) file_items info.files (λ l xs. file_list_eq utf8 l) p' in
    sym (ok-injective q')
    ∙ ap (λ n. present (info_keys (record info { name = n }) files)) e
    ∙ ap (λ o. present (info_keys info o)) e'

pub torrent_to_bytes_eq :
    (utf8 : Bytes → Bool) (meta : TorrentMeta) {b : Bytes}
    → torrent_to_bytes utf8 meta ≡ ok b
    → encode (dict (present (top_values (present (info_values meta.info)) meta))) ≡ ok b
unfolding torrent_to_bytes
torrent_to_bytes_eq utf8 meta h =
    let (info, p0, q0) = >>=-eq-ok (info_to_bencode utf8 meta.info) _ h in
    let (announce, p1, q1) = >>=-eq-ok (text_or_none utf8 meta.announce) _ q0 in
    let (tiers, p2, q2) = >>=-eq-ok (list_or_none (tier_list utf8) meta.announce_list) _ q1 in
    let (comment, p3, q3) = >>=-eq-ok (text_or_none utf8 meta.comment) _ q2 in
    let (created_by, p4, q4) = >>=-eq-ok (text_or_none utf8 meta.created_by) _ q3 in
    let e0 = info_to_bencode_eq utf8 meta.info p0 in
    let e1 = text_or_none_eq utf8 meta.announce p1 in
    let e2 =
      list_or_none_eq (tier_list utf8) tier_items meta.announce_list (λ l xs. tier_list_eq utf8 l)
        p2 in
    let e3 = text_or_none_eq utf8 meta.comment p3 in
    let e4 = text_or_none_eq utf8 meta.created_by p4 in
    let same : top_values (present (info_values meta.info)) meta
        ≡ top_keys info announce tiers meta.creation_date comment created_by =
      cc (e0, e1, e2, e3, e4) in
    ap (λ l. encode (dict (present l))) same ∙ q4

number-IsDict : (o : Option ℤ) → IsDictOption (number_or_none o)
unfolding IsDict
number-IsDict none = tt
number-IsDict (some n) = tt

text-IsDict : (o : Option Bytes) → IsDictOption (text_value o)
unfolding IsDict
text-IsDict none = tt
text-IsDict (some n) = tt

flag-IsDict : (b : Bool) → IsDictOption (flag_or_none b)
unfolding IsDict
flag-IsDict false = tt
flag-IsDict true = tt

list-IsDict :
    {A : Type 0} (f : A → Items)
    → ((a : A) → IsDictItems (f a))
    → (o : Option A) → IsDictOption (list_value f o)
unfolding IsDict
list-IsDict f h none = tt
list-IsDict f h (some a) = h a

pub info_values-HasFreshKeys : (info : TorrentInfo) → HasFreshKeys (info_values info)
unfolding bytes_eq
info_values-HasFreshKeys info = ground arith

pub top_values-HasFreshKeys : (fs : Fields) (meta : TorrentMeta) → HasFreshKeys (top_values fs meta)
unfolding bytes_eq
top_values-HasFreshKeys fs meta = ground arith

pub info_values-IsDict : (info : TorrentInfo) → IsDict (dict (present (info_values info)))
unfolding IsDict
info_values-IsDict info = present-IsDict (info_values info) (info_values-HasFreshKeys info) (
  tt,
  (
    tt,
    (
      tt,
      (
        number-IsDict info.length,
        (list-IsDict file_items file_items-IsDict info.files, (flag-IsDict info.private, tt)),
      ),
    ),
  ),
)

pub top_values-IsDict :
    (fs : Fields) (meta : TorrentMeta)
    → IsDict (dict fs)
    → IsDict (dict (present (top_values fs meta)))
top_values-IsDict fs meta h =
    present-IsDict (top_values fs meta) (top_values-HasFreshKeys fs meta) (
      h,
      (
        text-IsDict meta.announce,
        (
          list-IsDict tier_items tier_items-IsDict meta.announce_list,
          (
            number-IsDict meta.creation_date,
            (text-IsDict meta.comment, (text-IsDict meta.created_by, tt)),
          ),
        ),
      ),
    )
