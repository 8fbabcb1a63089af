-- ===== src/Bencode/Examples.antt =====
-- Runs of the encoder and the decoder, and the theorems of the modules beside this one at inputs
-- that meet their hypotheses.
use aiobt.Prelude.{List, [], ◌∷◌, ◌++◌, ◌≡◌, refl, length}
use aiobt.Python.Bytes.{Bytes, bytes_eq}
use aiobt.Python.Result.{ok, raised, decode_error}
use aiobt.Python.Decimal.{pos, negsuc, decimal}
use aiobt.Bencode.Value.{Value, int, bytes, list, dict, no_items, item, no_fields, field}
use aiobt.Bencode.Decode.{decode}
use aiobt.Bencode.Encode.{encode, sort_keys}
use aiobt.Bencode.Sorted.{normalize, IsDict, IsSorted}
use aiobt.Bencode.RoundTrip.{decode-encode, encode_each}
use aiobt.Bencode.Order.{decode-IsSorted, decode-encode-decode}

-- {b"b": [-10, b"xy"], b"a": 7}, with its keys out of order
abbrev sample : Value
sample = dict (
    field (98 ∷ []) (list (item (int (negsuc 9)) (item (bytes (120 ∷ 121 ∷ [])) no_items)))
      (field (97 ∷ []) (int (pos 7)) no_fields))

-- d1:ai7e1:bli-10e2:xyee
abbrev sample_bytes : Bytes
sample_bytes =
    100 ∷ 49 ∷ 58 ∷ 97 ∷ 105 ∷ 55 ∷ 101 ∷ 49 ∷ 58 ∷ 98 ∷ 108 ∷ 105 ∷ 45 ∷ 49 ∷ 48 ∷ 101 ∷ 50 ∷ 58
    ∷ 120 ∷ 121 ∷ 101 ∷ 101 ∷ []

encode-sample : encode sample ≡ ok sample_bytes
unfolding encode
encode-sample = refl

sample-IsDict : IsDict sample
unfolding IsDict normalize bytes_eq
sample-IsDict = (((refl, tt), (tt, tt)), ((tt, (tt, tt)), (tt, tt)))

decode-sample : decode sample_bytes ≡ ok (normalize sample)
unfolding decode normalize sort_keys
decode-sample = refl

-- i05e, and a list with no end
leading_zero_refused :
    decode (105 ∷ 48 ∷ 53 ∷ 101 ∷ []) ≡ raised (decode_error "leading zero in integer")
unfolding decode
leading_zero_refused = refl

open_list_refused : decode (108 ∷ 108 ∷ 101 ∷ []) ≡ raised (decode_error "unterminated list")
unfolding decode
open_list_refused = refl

-- d1:bi1e1:ai2ee
disorder_refused :
    decode (100 ∷ 49 ∷ 58 ∷ 98 ∷ 105 ∷ 49 ∷ 101 ∷ 49 ∷ 58 ∷ 97 ∷ 105 ∷ 50 ∷ 101 ∷ 101 ∷ [])
    ≡ raised (decode_error "dict keys out of order")
unfolding decode
disorder_refused = refl

decode-encode_example : decode sample_bytes ≡ ok (normalize sample)
decode-encode_example = decode-encode sample sample-IsDict encode-sample

abbrev pair : List Value
pair = sample ∷ int (pos 0) ∷ []

encode_pair : encode_each pair ≡ ok (sample_bytes ++ 105 ∷ 48 ∷ 101 ∷ [])
unfolding encode_each encode
encode_pair = refl

int-IsDict : IsDict (int (pos 0))
unfolding IsDict
int-IsDict = tt

decode-IsSorted_example : IsSorted (normalize sample)
decode-IsSorted_example = decode-IsSorted sample_bytes decode-sample

encode_normal : encode (normalize sample) ≡ ok sample_bytes
unfolding encode normalize sort_keys
encode_normal = refl

decode-encode-decode_example : decode sample_bytes ≡ ok (normalize sample)
decode-encode-decode_example = decode-encode-decode sample_bytes decode-sample encode_normal

decimal_seven : length (decimal 7) ≡ 1
unfolding decimal
decimal_seven = refl
