-- ===== src/Resume.antt =====
-- src/aiobt/resume.py: saving and loading the state of a torrent. Writing and reading the file
-- itself are outside the model: `save_resume` is the payload that is written, and `load_resume`
-- takes what `path.read_bytes` returned, or none where it raised.
pub mod Laws
mod Examples
use aiobt.Prelude.{
  ℕ, zero, suc, List, [], ◌∷◌, Bool, true, false, Option, none, some, if◌then◌else◌,
}
use aiobt.Python.Bytes.{Bytes, bytes_eq}
use aiobt.Python.Result.{Result, ok, raised, decode_error, ◌>>=◌}
use aiobt.Python.Decimal.{ℤ, pos, negsuc}
use aiobt.Python.IntSet.{IntSet}
use aiobt.Bencode.Value.{Value, Fields, int, bytes, list, dict, no_fields, field}
use aiobt.Bencode.Decode.{decode}
use aiobt.Bencode.Encode.{encode}
use aiobt.Bitfield.{have_to_bitfield, bitfield_to_have}

pub record ResumeData : Type 0 where
  pub info_hash : Bytes
  pub have : IntSet
  pub downloaded : ℤ
  pub uploaded : ℤ

-- The keys of the saved dict.
abbrev pub key_info_hash : Bytes
key_info_hash = b'i' ∷ b'n' ∷ b'f' ∷ b'o' ∷ b'_' ∷ b'h' ∷ b'a' ∷ b's' ∷ b'h' ∷ []

abbrev pub key_bitfield : Bytes
key_bitfield = b'b' ∷ b'i' ∷ b't' ∷ b'f' ∷ b'i' ∷ b'e' ∷ b'l' ∷ b'd' ∷ []

abbrev pub key_piece_count : Bytes
key_piece_count = b'p' ∷ b'i' ∷ b'e' ∷ b'c' ∷ b'e' ∷ b'_' ∷ b'c' ∷ b'o' ∷ b'u' ∷ b'n' ∷ b't' ∷ []

abbrev pub key_downloaded : Bytes
key_downloaded = b'd' ∷ b'o' ∷ b'w' ∷ b'n' ∷ b'l' ∷ b'o' ∷ b'a' ∷ b'd' ∷ b'e' ∷ b'd' ∷ []

abbrev pub key_uploaded : Bytes
key_uploaded = b'u' ∷ b'p' ∷ b'l' ∷ b'o' ∷ b'a' ∷ b'd' ∷ b'e' ∷ b'd' ∷ []

-- The dict that is saved, in the order in which it is built.
abbrev pub saved_dict : Bytes → Bytes → ℕ → ℕ → ℕ → Value
saved_dict hash bits count downloaded uploaded = dict (
    field key_info_hash (bytes hash) (
      field key_bitfield (bytes bits) (
        field key_piece_count (int (pos count)) (
          field key_downloaded (int (pos downloaded))
            (field key_uploaded (int (pos uploaded)) no_fields)))))

unfoldable pub save_resume : Bytes → IntSet → ℕ → ℕ → ℕ → Result Bytes
unfolding have_to_bitfield encode
save_resume hash have count downloaded uploaded =
    have_to_bitfield have count
    >>= (λ bits. encode (saved_dict hash bits count downloaded uploaded))

-- raw.get(key)
unfoldable pub lookup : Bytes → Fields → Option Value
unfolding bytes_eq
lookup key no_fields = none
lookup key (field k v fs) = if bytes_eq k key then some v else lookup key fs

-- saved_hash == info_hash
abbrev pub is_hash : Bytes → Option Value → Bool
is_hash hash (some (bytes b)) = bytes_eq b hash
is_hash hash _ = false

-- The piece count, 0 where there is none that is an int and positive.
abbrev pub count_of : Option Value → ℕ
count_of (some (int (pos n))) = n
count_of _ = 0

-- raw.get(b"bitfield", b""), where it is a byte string
abbrev pub bits_of : Option Value → Option Bytes
bits_of none = some []
bits_of (some (bytes b)) = some b
bits_of (some v) = none

-- raw.get(key, 0), and 0 where it is not an int
abbrev pub int_or_zero : Option Value → ℤ
int_or_zero (some (int z)) = z
int_or_zero _ = pos 0

abbrev pub load_bits : Bytes → Fields → ℕ → Option Bytes → Option ResumeData
load_bits hash fs zero bits = none
load_bits hash fs (suc n) none = none
load_bits hash fs (suc n) (some bits) = some (record {
  info_hash = hash;
  have = bitfield_to_have bits (suc n);
  downloaded = int_or_zero (lookup key_downloaded fs);
  uploaded = int_or_zero (lookup key_uploaded fs);
})

unfoldable pub load_dict : Bytes → Value → Option ResumeData
unfolding lookup bitfield_to_have
load_dict hash (dict fs) =
    if is_hash hash (lookup key_info_hash fs)
    then load_bits hash fs (count_of (lookup key_piece_count fs)) (bits_of (lookup key_bitfield fs))
    else none
load_dict hash v = none

-- except DecodeError: return None
abbrev pub none_on_error : Bytes → Result Value → Result (Option ResumeData)
none_on_error hash (ok v) = ok (load_dict hash v)
none_on_error hash (raised (decode_error m)) = ok none
none_on_error hash (raised e) = raised e

unfoldable pub load_resume : Option Bytes → Bytes → Result (Option ResumeData)
unfolding load_dict decode
load_resume none hash = ok none
load_resume (some file) hash = none_on_error hash (decode file)
