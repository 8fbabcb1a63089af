-- ===== src/Bitfield.antt =====
-- Bit fields of piece indices: Bitfield.has_piece of src/aiobt/protocol.py, build_bitfield and
-- _bitfield_to_set of src/aiobt/engine.py, and the two conversions of src/aiobt/resume.py. The
-- proofs are in the modules below.
pub mod Bits
pub mod Laws
mod Examples
use Prim.Native.Nat.{bit_and, bit_or}
use aiobt.Prelude.{
  ℕ, zero, suc, ◌+◌, ◌-◌, ◌/◌, ◌%◌, ◌^◌, List, [], ◌∷◌, Bool, true, false, not, ◌&&◌, Option, none,
  some, ltb, ◌==◌, if◌then◌else◌, length, get_elem?, set, replicate,
}
use aiobt.Python.Bytes.{Bytes}
use aiobt.Python.Result.{Result, ok, raised, index_error, ◌>>=◌}
use aiobt.Python.IntSet.{IntSet}
use aiobt.Python.Range.{range_where}
use aiobt.Piece.{PieceTracker}

-- The bit of piece i within its byte: 1 << (7 - (i & 7)).
abbrev pub bit_of : ℕ → ℕ
bit_of i = 2 ^ (7 - i % 8)

-- byte & bit, as a truth value
abbrev pub is_set : ℕ → ℕ → Bool
is_set byte bit = not (bit_and byte bit == 0)

abbrev pub bit_at : Option ℕ → ℕ → Bool
bit_at none bit = false
bit_at (some byte) bit = is_set byte bit

-- Bitfield.has_piece; beyond the last byte there is no element to read.
unfoldable pub has_piece : Bytes → ℕ → Bool
has_piece bits i =
    if not (ltb (i / 8) (length bits)) then false else bit_at (get_elem? bits (i / 8)) (bit_of i)

-- The test of _bitfield_to_have.
unfoldable pub have_bit : Bytes → ℕ → Bool
have_bit bits i = ltb (i / 8) (length bits) && bit_at (get_elem? bits (i / 8)) (bit_of i)

-- buf[i >> 3] |= 1 << (7 - (i & 7)), on the byte that is there
abbrev pub or_bit : Bytes → ℕ → Option ℕ → Result Bytes
or_bit buf i none = raised index_error
or_bit buf i (some byte) = ok (set buf (i / 8) (bit_or byte (bit_of i)))

unfoldable pub set_bit : Bytes → ℕ → Result Bytes
set_bit buf i = or_bit buf i (get_elem? buf (i / 8))

-- The loop over the set.
unfoldable pub set_bits : Bytes → IntSet → Result Bytes
unfolding set_bit
set_bits buf [] = ok buf
set_bits buf (i ∷ s) = set_bit buf i >>= (λ buf'. set_bits buf' s)

-- resume._have_to_bitfield
unfoldable pub have_to_bitfield : IntSet → ℕ → Result Bytes
unfolding set_bits
have_to_bitfield have count = set_bits (replicate ((count + 7) / 8) 0) have

-- engine.build_bitfield
unfoldable pub build_bitfield : PieceTracker → Result Bytes
unfolding set_bits
build_bitfield t = set_bits (replicate ((t.piece_count + 7) / 8) 0) t.have

-- engine._bitfield_to_set
unfoldable pub bitfield_to_set : Bytes → ℕ → IntSet
unfolding has_piece range_where
bitfield_to_set bits count = range_where (has_piece bits) 0 count

-- resume._bitfield_to_have
unfoldable pub bitfield_to_have : Bytes → ℕ → IntSet
unfolding have_bit range_where
bitfield_to_have bits count = range_where (have_bit bits) 0 count
