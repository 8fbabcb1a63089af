-- ===== src/Bitfield/Examples.antt =====
-- A bit field of ten pieces, and the theorems of the modules beside this one at it.
use aiobt.Prelude.{ℕ, ◌<◌, ◌+◌, ◌/◌, [], ◌∷◌, All, length, ◌≡◌, refl, arith}
use aiobt.Python.Bytes.{Bytes}
use aiobt.Python.Result.{ok}
use aiobt.Python.IntSet.{has}
use aiobt.Piece.{PieceTracker}
use aiobt.Bitfield.{has_piece, build_bitfield, bitfield_to_set}
use aiobt.Bitfield.Laws.{build_bitfield_lem}

abbrev held : PieceTracker
held = record {
  piece_length = 4;
  total_length = 38;
  pieces_raw = [];
  piece_count = 10;
  specs = [];
  have = 9 ∷ 0 ∷ 3 ∷ [];
  pending = [];
  failed = [];
  availability = [];
}

build_held : build_bitfield held ≡ ok (144 ∷ 64 ∷ [])
unfolding build_bitfield
build_held = refl

read_held : bitfield_to_set (144 ∷ 64 ∷ []) 10 ≡ 0 ∷ 3 ∷ 9 ∷ []
unfolding bitfield_to_set
read_held = refl

held_within : All (λ i. i < 10) (held.have)
held_within = (omega arith, (omega arith, (omega arith, tt)))

build_bitfield_lem_example :
    (bits : Bytes) × (build_bitfield held ≡ ok bits)
    × (length bits ≡ (10 + 7) / 8)
    × ((i : ℕ) → has_piece bits i ≡ has i held.have)
    × ((i : ℕ) → has i (bitfield_to_set bits 10) ≡ has i held.have)
build_bitfield_lem_example = build_bitfield_lem held held_within
