-- ===== src/Bitfield/Laws.antt =====
-- Building and reading bit fields, of src/aiobt/engine.py and src/aiobt/resume.py.
use Prim.Native.Nat.{bit_or}
use mathlib.Core.Path.{fun_ext}
use aiobt.Prelude.{
  ℕ, zero, suc, ◌+◌, ◌-◌, ◌/◌, ◌%◌, ◌^◌, ◌<◌, ◌≤◌, [], ◌∷◌, Bool, true, false, ◌||◌, some, ltb,
  ◌==◌, if◌then◌else◌, length, length-set, length-replicate, get_elem?, get_elem?-set_self,
  get_elem?-set_ne, set, replicate, All, ◌≡◌, ◌∙◌, refl, arith, Bool-cases, inl, inr, subst, sym,
}
use aiobt.Python.Bytes.{Bytes}
use aiobt.Python.Result.{Result, ok}
use aiobt.Python.Struct.{AreBytes}
use aiobt.Python.IntSet.{IntSet, has}
use aiobt.Python.Range.{has-range_where}
use aiobt.Piece.{PieceTracker}
use aiobt.Bitfield.{
  bit_of, bit_at, has_piece, have_bit, set_bit, set_bits, have_to_bitfield, build_bitfield,
  bitfield_to_set, bitfield_to_have,
}
use aiobt.Bitfield.Bits.{is_set-bit_or, bit_or-lt, is_set-zero}

have_bit-has_piece : (bits : Bytes) (i : ℕ) → have_bit bits i ≡ has_piece bits i
unfolding have_bit has_piece
have_bit-has_piece bits i = ground arith

-- Within the field, a piece is there if its bit is set.
has_piece_within :
    (bits : Bytes) (i : ℕ)
    → i / 8 < length bits
    → has_piece bits i ≡ bit_at (get_elem? bits (i / 8)) (bit_of i)
unfolding has_piece
has_piece_within bits i h = ground arith

has_piece_beyond : (bits : Bytes) (i : ℕ) → length bits ≤ i / 8 → has_piece bits i ≡ false
unfolding has_piece
has_piece_beyond bits i h = ground arith

get_elem?-within :
    (b : Bytes) (i : ℕ) → AreBytes b → i < length b → (c : ℕ) × (get_elem? b i ≡ some c) × (c < 256)
get_elem?-within [] i a h = elim h [ ]
get_elem?-within (c ∷ b) zero a h = (c, refl, a.0)
get_elem?-within (c ∷ b) (suc i) a h = get_elem?-within b i a.1 (omega arith)

set-AreBytes : (b : Bytes) (i c : ℕ) → c < 256 → AreBytes b → AreBytes (set b i c)
set-AreBytes [] i c h a = tt
set-AreBytes (x ∷ b) zero c h a = (h, a.1)
set-AreBytes (x ∷ b) (suc i) c h a = (a.0, set-AreBytes b i c h a.1)

-- What setting the bit of piece i gives.
record OneBitSet (buf : Bytes) (i : ℕ) : Type 0 where
  result : Bytes
  set_bit_lem : set_bit buf i ≡ ok result
  same_length : length result ≡ length buf
  bytes : AreBytes result
  pieces : (j : ℕ) → has_piece result j ≡ (if i == j then true else has_piece buf j)

same_bit : (i j : ℕ) → i / 8 ≡ j / 8 → (7 - i % 8 == 7 - j % 8) ≡ (i == j)
same_bit i j h = ground arith

same_byte :
    (buf : Bytes) (i c j : ℕ)
    → i / 8 < length buf
    → c < 256
    → get_elem? buf (i / 8) ≡ some c
    → i / 8 ≡ j / 8
    → bit_at (get_elem? (set buf (i / 8) (bit_or c (bit_of i))) (j / 8)) (bit_of j)
      ≡ (if i == j then true else bit_at (get_elem? buf (j / 8)) (bit_of j))
same_byte buf i c j h small e k = rw (← k) (
    rw (get_elem?-set_self buf (i / 8) (bit_or c (bit_of i)) h, e)
      (rw (← (same_bit i j k))
        (is_set-bit_or c (7 - i % 8) (7 - j % 8) small (omega arith) (omega arith))))

set_bit-pieces :
    (buf : Bytes) (i c j : ℕ)
    → i / 8 < length buf
    → c < 256
    → get_elem? buf (i / 8) ≡ some c
    → has_piece (set buf (i / 8) (bit_or c (bit_of i))) j
      ≡ (if i == j then true else has_piece buf j)
set_bit-pieces buf i c j h small e =
    let v = bit_or c (bit_of i) in
    let same = length-set buf (i / 8) v in
    elim (Bool-cases (ltb (j / 8) (length buf))) [
      | inr out ↦
          rw
            (
              has_piece_beyond (set buf (i / 8) v) j (ground (arith, same)),
              has_piece_beyond buf j (ground arith),
            )
            (ground arith)
      | inl within ↦
          rw
            (
              has_piece_within (set buf (i / 8) v) j (ground (arith, same)),
              has_piece_within buf j (ground arith),
            )
            (elim (Bool-cases (i / 8 == j / 8)) [
              | inl k ↦ same_byte buf i c j h small e (ground arith)
              | inr k ↦
                  rw (get_elem?-set_ne buf {i = i / 8} {j = j / 8} v (ground arith)) (ground arith)
            ])
    ]

set_bit-OneBitSet : (buf : Bytes) (i : ℕ) → AreBytes buf → i / 8 < length buf → OneBitSet buf i
unfolding set_bit
set_bit-OneBitSet buf i a h =
    let (c, e, small) = get_elem?-within buf (i / 8) a h in
    record {
      result = set buf (i / 8) (bit_or c (bit_of i));
      set_bit_lem = rw e;
      same_length = length-set buf (i / 8) (bit_or c (bit_of i));
      bytes = set-AreBytes buf (i / 8) _ (bit_or-lt c (7 - i % 8) small (omega arith)) a;
      pieces = λ j. set_bit-pieces buf i c j h small e;
    }

-- What setting the bits of a set gives.
All-length : (s : IntSet) (n m : ℕ) → n ≡ m → All (λ i. i / 8 < n) s → All (λ i. i / 8 < m) s
All-length s n m e h = subst (λ k. All (λ i. i / 8 < k) s) e h

All-index : (s : IntSet) (count : ℕ) → All (λ i. i < count) s → All (λ i. i / 8 < (count + 7) / 8) s
All-index [] count h = tt
All-index (i ∷ s) count h = (omega arith, All-index s count h.1)

record AllBitsSet (buf : Bytes) (s : IntSet) : Type 0 where
  result : Bytes
  set_bits_lem : set_bits buf s ≡ ok result
  same_length : length result ≡ length buf
  pieces : (j : ℕ) → has_piece result j ≡ has j s || has_piece buf j

set_bits-AllBitsSet :
    (buf : Bytes) (s : IntSet) → AreBytes buf → All (λ i. i / 8 < length buf) s → AllBitsSet buf s
unfolding set_bits has
set_bits-AllBitsSet buf [] a h = record {
  result = buf;
  set_bits_lem = refl;
  same_length = refl;
  pieces = λ j. refl;
}
set_bits-AllBitsSet buf (i ∷ s) a h =
    let one = set_bit-OneBitSet buf i a h.0 in
    let rest =
      set_bits-AllBitsSet one.result s one.bytes
        (All-length s (length buf) (length one.result) (sym one.same_length) h.1) in
    record {
      result = rest.result;
      set_bits_lem = rw one.set_bit_lem rest.set_bits_lem;
      same_length = rest.same_length ∙ one.same_length;
      pieces = λ j. ground (arith, rest.pieces j, one.pieces j);
    }

zeros-AreBytes : (n : ℕ) → AreBytes (replicate n 0)
zeros-AreBytes zero = tt
zeros-AreBytes (suc n) = (omega arith, zeros-AreBytes n)

zeros-length : (n : ℕ) → length (replicate {A = ℕ} n 0) ≡ n
zeros-length n = length-replicate n 0

bit_at-zeros : (n i j : ℕ) → j < 8 → bit_at (get_elem? (replicate n 0) i) (2 ^ j) ≡ false
bit_at-zeros zero i j h = refl
bit_at-zeros (suc n) zero j h = is_set-zero j h
bit_at-zeros (suc n) (suc i) j h = bit_at-zeros n i j h

has_piece-zeros : (n j : ℕ) → has_piece (replicate n 0) j ≡ false
unfolding has_piece
has_piece-zeros n j = ground (arith, bit_at-zeros n (j / 8) (7 - j % 8) (omega arith))

-- The bit field of a set of pieces: it can be built, it has a byte for each eight pieces, and it
-- holds the pieces of the set and no other, spare bits included.
abbrev pub FieldOf : IntSet → ℕ → Result Bytes → Type 0
FieldOf have count r =
    (bits : Bytes) × (r ≡ ok bits)
    × (length bits ≡ (count + 7) / 8)
    × ((i : ℕ) → has_piece bits i ≡ has i have)

or-false : (b : Bool) → b || false ≡ b
or-false b = ground arith

set_bits-FieldOf :
    (have : IntSet) (count : ℕ)
    → All (λ i. i < count) have
    → FieldOf have count (set_bits (replicate ((count + 7) / 8) 0) have)
set_bits-FieldOf have count h =
    let n = (count + 7) / 8 in
    let all =
      set_bits-AllBitsSet (replicate n 0) have (zeros-AreBytes n)
        (rw (zeros-length n) (All-index have count h)) in
    (
      all.result,
      all.set_bits_lem,
      all.same_length ∙ zeros-length n,
      λ i. rw (all.pieces i) (rw (has_piece-zeros n i) (or-false (has i have))),
    )

has-false : (s : IntSet) (n i : ℕ) → All (λ j. j < n) s → n ≤ i → has i s ≡ false
unfolding has
has-false [] n i h k = refl
has-false (j ∷ s) n i h k = ground (arith, has-false s n i h.1)

have_bit-eq : (bits : Bytes) → have_bit bits ≡ has_piece bits
have_bit-eq bits = fun_ext (have_bit-has_piece bits)

-- Reading a field of `FieldOf` back gives a set with the same pieces.
read-FieldOf :
    (have : IntSet) (count : ℕ) (bits : Bytes)
    → All (λ i. i < count) have
    → ((i : ℕ) → has_piece bits i ≡ has i have)
    → (i : ℕ) → has i (bitfield_to_set bits count) ≡ has i have
unfolding bitfield_to_set
read-FieldOf have count bits h p i =
    ground (arith, has-range_where (has_piece bits) 0 count i, p i, has-false have count i h)

-- The bit field that a tracker announces can be built where its pieces are within its count, has a
-- byte for each eight pieces, holds the pieces that are had and no other bit, and a peer that reads
-- it gets the pieces that are had.
pub build_bitfield_lem :
    (t : PieceTracker)
    → All (λ i. i < t.piece_count) t.have
    → (bits : Bytes) × (build_bitfield t ≡ ok bits)
      × (length bits ≡ (t.piece_count + 7) / 8)
      × ((i : ℕ) → has_piece bits i ≡ has i t.have)
      × ((i : ℕ) → has i (bitfield_to_set bits t.piece_count) ≡ has i t.have)
unfolding build_bitfield
build_bitfield_lem t h =
    let (bits, e, n, p) = set_bits-FieldOf t.have t.piece_count h in
    (bits, e, n, p, read-FieldOf t.have t.piece_count bits h p)

-- A set of pieces within the count that is saved as a bit field can be built, and loads as a set
-- with the same pieces.
pub bitfield_to_have-have_to_bitfield :
    (have : IntSet) (count : ℕ)
    → All (λ i. i < count) have
    → (bits : Bytes) × (have_to_bitfield have count ≡ ok bits)
      × ((i : ℕ) → has i (bitfield_to_have bits count) ≡ has i have)
unfolding have_to_bitfield
bitfield_to_have-have_to_bitfield have count h =
    let (bits, e, n, p) = set_bits-FieldOf have count h in
    (
      bits,
      e,
      λ i.
          unfold bitfield_to_have in
          rw (have_bit-eq bits) (unfold bitfield_to_set in read-FieldOf have count bits h p i),
    )
