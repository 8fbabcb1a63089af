-- ===== src/Piece.antt =====
-- src/aiobt/piece.py: PieceSpec and PieceTracker. Sizes are taken to be non-negative; the hash of
-- a piece is its slice of the hashes' string. The proofs are in the modules below.
pub mod Specs
pub mod Availability
pub mod Marks
pub mod History
pub mod Select
mod Examples
use aiobt.Prelude.{
  ℕ, zero, suc, ◌+◌, ◌-◌, ◌*◌, ◌/◌, ◌%◌, min, List, [], ◌∷◌, Bool, not, ◌&&◌, Option, none, some,
  ◌==◌, leb, if◌then◌else◌, length, take, drop, get_elem?,
}
use aiobt.Python.Bytes.{Bytes, bytes_eq}
use aiobt.Python.Result.{Result, ok, raised, zero_division_error, index_error}
use aiobt.Python.IntSet.{IntSet, has, add, discard}
use aiobt.Python.IntDict.{IntDict, get_count, pop, put}
use aiobt.Python.Range.{range_where, sort_by, by_key}

pub record PieceSpec : Type 0 where
  pub index : ℕ
  pub offset : ℕ
  pub length : ℕ
  pub hash : Bytes

pub record PieceTracker : Type 0 where
  pub piece_length : ℕ
  pub total_length : ℕ
  pub pieces_raw : Bytes
  pub piece_count : ℕ
  pub specs : List PieceSpec
  pub have : IntSet
  pub pending : IntSet
  pub failed : IntSet
  pub availability : IntDict

-- pieces_raw[i * 20 : (i + 1) * 20]
abbrev pub hash_slice : Bytes → ℕ → Bytes
hash_slice raw i = take 20 (drop (i * 20) raw)

-- The loop of `_build_specs` with n rounds left, at index i and the given offset.
unfoldable pub build_specs : ℕ → ℕ → Bytes → ℕ → ℕ → ℕ → List PieceSpec
build_specs pl total raw zero i offset = []
build_specs pl total raw (suc n) i offset =
    let len = min pl (total - offset) in
    record { index = i; offset = offset; length = len; hash = hash_slice raw i }
    ∷ build_specs pl total raw n (i + 1) (offset + len)

-- full + (1 if remainder else 0)
abbrev pub count_pieces : ℕ → ℕ → ℕ
count_pieces pl total = total / pl + (if total % pl == 0 then 0 else 1)

-- PieceTracker(piece_length, total_length, pieces_raw)
unfoldable pub new_tracker : ℕ → ℕ → Bytes → Result PieceTracker
unfolding build_specs
new_tracker zero total raw = raised zero_division_error
new_tracker (suc p) total raw =
    let count = count_pieces (suc p) total in
    ok (record {
      piece_length = suc p;
      total_length = total;
      pieces_raw = raw;
      piece_count = count;
      specs = build_specs (suc p) total raw count 0 0;
      have = [];
      pending = [];
      failed = [];
      availability = [];
    })

unfoldable pub is_complete : PieceTracker → Bool
is_complete t = length t.have == t.piece_count

abbrev pub or_index_error {ℓ} : {A : Type ℓ} → Option A → Result A
or_index_error none = raised index_error
or_index_error (some a) = ok a

unfoldable pub spec : PieceTracker → ℕ → Result PieceSpec
spec t i = or_index_error (get_elem? t.specs i)

unfoldable pub mark_have : PieceTracker → ℕ → PieceTracker
unfolding add discard
mark_have t i = record t {
  have = add i t.have;
  pending = discard i t.pending;
  failed = discard i t.failed;
}

unfoldable pub mark_pending : PieceTracker → ℕ → PieceTracker
unfolding add
mark_pending t i = record t { pending = add i t.pending }

unfoldable pub mark_failed : PieceTracker → ℕ → PieceTracker
unfolding add discard
mark_failed t i = record t { pending = discard i t.pending; failed = add i t.failed }

-- The loop of `update_availability`, over the peer's set.
unfoldable pub count_up : IntDict → IntSet → IntDict
unfolding get_count put
count_up d [] = d
count_up d (i ∷ s) = count_up (put d i (get_count d i + 1)) s

unfoldable pub update_availability : PieceTracker → IntSet → PieceTracker
unfolding count_up
update_availability t s = record t { availability = count_up t.availability s }

-- One round of `remove_availability`.
unfoldable pub count_down_one : IntDict → ℕ → IntDict
unfolding get_count put pop
count_down_one d i = if leb (get_count d i) 1 then pop d i else put d i (get_count d i - 1)

unfoldable pub count_down : IntDict → IntSet → IntDict
unfolding count_down_one
count_down d [] = d
count_down d (i ∷ s) = count_down (count_down_one d i) s

unfoldable pub remove_availability : PieceTracker → IntSet → PieceTracker
unfolding count_down
remove_availability t s = record t { availability = count_down t.availability s }

-- i not in self._have and i not in self._pending
abbrev pub is_candidate : PieceTracker → ℕ → Bool
is_candidate t i = not (has i t.have) && not (has i t.pending)

unfoldable pub candidates : PieceTracker → List ℕ
unfolding range_where has
candidates t = range_where (is_candidate t) 0 t.piece_count

abbrev pub first : List ℕ → Option ℕ
first [] = none
first (i ∷ l) = some i

unfoldable pub select_piece : PieceTracker → Option ℕ
unfolding candidates sort_by get_count
select_piece t = first (sort_by (by_key (get_count t.availability)) (candidates t))

-- `sha1` is hashlib's digest.
unfoldable pub verify_piece : (Bytes → Bytes) → Bytes → Bytes → Bool
unfolding bytes_eq
verify_piece sha1 block expected_hash = bytes_eq (sha1 block) expected_hash
