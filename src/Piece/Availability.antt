-- ===== src/Piece/Availability.antt =====
-- The counts of peers that have a piece, as peers join and leave: src/aiobt/piece.py.
use aiobt.Prelude.{ℕ, ◌+◌, ◌-◌, [], ◌∷◌, ◌==◌, if◌then◌else◌, ◌≡◌, arith}
use aiobt.Python.IntSet.{IntSet, has, IsDistinct}
use aiobt.Python.IntDict.{IntDict, get_count, put, get_count-pop, get_count-put}
use aiobt.Piece.{
  PieceTracker, count_up, count_down_one, count_down, update_availability, remove_availability,
}

-- How many peers are known to have piece i.
abbrev pub peers_with : PieceTracker → ℕ → ℕ
peers_with t i = get_count t.availability i

get_count-count_up :
    (d : IntDict) (s : IntSet) (i : ℕ)
    → IsDistinct s
    → get_count (count_up d s) i ≡ get_count d i + (if has i s then 1 else 0)
unfolding count_up has
get_count-count_up d [] i h = omega arith
get_count-count_up d (j ∷ s) i h = ground (
  arith,
  get_count-count_up (put d j (get_count d j + 1)) s i h.1,
  get_count-put d j (get_count d j + 1) i,
)

get_count-count_down_one :
    (d : IntDict) (i j : ℕ)
    → get_count (count_down_one d i) j ≡ get_count d j - (if i == j then 1 else 0)
unfolding count_down_one
get_count-count_down_one d i j =
    ground (arith, get_count-pop d i j, get_count-put d i (get_count d i - 1) j)

get_count-count_down :
    (d : IntDict) (s : IntSet) (i : ℕ)
    → IsDistinct s
    → get_count (count_down d s) i ≡ get_count d i - (if has i s then 1 else 0)
unfolding count_down has
get_count-count_down d [] i h = omega arith
get_count-count_down d (j ∷ s) i h =
    ground
      (arith, get_count-count_down (count_down_one d j) s i h.1, get_count-count_down_one d j i)

-- Each piece of the peer's set is counted once more, and no other.
pub update_availability_lem :
    (t : PieceTracker) (s : IntSet) (i : ℕ)
    → IsDistinct s
    → peers_with (update_availability t s) i ≡ peers_with t i + (if has i s then 1 else 0)
unfolding update_availability
update_availability_lem t s i h = get_count-count_up t.availability s i h

-- Each piece of the peer's set is counted once less, down to zero, and no other.
pub remove_availability_lem :
    (t : PieceTracker) (s : IntSet) (i : ℕ)
    → IsDistinct s
    → peers_with (remove_availability t s) i ≡ peers_with t i - (if has i s then 1 else 0)
unfolding remove_availability
remove_availability_lem t s i h = get_count-count_down t.availability s i h

-- A peer that leaves takes back exactly what it brought: after it joined with the set s, another
-- peer with the set r, and the first left, every count is what r alone makes of the old one.
pub remove-update_availability :
    (t : PieceTracker) (s r : IntSet) (i : ℕ)
    → IsDistinct s
    → IsDistinct r
    → peers_with (remove_availability (update_availability (update_availability t s) r) s) i
      ≡ peers_with (update_availability t r) i
remove-update_availability t s r i h k = omega (
  arith,
  remove_availability_lem (update_availability (update_availability t s) r) s i h,
  update_availability_lem (update_availability t s) r i k,
  update_availability_lem t s i h,
  update_availability_lem t r i k,
)
