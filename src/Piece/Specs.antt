-- ===== src/Piece/Specs.antt =====
-- The pieces of a torrent and where they lie: _build_specs of src/aiobt/piece.py.
use native.Mathlib.Nat.{div-add-mod, mod-lt, mul_comm}
use aiobt.Prelude.{
  ◌%◌, ℕ, zero, suc, ◌+◌, ◌-◌, ◌*◌, ◌/◌, ◌<◌, ◌≤◌, min, List, [], ◌∷◌, some, none, length,
  get_elem?, ◌≡◌, refl, ap, arith,
}
use aiobt.Python.Bytes.{Bytes}
use aiobt.Python.Result.{ok, subst_ok, raised, index_error}
use aiobt.Piece.{PieceSpec, PieceTracker, hash_slice, build_specs, count_pieces, new_tracker, spec}

-- The piece count is the ceiling of total / pl: the pieces reach the end, and each starts before it.
count_reaches : (pl total : ℕ) → 0 < pl → total ≤ count_pieces pl total * pl
count_reaches pl total h = grind (arith, div-add-mod total pl, mod-lt total h)

mul_le : (a b c : ℕ) → a ≤ b → a * c ≤ b * c
mul_le a b c h = grind arith

count_starts : (pl total i : ℕ) → 0 < pl → i < count_pieces pl total → i * pl < total
count_starts pl total i h lt =
    ground (arith, div-add-mod total pl, mul_le i (total / pl) pl, mul_le (i + 1) (total / pl) pl)

abbrev pub spec_at : ℕ → ℕ → Bytes → ℕ → PieceSpec
spec_at pl total raw i = record {
  index = i;
  offset = i * pl;
  length = min pl (total - i * pl);
  hash = hash_slice raw i;
}

length-build_specs :
    (pl total : ℕ) (raw : Bytes) (n i offset : ℕ) → length (build_specs pl total raw n i offset) ≡ n
unfolding build_specs
length-build_specs pl total raw zero i offset = refl
length-build_specs pl total raw (suc n) i offset =
    ap suc (length-build_specs pl total raw n (i + 1) (offset + min pl (total - offset)))

-- The loop starts piece m at m times the piece length, while that is within the data.
get_elem?-build_specs :
    (pl total : ℕ) (raw : Bytes) (n i offset j m : ℕ)
    → j < n
    → i + j ≡ m
    → m * pl < total
    → offset ≡ i * pl
    → get_elem? (build_specs pl total raw n i offset) j ≡ some (spec_at pl total raw m)
unfolding build_specs
get_elem?-build_specs pl total raw zero i offset j m h s k e = elim h [ ]
get_elem?-build_specs pl total raw (suc n) i offset zero m h s k e =
    let same : i ≡ m = omega arith in cc
get_elem?-build_specs pl total raw (suc n) i offset (suc j) m h s k e =
    get_elem?-build_specs pl total raw n (i + 1) (offset + min pl (total - offset)) j m
      (omega arith) (omega arith) k (omega (arith, mul_le (i + 1) m pl (omega arith)))

abbrev pub total_of : List PieceSpec → ℕ
total_of [] = 0
total_of (s ∷ l) = s.length + total_of l

total_of-build_specs :
    (pl total : ℕ) (raw : Bytes) (n i offset : ℕ)
    → offset ≡ min (i * pl) total
    → offset + total_of (build_specs pl total raw n i offset) ≡ min ((i + n) * pl) total
unfolding build_specs
total_of-build_specs pl total raw zero i offset e = omega arith
total_of-build_specs pl total raw (suc n) i offset e =
    let rest =
      total_of-build_specs pl total raw n (i + 1) (offset + min pl (total - offset))
        (omega arith) in
    omega (arith, rest)

get_elem?-beyond {ℓ} : {A : Type ℓ} (l : List A) (i : ℕ) → length l ≤ i → get_elem? l i ≡ none
get_elem?-beyond [] i h = refl
get_elem?-beyond (x ∷ l) zero h = absurd (omega arith)
get_elem?-beyond (x ∷ l) (suc i) h = get_elem?-beyond l i (omega arith)

-- What `spec` gives at an index of a new tracker: within the count, the piece that starts at the
-- index times the piece length, inside the data, not empty, and no longer than a piece; from the
-- count on, an IndexError.
abbrev pub SpecIs : ℕ → ℕ → Bytes → PieceTracker → ℕ → Type 0
SpecIs pl total raw t i =
    (i < t.piece_count
      → (spec t i ≡ ok (spec_at pl total raw i)) × (i * pl < total) × (0 < min pl (total - i * pl)))
    × (t.piece_count ≤ i → spec t i ≡ raised index_error)

-- In a new tracker piece i lies at offset i * piece_length, with the length that is left of the
-- data up to piece_length, never 0, and its slice of the hashes; from the piece count on there is
-- no piece. A piece length of zero is a ZeroDivisionError.
pub new_tracker-spec :
    (pl total : ℕ) (raw : Bytes) {t : PieceTracker} (i : ℕ)
    → new_tracker pl total raw ≡ ok t
    → SpecIs pl total raw t i
unfolding new_tracker spec
new_tracker-spec zero total raw i h = cc
new_tracker-spec (suc p) total raw i h =
    subst_ok (λ t. SpecIs (suc p) total raw t i) h
      (let count = count_pieces (suc p) total in
        (
          (λ lt.
              let start = count_starts (suc p) total i (omega arith) lt in
              (
                rw (
                    get_elem?-build_specs (suc p) total raw count 0 0 i i lt (omega arith) start
                      (omega arith)),
                start,
                omega arith,
              )),
          (λ le. rw (
              get_elem?-beyond (build_specs (suc p) total raw count 0 0) i
                (omega (arith, length-build_specs (suc p) total raw count 0 0)))),
        ))

-- The pieces of a new tracker cover the data: as many as the piece count says, their lengths add up
-- to the total length.
pub new_tracker-total :
    (pl total : ℕ) (raw : Bytes) {t : PieceTracker}
    → new_tracker pl total raw ≡ ok t
    → (length t.specs ≡ t.piece_count) × (total_of t.specs ≡ total)
unfolding new_tracker
new_tracker-total zero total raw h = cc
new_tracker-total (suc p) total raw h =
    let count = count_pieces (suc p) total in
    let whole = total_of-build_specs (suc p) total raw count 0 0 (omega arith) in
    subst_ok (λ t. (length t.specs ≡ t.piece_count) × (total_of t.specs ≡ total)) h
      (
        length-build_specs (suc p) total raw count 0 0,
        omega (arith, whole, count_reaches (suc p) total (omega arith)),
      )

covers_at :
    (pl total j : ℕ)
    → 0 < pl
    → j < total
    → (0 < pl) × (j / pl < count_pieces pl total) × (j / pl * pl + j % pl ≡ j) × (j % pl < pl)
covers_at pl total j p lt =
    let reached = count_reaches pl total p in
    let parts = div-add-mod j pl in
    (
      p,
      ground
          (arith, parts, reached, mul_le (count_pieces pl total) (j / pl) pl, mul_comm pl (j / pl)),
      omega (arith, parts, mul_comm pl (j / pl)),
      mod-lt j p,
    )

-- Each position of the data lies in a piece of a new tracker.
pub new_tracker-covers :
    (pl total : ℕ) (raw : Bytes) (j : ℕ) {t : PieceTracker}
    → new_tracker pl total raw ≡ ok t
    → j < total
    → (0 < pl) × (j / pl < t.piece_count) × (j / pl * pl + j % pl ≡ j) × (j % pl < pl)
unfolding new_tracker
new_tracker-covers zero total raw j h lt = cc
new_tracker-covers (suc p) total raw j h lt =
    subst_ok
      (λ t.
        (0 < suc p)
        × (j / suc p < t.piece_count)
        × (j / suc p * suc p + j % suc p ≡ j)
        × (j % suc p < suc p))
      h (covers_at (suc p) total j (omega arith) lt)
