-- ===== src/Piece/Marks.antt =====
-- The sets of pieces and the marks that change them: src/aiobt/piece.py.
use aiobt.Prelude.{
  ℕ, zero, suc, ◌<◌, List, [], ◌∷◌, Bool, true, false, ◌==◌, ==_iff, if◌then◌else◌, All, ◌≡◌, ◌↔◌,
  refl,
}
use aiobt.Python.Bytes.{Bytes}
use aiobt.Python.Result.{ok, subst_ok}
use aiobt.Python.IntSet.{
  IntSet, has, add, discard, IsDistinct, has-add, has-discard, add-IsDistinct, discard-IsDistinct,
  All-add, All-discard, has-All, length_of_All,
}
use aiobt.Piece.{PieceTracker, new_tracker, is_complete, mark_have, mark_pending, mark_failed}

abbrev Below : ℕ → IntSet → Type 0
Below n s = IsDistinct s × All (λ i. i < n) s

-- The three sets hold piece indices, none twice.
pub record IsValid (t : PieceTracker) : Type 0 where
  pub have : Below t.piece_count t.have
  pub pending : Below t.piece_count t.pending
  pub failed : Below t.piece_count t.failed

add-Below : (n i : ℕ) (s : IntSet) → i < n → Below n s → Below n (add i s)
add-Below n i s h (d, b) = (add-IsDistinct i s d, All-add (λ j. j < n) i s h b)

discard-Below : (n i : ℕ) (s : IntSet) → Below n s → Below n (discard i s)
discard-Below n i s (d, b) = (discard-IsDistinct i s d, All-discard (λ j. j < n) i s b)

pub data Mark : Type 0 where
  have pending failed : ℕ → Mark

-- One call of mark_have, mark_pending or mark_failed.
unfoldable pub apply_mark : PieceTracker → Mark → PieceTracker
unfolding mark_have mark_pending mark_failed
apply_mark t (have i) = mark_have t i
apply_mark t (pending i) = mark_pending t i
apply_mark t (failed i) = mark_failed t i

abbrev index_of : Mark → ℕ
index_of (have i) = i
index_of (pending i) = i
index_of (failed i) = i

unfoldable pub apply_marks : PieceTracker → List Mark → PieceTracker
unfolding apply_mark
apply_marks t [] = t
apply_marks t (m ∷ ms) = apply_marks (apply_mark t m) ms

piece_count-apply_mark :
    (t : PieceTracker) (m : Mark) → (apply_mark t m).piece_count ≡ t.piece_count
unfolding apply_mark
piece_count-apply_mark t (have i) = refl
piece_count-apply_mark t _ = refl

apply_mark-IsValid :
    (t : PieceTracker) (m : Mark)
    → index_of m < t.piece_count
    → IsValid t
    → IsValid (apply_mark t m)
unfolding apply_mark
apply_mark-IsValid t (have i) h v = record {
  have = add-Below _ i t.have h v.have;
  pending = discard-Below _ i t.pending v.pending;
  failed = discard-Below _ i t.failed v.failed;
}
apply_mark-IsValid t (pending i) h v = record {
  have = v.have;
  pending = add-Below _ i t.pending h v.pending;
  failed = v.failed;
}
apply_mark-IsValid t (failed i) h v = record {
  have = v.have;
  pending = discard-Below _ i t.pending v.pending;
  failed = add-Below _ i t.failed h v.failed;
}

apply_marks-IsValid :
    (t : PieceTracker) (ms : List Mark)
    → All (λ m. index_of m < t.piece_count) ms
    → IsValid t
    → IsValid (apply_marks t ms) × ((apply_marks t ms).piece_count ≡ t.piece_count)
unfolding apply_marks
apply_marks-IsValid t [] h v = (v, refl)
apply_marks-IsValid t (m ∷ ms) h v =
    let same = piece_count-apply_mark t m in
    let (v', e) =
      apply_marks-IsValid (apply_mark t m) ms (rw same h.1) (apply_mark-IsValid t m h.0 v) in
    (v', rw e same)

new_tracker-IsValid :
    (pl total : ℕ) (raw : Bytes) {t : PieceTracker} → new_tracker pl total raw ≡ ok t → IsValid t
unfolding new_tracker
new_tracker-IsValid zero total raw h = cc
new_tracker-IsValid (suc p) total raw h =
    subst_ok IsValid h (record { have = (tt, tt); pending = (tt, tt); failed = (tt, tt) })

-- Whatever marks follow on a new tracker, with indices of pieces, its three sets hold piece indices
-- and none twice.
reachable-IsValid :
    (pl total : ℕ) (raw : Bytes) (ms : List Mark) {t : PieceTracker}
    → new_tracker pl total raw ≡ ok t
    → All (λ m. index_of m < t.piece_count) ms
    → IsValid (apply_marks t ms)
reachable-IsValid pl total raw ms {t} h a =
    (apply_marks-IsValid t ms a (new_tracker-IsValid pl total raw h)).0

-- In a valid tracker `is_complete` holds exactly when every piece is had.
pub is_complete_iff :
    (t : PieceTracker)
    → IsValid t
    → (is_complete t ≡ true) ↔ ((i : ℕ) → i < t.piece_count → has i t.have ≡ true)
unfolding is_complete
is_complete_iff t v = (
  λ e i h. has-All t.piece_count t.have i v.have.0 v.have.1 ((==_iff _ _).0 e) h,
  λ k. (==_iff _ _).1 (length_of_All t.piece_count t.have v.have.0 v.have.1 k),
)

-- The sets after a mark: what becomes of piece j.
abbrev pub had_after : PieceTracker → Mark → ℕ → Bool
had_after t (have i) j = if i == j then true else has j t.have
had_after t _ j = has j t.have

abbrev pub pending_after : PieceTracker → Mark → ℕ → Bool
pending_after t (pending i) j = if i == j then true else has j t.pending
pending_after t (have i) j = if i == j then false else has j t.pending
pending_after t (failed i) j = if i == j then false else has j t.pending

abbrev pub failed_after : PieceTracker → Mark → ℕ → Bool
failed_after t (failed i) j = if i == j then true else has j t.failed
failed_after t (have i) j = if i == j then false else has j t.failed
failed_after t (pending i) j = has j t.failed

-- After mark_have a piece is had, and neither pending nor failed; after mark_failed it is failed
-- and not pending, and had as before; after mark_pending it is pending, and had and failed as
-- before. Every other piece is in the same sets as before.
pub apply_mark_lem :
    (t : PieceTracker) (m : Mark) (j : ℕ)
    → (has j (apply_mark t m).have ≡ had_after t m j)
      × (has j (apply_mark t m).pending ≡ pending_after t m j)
      × (has j (apply_mark t m).failed ≡ failed_after t m j)
unfolding apply_mark
apply_mark_lem t (have i) j =
    (has-add i j t.have, has-discard i j t.pending, has-discard i j t.failed)
apply_mark_lem t (pending i) j = (refl, has-add i j t.pending, refl)
apply_mark_lem t (failed i) j = (refl, has-discard i j t.pending, has-add i j t.failed)
