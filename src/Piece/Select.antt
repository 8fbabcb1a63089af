-- ===== src/Piece/Select.antt =====
-- Rarest first: select_piece of src/aiobt/piece.py.
use aiobt.Prelude.{
  ◌≤◌, ℕ, ◌<◌, List, [], ◌∷◌, true, false, Option, none, some, ◌==◌, ==_iff, All, ◌≡◌, ◌↔◌, inl,
  inr, refl, arith, Bool-cases, sym, subst,
}
use aiobt.Python.IntSet.{has}
use aiobt.Python.Range.{
  sort_by, by_key, Precedes, has-range_where, range_where-IsAscending, sort_by-IsFirst,
  insert_by-ne, insert_by,
}
use aiobt.Piece.{PieceTracker, is_candidate, candidates, first, select_piece}
use aiobt.Piece.Availability.{peers_with}

-- A piece that select_piece may give.
abbrev pub IsWanted : PieceTracker → ℕ → Type 0
IsWanted t i = (i < t.piece_count) × (has i t.have ≡ false) × (has i t.pending ≡ false)

has-candidates : (t : PieceTracker) (i : ℕ) → (has i (candidates t) ≡ true) ↔ IsWanted t i
unfolding candidates
has-candidates t i = (
  λ e. ground (arith, has-range_where (is_candidate t) 0 t.piece_count i),
  λ w. ground (arith, has-range_where (is_candidate t) 0 t.piece_count i),
)

-- An element of a list for which something holds.
All-has : (P : ℕ → Type 0) (l : List ℕ) (i : ℕ) → All P l → has i l ≡ true → P i
unfolding has
All-has P [] i a h = cc
All-has P (j ∷ l) i a h = elim (Bool-cases (i == j)) [
  | inl e ↦ subst P (sym ((==_iff i j).0 e)) a.0
  | inr e ↦ All-has P l i a.1 (rw e at h)
]

first-cases : (l : List ℕ) {x : ℕ} → first l ≡ some x → (r : List ℕ) × (l ≡ x ∷ r)
first-cases [] e = cc
first-cases (y ∷ l) e = (l, cc)

sort_by-nil : (key : ℕ → ℕ) (l : List ℕ) → first (sort_by (by_key key) l) ≡ none → l ≡ []
unfolding sort_by
sort_by-nil key [] e = refl
sort_by-nil key (x ∷ l) e = absurd (go (insert_by (by_key key) x (sort_by (by_key key) l)) refl)
  where
    go : (s : List ℕ) → insert_by (by_key key) x (sort_by (by_key key) l) ≡ s → ⊥
    go [] q = insert_by-ne (by_key key) x (sort_by (by_key key) l) q
    go (z ∷ s) q = cc (rw q at e)

-- What select_piece returns: a wanted piece that the fewest peers have, of several such the one
-- with the least index; or nothing, and then no piece is wanted.
abbrev pub SelectIs : PieceTracker → Option ℕ → Type 0
SelectIs t none = (i : ℕ) → IsWanted t i → ⊥
SelectIs t (some i) = IsWanted t i × ((j : ℕ) → IsWanted t j → Precedes (peers_with t) i j)

-- The choice of a stable sort by availability.
pub select_piece-SelectIs : (t : PieceTracker) → SelectIs t (select_piece t)
unfolding select_piece
select_piece-SelectIs t = go (sort_by (by_key (peers_with t)) (candidates t)) refl
  where
    go : (s : List ℕ) → sort_by (by_key (peers_with t)) (candidates t) ≡ s → SelectIs t (first s)
    go [] q = λ i w. none-wanted i ((has-candidates t i).1 w)
      where
        none-wanted : (i : ℕ) → has i (candidates t) ≡ true → ⊥
        none-wanted i m = cc (rw (sort_by-nil (peers_with t) (candidates t) (rw q)) at m)
    go (x ∷ r) q =
        let f =
          sort_by-IsFirst (peers_with t) (candidates t)
            (unfold candidates in range_where-IsAscending (is_candidate t) 0 t.piece_count) q in
        (
          (has-candidates t x).0 f.member,
          λ j w.
              All-has (Precedes (peers_with t) x) (candidates t) j f.least
                ((has-candidates t j).1 w),
        )

-- A piece that is rarest among the wanted ones; or nothing, and then no piece is wanted.
abbrev pub RarestIs : PieceTracker → Option ℕ → Type 0
RarestIs t none = (i : ℕ) → IsWanted t i → ⊥
RarestIs t (some i) = IsWanted t i × ((j : ℕ) → IsWanted t j → peers_with t i ≤ peers_with t j)

RarestIs-of_SelectIs : (t : PieceTracker) (o : Option ℕ) → SelectIs t o → RarestIs t o
RarestIs-of_SelectIs t none h = h
RarestIs-of_SelectIs t (some i) h = (h.0, λ j w. omega (arith, h.1 j w))

-- select_piece gives nothing exactly when every piece is had or pending; else it gives a piece that
-- is neither, such that no other such piece is known from fewer peers.
pub select_piece_lem : (t : PieceTracker) → RarestIs t (select_piece t)
select_piece_lem t = RarestIs-of_SelectIs t (select_piece t) (select_piece-SelectIs t)
