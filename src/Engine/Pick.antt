-- ===== src/Engine/Pick.antt =====
-- The loop of _start_piece of src/aiobt/engine.py: that it ends, and what it finds.
use aiobt.Python.Result.{ok, Result}
use mathlib.Core.Path.{fun_ext}
use aiobt.Piece.Select.{select_piece-SelectIs, SelectIs, IsWanted}
use aiobt.Engine.Start.{find_piece, skip_failed}
use aiobt.Python.IntSet.{has-add, has-discard, discard, has, IntSet}
use aiobt.Piece.{is_candidate, select_piece, mark_failed, mark_pending, candidates, PieceTracker}
use aiobt.Python.Range.{range_where}
use aiobt.Prelude.{
  some-injective, subst, none, ◌≤◌, some, true-ne-false, not, sym, ==_iff, inr, inl, ap, Bool-cases,
  refl, ◌∙◌, Option, arith, ltb, ◌&&◌, leb, false, ◌==◌, true, if◌then◌else◌, ◌≡◌, length, Bool, ℕ,
  zero, suc, ◌+◌,
}

-- The number of pieces that may be selected falls when one of them is no longer wanted.
abbrev pub count_candidates : PieceTracker → ℕ
count_candidates t = length (candidates t)

range_where-fewer :
    (p q : ℕ → Bool) (i n k : ℕ)
    → ((j : ℕ) → p j ≡ (if k == j then false else q j))
    → length (range_where p i n) + (if leb i k && (ltb k (i + n) && q k) then 1 else 0)
      ≡ length (range_where q i n)
unfolding range_where
range_where-fewer p q i zero k h = ground arith
range_where-fewer p q i (suc n) k h = ground (arith, h i, h k, range_where-fewer p q (i + 1) n k h)

-- What the rounds do to a tracker: only pieces that the peer lacks become pending.
pub record Skipped (t u : PieceTracker) (peer_pieces : IntSet) : Type 0 where
  pub same_have : u.have ≡ t.have
  pub same_count : u.piece_count ≡ t.piece_count
  pub same_specs : u.specs ≡ t.specs
  pub kept : (j : ℕ) → has j t.pending ≡ true → has j u.pending ≡ true
  pub skipped :
      (j : ℕ) → has j u.pending ≡ true → has j t.pending ≡ false → has j peer_pieces ≡ false

Skipped-refl : (t : PieceTracker) (peer_pieces : IntSet) → Skipped t t peer_pieces
Skipped-refl t peer_pieces = record {
  same_have = refl;
  same_count = refl;
  same_specs = refl;
  kept = λ j h. h;
  skipped = λ j h k. cc;
}

Skipped-trans :
    (t u v : PieceTracker) (peer_pieces : IntSet)
    → Skipped t u peer_pieces
    → Skipped u v peer_pieces
    → Skipped t v peer_pieces
Skipped-trans t u v peer_pieces a b = record {
  same_have = b.same_have ∙ a.same_have;
  same_count = b.same_count ∙ a.same_count;
  same_specs = b.same_specs ∙ a.same_specs;
  kept = λ j h. b.kept j (a.kept j h);
  skipped = λ j h k. elim (Bool-cases (has j u.pending)) [
    | inl e ↦ a.skipped j e k
    | inr e ↦ b.skipped j h e
  ];
}

mark_pending-Skipped :
    (t : PieceTracker) (peer_pieces : IntSet) (i : ℕ)
    → has i peer_pieces ≡ false
    → Skipped t (mark_pending t i) peer_pieces
unfolding mark_pending
mark_pending-Skipped t peer_pieces i h = record {
  same_have = refl;
  same_count = refl;
  same_specs = refl;
  kept = λ j k. ground (arith, has-add i j t.pending);
  skipped = λ j k m. grind (arith, has-add i j t.pending, ==_iff);
}

-- A piece that is not pending and is marked failed changes nothing that selection or skipping reads.
discard-same : (i j : ℕ) (s : IntSet) → has i s ≡ false → has j (discard i s) ≡ has j s
discard-same i j s h = has-discard i j s ∙ elim (Bool-cases (i == j)) [
  | inr e ↦ rw e refl
  | inl e ↦ rw e (sym h ∙ ap (λ k. has k s) ((==_iff i j).0 e))
]

mark_failed-Skipped :
    (t : PieceTracker) (peer_pieces : IntSet) (i : ℕ)
    → has i t.pending ≡ false
    → Skipped t (mark_failed t i) peer_pieces
unfolding mark_failed
mark_failed-Skipped t peer_pieces i h = record {
  same_have = refl;
  same_count = refl;
  same_specs = refl;
  kept = λ j k. discard-same i j t.pending h ∙ k;
  skipped = λ j k m. absurd (true-ne-false (sym k ∙ discard-same i j t.pending h ∙ m));
}

count_candidates-mark_failed :
    (t : PieceTracker) (i : ℕ)
    → has i t.pending ≡ false
    → count_candidates (mark_failed t i) ≡ count_candidates t
unfolding candidates mark_failed
count_candidates-mark_failed t i h =
    ap (λ p. length (range_where p 0 t.piece_count))
      (fun_ext λ j. ap (λ b. not (has j t.have) && not b) (discard-same i j t.pending h))

count_candidates-mark_pending :
    (t : PieceTracker) (i : ℕ)
    → IsWanted t i
    → count_candidates (mark_pending t i) + 1 ≡ count_candidates t
unfolding candidates mark_pending
count_candidates-mark_pending t i w =
    let u = mark_pending t i in
    let fewer =
      range_where-fewer (is_candidate u) (is_candidate t) 0 t.piece_count i
        (λ j. ground (arith, has-add i j t.pending)) in
    ground (arith, fewer)

-- The second half of a round.
record SkipIs (t : PieceTracker) (peer_pieces : IntSet) (next : PieceTracker × Option ℕ)
    : Type 0 where
  selected : next.1 ≡ select_piece next.0
  skip : Skipped t next.0 peer_pieces
  as_many : count_candidates next.0 ≡ count_candidates t

skip_at :
    (t : PieceTracker) (peer_pieces : IntSet) (next : Option ℕ)
    → select_piece t ≡ next
    → SelectIs t next
    → SkipIs t peer_pieces (skip_failed t peer_pieces next)
unfolding skip_failed
skip_at t peer_pieces none e s = record {
  selected = sym e;
  skip = Skipped-refl t peer_pieces;
  as_many = refl;
}
skip_at t peer_pieces (some j) e s = elim (Bool-cases (has j peer_pieces)) [
  | inl k ↦ rw k (record { selected = sym e; skip = Skipped-refl t peer_pieces; as_many = refl })
  | inr k ↦ rw k (record {
    selected = refl;
    skip = mark_failed-Skipped t peer_pieces j s.0.2;
    as_many = count_candidates-mark_failed t j s.0.2;
  })
]

skip_failed-SkipIs :
    (t : PieceTracker) (peer_pieces : IntSet)
    → SkipIs t peer_pieces (skip_failed t peer_pieces (select_piece t))
skip_failed-SkipIs t peer_pieces =
    skip_at t peer_pieces (select_piece t) refl (select_piece-SelectIs t)

-- What the loop returns: the tracker after its rounds, with what selection gives there, which is of
-- the peer.
pub record Found (t : PieceTracker) (peer_pieces : IntSet) (out : Result (PieceTracker × Option ℕ))
    : Type 0 where
  pub tracker : PieceTracker
  pub index : Option ℕ
  pub returned : out ≡ ok (tracker, index)
  pub skip : Skipped t tracker peer_pieces
  pub selected : SelectIs tracker index
  pub has_index : (i : ℕ) → index ≡ some i → has i peer_pieces ≡ true

pub find_piece-Found :
    (f : ℕ) (t : PieceTracker) (peer_pieces : IntSet) (n : Option ℕ)
    → select_piece t ≡ n
    → count_candidates t ≤ f
    → Found t peer_pieces (find_piece f t peer_pieces n)
unfolding find_piece
find_piece-Found f t peer_pieces none e h = record {
  tracker = t;
  index = none;
  returned = refl;
  skip = Skipped-refl t peer_pieces;
  selected = subst (SelectIs t) e (select_piece-SelectIs t);
  has_index = λ i k. cc;
}
find_piece-Found zero t peer_pieces (some i) e h =
    let wanted = subst (SelectIs t) e (select_piece-SelectIs t) in
    absurd (omega (arith, count_candidates-mark_pending t i wanted.0))
find_piece-Found (suc f) t peer_pieces (some i) e h = elim (Bool-cases (has i peer_pieces)) [
  | inl k ↦ rw k (record {
    tracker = t;
    index = some i;
    returned = refl;
    skip = Skipped-refl t peer_pieces;
    selected = subst (SelectIs t) e (select_piece-SelectIs t);
    has_index = λ j q. subst (λ m. has m peer_pieces ≡ true) (some-injective q) k;
  })
  | inr k ↦
      let wanted = subst (SelectIs t) e (select_piece-SelectIs t) in
      let t' = mark_pending t i in
      let s = skip_failed-SkipIs t' peer_pieces in
      let next = skip_failed t' peer_pieces (select_piece t') in
      let found =
        find_piece-Found f next.0 peer_pieces next.1 (sym s.selected)
          (omega (arith, count_candidates-mark_pending t i wanted.0, s.as_many)) in
      rw k (record {
        tracker = found.tracker;
        index = found.index;
        returned = found.returned;
        skip =
            Skipped-trans t t' found.tracker peer_pieces (mark_pending-Skipped t peer_pieces i k)
              (Skipped-trans t' next.0 found.tracker peer_pieces s.skip found.skip);
        selected = found.selected;
        has_index = found.has_index;
      })
]
