-- ===== src/Engine/Choice.antt =====
-- What _start_piece of src/aiobt/engine.py chooses.
use aiobt.Piece.Select.{IsWanted, SelectIs}
use aiobt.Choking.{Addr}
use aiobt.Engine.Endgame.{enter, EndgameState}
use aiobt.Python.Result.{ok, Result}
use aiobt.Python.IntSet.{has, IntSet}
use aiobt.Engine.Pick.{find_piece-Found, Skipped, count_candidates}
use aiobt.Python.Range.{has-range_where, range_where}
use aiobt.Engine.Start.{
  start_found, start_endgame, start_piece, activate, record_in, start_at, Started, endgame_pick,
}
use aiobt.Piece.{
  mark_pending, select_piece, is_complete, or_index_error, is_candidate, PieceSpec, candidates,
  PieceTracker, spec,
}
use aiobt.Prelude.{
  inr, sym, ◌==◌, some-injective, subst, ◌∙◌, inl, not, ◌||◌, ap, ◌&&◌, Bool-cases, none, false,
  refl, true, arith, get_elem?, some, Option, length, ◌≡◌, ◌≤◌, Bool, ◌<◌, List, ℕ, zero, suc, ◌+◌,
  [], ◌∷◌,
}

length-range_where : (p : ℕ → Bool) (i n : ℕ) → length (range_where p i n) ≤ n
unfolding range_where
length-range_where p i zero = omega arith
length-range_where p i (suc n) = ground (arith, length-range_where p (i + 1) n)

candidates-le : (t : PieceTracker) → count_candidates t ≤ t.piece_count
unfolding candidates
candidates-le t = length-range_where (is_candidate t) 0 t.piece_count

get_elem?-some :
    (l : List PieceSpec) (i : ℕ) → i < length l → (s : PieceSpec) × (get_elem? l i ≡ some s)
get_elem?-some [] i h = elim h [ ]
get_elem?-some (s ∷ l) zero h = (s, refl)
get_elem?-some (s ∷ l) (suc i) h = get_elem?-some l i (omega arith)

spec-within : (t : PieceTracker) (i : ℕ) → i < length t.specs → (s : PieceSpec) × (spec t i ≡ ok s)
unfolding spec
spec-within t i h = let (s, e) = get_elem?-some t.specs i h in (s, rw e)

endgame_pick_lem :
    (l peer_pieces have : IntSet) {i : ℕ}
    → endgame_pick l peer_pieces have ≡ some i
    → (has i l ≡ true) × (has i peer_pieces ≡ true) × (has i have ≡ false)
unfolding endgame_pick has
endgame_pick_lem [] peer_pieces have e = cc
endgame_pick_lem (j ∷ l) peer_pieces have {i} e =
    elim (Bool-cases (has j peer_pieces && not (has j have))) [
      | inl k ↦
          let same : j ≡ i = some-injective (rw k at e) in
          subst
            (λ m. (m == j || has m l ≡ true) × (has m peer_pieces ≡ true) × (has m have ≡ false))
            same (ground arith, ground arith, ground arith)
      | inr k ↦
          let r = endgame_pick_lem l peer_pieces have (rw k at e) in (ground (arith, r.0), r.1, r.2)
    ]

-- What a call gives that starts from a tracker t and goes on with u.
record Chosen (t : PieceTracker) (peer_pieces : IntSet) (out : Result Started) : Type 0 where
  started : Started
  returned : out ≡ ok started
  same_have : started.tracker.have ≡ t.have
  chosen :
      (i : ℕ) (s : PieceSpec)
      → started.choice ≡ some (i, s)
      → (has i peer_pieces ≡ true) × (has i t.have ≡ false) × (spec t i ≡ ok s)
  nothing :
      started.choice ≡ none
      → (i : ℕ) → i < t.piece_count
      → has i peer_pieces ≡ true
      → has i t.have || has i t.pending ≡ true

-- A piece that the peer has and that is not had can be started.
start_at-Chosen :
    (t u : PieceTracker) (peer_pieces : IntSet) (endgame : Option EndgameState) (a : Addr) (i : ℕ)
    → u.have ≡ t.have
    → u.specs ≡ t.specs
    → i < length t.specs
    → has i peer_pieces ≡ true
    → has i t.have ≡ false
    → Chosen t peer_pieces (start_at u endgame a (some i))
start_at-Chosen t u peer_pieces endgame a i h k n p q =
    let (s, e) = spec-within t i n in
    let e' : spec u i ≡ ok s = unfold spec in ap (λ l. or_index_error (get_elem? l i)) k ∙ e in
    record {
      started = record { tracker = u; endgame = record_in endgame i a; choice = some (i, s) };
      returned = rw e' refl;
      same_have = h;
      chosen = λ j r c.
          subst
            (λ m. (has m.0 peer_pieces ≡ true) × (has m.0 t.have ≡ false) × (spec t m.0 ≡ ok m.1))
            (some-injective c) (p, q, e);
      nothing = λ c. cc;
    }

start_none-Chosen :
    (t u : PieceTracker) (peer_pieces : IntSet) (endgame : Option EndgameState) (a : Addr)
    → u.have ≡ t.have
    → ((i : ℕ)
        → i < t.piece_count
        → has i peer_pieces ≡ true
        → has i t.have || has i t.pending ≡ true)
    → Chosen t peer_pieces (start_at u endgame a none)
start_none-Chosen t u peer_pieces endgame a h all = record {
  started = record { tracker = u; endgame = endgame; choice = none };
  returned = refl;
  same_have = h;
  chosen = λ i s. cc;
  nothing = λ c. all;
}

-- The pieces of the endgame are within the piece count, once it is activated too.
activate-within :
    (e : EndgameState) (t : PieceTracker)
    → ((i : ℕ) → has i e.pieces ≡ true → i < t.piece_count)
    → (i : ℕ) → has i (activate e t).pieces ≡ true
    → i < t.piece_count
unfolding activate enter
activate-within e t h i =
    let remaining = has-range_where (λ j. not (has j t.have)) 0 t.piece_count i in
    ground (arith, h i, remaining)

module _ (t u : PieceTracker) (peer_pieces : IntSet) (a : Addr) (skip : Skipped t u peer_pieces)
    (n : length t.specs ≡ t.piece_count)
    (all : (i : ℕ)
      → i < t.piece_count
      → has i peer_pieces ≡ true
      → has i t.have || has i t.pending ≡ true) where
  pick-Chosen :
      (e : EndgameState) (c : Option ℕ)
      → endgame_pick e.pieces peer_pieces u.have ≡ c
      → ((i : ℕ) → has i e.pieces ≡ true → i < t.piece_count)
      → Chosen t peer_pieces (start_at u (some e) a c)
  pick-Chosen e none k w = start_none-Chosen t u peer_pieces (some e) a skip.same_have all
  pick-Chosen e (some i) k w =
      let (m, p, q) = endgame_pick_lem e.pieces peer_pieces u.have k in
      start_at-Chosen t u peer_pieces (some e) a i skip.same_have skip.same_specs
        (omega (arith, w i m, n)) p (ap (has i) (sym skip.same_have) ∙ q)

  start_endgame-Chosen :
      (endgame : Option EndgameState)
      → ((e : EndgameState)
          → endgame ≡ some e
          → (i : ℕ) → has i e.pieces ≡ true
          → i < t.piece_count)
      → Chosen t peer_pieces (start_endgame u peer_pieces endgame a)
  unfolding start_endgame
  start_endgame-Chosen none w = start_none-Chosen t u peer_pieces none a skip.same_have all
  start_endgame-Chosen (some e) w = elim (Bool-cases (is_complete u)) [
    | inl k ↦ rw k (start_none-Chosen t u peer_pieces (some e) a skip.same_have all)
    | inr k ↦
        let e' = activate e u in
        rw k (elim (Bool-cases e'.active) [
          | inr m ↦ rw m (start_none-Chosen t u peer_pieces (some e') a skip.same_have all)
          | inl m ↦ rw m (
              pick-Chosen e' (endgame_pick e'.pieces peer_pieces u.have) refl λ i h.
                subst (λ c. i < c) skip.same_count
                  (activate-within e u
                    (λ j l. subst (λ c. j < c) (sym skip.same_count) (w e refl j l)) i h))
        ])
  ]

had_or_pending :
    (t u : PieceTracker) (peer_pieces : IntSet) (i : ℕ)
    → Skipped t u peer_pieces
    → SelectIs u none
    → i < t.piece_count
    → has i peer_pieces ≡ true
    → has i t.have || has i t.pending ≡ true
had_or_pending t u peer_pieces i skip s h p =
    ground (
      arith,
      λ (w : IsWanted u i). s i w,
      skip.skipped i,
      skip.same_count,
      ap (has i) skip.same_have,
    )

start_found-Chosen :
    (t u : PieceTracker) (peer_pieces : IntSet) (a : Addr)
    → Skipped t u peer_pieces
    → length t.specs ≡ t.piece_count
    → (index : Option ℕ) → SelectIs u index
    → ((i : ℕ) → index ≡ some i → has i peer_pieces ≡ true)
    → (endgame : Option EndgameState)
    → ((e : EndgameState) → endgame ≡ some e → (i : ℕ) → has i e.pieces ≡ true → i < t.piece_count)
    → Chosen t peer_pieces (start_found peer_pieces endgame a (u, index))
start_found-Chosen t u peer_pieces a skip n none s p endgame w =
    start_endgame-Chosen t u peer_pieces a skip n (λ i. had_or_pending t u peer_pieces i skip s)
      endgame w
start_found-Chosen t u peer_pieces a skip n (some i) s p endgame w =
    let (h, k, m) = s.0 in
    start_at-Chosen t (mark_pending u i) peer_pieces endgame a i
      (unfold mark_pending in skip.same_have) (unfold mark_pending in skip.same_specs)
      (omega (arith, h, skip.same_count, n)) (p i refl) (ap (has i) (sym skip.same_have) ∙ k)

-- For a tracker with a spec for each piece, and an endgame whose pieces are within the piece count,
-- `_start_piece` returns. The piece that it chooses is one that the peer has and that is not had,
-- with its spec; where it chooses nothing, every piece of the peer is had or was pending.
pub start_piece_lem :
    (t : PieceTracker) (peer_pieces : IntSet) (endgame : Option EndgameState) (a : Addr)
    → length t.specs ≡ t.piece_count
    → ((e : EndgameState) → endgame ≡ some e → (i : ℕ) → has i e.pieces ≡ true → i < t.piece_count)
    → (r : Started) × (start_piece t peer_pieces endgame a ≡ ok r)
      × (r.tracker.have ≡ t.have)
      × ((i : ℕ) (s : PieceSpec)
          → r.choice ≡ some (i, s)
          → (has i peer_pieces ≡ true) × (has i t.have ≡ false) × (spec t i ≡ ok s))
      × (r.choice ≡ none
          → (i : ℕ) → i < t.piece_count
          → has i peer_pieces ≡ true
          → has i t.have || has i t.pending ≡ true)
unfolding start_piece
start_piece_lem t peer_pieces endgame a n w =
    let f = find_piece-Found t.piece_count t peer_pieces (select_piece t) refl (candidates-le t) in
    let c =
      start_found-Chosen t f.tracker peer_pieces a f.skip n f.index f.selected f.has_index endgame
        w in
    (c.started, rw f.returned c.returned, c.same_have, c.chosen, c.nothing)
