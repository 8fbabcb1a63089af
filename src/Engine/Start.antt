-- ===== src/Engine/Start.antt =====
-- _start_piece of src/aiobt/engine.py: which piece a peer is asked for. The loop is on fuel, one
-- unit for a round. An iteration over a set of pieces goes over its list.
use aiobt.Python.Result.{out_of_fuel, raised, ◌>>=◌, ok, Result}
use aiobt.Choking.{Addr}
use aiobt.Python.Range.{range_where}
use aiobt.Engine.Endgame.{record_request, EndgameState, enter}
use aiobt.Python.IntSet.{has, IntSet}
use aiobt.Piece.{
  spec, PieceSpec, select_piece, PieceTracker, is_complete, mark_failed, mark_pending,
}
use aiobt.Prelude.{
  ◌==◌, ◌&&◌, length, false, some, if◌then◌else◌, not, none, Bool, Option, ℕ, zero, suc, [], ◌∷◌,
}

abbrev pub lacks : IntSet → Option ℕ → Bool
lacks peer_pieces none = false
lacks peer_pieces (some i) = not (has i peer_pieces)

-- The second half of a round: where the next piece is not of the peer either, it is marked failed
-- and the selection is asked again.
unfoldable pub skip_failed : PieceTracker → IntSet → Option ℕ → PieceTracker × Option ℕ
unfolding mark_failed select_piece has
skip_failed t peer_pieces none = (t, none)
skip_failed t peer_pieces (some j) =
    if has j peer_pieces then (t, some j) else (mark_failed t j, select_piece (mark_failed t j))

-- The loop, at a selected piece.
unfoldable pub find_piece : ℕ → PieceTracker → IntSet → Option ℕ → Result (PieceTracker × Option ℕ)
unfolding skip_failed mark_pending select_piece has
find_piece f t peer_pieces none = ok (t, none)
find_piece zero t peer_pieces (some i) =
    if has i peer_pieces then ok (t, some i) else raised out_of_fuel
find_piece (suc f) t peer_pieces (some i) =
    let t' = mark_pending t i in
    let next = skip_failed t' peer_pieces (select_piece t') in
    let rest = find_piece f next.0 peer_pieces next.1 in
    if has i peer_pieces then ok (t, some i) else rest

pub record Started : Type 0 where
  pub tracker : PieceTracker
  pub endgame : Option EndgameState
  pub choice : Option (ℕ × PieceSpec)

abbrev pub record_in : Option EndgameState → ℕ → Addr → Option EndgameState
record_in none i a = none
record_in (some e) i a = some (record_request e i a)

-- The first piece of the endgame that the peer has and that is not had.
unfoldable pub endgame_pick : IntSet → IntSet → IntSet → Option ℕ
unfolding has
endgame_pick [] peer_pieces have = none
endgame_pick (i ∷ l) peer_pieces have =
    let rest = endgame_pick l peer_pieces have in
    if has i peer_pieces && not (has i have) then some i else rest

-- Activation: all pieces that are not had.
unfoldable pub activate : EndgameState → PieceTracker → EndgameState
unfolding enter range_where has
activate e t =
    let remaining = range_where (λ i. not (has i t.have)) 0 t.piece_count in
    if e.active then e else if length remaining == 0 then e else enter e remaining

abbrev pub start_at : PieceTracker → Option EndgameState → Addr → Option ℕ → Result Started
start_at t endgame a none = ok (record { tracker = t; endgame = endgame; choice = none })
start_at t endgame a (some i) =
    spec t i
    >>= (λ s. ok (record { tracker = t; endgame = record_in endgame i a; choice = some (i, s) }))

-- The endgame's part, where the selection gave nothing.
unfoldable pub start_endgame : PieceTracker → IntSet → Option EndgameState → Addr → Result Started
unfolding activate endgame_pick is_complete
start_endgame t peer_pieces none a = start_at t none a none
start_endgame t peer_pieces (some e) a =
    let e' = activate e t in
    if is_complete t
    then start_at t (some e) a none
    else if e'.active
    then start_at t (some e') a (endgame_pick e'.pieces peer_pieces t.have)
    else start_at t (some e') a none

abbrev pub start_found :
    IntSet → Option EndgameState → Addr → PieceTracker × Option ℕ → Result Started
start_found peer_pieces endgame a (t, none) = start_endgame t peer_pieces endgame a
start_found peer_pieces endgame a (t, some i) = start_at (mark_pending t i) endgame a (some i)

unfoldable pub start_piece : PieceTracker → IntSet → Option EndgameState → Addr → Result Started
unfolding find_piece start_endgame
start_piece t peer_pieces endgame a =
    find_piece t.piece_count t peer_pieces (select_piece t) >>= start_found peer_pieces endgame a
