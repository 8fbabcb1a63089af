-- ===== src/Engine/Examples.antt =====
-- Requests, cancels and assembly of small pieces, and the theorems of the modules beside this one.
use aiobt.Engine.Choice.{start_piece_lem}
use aiobt.Python.IntSet.{has}
use aiobt.Engine.Start.{start_piece, Started}
use aiobt.Engine.Endgame.{EndgameState, piece_done}
use aiobt.Engine.Cancels.{
  entered, piece_done-state_after, done, is_outstanding, requested, HasPieces, Call, state_after,
}
use aiobt.Engine.Blocks.{
  broadcast_endgame_cancel-request_piece_blocks, request_piece_blocks-Cuts, to_each, Cuts,
}
use aiobt.Python.Result.{ok}
use aiobt.Engine.Assembly.{assemble_piece-request_piece_blocks, IsBlockOf}
use aiobt.Piece.{spec, PieceTracker, PieceSpec}
use aiobt.Protocol.{cancel, request, PeerMessage}
use aiobt.Choking.{has_addr, Addr}
use aiobt.Engine.{
  request_piece_blocks, piece_complete, BlockDict, assemble_piece, broadcast_endgame_cancel,
}
use aiobt.Python.Bytes.{Bytes}
use aiobt.Prelude.{
  ◌||◌, false, none, some, Option, inl, inr, refl, ap, true, ◌+◌, ◌==◌, arith, ◌≡◌, get_elem?, Bool,
  All, ◌<◌, ℕ, suc, zero, List, [], ◌∷◌,
}

-- A piece of 20000 bytes, in two blocks.
abbrev long_spec : PieceSpec
long_spec = record { index = 5; offset = 0; length = 20000; hash = [] }

request_long : request_piece_blocks long_spec ≡ ok (request 5 0 16384 ∷ request 5 16384 3616 ∷ [])
unfolding request_piece_blocks
request_long = refl

request_piece_blocks-Cuts_example :
    (l : List PeerMessage) × (request_piece_blocks long_spec ≡ ok l) × Cuts 5 20000 0 l
request_piece_blocks-Cuts_example = request_piece_blocks-Cuts long_spec

abbrev two_peers : List Addr
two_peers = (1 ∷ [], 10) ∷ (2 ∷ [], 20) ∷ []

-- The second of them is connected.
abbrev is_second : Addr → Bool
is_second (host, port) = port == 20

cancel_long :
    broadcast_endgame_cancel is_second 5 long_spec two_peers
    ≡ ok (((2 ∷ [], 20), cancel 5 0 16384) ∷ ((2 ∷ [], 20), cancel 5 16384 3616) ∷ [])
unfolding broadcast_endgame_cancel
cancel_long = refl

broadcast_endgame_cancel-request_piece_blocks_example :
    (l : List PeerMessage) × (request_piece_blocks long_spec ≡ ok l)
    × (broadcast_endgame_cancel is_second 5 long_spec two_peers
        ≡ ok (to_each is_second two_peers l))
broadcast_endgame_cancel-request_piece_blocks_example =
    broadcast_endgame_cancel-request_piece_blocks is_second long_spec two_peers

abbrev data_of : Bytes
data_of = 7 ∷ 8 ∷ 9 ∷ []

abbrev short_spec : PieceSpec
short_spec = record { index = 1; offset = 0; length = 3; hash = [] }

-- The whole piece, and its last two bytes, which came first.
abbrev blocks_of : BlockDict
blocks_of = (1, 8 ∷ 9 ∷ []) ∷ (0, data_of) ∷ []

request_short : request_piece_blocks short_spec ≡ ok (request 1 0 3 ∷ [])
unfolding request_piece_blocks
request_short = refl

complete_blocks : piece_complete blocks_of 3 ≡ true
unfolding piece_complete
complete_blocks = refl

block_whole : (i : ℕ) → i < 3 → get_elem? data_of i ≡ get_elem? data_of (0 + i)
block_whole i h = ap (get_elem? data_of) (omega arith)

block_tail : (i : ℕ) → i < 2 → get_elem? (8 ∷ 9 ∷ []) i ≡ get_elem? data_of (1 + i)
block_tail zero h = refl
block_tail (suc zero) h = refl
block_tail (suc (suc i)) h = absurd (omega (arith, h))

blocks-IsBlockOf : All (IsBlockOf data_of) blocks_of
blocks-IsBlockOf = ((omega arith, block_tail), ((omega arith, block_whole), tt))

assemble_piece-request_piece_blocks_example : assemble_piece blocks_of 3 ≡ data_of
assemble_piece-request_piece_blocks_example =
    assemble_piece-request_piece_blocks short_spec data_of blocks_of refl request_short
      blocks-IsBlockOf (inr (inl refl), tt)

-- The endgame is entered with pieces 3 and 4; two peers ask for piece 3, one of them twice, and it
-- is done; one asks again.
abbrev calls : List Call
calls =
    requested 3 (1 ∷ [], 10)
    ∷ done 3
    ∷ requested 3 (2 ∷ [], 20)
    ∷ requested 3 (2 ∷ [], 20)
    ∷ requested 3 (1 ∷ [], 10)
    ∷ entered (3 ∷ 4 ∷ [])
    ∷ []

calls-pieces : (state_after calls).pieces ≡ 4 ∷ []
unfolding state_after
calls-pieces = refl

piece_done-state_after_example :
    has_addr (2 ∷ [], 20) (piece_done (state_after calls) 3).1 ≡ is_outstanding calls 3 (2 ∷ [], 20)
piece_done-state_after_example = piece_done-state_after calls 3 (2 ∷ [], 20)

calls-HasPieces : All HasPieces calls
calls-HasPieces = (tt, (tt, (tt, (tt, (tt, (omega arith, tt))))))

-- Two pieces, of which a peer has the second, and the first is rarer.
abbrev two_pieces : PieceTracker
two_pieces = record {
  piece_length = 4;
  total_length = 8;
  pieces_raw = [];
  piece_count = 2;
  specs =
      record { index = 0; offset = 0; length = 4; hash = [] }
      ∷ record { index = 1; offset = 4; length = 4; hash = [] }
      ∷ [];
  have = [];
  pending = [];
  failed = [];
  availability = (1, 2) ∷ (0, 1) ∷ [];
}

abbrev endgame_of : Option EndgameState
endgame_of = none

-- The piece that the peer lacks stays pending.
skipped_pending :
    start_piece two_pieces (1 ∷ []) endgame_of ([], 0)
    ≡ ok (record {
      tracker = record two_pieces { pending = 1 ∷ 0 ∷ [] };
      endgame = none;
      choice = some (1, record { index = 1; offset = 4; length = 4; hash = [] });
    })
unfolding start_piece spec
skipped_pending = refl

start_piece_lem_example :
    (r : Started) × (start_piece two_pieces (1 ∷ []) endgame_of ([], 0) ≡ ok r)
    × (r.tracker.have ≡ [])
    × ((i : ℕ) (s : PieceSpec)
        → r.choice ≡ some (i, s)
        → (has i (1 ∷ []) ≡ true) × (has i [] ≡ false) × (spec two_pieces i ≡ ok s))
    × (r.choice ≡ none → (i : ℕ) → i < 2 → has i (1 ∷ []) ≡ true → has i [] || has i [] ≡ true)
start_piece_lem_example = start_piece_lem two_pieces (1 ∷ []) endgame_of ([], 0) refl (λ e k. cc)
