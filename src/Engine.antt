-- ===== src/Engine.antt =====
-- src/aiobt/engine.py: the blocks of a piece (requests, cancels, assembly) and the endgame state.
-- The loops over a piece are on fuel, one unit for a block.
pub mod Blocks
pub mod Endgame
pub mod Cancels
pub mod Start
pub mod Peer
pub mod Loop
pub mod Pick
pub mod Choice
pub mod Splice
pub mod Assembly
mod Examples
use aiobt.Protocol.{request, cancel, PeerMessage}
use aiobt.Piece.{PieceSpec}
use aiobt.Python.Result.{◌>>=◌, out_of_fuel, raised, ok, Result}
use aiobt.Python.Bytes.{Bytes}
use aiobt.Prelude.{
  ◌-◌, min, drop, ltb, ◌++◌, if◌then◌else◌, ◌+◌, leb, take, replicate, length, Bool, ℕ, suc, zero,
  List, [], ◌∷◌,
}
use aiobt.Choking.{Addr, addr_eq, has_addr}

-- BLOCK_SIZE of src/aiobt/peer.py
abbrev pub block_size : ℕ
block_size = 16384

-- The loop of `_request_piece_blocks`, from an offset on: the messages in order.
unfoldable pub request_loop : ℕ → ℕ → ℕ → ℕ → Result (List PeerMessage)
request_loop zero index len offset = if ltb offset len then raised out_of_fuel else ok []
request_loop (suc f) index len offset =
    let block_len = min block_size (len - offset) in
    let rest =
      request_loop f index len (offset + block_len)
      >>= (λ l. ok (request index offset block_len ∷ l)) in
    if ltb offset len then rest else ok []

unfoldable pub request_piece_blocks : PieceSpec → Result (List PeerMessage)
unfolding request_loop
request_piece_blocks s = request_loop s.length s.index s.length 0

-- One round of `_broadcast_endgame_cancel`, over the addresses; `connected` tells those with a
-- connected peer in the session.
unfoldable pub send_cancel : (Addr → Bool) → PeerMessage → List Addr → List (Addr × PeerMessage)
send_cancel connected m [] = []
send_cancel connected m (a ∷ s) =
    let rest = send_cancel connected m s in if connected a then (a, m) ∷ rest else rest

unfoldable pub cancel_loop :
    (Addr → Bool) → List Addr → ℕ → ℕ → ℕ → ℕ → Result (List (Addr × PeerMessage))
unfolding send_cancel
cancel_loop connected addrs zero index len offset =
    if ltb offset len then raised out_of_fuel else ok []
cancel_loop connected addrs (suc f) index len offset =
    let block_len = min block_size (len - offset) in
    let rest =
      cancel_loop connected addrs f index len (offset + block_len)
      >>= (λ l. ok (send_cancel connected (cancel index offset block_len) addrs ++ l)) in
    if ltb offset len then rest else ok []

unfoldable pub broadcast_endgame_cancel :
    (Addr → Bool) → ℕ → PieceSpec → List Addr → Result (List (Addr × PeerMessage))
unfolding cancel_loop
broadcast_endgame_cancel connected index s [] = ok []
broadcast_endgame_cancel connected index s (a ∷ addrs) =
    cancel_loop connected (a ∷ addrs) s.length index s.length 0

-- The received blocks of a piece, by their begin.
abbrev pub BlockDict : Type 0
BlockDict = List (ℕ × Bytes)

unfoldable pub received : BlockDict → ℕ
received [] = 0
received ((begin, data') ∷ l) = length data' + received l

unfoldable pub piece_complete : BlockDict → ℕ → Bool
unfolding received
piece_complete blocks piece_length = leb piece_length (received blocks)

-- sorted(blocks.items()); the keys of a dict differ, so the data is never compared
unfoldable pub insert_block : ℕ × Bytes → BlockDict → BlockDict
insert_block b [] = b ∷ []
insert_block b (c ∷ l) = let rest = insert_block b l in if leb b.0 c.0 then b ∷ c ∷ l else c ∷ rest

unfoldable pub sort_blocks : BlockDict → BlockDict
unfolding insert_block
sort_blocks [] = []
sort_blocks (b ∷ l) = insert_block b (sort_blocks l)

-- result[begin : begin + len(data)] = data
abbrev pub splice : Bytes → ℕ → Bytes → Bytes
splice buf begin data' = take begin buf ++ (data' ++ drop (begin + length data') buf)

unfoldable pub write_blocks : Bytes → BlockDict → Bytes
write_blocks buf [] = buf
write_blocks buf ((begin, data') ∷ l) = write_blocks (splice buf begin data') l

unfoldable pub assemble_piece : BlockDict → ℕ → Bytes
unfolding sort_blocks write_blocks
assemble_piece blocks piece_length = write_blocks (replicate piece_length 0) (sort_blocks blocks)
