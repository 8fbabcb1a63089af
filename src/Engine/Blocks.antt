-- ===== src/Engine/Blocks.antt =====
-- The blocks of a piece in its requests and cancels, src/aiobt/engine.py.
use aiobt.Python.Result.{>>=-eq-ok, subst_ok, ok}
use aiobt.Piece.{PieceSpec}
use aiobt.Protocol.{request, cancel, PeerMessage}
use aiobt.Choking.{Addr}
use aiobt.Engine.{
  broadcast_endgame_cancel, block_size, cancel_loop, request_piece_blocks, request_loop,
  send_cancel,
}
use aiobt.Prelude.{
  min, inl, inr, ltb, Bool-cases, refl, ◌+◌, ◌++◌, arith, filter, map, ◌-◌, ◌<◌, ◌≤◌, Bool, ◌≡◌, ℕ,
  suc, zero, List, [], ◌∷◌,
}

-- The blocks that cover a piece from an offset on: each starts where the one before it ends, none
-- is empty or longer than the block size, and the last ends with the piece.
abbrev pub Cuts : ℕ → ℕ → ℕ → List PeerMessage → Type 0
Cuts index len offset [] = offset ≡ len
Cuts index len offset (m ∷ l) =
    (n : ℕ) × (m ≡ request index offset n)
    × (0 < n)
    × (n ≤ block_size)
    × Cuts index len (offset + n) l

request_loop-Cuts :
    (f index len offset : ℕ)
    → offset ≤ len
    → len - offset ≤ f
    → (l : List PeerMessage) × (request_loop f index len offset ≡ ok l) × Cuts index len offset l
unfolding request_loop
request_loop-Cuts zero index len offset h k = ([], ground arith, omega arith)
request_loop-Cuts (suc f) index len offset h k = elim (Bool-cases (ltb offset len)) [
  | inr e ↦ rw e ([], refl, ground arith)
  | inl e ↦
      let n = min block_size (len - offset) in
      let small : offset < len = ground arith in
      let (l, r, c) = request_loop-Cuts f index len (offset + n) (omega arith) (omega arith) in
      rw e (request index offset n ∷ l, rw r refl, (n, refl, omega arith, omega arith, c))
]

-- The requests for a piece are sent, for its index, and cut it into blocks from its start to its
-- end: each begins where the one before it ends, none is empty or longer than 16 KiB.
pub request_piece_blocks-Cuts :
    (s : PieceSpec)
    → (l : List PeerMessage) × (request_piece_blocks s ≡ ok l) × Cuts s.index s.length 0 l
unfolding request_piece_blocks
request_piece_blocks-Cuts s =
    request_loop-Cuts s.length s.index s.length 0 (omega arith) (omega arith)

-- The cancel for a requested block.
abbrev pub cancel_of : PeerMessage → PeerMessage
cancel_of (request index begin len) = cancel index begin len
cancel_of m = m

-- What is sent to the connected addresses for each message of a list, in turn.
abbrev pub to_each : (Addr → Bool) → List Addr → List PeerMessage → List (Addr × PeerMessage)
to_each connected addrs [] = []
to_each connected addrs (m ∷ l) =
    map (λ a. (a, cancel_of m)) (filter connected addrs) ++ to_each connected addrs l

send_cancel-map :
    (connected : Addr → Bool) (m : PeerMessage) (addrs : List Addr)
    → send_cancel connected m addrs ≡ map (λ a. (a, m)) (filter connected addrs)
unfolding send_cancel
send_cancel-map connected m [] = refl
send_cancel-map connected m (a ∷ s) = ground (arith, send_cancel-map connected m s)

cancel_loop-request_loop :
    (connected : Addr → Bool) (addrs : List Addr) (f index len offset : ℕ) {l : List PeerMessage}
    → request_loop f index len offset ≡ ok l
    → cancel_loop connected addrs f index len offset ≡ ok (to_each connected addrs l)
unfolding request_loop cancel_loop
cancel_loop-request_loop connected addrs zero index len offset {l} e =
    elim (Bool-cases (ltb offset len)) [
      | inl k ↦ cc (rw k at e)
      | inr k ↦ rw k (subst_ok (λ m. ok [] ≡ ok (to_each connected addrs m)) (rw k at e) refl)
    ]
cancel_loop-request_loop connected addrs (suc f) index len offset {l} e =
    let n = min block_size (len - offset) in
    elim (Bool-cases (ltb offset len)) [
      | inr k ↦ rw k (subst_ok (λ m. ok [] ≡ ok (to_each connected addrs m)) (rw k at e) refl)
      | inl k ↦
          let (rest, r, h) = >>=-eq-ok (request_loop f index len (offset + n)) _ (rw k at e) in
          rw (k, cancel_loop-request_loop connected addrs f index len (offset + n) r)
            (subst_ok
              (λ m.
                ok (
                  send_cancel connected (cancel index offset n) addrs
                  ++ to_each connected addrs rest)
                ≡ ok (to_each connected addrs m))
              h (rw (send_cancel-map connected (cancel index offset n) addrs) refl))
    ]

to_each_nobody : (connected : Addr → Bool) (l : List PeerMessage) → to_each connected [] l ≡ []
to_each_nobody connected [] = refl
to_each_nobody connected (m ∷ l) = to_each_nobody connected l

-- A cancel is broadcast for exactly the blocks that were requested of the piece, in the same order,
-- to each of the given addresses that has a connected peer and to no other.
pub broadcast_endgame_cancel-request_piece_blocks :
    (connected : Addr → Bool) (s : PieceSpec) (addrs : List Addr)
    → (l : List PeerMessage) × (request_piece_blocks s ≡ ok l)
      × (broadcast_endgame_cancel connected s.index s addrs ≡ ok (to_each connected addrs l))
unfolding request_piece_blocks broadcast_endgame_cancel
broadcast_endgame_cancel-request_piece_blocks connected s [] =
    let (l, e, c) = request_piece_blocks-Cuts s in (l, e, rw (to_each_nobody connected l) refl)
broadcast_endgame_cancel-request_piece_blocks connected s (a ∷ addrs) =
    let (l, e, c) = request_piece_blocks-Cuts s in
    (l, e, cancel_loop-request_loop connected (a ∷ addrs) s.length s.index s.length 0 e)
