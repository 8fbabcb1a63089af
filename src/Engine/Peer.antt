-- ===== src/Engine/Peer.antt =====
-- What run_peer of src/aiobt/engine.py works on: its local variables with the objects that it
-- shares, what it sent and emitted so far (`out`), and the changes that need no storage.
use aiobt.Choking.{Addr, addr_eq, PeerRates}
use aiobt.Engine.{BlockDict}
use aiobt.Engine.Endgame.{EndgameState, Requests}
use aiobt.Piece.{PieceTracker, PieceSpec, mark_failed}
use aiobt.Protocol.{PeerMessage}
use aiobt.Python.Bytes.{Bytes}
use aiobt.Python.IntSet.{IntSet}
use aiobt.Python.Result.{Exception}
use aiobt.Prelude.{
  ◌||◌, ◌==◌, false, ◌+◌, some, none, map, Option, if◌then◌else◌, Bool, List, [], ◌∷◌, ℕ,
}

-- What leaves the coroutine, in order.
pub data Effect : Type 0 where
  send : PeerMessage → Effect
  send_to : Addr → PeerMessage → Effect
  wake_choking : Effect
  piece_verified : ℕ → Effect
  download_completed : Effect
  disconnect : Effect

pub record Loop (S : Type 0) : Type 0 where
  pub tracker : PieceTracker
  pub storage : S
  pub endgame : Option EndgameState
  pub rates : Option PeerRates
  pub peer_pieces : IntSet
  pub peer_choking : Bool
  pub am_interested : Bool
  pub current : Option (ℕ × PieceSpec)
  pub blocks : BlockDict
  pub bytes_downloaded : ℕ
  pub bytes_uploaded : ℕ
  pub done : Bool
  pub out : List Effect

-- A handler went on, or raised an exception in some state.
pub data Run (S : Type 0) : Type 0 where
  going : Loop S → Run S
  stopped : Loop S → Exception → Run S

abbrev pub state_of : {S : Type 0} → Run S → Loop S
state_of (going s) = s
state_of (stopped s e) = s

-- piece_blocks[begin] = block
unfoldable pub put_block : BlockDict → ℕ → Bytes → BlockDict
put_block [] begin block = (begin, block) ∷ []
put_block ((b, d) ∷ l) begin block =
    let rest = put_block l begin block in if b == begin then (b, block) ∷ l else (b, d) ∷ rest

-- The keys of the endgame's dict.
unfoldable pub is_requested : Requests → ℕ → Bool
is_requested [] i = false
is_requested ((j, s) ∷ d) i = j == i || is_requested d i

unfoldable pub discard_addr : Addr → List Addr → List Addr
discard_addr a [] = []
discard_addr a (b ∷ l) = let rest = discard_addr a l in if addr_eq b a then rest else b ∷ rest

unfoldable pub discard_requests : Addr → Requests → Requests
unfolding discard_addr
discard_requests a [] = []
discard_requests a ((i, s) ∷ d) = (i, discard_addr a s) ∷ discard_requests a d

abbrev pub forget_addr : Addr → Option EndgameState → Option EndgameState
forget_addr a none = none
forget_addr a (some e) = some (record e { peer_requests = discard_requests a e.peer_requests })

abbrev pub sends : List PeerMessage → List Effect
sends = map send

abbrev pub broadcast : List (Addr × PeerMessage) → List Effect
broadcast = map (λ (a, m). send_to a m)

abbrev pub is_choking : Option PeerRates → Bool
is_choking none = false
is_choking (some r) = r.am_choking

abbrev pub count_down_bytes : ℕ → Option PeerRates → Option PeerRates
count_down_bytes n none = none
count_down_bytes n (some r) = some (record r { bytes_down_interval = r.bytes_down_interval + n })

abbrev pub count_up_bytes : ℕ → Option PeerRates → Option PeerRates
count_up_bytes n none = none
count_up_bytes n (some r) = some (record r { bytes_up_interval = r.bytes_up_interval + n })

-- tracker.mark_failed(current_piece), if there is one.
abbrev pub fail_current : PieceTracker → Option (ℕ × PieceSpec) → PieceTracker
fail_current t none = t
fail_current t (some (i, s)) = mark_failed t i

-- What the coroutine meets between two of its steps: a message, or a change that other tasks made
-- to the objects it shares.
pub data Turn (S : Type 0) : Type 0 where
  message : PeerMessage → Turn S
  others : PieceTracker → S → Option EndgameState → Option PeerRates → Turn S
