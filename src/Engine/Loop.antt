-- ===== src/Engine/Loop.antt =====
-- run_peer of src/aiobt/engine.py: what one connected peer's messages do to the torrent. Sending
-- succeeds; where the connection ends, the messages end.
pub mod Starts
pub mod Stored
pub mod Safe
pub mod Turns
pub mod Messages
pub mod Course
pub mod Complete
pub mod Served
mod Examples
use aiobt.Engine.Peer.{
  Effect, Loop, Run, Turn, broadcast, count_down_bytes, count_up_bytes, discard_addr,
  discard_requests, disconnect, download_completed, fail_current, forget_addr, going, is_choking,
  is_requested, message, others, piece_verified, put_block, send, sends, stopped, wake_choking,
}
use aiobt.Storage.Backend.{StorageBackend}
use aiobt.Bitfield.{build_bitfield, bitfield_to_set}
use aiobt.Choking.{Addr, addr_eq, PeerRates}
use aiobt.Engine.{
  BlockDict, piece_complete, assemble_piece, request_piece_blocks, broadcast_endgame_cancel,
}
use aiobt.Engine.Endgame.{EndgameState, piece_done, Requests}
use aiobt.Engine.Start.{Started, start_piece}
use aiobt.Piece.{
  PieceTracker, PieceSpec, spec, is_complete, mark_have, mark_failed, update_availability,
  remove_availability, verify_piece,
}
use aiobt.Protocol.{
  PeerMessage, keep_alive, choke, unchoke, interested, not_interested, have, bitfield, request,
  piece, cancel,
}
use aiobt.Python.Bytes.{Bytes}
use aiobt.Python.IntSet.{IntSet, has, add}
use aiobt.Python.Result.{
  Exception, Result, ok, raised, timeout_error, os_error, connection_error, incomplete_read_error,
}
use aiobt.Prelude.{
  length, ◌&&◌, ◌||◌, ◌==◌, not, ◌++◌, false, true, ◌+◌, some, none, map, Option, if◌then◌else◌,
  Bool, List, [], ◌∷◌, ℕ,
}

-- `sha1` is hashlib's digest, `addr` the peer's address, `connected` tells the addresses with a
-- connected peer, and `has_manager` whether there is a choking manager to wake.
module _ {S : Type 0} (backend : StorageBackend S) (sha1 : Bytes → Bytes) (addr : Addr)
    (connected : Addr → Bool) (has_manager : Bool) where
  open backend use {read, write}

  abbrev pub emit : List Effect → Loop S → Loop S
  emit l s = record s { out = s.out ++ l }

  abbrev pub wake : List Effect
  wake = if has_manager then wake_choking ∷ [] else []

  abbrev pub requested : Loop S → Result (List PeerMessage) → Run S
  requested s (raised e) = stopped s e
  requested s (ok l) = going (emit (sends l) s)

  abbrev pub request_current : Loop S → Option (ℕ × PieceSpec) → Run S
  request_current s none = going s
  request_current s (some (i, sp)) = requested s (request_piece_blocks sp)

  abbrev pub with_piece : Loop S → Result Started → Run S
  with_piece s (raised e) = stopped s e
  with_piece s (ok r) =
      request_current
        (record s { tracker = r.tracker; endgame = r.endgame; current = r.choice; blocks = [] })
        r.choice

  -- A new piece: `_start_piece` and the requests for its blocks. Where `_start_piece` raises, the
  -- state is the one before its call.
  unfoldable pub begin_piece : Loop S → Run S
  unfolding start_piece request_piece_blocks
  begin_piece s = with_piece s (start_piece s.tracker s.peer_pieces s.endgame addr)

  abbrev pub express_interest : Bool → Loop S → Loop S
  express_interest again s =
      if not (is_complete s.tracker) && (again || not s.am_interested)
      then record s { am_interested = true; out = s.out ++ (send interested ∷ []) }
      else s

  unfoldable pub on_bitfield : Loop S → Bytes → Loop S
  unfolding bitfield_to_set update_availability is_complete
  on_bitfield s bits =
      let pieces = bitfield_to_set bits s.tracker.piece_count in
      express_interest true
        (record s { peer_pieces = pieces; tracker = update_availability s.tracker pieces })

  unfoldable pub on_have : Loop S → ℕ → Loop S
  unfolding update_availability is_complete add
  on_have s i = express_interest false (record s {
    peer_pieces = add i s.peer_pieces;
    tracker = update_availability s.tracker (i ∷ []);
  })

  abbrev pub on_interested : Loop S → Option PeerRates → Loop S
  on_interested s none = emit (send unchoke ∷ []) s
  on_interested s (some r) =
      emit wake (record s { rates = some (record r { peer_interested = true }) })

  abbrev pub on_not_interested : Loop S → Option PeerRates → Loop S
  on_not_interested s none = s
  on_not_interested s (some r) =
      emit wake (record s { rates = some (record r { peer_interested = false }) })

  abbrev pub drop_current : Loop S → Option (ℕ × PieceSpec) → Loop S
  drop_current s none = s
  drop_current s (some (i, sp)) = record s {
    tracker = mark_failed s.tracker i;
    current = none;
    blocks = [];
  }

  abbrev pub has_current : Option (ℕ × PieceSpec) → Bool
  has_current none = false
  has_current (some c) = true

  unfoldable pub on_unchoke : Loop S → Run S
  unfolding begin_piece is_complete
  on_unchoke s =
      let s' = record s { peer_choking = false } in
      if not (is_complete s.tracker) && not (has_current s.current)
      then begin_piece s'
      else going s'

  -- The block that was asked for, read from the storage.
  abbrev pub serve : Loop S → ℕ → ℕ → Result Bytes → Run S
  serve s i begin (raised e) = stopped s e
  serve s i begin (ok data') = going (record s {
    bytes_uploaded = s.bytes_uploaded + length data';
    rates = count_up_bytes (length data') s.rates;
    out = s.out ++ (send (piece i begin data') ∷ []);
  })

  abbrev pub serve_at : Loop S → ℕ → ℕ → ℕ → Result PieceSpec → Run S
  serve_at s i begin len (raised e) = stopped s e
  serve_at s i begin len (ok sp) = serve s i begin (read s.storage (sp.offset + begin) len)

  unfoldable pub on_request : Loop S → ℕ → ℕ → ℕ → Run S
  unfolding has spec
  on_request s i begin len =
      if is_choking s.rates
      then going s
      else if has i s.tracker.have
      then serve_at s i begin len (spec s.tracker i)
      else going s

  abbrev pub cancelled : Loop S → Result (List (Addr × PeerMessage)) → Run S
  cancelled s (raised e) = stopped s e
  cancelled s (ok l) = going (emit (broadcast l) s)

  -- The endgame's part once a piece is verified: the piece is done, and cancels go to the other
  -- addresses that were asked for it.
  abbrev pub cancel_others : Loop S → ℕ → PieceSpec → EndgameState × List Addr → Run S
  cancel_others s i sp (e, addrs) =
      cancelled (record s { endgame = some e })
        (broadcast_endgame_cancel connected i sp (discard_addr addr addrs))

  abbrev pub endgame_done : Loop S → ℕ → PieceSpec → Option EndgameState → Run S
  endgame_done s i sp none = going s
  endgame_done s i sp (some e) =
      if e.active && is_requested e.peer_requests i
      then cancel_others s i sp (piece_done e i)
      else going s

  -- The assembled piece is written and had, if its digest is the expected one.
  abbrev pub written : Loop S → ℕ → PieceSpec → Result S → Run S
  written s i sp (raised e) = stopped s e
  written s i sp (ok st) =
      let s' = record s {
        storage = st;
        tracker = mark_have s.tracker i;
        out = s.out ++ (piece_verified i ∷ send (have i) ∷ []);
      } in
      endgame_done s' i sp s'.endgame

  unfoldable pub store_piece : Loop S → ℕ → PieceSpec → Run S
  unfolding assemble_piece verify_piece mark_have mark_failed piece_done broadcast_endgame_cancel
      is_requested discard_addr
  store_piece s i sp =
      let assembled = assemble_piece s.blocks sp.length in
      if verify_piece sha1 assembled sp.hash
      then written s i sp (write s.storage sp.offset assembled)
      else going (record s { tracker = mark_failed s.tracker i })

  -- On to the next piece, or to the end of the download.
  unfoldable pub next_piece : Loop S → Run S
  unfolding begin_piece is_complete
  next_piece s =
      let s' = record s { current = none; blocks = [] } in
      if is_complete s'.tracker
      then going (record s' {
        done = true;
        am_interested = false;
        out = s'.out ++ (download_completed ∷ send not_interested ∷ []);
      })
      else if not s'.peer_choking
      then begin_piece s'
      else going s'

  abbrev pub and_then : Run S → (Loop S → Run S) → Run S
  and_then (going s) f = f s
  and_then (stopped s e) f = stopped s e

  unfoldable pub on_piece : Loop S → ℕ → Bytes → Option (ℕ × PieceSpec) → ℕ → Run S
  unfolding store_piece next_piece put_block piece_complete
  on_piece s begin block none index = going s
  on_piece s begin block (some (i, sp)) index =
      let s' = record s {
        blocks = put_block s.blocks begin block;
        bytes_downloaded = s.bytes_downloaded + length block;
        rates = count_down_bytes (length block) s.rates;
      } in
      if not (index == i)
      then going s
      else if piece_complete s'.blocks sp.length
      then and_then (store_piece s' i sp) next_piece
      else going s'

  -- One round of the loop.
  unfoldable pub on_message : Loop S → PeerMessage → Run S
  unfolding on_bitfield on_have on_unchoke on_request on_piece mark_failed
  on_message s keep_alive = going s
  on_message s choke = going (drop_current (record s { peer_choking = true }) s.current)
  on_message s unchoke = on_unchoke s
  on_message s interested = going (on_interested s s.rates)
  on_message s not_interested = going (on_not_interested s s.rates)
  on_message s (have i) = going (on_have s i)
  on_message s (bitfield bits) = going (on_bitfield s bits)
  on_message s (request i begin len) = on_request s i begin len
  on_message s (piece i begin block) = on_piece s begin block s.current i
  on_message s (cancel i begin len) = going s

  -- The `finally` block.
  unfoldable pub leave : Loop S → Loop S
  unfolding mark_failed remove_availability discard_requests
  leave s = record s {
    tracker = remove_availability (fail_current s.tracker s.current) s.peer_pieces;
    endgame = forget_addr addr s.endgame;
    out = s.out ++ (disconnect ∷ []);
  }

  unfoldable pub take_turn : Loop S → Turn S → Run S
  unfolding on_message
  take_turn s (message m) = on_message s m
  take_turn s (others t st e r) =
      going (record s { tracker = t; storage = st; endgame = e; rates = r })

  unfoldable pub take_turns : Loop S → List (Turn S) → Run S
  unfolding take_turn
  take_turns s [] = going s
  take_turns s (t ∷ l) = and_then (take_turn s t) (λ s'. take_turns s' l)

  -- except (IncompleteReadError, ConnectionError, OSError): pass
  abbrev pub escapes : Exception → Option Exception
  escapes incomplete_read_error = none
  escapes (connection_error m) = none
  escapes (os_error m) = none
  escapes timeout_error = none
  escapes e = some e

  abbrev pub new_loop : PieceTracker → S → Option EndgameState → Option PeerRates → Loop S
  new_loop t st e r = record {
    tracker = t;
    storage = st;
    endgame = e;
    rates = r;
    peer_pieces = [];
    peer_choking = true;
    am_interested = false;
    current = none;
    blocks = [];
    bytes_downloaded = 0;
    bytes_uploaded = 0;
    done = false;
    out = [];
  }

  -- The exception that ends the loop, which the last `receive_message` raises unless a handler did.
  abbrev pub ends : Exception → Run S → Loop S × Option Exception
  ends last (going s) = (leave s, escapes last)
  ends last (stopped s e) = (leave s, escapes e)

  -- The own bit field, and the turns.
  unfoldable pub exchange : Loop S → List (Turn S) → Result Bytes → Run S
  unfolding take_turns
  exchange s turns (raised e) = stopped s e
  exchange s turns (ok bits) = take_turns (emit (send (bitfield bits) ∷ []) s) turns

  -- The messages of the peer and the changes by others until `receive_message` raises `last`.
  unfoldable pub run_peer : Loop S → List (Turn S) → Exception → Loop S × Option Exception
  unfolding build_bitfield exchange leave
  run_peer s turns last = ends last (exchange s turns (build_bitfield s.tracker))
