-- ===== src/Engine/Loop/Messages.antt =====
-- Each message of a peer, and the whole course of run_peer of src/aiobt/engine.py, where the blocks
-- that the peer sends are ones that `Sent` holds of.
use aiobt.Bitfield.{build_bitfield}
use aiobt.Engine.Endgame.{EndgameState}
use aiobt.Python.Result.{ok, raised, Result, Exception}
use aiobt.Storage.Backend.{LinearStorage}
use aiobt.Engine.Loop.Stored.{IsWithin, IsGenuine}
use aiobt.Engine.Loop.Starts.{Keeps, Keeps-mark_failed}
use aiobt.Engine.Loop.Turns.{store_piece-IsSafe, next_piece-IsSafe, and_then-IsSafe}
use aiobt.Engine.Loop.Safe.{
  IsStored, IsSafe, IsStored-Keeps, IsSafe-if, on_bitfield-IsSafe, on_have-IsSafe,
  on_interested-IsSafe, on_not_interested-IsSafe, drop_current-IsSafe, on_unchoke-IsSafe,
  on_request-IsSafe,
}
use aiobt.Engine.Loop.{
  store_piece, next_piece, and_then, on_piece, on_message, take_turn, take_turns, exchange, ends,
  leave, run_peer, new_loop,
}
use aiobt.Engine.Peer.{
  Loop, Run, going, stopped, state_of, Turn, message, others, put_block, count_down_bytes,
  fail_current,
}
use aiobt.Engine.{BlockDict, piece_complete}
use aiobt.Piece.{PieceTracker, PieceSpec, remove_availability}
use aiobt.Protocol.{
  PeerMessage, keep_alive, choke, unchoke, interested, not_interested, have, bitfield, request,
  piece, cancel,
}
use aiobt.Choking.{PeerRates, Addr}
use aiobt.Python.Bytes.{Bytes}
use aiobt.Prelude.{
  ==_iff, sym, subst, inr, Bool-cases, inl, if◌then◌else◌, ◌==◌, not, length, ◌+◌, get_elem?, refl,
  ◌≡◌, Option, true, All, Bool, List, ℕ, [], ◌∷◌, none, some,
}

All-put_block :
    (Sent : ℕ × Bytes → Type 0) (blocks : BlockDict) (begin : ℕ) (block : Bytes)
    → Sent (begin, block)
    → All Sent blocks
    → All Sent (put_block blocks begin block)
unfolding put_block
All-put_block Sent [] begin block h a = (h, tt)
All-put_block Sent ((b, d) ∷ l) begin block h a = elim (Bool-cases (b == begin)) [
  | inl e ↦ rw e (subst (λ k. Sent (k, block)) (sym ((==_iff b begin).0 e)) h, a.1)
  | inr e ↦ rw e (a.0, All-put_block Sent l begin block h a.1)
]

module _ {S : Type 0} (store : LinearStorage S) (original : Bytes) (specs : List PieceSpec)
    (Sent : ℕ × Bytes → Type 0) (sha1 : Bytes → Bytes) (addr : Addr) (connected : Addr → Bool)
    (has_manager : Bool) (d : IsWithin original specs)
    (genuine : IsGenuine sha1 original specs Sent) where
  open store use {backend}

  abbrev Safe : Loop S → Type 0
  Safe = IsSafe store original specs Sent

  abbrev IsSafeRun : Run S → Type 0
  IsSafeRun r = IsSafe store original specs Sent (state_of r)

  on_piece-IsSafe :
      (s : Loop S) (begin : ℕ) (block : Bytes) (o : Option (ℕ × PieceSpec)) (index : ℕ)
      → ((i : ℕ) (sp : PieceSpec) → o ≡ some (i, sp) → get_elem? specs i ≡ some sp)
      → Sent (begin, block)
      → Safe s
      → IsSafeRun (on_piece backend sha1 addr connected has_manager s begin block o index)
  unfolding on_piece
  on_piece-IsSafe s begin block none index f m h = h
  on_piece-IsSafe s begin block (some (i, sp)) index f m h =
      let s' = record s {
        blocks = put_block s.blocks begin block;
        bytes_downloaded = s.bytes_downloaded + length block;
        rates = count_down_bytes (length block) s.rates;
      } in
      let h' : Safe s' = record {
        stored = h.stored;
        fetched = h.fetched;
        sent = All-put_block Sent s.blocks begin block m h.sent;
      } in
      let stored =
        and_then backend sha1 addr connected has_manager
          (store_piece backend sha1 addr connected has_manager s' i sp)
          (next_piece backend sha1 addr connected has_manager) in
      IsSafe-if store original specs Sent (not (index == i)) (going s)
        (if piece_complete s'.blocks sp.length then stored else going s') h
        (IsSafe-if store original specs Sent (piece_complete s'.blocks sp.length) stored (going s')
          (and_then-IsSafe store original specs Sent sha1 addr connected has_manager d genuine
            (store_piece backend sha1 addr connected has_manager s' i sp)
            (next_piece backend sha1 addr connected has_manager)
            (store_piece-IsSafe store original specs Sent sha1 addr connected has_manager d genuine
              s' i sp (f i sp refl) h')
            (λ u k.
              next_piece-IsSafe store original specs Sent sha1 addr connected has_manager d genuine
                u k))
          h')

  -- The other tasks keep the storage right too.
  abbrev pub Relies : Turn S → Type 0
  Relies (message (piece i begin block)) = Sent (begin, block)
  Relies (message _) = Unit
  Relies (others t st e r) = IsStored store original specs t st

  on_message-IsSafe :
      (s : Loop S) (m : PeerMessage)
      → Relies (message m)
      → Safe s
      → IsSafeRun (on_message backend sha1 addr connected has_manager s m)
  unfolding on_message
  on_message-IsSafe s keep_alive r h = h
  on_message-IsSafe s choke r h =
      drop_current-IsSafe store original specs Sent sha1 addr connected has_manager
        (record s { peer_choking = true }) s.current
        (record { stored = h.stored; fetched = h.fetched; sent = h.sent })
  on_message-IsSafe s unchoke r h =
      on_unchoke-IsSafe store original specs Sent sha1 addr connected has_manager s h
  on_message-IsSafe s interested r h =
      on_interested-IsSafe store original specs Sent sha1 addr connected has_manager s s.rates h
  on_message-IsSafe s not_interested r h =
      on_not_interested-IsSafe store original specs Sent sha1 addr connected has_manager s s.rates h
  on_message-IsSafe s (have i) r h =
      on_have-IsSafe store original specs Sent sha1 addr connected has_manager s i h
  on_message-IsSafe s (bitfield bits) r h =
      on_bitfield-IsSafe store original specs Sent sha1 addr connected has_manager s bits h
  on_message-IsSafe s (request i begin len) r h =
      on_request-IsSafe store original specs Sent sha1 addr connected has_manager s i begin len h
  on_message-IsSafe s (piece i begin block) r h =
      on_piece-IsSafe s begin block s.current i h.fetched r h
  on_message-IsSafe s (cancel i begin len) r h = h

  take_turn-IsSafe :
      (s : Loop S) (t : Turn S)
      → Relies t
      → Safe s
      → IsSafeRun (take_turn backend sha1 addr connected has_manager s t)
  unfolding take_turn
  take_turn-IsSafe s (message m) r h = on_message-IsSafe s m r h
  take_turn-IsSafe s (others t st e q) r h = record {
    stored = r;
    fetched = h.fetched;
    sent = h.sent;
  }

  take_turns-IsSafe :
      (s : Loop S) (l : List (Turn S))
      → All Relies l
      → Safe s
      → IsSafeRun (take_turns backend sha1 addr connected has_manager s l)
  unfolding take_turns
  take_turns-IsSafe s [] r h = h
  take_turns-IsSafe s (t ∷ l) r h =
      and_then-IsSafe store original specs Sent sha1 addr connected has_manager d genuine
        (take_turn backend sha1 addr connected has_manager s t)
        (λ s'. take_turns backend sha1 addr connected has_manager s' l) (take_turn-IsSafe s t r.0 h)
        (λ u k. take_turns-IsSafe u l r.1 k)

  exchange-IsSafe :
      (s : Loop S) (l : List (Turn S)) (r : Result Bytes)
      → All Relies l
      → Safe s
      → IsSafeRun (exchange backend sha1 addr connected has_manager s l r)
  unfolding exchange
  exchange-IsSafe s l (raised e) r h = h
  exchange-IsSafe s l (ok bits) r h =
      take_turns-IsSafe _ l r (record { stored = h.stored; fetched = h.fetched; sent = h.sent })

  fail_current-Keeps : (t : PieceTracker) (o : Option (ℕ × PieceSpec)) → Keeps t (fail_current t o)
  fail_current-Keeps t none = record { same_have = refl; same_specs = refl }
  fail_current-Keeps t (some (i, sp)) = Keeps-mark_failed t i

  leave-IsStored :
      (s : Loop S)
      → Safe s
      → IsStored store original specs
          (leave backend sha1 addr connected has_manager s).tracker
          (leave backend sha1 addr connected has_manager s).storage
  unfolding leave remove_availability
  leave-IsStored s h =
      let k = fail_current-Keeps s.tracker s.current in
      IsStored-Keeps store original specs s.tracker _ s.storage
        (record { same_have = k.same_have; same_specs = k.same_specs }) h.stored

  ends-IsStored :
      (last : Exception) (r : Run S)
      → IsSafeRun r
      → IsStored store original specs
          (ends backend sha1 addr connected has_manager last r).0.tracker
          (ends backend sha1 addr connected has_manager last r).0.storage
  ends-IsStored last (going s) h = leave-IsStored s h
  ends-IsStored last (stopped s e) h = leave-IsStored s h

  pub run_peer-Relies :
      (t : PieceTracker) (st : S) (e : Option EndgameState) (r : Option PeerRates)
      (turns : List (Turn S)) (last : Exception)
      → IsStored store original specs t st
      → All Relies turns
      → let end =
          (run_peer backend sha1 addr connected has_manager
            (new_loop backend sha1 addr connected has_manager t st e r)
            turns
            last).0 in
        IsStored store original specs end.tracker end.storage
  unfolding run_peer
  run_peer-Relies t st e r turns last h k =
      ends-IsStored last
        (exchange backend sha1 addr connected has_manager
          (new_loop backend sha1 addr connected has_manager t st e r) turns (build_bitfield t))
        (exchange-IsSafe (new_loop backend sha1 addr connected has_manager t st e r) turns
          (build_bitfield t) k (record { stored = h; fetched = λ i sp q. cc; sent = tt }))
