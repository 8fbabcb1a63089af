-- ===== src/Engine/Loop/Turns.antt =====
-- run_peer of src/aiobt/engine.py keeps the storage right, turn by turn.
use aiobt.Python.IntSet.{has-add, has}
use aiobt.Python.Result.{ok-injective, raised, ok, Result}
use aiobt.Storage.Backend.{StorageBackend, LinearStorage}
use aiobt.Engine.{BlockDict, splice, assemble_piece, broadcast_endgame_cancel}
use aiobt.Engine.Splice.{length-splice}
use aiobt.Engine.Endgame.{EndgameState, piece_done}
use aiobt.Engine.Loop.Starts.{Keeps-mark_failed}
use aiobt.Engine.Loop.Stored.{
  IsWithin, IsGenuine, IsHeld, IsHeld-splice, IsHeld-written, length-range,
}
use aiobt.Engine.Loop.Safe.{IsStored, IsSafe, IsStored-Keeps, IsSafe-if, begin_piece-IsSafe}
use aiobt.Engine.Loop.{
  written, cancelled, cancel_others, endgame_done, store_piece, next_piece, and_then, begin_piece,
}
use aiobt.Engine.Peer.{
  download_completed, send, Loop, Run, going, stopped, state_of, is_requested, discard_addr,
}
use aiobt.Piece.{PieceTracker, PieceSpec, mark_have, mark_failed, verify_piece, is_complete}
use aiobt.Protocol.{PeerMessage, not_interested}
use aiobt.Choking.{Addr}
use aiobt.Python.Bytes.{Bytes, bytes_eq-true}
use aiobt.Prelude.{
  All, ==_iff, some-injective, ◌==◌, sym, subst, not, ◌∙◌, if◌then◌else◌, ap, length, drop, ◌++◌,
  refl, take, ◌≤◌, Bool-cases, ◌+◌, false, ◌&&◌, ◌≡◌, true, Option, Bool, get_elem?, List, ℕ, [],
  ◌∷◌, none, some, arith, inl, inr,
}

module _ {S : Type 0} (store : LinearStorage S) (original : Bytes) (specs : List PieceSpec) where
  open store use {backend, view, IsReady, write_lem}

  -- A piece of the data, written in its place, may be had.
  mark_have-IsStored :
      (t : PieceTracker) (st st' : S) (i : ℕ) (sp : PieceSpec)
      → IsStored store original specs t st
      → get_elem? specs i ≡ some sp
      → sp.offset + sp.length ≤ length original
      → IsReady st'
      → view st' ≡ splice (view st) sp.offset (take sp.length (drop sp.offset original))
      → IsStored store original specs (mark_have t i) st'
  unfolding mark_have
  mark_have-IsStored t st st' i sp h e w r v =
      let size = length-range original sp.offset sp.length w in
      record {
        same_specs = h.same_specs;
        ready = r;
        same_length =
            ap length v
            ∙ length-splice (view st) sp.offset _ (omega (arith, size, h.same_length))
            ∙ h.same_length;
        held = λ j sq m q.
            subst (λ b. IsHeld original b sq) (sym v)
              (elim (Bool-cases (i == j)) [
                | inl k ↦
                    let same : sp ≡ sq =
                      some-injective (sym e ∙ ap (get_elem? specs) ((==_iff i j).0 k) ∙ q) in
                    subst
                      (λ x.
                        IsHeld original
                          (splice (view st) sp.offset (take sp.length (drop sp.offset original))) x)
                      same (IsHeld-written original (view st) sp h.same_length w)
                | inr k ↦
                    let old : has j t.have ≡ true = ground (arith, has-add i j t.have, m, k) in
                    IsHeld-splice original (view st) sp.offset sp.length sq h.same_length w
                      (h.held j sq old q)
              ]);
      }

  module _ (Sent : ℕ × Bytes → Type 0) (sha1 : Bytes → Bytes) (addr : Addr)
      (connected : Addr → Bool) (has_manager : Bool) (d : IsWithin original specs)
      (genuine : IsGenuine sha1 original specs Sent) where
    -- The data of a piece, written by the backend.
    written-IsStored :
        (t : PieceTracker) (st : S) (i : ℕ) (sp : PieceSpec) (blocks : BlockDict) (st' : S)
        → IsStored store original specs t st
        → get_elem? specs i ≡ some sp
        → All Sent blocks
        → verify_piece sha1 (assemble_piece blocks sp.length) sp.hash ≡ true
        → StorageBackend.write backend st sp.offset (assemble_piece blocks sp.length) ≡ ok st'
        → IsStored store original specs (mark_have t i) st'
    unfolding verify_piece
    written-IsStored t st i sp blocks st' h e m v p =
        let b = assemble_piece blocks sp.length in
        let data' : b ≡ take sp.length (drop sp.offset original) =
          genuine i sp blocks e m (bytes_eq-true (sha1 b) sp.hash v) in
        let w = d i sp e in
        let size : length b ≡ sp.length =
          ap length data' ∙ length-range original sp.offset sp.length w in
        let (u, q, r, n) = write_lem st sp.offset b h.ready (omega (arith, size, h.same_length)) in
        let same : u ≡ st' = ok-injective (sym q ∙ p) in
        mark_have-IsStored t st st' i sp h e w (subst IsReady same r)
          (ap view (sym same) ∙ n ∙ ap (splice (view st) sp.offset) data')

    abbrev SafeRun : Run S → Type 0
    SafeRun r = IsSafe store original specs Sent (state_of r)

    cancelled-IsSafe :
        (s : Loop S) (r : Result (List (Addr × PeerMessage)))
        → IsSafe store original specs Sent s
        → SafeRun (cancelled backend sha1 addr connected has_manager s r)
    cancelled-IsSafe s (raised e) h = h
    cancelled-IsSafe s (ok l) h = record { stored = h.stored; fetched = h.fetched; sent = h.sent }

    endgame_done-IsSafe :
        (s : Loop S) (i : ℕ) (sp : PieceSpec) (o : Option EndgameState)
        → IsSafe store original specs Sent s
        → SafeRun (endgame_done backend sha1 addr connected has_manager s i sp o)
    endgame_done-IsSafe s i sp none h = h
    endgame_done-IsSafe s i sp (some e) h =
        let (e', addrs) = piece_done e i in
        let s' = record s { endgame = some e' } in
        IsSafe-if store original specs Sent (e.active && is_requested e.peer_requests i)
          (cancel_others backend sha1 addr connected has_manager s i sp (e', addrs)) (going s)
          (cancelled-IsSafe s' (broadcast_endgame_cancel connected i sp (discard_addr addr addrs))
            (record { stored = h.stored; fetched = h.fetched; sent = h.sent }))
          h

    written-IsSafe :
        (s : Loop S) (i : ℕ) (sp : PieceSpec) (r : Result S)
        → IsSafe store original specs Sent s
        → ((st : S) → r ≡ ok st → IsStored store original specs (mark_have s.tracker i) st)
        → SafeRun (written backend sha1 addr connected has_manager s i sp r)
    written-IsSafe s i sp (raised e) h f = h
    written-IsSafe s i sp (ok st) h f =
        endgame_done-IsSafe _ i sp s.endgame
          (record { stored = f st refl; fetched = h.fetched; sent = h.sent })

    pub store_piece-IsSafe :
        (s : Loop S) (i : ℕ) (sp : PieceSpec)
        → get_elem? specs i ≡ some sp
        → IsSafe store original specs Sent s
        → SafeRun (store_piece backend sha1 addr connected has_manager s i sp)
    unfolding store_piece
    store_piece-IsSafe s i sp e h =
        let b = assemble_piece s.blocks sp.length in
        elim (Bool-cases (verify_piece sha1 b sp.hash)) [
          | inl v ↦ rw v (
              written-IsSafe s i sp (StorageBackend.write backend s.storage sp.offset b) h (λ st p.
                written-IsStored s.tracker s.storage i sp s.blocks st h.stored e h.sent v p))
          | inr v ↦ rw v (record {
            stored =
                IsStored-Keeps store original specs s.tracker (mark_failed s.tracker i) s.storage
                  (Keeps-mark_failed s.tracker i) h.stored;
            fetched = h.fetched;
            sent = h.sent;
          })
        ]

    pub next_piece-IsSafe :
        (s : Loop S)
        → IsSafe store original specs Sent s
        → SafeRun (next_piece backend sha1 addr connected has_manager s)
    unfolding next_piece
    next_piece-IsSafe s h =
        let s' = record s { current = none; blocks = [] } in
        let h' : IsSafe store original specs Sent s' = record {
          stored = h.stored;
          fetched = λ i sp e. cc;
          sent = tt;
        } in
        let end = record s' {
          done = true;
          am_interested = false;
          out = s.out ++ (download_completed ∷ send not_interested ∷ []);
        } in
        IsSafe-if store original specs Sent (is_complete s.tracker) (going end)
          (if not s.peer_choking
            then begin_piece backend sha1 addr connected has_manager s'
            else going s')
          (record { stored = h'.stored; fetched = h'.fetched; sent = h'.sent })
          (IsSafe-if store original specs Sent (not s.peer_choking)
            (begin_piece backend sha1 addr connected has_manager s') (going s')
            (begin_piece-IsSafe store original specs Sent sha1 addr connected has_manager s' h') h')

    pub and_then-IsSafe :
        (r : Run S) (f : Loop S → Run S)
        → SafeRun r
        → ((s : Loop S) → IsSafe store original specs Sent s → SafeRun (f s))
        → SafeRun (and_then backend sha1 addr connected has_manager r f)
    and_then-IsSafe (going s) f h k = k s h
    and_then-IsSafe (stopped s e) f h k = h
