-- ===== src/Engine/Loop/Safe.antt =====
-- What run_peer of src/aiobt/engine.py keeps right, and that the messages without data keep it.
use aiobt.Bitfield.{bitfield_to_set}
use aiobt.Protocol.{PeerMessage}
use aiobt.Python.IntSet.{IntSet, has}
use aiobt.Python.Result.{raised, Exception, ok-injective, ok, Result}
use aiobt.Storage.Backend.{StorageBackend, LinearStorage}
use aiobt.Engine.{request_piece_blocks}
use aiobt.Engine.Start.{start_piece, Started}
use aiobt.Engine.Loop.Starts.{Keeps, IsFrom, start_piece-IsFrom, Keeps-mark_failed}
use aiobt.Engine.Loop.Stored.{IsHeld}
use aiobt.Engine.Loop.{
  with_piece, has_current, requested, on_interested, on_not_interested, serve_at, serve,
  drop_current, express_interest, on_request, on_unchoke, on_bitfield, on_have, request_current,
  begin_piece,
}
use aiobt.Engine.Peer.{is_choking, Loop, Run, going, state_of}
use aiobt.Piece.{
  is_complete, or_index_error, update_availability, PieceTracker, PieceSpec, spec, mark_failed,
}
use aiobt.Choking.{PeerRates, Addr}
use aiobt.Python.Bytes.{Bytes}
use aiobt.Prelude.{
  All, ◌||◌, ◌&&◌, ◌+◌, refl, not, Bool-cases, false, if◌then◌else◌, sym, true, get_elem?, length,
  ap, Option, ◌∙◌, Bool, ◌≡◌, List, ℕ, [], ◌∷◌, none, some, inl, inr,
}

pub or_index_error-ok :
    (o : Option PieceSpec) {sp : PieceSpec} → or_index_error o ≡ ok sp → o ≡ some sp
or_index_error-ok none e = cc
or_index_error-ok (some x) e = ap some (ok-injective e)

module _ {S : Type 0} (store : LinearStorage S) (original : Bytes) (specs : List PieceSpec) where
  open store use {backend, view, IsReady}

  -- The storage is ready, has the size of the data, and holds each piece that is had.
  pub record IsStored (t : PieceTracker) (st : S) : Type 0 where
    pub same_specs : t.specs ≡ specs
    pub ready : IsReady st
    pub same_length : length (view st) ≡ length original
    pub held :
        (i : ℕ) (sp : PieceSpec)
        → has i t.have ≡ true
        → get_elem? specs i ≡ some sp
        → IsHeld original (view st) sp

  pub IsStored-Keeps : (t u : PieceTracker) (st : S) → Keeps t u → IsStored t st → IsStored u st
  IsStored-Keeps t u st k h = record {
    same_specs = k.same_specs ∙ h.same_specs;
    ready = h.ready;
    same_length = h.same_length;
    held = λ i sp e. h.held i sp (ap (has i) (sym k.same_have) ∙ e);
  }

  spec-ok :
      (t : PieceTracker) (i : ℕ) (sp : PieceSpec)
      → spec t i ≡ ok sp
      → t.specs ≡ specs
      → get_elem? specs i ≡ some sp
  unfolding spec
  spec-ok t i sp e same =
      or_index_error-ok (get_elem? specs i)
        (ap (λ l. or_index_error (get_elem? l i)) (sym same) ∙ e)

module _ {S : Type 0} (store : LinearStorage S) (original : Bytes) (specs : List PieceSpec)
    (Sent : ℕ × Bytes → Type 0) where
  open store use {backend, view, IsReady}

  -- The piece that is fetched has its own spec, and its blocks were sent.
  pub record IsSafe (s : Loop S) : Type 0 where
    pub stored : IsStored store original specs s.tracker s.storage
    pub fetched : (i : ℕ) (sp : PieceSpec) → s.current ≡ some (i, sp) → get_elem? specs i ≡ some sp
    pub sent : All Sent s.blocks

  pub IsSafe-if :
      (b : Bool) (x y : Run S)
      → IsSafe (state_of x)
      → IsSafe (state_of y)
      → IsSafe (state_of (if b then x else y))
  IsSafe-if true x y h k = h
  IsSafe-if false x y h k = k

  module _ (sha1 : Bytes → Bytes) (addr : Addr) (connected : Addr → Bool) (has_manager : Bool) where
    requested-IsSafe :
        (s : Loop S) (r : Result (List PeerMessage))
        → IsSafe s
        → IsSafe (state_of (requested backend sha1 addr connected has_manager s r))
    requested-IsSafe s (raised e) h = h
    requested-IsSafe s (ok l) h = record { stored = h.stored; fetched = h.fetched; sent = h.sent }

    request_current-IsSafe :
        (s : Loop S) (o : Option (ℕ × PieceSpec))
        → IsSafe s
        → IsSafe (state_of (request_current backend sha1 addr connected has_manager s o))
    request_current-IsSafe s none h = h
    request_current-IsSafe s (some (i, sp)) h = requested-IsSafe s (request_piece_blocks sp) h

    with_piece-IsSafe :
        (s : Loop S) (r : Result Started)
        → ((x : Started) → r ≡ ok x → IsFrom s.tracker x)
        → IsStored store original specs s.tracker s.storage
        → ((e : Exception) → r ≡ raised e → IsSafe s)
        → IsSafe (state_of (with_piece backend sha1 addr connected has_manager s r))
    with_piece-IsSafe s (raised e) f h k = k e refl
    with_piece-IsSafe s (ok x) f h k =
        let (keeps, chosen) = f x refl in
        request_current-IsSafe _ x.choice (record {
          stored = IsStored-Keeps store original specs s.tracker x.tracker s.storage keeps h;
          fetched =
              λ i sp q. spec-ok store original specs s.tracker i sp (chosen i sp q) h.same_specs;
          sent = tt;
        })

    pub begin_piece-IsSafe :
        (s : Loop S)
        → IsSafe s
        → IsSafe (state_of (begin_piece backend sha1 addr connected has_manager s))
    unfolding begin_piece
    begin_piece-IsSafe s h =
        with_piece-IsSafe s (start_piece s.tracker s.peer_pieces s.endgame addr)
          (λ x e. start_piece-IsFrom s.tracker s.peer_pieces s.endgame addr e) h.stored (λ e p. h)

    express_interest-IsSafe :
        (again : Bool) (s : Loop S)
        → IsSafe s
        → IsSafe (express_interest backend sha1 addr connected has_manager again s)
    express_interest-IsSafe again s h =
        elim (Bool-cases (not (is_complete s.tracker) && (again || not s.am_interested))) [
          | inl e ↦ rw e (record { stored = h.stored; fetched = h.fetched; sent = h.sent })
          | inr e ↦ rw e h
        ]

    Keeps-update : (t : PieceTracker) (l : IntSet) → Keeps t (update_availability t l)
    unfolding update_availability
    Keeps-update t l = record { same_have = refl; same_specs = refl }

    pub on_bitfield-IsSafe :
        (s : Loop S) (bits : Bytes)
        → IsSafe s
        → IsSafe (on_bitfield backend sha1 addr connected has_manager s bits)
    unfolding on_bitfield
    on_bitfield-IsSafe s bits h = express_interest-IsSafe true _ (record {
      stored =
          IsStored-Keeps store original specs s.tracker _ s.storage
            (Keeps-update s.tracker (bitfield_to_set bits s.tracker.piece_count)) h.stored;
      fetched = h.fetched;
      sent = h.sent;
    })

    pub on_have-IsSafe :
        (s : Loop S) (i : ℕ)
        → IsSafe s
        → IsSafe (on_have backend sha1 addr connected has_manager s i)
    unfolding on_have
    on_have-IsSafe s i h = express_interest-IsSafe false _ (record {
      stored =
          IsStored-Keeps store original specs s.tracker _ s.storage
            (Keeps-update s.tracker (i ∷ [])) h.stored;
      fetched = h.fetched;
      sent = h.sent;
    })

    pub on_interested-IsSafe :
        (s : Loop S) (r : Option PeerRates)
        → IsSafe s
        → IsSafe (on_interested backend sha1 addr connected has_manager s r)
    on_interested-IsSafe s none h = record { stored = h.stored; fetched = h.fetched; sent = h.sent }
    on_interested-IsSafe s (some r) h = record {
      stored = h.stored;
      fetched = h.fetched;
      sent = h.sent;
    }

    pub on_not_interested-IsSafe :
        (s : Loop S) (r : Option PeerRates)
        → IsSafe s
        → IsSafe (on_not_interested backend sha1 addr connected has_manager s r)
    on_not_interested-IsSafe s none h = h
    on_not_interested-IsSafe s (some r) h = record {
      stored = h.stored;
      fetched = h.fetched;
      sent = h.sent;
    }

    pub drop_current-IsSafe :
        (s : Loop S) (o : Option (ℕ × PieceSpec))
        → IsSafe s
        → IsSafe (drop_current backend sha1 addr connected has_manager s o)
    drop_current-IsSafe s none h = h
    drop_current-IsSafe s (some (i, sp)) h = record {
      stored =
          IsStored-Keeps store original specs s.tracker (mark_failed s.tracker i) s.storage
            (Keeps-mark_failed s.tracker i) h.stored;
      fetched = λ j q e. cc;
      sent = tt;
    }

    pub on_unchoke-IsSafe :
        (s : Loop S)
        → IsSafe s
        → IsSafe (state_of (on_unchoke backend sha1 addr connected has_manager s))
    unfolding on_unchoke
    on_unchoke-IsSafe s h =
        let h' : IsSafe (record s { peer_choking = false }) = record {
          stored = h.stored;
          fetched = h.fetched;
          sent = h.sent;
        } in
        let s' = record s { peer_choking = false } in
        IsSafe-if
          (not (is_complete s.tracker)
            && not (has_current backend sha1 addr connected has_manager s.current))
          (begin_piece backend sha1 addr connected has_manager s') (going s')
          (begin_piece-IsSafe s' h') h'

    serve-IsSafe :
        (s : Loop S) (i begin : ℕ) (r : Result Bytes)
        → IsSafe s
        → IsSafe (state_of (serve backend sha1 addr connected has_manager s i begin r))
    serve-IsSafe s i begin (raised e) h = h
    serve-IsSafe s i begin (ok b) h = record {
      stored = h.stored;
      fetched = h.fetched;
      sent = h.sent;
    }

    serve_at-IsSafe :
        (s : Loop S) (i begin len : ℕ) (r : Result PieceSpec)
        → IsSafe s
        → IsSafe (state_of (serve_at backend sha1 addr connected has_manager s i begin len r))
    serve_at-IsSafe s i begin len (raised e) h = h
    serve_at-IsSafe s i begin len (ok sp) h =
        serve-IsSafe s i begin (StorageBackend.read backend s.storage (sp.offset + begin) len) h

    pub on_request-IsSafe :
        (s : Loop S) (i begin len : ℕ)
        → IsSafe s
        → IsSafe (state_of (on_request backend sha1 addr connected has_manager s i begin len))
    unfolding on_request
    on_request-IsSafe s i begin len h =
        let served =
          serve_at backend sha1 addr connected has_manager s i begin len (spec s.tracker i) in
        IsSafe-if (is_choking s.rates) (going s) (if has i s.tracker.have then served else going s)
          h
          (IsSafe-if (has i s.tracker.have) served (going s)
            (serve_at-IsSafe s i begin len (spec s.tracker i) h) h)
