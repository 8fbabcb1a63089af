-- ===== src/Engine/Loop/Served.antt =====
-- What run_peer of src/aiobt/engine.py answers to a request.
use aiobt.Python.Result.{ok}
use aiobt.Python.IntSet.{has}
use aiobt.Storage.Backend.{StorageBackend, LinearStorage}
use aiobt.Engine.Loop.Safe.{IsStored}
use aiobt.Engine.Loop.Stored.{IsWithin, IsHeld, get_elem?-drop, get_elem?-take}
use aiobt.Engine.Loop.{on_request}
use aiobt.Engine.Peer.{count_up_bytes, Loop, going, send, is_choking}
use aiobt.Engine.Splice.{bytes_ext, get_elem?-beyond}
use aiobt.Piece.{or_index_error, PieceSpec, spec}
use aiobt.Protocol.{piece}
use aiobt.Choking.{Addr}
use aiobt.Python.Bytes.{Bytes}
use aiobt.Prelude.{
  refl, length, sym, ap, not, ◌∙◌, ◌||◌, ltb→lt, Bool-cases, ◌++◌, length-take, true, ltb, drop,
  false, take, ◌≡◌, get_elem?, ◌≤◌, ◌+◌, Bool, List, ℕ, [], ◌∷◌, none, some, arith, inl, inr,
}

-- A range of a piece that is held is that range of the data.
range_of_held :
    (original v : Bytes) (sp : PieceSpec) (begin len : ℕ)
    → IsHeld original v sp
    → begin + len ≤ sp.length
    → take len (drop (sp.offset + begin) v) ≡ take len (drop (sp.offset + begin) original)
range_of_held original v sp begin len h w = bytes_ext _ _ (λ k. elim (Bool-cases (ltb k len)) [
  | inl lt ↦
      let small = ltb→lt k len lt in
      let at = λ (l : Bytes).
        get_elem?-take (drop (sp.offset + begin) l) len k small
        ∙ get_elem?-drop l (sp.offset + begin) k in
      let shift : sp.offset + begin + k ≡ sp.offset + (begin + k) = omega arith in
      at v
      ∙ ap (get_elem? v) shift
      ∙ h (begin + k) (omega arith)
      ∙ sym (at original ∙ ap (get_elem? original) shift)
  | inr ge ↦ beyond v k ge ∙ sym (beyond original k ge)
])
  where
    beyond :
        (l : Bytes) (k : ℕ)
        → ltb k len ≡ false
        → get_elem? (take len (drop (sp.offset + begin) l)) k ≡ none
    beyond l k ge =
        get_elem?-beyond _ k (ground (arith, length-take len (drop (sp.offset + begin) l)))

module _ {S : Type 0} (store : LinearStorage S) (original : Bytes) (sha1 : Bytes → Bytes)
    (addr : Addr) (connected : Addr → Bool) (has_manager : Bool) where
  open store use {backend, view, IsReady, read_lem}

  -- Of a peer that is not choked, a request within a piece that is had is answered by that block of
  -- the data, where the pieces lie within the data and the storage holds those that are had. Any
  -- request of a choked peer, and any for a piece that is not had, gets no answer and changes
  -- nothing. The backend reads and writes the linear piece space.
  pub on_request-IsStored :
      (s : Loop S) (specs : List PieceSpec) (i begin len : ℕ)
      → IsWithin original specs
      → IsStored store original specs s.tracker s.storage
      → ((sp : PieceSpec)
          → is_choking s.rates ≡ false
          → has i s.tracker.have ≡ true
          → get_elem? specs i ≡ some sp
          → begin + len ≤ sp.length
          → (s' : Loop S) × (on_request backend sha1 addr connected has_manager s i begin len
              ≡ going s')
            × (s'.out
                ≡ s.out
                  ++ (send (piece i begin (take len (drop (sp.offset + begin) original))) ∷ [])))
        × (is_choking s.rates || not (has i s.tracker.have) ≡ true
            → on_request backend sha1 addr connected has_manager s i begin len ≡ going s)
  unfolding on_request spec
  on_request-IsStored s specs i begin len d h = (answered, ground arith)
    where
      answered :
          (sp : PieceSpec)
          → is_choking s.rates ≡ false
          → has i s.tracker.have ≡ true
          → get_elem? specs i ≡ some sp
          → begin + len ≤ sp.length
          → (s' : Loop S) × (on_request backend sha1 addr connected has_manager s i begin len
              ≡ going s')
            × (s'.out
                ≡ s.out
                  ++ (send (piece i begin (take len (drop (sp.offset + begin) original))) ∷ []))
      answered sp c m e w =
          let inside = d i sp e in
          let block = take len (drop (sp.offset + begin) (view s.storage)) in
          let got : StorageBackend.read backend s.storage (sp.offset + begin) len ≡ ok block =
            read_lem s.storage (sp.offset + begin) len h.ready (omega (arith, h.same_length)) in
          let found : spec s.tracker i ≡ ok sp =
            ap (λ l. or_index_error (get_elem? l i)) h.same_specs ∙ ap or_index_error e in
          (
            record s {
              bytes_uploaded = s.bytes_uploaded + length block;
              rates = count_up_bytes (length block) s.rates;
              out = s.out ++ (send (piece i begin block) ∷ []);
            },
            rw (c, m, found, got) refl,
            ap (λ l. s.out ++ (send (piece i begin l) ∷ []))
                (range_of_held original (view s.storage) sp begin len (h.held i sp m e) w),
          )
