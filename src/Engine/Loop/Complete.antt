-- ===== src/Engine/Loop/Complete.antt =====
-- A complete download: what src/aiobt/engine.py leaves in the storage then.
use aiobt.Python.Result.{ok}
use aiobt.Storage.Backend.{LinearStorage}
use aiobt.Engine.Loop.Safe.{IsStored, or_index_error-ok}
use aiobt.Engine.Splice.{bytes_ext, get_elem?-beyond}
use aiobt.Piece.{PieceTracker, new_tracker, is_complete, spec}
use aiobt.Piece.Marks.{IsValid, is_complete_iff}
use aiobt.Piece.Specs.{new_tracker-spec, new_tracker-covers, spec_at}
use aiobt.Python.Bytes.{Bytes}
use aiobt.Prelude.{
  subst, sym, ◌∙◌, ◌%◌, get_elem?, ◌/◌, ltb→lt, ltb, Bool-cases, true, ◌≡◌, length, ℕ, arith, inl,
  inr,
}

-- Where each piece that is had is held and every piece is had, the storage holds the data.
pub IsStored-is_complete :
    {S : Type 0} (store : LinearStorage S) (original raw : Bytes) (pl : ℕ) (t0 t : PieceTracker)
    (st : S)
    → new_tracker pl (length original) raw ≡ ok t0
    → IsStored store original t0.specs t st
    → IsValid t
    → t.piece_count ≡ t0.piece_count
    → is_complete t ≡ true
    → LinearStorage.view store st ≡ original
unfolding spec
IsStored-is_complete store original raw pl t0 t st new h v n c = bytes_ext _ original (λ j.
    elim (Bool-cases (ltb j (length original))) [
      | inl lt ↦
          let small = ltb→lt j (length original) lt in
          let (p, within, whole, part) = new_tracker-covers pl (length original) raw j new small in
          let i = j / pl in
          let (e, starts, some_bytes) =
            (new_tracker-spec pl (length original) raw i new).0 within in
          let had = (is_complete_iff t v).0 c i (omega arith) in
          subst (λ k. get_elem? (LinearStorage.view store st) k ≡ get_elem? original k) whole
            (h.held i (spec_at pl (length original) raw i) had
              (or_index_error-ok (get_elem? t0.specs i) e) (j % pl) (omega arith))
      | inr ge ↦
          get_elem?-beyond _ j (ground (arith, h.same_length))
          ∙ sym (get_elem?-beyond original j (ground arith))
    ])
