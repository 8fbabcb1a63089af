-- ===== src/Piece/Examples.antt =====
-- Runs of the piece tracker, and the theorems of the modules beside this one at inputs that meet
-- their hypotheses.
use aiobt.Piece.History.{apply_marks_history, HistoryIs}
use aiobt.Prelude.{List, [], ◌∷◌, some, ◌≡◌, refl}
use aiobt.Python.Result.{ok}
use aiobt.Python.IntSet.{has}
use aiobt.Piece.{
  PieceTracker, new_tracker, select_piece, mark_have, update_availability, remove_availability,
}
use aiobt.Piece.Specs.{SpecIs, new_tracker-spec}
use aiobt.Piece.Availability.{peers_with, remove-update_availability}
use aiobt.Piece.Marks.{IsValid, Mark, have, pending, failed, apply_marks}
use aiobt.Piece.Select.{RarestIs, select_piece_lem}

-- Ten bytes in pieces of four.
abbrev sample : PieceTracker
sample = record {
  piece_length = 4;
  total_length = 10;
  pieces_raw = [];
  piece_count = 3;
  specs =
      record { index = 0; offset = 0; length = 4; hash = [] }
      ∷ record { index = 1; offset = 4; length = 4; hash = [] }
      ∷ record { index = 2; offset = 8; length = 2; hash = [] }
      ∷ [];
  have = [];
  pending = [];
  failed = [];
  availability = [];
}

new_sample : new_tracker 4 10 [] ≡ ok sample
unfolding new_tracker
new_sample = refl

-- Piece 0 is had, and piece 2 is rarer than piece 1.
abbrev downloading : PieceTracker
downloading = update_availability (mark_have sample 0) (0 ∷ 1 ∷ [])

select_rarest : select_piece downloading ≡ some 2
unfolding select_piece update_availability mark_have
select_rarest = refl

new_tracker-spec_example : SpecIs 4 10 [] sample 2
new_tracker-spec_example = new_tracker-spec 4 10 [] 2 new_sample

remove-update_availability_example :
    peers_with
      (remove_availability
        (update_availability (update_availability sample (0 ∷ 2 ∷ [])) (2 ∷ []))
        (0 ∷ 2 ∷ []))
      2
    ≡ peers_with (update_availability sample (2 ∷ [])) 2
remove-update_availability_example =
    remove-update_availability sample (0 ∷ 2 ∷ []) (2 ∷ []) 2 (unfold has in (refl, (refl, tt)))
      (unfold has in (refl, tt))

abbrev marks : List Mark
marks = pending 0 ∷ have 0 ∷ failed 2 ∷ []

apply_marks_history_example : HistoryIs (apply_marks sample marks) marks 0
apply_marks_history_example = apply_marks_history 4 10 [] marks 0 new_sample

sample-IsValid : IsValid sample
sample-IsValid = record { have = (tt, tt); pending = (tt, tt); failed = (tt, tt) }

select_piece_lem_example : RarestIs downloading (select_piece downloading)
select_piece_lem_example = select_piece_lem downloading
