-- ===== src/Engine/Loop/Examples.antt =====
-- A download of six bytes in two pieces from one peer, and the theorems of the modules beside this
-- one at it. The digest keeps the first five bytes, so bytes of one digest may differ.
use aiobt.Engine.Loop.Served.{on_request-IsStored}
use aiobt.Engine.Loop.Course.{IsSent, run_peer-IsStored}
use aiobt.Piece.Marks.{IsValid}
use aiobt.Engine.Loop.Complete.{IsStored-is_complete}
use aiobt.Engine.Loop.Safe.{IsStored}
use aiobt.Engine.Loop.Stored.{IsWithin, IsGenuine}
use aiobt.Python.Result.{Exception, incomplete_read_error, ok}
use aiobt.Piece.{is_complete, new_tracker, PieceSpec, PieceTracker}
use aiobt.Python.IntSet.{has, IntSet}
use aiobt.Prelude.{
  ◌∙◌, take_all, sym, ap, length-take, ◌<◌, zero, suc, arith, some-injective, subst, not, length,
  ◌||◌, ◌≤◌, ◌++◌, ◌+◌, some, get_elem?, true, ◌≡◌, Option, refl, drop, none, take, [], ◌∷◌, false,
  Bool, replicate, List,
}
use aiobt.Choking.{Addr}
use aiobt.Python.Bytes.{Bytes}
use aiobt.Storage.Backend.{StorageBackend, LinearStorage}
use aiobt.Protocol.{bitfield, unchoke, piece}
use aiobt.Engine.Loop.{on_request, run_peer, new_loop}
use aiobt.Engine.Peer.{send, going, is_choking, Loop, Turn, message, others}
use aiobt.Engine.{assemble_piece, splice}

abbrev memory : StorageBackend Bytes
memory = record {
  read = λ v offset n. ok (take n (drop offset v));
  write = λ v offset b. ok (splice v offset b);
}

abbrev linear_memory : LinearStorage Bytes
linear_memory = record {
  backend = memory;
  view = λ v. v;
  IsReady = λ v. Unit;
  read_lem = λ v offset n r w. refl;
  write_lem = λ v offset b r w. (splice v offset b, refl, tt, refl);
}

abbrev digest : Bytes → Bytes
digest x = take 5 x

abbrev six_bytes : Bytes
six_bytes = 1 ∷ 2 ∷ 3 ∷ 4 ∷ 5 ∷ 6 ∷ []

abbrev two_specs : List PieceSpec
two_specs =
    record { index = 0; offset = 0; length = 4; hash = 1 ∷ 2 ∷ 3 ∷ 4 ∷ [] }
    ∷ record { index = 1; offset = 4; length = 2; hash = 5 ∷ 6 ∷ [] }
    ∷ []

-- The tracker with the pieces that are had.
abbrev tracker_with : IntSet → PieceTracker
tracker_with l = record {
  piece_length = 4;
  total_length = 6;
  pieces_raw = [];
  piece_count = 2;
  specs = two_specs;
  have = l;
  pending = [];
  failed = [];
  availability = [];
}

abbrev zeros : Bytes
zeros = replicate 6 0

abbrev peer_addr : Addr
peer_addr = (9 ∷ [], 6881)

abbrev none_connected : Addr → Bool
none_connected a = false

-- Both pieces, the first of them wrong at first.
abbrev turns : List (Turn Bytes)
turns =
    others (tracker_with []) zeros none none
    ∷ message (bitfield (192 ∷ []))
    ∷ message unchoke
    ∷ message (piece 0 0 (1 ∷ 2 ∷ 3 ∷ 5 ∷ []))
    ∷ message (piece 0 0 (1 ∷ 2 ∷ 3 ∷ 4 ∷ []))
    ∷ message (piece 1 0 (5 ∷ 6 ∷ []))
    ∷ []

abbrev first_state : Loop Bytes
first_state =
    new_loop memory digest peer_addr none_connected false (tracker_with []) zeros none none

abbrev storage_after : Loop Bytes × Option Exception → Bytes
storage_after (s, e) = s.storage

run_turns :
    storage_after (
      run_peer memory digest peer_addr none_connected false first_state turns incomplete_read_error)
    ≡ six_bytes
unfolding run_peer
run_turns = refl

two_specs-IsWithin : IsWithin six_bytes two_specs
two_specs-IsWithin zero sp e = subst (λ q. q.offset + q.length ≤ 6) (some-injective e) (omega arith)
two_specs-IsWithin (suc zero) sp e =
    subst (λ q. q.offset + q.length ≤ 6) (some-injective e) (omega arith)
two_specs-IsWithin (suc (suc i)) sp e = cc

-- Bytes with a digest of fewer than five bytes are their digest.
digest_small : (x h : Bytes) → length h < 5 → digest x ≡ h → x ≡ h
digest_small x h small e =
    let fits : length x ≤ 5 = omega (arith, length-take 5 x, ap length e, small) in
    sym (take_all 5 x fits) ∙ e

turns-IsGenuine : IsGenuine digest six_bytes two_specs (IsSent turns)
turns-IsGenuine zero sp blocks e a =
    subst
      (λ q.
        digest (assemble_piece blocks q.length) ≡ q.hash
        → assemble_piece blocks q.length ≡ take q.length (drop q.offset six_bytes))
      (some-injective e) (digest_small (assemble_piece blocks 4) (1 ∷ 2 ∷ 3 ∷ 4 ∷ []) (omega arith))
turns-IsGenuine (suc zero) sp blocks e a =
    subst
      (λ q.
        digest (assemble_piece blocks q.length) ≡ q.hash
        → assemble_piece blocks q.length ≡ take q.length (drop q.offset six_bytes))
      (some-injective e) (digest_small (assemble_piece blocks 2) (5 ∷ 6 ∷ []) (omega arith))
turns-IsGenuine (suc (suc i)) sp blocks e a = cc

zeros-IsStored : IsStored linear_memory six_bytes two_specs (tracker_with []) zeros
unfolding has
zeros-IsStored = record { same_specs = refl; ready = tt; same_length = refl; held = λ i sp h. cc }

run_peer-IsStored_example :
    let end =
      (run_peer memory digest peer_addr none_connected false first_state turns
        incomplete_read_error).0 in
    IsStored linear_memory six_bytes two_specs end.tracker end.storage
run_peer-IsStored_example =
    run_peer-IsStored linear_memory six_bytes two_specs digest peer_addr none_connected false
      (tracker_with []) zeros none none turns incomplete_read_error two_specs-IsWithin
      turns-IsGenuine zeros-IsStored (zeros-IsStored, (tt, (tt, (tt, (tt, (tt, tt))))))

-- The first piece is had.
half-IsStored : IsStored linear_memory six_bytes two_specs (tracker_with (0 ∷ [])) six_bytes
half-IsStored = record {
  same_specs = refl;
  ready = tt;
  same_length = refl;
  held = λ i sp h e k lt. refl;
}

abbrev serving : Loop Bytes
serving =
    new_loop memory digest peer_addr none_connected false (tracker_with (0 ∷ [])) six_bytes none
      none

on_request-IsStored_example :
    ((sp : PieceSpec)
      → is_choking serving.rates ≡ false
      → has 0 serving.tracker.have ≡ true
      → get_elem? two_specs 0 ≡ some sp
      → 1 + 2 ≤ sp.length
      → (s' : Loop Bytes) × (on_request memory digest peer_addr none_connected false serving 0 1 2
          ≡ going s')
        × (s'.out
            ≡ serving.out ++ (send (piece 0 1 (take 2 (drop (sp.offset + 1) six_bytes))) ∷ [])))
    × (is_choking serving.rates || not (has 0 serving.tracker.have) ≡ true
        → on_request memory digest peer_addr none_connected false serving 0 1 2 ≡ going serving)
on_request-IsStored_example =
    on_request-IsStored linear_memory six_bytes digest peer_addr none_connected false serving
      two_specs 0 1 2 two_specs-IsWithin half-IsStored

-- A tracker of the same six bytes, all of them had.
abbrev plain : IntSet → PieceTracker
plain l = record {
  piece_length = 4;
  total_length = 6;
  pieces_raw = [];
  piece_count = 2;
  specs =
      record { index = 0; offset = 0; length = 4; hash = [] }
      ∷ record { index = 1; offset = 4; length = 2; hash = [] }
      ∷ [];
  have = l;
  pending = [];
  failed = [];
  availability = [];
}

new_plain : new_tracker 4 6 [] ≡ ok (plain [])
unfolding new_tracker
new_plain = refl

plain-IsStored : IsStored linear_memory six_bytes (plain []).specs (plain (1 ∷ 0 ∷ [])) six_bytes
plain-IsStored = record {
  same_specs = refl;
  ready = tt;
  same_length = refl;
  held = λ i sp h e k lt. refl;
}

plain-IsValid : IsValid (plain (1 ∷ 0 ∷ []))
unfolding has
plain-IsValid = record {
  have = ((refl, (refl, tt)), (omega arith, (omega arith, tt)));
  pending = (tt, tt);
  failed = (tt, tt);
}

plain-is_complete : is_complete (plain (1 ∷ 0 ∷ [])) ≡ true
unfolding is_complete
plain-is_complete = refl

IsStored-is_complete_example : LinearStorage.view linear_memory six_bytes ≡ six_bytes
IsStored-is_complete_example =
    IsStored-is_complete linear_memory six_bytes [] 4 (plain []) (plain (1 ∷ 0 ∷ [])) six_bytes
      new_plain plain-IsStored plain-IsValid refl plain-is_complete
