-- ===== src/Engine/Endgame.antt =====
-- EndgameState of src/aiobt/engine.py: which addresses have outstanding requests for which piece.
use aiobt.Python.IntSet.{discard, IntSet}
use aiobt.Prelude.{true, length, ◌==◌, false, Bool, if◌then◌else◌, ℕ, List, [], ◌∷◌}
use aiobt.Choking.{Addr, has_addr}

abbrev pub Requests : Type 0
Requests = List (ℕ × List Addr)

pub record EndgameState : Type 0 where
  pub active : Bool
  pub pieces : IntSet
  pub peer_requests : Requests

abbrev pub new_endgame : EndgameState
new_endgame = record { active = false; pieces = []; peer_requests = [] }

-- peer_requests.get(i, set())
unfoldable pub requests_of : Requests → ℕ → List Addr
requests_of [] i = []
requests_of ((j, s) ∷ d) i = let rest = requests_of d i in if j == i then s else rest

-- s.add(a)
abbrev pub add_addr : Addr → List Addr → List Addr
add_addr a s = if has_addr a s then s else a ∷ s

-- self.peer_requests.setdefault(i, set())
unfoldable pub set_default : Requests → ℕ → Requests
set_default [] i = (i, []) ∷ []
set_default ((j, s) ∷ d) i =
    let rest = set_default d i in if j == i then (j, s) ∷ d else (j, s) ∷ rest

unfoldable pub set_defaults : Requests → IntSet → Requests
unfolding set_default
set_defaults d [] = d
set_defaults d (i ∷ s) = set_defaults (set_default d i) s

-- self.peer_requests.setdefault(i, set()).add(a)
unfoldable pub add_request : Requests → ℕ → Addr → Requests
unfolding has_addr
add_request [] i a = (i, a ∷ []) ∷ []
add_request ((j, s) ∷ d) i a =
    let rest = add_request d i a in if j == i then (j, add_addr a s) ∷ d else (j, s) ∷ rest

-- self.peer_requests.pop(i, set()), where a key occurs once
unfoldable pub pop_requests : Requests → ℕ → Requests
pop_requests [] i = []
pop_requests ((j, s) ∷ d) i = let rest = pop_requests d i in if j == i then rest else (j, s) ∷ rest

unfoldable pub enter : EndgameState → IntSet → EndgameState
unfolding set_defaults
enter e pending_pieces = record {
  active = true;
  pieces = pending_pieces;
  peer_requests = set_defaults e.peer_requests pending_pieces;
}

unfoldable pub record_request : EndgameState → ℕ → Addr → EndgameState
unfolding add_request
record_request e i a = record e { peer_requests = add_request e.peer_requests i a }

-- The state behind the call, and the addresses that it returns.
unfoldable pub piece_done : EndgameState → ℕ → EndgameState × List Addr
unfolding requests_of pop_requests discard
piece_done e i =
    let pieces' = discard i e.pieces in
    (
      record {
        active = if length pieces' == 0 then false else e.active;
        pieces = pieces';
        peer_requests = pop_requests e.peer_requests i;
      },
      requests_of e.peer_requests i,
    )
