-- ===== src/Engine/Cancels.antt =====
-- The endgame state of src/aiobt/engine.py over any calls of its methods.
use aiobt.Choking.Slots.{addr_eq-true}
use aiobt.Python.IntSet.{discard, IntSet}
use aiobt.Engine.Endgame.{
  new_endgame, EndgameState, add_request, Requests, set_default, record_request, pop_requests,
  requests_of, set_defaults, piece_done, add_addr, enter,
}
use aiobt.Prelude.{
  refl, ◌&&◌, not, if◌then◌else◌, ap, All, ◌∙◌, ◌==◌, ◌≤◌, arith, ◌||◌, length, true, false, ◌<◌,
  ◌≡◌, Bool, ℕ, List, [], ◌∷◌,
}
use aiobt.Choking.{Addr, addr_eq, has_addr}

-- A call of a method of EndgameState.
pub data Call : Type 0 where
  entered : IntSet → Call
  requested : ℕ → Addr → Call
  done : ℕ → Call

-- The state after some calls, the latest first.
unfoldable pub state_after : List Call → EndgameState
unfolding enter record_request piece_done
state_after [] = new_endgame
state_after (entered s ∷ l) = enter (state_after l) s
state_after (requested i a ∷ l) = record_request (state_after l) i a
state_after (done i ∷ l) = (piece_done (state_after l) i).0

-- The address asked for the piece, and the piece was not done since.
abbrev pub is_outstanding : List Call → ℕ → Addr → Bool
is_outstanding [] i b = false
is_outstanding (entered s ∷ l) i b = is_outstanding l i b
is_outstanding (requested j a ∷ l) i b = (j == i && addr_eq b a) || is_outstanding l i b
is_outstanding (done j ∷ l) i b = not (j == i) && is_outstanding l i b

requests_of-set_default :
    (d : Requests) (i j : ℕ) → requests_of (set_default d i) j ≡ requests_of d j
unfolding requests_of set_default
requests_of-set_default [] i j = ground arith
requests_of-set_default ((k, s) ∷ d) i j = ground (arith, requests_of-set_default d i j)

requests_of-set_defaults :
    (d : Requests) (s : IntSet) (j : ℕ) → requests_of (set_defaults d s) j ≡ requests_of d j
unfolding set_defaults
requests_of-set_defaults d [] j = refl
requests_of-set_defaults d (i ∷ s) j =
    requests_of-set_defaults (set_default d i) s j ∙ requests_of-set_default d i j

requests_of-pop_requests :
    (d : Requests) (i j : ℕ)
    → requests_of (pop_requests d i) j ≡ (if i == j then [] else requests_of d j)
unfolding requests_of pop_requests
requests_of-pop_requests [] i j = ground arith
requests_of-pop_requests ((k, s) ∷ d) i j = ground (arith, requests_of-pop_requests d i j)

has_addr-eq : (a b : Addr) (s : List Addr) → addr_eq b a ≡ true → has_addr b s ≡ has_addr a s
has_addr-eq a b s h = ap (λ x. has_addr x s) (addr_eq-true b a h)

has_addr-add_addr :
    (a b : Addr) (s : List Addr) → has_addr b (add_addr a s) ≡ addr_eq b a || has_addr b s
unfolding has_addr
has_addr-add_addr a b s = ground (arith, has_addr-eq a b s)

requests_of-add_request :
    (d : Requests) (i j : ℕ) (a b : Addr)
    → has_addr b (requests_of (add_request d i a) j)
      ≡ (i == j && addr_eq b a) || has_addr b (requests_of d j)
unfolding requests_of add_request has_addr
requests_of-add_request [] i j a b = ground arith
requests_of-add_request ((k, s) ∷ d) i j a b =
    ground (arith, requests_of-add_request d i j a b, has_addr-add_addr a b s)

requests_of-state_after :
    (l : List Call) (i : ℕ) (b : Addr)
    → has_addr b (requests_of (state_after l).peer_requests i) ≡ is_outstanding l i b
unfolding state_after enter record_request piece_done has_addr requests_of
requests_of-state_after [] i b = refl
requests_of-state_after (entered s ∷ l) i b =
    rw (requests_of-set_defaults (state_after l).peer_requests s i) (requests_of-state_after l i b)
requests_of-state_after (requested j a ∷ l) i b = ground (
  arith,
  requests_of-add_request (state_after l).peer_requests j i a b,
  requests_of-state_after l i b,
)
requests_of-state_after (done j ∷ l) i b = ground (
  arith,
  requests_of-pop_requests (state_after l).peer_requests j i,
  requests_of-state_after l i b,
)

-- After any calls on a new endgame state, `piece_done` returns exactly the addresses that were
-- recorded for the piece since it was last done.
pub piece_done-state_after :
    (l : List Call) (i : ℕ) (b : Addr)
    → has_addr b (piece_done (state_after l) i).1 ≡ is_outstanding l i b
unfolding piece_done
piece_done-state_after l i b = requests_of-state_after l i b

length-discard_le : (i : ℕ) (s : IntSet) → length (discard i s) ≤ length s
unfolding discard
length-discard_le i [] = omega arith
length-discard_le i (j ∷ s) = ground (arith, length-discard_le i s)

-- Each set that the endgame was entered with has an element.
abbrev pub HasPieces : Call → Type 0
HasPieces (entered s) = 0 < length s
HasPieces (requested i a) = Unit
HasPieces (done i) = Unit

-- Where it is only entered with pieces that remain, the endgame is active exactly while some of its
-- pieces are not done.
pub active_iff :
    (l : List Call)
    → All HasPieces l
    → (state_after l).active ≡ not (length (state_after l).pieces == 0)
unfolding state_after enter record_request piece_done
active_iff [] h = refl
active_iff (entered s ∷ l) h = ground (arith, h.0)
active_iff (requested i a ∷ l) h = active_iff l h.1
active_iff (done i ∷ l) h =
    ground (arith, active_iff l h.1, length-discard_le i (state_after l).pieces)
