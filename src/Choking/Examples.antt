-- ===== src/Choking/Examples.antt =====
-- Three peers and one regular slot, and the theorems of the modules beside this one at them.
use aiobt.Choking.Registry.{ManagerCall, changed, registered, unregistered, rechoked}
use aiobt.Choking.Rechoke.{rechoke_lem, changes, to_unchoke_fair, rechoke-slots, settled}
use aiobt.Protocol.{unchoke, choke}
use aiobt.Choking.Slots.{HasDistinct}
use aiobt.Choking.{
  rate, is_interested, has_addr, PeerRates, Addr, rechoke, to_unchoke, ChokingManager,
}
use aiobt.Python.Bytes.{bytes_eq}
use aiobt.Prelude.{
  inl, refl, ◌+◌, false, arith, not, map, some, none, leb, ◌&&◌, true, ◌≡◌, List, count, ◌<◌, ◌≤◌,
  Bool, ℕ, ◌∷◌, [],
}

abbrev peer_at : ℕ → ℕ → Bool → Addr × PeerRates
peer_at port down choking = (
  (10 ∷ [], port),
  record {
    bytes_down_interval = down;
    bytes_up_interval = 0;
    am_choking = choking;
    peer_interested = true;
    is_connected = true;
  },
)

abbrev slow : Addr × PeerRates
slow = peer_at 1 5 false

-- The slow peer is unchoked, and the second one is faster.
abbrev manager : ChokingManager
manager = record {
  max_unchoked = 1;
  rates = slow ∷ peer_at 2 9 true ∷ peer_at 3 7 true ∷ [];
  optimistic_addr = none;
  ticks_since_optimistic = 0;
  optimistic_every = 3;
  is_seeding = false;
}

abbrev first_of : List Addr → Addr
first_of [] = ([], 0)
first_of (a ∷ l) = a

rechoke-manager :
    (rechoke first_of manager).1 ≡ ((10 ∷ [], 1), choke) ∷ ((10 ∷ [], 2), unchoke) ∷ []
unfolding rechoke bytes_eq
rechoke-manager = refl

-- The optimistic slot rotates and goes to the fastest choked peer.
rotate_manager :
    (rechoke first_of (record manager { ticks_since_optimistic = 2 })).0.optimistic_addr
    ≡ some (10 ∷ [], 3)
unfolding rechoke bytes_eq
rotate_manager = refl

manager-HasDistinct : HasDistinct manager.rates
unfolding HasDistinct bytes_eq
manager-HasDistinct = (refl, (refl, (refl, tt)))

some_interested : 0 < count is_interested manager.rates
some_interested = omega arith

slow_choked : has_addr slow.0 (to_unchoke first_of manager) ≡ false
unfolding to_unchoke bytes_eq
slow_choked = refl

rechoke_lem_example :
    ((rechoke first_of manager).0.rates ≡ map (settled (to_unchoke first_of manager)) manager.rates)
    × ((rechoke first_of manager).1 ≡ changes manager.rates ((rechoke first_of manager).0.rates))
rechoke_lem_example = rechoke_lem first_of manager some_interested

rechoke-slots_example :
    count (λ e. e.1.is_connected && not e.1.am_choking) (rechoke first_of manager).0.rates ≤ 1 + 1
rechoke-slots_example = rechoke-slots first_of manager manager-HasDistinct some_interested

to_unchoke_fair_example :
    1
    ≤ count
        (λ e.
          is_interested e
          && (leb (rate false slow) (rate false e) && has_addr e.0 (to_unchoke first_of manager)))
        manager.rates
to_unchoke_fair_example = to_unchoke_fair first_of manager slow (inl refl) refl slow_choked

-- A peer registers twice and another once, one leaves, and two cycles run.
abbrev session : List ManagerCall
session =
    rechoked
    ∷ unregistered (10 ∷ [], 2)
    ∷ rechoked
    ∷ registered (10 ∷ [], 1) true
    ∷ changed (10 ∷ [], 1) (λ r. record r { peer_interested = true })
    ∷ registered (10 ∷ [], 2) true
    ∷ registered (10 ∷ [], 1) true
    ∷ []
