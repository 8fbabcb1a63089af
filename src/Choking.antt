-- ===== src/Choking.antt =====
-- src/aiobt/choking.py: the rates of the peers and the rechoke cycle of ChokingManager. The
-- connection of a peer is what the cycle reads of it, `is_connected`; a message that cannot be sent
-- is dropped, as the source does. `random.choice` is the parameter `choose`. The wake and stop
-- events of `run`, and what other tasks do while a message is sent, are outside the model.
pub mod Ranking
pub mod Slots
pub mod Rechoke
pub mod Registry
mod Examples
use aiobt.Protocol.{choke, unchoke, PeerMessage}
use aiobt.Python.Bytes.{bytes_eq, Bytes}
use aiobt.Prelude.{
  length, ◌||◌, ◌==◌, false, true, none, take, some, ◌&&◌, leb, ◌++◌, not, map, filter, Bool,
  Option, if◌then◌else◌, ℕ, ◌+◌, List, [], ◌∷◌,
}

-- A peer's host and port.
abbrev pub Addr : Type 0
Addr = Bytes × ℕ

abbrev pub addr_eq : Addr → Addr → Bool
addr_eq (host, port) (host', port') = bytes_eq host host' && port == port'

pub record PeerRates : Type 0 where
  pub bytes_down_interval : ℕ
  pub bytes_up_interval : ℕ
  pub am_choking : Bool
  pub peer_interested : Bool
  pub is_connected : Bool

abbrev pub Rates : Type 0
Rates = List (Addr × PeerRates)

pub record ChokingManager : Type 0 where
  pub max_unchoked : ℕ
  pub rates : Rates
  pub optimistic_addr : Option Addr
  pub ticks_since_optimistic : ℕ
  pub optimistic_every : ℕ
  pub is_seeding : Bool

abbrev pub new_rates : Bool → PeerRates
new_rates connected = record {
  bytes_down_interval = 0;
  bytes_up_interval = 0;
  am_choking = true;
  peer_interested = false;
  is_connected = connected;
}

unfoldable pub reset_interval : PeerRates → PeerRates
reset_interval r = record r { bytes_down_interval = 0; bytes_up_interval = 0 }

-- self._rates[addr] = rates: an entry is replaced in its place, a new one comes last.
unfoldable pub put_rates : Addr → PeerRates → Rates → Rates
put_rates a r [] = (a, r) ∷ []
put_rates a r ((b, q) ∷ l) =
    let rest = put_rates a r l in if addr_eq b a then (b, r) ∷ l else (b, q) ∷ rest

-- self._rates.pop(addr, None)
unfoldable pub pop_rates : Addr → Rates → Rates
pop_rates a [] = []
pop_rates a ((b, q) ∷ l) = let rest = pop_rates a l in if addr_eq b a then l else (b, q) ∷ rest

abbrev pub is_optimistic : Addr → Option Addr → Bool
is_optimistic a none = false
is_optimistic a (some b) = addr_eq b a

unfoldable pub register : ChokingManager → Addr → Bool → ChokingManager
unfolding put_rates
register c a connected = record c { rates = put_rates a (new_rates connected) c.rates }

unfoldable pub unregister : ChokingManager → Addr → ChokingManager
unfolding pop_rates
unregister c a = record c {
  rates = pop_rates a c.rates;
  optimistic_addr = if is_optimistic a c.optimistic_addr then none else c.optimistic_addr;
}

-- Sets of addresses.
unfoldable pub has_addr : Addr → List Addr → Bool
has_addr a [] = false
has_addr a (b ∷ s) = addr_eq a b || has_addr a s

-- r.peer_interested and r.peer.is_connected
abbrev pub is_interested : Addr × PeerRates → Bool
is_interested (a, r) = r.peer_interested && r.is_connected

-- The key of the sort.
abbrev pub rate : Bool → Addr × PeerRates → ℕ
rate seeding (a, r) = if seeding then r.bytes_up_interval else r.bytes_down_interval

-- interested.sort(key=..., reverse=True): a stable sort, the highest rate first
module _ (key : Addr × PeerRates → ℕ) where
  unfoldable pub insert_ranked : Addr × PeerRates → Rates → Rates
  insert_ranked e [] = e ∷ []
  insert_ranked e (f ∷ l) =
      let rest = insert_ranked e l in if leb (key f) (key e) then e ∷ f ∷ l else f ∷ rest

  unfoldable pub sort_ranked : Rates → Rates
  unfolding insert_ranked
  sort_ranked [] = []
  sort_ranked (e ∷ l) = insert_ranked e (sort_ranked l)

unfoldable pub ranked : ChokingManager → Rates
unfolding sort_ranked
ranked c = sort_ranked (rate c.is_seeding) (filter is_interested c.rates)

-- The peers of the regular slots.
unfoldable pub top_peers : ChokingManager → List Addr
unfolding ranked
top_peers c = map (λ e. e.0) (take c.max_unchoked (ranked c))

-- addr for addr, _ in interested if addr not in to_unchoke
unfoldable pub choked_interested : ChokingManager → List Addr
unfolding top_peers has_addr
choked_interested c = filter (λ a. not (has_addr a (top_peers c))) (map (λ e. e.0) (ranked c))

abbrev pub choice_of : (List Addr → Addr) → List Addr → Option Addr
choice_of choose [] = none
choice_of choose (a ∷ l) = some (choose (a ∷ l))

abbrev pub rotates : ChokingManager → Bool
rotates c = leb c.optimistic_every (c.ticks_since_optimistic + 1)

unfoldable pub next_optimistic : (List Addr → Addr) → ChokingManager → Option Addr
unfolding choked_interested
next_optimistic choose c =
    if rotates c then choice_of choose (choked_interested c) else c.optimistic_addr

abbrev pub add_optional : Option Addr → List Addr → List Addr
add_optional none s = s
add_optional (some a) s = a ∷ s

unfoldable pub to_unchoke : (List Addr → Addr) → ChokingManager → List Addr
unfolding top_peers next_optimistic
to_unchoke choose c = add_optional (next_optimistic choose c) (top_peers c)

-- One round of the loop that applies the decisions, with what it sends.
unfoldable pub decide :
    List Addr → Addr × PeerRates → (Addr × PeerRates) × List (Addr × PeerMessage)
unfolding has_addr
decide s (a, r) =
    if not r.is_connected
    then ((a, r), [])
    else if has_addr a s && r.am_choking
    then ((a, record r { am_choking = false }), (a, unchoke) ∷ [])
    else if not (has_addr a s) && not r.am_choking
    then ((a, record r { am_choking = true }), (a, choke) ∷ [])
    else ((a, r), [])

unfoldable pub decide_all : List Addr → Rates → Rates × List (Addr × PeerMessage)
unfolding decide
decide_all s [] = ([], [])
decide_all s (e ∷ l) =
    let (e', sent) = decide s e in let (l', later) = decide_all s l in (e' ∷ l', sent ++ later)

unfoldable pub reset_all : Rates → Rates
unfolding reset_interval
reset_all [] = []
reset_all ((a, r) ∷ l) = (a, reset_interval r) ∷ reset_all l

-- What one cycle leaves, and the messages that it hands to the connections, in order. The first
-- function is the cycle where some peer is interested.
unfoldable pub run_cycle :
    (List Addr → Addr) → ChokingManager → ℕ → ChokingManager × List (Addr × PeerMessage)
unfolding to_unchoke decide_all reset_all
run_cycle choose c ticks =
    let decided = decide_all (to_unchoke choose c) c.rates in
    (
      record c {
        rates = reset_all decided.0;
        optimistic_addr = next_optimistic choose c;
        ticks_since_optimistic = ticks;
      },
      decided.1,
    )

unfoldable pub rechoke :
    (List Addr → Addr) → ChokingManager → ChokingManager × List (Addr × PeerMessage)
unfolding run_cycle
rechoke choose c =
    let ticks = if rotates c then 0 else c.ticks_since_optimistic + 1 in
    if length (filter is_interested c.rates) == 0
    then (record c { ticks_since_optimistic = ticks }, [])
    else run_cycle choose c ticks
