-- ===== src/Choking/Rechoke.antt =====
-- The decisions of a rechoke cycle of src/aiobt/choking.py: slots, messages and counters.
use aiobt.Choking.Slots.{count-has_addr, HasDistinct}
use aiobt.Choking.Ranking.{
  count-take, count-filter, count-sort_ranked, sort_ranked-IsRanked, filter-IsIn, sort_ranked-IsIn,
  outrun, addr_eq_refl, IsIn,
}
use aiobt.Protocol.{choke, unchoke, PeerMessage}
use aiobt.Choking.{
  rotates, run_cycle, sort_ranked, ranked, next_optimistic, add_optional, top_peers, rate, has_addr,
  reset_interval, is_interested, reset_all, decide, ChokingManager, PeerRates, rechoke, to_unchoke,
  Rates, decide_all, Addr,
}
use aiobt.Prelude.{
  ◌==◌, ◌∙◌, zero, inr, none, inl, some, suc, Option-cases, take, All, length, Option, filter,
  if◌then◌else◌, ◌+◌, leb, false, ◌≤◌, not, refl, arith, ◌++◌, [], ◌&&◌, true, ◌∷◌, count, map, ◌<◌,
  Bool, List, ℕ, ◌≡◌,
}

-- The entry as a cycle leaves it whose decisions are the given set.
abbrev pub settled : List Addr → Addr × PeerRates → Addr × PeerRates
settled s (a, r) = (
  a,
  record r {
    bytes_down_interval = 0;
    bytes_up_interval = 0;
    am_choking = if r.is_connected then not (has_addr a s) else r.am_choking;
  },
)

-- The message that tells a peer of a change.
abbrev pub change : Addr → Bool → Bool → List (Addr × PeerMessage)
change a true false = (a, unchoke) ∷ []
change a false true = (a, choke) ∷ []
change a true true = []
change a false false = []

abbrev pub changes : Rates → Rates → List (Addr × PeerMessage)
changes [] m = []
changes (e ∷ l) [] = []
changes ((a, r) ∷ l) ((b, q) ∷ m) = change a r.am_choking q.am_choking ++ changes l m

decide_all-settled : (s : List Addr) (l : Rates) → reset_all (decide_all s l).0 ≡ map (settled s) l
unfolding decide_all decide reset_all reset_interval
decide_all-settled s [] = refl
decide_all-settled s ((a, r) ∷ l) = ground (arith, decide_all-settled s l)

decide_all-changes :
    (s : List Addr) (l : Rates) → (decide_all s l).1 ≡ changes l (map (settled s) l)
unfolding decide_all decide
decide_all-changes s [] = refl
decide_all-changes s ((a, r) ∷ l) = ground (arith, decide_all-changes s l)

pub length-filter : {A : Type 0} (p : A → Bool) (l : List A) → length (filter p l) ≡ count p l
length-filter p [] = refl
length-filter p (a ∷ l) = ground (arith, length-filter p l)

rechoke-run_cycle :
    (choose : List Addr → Addr) (c : ChokingManager)
    → 0 < count is_interested c.rates
    → rechoke choose c ≡ run_cycle choose c (if rotates c then 0 else c.ticks_since_optimistic + 1)
unfolding rechoke
rechoke-run_cycle choose c h =
    let some_peer : (length (filter is_interested c.rates) == 0) ≡ false =
      ground (arith, length-filter is_interested c.rates) in
    rw some_peer refl

-- With an interested connected peer, a cycle chokes each connected peer outside the set that is
-- unchoked, unchokes each in it, resets all counters, and sends each peer whose choking changed the
-- one message that says so.
pub rechoke_lem :
    (choose : List Addr → Addr) (c : ChokingManager)
    → 0 < count is_interested c.rates
    → ((rechoke choose c).0.rates ≡ map (settled (to_unchoke choose c)) c.rates)
      × ((rechoke choose c).1 ≡ changes c.rates ((rechoke choose c).0.rates))
rechoke_lem choose c h =
    let s = to_unchoke choose c in
    rw (rechoke-run_cycle choose c h) (
      unfold run_cycle in
      (
        decide_all-settled s c.rates,
        rw (decide_all-settled s c.rates) (decide_all-changes s c.rates),
      ))

count-settled :
    (s : List Addr) (l : Rates)
    → count (λ e. e.1.is_connected && not e.1.am_choking) (map (settled s) l)
      ≤ count (λ e. has_addr e.0 s) l
count-settled s [] = omega arith
count-settled s ((a, r) ∷ l) = ground (arith, count-settled s l)

length-firsts : (n : ℕ) (l : Rates) → length (map (λ e. e.0) (take n l)) ≤ n
length-firsts zero l = omega arith
length-firsts (suc n) [] = omega arith
length-firsts (suc n) (e ∷ l) = omega (arith, length-firsts n l)

length-to_unchoke :
    (choose : List Addr → Addr) (c : ChokingManager)
    → length (to_unchoke choose c) ≤ c.max_unchoked + 1
unfolding to_unchoke top_peers
length-to_unchoke choose c = elim (Option-cases (next_optimistic choose c)) [
  | inl e ↦ rw e (omega (arith, length-firsts c.max_unchoked (ranked c)))
  | inr (a, e) ↦ rw e (omega (arith, length-firsts c.max_unchoked (ranked c)))
]

-- Where no address is registered twice and an interested peer is connected, at most one peer more
-- than there are regular slots is unchoked and connected after a cycle.
pub rechoke-slots :
    (choose : List Addr → Addr) (c : ChokingManager)
    → HasDistinct c.rates
    → 0 < count is_interested c.rates
    → count (λ e. e.1.is_connected && not e.1.am_choking) (rechoke choose c).0.rates
      ≤ c.max_unchoked + 1
rechoke-slots choose c d h =
    let s = to_unchoke choose c in
    rw (rechoke_lem choose c h).0 (
      omega
        (arith, count-settled s c.rates, count-has_addr s c.rates d, length-to_unchoke choose c))

All-firsts :
    (s : List Addr) (l : Rates)
    → ((a : Addr) → has_addr a (map (λ e. e.0) l) ≡ true → has_addr a s ≡ true)
    → All (λ e. has_addr e.0 s ≡ true) l
unfolding has_addr
All-firsts s [] h = tt
All-firsts s (e ∷ l) h =
    (h e.0 (rw (addr_eq_refl e.0) refl), All-firsts s l (λ a k. h a (ground (arith, k))))

has_addr-add_optional :
    (a : Addr) (o : Option Addr) (s : List Addr)
    → has_addr a s ≡ true
    → has_addr a (add_optional o s) ≡ true
unfolding has_addr
has_addr-add_optional a none s h = h
has_addr-add_optional a (some b) s h = ground (arith, h)

top-to_unchoke :
    (choose : List Addr → Addr) (c : ChokingManager)
    → All (λ e. has_addr e.0 (to_unchoke choose c) ≡ true) (take c.max_unchoked (ranked c))
unfolding to_unchoke top_peers
top-to_unchoke choose c =
    All-firsts (to_unchoke choose c) (take c.max_unchoked (ranked c))
      λ a h. has_addr-add_optional a (next_optimistic choose c) _ h

-- An interested connected peer that a cycle does not unchoke is outrun: as many such peers as there
-- are regular slots are unchoked and have at least its rate.
pub to_unchoke_fair :
    (choose : List Addr → Addr) (c : ChokingManager) (x : Addr × PeerRates)
    → IsIn x c.rates
    → is_interested x ≡ true
    → has_addr x.0 (to_unchoke choose c) ≡ false
    → c.max_unchoked
      ≤ count
          (λ e.
            is_interested e
            && (leb (rate c.is_seeding x) (rate c.is_seeding e)
                && has_addr e.0 (to_unchoke choose c)))
          c.rates
to_unchoke_fair choose c x m i h =
    let key = rate c.is_seeding in
    let s = to_unchoke choose c in
    let q : Addr × PeerRates → Bool = λ e. leb (key x) (key e) && has_addr e.0 s in
    let l = filter is_interested c.rates in
    let slots : c.max_unchoked ≤ count q (take c.max_unchoked (ranked c)) =
      unfold ranked in
      outrun key s x c.max_unchoked (sort_ranked key l)
        (sort_ranked-IsIn key x l (filter-IsIn is_interested x c.rates m i))
        (sort_ranked-IsRanked key l) h (top-to_unchoke choose c) in
    let among : count q (ranked c) ≡ count (λ e. is_interested e && q e) c.rates =
      unfold ranked in count-sort_ranked key q l ∙ count-filter is_interested q c.rates in
    omega (arith, slots, count-take q c.max_unchoked (ranked c), among)
