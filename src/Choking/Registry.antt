-- ===== src/Choking/Registry.antt =====
-- The addresses of a choking manager (src/aiobt/choking.py) over any calls of its methods.
use aiobt.Choking.Rechoke.{length-filter, rechoke_lem, settled}
use aiobt.Choking.Slots.{HasDistinct}
use aiobt.Choking.{
  to_unchoke, is_interested, addr_eq, new_rates, Rates, PeerRates, has_addr, rechoke, unregister,
  Addr, register, put_rates, pop_rates, ChokingManager,
}
use aiobt.Prelude.{
  true, ◌==◌, filter, length, ◌<◌, refl, ap, arith, inr, count, ◌≡◌, ltb, inl, Bool-cases,
  if◌then◌else◌, false, map, none, Bool, ℕ, List, [], ◌∷◌,
}

-- A call on the manager, or a change of one peer's rates by the engine.
pub data ManagerCall : Type 0 where
  registered : Addr → Bool → ManagerCall
  unregistered : Addr → ManagerCall
  rechoked : ManagerCall
  changed : Addr → (PeerRates → PeerRates) → ManagerCall

unfoldable pub change_rates : Addr → (PeerRates → PeerRates) → Rates → Rates
change_rates a f [] = []
change_rates a f ((b, r) ∷ l) =
    let rest = change_rates a f l in if addr_eq b a then (b, f r) ∷ l else (b, r) ∷ rest

abbrev pub new_manager : ℕ → ℕ → ChokingManager
new_manager slots every = record {
  max_unchoked = slots;
  rates = [];
  optimistic_addr = none;
  ticks_since_optimistic = 0;
  optimistic_every = every;
  is_seeding = false;
}

-- The state after some calls, the latest first.
unfoldable pub manager_after : (List Addr → Addr) → ℕ → ℕ → List ManagerCall → ChokingManager
unfolding register unregister rechoke change_rates
manager_after choose slots every [] = new_manager slots every
manager_after choose slots every (registered a connected ∷ l) =
    register (manager_after choose slots every l) a connected
manager_after choose slots every (unregistered a ∷ l) =
    unregister (manager_after choose slots every l) a
manager_after choose slots every (rechoked ∷ l) =
    (rechoke choose (manager_after choose slots every l)).0
manager_after choose slots every (changed a f ∷ l) =
    let c = manager_after choose slots every l in record c { rates = change_rates a f c.rates }

absent-put_rates :
    (a b : Addr) (r : PeerRates) (l : Rates)
    → addr_eq b a ≡ false
    → has_addr b (map (λ e. e.0) l) ≡ false
    → has_addr b (map (λ e. e.0) (put_rates a r l)) ≡ false
unfolding put_rates has_addr
absent-put_rates a b r [] h k = ground arith
absent-put_rates a b r ((c, q) ∷ l) h k = ground (arith, absent-put_rates a b r l h)

put_rates-HasDistinct :
    (a : Addr) (r : PeerRates) (l : Rates) → HasDistinct l → HasDistinct (put_rates a r l)
unfolding put_rates HasDistinct has_addr
put_rates-HasDistinct a r [] h = (refl, tt)
put_rates-HasDistinct a r ((c, q) ∷ l) h = elim (Bool-cases (addr_eq c a)) [
  | inl e ↦ rw e h
  | inr e ↦ rw e (absent-put_rates a c r l e h.0, put_rates-HasDistinct a r l h.1)
]

absent-pop_rates :
    (a b : Addr) (l : Rates)
    → has_addr b (map (λ e. e.0) l) ≡ false
    → has_addr b (map (λ e. e.0) (pop_rates a l)) ≡ false
unfolding pop_rates has_addr
absent-pop_rates a b [] k = refl
absent-pop_rates a b ((c, q) ∷ l) k = ground (arith, absent-pop_rates a b l)

pop_rates-HasDistinct : (a : Addr) (l : Rates) → HasDistinct l → HasDistinct (pop_rates a l)
unfolding pop_rates HasDistinct
pop_rates-HasDistinct a [] h = tt
pop_rates-HasDistinct a ((c, q) ∷ l) h = elim (Bool-cases (addr_eq c a)) [
  | inl e ↦ rw e h.1
  | inr e ↦ rw e (absent-pop_rates a c l h.0, pop_rates-HasDistinct a l h.1)
]

change_rates-keys :
    (a : Addr) (f : PeerRates → PeerRates) (l : Rates)
    → map (λ e. e.0) (change_rates a f l) ≡ map (λ e. e.0) l
unfolding change_rates
change_rates-keys a f [] = refl
change_rates-keys a f ((c, q) ∷ l) = ground (arith, change_rates-keys a f l)

change_rates-HasDistinct :
    (a : Addr) (f : PeerRates → PeerRates) (l : Rates)
    → HasDistinct l
    → HasDistinct (change_rates a f l)
unfolding change_rates HasDistinct
change_rates-HasDistinct a f [] h = tt
change_rates-HasDistinct a f ((c, q) ∷ l) h = elim (Bool-cases (addr_eq c a)) [
  | inl e ↦ rw e h
  | inr e ↦ rw (e, change_rates-keys a f l) (h.0, change_rates-HasDistinct a f l h.1)
]

settled-keys : (s : List Addr) (l : Rates) → map (λ e. e.0) (map (settled s) l) ≡ map (λ e. e.0) l
settled-keys s [] = refl
settled-keys s ((c, q) ∷ l) = ap (λ k. c ∷ k) (settled-keys s l)

settled-HasDistinct : (s : List Addr) (l : Rates) → HasDistinct l → HasDistinct (map (settled s) l)
unfolding HasDistinct
settled-HasDistinct s [] h = tt
settled-HasDistinct s ((c, q) ∷ l) h = rw (settled-keys s l) (h.0, settled-HasDistinct s l h.1)

rechoke-HasDistinct :
    (choose : List Addr → Addr) (c : ChokingManager)
    → HasDistinct c.rates
    → HasDistinct (rechoke choose c).0.rates
rechoke-HasDistinct choose c h = elim (Bool-cases (ltb 0 (count is_interested c.rates))) [
  | inl e ↦
      let some_peer : 0 < count is_interested c.rates = ground arith in
      rw (rechoke_lem choose c some_peer).0 (settled-HasDistinct (to_unchoke choose c) c.rates h)
  | inr e ↦
      let nobody : (length (filter is_interested c.rates) == 0) ≡ true =
        ground (arith, length-filter is_interested c.rates) in
      unfold rechoke in rw nobody h
]

-- Whatever is registered, unregistered, rechoked and counted on a new choking manager, no address
-- is registered twice.
pub manager_after-HasDistinct :
    (choose : List Addr → Addr) (slots every : ℕ) (l : List ManagerCall)
    → HasDistinct (manager_after choose slots every l).rates
unfolding manager_after register unregister
manager_after-HasDistinct choose slots every [] = unfold HasDistinct in tt
manager_after-HasDistinct choose slots every (registered a connected ∷ l) =
    put_rates-HasDistinct a (new_rates connected) _ (manager_after-HasDistinct choose slots every l)
manager_after-HasDistinct choose slots every (unregistered a ∷ l) =
    pop_rates-HasDistinct a _ (manager_after-HasDistinct choose slots every l)
manager_after-HasDistinct choose slots every (rechoked ∷ l) =
    rechoke-HasDistinct choose _ (manager_after-HasDistinct choose slots every l)
manager_after-HasDistinct choose slots every (changed a f ∷ l) =
    change_rates-HasDistinct a f _ (manager_after-HasDistinct choose slots every l)
