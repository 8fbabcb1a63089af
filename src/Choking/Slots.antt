-- ===== src/Choking/Slots.antt =====
-- Addresses and the number of entries that a set of them picks (src/aiobt/choking.py).
use aiobt.Python.Bytes.{bytes_eq-true}
use aiobt.Choking.{addr_eq, Rates, Addr, has_addr}
use aiobt.Prelude.{
  subst, [], length, ◌∷◌, refl, sym, ◌∙◌, inr, inl, arith, ◌+◌, map, ◌≤◌, Bool-cases, true, ◌||◌,
  false, count, Bool, List, ◌≡◌,
}

pub addr_eq-true : (a b : Addr) → addr_eq a b ≡ true → a ≡ b
addr_eq-true (h, p) (h', p') e =
    let hosts : h ≡ h' = bytes_eq-true h h' (ground arith) in
    let ports : p ≡ p' = ground arith in cc

addr_eq_sym : (a b : Addr) → addr_eq a b ≡ addr_eq b a
addr_eq_sym a b = elim (Bool-cases (addr_eq a b)) [
  | inl e ↦ rw (addr_eq-true a b e) refl
  | inr e ↦ elim (Bool-cases (addr_eq b a)) [
    | inl f ↦ rw (addr_eq-true b a f) refl
    | inr f ↦ e ∙ sym f
  ]
]

-- No address occurs twice, as the keys of a Python dict.
unfoldable pub HasDistinct : Rates → Type 0
unfolding has_addr
HasDistinct [] = Unit
HasDistinct (e ∷ l) = (has_addr e.0 (map (λ f. f.0) l) ≡ false) × HasDistinct l

count-absent :
    (b : Addr) (l : Rates)
    → has_addr b (map (λ f. f.0) l) ≡ false
    → count (λ e. addr_eq e.0 b) l ≡ 0
unfolding has_addr
count-absent b [] h = refl
count-absent b (e ∷ l) h = ground (arith, addr_eq_sym e.0 b, count-absent b l)

count-one : (b : Addr) (l : Rates) → HasDistinct l → count (λ e. addr_eq e.0 b) l ≤ 1
unfolding HasDistinct
count-one b [] h = omega arith
count-one b (e ∷ l) h = elim (Bool-cases (addr_eq e.0 b)) [
  | inr k ↦ rw k (count-one b l h.1)
  | inl k ↦
      let absent = subst (λ a. has_addr a (map (λ f. f.0) l) ≡ false) (addr_eq-true e.0 b k) h.0 in
      rw k (omega (arith, count-absent b l absent))
]

count_or :
    {A : Type 0} (p q : A → Bool) (l : List A) → count (λ a. p a || q a) l ≤ count p l + count q l
count_or p q [] = omega arith
count_or p q (a ∷ l) = ground (arith, count_or p q l)

count-false : {A : Type 0} (l : List A) → count (λ a. false) l ≡ 0
count-false [] = refl
count-false (a ∷ l) = count-false l

pub count-has_addr :
    (s : List Addr) (l : Rates) → HasDistinct l → count (λ e. has_addr e.0 s) l ≤ length s
unfolding has_addr
count-has_addr [] l h = omega (arith, count-false l)
count-has_addr (b ∷ s) l h = omega (
  arith,
  count_or (λ e. addr_eq e.0 b) (λ e. has_addr e.0 s) l,
  count-one b l h,
  count-has_addr s l h,
)
