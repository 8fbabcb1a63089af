-- ===== src/Choking/Ranking.antt =====
-- The ranking of the peers in a rechoke cycle of src/aiobt/choking.py.
use aiobt.Python.Bytes.{bytes_eq_refl}
use aiobt.Choking.{has_addr, insert_ranked, Rates, sort_ranked, addr_eq, PeerRates, Addr}
use aiobt.Prelude.{
  true-ne-false, ◌∙◌, false, refl, [], zero, sym, leb, subst, inr, inl, Bool-cases, ◌∷◌, suc, ◌&&◌,
  arith, ◌≤◌, filter, take, count, true, All, List, Bool, ℕ, ◌≡◌, ◌⊎◌,
}

-- Membership in a list.
module _ {A : Type 0} where
  abbrev pub IsIn : A → List A → Type 0
  IsIn x [] = ⊥
  IsIn x (y ∷ l) = (x ≡ y) ⊎ IsIn x l

  pub All-IsIn {κ} : (P : A → Type κ) (x : A) (l : List A) → All P l → IsIn x l → P x
  All-IsIn P x [] h m = absurd m
  All-IsIn P x (y ∷ l) h (inl e) = subst P (sym e) h.0
  All-IsIn P x (y ∷ l) h (inr m) = All-IsIn P x l h.1 m

  pub filter-IsIn :
      (p : A → Bool) (x : A) (l : List A) → IsIn x l → p x ≡ true → IsIn x (filter p l)
  filter-IsIn p x [] m h = absurd m
  filter-IsIn p x (y ∷ l) (inl e) h = rw (subst (λ z. p z ≡ true) e h) (inl e)
  filter-IsIn p x (y ∷ l) (inr m) h = elim (Bool-cases (p y)) [
    | inl k ↦ rw k (inr (filter-IsIn p x l m h))
    | inr k ↦ rw k (filter-IsIn p x l m h)
  ]

  pub count-filter :
      (p q : A → Bool) (l : List A) → count q (filter p l) ≡ count (λ a. p a && q a) l
  count-filter p q [] = refl
  count-filter p q (a ∷ l) = ground (arith, count-filter p q l)

  pub count_mono :
      (p q : A → Bool) (l : List A) → ((a : A) → p a ≡ true → q a ≡ true) → count p l ≤ count q l
  count_mono p q [] h = omega arith
  count_mono p q (a ∷ l) h = ground (arith, h a, count_mono p q l h)

  pub count-take : (p : A → Bool) (n : ℕ) (l : List A) → count p (take n l) ≤ count p l
  count-take p zero l = omega arith
  count-take p (suc n) [] = omega arith
  count-take p (suc n) (a ∷ l) = ground (arith, count-take p n l)

module _ (key : Addr × PeerRates → ℕ) where
  unfoldable pub IsRanked : Rates → Type 0
  IsRanked [] = Unit
  IsRanked (e ∷ l) = All (λ f. key f ≤ key e) l × IsRanked l

  All-insert_ranked :
      (P : Addr × PeerRates → Type 0) (e : Addr × PeerRates) (l : Rates)
      → P e
      → All P l
      → All P (insert_ranked key e l)
  unfolding insert_ranked
  All-insert_ranked P e [] p h = (p, tt)
  All-insert_ranked P e (f ∷ l) p h = elim (Bool-cases (leb (key f) (key e))) [
    | inl k ↦ rw k (p, h)
    | inr k ↦ rw k (h.0, All-insert_ranked P e l p h.1)
  ]

  All-weaken : (n m : ℕ) (l : Rates) → n ≤ m → All (λ f. key f ≤ n) l → All (λ f. key f ≤ m) l
  All-weaken n m [] h a = tt
  All-weaken n m (f ∷ l) h a = (omega (arith, h, a.0), All-weaken n m l h a.1)

  insert_ranked-IsRanked :
      (e : Addr × PeerRates) (l : Rates) → IsRanked l → IsRanked (insert_ranked key e l)
  unfolding insert_ranked IsRanked
  insert_ranked-IsRanked e [] h = (tt, tt)
  insert_ranked-IsRanked e (f ∷ l) h = elim (Bool-cases (leb (key f) (key e))) [
    | inl k ↦
        let below : key f ≤ key e = ground arith in
        rw k ((below, All-weaken (key f) (key e) l below h.0), h)
    | inr k ↦ rw k (
      All-insert_ranked (λ g. key g ≤ key f) e l (ground arith) h.0,
      insert_ranked-IsRanked e l h.1,
    )
  ]

  pub sort_ranked-IsRanked : (l : Rates) → IsRanked (sort_ranked key l)
  unfolding sort_ranked IsRanked
  sort_ranked-IsRanked [] = tt
  sort_ranked-IsRanked (e ∷ l) =
      insert_ranked-IsRanked e (sort_ranked key l) (sort_ranked-IsRanked l)

  insert_ranked-IsIn :
      (x e : Addr × PeerRates) (l : Rates) → (x ≡ e) ⊎ IsIn x l → IsIn x (insert_ranked key e l)
  unfolding insert_ranked
  insert_ranked-IsIn x e [] m = m
  insert_ranked-IsIn x e (f ∷ l) m = elim (Bool-cases (leb (key f) (key e))) [
    | inl k ↦ rw k m
    | inr k ↦ rw k (elim m [
      | inl i ↦ inr (insert_ranked-IsIn x e l (inl i))
      | inr (inl i) ↦ inl i
      | inr (inr i) ↦ inr (insert_ranked-IsIn x e l (inr i))
    ])
  ]

  pub sort_ranked-IsIn : (x : Addr × PeerRates) (l : Rates) → IsIn x l → IsIn x (sort_ranked key l)
  unfolding sort_ranked
  sort_ranked-IsIn x [] m = m
  sort_ranked-IsIn x (e ∷ l) (inl i) = insert_ranked-IsIn x e (sort_ranked key l) (inl i)
  sort_ranked-IsIn x (e ∷ l) (inr m) =
      insert_ranked-IsIn x e (sort_ranked key l) (inr (sort_ranked-IsIn x l m))

  count-insert_ranked :
      (p : Addr × PeerRates → Bool) (e : Addr × PeerRates) (l : Rates)
      → count p (insert_ranked key e l) ≡ count p (e ∷ l)
  unfolding insert_ranked
  count-insert_ranked p e [] = refl
  count-insert_ranked p e (f ∷ l) = ground (arith, count-insert_ranked p e l)

  pub count-sort_ranked :
      (p : Addr × PeerRates → Bool) (l : Rates) → count p (sort_ranked key l) ≡ count p l
  unfolding sort_ranked
  count-sort_ranked p [] = refl
  count-sort_ranked p (e ∷ l) =
      ground (arith, count-insert_ranked p e (sort_ranked key l), count-sort_ranked p l)

pub addr_eq_refl : (a : Addr) → addr_eq a a ≡ true
addr_eq_refl (h, p) = ground (arith, bytes_eq_refl h)

-- An entry of a ranked list without a slot among the first n, where the set holds those that have
-- one.
module _ (key : Addr × PeerRates → ℕ) where
  pub outrun :
      (s : List Addr) (x : Addr × PeerRates) (n : ℕ) (l : Rates)
      → IsIn x l
      → IsRanked key l
      → has_addr x.0 s ≡ false
      → All (λ e. has_addr e.0 s ≡ true) (take n l)
      → n ≤ count (λ e. leb (key x) (key e) && has_addr e.0 s) (take n l)
  unfolding IsRanked
  outrun s x zero l m r h t = omega arith
  outrun s x (suc n) [] m r h t = absurd m
  outrun s x (suc n) (e ∷ l) (inl i) r h t =
      absurd (true-ne-false (sym t.0 ∙ subst (λ z. has_addr z.0 s ≡ false) i h))
  outrun s x (suc n) (e ∷ l) (inr m) r h t =
      ground (arith, t.0, All-IsIn (λ f. key f ≤ key e) x l r.0 m, outrun s x n l m r.1 h t.1)
