-- ===== src/Python/Range.antt =====
-- Comprehensions over `range`, and the first element of a stable sort.
use aiobt.Prelude.{
  ℕ, zero, suc, ◌+◌, ◌<◌, ◌≤◌, List, [], ◌∷◌, Bool, true, ◌&&◌, ltb, leb, if◌then◌else◌, All, ◌≡◌,
  ◌≢◌, ◌⊎◌, refl, arith, Bool-cases, inl, inr, subst, sym,
}
use aiobt.Python.IntSet.{has}

-- [j for j in range(i, i + n) if p(j)]
unfoldable pub range_where : (ℕ → Bool) → ℕ → ℕ → List ℕ
range_where p i zero = []
range_where p i (suc n) = let rest = range_where p (i + 1) n in if p i then i ∷ rest else rest

-- A stable sort: `before x y` says that x may stand in front of y.
module _ {ℓ} {A : Type ℓ} where
  unfoldable pub insert_by : (A → A → Bool) → A → List A → List A
  insert_by before x [] = x ∷ []
  insert_by before x (y ∷ l) = if before x y then x ∷ y ∷ l else y ∷ insert_by before x l

  unfoldable pub sort_by : (A → A → Bool) → List A → List A
  unfolding insert_by
  sort_by before [] = []
  sort_by before (x ∷ l) = insert_by before x (sort_by before l)

-- l.sort(key=key)
abbrev pub by_key : (ℕ → ℕ) → ℕ → ℕ → Bool
by_key key x y = leb (key x) (key y)

pub has-range_where :
    (p : ℕ → Bool) (i n j : ℕ) → has j (range_where p i n) ≡ leb i j && (ltb j (i + n) && p j)
unfolding has range_where
has-range_where p i zero j = ground arith
has-range_where p i (suc n) j = ground (arith, has-range_where p (i + 1) n j)

-- The numbers come in ascending order, from i on.
pub range_where-above : (p : ℕ → Bool) (i n k : ℕ) → k ≤ i → All (λ j. k ≤ j) (range_where p i n)
unfolding range_where
range_where-above p i zero k h = tt
range_where-above p i (suc n) k h = elim (Bool-cases (p i)) [
  | inl e ↦ rw e (h, range_where-above p (i + 1) n k (omega arith))
  | inr e ↦ rw e (range_where-above p (i + 1) n k (omega arith))
]

abbrev pub IsAscending : List ℕ → Type 0
IsAscending [] = Unit
IsAscending (x ∷ l) = All (λ y. suc x ≤ y) l × IsAscending l

pub range_where-IsAscending : (p : ℕ → Bool) (i n : ℕ) → IsAscending (range_where p i n)
unfolding range_where
range_where-IsAscending p i zero = tt
range_where-IsAscending p i (suc n) = elim (Bool-cases (p i)) [
  | inl e ↦
      rw e
        (range_where-above p (i + 1) n (suc i) (omega arith), range_where-IsAscending p (i + 1) n)
  | inr e ↦ rw e (range_where-IsAscending p (i + 1) n)
]

-- x has the least key, and is the least number with that key.
abbrev pub Precedes : (ℕ → ℕ) → ℕ → ℕ → Type 0
Precedes key x y = (key x < key y) ⊎ ((key x ≡ key y) × (x ≤ y))

Precedes-All :
    (key : ℕ → ℕ) (x y : ℕ) (l : List ℕ)
    → key y ≤ key x
    → All (λ z. suc y ≤ z) l
    → All (Precedes key x) l
    → All (Precedes key y) l
Precedes-All key x y [] k a h = tt
Precedes-All key x y (z ∷ l) k a h = (ground arith, Precedes-All key x y l k a.1 h.1)

pub insert_by-ne {ℓ} :
    {A : Type ℓ} (before : A → A → Bool) (x : A) (l : List A) → insert_by before x l ≢ []
unfolding insert_by
insert_by-ne before x [] = cc
insert_by-ne before x (y ∷ l) = ground arith

insert_by-first :
    (key : ℕ → ℕ) (y z : ℕ) (s : List ℕ) {x : ℕ} {rest : List ℕ}
    → insert_by (by_key key) y (z ∷ s) ≡ x ∷ rest
    → x ≡ (if leb (key y) (key z) then y else z)
unfolding insert_by
insert_by-first key y z s e = ground arith

-- x is in the list and precedes its elements.
pub record IsFirst (key : ℕ → ℕ) (x : ℕ) (l : List ℕ) : Type 0 where
  pub least : All (Precedes key x) l
  pub member : has x l ≡ true

IsFirst-of_two :
    (key : ℕ → ℕ) (x y z : ℕ) (l : List ℕ)
    → All (λ w. suc y ≤ w) l
    → IsFirst key z l
    → x ≡ (if leb (key y) (key z) then y else z)
    → IsFirst key x (y ∷ l)
unfolding has
IsFirst-of_two key x y z l a f same = elim (Bool-cases (leb (key y) (key z))) [
  | inl e ↦
      subst (λ w. IsFirst key w (y ∷ l)) (sym (rw e at same))
        (record {
          least = (inr (refl, omega arith), Precedes-All key z y l (ground arith) a f.least);
          member = ground arith;
        })
  | inr e ↦
      subst (λ w. IsFirst key w (y ∷ l)) (sym (rw e at same))
        (record { least = (inl (ground arith), f.least); member = rw f.member (ground arith) })
]

single-IsFirst : (key : ℕ → ℕ) (y : ℕ) → IsFirst key y (y ∷ [])
unfolding has
single-IsFirst key y = record { least = (inr (refl, omega arith), tt); member = ground arith }

-- The element that `sort` puts first is in the list, has the least key, and is the first of those.
pub sort_by-IsFirst :
    (key : ℕ → ℕ) (l : List ℕ) {x : ℕ} {rest : List ℕ}
    → IsAscending l
    → sort_by (by_key key) l ≡ x ∷ rest
    → IsFirst key x l
unfolding sort_by
sort_by-IsFirst key [] a e = cc
sort_by-IsFirst key (y ∷ []) a e = subst (λ w. IsFirst key w (y ∷ [])) (cc) (single-IsFirst key y)
sort_by-IsFirst key (y ∷ w ∷ l) {x} {rest} a e =
    go (sort_by (by_key key) (w ∷ l)) refl (λ z s. sort_by-IsFirst key (w ∷ l) a.1)
  where
    go :
        (s : List ℕ)
        → sort_by (by_key key) (w ∷ l) ≡ s
        → ((z : ℕ) (s : List ℕ) → sort_by (by_key key) (w ∷ l) ≡ z ∷ s → IsFirst key z (w ∷ l))
        → IsFirst key x (y ∷ w ∷ l)
    go [] q ih = absurd (insert_by-ne (by_key key) w (sort_by (by_key key) l) q)
    go (z ∷ s) q ih =
        IsFirst-of_two key x y z (w ∷ l) a.0 (ih z s q) (insert_by-first key y z s (rw q at e))
