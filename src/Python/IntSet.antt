-- ===== src/Python/IntSet.antt =====
-- Sets of non-negative integers, as lists without repetition. No order of a set is read by the
-- model: an iteration goes over the list.
use aiobt.Prelude.{
  ℕ, zero, suc, ◌+◌, ◌<◌, ◌≤◌, List, [], ◌∷◌, Bool, true, false, ◌||◌, ◌==◌, if◌then◌else◌, length,
  All, ◌≡◌, refl, arith, Bool-cases, inl, inr,
}

abbrev pub IntSet : Type 0
IntSet = List ℕ

-- i in s
unfoldable pub has : ℕ → IntSet → Bool
has i [] = false
has i (j ∷ s) = i == j || has i s

-- s.add(i)
unfoldable pub add : ℕ → IntSet → IntSet
unfolding has
add i s = if has i s then s else i ∷ s

-- s.discard(i)
unfoldable pub discard : ℕ → IntSet → IntSet
discard i [] = []
discard i (j ∷ s) = let rest = discard i s in if i == j then rest else j ∷ rest

-- No element is repeated.
abbrev pub IsDistinct : IntSet → Type 0
IsDistinct [] = Unit
IsDistinct (i ∷ s) = (has i s ≡ false) × IsDistinct s

pub has-add : (i j : ℕ) (s : IntSet) → has j (add i s) ≡ (if i == j then true else has j s)
unfolding add
has-add i j s = ground arith

pub has-discard : (i j : ℕ) (s : IntSet) → has j (discard i s) ≡ (if i == j then false else has j s)
unfolding has discard
has-discard i j [] = ground arith
has-discard i j (k ∷ s) = ground (arith, has-discard i j s)

pub add-IsDistinct : (i : ℕ) (s : IntSet) → IsDistinct s → IsDistinct (add i s)
unfolding add
add-IsDistinct i s h = ground arith

pub discard-IsDistinct : (i : ℕ) (s : IntSet) → IsDistinct s → IsDistinct (discard i s)
unfolding discard
discard-IsDistinct i [] h = tt
discard-IsDistinct i (j ∷ s) h = ground (arith, discard-IsDistinct i s h.1, has-discard i j s)

pub All-add : (P : ℕ → Type 0) (i : ℕ) (s : IntSet) → P i → All P s → All P (add i s)
unfolding add
All-add P i s p h = elim (Bool-cases (has i s)) [ inl e ↦ rw e h | inr e ↦ rw e (p, h) ]

pub All-discard : (P : ℕ → Type 0) (i : ℕ) (s : IntSet) → All P s → All P (discard i s)
unfolding discard
All-discard P i [] h = tt
All-discard P i (j ∷ s) h = elim (Bool-cases (i == j)) [
  | inl e ↦ rw e (All-discard P i s h.1)
  | inr e ↦ rw e (h.0, All-discard P i s h.1)
]

pub length-discard :
    (i : ℕ) (s : IntSet)
    → IsDistinct s
    → length s ≡ length (discard i s) + (if has i s then 1 else 0)
unfolding has discard
length-discard i [] h = refl
length-discard i (j ∷ s) h = ground (arith, length-discard i s h.1)

pub length-add : (i : ℕ) (s : IntSet) → length (add i s) ≡ length s + (if has i s then 0 else 1)
unfolding add
length-add i s = ground arith

-- Below n + 1, and not n: below n.
All-below : (n : ℕ) (s : IntSet) → All (λ i. i < suc n) s → has n s ≡ false → All (λ i. i < n) s
unfolding has
All-below n [] h e = tt
All-below n (j ∷ s) h e = (ground arith, All-below n s h.1 (ground arith))

has-discard_self : (i : ℕ) (s : IntSet) → has i (discard i s) ≡ false
has-discard_self i s = ground (arith, has-discard i i s)

discard-below : (n : ℕ) (s : IntSet) → All (λ i. i < suc n) s → All (λ i. i < n) (discard n s)
discard-below n s h = All-below n (discard n s) (All-discard _ n s h) (has-discard_self n s)

-- A set of numbers below n has at most n elements.
pub length-le : (n : ℕ) (s : IntSet) → IsDistinct s → All (λ i. i < n) s → length s ≤ n
length-le zero [] h a = omega arith
length-le zero (i ∷ s) h a = absurd (omega arith)
length-le (suc n) s h a = ground (
  arith,
  length-discard n s h,
  length-le n (discard n s) (discard-IsDistinct n s h) (discard-below n s a),
)

-- A set of n numbers below n has them all.
pub has-All :
    (n : ℕ) (s : IntSet) (i : ℕ)
    → IsDistinct s
    → All (λ j. j < n) s
    → length s ≡ n
    → i < n
    → has i s ≡ true
has-All zero s i h a e b = elim b [ ]
has-All (suc n) s i h a e b = ground (
  arith,
  length-discard n s h,
  length-le n (discard n s) (discard-IsDistinct n s h) (discard-below n s a),
  has-discard n i s,
  has-All n (discard n s) i (discard-IsDistinct n s h) (discard-below n s a),
)

-- And a set of numbers below n that has them all has n of them.
pub length_of_All :
    (n : ℕ) (s : IntSet)
    → IsDistinct s
    → All (λ j. j < n) s
    → ((i : ℕ) → i < n → has i s ≡ true)
    → length s ≡ n
length_of_All zero [] h a k = refl
length_of_All zero (i ∷ s) h a k = absurd (omega arith)
length_of_All (suc n) s h a k = ground (
  arith,
  length-discard n s h,
  k n (omega arith),
  length_of_All n (discard n s) (discard-IsDistinct n s h) (discard-below n s a)
      (λ i b. ground (arith, has-discard n i s, k i (omega arith))),
)
