-- ===== src/Python/Bytes.antt =====
-- Byte strings as lists of numbers, with Python's order on them.
use aiobt.Prelude.{
  sym, ◌∙◌, inr, inl, Bool-cases, ℕ, List, [], ◌∷◌, Bool, true, false, ◌≡◌, refl, arith, ltb, ◌==◌,
  if◌then◌else◌,
}

abbrev pub Bytes : Type 0
Bytes = List ℕ

-- a == b
unfoldable pub bytes_eq : Bytes → Bytes → Bool
bytes_eq [] [] = true
bytes_eq (x ∷ a) (y ∷ b) = if x == y then bytes_eq a b else false
bytes_eq _ _ = false

-- a < b, in lexicographic order
unfoldable pub bytes_lt : Bytes → Bytes → Bool
bytes_lt a [] = false
bytes_lt [] (y ∷ b) = true
bytes_lt (x ∷ a) (y ∷ b) = if x == y then bytes_lt a b else ltb x y

pub bytes_eq-true : (a b : Bytes) → bytes_eq a b ≡ true → a ≡ b
unfolding bytes_eq
bytes_eq-true [] [] h = refl
bytes_eq-true (x ∷ a) (y ∷ b) h = ground (arith, bytes_eq-true a b)
bytes_eq-true [] (y ∷ b) h = cc
bytes_eq-true (x ∷ a) [] h = cc

pub bytes_eq_refl : (a : Bytes) → bytes_eq a a ≡ true
unfolding bytes_eq
bytes_eq_refl [] = refl
bytes_eq_refl (x ∷ a) = ground (arith, bytes_eq_refl a)

pub bytes_lt_irrefl : (a : Bytes) → bytes_lt a a ≡ false
unfolding bytes_lt
bytes_lt_irrefl [] = refl
bytes_lt_irrefl (x ∷ a) = ground (arith, bytes_lt_irrefl a)

pub bytes_lt_trans :
    (a b c : Bytes) → bytes_lt a b ≡ true → bytes_lt b c ≡ true → bytes_lt a c ≡ true
unfolding bytes_lt
bytes_lt_trans [] (y ∷ b) (z ∷ c) h k = refl
bytes_lt_trans (x ∷ a) (y ∷ b) (z ∷ c) h k = ground (arith, bytes_lt_trans a b c)
bytes_lt_trans [] [] c h k = cc
bytes_lt_trans (x ∷ a) [] c h k = cc
bytes_lt_trans [] (y ∷ b) [] h k = cc
bytes_lt_trans (x ∷ a) (y ∷ b) [] h k = cc

-- Two byte strings that are not equal are ordered one way.
pub bytes_lt_total :
    (a b : Bytes) → bytes_lt a b ≡ false → bytes_eq b a ≡ false → bytes_lt b a ≡ true
unfolding bytes_lt bytes_eq
bytes_lt_total [] [] h k = cc
bytes_lt_total [] (y ∷ b) h k = cc
bytes_lt_total (x ∷ a) [] h k = refl
bytes_lt_total (x ∷ a) (y ∷ b) h k = ground (arith, bytes_lt_total a b)

pub bytes_lt_asymm : (a b : Bytes) → bytes_lt a b ≡ true → bytes_lt b a ≡ false
unfolding bytes_lt
bytes_lt_asymm [] (y ∷ b) h = refl
bytes_lt_asymm (x ∷ a) (y ∷ b) h = ground (arith, bytes_lt_asymm a b)
bytes_lt_asymm [] [] h = cc
bytes_lt_asymm (x ∷ a) [] h = cc

-- A smaller byte string is another one.
pub bytes_eq_of_lt : (a b : Bytes) → bytes_lt a b ≡ true → bytes_eq a b ≡ false
unfolding bytes_lt bytes_eq
bytes_eq_of_lt [] (y ∷ b) h = refl
bytes_eq_of_lt (x ∷ a) (y ∷ b) h = ground (arith, bytes_eq_of_lt a b)
bytes_eq_of_lt [] [] h = cc
bytes_eq_of_lt (x ∷ a) [] h = cc

pub bytes_eq_sym : (a b : Bytes) → bytes_eq a b ≡ bytes_eq b a
bytes_eq_sym a b = elim (Bool-cases (bytes_eq a b)) [
  | inl e ↦ rw (bytes_eq-true a b e) refl
  | inr e ↦ elim (Bool-cases (bytes_eq b a)) [
    | inl f ↦ rw (bytes_eq-true b a f) refl
    | inr f ↦ e ∙ sym f
  ]
]
