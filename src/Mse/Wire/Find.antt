-- ===== src/Mse/Wire/Find.antt =====
-- The first place of a mark in the bytes that src/aiobt/mse.py scans, as more of them arrive.
use aiobt.Mse.Wire.{starts_with, find, one_later}
use aiobt.Python.Bytes.{Bytes}
use aiobt.Prelude.{
  leb→le, leb, ◌∙◌, Bool-cases, &&-true, some-injective, sym, ◌&&◌, ◌==◌, ap, ◌+◌, ◌≤◌, ◌<◌, true,
  Option, length, ◌++◌, [], ◌∷◌, ℕ, suc, refl, arith, inl, inr, ◌≡◌, none, some,
}

starts_with-append :
    (pattern a b : Bytes) → starts_with pattern a ≡ true → starts_with pattern (a ++ b) ≡ true
unfolding starts_with
starts_with-append [] a b h = refl
starts_with-append (x ∷ p) [] b h = cc
starts_with-append (x ∷ p) (y ∷ a) b h = ground (arith, starts_with-append p a b)

starts_with-prefix :
    (pattern a b : Bytes)
    → length pattern ≤ length a
    → starts_with pattern (a ++ b) ≡ starts_with pattern a
unfolding starts_with
starts_with-prefix [] a b h = refl
starts_with-prefix (x ∷ p) [] b h = absurd (omega arith)
starts_with-prefix (x ∷ p) (y ∷ a) b h =
    ap (λ t. x == y && t) (starts_with-prefix p a b (omega arith))

starts_with-length : (pattern a : Bytes) → starts_with pattern a ≡ true → length pattern ≤ length a
unfolding starts_with
starts_with-length [] a h = omega arith
starts_with-length (x ∷ p) [] h = cc
starts_with-length (x ∷ p) (y ∷ a) h =
    omega (arith, starts_with-length p a (&&-true (x == y) (starts_with p a) h).1)

one_later-cases :
    (o : Option ℕ) (p : ℕ) → one_later o ≡ some p → (q : ℕ) × (o ≡ some q) × (p ≡ suc q)
one_later-cases none p h = cc
one_later-cases (some q) p h = (q, refl, sym (some-injective h))

one_later-none : (o : Option ℕ) → one_later o ≡ none → o ≡ none
one_later-none none h = refl
one_later-none (some q) h = cc

find-empty : (b : Bytes) → find [] b ≡ some 0
unfolding find
find-empty [] = refl
find-empty (y ∷ b) = refl

-- A mark that is found stays the first one when more comes.
pub find-append :
    (pattern a b : Bytes) (p : ℕ)
    → find pattern a ≡ some p
    → (find pattern (a ++ b) ≡ some p) × (p + length pattern ≤ length a)
unfolding find
find-append [] [] b p h = let zero_at = some-injective h in (find-empty b ∙ h, omega arith)
find-append (x ∷ m) [] b p h = cc
find-append pattern (y ∷ a) b p h = elim (Bool-cases (starts_with pattern (y ∷ a))) [
  | inl e ↦
      let at_start : some 0 ≡ some p = rw e at h in
      let zero_at = some-injective at_start in
      (
        rw (starts_with-append pattern (y ∷ a) b e) at_start,
        omega (arith, starts_with-length pattern (y ∷ a) e),
      )
  | inr e ↦
      let behind : one_later (find pattern a) ≡ some p = rw e at h in
      let (q, found, next) = one_later-cases (find pattern a) p behind in
      let (same, bound) = find-append pattern a b q found in
      let prefix = starts_with-prefix pattern (y ∷ a) b (omega arith) in
      (rw (prefix ∙ e) (rw same (ap some (sym next))), omega arith)
]

-- A mark that is found in the end, and not in what is there, is not whole yet.
pub find-later :
    (pattern a b : Bytes) (p : ℕ)
    → find pattern (a ++ b) ≡ some p
    → find pattern a ≡ none
    → length a < p + length pattern
unfolding find
find-later [] [] b p h n = cc
find-later (x ∷ m) [] b p h n = omega arith
find-later pattern (y ∷ a) b p h n = elim (Bool-cases (starts_with pattern (y ∷ a))) [
  | inl e ↦ let bad : some 0 ≡ none = rw e at n in cc
  | inr e ↦
      let none_behind = one_later-none (find pattern a) (rw e at n) in
      elim (Bool-cases (starts_with pattern (y ∷ (a ++ b)))) [
        | inl f ↦ elim (Bool-cases (leb (length pattern) (suc (length a)))) [
          | inl small ↦ let prefix = starts_with-prefix pattern (y ∷ a) b (leb→le _ _ small) in cc
          | inr big ↦ ground arith
        ]
        | inr f ↦
            let (q, found, next) = one_later-cases (find pattern (a ++ b)) p (rw f at h) in
            omega (arith, find-later pattern a b q found none_behind)
      ]
]
