-- ===== src/Python/Xor.antt =====
-- Exclusive or on bytes, checked over all pairs of them.
use Prim.Native.Nat.{bit_xor}
use aiobt.Bitfield.Bits.{every_below, every_below_sound}
use aiobt.Prelude.{ℕ, ◌<◌, Bool, true, ◌&&◌, &&-true, ltb, ltb→lt, ◌==◌, ==_iff, ◌≡◌, refl}

abbrev xor_test : ℕ → ℕ → Bool
xor_test a b = (bit_xor (bit_xor a b) b == a) && ltb (bit_xor a b) 256

xor_table : every_below 256 (λ a. every_below 256 (λ b. xor_test a b)) ≡ true
unfolding every_below
xor_table = refl

xor_test_holds : (a b : ℕ) → a < 256 → b < 256 → xor_test a b ≡ true
xor_test_holds a b ha hb =
    every_below_sound 256 (λ c. xor_test a c) b hb
      (every_below_sound 256 (λ x. every_below 256 (λ c. xor_test x c)) a ha xor_table)

-- A second exclusive or with the same byte takes the first back.
pub bit_xor_twice : (a b : ℕ) → a < 256 → b < 256 → bit_xor (bit_xor a b) b ≡ a
bit_xor_twice a b ha hb = (==_iff _ _).0 (&&-true _ _ (xor_test_holds a b ha hb)).0

pub bit_xor-lt : (a b : ℕ) → a < 256 → b < 256 → bit_xor a b < 256
bit_xor-lt a b ha hb = ltb→lt _ _ (&&-true _ _ (xor_test_holds a b ha hb)).1
