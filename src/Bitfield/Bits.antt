-- ===== src/Bitfield/Bits.antt =====
-- Setting one bit of a byte, checked over all bytes and all pairs of bits.
use Prim.Native.Nat.{bit_or}
use aiobt.Prelude.{
  ℕ, zero, suc, ◌<◌, ◌^◌, Bool, true, false, ◌&&◌, not, ltb, ltb→lt, ◌==◌, if◌then◌else◌, ◌≡◌, refl,
  arith, &&-true,
}
use aiobt.Bitfield.{is_set}

unfoldable pub every_below : ℕ → (ℕ → Bool) → Bool
every_below zero p = true
every_below (suc n) p = p n && every_below n p

pub every_below_sound : (n : ℕ) (p : ℕ → Bool) (x : ℕ) → x < n → every_below n p ≡ true → p x ≡ true
unfolding every_below
every_below_sound zero p x lt h = elim lt [ ]
every_below_sound (suc n) p x lt h = ground (arith, every_below_sound n p x)

bool_eq : Bool → Bool → Bool
bool_eq true b = b
bool_eq false b = not b

bool_eq-true : (a b : Bool) → bool_eq a b ≡ true → a ≡ b
unfolding bool_eq
bool_eq-true a b h = ground arith

-- Bit j of a byte with bit i set, and the size of that byte.
abbrev bit_test : ℕ → ℕ → ℕ → Bool
bit_test byte i j =
    bool_eq (is_set (bit_or byte (2 ^ i)) (2 ^ j)) (if i == j then true else is_set byte (2 ^ j))
    && ltb (bit_or byte (2 ^ i)) 256

bit_table : every_below 256 (λ b. every_below 8 (λ i. every_below 8 (λ j. bit_test b i j))) ≡ true
unfolding every_below bool_eq
bit_table = refl

bit_test_holds : (b i j : ℕ) → b < 256 → i < 8 → j < 8 → bit_test b i j ≡ true
bit_test_holds b i j hb hi hj =
    every_below_sound 8 (λ j. bit_test b i j) j hj
      (every_below_sound 8 (λ i. every_below 8 (λ j. bit_test b i j)) i hi
        (every_below_sound 256 (λ b. every_below 8 (λ i. every_below 8 (λ j. bit_test b i j))) b hb
          bit_table))

-- A byte with bit i set has that bit, and the others as before.
pub is_set-bit_or :
    (b i j : ℕ)
    → b < 256
    → i < 8
    → j < 8
    → is_set (bit_or b (2 ^ i)) (2 ^ j) ≡ (if i == j then true else is_set b (2 ^ j))
is_set-bit_or b i j hb hi hj = bool_eq-true _ _ (&&-true _ _ (bit_test_holds b i j hb hi hj)).0

pub bit_or-lt : (b i : ℕ) → b < 256 → i < 8 → bit_or b (2 ^ i) < 256
bit_or-lt b i hb hi = ltb→lt _ _ (&&-true _ _ (bit_test_holds b i 0 hb hi (omega arith))).1

zero_table : every_below 8 (λ j. not (is_set 0 (2 ^ j))) ≡ true
unfolding every_below
zero_table = refl

not-true : (b : Bool) → not b ≡ true → b ≡ false
not-true b h = ground arith

pub is_set-zero : (j : ℕ) → j < 8 → is_set 0 (2 ^ j) ≡ false
is_set-zero j h = not-true _ (every_below_sound 8 (λ j. not (is_set 0 (2 ^ j))) j h zero_table)
