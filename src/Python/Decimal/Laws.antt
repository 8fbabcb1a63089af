-- ===== src/Python/Decimal/Laws.antt =====
-- What `str` writes, `int` reads.
use aiobt.Prelude.{
  ℕ, zero, suc, ◌+◌, ◌-◌, ◌*◌, ◌/◌, ◌%◌, ◌<◌, ◌≤◌, [], ◌∷◌, ◌++◌, Bool, true, false, some, ltb, leb,
  ◌==◌, length, ◌≡◌, refl, arith, Bool-cases, inl, inr, All, All-append, ◌∙◌,
}
use aiobt.Python.Bytes.{Bytes}
use aiobt.Python.Result.{ok}
use aiobt.Python.Decimal.{
  ℤ, pos, negsuc, max_str_digits, is_digit, digit, other, classify, scan_digits, digits_value, Sign,
  plus, minus, signed, finish_int, unsigned_int, int_of_bytes, decimal_fuel, decimal, limited,
  str_of_int,
}

abbrev pub IsDigit : ℕ → Type 0
IsDigit c = is_digit c ≡ true

-- A byte that ends a run of digits.
abbrev pub IsEnd : ℕ → Type 0
IsEnd c = classify c ≡ other

pub IsDigit-bounds : (c : ℕ) → IsDigit c → (48 ≤ c) × (c ≤ 57)
IsDigit-bounds c h = ground arith

le→leb : (a b : ℕ) → a ≤ b → leb a b ≡ true
le→leb a b h = ground arith

append-cons : (a : Bytes) (x : ℕ) → (d : ℕ) × (ds : Bytes) × (a ++ x ∷ [] ≡ d ∷ ds)
append-cons [] x = (x, [], refl)
append-cons (d ∷ ds) x = (d, ds ++ x ∷ [], refl)

classify-IsDigit : (c : ℕ) → IsDigit c → classify c ≡ digit
unfolding classify
classify-IsDigit c h = ground arith

decimal_fuel-All : (f n : ℕ) → All IsDigit (decimal_fuel f n)
unfolding decimal_fuel
decimal_fuel-All zero n = tt
decimal_fuel-All (suc f) n = elim (Bool-cases (ltb n 10)) [
  | inl small ↦ rw small (ground arith, tt)
  | inr big ↦ rw big (All-append IsDigit _ _ (decimal_fuel-All f (n / 10)) (ground arith, tt))
]

pub decimal-All : (n : ℕ) → All IsDigit (decimal n)
unfolding decimal
decimal-All n = decimal_fuel-All (suc n) n

digits_value-append :
    (acc : ℕ) (a b : Bytes) → digits_value acc (a ++ b) ≡ digits_value (digits_value acc a) b
unfolding digits_value
digits_value-append acc [] b = refl
digits_value-append acc (c ∷ a) b = digits_value-append (acc * 10 + (c - 48)) a b

digits_value-decimal_fuel : (f n : ℕ) → n < f → digits_value 0 (decimal_fuel f n) ≡ n
unfolding decimal_fuel digits_value
digits_value-decimal_fuel zero n h = elim h [ ]
digits_value-decimal_fuel (suc f) n h = elim (Bool-cases (ltb n 10)) [
  | inl small ↦ rw small (omega arith)
  | inr big ↦
      rw (big, digits_value-append 0 (decimal_fuel f (n / 10)) ((48 + n % 10) ∷ []))
        (rw (digits_value-decimal_fuel f (n / 10) (ground arith)) (omega arith))
]

pub digits_value-decimal : (n : ℕ) → digits_value 0 (decimal n) ≡ n
unfolding decimal
digits_value-decimal n = digits_value-decimal_fuel (suc n) n (omega arith)

scan_digits_step :
    (after : Bool) (d : ℕ) (r ds rest : Bytes)
    → IsDigit d
    → scan_digits true r ≡ some (ds, rest)
    → scan_digits after (d ∷ r) ≡ some (d ∷ ds, rest)
unfolding scan_digits
scan_digits_step after d r ds rest h e = ground (arith, classify-IsDigit d h)

-- A run of digits is read whole.
scan_digits_tail : (ds : Bytes) → All IsDigit ds → scan_digits true ds ≡ some (ds, [])
unfolding scan_digits
scan_digits_tail [] h = refl
scan_digits_tail (d ∷ ds) h = scan_digits_step true d ds ds [] h.0 (scan_digits_tail ds h.1)

scan_digits_lem :
    (d : ℕ) (ds : Bytes) → All IsDigit (d ∷ ds) → scan_digits false (d ∷ ds) ≡ some (d ∷ ds, [])
scan_digits_lem d ds h = scan_digits_step false d ds ds [] h.0 (scan_digits_tail ds h.1)

unsigned_int_digits :
    (s : Sign) (d : ℕ) (ds : Bytes) (n : ℕ)
    → All IsDigit (d ∷ ds)
    → length (d ∷ ds) ≤ max_str_digits
    → digits_value 0 (d ∷ ds) ≡ n
    → unsigned_int s (d ∷ ds) ≡ some (signed s n)
unfolding unsigned_int finish_int
unsigned_int_digits s d ds n h fits e = rw (scan_digits_lem d ds h) (rw (e, le→leb _ _ fits))

-- The digits of a number: a first one, and the rest.
decimal_fuel-cons : (f n : ℕ) → (d : ℕ) × (ds : Bytes) × (decimal_fuel (suc f) n ≡ d ∷ ds)
unfolding decimal_fuel
decimal_fuel-cons f n = elim (Bool-cases (ltb n 10)) [
  | inl small ↦ (48 + n, [], rw small)
  | inr big ↦ rw big (append-cons (decimal_fuel f (n / 10)) (48 + n % 10))
]

pub decimal-cons : (n : ℕ) → (d : ℕ) × (ds : Bytes) × (decimal n ≡ d ∷ ds)
unfolding decimal
decimal-cons n = decimal_fuel-cons n n

unsigned_int-decimal :
    (s : Sign) (n : ℕ)
    → length (decimal n) ≤ max_str_digits
    → unsigned_int s (decimal n) ≡ some (signed s n)
unsigned_int-decimal s n fits =
    let (d, ds, e) = decimal-cons n in
    rw e (
      unsigned_int_digits s d ds n (rw e at (decimal-All n)) (rw e at fits)
        (rw e at (digits_value-decimal n)))

int_of_digits :
    (d : ℕ) (ds : Bytes) → IsDigit d → int_of_bytes (d ∷ ds) ≡ unsigned_int plus (d ∷ ds)
unfolding int_of_bytes
int_of_digits d ds h = ground arith

pub int_of_bytes-decimal :
    (n : ℕ) → length (decimal n) ≤ max_str_digits → int_of_bytes (decimal n) ≡ some (pos n)
int_of_bytes-decimal n fits =
    let (d, ds, e) = decimal-cons n in
    rw e
      (int_of_digits d ds (rw e at (decimal-All n)).0 ∙ rw e at (unsigned_int-decimal plus n fits))

pub int_of_bytes-minus :
    (n : ℕ)
    → length (decimal (suc n)) ≤ max_str_digits
    → int_of_bytes (b'-' ∷ decimal (suc n)) ≡ some (negsuc n)
unfolding int_of_bytes
int_of_bytes-minus n fits = unsigned_int-decimal minus (suc n) fits

-- Digits behind a plus sign are accepted, whatever the first one is.
pub int_of_bytes-plus_digits :
    (d : ℕ) (ds : Bytes) (n : ℕ)
    → All IsDigit (d ∷ ds)
    → length (d ∷ ds) ≤ max_str_digits
    → digits_value 0 (d ∷ ds) ≡ n
    → int_of_bytes (b'+' ∷ d ∷ ds) ≡ some (pos n)
unfolding int_of_bytes
int_of_bytes-plus_digits d ds n h fits e = unsigned_int_digits plus d ds n h fits e

limited-ok : (k : ℕ) (b : Bytes) {s : Bytes} → limited k b ≡ ok s → (k ≤ max_str_digits) × (b ≡ s)
limited-ok k b h = ground arith

-- What `str` writes, `int` reads.
pub int_of_bytes-str_of_int : (z : ℤ) {s : Bytes} → str_of_int z ≡ ok s → int_of_bytes s ≡ some z
unfolding str_of_int
int_of_bytes-str_of_int (pos n) h =
    let (fits, e) = limited-ok (length (decimal n)) (decimal n) h in
    rw (← e) (int_of_bytes-decimal n fits)
int_of_bytes-str_of_int (negsuc n) h =
    let (fits, e) = limited-ok (length (decimal (suc n))) (b'-' ∷ decimal (suc n)) h in
    rw (← e) (int_of_bytes-minus n fits)

-- The first digit of a positive number is not zero.
decimal_fuel-head :
    (f n : ℕ)
    → n < f
    → 0 < n
    → (d : ℕ) × (ds : Bytes) × (decimal_fuel f n ≡ d ∷ ds) × ((d == b'0') ≡ false)
unfolding decimal_fuel
decimal_fuel-head zero n h p = elim h [ ]
decimal_fuel-head (suc f) n h p = elim (Bool-cases (ltb n 10)) [
  | inl small ↦ (48 + n, [], rw small, ground arith)
  | inr big ↦
      let (d, ds, e, ne) = decimal_fuel-head f (n / 10) (ground arith) (ground arith) in
      (d, ds ++ (48 + n % 10) ∷ [], rw big (rw e), ne)
]

pub decimal-head :
    (n : ℕ) → (d : ℕ) × (ds : Bytes) × (decimal (suc n) ≡ d ∷ ds) × ((d == b'0') ≡ false)
unfolding decimal
decimal-head n = decimal_fuel-head (suc (suc n)) (suc n) (omega arith) (omega arith)

pub decimal-zero : decimal 0 ≡ b'0' ∷ []
unfolding decimal
decimal-zero = refl

pub str_of_int-pos : (n : ℕ) {s : Bytes} → str_of_int (pos n) ≡ ok s → decimal n ≡ s
unfolding str_of_int
str_of_int-pos n h = (limited-ok (length (decimal n)) (decimal n) h).1

pub str_of_int-negsuc :
    (n : ℕ) {s : Bytes} → str_of_int (negsuc n) ≡ ok s → b'-' ∷ decimal (suc n) ≡ s
unfolding str_of_int
str_of_int-negsuc n h = (limited-ok (length (decimal (suc n))) (b'-' ∷ decimal (suc n)) h).1
