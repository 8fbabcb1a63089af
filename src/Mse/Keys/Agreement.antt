-- ===== src/Mse/Keys/Agreement.antt =====
-- The two ends of a handshake of src/aiobt/mse.py derive the same ciphers.
use aiobt.Python.Result.{◌>>=◌, Result, ok}
use aiobt.Mse.Rc4.{new_rc4, Rc4}
use aiobt.Python.Bytes.{Bytes}
use aiobt.Mse.Keys.{
  key_b, key_a, derive_keys, dh_p, dh_g, pow_mod, int_to_bytes, int_from_bytes, dh_public,
  dh_secret,
}
use native.Mathlib.Nat.{
  one-mul, zero-mul, suc-mul, add-mul-mod_self_left, mul_assoc, mul_comm, mod-add-div, pow-zero,
  pow-suc, mod-lt, add-mul,
}
use aiobt.Mse.Rc4.Laws.{IsRc4, new_rc4-IsRc4}
use aiobt.Prelude.{
  length, if◌then◌else◌, Bool, false, true, ◌≤◌, sym, ap, ◌∙◌, ◌/◌, ◌+◌, arith, refl, ◌*◌, ◌≡◌, ◌^◌,
  ◌%◌, ◌++◌, ◌<◌, [], ◌∷◌, ℕ, zero, suc,
}

int_from_bytes-append :
    (value : ℕ) (b : Bytes) (x : ℕ)
    → int_from_bytes value (b ++ (x ∷ [])) ≡ int_from_bytes value b * 256 + x
unfolding int_from_bytes
int_from_bytes-append value [] x = refl
int_from_bytes-append value (y ∷ b) x = int_from_bytes-append (value * 256 + y) b x

int_from_bytes-int_to_bytes :
    (n size : ℕ) → n < 256 ^ size → int_from_bytes 0 (int_to_bytes n size) ≡ n
unfolding int_from_bytes int_to_bytes
int_from_bytes-int_to_bytes n zero h = omega arith
int_from_bytes-int_to_bytes n (suc size) h =
    int_from_bytes-append 0 (int_to_bytes (n / 256) size) (n % 256)
    ∙ ap (λ k. k * 256 + n % 256) (int_from_bytes-int_to_bytes (n / 256) size (omega arith))
    ∙ omega arith

-- The laws of powers and remainders that the exchange rests on.
mod-mul_left : (x y p : ℕ) → x % p * y % p ≡ x * y % p
mod-mul_left x y p =
    let whole : x % p * y + p * (x / p * y) ≡ x * y =
      ap (λ k. x % p * y + k) (sym (mul_assoc p (x / p) y))
      ∙ sym (add-mul (x % p) (p * (x / p)) y)
      ∙ ap (λ k. k * y) (mod-add-div x p) in
    sym (add-mul-mod_self_left (x % p * y) p (x / p * y)) ∙ ap (λ k. k % p) whole

pow-mod_left : (x n p : ℕ) → (x % p) ^ n % p ≡ x ^ n % p
pow-mod_left x zero p = ap (λ k. k % p) (pow-zero (x % p) ∙ sym (pow-zero x))
pow-mod_left x (suc n) p =
    ap (λ k. k % p) (pow-suc (x % p) n)
    ∙ sym (mod-mul_left ((x % p) ^ n) (x % p) p)
    ∙ ap (λ k. k * (x % p) % p) (pow-mod_left x n p)
    ∙ mod-mul_left (x ^ n) (x % p) p
    ∙ ap (λ k. k % p) (mul_comm (x ^ n) (x % p))
    ∙ mod-mul_left x (x ^ n) p
    ∙ ap (λ k. k % p) (mul_comm x (x ^ n) ∙ sym (pow-suc x n))

pow-add : (g m n : ℕ) → g ^ (m + n) ≡ g ^ m * g ^ n
pow-add g zero n =
    let zero_add : 0 + n ≡ n = omega arith in
    ap (λ k. g ^ k) zero_add ∙ sym (ap (λ k. k * g ^ n) (pow-zero g) ∙ one-mul (g ^ n))
pow-add g (suc m) n =
    let step : suc m + n ≡ suc (m + n) = omega arith in
    ap (λ k. g ^ k) step
    ∙ pow-suc g (m + n)
    ∙ ap (λ k. k * g) (pow-add g m n)
    ∙ mul_assoc (g ^ m) (g ^ n) g
    ∙ ap (λ k. g ^ m * k) (mul_comm (g ^ n) g)
    ∙ sym (mul_assoc (g ^ m) g (g ^ n))
    ∙ ap (λ k. k * g ^ n) (sym (pow-suc g m))

pow-pow : (g a b : ℕ) → (g ^ a) ^ b ≡ g ^ (b * a)
pow-pow g a zero = pow-zero (g ^ a) ∙ sym (ap (λ k. g ^ k) (zero-mul a) ∙ pow-zero g)
pow-pow g a (suc b) =
    pow-suc (g ^ a) b
    ∙ ap (λ k. k * g ^ a) (pow-pow g a b)
    ∙ sym (ap (λ k. g ^ k) (suc-mul b a) ∙ pow-add g (b * a) a)

pow-pow_comm : (g a b : ℕ) → (g ^ a) ^ b ≡ (g ^ b) ^ a
pow-pow_comm g a b = pow-pow g a b ∙ ap (λ k. g ^ k) (mul_comm b a) ∙ sym (pow-pow g b a)

abbrev Fits : ℕ → Type 0
Fits p = (0 < p) × (p ≤ 256 ^ 96)

-- With any modulus that fits the public values, each end's power of the other's public value is
-- the same.
power-shared :
    (g a b p : ℕ)
    → Fits p
    → pow_mod (int_from_bytes 0 (int_to_bytes (pow_mod g a p) 96)) b p ≡ (g ^ a) ^ b % p
unfolding pow_mod
power-shared g a b p (positive, fits) =
    ap (λ k. k ^ b % p)
      (int_from_bytes-int_to_bytes (g ^ a % p) 96 (omega (arith, mod-lt (g ^ a) positive, fits)))
    ∙ pow-mod_left (g ^ a) b p

dh_p-Fits : Fits dh_p
dh_p-Fits = (omega arith, omega arith)

-- Each end derives the same secret from its private key and the other's public value.
pub dh_secret-dh_public : (a b : ℕ) → dh_secret (dh_public a) b ≡ dh_secret (dh_public b) a
unfolding dh_secret dh_public
dh_secret-dh_public a b =
    ap (λ n. int_to_bytes n 96)
      (power-shared dh_g a b dh_p dh_p-Fits
        ∙ ap (λ k. k % dh_p) (pow-pow_comm dh_g a b)
        ∙ sym (power-shared dh_g b a dh_p dh_p-Fits))

abbrev pair_up : Bool → Result Rc4 → Result Rc4 → Result (Rc4 × Rc4)
pair_up initiator x y = x >>= (λ a. y >>= (λ b. ok (if initiator then (a, b) else (b, a))))

pair_up-ok :
    (initiator : Bool) (x y : Result Rc4) {u v : Rc4}
    → x ≡ ok u
    → y ≡ ok v
    → pair_up initiator x y ≡ ok (if initiator then (u, v) else (v, u))
pair_up-ok initiator x y {u} {v} p q = rw (p, q) refl

pub derive_keys-ok :
    (sha1 : Bytes → Bytes) (secret info_hash : Bytes) (initiator : Bool) {u v : Rc4}
    → new_rc4 (sha1 (key_a ++ (secret ++ info_hash))) 1024 ≡ ok u
    → new_rc4 (sha1 (key_b ++ (secret ++ info_hash))) 1024 ≡ ok v
    → derive_keys sha1 secret info_hash initiator ≡ ok (if initiator then (u, v) else (v, u))
unfolding derive_keys
derive_keys-ok sha1 secret info_hash initiator p q =
    pair_up-ok initiator (new_rc4 (sha1 (key_a ++ (secret ++ info_hash))) 1024)
      (new_rc4 (sha1 (key_b ++ (secret ++ info_hash))) 1024) p q

-- The two ends of a handshake, with private keys a and b and the same info hash, derive the same
-- two ciphers, where the digests are not empty: what one encrypts with the other decrypts with.
pub derive_keys-shared :
    (sha1 : Bytes → Bytes) (info_hash : Bytes) (a b : ℕ)
    → ((m : Bytes) → 0 < length (sha1 m))
    → (enc : Rc4) × (dec : Rc4) × (derive_keys sha1 (dh_secret (dh_public b) a) info_hash true
        ≡ ok (enc, dec))
      × (derive_keys sha1 (dh_secret (dh_public a) b) info_hash false ≡ ok (dec, enc))
      × IsRc4 enc
      × IsRc4 dec
derive_keys-shared sha1 info_hash a b h =
    let secret = dh_secret (dh_public b) a in
    let (x, p, u) = new_rc4-IsRc4 (sha1 (key_a ++ (secret ++ info_hash))) 1024 (h _) in
    let (y, q, v) = new_rc4-IsRc4 (sha1 (key_b ++ (secret ++ info_hash))) 1024 (h _) in
    (
      x,
      y,
      derive_keys-ok sha1 secret info_hash true p q,
      ap (λ s. derive_keys sha1 s info_hash false) (dh_secret-dh_public a b)
          ∙ derive_keys-ok sha1 secret info_hash false p q,
      u,
      v,
    )
