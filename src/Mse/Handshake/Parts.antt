-- ===== src/Mse/Handshake/Parts.antt =====
-- What two sides of src/aiobt/mse.py that shake hands have in common: public values, marks, the
-- method and the streams.
use aiobt.Python.Struct.{AreBytes, u32_limit}
use aiobt.Mse.Rc4.{Rc4}
use aiobt.Mse.Stream.Reads.{pending}
use aiobt.Mse.Handshake.{xor_bytes, stream_of, Reading, MseStream, encrypted, plaintext}
use aiobt.Mse.Handshake.Readings.{head_of_length, cipher_of, plain_of}
use aiobt.Mse.Handshake.Offers.{padded}
use aiobt.Mse.Keys.{dh_p, dh_g, pow_mod, int_to_bytes, dh_public}
use aiobt.Mse.Negotiation.{
  is_disabled, crypto_plaintext, crypto_rc4, EncryptionPolicy, disabled, preferred, forced,
  crypto_provide, crypto_select, accept_selected, AreCompatible,
}
use aiobt.Mse.Wire.{find, take_exactly}
use aiobt.Mse.Wire.Reads.{take_exactly_lem}
use aiobt.Mse.Wire.Find.{find-append}
use aiobt.Python.Bytes.{Bytes}
use aiobt.Python.Result.{ok}
use aiobt.Prelude.{
  ◌||◌, not, zero, ◌%◌, ◌/◌, suc, drop, append-nil, ◌<◌, length-append, joined, append_assoc, ◌==◌,
  length, ◌++◌, Bool, List, [], ◌∷◌, ℕ, refl, arith, ◌≡◌, ◌∙◌, sym, ap, true, false, some,
}

-- The public value, and what follows it.
pub first_key :
    (key pad x later : Bytes) (l : List Bytes)
    → length key ≡ 96
    → joined l ≡ ((key ++ pad) ++ x) ++ later
    → (r : List Bytes) × (take_exactly 96 l ≡ ok (key, r)) × (joined r ≡ pad ++ (x ++ later))
first_key key pad x later l size e =
    let flat : joined l ≡ key ++ (pad ++ (x ++ later)) =
      e ∙ append_assoc (key ++ pad) x later ∙ append_assoc key pad (x ++ later) in
    let (r, run, rest) =
      take_exactly_lem 96 l
        (omega (arith, size, ap length flat, length-append key (pad ++ (x ++ later)))) in
    let (t, d) =
      head_of_length 96 key (pad ++ (x ++ later)) (joined l) [] size (append-nil (joined l) ∙ flat)
        (omega (arith, size, ap length flat, length-append key (pad ++ (x ++ later)))) in
    (r, run ∙ ap (λ b. ok (b, r)) t, rest ∙ sym (append-nil (drop 96 (joined l))) ∙ d)

pub found_in :
    (mark pad rest all : Bytes) {p : ℕ}
    → find mark (pad ++ mark) ≡ some p
    → all ≡ pad ++ (mark ++ rest)
    → find mark all ≡ some p
found_in mark pad rest all {p} h e =
    ap (find mark) (e ∙ sym (append_assoc pad mark rest))
    ∙ (find-append mark (pad ++ mark) rest p h).0

-- The method that two compatible sides agree on.
pub agreed :
    (a b : EncryptionPolicy)
    → AreCompatible a b
    → (method : ℕ) × (crypto_select b (crypto_provide a) ≡ ok method)
      × (accept_selected a method ≡ ok (method == crypto_rc4))
      × (method < u32_limit)
      × ((method == crypto_rc4) ≡ not (is_disabled a || is_disabled b))
unfolding crypto_select crypto_provide accept_selected
agreed disabled disabled h = (crypto_plaintext, refl, refl, omega arith, refl)
agreed disabled preferred h = (crypto_plaintext, refl, refl, omega arith, refl)
agreed disabled forced (m, p, r) = absurd (omega (arith, p, r))
agreed preferred disabled h = (crypto_plaintext, refl, refl, omega arith, refl)
agreed preferred preferred h = (crypto_rc4, refl, refl, omega arith, refl)
agreed preferred forced h = (crypto_rc4, refl, refl, omega arith, refl)
agreed forced disabled (m, p, r) = absurd (omega (arith, p, r))
agreed forced preferred h = (crypto_rc4, refl, refl, omega arith, refl)
agreed forced forced h = (crypto_rc4, refl, refl, omega arith, refl)

-- What comes out of the one stream is what its bytes were before the other one enciphered them.
abbrev pub Reads : MseStream → MseStream → Bytes → Type 0
Reads (encrypted s) (encrypted t) sent = pending s ≡ cipher_of t.enc sent
Reads (plaintext r) (plaintext r') sent = Unit
Reads _ _ sent = ⊥

pub stream_of-Reads :
    (b : Bool) (enc enc' : Rc4) (r r' : Reading) (sent : Bytes)
    → plain_of r ≡ cipher_of enc' sent
    → Reads (stream_of b enc r) (stream_of b enc' r') sent
stream_of-Reads false enc enc' r r' sent h = tt
stream_of-Reads true enc enc' r r' sent h = h

length-int_to_bytes : (n size : ℕ) → length (int_to_bytes n size) ≡ size
unfolding int_to_bytes
length-int_to_bytes n zero = refl
length-int_to_bytes n (suc size) = omega (
  arith,
  length-append (int_to_bytes (n / 256) size) (n % 256 ∷ []),
  length-int_to_bytes (n / 256) size,
)

pub length-dh_public : (x : ℕ) → length (dh_public x) ≡ 96
unfolding dh_public
length-dh_public x = length-int_to_bytes (pow_mod dh_g x dh_p) 96

pub length-xor_bytes : (a b : Bytes) → length a ≡ length b → length (xor_bytes a b) ≡ length a
unfolding xor_bytes
length-xor_bytes [] b h = refl
length-xor_bytes (x ∷ a) [] h = absurd (omega arith)
length-xor_bytes (x ∷ a) (y ∷ b) h = ap suc (length-xor_bytes a b (omega arith))

pub padded-AreBytes : (pad : Bytes) → AreBytes pad → AreBytes (padded pad)
padded-AreBytes [] h = omega arith
padded-AreBytes (x ∷ pad) h = (h.0, padded-AreBytes pad h.1)
