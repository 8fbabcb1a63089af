-- ===== src/Mse/Keys.antt =====
-- The key exchange of src/aiobt/mse.py. sha1 is a parameter; so are the random private keys.
pub mod Agreement
use aiobt.Python.Bytes.{Bytes}
use aiobt.Python.Result.{Result, ok, ◌>>=◌}
use aiobt.Mse.Rc4.{Rc4, new_rc4}
use aiobt.Prelude.{if◌then◌else◌, ◌%◌, ◌+◌, ◌++◌, Bool, ◌*◌, ◌/◌, ◌^◌, List, [], ◌∷◌, ℕ, zero, suc}

abbrev pub dh_p : ℕ
dh_p =
    0xFFFFFFFFFFFFFFFFC90FDAA22168C234C4C6628B80DC1CD129024E088A67CC74020BBEA63B139B22514A08798E3404DDEF9519B3CD3A431B302B0A6DF25F14374FE1356D6D51C245E485B576625E7EC6F44C42E9A63A36210000000000090563

abbrev pub dh_g : ℕ
dh_g = 2

-- pow(base, exponent, modulus)
unfoldable pub pow_mod : ℕ → ℕ → ℕ → ℕ
pow_mod base exponent modulus = base ^ exponent % modulus

-- n.to_bytes(size), for numbers that fit
unfoldable pub int_to_bytes : ℕ → ℕ → Bytes
int_to_bytes n zero = []
int_to_bytes n (suc size) = int_to_bytes (n / 256) size ++ (n % 256 ∷ [])

-- int.from_bytes(b), behind the bytes with the value of the first argument
unfoldable pub int_from_bytes : ℕ → Bytes → ℕ
int_from_bytes value [] = value
int_from_bytes value (x ∷ b) = int_from_bytes (value * 256 + x) b

-- The public value for a private key.
unfoldable pub dh_public : ℕ → Bytes
unfolding pow_mod int_to_bytes
dh_public xa = int_to_bytes (pow_mod dh_g xa dh_p) 96

unfoldable pub dh_secret : Bytes → ℕ → Bytes
unfolding pow_mod int_to_bytes int_from_bytes
dh_secret their_public our_private =
    int_to_bytes (pow_mod (int_from_bytes 0 their_public) our_private dh_p) 96

abbrev pub key_a : Bytes
key_a = b'k' ∷ b'e' ∷ b'y' ∷ b'A' ∷ []

abbrev pub key_b : Bytes
key_b = b'k' ∷ b'e' ∷ b'y' ∷ b'B' ∷ []

-- The ciphers to encrypt and to decrypt.
unfoldable pub derive_keys : (Bytes → Bytes) → Bytes → Bytes → Bool → Result (Rc4 × Rc4)
unfolding new_rc4
derive_keys sha1 secret info_hash initiator = do
  a ← new_rc4 (sha1 (key_a ++ (secret ++ info_hash))) 1024
  b ← new_rc4 (sha1 (key_b ++ (secret ++ info_hash))) 1024
  ok (if initiator then (a, b) else (b, a))
