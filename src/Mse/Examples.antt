-- ===== src/Mse/Examples.antt =====
-- A known stream of RC4, two ends of an encrypted stream, and a negotiation.
use aiobt.Python.Bytes.{Bytes}
use aiobt.Python.Result.{ok}
use aiobt.Mse.Rc4.{Rc4, process, schedule, count_from}
use aiobt.Mse.Rc4.Laws.{IsRc4, scheduled, scheduled-IsRc4}
use aiobt.Mse.Stream.{EncryptedStream, new_stream, read_exactly, write, write_each}
use aiobt.Mse.Stream.Reads.{pending}
use aiobt.Mse.Stream.Exchange.{read_exactly-write_each}
use aiobt.Mse.Keys.{derive_keys, dh_secret, dh_public}
use aiobt.Mse.Keys.Agreement.{derive_keys-shared}
use aiobt.Prelude.{
  joined, length, ◌++◌, false, ◌<◌, take, true, [], ◌∷◌, replicate, arith, refl, ◌≡◌, List,
}

-- The cipher for the key "Key".
abbrev cipher : Rc4
cipher = scheduled (b'K' ∷ b'e' ∷ b'y' ∷ [])

abbrev plain : List Bytes
plain = (b'P' ∷ b'l' ∷ b'a' ∷ []) ∷ (b'i' ∷ b'n' ∷ b't' ∷ b'e' ∷ b'x' ∷ b't' ∷ []) ∷ []

-- "Plaintext" under it, as published.
vector :
    (process cipher (joined plain)).1
    ≡ 0xBB ∷ 0xF3 ∷ 0x16 ∷ 0xE8 ∷ 0xD9 ∷ 0x40 ∷ 0xAF ∷ 0x0A ∷ 0xD3 ∷ []
unfolding process schedule count_from
vector = refl

-- The nine bytes arrive in two chunks.
abbrev arrived : List Bytes
arrived = (0xBB ∷ 0xF3 ∷ []) ∷ (0x16 ∷ 0xE8 ∷ 0xD9 ∷ 0x40 ∷ 0xAF ∷ 0x0A ∷ 0xD3 ∷ []) ∷ []

abbrev sender : EncryptedStream
sender = new_stream [] [] cipher cipher

sent : joined arrived ≡ (write_each sender plain).writer
unfolding write process schedule count_from
sent = refl

read_exactly-write_each_example :
    (st : EncryptedStream) × (read_exactly (new_stream arrived [] cipher cipher) 5
      ≡ ok (b'P' ∷ b'l' ∷ b'a' ∷ b'i' ∷ b'n' ∷ [], st))
    × (pending st ≡ b't' ∷ b'e' ∷ b'x' ∷ b't' ∷ [])
read_exactly-write_each_example =
    read_exactly-write_each cipher cipher [] arrived sender plain 5
      (scheduled-IsRc4 (b'K' ∷ b'e' ∷ b'y' ∷ [])) refl refl (omega arith) sent (omega arith)

-- A stand-in for a digest.
abbrev first_bytes : Bytes → Bytes
first_bytes m = take 20 (m ++ replicate 20 1)

first_bytes-length : (m : Bytes) → 0 < length (first_bytes m)
first_bytes-length [] = omega arith
first_bytes-length (x ∷ m) = omega arith

derive_keys-shared_example :
    (enc : Rc4) × (dec : Rc4) × (derive_keys first_bytes
        (dh_secret (dh_public 5) 3)
        (replicate 20 9)
        true
      ≡ ok (enc, dec))
    × (derive_keys first_bytes (dh_secret (dh_public 3) 5) (replicate 20 9) false ≡ ok (dec, enc))
    × IsRc4 enc
    × IsRc4 dec
derive_keys-shared_example = derive_keys-shared first_bytes (replicate 20 9) 3 5 first_bytes-length
