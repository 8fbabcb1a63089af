-- ===== src/Mse/Handshake/Examples.antt =====
-- Two peers that shake hands, with private keys 3 and 5 and empty paddings.
use aiobt.Mse.Keys.Agreement.{derive_keys-ok}
use aiobt.Mse.Handshake.{
  Session, vc, req1_of, obfuscated, matching, initiate, receive, MseHandshakeResult,
}
use aiobt.Mse.Handshake.Readings.{cipher_of, later_of, head_bytes}
use aiobt.Mse.Handshake.Agreement.{
  AreConnected, IsPadding, handshake_lem, initiator_side, receiver_side,
}
use aiobt.Mse.Handshake.Parts.{Reads, first_key, length-dh_public}
use aiobt.Mse.Handshake.Offers.{padded}
use aiobt.Mse.Negotiation.{
  crypto_select, preferred, forced, AreCompatible, crypto_provide, crypto_rc4,
}
use aiobt.Mse.Rc4.{new_rc4, Rc4}
use aiobt.Mse.Rc4.Laws.{new_rc4-scheduled, scheduled}
use aiobt.Mse.Keys.{dh_public, dh_secret, derive_keys, key_a, key_b}
use aiobt.Mse.Wire.{find, starts_with}
use aiobt.Python.Bytes.{bytes_eq_refl, Bytes}
use aiobt.Python.Result.{ok}
use aiobt.Prelude.{
  joined, inr, length-append, length-take, length, ==_refl, take, ◌++◌, List, [], ◌∷◌, refl, arith,
  ◌≡◌, sym, ap, some, replicate, true,
}

-- A stand-in for a digest.
abbrev first_twenty : Bytes → Bytes
first_twenty m = take 20 (m ++ replicate 20 1)

first_twenty-length : (m : Bytes) → length (first_twenty m) ≡ 20
first_twenty-length m =
    omega (arith, length-take 20 (m ++ replicate 20 1), length-append m (replicate 20 1))

abbrev torrent_hash : Bytes
torrent_hash = replicate 20 9

abbrev shared : Bytes
shared = dh_secret (dh_public 5) 3

-- A cipher with 1024 bytes discarded.
abbrev discarded : Bytes → Rc4
discarded key =
    later_of (scheduled (first_twenty (key ++ (shared ++ torrent_hash)))) (replicate 1024 0)

abbrev enc_a : Rc4
enc_a = discarded key_a

abbrev dec_a : Rc4
dec_a = discarded key_b

derived : derive_keys first_twenty shared torrent_hash true ≡ ok (enc_a, dec_a)
derived = derive_keys-ok first_twenty shared torrent_hash true (keyed key_a) (keyed key_b)
  where
    keyed :
        (key : Bytes)
        → new_rc4 (first_twenty (key ++ (shared ++ torrent_hash))) 1024 ≡ ok (discarded key)
    keyed key =
        new_rc4-scheduled (first_twenty (key ++ (shared ++ torrent_hash))) 1024
          (omega (arith, first_twenty-length (key ++ (shared ++ torrent_hash))))

starts_with_self : (m : Bytes) → starts_with m m ≡ true
unfolding starts_with
starts_with_self [] = refl
starts_with_self (x ∷ m) = rw (==_refl x) (starts_with_self m)

find_self : (m : Bytes) → find m m ≡ some 0
unfolding find
find_self [] = refl
find_self (x ∷ m) = rw (starts_with_self (x ∷ m)) refl

no-IsPadding : (mark : Bytes) → IsPadding mark []
no-IsPadding mark = (omega arith, find_self mark)

known_hash :
    matching first_twenty shared (obfuscated first_twenty shared torrent_hash) (torrent_hash ∷ [])
    ≡ some torrent_hash
unfolding matching
known_hash = rw (bytes_eq_refl (obfuscated first_twenty shared torrent_hash)) refl

abbrev sent_a : Bytes
sent_a =
    (dh_public 3 ++ [])
    ++ (req1_of first_twenty shared
        ++ (obfuscated first_twenty shared torrent_hash
            ++ cipher_of enc_a (head_bytes (crypto_provide preferred) 0 ++ padded [])))

abbrev sent_b : Bytes
sent_b = (dh_public 5 ++ []) ++ cipher_of dec_a (head_bytes crypto_rc4 0 ++ [])

-- More bytes follow the handshake of the receiver.
abbrev arrived_a : List Bytes
arrived_a = sent_b ∷ (7 ∷ 7 ∷ []) ∷ []

abbrev arrived_b : List Bytes
arrived_b = sent_a ∷ []

connected :
    AreConnected first_twenty torrent_hash
      (torrent_hash ∷ [])
      preferred
      forced
      3
      5
      []
      []
      []
      []
      []
      (7 ∷ 7 ∷ [])
      arrived_a
      arrived_b
      enc_a
      dec_a
connected = record {
  keys = derived;
  digests = first_twenty-length;
  known = known_hash;
  padding_a = no-IsPadding (req1_of first_twenty shared);
  padding_b = no-IsPadding (cipher_of dec_a vc);
  padding_c = (omega arith, tt);
  padding_d = (omega arith, tt);
}

compatible : AreCompatible preferred forced
compatible = (crypto_rc4, inr refl, refl)

-- The section's parameters, once.
abbrev result_a : Session MseHandshakeResult
result_a = initiate first_twenty preferred torrent_hash 3 [] [] arrived_a

abbrev result_b : Session MseHandshakeResult
result_b = receive first_twenty forced (torrent_hash ∷ []) 5 [] [] arrived_b

from_a : joined arrived_b ≡ result_a.0 ++ []
from_a =
    let (r, t, rest) =
      first_key (dh_public 5) [] (cipher_of dec_a (head_bytes crypto_rc4 0 ++ [])) (7 ∷ 7 ∷ [])
        arrived_a (length-dh_public 5) refl in
    ap (λ p. p.0 ++ [])
      (sym (
        initiator_side first_twenty torrent_hash (torrent_hash ∷ []) preferred forced 3 5 [] [] []
          [] [] (7 ∷ 7 ∷ []) arrived_a arrived_b enc_a dec_a r connected t))

from_b : joined arrived_a ≡ result_b.0 ++ (7 ∷ 7 ∷ [])
unfolding crypto_select crypto_provide
from_b =
    let (r, t, rest) =
      first_key (dh_public 3) []
        (req1_of first_twenty shared
          ++ (obfuscated first_twenty shared torrent_hash
              ++ cipher_of enc_a (head_bytes (crypto_provide preferred) 0 ++ padded [])))
        [] arrived_b (length-dh_public 3) refl in
    let (x, finished, plain) =
      receiver_side first_twenty torrent_hash (torrent_hash ∷ []) preferred forced 3 5 [] [] [] []
        [] (7 ∷ 7 ∷ []) arrived_a arrived_b enc_a dec_a r crypto_rc4 connected refl (omega arith) t
        rest in
    ap (λ p. p.0 ++ (7 ∷ 7 ∷ [])) (sym finished)

handshake_lem_example :
    (x : MseHandshakeResult) × (y : MseHandshakeResult) × (result_a.1 ≡ ok x)
    × (result_b.1 ≡ ok y)
    × (x.is_encrypted ≡ true)
    × (y.is_encrypted ≡ x.is_encrypted)
    × (y.info_hash ≡ some torrent_hash)
    × Reads x.stream y.stream (7 ∷ 7 ∷ [])
    × Reads y.stream x.stream []
handshake_lem_example =
    handshake_lem first_twenty torrent_hash (torrent_hash ∷ []) preferred forced 3 5 [] [] [] [] []
      (7 ∷ 7 ∷ []) arrived_a arrived_b enc_a dec_a connected compatible from_a from_b
