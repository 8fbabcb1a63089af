-- ===== src/Mse/Handshake/Runs.antt =====
-- The runs of the two sides of the handshake in src/aiobt/mse.py, once their steps return.
use aiobt.Mse.Wire.{take_exactly}
use aiobt.Mse.Keys.{dh_secret, dh_public, derive_keys}
use aiobt.Mse.Rc4.{Rc4}
use aiobt.Python.Struct.{pack_u16-lt, pack_u32-lt, pack_u16, u32_limit, pack_u32}
use aiobt.Mse.Handshake.{
  respond, outcome, Session, after, writing, initiate, receive, initiator_request,
  receiver_response, read_selection, read_offer, stream_of, Reading, obfuscated, req1_of,
}
use aiobt.Mse.Handshake.Readings.{cipher_of, later_of, head_bytes}
use aiobt.Mse.Handshake.Offers.{padded}
use aiobt.Mse.Negotiation.{
  crypto_select, EncryptionPolicy, disabled, preferred, forced, crypto_provide, accept_selected,
}
use aiobt.Python.Bytes.{Bytes}
use aiobt.Python.Result.{◌>>=◌, >>=-ok, ok, Result}
use aiobt.Prelude.{none, ◌++◌, length, ◌<◌, List, ℕ, refl, arith, ◌≡◌, ◌∙◌, ap, true}

after-ok :
    {A B : Type 0} (call : Result A) (rest : A → Session B) {a : A}
    → call ≡ ok a
    → after call rest ≡ rest a
after-ok call rest e = ap (λ c. after c rest) e

pub crypto_provide-lt : (policy : EncryptionPolicy) → crypto_provide policy < u32_limit
unfolding crypto_provide
crypto_provide-lt disabled = omega arith
crypto_provide-lt preferred = omega arith
crypto_provide-lt forced = omega arith

-- The request is the two marks, and the head and the padding behind the cipher.
pub initiator_request_lem :
    (sha1 : Bytes → Bytes) (policy : EncryptionPolicy) (info_hash secret pad_c : Bytes)
    {enc dec : Rc4}
    → derive_keys sha1 secret info_hash true ≡ ok (enc, dec)
    → length pad_c < 0x10000
    → let sent = head_bytes (crypto_provide policy) (length pad_c) ++ padded pad_c in
      initiator_request sha1 policy info_hash secret pad_c
      ≡ ok (
        req1_of sha1 secret ++ (obfuscated sha1 secret info_hash ++ cipher_of enc sent),
        later_of enc sent,
        dec,
      )
unfolding initiator_request pack_u32 pack_u16
initiator_request_lem sha1 policy info_hash secret pad_c keys n = >>=-ok _ _ keys (
    >>=-ok _ _ (pack_u32-lt (crypto_provide policy) (crypto_provide-lt policy))
      (>>=-ok _ _ (pack_u16-lt (length pad_c) n) refl))

pub receiver_response_lem :
    (policy : EncryptionPolicy) (provided : ℕ) (enc : Rc4) (pad_d : Bytes) {method : ℕ}
    → crypto_select policy provided ≡ ok method
    → method < u32_limit
    → length pad_d < 0x10000
    → let sent = head_bytes method (length pad_d) ++ pad_d in
      receiver_response policy provided enc pad_d
      ≡ ok (method, cipher_of enc sent, later_of enc sent)
unfolding receiver_response
receiver_response_lem policy provided enc pad_d {method} e m n =
    >>=-ok _ _ e
      (>>=-ok _ _ (pack_u32-lt method m) (>>=-ok _ _ (pack_u16-lt (length pad_d) n) refl))

module _ (sha1 : Bytes → Bytes) (policy : EncryptionPolicy) where
  pub initiate-run :
      (info_hash : Bytes) (xa : ℕ) (pad_a pad_c : Bytes) (reader reader' : List Bytes)
      (yb w : Bytes) (enc dec : Rc4)
      → take_exactly 96 reader ≡ ok (yb, reader')
      → initiator_request sha1 policy info_hash (dh_secret yb xa) pad_c ≡ ok (w, enc, dec)
      → initiate sha1 policy info_hash xa pad_a pad_c reader ≡ (
        (dh_public xa ++ pad_a) ++ w,
        read_selection dec reader' >>= (λ r. accept_selected policy r.method >>= (λ b.
            ok (record { stream = stream_of b enc r; is_encrypted = b; info_hash = none }))),
      )
  unfolding initiate
  initiate-run info_hash xa pad_a pad_c reader reader' yb w enc dec e e' =
      ap (writing (dh_public xa ++ pad_a)) (after-ok _ _ e ∙ after-ok _ _ e')

  pub receive-run :
      (hashes : List Bytes) (xb : ℕ) (pad_b pad_d : Bytes) (reader reader' : List Bytes)
      (ya w ih : Bytes) (enc enc' : Rc4) (r : Reading) (method : ℕ)
      → take_exactly 96 reader ≡ ok (ya, reader')
      → read_offer sha1 (dh_secret ya xb) hashes reader' ≡ ok (ih, enc, r)
      → receiver_response policy r.method enc pad_d ≡ ok (method, w, enc')
      → receive sha1 policy hashes xb pad_b pad_d reader
        ≡ writing (dh_public xb ++ pad_b) (outcome ih r (method, w, enc'))
  unfolding receive
  receive-run hashes xb pad_b pad_d reader reader' ya w ih enc enc' r method e e' e'' =
      after-ok (take_exactly 96 reader)
        (λ (y, l).
          writing (dh_public xb ++ pad_b)
            (after (read_offer sha1 (dh_secret y xb) hashes l) (respond policy pad_d)))
        e
      ∙ ap (writing (dh_public xb ++ pad_b)) (
          after-ok (read_offer sha1 (dh_secret ya xb) hashes reader') (respond policy pad_d) e'
          ∙ after-ok (receiver_response policy r.method enc pad_d) (outcome ih r) e'')

  -- What each side writes first.
  pub initiate-starts :
      (info_hash : Bytes) (xa : ℕ) (pad_a pad_c : Bytes) (reader : List Bytes)
      → (x : Bytes) × ((initiate sha1 policy info_hash xa pad_a pad_c reader).0
          ≡ (dh_public xa ++ pad_a) ++ x)
  unfolding initiate
  initiate-starts info_hash xa pad_a pad_c reader = (_, refl)

  pub receive-starts :
      (hashes : List Bytes) (xb : ℕ) (pad_b pad_d : Bytes) (reader reader' : List Bytes)
      (ya : Bytes)
      → take_exactly 96 reader ≡ ok (ya, reader')
      → (x : Bytes) × ((receive sha1 policy hashes xb pad_b pad_d reader).0
          ≡ (dh_public xb ++ pad_b) ++ x)
  unfolding receive
  receive-starts hashes xb pad_b pad_d reader reader' ya e = (_, ap (λ p. p.0) (after-ok _ _ e))
