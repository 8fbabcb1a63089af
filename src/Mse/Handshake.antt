-- ===== src/Mse/Handshake.antt =====
-- The two sides of the handshake in src/aiobt/mse.py: _mse_initiate_inner and _mse_receive_inner. A
-- side returns what it wrote, with its result; the random paddings and private keys are arguments,
-- and sha1 is hashlib's digest. The stream that is returned has written nothing yet.
pub mod Readings
pub mod Offers
pub mod Runs
pub mod Parts
pub mod Agreement
mod Examples
use Prim.Native.Nat.{bit_xor}
use aiobt.Python.Struct.{pack_u16, pack_u32, unpack_u16, unpack_u32}
use aiobt.Python.Bytes.{Bytes, bytes_eq}
use aiobt.Python.Result.{Result, ok, raised, connection_error, raise_if, ◌>>=◌, ◌>>◌}
use aiobt.Mse.Rc4.{Rc4, process}
use aiobt.Mse.Keys.{dh_public, dh_secret, derive_keys}
use aiobt.Mse.Negotiation.{
  crypto_rc4, EncryptionPolicy, crypto_provide, crypto_select, accept_selected,
}
use aiobt.Mse.Stream.{EncryptedStream, new_stream}
use aiobt.Mse.Wire.{take_exactly, gather, enough_rounds, scan_vc, scan_req1}
use aiobt.Prelude.{
  length, not, ◌==◌, ◌+◌, if◌then◌else◌, ℕ, drop, take, List, [], ◌∷◌, none, some, Option, ◌++◌,
  Bool, true, false, replicate,
}

abbrev pub vc : Bytes
vc = replicate 8 0

-- MSEHandshakeResult
pub data MseStream : Type 0 where
  encrypted : EncryptedStream → MseStream
  plaintext : List Bytes → MseStream

pub record MseHandshakeResult : Type 0 where
  pub stream : MseStream
  pub is_encrypted : Bool
  pub info_hash : Option Bytes

-- What a side wrote, and what it returned or raised then.
abbrev pub Session : Type 0 → Type 0
Session A = Bytes × Result A

abbrev pub after : {A B : Type 0} → Result A → (A → Session B) → Session B
after (raised e) rest = ([], raised e)
after (ok a) rest = rest a

abbrev pub writing : {A : Type 0} → Bytes → Session A → Session A
writing b (w, r) = (b ++ w, r)

-- bytes(a ^ b for a, b in zip(...))
unfoldable pub xor_bytes : Bytes → Bytes → Bytes
xor_bytes (x ∷ a) (y ∷ b) = bit_xor x y ∷ xor_bytes a b
xor_bytes _ _ = []

abbrev pub req1_of : (Bytes → Bytes) → Bytes → Bytes
req1_of sha1 secret = sha1 (b'r' ∷ b'e' ∷ b'q' ∷ b'1' ∷ secret)

abbrev req2_of : (Bytes → Bytes) → Bytes → Bytes
req2_of sha1 info_hash = sha1 (b'r' ∷ b'e' ∷ b'q' ∷ b'2' ∷ info_hash)

abbrev req3_of : (Bytes → Bytes) → Bytes → Bytes
req3_of sha1 secret = sha1 (b'r' ∷ b'e' ∷ b'q' ∷ b'3' ∷ secret)

abbrev pub obfuscated : (Bytes → Bytes) → Bytes → Bytes → Bytes
obfuscated sha1 secret info_hash = xor_bytes (req2_of sha1 info_hash) (req3_of sha1 secret)

-- What the initiator writes once it knows the secret, and the ciphers then.
unfoldable pub initiator_request :
    (Bytes → Bytes) → EncryptionPolicy → Bytes → Bytes → Bytes → Result (Bytes × Rc4 × Rc4)
unfolding derive_keys crypto_provide pack_u32 pack_u16 process xor_bytes
initiator_request sha1 policy info_hash secret pad_c = do
  (enc, dec) ← derive_keys sha1 secret info_hash true
  provided ← pack_u32 (crypto_provide policy)
  pad_len ← pack_u16 (length pad_c)
  ia_len ← pack_u16 0
  ok (
    req1_of sha1 secret
        ++ (obfuscated sha1 secret info_hash
            ++ (process enc (vc ++ (provided ++ (pad_len ++ (pad_c ++ ia_len))))).1),
    (process enc (vc ++ (provided ++ (pad_len ++ (pad_c ++ ia_len))))).0,
    dec,
  )

-- What a side read behind the mark: the number of the method or methods, the cipher, the bytes
-- that came too early, and the reader.
pub record Reading : Type 0 where
  pub method : ℕ
  pub dec : Rc4
  pub leftover : Bytes
  pub reader : List Bytes

-- The verification constant, the method and the length of the padding.
unfoldable pub checked_head : Rc4 × Bytes → Result (Rc4 × ℕ × ℕ)
unfolding bytes_eq unpack_u32 unpack_u16
checked_head (dec', head) =
    raise_if (not (bytes_eq (take 8 head) vc)) (connection_error "MSE: VC verification failed")
    >> (unpack_u32 (take 4 (drop 8 head)) >>= (λ method.
        unpack_u16 (take 2 (drop 12 head)) >>= (λ pad_len. ok (dec', method, pad_len))))

-- The 14 bytes that come first are decrypted.
unfoldable pub read_head : Rc4 → Bytes → Result (Rc4 × ℕ × ℕ)
unfolding process checked_head
read_head dec data' = checked_head (process dec (take 14 data'))

-- The bytes behind are decrypted as far as they came.
unfoldable pub read_rest : Rc4 → ℕ → Bytes → List Bytes → Reading
unfolding process
read_rest dec method data' reader =
    let (dec', leftover) = process dec data' in
    record { method = method; dec = dec'; leftover = leftover; reader = reader }

-- Step 3 of the initiator.
unfoldable pub read_selection : Rc4 → List Bytes → Result Reading
unfolding scan_vc gather read_head read_rest process
read_selection dec reader = do
  (data0, reader0) ← scan_vc (enough_rounds reader) (process dec vc).1 [] reader
  (data1, reader1) ← gather (enough_rounds reader0) 14 data0 reader0
  (dec1, method, pad_len) ← read_head dec data1
  (data2, reader2) ← gather (enough_rounds reader1) pad_len (drop 14 data1) reader1
  ok (read_rest (process dec1 (take pad_len data2)).0 method (drop pad_len data2) reader2)

abbrev pub stream_of : Bool → Rc4 → Reading → MseStream
stream_of false enc r = plaintext r.reader
stream_of true enc r = encrypted (record (new_stream r.reader [] enc r.dec) { buffer = r.leftover })

unfoldable pub initiate :
    (Bytes → Bytes)
    → EncryptionPolicy
    → Bytes
    → ℕ
    → Bytes
    → Bytes
    → List Bytes
    → Session MseHandshakeResult
unfolding dh_public dh_secret take_exactly initiator_request read_selection accept_selected
initiate sha1 policy info_hash xa pad_a pad_c reader = writing (dh_public xa ++ pad_a) (
    after (take_exactly 96 reader) (λ (yb, reader').
      after (initiator_request sha1 policy info_hash (dh_secret yb xa) pad_c) (λ (w, enc, dec). (
        w,
        read_selection dec reader' >>= (λ r. accept_selected policy r.method >>= (λ b.
            ok (record { stream = stream_of b enc r; is_encrypted = b; info_hash = none }))),
      ))))

-- The first info hash that is the obfuscated one.
unfoldable pub matching : (Bytes → Bytes) → Bytes → Bytes → List Bytes → Option Bytes
unfolding xor_bytes bytes_eq
matching sha1 secret mark [] = none
matching sha1 secret mark (ih ∷ l) =
    let rest = matching sha1 secret mark l in
    if bytes_eq (obfuscated sha1 secret ih) mark then some ih else rest

abbrev pub matched : Option Bytes → Result Bytes
matched none = raised (connection_error "MSE: no matching info_hash found")
matched (some ih) = ok ih

-- The length of the initial payload, behind the padding.
unfoldable pub read_ia_len : Bytes → ℕ → Result ℕ
unfolding unpack_u16
read_ia_len rest pad_len = unpack_u16 (take 2 (drop pad_len rest))

-- Steps 3 to 5 of the receiver: the info hash, the cipher to encrypt, and what was read.
unfoldable pub read_offer :
    (Bytes → Bytes) → Bytes → List Bytes → List Bytes → Result (Bytes × Rc4 × Reading)
unfolding scan_req1 matching derive_keys gather read_head read_ia_len read_rest process
read_offer sha1 secret hashes reader = do
  (pos, buf, reader0) ← scan_req1 (enough_rounds reader) (req1_of sha1 secret) [] none reader
  ih ← matched (matching sha1 secret (take 20 (drop (pos + 20) buf)) hashes)
  (enc, dec) ← derive_keys sha1 secret ih false
  (data1, reader1) ← gather (enough_rounds reader0) 14 (drop (pos + 40) buf) reader0
  (dec1, method, pad_len) ← read_head dec data1
  (data2, reader2) ← gather (enough_rounds reader1) (pad_len + 2) (drop 14 data1) reader1
  ia_len ← read_ia_len (process dec1 (take (pad_len + 2) data2)).1 pad_len
  (data3, reader3) ← gather (enough_rounds reader2) ia_len (drop (pad_len + 2) data2) reader2
  ok (
    ih,
    enc,
    read_rest (process (process dec1 (take (pad_len + 2) data2)).0 (take ia_len data3)).0 method
        (drop ia_len data3) reader3,
  )

-- Step 6 of the receiver: the selected method, the response, and the cipher then.
unfoldable pub receiver_response : EncryptionPolicy → ℕ → Rc4 → Bytes → Result (ℕ × Bytes × Rc4)
unfolding crypto_select pack_u32 pack_u16 process
receiver_response policy provided enc pad_d = do
  method ← crypto_select policy provided
  selected ← pack_u32 method
  pad_len ← pack_u16 (length pad_d)
  ok (
    method,
    (process enc (vc ++ (selected ++ (pad_len ++ pad_d)))).1,
    (process enc (vc ++ (selected ++ (pad_len ++ pad_d)))).0,
  )

-- Step 7 of the receiver.
abbrev pub outcome : Bytes → Reading → ℕ × Bytes × Rc4 → Session MseHandshakeResult
outcome ih r (method, w, enc) = (
  w,
  ok (record {
    stream = stream_of (method == crypto_rc4) enc r;
    is_encrypted = method == crypto_rc4;
    info_hash = some ih;
  }),
)

abbrev pub respond : EncryptionPolicy → Bytes → Bytes × Rc4 × Reading → Session MseHandshakeResult
respond policy pad_d (ih, enc, r) =
    after (receiver_response policy r.method enc pad_d) (outcome ih r)

unfoldable pub receive :
    (Bytes → Bytes)
    → EncryptionPolicy
    → List Bytes
    → ℕ
    → Bytes
    → Bytes
    → List Bytes
    → Session MseHandshakeResult
unfolding take_exactly dh_public dh_secret read_offer receiver_response
receive sha1 policy hashes xb pad_b pad_d reader = after (take_exactly 96 reader) (λ (ya, reader').
    writing (dh_public xb ++ pad_b)
      (after (read_offer sha1 (dh_secret ya xb) hashes reader') (respond policy pad_d)))
