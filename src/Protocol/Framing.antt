-- ===== src/Protocol/Framing.antt =====
-- The framing of messages: to_bytes of src/aiobt/protocol.py against receive_message of
-- src/aiobt/peer.py.
use aiobt.Prelude.{
  suc-ne-zero, ℕ, zero, suc, ◌<◌, List, [], ◌∷◌, ◌++◌, length, length-append, take-append_length,
  drop-append_length, append_assoc, ◌≡◌, refl, sym, ap, arith,
}
use aiobt.Python.Bytes.{Bytes}
use aiobt.Python.Result.{Result, ok, ◌>>=◌, >>=-eq-ok, ok-injective}
use aiobt.Python.Struct.{u32_limit, u32_bytes, pack_u32, unpack-u32_bytes}
use aiobt.Protocol.{
  PeerMessage, keep_alive, choke, unchoke, interested, not_interested, have, bitfield, request,
  piece, cancel, to_bytes, parse_message, readexactly, receive_message,
}

pack_u32-ok : (n : ℕ) {b : Bytes} → pack_u32 n ≡ ok b → (n < u32_limit) × (u32_bytes n ≡ b)
unfolding pack_u32
pack_u32-ok n h = ground arith

-- The bytes behind the length prefix of a message that fits.
abbrev pub Framed : Bytes → PeerMessage → Type 0
Framed s m =
    (body : Bytes) × (length body < u32_limit)
    × (s ≡ u32_bytes (length body) ++ body)
    × (parse_message body ≡ ok m)

to_bytes-Framed : (m : PeerMessage) {s : Bytes} → to_bytes m ≡ ok s → Framed s m
unfolding to_bytes parse_message
to_bytes-Framed keep_alive h = ([], omega arith, ground arith, refl)
to_bytes-Framed choke h = (0 ∷ [], omega arith, ground arith, refl)
to_bytes-Framed unchoke h = (1 ∷ [], omega arith, ground arith, refl)
to_bytes-Framed interested h = (2 ∷ [], omega arith, ground arith, refl)
to_bytes-Framed not_interested h = (3 ∷ [], omega arith, ground arith, refl)
to_bytes-Framed (have i) h = (4 ∷ u32_bytes i, omega arith, ground arith, ground arith)
to_bytes-Framed (bitfield b) h = (5 ∷ b, ground arith, ground arith, refl)
to_bytes-Framed (request i b l) h =
    (6 ∷ (u32_bytes i ++ (u32_bytes b ++ u32_bytes l)), omega arith, ground arith, ground arith)
to_bytes-Framed (piece i b block) h =
    (7 ∷ (u32_bytes i ++ (u32_bytes b ++ block)), ground arith, ground arith, ground arith)
to_bytes-Framed (cancel i b l) h =
    (8 ∷ (u32_bytes i ++ (u32_bytes b ++ u32_bytes l)), omega arith, ground arith, ground arith)

readexactly-append : (a b : Bytes) → readexactly (length a) (a ++ b) ≡ ok (a, b)
unfolding readexactly
readexactly-append a b =
    ground (arith, length-append a b, take-append_length a b, drop-append_length a b)

readexactly_four : (n : ℕ) (b : Bytes) → readexactly 4 (u32_bytes n ++ b) ≡ ok (u32_bytes n, b)
readexactly_four n b = readexactly-append (u32_bytes n) b

receive-Framed :
    (body : Bytes) (m : PeerMessage) (rest : Bytes)
    → length body < u32_limit
    → parse_message body ≡ ok m
    → receive_message (u32_bytes (length body) ++ (body ++ rest)) ≡ ok (m, rest)
unfolding receive_message
receive-Framed [] m rest fits p =
    let same : m ≡ keep_alive = unfold parse_message in cc in
    rw (readexactly_four 0 rest) (rw (unpack-u32_bytes 0 fits) (ap (λ k. ok (k, rest)) (sym same)))
receive-Framed (c ∷ b) m rest fits p = rw (readexactly_four (length (c ∷ b)) ((c ∷ b) ++ rest)) (
    rw (unpack-u32_bytes (length (c ∷ b)) fits)
      (rw (readexactly-append (c ∷ b) rest) (rw p (rw (suc-ne-zero (length b))))))

-- A message that can be sent is received as it is, whatever follows it in the stream.
pub receive-to_bytes :
    (m : PeerMessage) {s : Bytes} (rest : Bytes)
    → to_bytes m ≡ ok s
    → receive_message (s ++ rest) ≡ ok (m, rest)
receive-to_bytes m {s} rest h =
    let (body, fits, e, p) = to_bytes-Framed m h in
    rw (e, append_assoc) (receive-Framed body m rest fits p)

-- What a peer writes for several messages, one `send_message` after the other.
unfoldable pub send_all : List PeerMessage → Result Bytes
send_all [] = ok []
send_all (m ∷ ms) = to_bytes m >>= (λ s. send_all ms >>= (λ t. ok (s ++ t)))

-- n calls of `receive_message`, and the bytes that are left.
unfoldable pub receive_all : ℕ → Bytes → Result (List PeerMessage × Bytes)
receive_all zero stream = ok ([], stream)
receive_all (suc n) stream = do
  (m, rest) ← receive_message stream
  (ms, rest') ← receive_all n rest
  ok (m ∷ ms, rest')

-- Messages that can be sent are received in order, and the stream stands behind the last one.
pub receive_all-send_all :
    (ms : List PeerMessage) {s : Bytes} (rest : Bytes)
    → send_all ms ≡ ok s
    → receive_all (length ms) (s ++ rest) ≡ ok (ms, rest)
unfolding send_all receive_all
receive_all-send_all [] rest h = rw (← (ok-injective h))
receive_all-send_all (m ∷ ms) rest h =
    let (s, p, q) = >>=-eq-ok (to_bytes m) _ h in
    let (t, p', q') = >>=-eq-ok (send_all ms) _ q in
    rw (← (ok-injective q'), append_assoc)
      (rw (receive-to_bytes m (t ++ rest) p) (rw (receive_all-send_all ms rest p')))
