-- ===== src/Protocol.antt =====
-- src/aiobt/protocol.py: the handshake and the messages of the peer wire protocol, with the framing
-- of src/aiobt/peer.py. The proofs are in the modules below.
pub mod Handshake
pub mod Framing
pub mod Parsing
pub mod Errors
mod Examples
use aiobt.Prelude.{
  ℕ, zero, suc, ◌+◌, ◌-◌, ◌*◌, List, [], ◌∷◌, ◌++◌, Bool, not, ltb, ◌==◌, if◌then◌else◌, length,
  take, drop,
}
use aiobt.Python.Bytes.{Bytes, bytes_eq}
use aiobt.Python.Result.{
  Result, ok, raised, value_error, incomplete_read_error, ◌>>=◌, ◌>>◌, raise_if,
}
use aiobt.Python.Struct.{pack_u32, unpack_u32, unpack_u32_pair, unpack_u32_triple}

abbrev pub msg_choke : ℕ
msg_choke = 0

abbrev pub msg_unchoke : ℕ
msg_unchoke = 1

abbrev pub msg_interested : ℕ
msg_interested = 2

abbrev pub msg_not_interested : ℕ
msg_not_interested = 3

abbrev pub msg_have : ℕ
msg_have = 4

abbrev pub msg_bitfield : ℕ
msg_bitfield = 5

abbrev pub msg_request : ℕ
msg_request = 6

abbrev pub msg_piece : ℕ
msg_piece = 7

abbrev pub msg_cancel : ℕ
msg_cancel = 8

abbrev pub slice : ℕ → ℕ → Bytes → Bytes
slice i j b = take (j - i) (drop i b)

-- b"BitTorrent protocol"
abbrev pub protocol_string : Bytes
protocol_string =
    66 ∷ 105 ∷ 116 ∷ 84 ∷ 111 ∷ 114 ∷ 114 ∷ 101 ∷ 110 ∷ 116 ∷ 32 ∷ 112 ∷ 114 ∷ 111 ∷ 116 ∷ 111 ∷ 99
    ∷ 111 ∷ 108 ∷ []

abbrev pub handshake_length : ℕ
handshake_length = 68

-- The class Handshake of the source; a type of the module `Handshake` has another name.
pub record PeerHandshake : Type 0 where
  pub info_hash : Bytes
  pub peer_id : Bytes
  pub reserved : Bytes

-- Handshake.to_bytes
unfoldable pub handshake_to_bytes : PeerHandshake → Bytes
handshake_to_bytes h = 19 ∷ (protocol_string ++ (h.reserved ++ (h.info_hash ++ h.peer_id)))

abbrev pub pstrlen_of : Bytes → ℕ
pstrlen_of [] = 0
pstrlen_of (c ∷ r) = c

-- Handshake.from_bytes
unfoldable pub handshake_from_bytes : Bytes → Result PeerHandshake
unfolding bytes_eq
handshake_from_bytes b = do
  raise_if (ltb (length b) handshake_length) (value_error "handshake too short")
  raise_if (not (pstrlen_of b == 19)) (value_error "unexpected pstrlen")
  raise_if (not (bytes_eq (slice 1 20 b) protocol_string))
      (value_error "unexpected protocol string")
  ok (record { info_hash = slice 28 48 b; peer_id = slice 48 68 b; reserved = slice 20 28 b })

pub data PeerMessage : Type 0 where
  keep_alive choke unchoke interested not_interested : PeerMessage
  have : ℕ → PeerMessage
  bitfield : Bytes → PeerMessage
  request : ℕ → ℕ → ℕ → PeerMessage
  piece : ℕ → ℕ → Bytes → PeerMessage
  cancel : ℕ → ℕ → ℕ → PeerMessage

-- The length prefix, the id and three numbers.
unfoldable pub pack_triple : ℕ → ℕ → ℕ → ℕ → Result Bytes
unfolding pack_u32
pack_triple msg_id index begin len = do
  prefix ← pack_u32 13
  i ← pack_u32 index
  b ← pack_u32 begin
  l ← pack_u32 len
  ok (prefix ++ msg_id ∷ (i ++ (b ++ l)))

-- The length prefix 1 and the id.
unfoldable pub pack_id : ℕ → Result Bytes
unfolding pack_u32
pack_id msg_id = do prefix ← pack_u32 1; ok (prefix ++ msg_id ∷ [])

-- to_bytes of each message class
unfoldable pub to_bytes : PeerMessage → Result Bytes
unfolding pack_triple pack_id
to_bytes keep_alive = pack_u32 0
to_bytes choke = pack_id msg_choke
to_bytes unchoke = pack_id msg_unchoke
to_bytes interested = pack_id msg_interested
to_bytes not_interested = pack_id msg_not_interested
to_bytes (have index) = do prefix ← pack_u32 5; i ← pack_u32 index; ok (prefix ++ msg_have ∷ i)
to_bytes (bitfield bits) = do
  prefix ← pack_u32 (1 + length bits)
  ok (prefix ++ msg_bitfield ∷ bits)
to_bytes (request index begin len) = pack_triple msg_request index begin len
to_bytes (piece index begin block) = do
  prefix ← pack_u32 (9 + length block)
  i ← pack_u32 index
  b ← pack_u32 begin
  ok (prefix ++ msg_piece ∷ (i ++ (b ++ block)))
to_bytes (cancel index begin len) = pack_triple msg_cancel index begin len

-- The cases of `parse_message` on the id and the payload behind it.
unfoldable pub parse_payload : ℕ → Bytes → Result PeerMessage
unfolding unpack_u32 unpack_u32_triple
parse_payload zero payload = ok choke
parse_payload (suc zero) payload = ok unchoke
parse_payload (suc (suc zero)) payload = ok interested
parse_payload (suc (suc (suc zero))) payload = ok not_interested
parse_payload (suc (suc (suc (suc zero)))) payload = do
  index ← unpack_u32 (take 4 payload)
  ok (have index)
parse_payload (suc (suc (suc (suc (suc zero))))) payload = ok (bitfield payload)
parse_payload (suc (suc (suc (suc (suc (suc zero)))))) payload = do
  (index, begin, len) ← unpack_u32_triple (take 12 payload)
  ok (request index begin len)
parse_payload (suc (suc (suc (suc (suc (suc (suc zero))))))) payload = do
  (index, begin) ← unpack_u32_pair (take 8 payload)
  ok (piece index begin (drop 8 payload))
parse_payload (suc (suc (suc (suc (suc (suc (suc (suc zero)))))))) payload = do
  (index, begin, len) ← unpack_u32_triple (take 12 payload)
  ok (cancel index begin len)
parse_payload _ payload = raised (value_error "unknown message id")

unfoldable pub parse_message : Bytes → Result PeerMessage
unfolding parse_payload
parse_message [] = ok keep_alive
parse_message (msg_id ∷ payload) = parse_payload msg_id payload

-- reader.readexactly(n), on the bytes that the peer sends before it closes the connection
unfoldable pub readexactly : ℕ → Bytes → Result (Bytes × Bytes)
readexactly n b = if ltb (length b) n then raised incomplete_read_error else ok (take n b, drop n b)

-- PeerConnection.receive_message, with the bytes that are left to read
unfoldable pub receive_message : Bytes → Result (PeerMessage × Bytes)
receive_message stream = do
  (length_bytes, stream') ← readexactly 4 stream
  len ← unpack_u32 length_bytes
  let more =
      (readexactly len stream'
        >>= (λ (payload, rest). parse_message payload >>= (λ m. ok (m, rest))))
  if len == 0 then ok (keep_alive, stream') else more
