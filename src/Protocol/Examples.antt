-- ===== src/Protocol/Examples.antt =====
-- Runs of the wire protocol, and the theorems of the modules beside this one at inputs that meet
-- their hypotheses.
use aiobt.Prelude.{List, [], ◌∷◌, ◌++◌, take, replicate, ◌≡◌, refl, arith}
use aiobt.Python.Bytes.{Bytes}
use aiobt.Python.Result.{ok, raised, struct_error}
use aiobt.Protocol.{
  PeerHandshake, handshake_length, handshake_to_bytes, handshake_from_bytes, PeerMessage, have,
  piece, choke, to_bytes, parse_message, receive_message,
}
use aiobt.Protocol.Framing.{receive-to_bytes, send_all, receive_all, receive_all-send_all}
use aiobt.Protocol.Parsing.{ReadFrom, parse_message_sound}
use aiobt.Protocol.Errors.{Outcome, parse_message-Outcome}
use aiobt.Protocol.Handshake.{IsSized, handshake_from-to_bytes, handshake_from_bytes_sound}

abbrev block_bytes : Bytes
block_bytes = 0 ∷ 0 ∷ 0 ∷ 11 ∷ 7 ∷ 0 ∷ 0 ∷ 0 ∷ 3 ∷ 0 ∷ 0 ∷ 64 ∷ 0 ∷ 170 ∷ 187 ∷ []

piece_to_bytes : to_bytes (piece 3 16384 (170 ∷ 187 ∷ [])) ≡ ok block_bytes
unfolding to_bytes
piece_to_bytes = refl

have_to_bytes : to_bytes (have 0x100000000) ≡ raised (struct_error "argument out of range")
unfolding to_bytes
have_to_bytes = refl

receive-to_bytes_example :
    receive_message (block_bytes ++ 1 ∷ []) ≡ ok (piece 3 16384 (170 ∷ 187 ∷ []), 1 ∷ [])
receive-to_bytes_example = receive-to_bytes (piece 3 16384 (170 ∷ 187 ∷ [])) (1 ∷ []) piece_to_bytes

abbrev talk : List PeerMessage
talk = piece 3 16384 (170 ∷ 187 ∷ []) ∷ choke ∷ []

send_talk : send_all talk ≡ ok (block_bytes ++ 0 ∷ 0 ∷ 0 ∷ 1 ∷ 0 ∷ [])
unfolding send_all to_bytes
send_talk = refl

receive_all-send_all_example :
    receive_all 2 ((block_bytes ++ 0 ∷ 0 ∷ 0 ∷ 1 ∷ 0 ∷ []) ++ []) ≡ ok (talk, [])
receive_all-send_all_example = receive_all-send_all talk [] send_talk

abbrev long_have : Bytes
long_have = 4 ∷ 0 ∷ 0 ∷ 1 ∷ 2 ∷ 9 ∷ []

parse_long_have : parse_message long_have ≡ ok (have 258)
unfolding parse_message
parse_long_have = refl

parse_message_sound_example : ReadFrom long_have (have 258)
parse_message_sound_example =
    parse_message_sound long_have (omega arith) (omega arith) parse_long_have

parse_message-Outcome_example : Outcome 6 (0 ∷ 0 ∷ [])
parse_message-Outcome_example = parse_message-Outcome 6 (0 ∷ 0 ∷ [])

abbrev hello : PeerHandshake
hello = record { info_hash = replicate 20 171; peer_id = replicate 20 65; reserved = replicate 8 0 }

hello-IsSized : IsSized hello
hello-IsSized = record { reserved = refl; info_hash = refl; peer_id = refl }

read_hello : handshake_from_bytes (handshake_to_bytes hello) ≡ ok hello
unfolding handshake_from_bytes handshake_to_bytes
read_hello = refl

handshake_from-to_bytes_example :
    handshake_from_bytes (handshake_to_bytes hello ++ (1 ∷ 2 ∷ [])) ≡ ok hello
handshake_from-to_bytes_example =
    handshake_from-to_bytes hello (1 ∷ 2 ∷ []) (handshake_from_bytes_sound _ read_hello).0

handshake_from_bytes_sound_example :
    IsSized hello × (take handshake_length (handshake_to_bytes hello) ≡ handshake_to_bytes hello)
handshake_from_bytes_sound_example =
    handshake_from_bytes_sound (handshake_to_bytes hello) read_hello
