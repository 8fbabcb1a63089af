-- ===== src/Tracker/Http.antt =====
-- The HTTP tracker protocol of src/aiobt/tracker.py. The GET request for a URL with a query is a
-- parameter.
use aiobt.Python.Result.{
  unicode_error, raise_if, tracker_error, decode_error, raised, ◌>>◌, ◌>>=◌, ok, Result,
}
use aiobt.Python.Decimal.{ℤ, decimal}
use aiobt.Python.Bytes.{Bytes}
use aiobt.Tracker.{
  Event, no_event, completed, started, stopped, AnnounceRequest, AnnounceResponse, PeerAddress,
  parse_compact_peers,
}
use aiobt.Resume.{lookup, int_or_zero}
use aiobt.Bencode.Decode.{decode}
use aiobt.Bencode.Value.{Value, Items, Fields, int, bytes, list, dict, no_items, item}
use aiobt.Prelude.{not, ◌&&◌, some, ltb, true, if◌then◌else◌, none, Bool, Option, List, [], ◌∷◌}

abbrev pub key_failure_reason : Bytes
key_failure_reason =
    b'f' ∷ b'a' ∷ b'i' ∷ b'l' ∷ b'u' ∷ b'r' ∷ b'e' ∷ 32 ∷ b'r' ∷ b'e' ∷ b'a' ∷ b's' ∷ b'o' ∷ b'n'
    ∷ []

abbrev pub key_interval : Bytes
key_interval = b'i' ∷ b'n' ∷ b't' ∷ b'e' ∷ b'r' ∷ b'v' ∷ b'a' ∷ b'l' ∷ []

abbrev pub key_peers : Bytes
key_peers = b'p' ∷ b'e' ∷ b'e' ∷ b'r' ∷ b's' ∷ []

abbrev pub key_complete : Bytes
key_complete = b'c' ∷ b'o' ∷ b'm' ∷ b'p' ∷ b'l' ∷ b'e' ∷ b't' ∷ b'e' ∷ []

abbrev pub key_incomplete : Bytes
key_incomplete = b'i' ∷ b'n' ∷ b'c' ∷ b'o' ∷ b'm' ∷ b'p' ∷ b'l' ∷ b'e' ∷ b't' ∷ b'e' ∷ []

abbrev pub key_ip : Bytes
key_ip = b'i' ∷ b'p' ∷ []

abbrev pub key_port : Bytes
key_port = b'p' ∷ b'o' ∷ b'r' ∷ b't' ∷ []

abbrev pub key_info_hash : Bytes
key_info_hash = b'i' ∷ b'n' ∷ b'f' ∷ b'o' ∷ b'_' ∷ b'h' ∷ b'a' ∷ b's' ∷ b'h' ∷ []

abbrev pub key_peer_id : Bytes
key_peer_id = b'p' ∷ b'e' ∷ b'e' ∷ b'r' ∷ b'_' ∷ b'i' ∷ b'd' ∷ []

abbrev pub key_uploaded : Bytes
key_uploaded = b'u' ∷ b'p' ∷ b'l' ∷ b'o' ∷ b'a' ∷ b'd' ∷ b'e' ∷ b'd' ∷ []

abbrev pub key_downloaded : Bytes
key_downloaded = b'd' ∷ b'o' ∷ b'w' ∷ b'n' ∷ b'l' ∷ b'o' ∷ b'a' ∷ b'd' ∷ b'e' ∷ b'd' ∷ []

abbrev pub key_left : Bytes
key_left = b'l' ∷ b'e' ∷ b'f' ∷ b't' ∷ []

abbrev pub key_compact : Bytes
key_compact = b'c' ∷ b'o' ∷ b'm' ∷ b'p' ∷ b'a' ∷ b'c' ∷ b't' ∷ []

abbrev pub key_numwant : Bytes
key_numwant = b'n' ∷ b'u' ∷ b'm' ∷ b'w' ∷ b'a' ∷ b'n' ∷ b't' ∷ []

abbrev pub key_event : Bytes
key_event = b'e' ∷ b'v' ∷ b'e' ∷ b'n' ∷ b't' ∷ []

abbrev pub event_name : Event → Bytes
event_name no_event = []
event_name completed = b'c' ∷ b'o' ∷ b'm' ∷ b'p' ∷ b'l' ∷ b'e' ∷ b't' ∷ b'e' ∷ b'd' ∷ []
event_name started = b's' ∷ b't' ∷ b'a' ∷ b'r' ∷ b't' ∷ b'e' ∷ b'd' ∷ []
event_name stopped = b's' ∷ b't' ∷ b'o' ∷ b'p' ∷ b'p' ∷ b'e' ∷ b'd' ∷ []

-- if request.event: params["event"] = request.event
abbrev pub event_params : Event → List (Bytes × Bytes)
event_params no_event = []
event_params e = (key_event, event_name e) ∷ []

-- The parameters of the query.
unfoldable pub http_params : AnnounceRequest → List (Bytes × Bytes)
unfolding decimal
http_params r =
    (key_info_hash, r.info_hash)
    ∷ (key_peer_id, r.peer_id)
    ∷ (key_port, decimal r.port)
    ∷ (key_uploaded, decimal r.uploaded)
    ∷ (key_downloaded, decimal r.downloaded)
    ∷ (key_left, decimal r.left)
    ∷ (key_compact, (if r.compact then b'1' else b'0') ∷ [])
    ∷ (key_numwant, decimal r.numwant)
    ∷ event_params r.event

abbrev pub is_ascii : Bytes → Bool
is_ascii [] = true
is_ascii (c ∷ r) = ltb c 128 && is_ascii r

-- The pair of an entry with these values under "ip" and "port", or none where it is skipped.
abbrev pub peer_of : Option Value → Option Value → Option PeerAddress
peer_of (some (bytes ip)) (some (int port)) = some (ip, port)
peer_of _ _ = none

abbrev pub entry_of : Value → Option PeerAddress
entry_of (dict fs) = peer_of (lookup key_ip fs) (lookup key_port fs)
entry_of _ = none

unfoldable pub parse_dict_peers : Items → Result (List PeerAddress)
unfolding lookup
parse_dict_peers no_items = ok []
parse_dict_peers (item v xs) =
    let rest = parse_dict_peers xs in
    elim (entry_of v) [
      | none ↦ rest
      | some (ip, port) ↦
          raise_if (not (is_ascii ip)) unicode_error >> (rest >>= (λ l. ok ((ip, port) ∷ l)))
    ]

-- The peers under "peers", which is b"" where it is missing.
abbrev pub peers_of : Option Value → Result (List PeerAddress)
peers_of none = ok []
peers_of (some (bytes b)) = ok (parse_compact_peers b)
peers_of (some (list xs)) = parse_dict_peers xs
peers_of (some _) = ok []

abbrev pub interval_of : Option Value → Result ℤ
interval_of (some (int z)) = ok z
interval_of _ = raised (decode_error "missing or invalid 'interval'")

-- if failure is not None: raise TrackerError
abbrev pub check_failure : Option Value → Result (Unit {0})
check_failure none = ok tt
check_failure (some v) = raised (tracker_error "failure reason")

abbrev pub fields_of : Value → Result Fields
fields_of (dict fs) = ok fs
fields_of _ = raised (decode_error "tracker response is not a dict")

unfoldable pub parse_http_response : Bytes → Result AnnounceResponse
unfolding decode lookup parse_dict_peers parse_compact_peers
parse_http_response data' = do
  decoded ← decode data'
  fs ← fields_of decoded
  check_failure (lookup key_failure_reason fs)
  interval_val ← interval_of (lookup key_interval fs)
  peers' ← peers_of (lookup key_peers fs)
  ok (record {
    interval = interval_val;
    peers = peers';
    complete = int_or_zero (lookup key_complete fs);
    incomplete = int_or_zero (lookup key_incomplete fs);
  })

unfoldable pub http_announce :
    (List (Bytes × Bytes) → Result Bytes) → AnnounceRequest → Result AnnounceResponse
unfolding http_params parse_http_response
http_announce get request = get (http_params request) >>= parse_http_response
