-- ===== src/Tracker/Udp.antt =====
-- The UDP tracker protocol of src/aiobt/tracker.py. What the network does to a payload is a
-- parameter: what arrives in each attempt to send it.
use aiobt.Tracker.Waiters.{
  Fut, result, broken, Waiters, waiter, cancel, expect, Arrival, receive_all,
}
use aiobt.Python.Decimal.{pos}
use aiobt.Python.Struct.{
  s20, pack_u16, pack_i32, pack_i64, unpack_u64, unpack_u32_triple, pack_u32, pack_u64,
  unpack_u32_pair,
}
use aiobt.Tracker.{
  stopped, started, completed, parse_compact_peers, no_event, AnnounceResponse, AnnounceRequest,
  Event,
}
use aiobt.Python.Bytes.{Bytes}
use aiobt.Prelude.{some, List, Option, ◌==◌, not, drop, take, length, ltb, ℕ, zero, suc, [], ◌++◌}
use aiobt.Python.Result.{
  tracker_error, Exception, timeout_error, Result, ok, raised, ◌>>=◌, ◌>>◌, raise_if,
}

abbrev pub udp_magic : ℕ
udp_magic = 0x41727101980

abbrev pub action_connect : ℕ
action_connect = 0

abbrev pub action_announce : ℕ
action_announce = 1

abbrev pub action_error : ℕ
action_error = 3

-- _EVENT_MAP
abbrev pub event_code : Event → ℕ
event_code no_event = 0
event_code completed = 1
event_code started = 2
event_code stopped = 3

abbrev pub udp_max_retries : ℕ
udp_max_retries = 8

-- Where the loop of `_udp_request` goes on after the wait for a future.
pub data Attempt : Type 0 where
  answered : Bytes → Attempt
  retry : Attempt
  gives_up : Exception → Attempt

-- A future that nothing woke times out.
abbrev pub attempt_of : Option Fut → Attempt
attempt_of (some (result data')) = answered data'
attempt_of (some (broken timeout_error)) = retry
attempt_of (some (broken exc)) = gives_up exc
attempt_of _ = retry

-- The rounds of `_udp_request` from attempt n on, with some left: what arrives while an attempt
-- waits is given by its number, and the futures are passed on.
unfoldable pub udp_attempts : (ℕ → List Arrival) → Waiters → ℕ → ℕ → ℕ → Result Bytes × Waiters
unfolding expect waiter cancel
udp_attempts arrivals w tid n zero = (raised timeout_error, w)
udp_attempts arrivals w tid n (suc left) =
    let w' = receive_all (expect w tid) (arrivals n) in
    elim (attempt_of (waiter w' tid)) [
      | answered data' ↦ (ok data', w')
      | retry ↦ udp_attempts arrivals (cancel w' tid) tid (suc n) left
      | gives_up exc ↦ (raised exc, cancel w' tid)
    ]

unfoldable pub udp_request : (ℕ → List Arrival) → Waiters → ℕ → ℕ → Result Bytes × Waiters
unfolding udp_attempts
udp_request arrivals w tid max_retries = udp_attempts arrivals w tid 0 (suc max_retries)

-- The payload of `udp_connect`.
unfoldable pub connect_payload : ℕ → Result Bytes
unfolding pack_u64 pack_u32
connect_payload transaction_id = do
  magic ← pack_u64 udp_magic
  action ← pack_u32 action_connect
  tid ← pack_u32 transaction_id
  ok (magic ++ (action ++ tid))

-- What `udp_connect` makes of the response.
unfoldable pub parse_connect : Bytes → ℕ → Result ℕ
unfolding unpack_u32_pair unpack_u64
parse_connect data' transaction_id = do
  raise_if (ltb (length data') 8) (tracker_error "connect response too short")
  (action, resp_tid) ← unpack_u32_pair (take 8 data')
  raise_if (not (resp_tid == transaction_id)) (tracker_error "transaction ID mismatch")
  raise_if (action == action_error) (tracker_error "tracker error on connect")
  raise_if (not (action == action_connect)) (tracker_error "unexpected action")
  raise_if (ltb (length data') 16) (tracker_error "connect response too short")
  unpack_u64 (take 8 (drop 8 data'))

-- The network takes the payload to what arrives in each attempt.
unfoldable pub udp_connect : (Bytes → ℕ → List Arrival) → Waiters → ℕ → Result (ℕ × Waiters)
unfolding connect_payload udp_request parse_connect
udp_connect network w transaction_id = do
  payload ← connect_payload transaction_id
  let (answer, w') = udp_request (network payload) w transaction_id udp_max_retries
  data' ← answer
  connection_id ← parse_connect data' transaction_id
  ok (connection_id, w')

-- The payload of `udp_announce`.
unfoldable pub announce_payload : ℕ → ℕ → AnnounceRequest → ℕ → Result Bytes
unfolding pack_u64 pack_u32 pack_i64 pack_i32 pack_u16
announce_payload connection_id transaction_id request ip_address = do
  cid ← pack_u64 connection_id
  action ← pack_u32 action_announce
  tid ← pack_u32 transaction_id
  downloaded' ← pack_i64 request.downloaded
  left' ← pack_i64 request.left
  uploaded' ← pack_i64 request.uploaded
  event' ← pack_u32 (event_code request.event)
  ip ← pack_i32 ip_address
  key' ← pack_u32 request.key
  numwant' ← pack_i32 request.numwant
  port' ← pack_u16 request.port
  ok (
      cid
      ++ (action
          ++ (tid
              ++ (s20 request.info_hash
                  ++ (s20 request.peer_id
                      ++ (downloaded'
                          ++ (left'
                              ++ (uploaded'
                                  ++ (event' ++ (ip ++ (key' ++ (numwant' ++ port'))))))))))))

abbrev pub announce_response : Bytes → ℕ → ℕ → ℕ → AnnounceResponse
announce_response peers' interval leechers seeders = record {
  interval = pos interval;
  peers = parse_compact_peers peers';
  complete = pos seeders;
  incomplete = pos leechers;
}

unfoldable pub parse_udp_announce_response : Bytes → ℕ → Result AnnounceResponse
unfolding unpack_u32_pair unpack_u32_triple parse_compact_peers
parse_udp_announce_response data' expected_tid = do
  raise_if (ltb (length data') 20) (tracker_error "announce response too short")
  (action, tid) ← unpack_u32_pair (take 8 data')
  (interval, leechers, seeders) ← unpack_u32_triple (take 12 (drop 8 data'))
  raise_if (not (tid == expected_tid)) (tracker_error "transaction ID mismatch")
  raise_if (action == action_error) (tracker_error "tracker error on announce")
  raise_if (not (action == action_announce)) (tracker_error "unexpected action")
  ok (announce_response (drop 20 data') interval leechers seeders)

-- The two transaction ids are random numbers of the program.
unfoldable pub udp_announce :
    (Bytes → ℕ → List Arrival) → ℕ → ℕ → AnnounceRequest → ℕ → Result AnnounceResponse
unfolding udp_connect announce_payload udp_request parse_udp_announce_response
udp_announce network connect_tid announce_tid request ip_address = do
  (connection_id, w) ← udp_connect network [] connect_tid
  payload ← announce_payload connection_id announce_tid request ip_address
  data' ← (udp_request (network payload) w announce_tid udp_max_retries).0
  parse_udp_announce_response data' announce_tid
