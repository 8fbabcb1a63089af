-- ===== src/Tracker/Examples.antt =====
-- Trackers that answer and that do not, and the theorems of the modules beside this one at them.
use aiobt.Tracker.Delivery.{IsStray}
use aiobt.Python.Result.{ok}
use aiobt.Python.Struct.{
  pack_u16, pack_i32, u16_bytes, pack_i64, pack_u32, u32_bytes, u64_bytes, pack_u64,
}
use aiobt.Tracker.{AnnounceRequest, AnnounceResponse, started}
use aiobt.Tracker.Udp.{udp_announce, announce_payload}
use aiobt.Tracker.Waiters.{Arrival, datagram}
use aiobt.Tracker.Requests.{AnswersIn}
use aiobt.Tracker.Announce.{connect_answer, announce_answer, udp_announce-answer}
use aiobt.Tracker.Response.{response_dict, parse_http_response-encode}
use aiobt.Tracker.Http.{parse_http_response}
use aiobt.Tracker.Peers.{compact, address, Endpoint}
use aiobt.Bencode.Encode.{encode}
use aiobt.Python.Decimal.{pos}
use aiobt.Python.Bytes.{Bytes}
use aiobt.Prelude.{
  ◌==◌, refl, All, length, ◌<◌, ◌≡◌, if◌then◌else◌, map, ◌++◌, true, List, [], ◌∷◌, ℕ, zero, suc,
  inl, replicate, arith,
}

abbrev asked : AnnounceRequest
asked = record {
  info_hash = replicate 20 1;
  peer_id = replicate 20 2;
  port = 6881;
  uploaded = 0;
  downloaded = 0;
  left = 1000;
  compact = true;
  event = started;
  numwant = 50;
  key = 7;
}

abbrev endpoints : List Endpoint
endpoints = (10, 0, 0, 1, 6881) ∷ (10, 0, 0, 2, 51413) ∷ []

abbrev response : AnnounceResponse
response = record {
  interval = pos 1800;
  peers = map address endpoints;
  complete = pos 4;
  incomplete = pos 3;
}

-- The bytes of a peer, and three more.
abbrev sent_peers : Bytes
sent_peers = compact endpoints ++ (9 ∷ 9 ∷ 9 ∷ [])

-- The first attempt of a request is lost; in the next ones a short datagram comes first.
abbrev late : Bytes → ℕ → List Arrival
late answer zero = []
late answer (suc n) = datagram (1 ∷ []) ∷ datagram answer ∷ []

abbrev tracker : Bytes → ℕ → List Arrival
tracker payload =
    if length payload == 16
    then late (connect_answer 5 77)
    else late (announce_answer 6 1800 3 4 sent_peers)

none_before_one : (tid : ℕ) (answer : Bytes) (i : ℕ) → i < 1 → All (IsStray tid) (late answer i)
none_before_one tid answer zero h = tt
none_before_one tid answer (suc i) h = absurd (omega arith)

late_answer : (tid : ℕ) (answer : Bytes) → AnswersIn (late answer) tid answer 1
late_answer tid answer = record {
  quiet = none_before_one tid answer;
  before = datagram (1 ∷ []) ∷ [];
  after = [];
  arrives = refl;
  before_stray = (inl (omega arith), tt);
}

abbrev asked_bytes : Bytes
asked_bytes =
    u64_bytes 77
    ++ (u32_bytes 1
        ++ (u32_bytes 6
            ++ (replicate 20 1
                ++ (replicate 20 2
                    ++ (u64_bytes 0
                        ++ (u64_bytes 1000
                            ++ (u64_bytes 0
                                ++ (u32_bytes 2
                                    ++ (u32_bytes 0
                                        ++ (u32_bytes 7
                                            ++ (u32_bytes 50 ++ u16_bytes 6881)))))))))))

packed : announce_payload 77 6 asked 0 ≡ ok asked_bytes
unfolding announce_payload pack_u64 pack_u32 pack_i64 pack_i32 pack_u16
packed = refl

udp_announce-answer_example : udp_announce tracker 5 6 asked 0 ≡ ok response
udp_announce-answer_example =
    udp_announce-answer tracker asked asked_bytes 5 6 0 77 1800 3 4 1 1 endpoints (9 ∷ 9 ∷ 9 ∷ [])
      (omega arith) (omega arith) (omega arith) (omega arith) (omega arith) (omega arith)
      (omega arith, (omega arith, tt)) (omega arith) (late_answer 5 (connect_answer 5 77))
      (omega arith) packed (late_answer 6 (announce_answer 6 1800 3 4 sent_peers)) (omega arith)

abbrev http_bytes : Bytes
http_bytes =
    100 ∷ 56 ∷ 58 ∷ 99 ∷ 111 ∷ 109 ∷ 112 ∷ 108 ∷ 101 ∷ 116 ∷ 101 ∷ 105 ∷ 52 ∷ 101 ∷ 49 ∷ 48 ∷ 58
    ∷ 105 ∷ 110 ∷ 99 ∷ 111 ∷ 109 ∷ 112 ∷ 108 ∷ 101 ∷ 116 ∷ 101 ∷ 105 ∷ 51 ∷ 101 ∷ 56 ∷ 58 ∷ 105
    ∷ 110 ∷ 116 ∷ 101 ∷ 114 ∷ 118 ∷ 97 ∷ 108 ∷ 105 ∷ 49 ∷ 56 ∷ 48 ∷ 48 ∷ 101 ∷ 53 ∷ 58 ∷ 112 ∷ 101
    ∷ 101 ∷ 114 ∷ 115 ∷ 49 ∷ 53 ∷ 58 ∷ 10 ∷ 0 ∷ 0 ∷ 1 ∷ 26 ∷ 225 ∷ 10 ∷ 0 ∷ 0 ∷ 2 ∷ 200 ∷ 213 ∷ 9
    ∷ 9 ∷ 9 ∷ 101 ∷ []

written : encode (response_dict (pos 1800) (pos 4) (pos 3) sent_peers) ≡ ok http_bytes
unfolding encode
written = refl

parse_http_response-encode_example : parse_http_response http_bytes ≡ ok response
parse_http_response-encode_example =
    parse_http_response-encode (pos 1800) (pos 4) (pos 3) endpoints (9 ∷ 9 ∷ 9 ∷ [])
      (omega arith, (omega arith, tt)) (omega arith) written
