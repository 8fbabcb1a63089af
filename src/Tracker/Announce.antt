-- ===== src/Tracker/Announce.antt =====
-- What an announce to a UDP tracker returns, from src/aiobt/tracker.py, when the tracker answers.
use aiobt.Tracker.{AnnounceRequest}
use aiobt.Python.Decimal.{pos}
use aiobt.Python.Struct.{
  unpack_u32, u32_bytes-value, unpack-u64_bytes, u64_bytes, unpack_u32_triple, pack_u32, u32_limit,
  unpack_u32_pair, pack_u64, u32_bytes,
}
use aiobt.Python.Result.{ok}
use aiobt.Python.Bytes.{Bytes}
use aiobt.Prelude.{
  drop, [], false, ltb, ==_refl, lt→ltb, ap, map, ◌≡◌, length, ◌/◌, All, ◌≤◌, ◌<◌, ◌++◌, List,
  arith, ℕ,
}
use aiobt.Tracker.Waiters.{Waiters, Arrival}
use aiobt.Tracker.Delivery.{IsFor}
use aiobt.Tracker.Udp.{
  announce_payload, udp_announce, udp_request, udp_magic, action_announce, action_connect,
  parse_connect, parse_udp_announce_response, connect_payload,
}
use aiobt.Tracker.Requests.{AnswersIn, udp_request-answer}
use aiobt.Tracker.Udp.{udp_connect, udp_max_retries}
use aiobt.Tracker.Peers.{Endpoint, compact, address, HasPort, parse-compact}

abbrev pub connect_answer : ℕ → ℕ → Bytes
connect_answer tid cid = u32_bytes action_connect ++ (u32_bytes tid ++ u64_bytes cid)

abbrev pub announce_answer : ℕ → ℕ → ℕ → ℕ → Bytes → Bytes
announce_answer tid interval leechers seeders peers' =
    u32_bytes action_announce
    ++ (u32_bytes tid
        ++ (u32_bytes interval ++ (u32_bytes leechers ++ (u32_bytes seeders ++ peers'))))

abbrev pub connect_bytes : ℕ → Bytes
connect_bytes tid = u64_bytes udp_magic ++ (u32_bytes action_connect ++ u32_bytes tid)

connect_payload-ok : (tid : ℕ) → tid < u32_limit → connect_payload tid ≡ ok (connect_bytes tid)
unfolding connect_payload pack_u64 pack_u32
connect_payload-ok tid h = rw (lt→ltb tid u32_limit h)

parse_connect-answer :
    (tid cid : ℕ)
    → tid < u32_limit
    → cid / u32_limit < u32_limit
    → parse_connect (connect_answer tid cid) tid ≡ ok cid
unfolding parse_connect unpack_u32_pair
parse_connect-answer tid cid h k = rw (u32_bytes-value tid h, ==_refl tid) (unpack-u64_bytes cid k)

parse_announce-answer :
    (tid interval leechers seeders : ℕ) (l : List Endpoint) (junk : Bytes)
    → tid < u32_limit
    → interval < u32_limit
    → leechers < u32_limit
    → seeders < u32_limit
    → All HasPort l
    → length junk < 6
    → parse_udp_announce_response
        (announce_answer tid interval leechers seeders (compact l ++ junk))
        tid
      ≡ ok (record {
        interval = pos interval;
        peers = map address l;
        complete = pos seeders;
        incomplete = pos leechers;
      })
unfolding parse_udp_announce_response unpack_u32_pair unpack_u32_triple
parse_announce-answer tid interval leechers seeders l junk a b c d h n =
    let long : ltb (length (announce_answer tid interval leechers seeders (compact l ++ junk))) 20
        ≡ false =
      ground arith in
    rw (
      long,
      u32_bytes-value tid a,
      u32_bytes-value interval b,
      u32_bytes-value leechers c,
      u32_bytes-value seeders d,
      ==_refl tid,
      parse-compact l junk h n,
    )

-- An answer with the transaction id behind four bytes is for it.
packed-IsFor :
    (action tid : ℕ) (rest : Bytes)
    → tid < u32_limit
    → IsFor tid (u32_bytes action ++ (u32_bytes tid ++ rest))
unfolding unpack_u32
packed-IsFor action tid rest h = (omega arith, ap ok (u32_bytes-value tid h))

udp_connect-answer :
    (network : Bytes → ℕ → List Arrival) (w : Waiters) (tid cid k : ℕ)
    → tid < u32_limit
    → cid / u32_limit < u32_limit
    → AnswersIn (network (connect_bytes tid)) tid (connect_answer tid cid) k
    → k ≤ udp_max_retries
    → (w' : Waiters) × (udp_connect network w tid ≡ ok (cid, w'))
unfolding udp_connect
udp_connect-answer network w tid cid k h c a le =
    let received =
      udp_request-answer _ w tid (connect_answer tid cid) k udp_max_retries a
        (packed-IsFor action_connect tid (u64_bytes cid) h) le in
    (
      (udp_request (network (connect_bytes tid)) w tid udp_max_retries).1,
      rw (connect_payload-ok tid h, received, parse_connect-answer tid cid h c),
    )

-- Where the tracker answers the connect request and then the announce request, each within nine
-- attempts, with datagrams for others before and anything after the answer, the announce returns
-- the numbers and the peers of the answer; fewer than six bytes behind the peers are left out.
pub udp_announce-answer :
    (network : Bytes → ℕ → List Arrival) (request : AnnounceRequest) (payload : Bytes)
    (ctid atid ip_address cid interval leechers seeders j k : ℕ) (l : List Endpoint) (junk : Bytes)
    → ctid < u32_limit
    → atid < u32_limit
    → cid / u32_limit < u32_limit
    → interval < u32_limit
    → leechers < u32_limit
    → seeders < u32_limit
    → All HasPort l
    → length junk < 6
    → AnswersIn (network (connect_bytes ctid)) ctid (connect_answer ctid cid) j
    → j ≤ udp_max_retries
    → announce_payload cid atid request ip_address ≡ ok payload
    → AnswersIn
        (network payload)
        atid
        (announce_answer atid interval leechers seeders (compact l ++ junk))
        k
    → k ≤ udp_max_retries
    → udp_announce network ctid atid request ip_address
      ≡ ok (record {
        interval = pos interval;
        peers = map address l;
        complete = pos seeders;
        incomplete = pos leechers;
      })
unfolding udp_announce
udp_announce-answer network request payload ctid atid ip_address cid interval leechers seeders j k l
      junk hc ha hcid hi hl hs hp hj c cle e a ale =
    let (w, connected) = udp_connect-answer network [] ctid cid j hc hcid c cle in
    let answer = announce_answer atid interval leechers seeders (compact l ++ junk) in
    let received =
      udp_request-answer (network payload) w atid answer k udp_max_retries a
        (packed-IsFor action_announce atid (drop 8 answer) ha) ale in
    rw (connected, e, received)
      (parse_announce-answer atid interval leechers seeders l junk ha hi hl hs hp hj)
