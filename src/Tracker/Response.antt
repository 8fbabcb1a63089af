-- ===== src/Tracker/Response.antt =====
-- What _parse_http_response of src/aiobt/tracker.py makes of the bytes that a tracker sends.
use aiobt.Resume.{lookup}
use aiobt.Bencode.Decode.{decode}
use aiobt.Python.Result.{
  ◌>>◌, raise_if, unicode_error, raised, tracker_error, ok, decode_error, ◌>>=◌, Result, Exception,
}
use aiobt.Python.Bytes.{Bytes, bytes_lt, bytes_eq}
use aiobt.Bencode.Value.{Value, Items, int, bytes, list, dict, no_items, item, field, no_fields}
use aiobt.Bencode.Decode.Total.{decode-total}
use aiobt.Bencode.RoundTrip.{decode-encode}
use aiobt.Bencode.Encode.{encode, insert_key, sort_keys}
use aiobt.Bencode.Sorted.{normalize, IsDict}
use aiobt.Prelude.{
  Bool-cases, map, ◌≡◌, ◌++◌, not, ◌<◌, length, All, none, inr, List, inl, some, arith, Option, ◌∷◌,
}
use aiobt.Tracker.{PeerAddress}
use aiobt.Python.Decimal.{ℤ}
use aiobt.Tracker.Peers.{Endpoint, compact, address, HasPort, parse-compact}
use aiobt.Tracker.Http.{
  entry_of, is_ascii, key_failure_reason, interval_of, peers_of, check_failure, parse_dict_peers,
  fields_of, parse_http_response, key_interval, key_peers, key_complete, key_incomplete,
}

-- A response dict of a tracker, its keys in any of the orders that the encoder sorts.
abbrev pub response_dict : ℤ → ℤ → ℤ → Bytes → Value
response_dict interval complete incomplete peers' = dict (
    field key_interval (int interval) (
      field key_peers (bytes peers')
        (field key_complete (int complete) (field key_incomplete (int incomplete) no_fields))))

response-IsDict : (i c n : ℤ) (p : Bytes) → IsDict (response_dict i c n p)
unfolding IsDict normalize bytes_eq
response-IsDict i c n p = ground arith

pub parse_http_response-encode :
    (interval complete incomplete : ℤ) (l : List Endpoint) (junk : Bytes) {data' : Bytes}
    → All HasPort l
    → length junk < 6
    → encode (response_dict interval complete incomplete (compact l ++ junk)) ≡ ok data'
    → parse_http_response data'
      ≡ ok (record {
        interval = interval;
        peers = map address l;
        complete = complete;
        incomplete = incomplete;
      })
unfolding parse_http_response encode normalize sort_keys insert_key bytes_lt lookup bytes_eq
parse_http_response-encode interval complete incomplete l junk h n e =
    let read =
      decode-encode (response_dict interval complete incomplete (compact l ++ junk))
        (response-IsDict interval complete incomplete (compact l ++ junk)) e in
    rw (read, parse-compact l junk h n)

-- The exceptions that the caller of the parser has to expect.
abbrev pub IsResponseError : Exception → Type 0
IsResponseError (decode_error m) = Unit
IsResponseError (tracker_error m) = Unit
IsResponseError unicode_error = Unit
IsResponseError _ = ⊥

-- A value, or one of these exceptions.
abbrev pub Ends {ℓ} : {A : Type ℓ} → Result A → Type 0
Ends (ok a) = Unit
Ends (raised e) = IsResponseError e

module _ {ℓ κ} {A : Type ℓ} {B : Type κ} where
  Ends-bind : (m : Result A) (f : A → Result B) → Ends m → ((a : A) → Ends (f a)) → Ends (m >>= f)
  Ends-bind (ok a) f h k = k a
  Ends-bind (raised e) f h k = h

Ends-entry :
    (o : Option PeerAddress) (rest : Result (List PeerAddress))
    → Ends rest
    → Ends (elim o [
      | none ↦ rest
      | some (ip, port) ↦
          raise_if (not (is_ascii ip)) unicode_error >> (rest >>= (λ l. ok ((ip, port) ∷ l)))
    ])
Ends-entry none rest h = h
Ends-entry (some (ip, port)) rest h = elim (Bool-cases (is_ascii ip)) [
  | inl e ↦ rw e (Ends-bind rest _ h (λ l. tt))
  | inr e ↦ rw e tt
]

Ends-dict_peers : (xs : Items) → Ends (parse_dict_peers xs)
unfolding parse_dict_peers
Ends-dict_peers no_items = tt
Ends-dict_peers (item v xs) = Ends-entry (entry_of v) (parse_dict_peers xs) (Ends-dict_peers xs)

Ends-peers : (o : Option Value) → Ends (peers_of o)
Ends-peers none = tt
Ends-peers (some (bytes b)) = tt
Ends-peers (some (list xs)) = Ends-dict_peers xs
Ends-peers (some (int z)) = tt
Ends-peers (some (dict fs)) = tt

Ends-interval : (o : Option Value) → Ends (interval_of o)
Ends-interval none = tt
Ends-interval (some (bytes b)) = tt
Ends-interval (some (list xs)) = tt
Ends-interval (some (int z)) = tt
Ends-interval (some (dict fs)) = tt

Ends-failure : (o : Option Value) → Ends (check_failure o)
Ends-failure none = tt
Ends-failure (some v) = tt

Ends-fields : (v : Value) → Ends (fields_of v)
Ends-fields (dict fs) = tt
Ends-fields (bytes b) = tt
Ends-fields (list xs) = tt
Ends-fields (int z) = tt

Ends-decode : (b : Bytes) → Ends (decode b)
Ends-decode b = elim (decode-total b) [ inl (v, e) ↦ rw e tt | inr (s, e) ↦ rw e tt ]

-- But for the recursion limit, on any bytes the parser returns a response, or raises DecodeError, TrackerError or
-- UnicodeDecodeError.
pub parse_http_response-Ends : (data' : Bytes) → Ends (parse_http_response data')
unfolding parse_http_response
parse_http_response-Ends data' = Ends-bind (decode data') _ (Ends-decode data') (λ v.
    Ends-bind (fields_of v) _ (Ends-fields v) (λ fs.
      Ends-bind (check_failure (lookup key_failure_reason fs)) _
        (Ends-failure (lookup key_failure_reason fs))
        (λ u.
          Ends-bind (interval_of (lookup key_interval fs)) _
            (Ends-interval (lookup key_interval fs))
            (λ i.
              Ends-bind (peers_of (lookup key_peers fs)) _ (Ends-peers (lookup key_peers fs))
                (λ p. tt)))))
