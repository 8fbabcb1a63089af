-- ===== src/Tracker/Dispatch.antt =====
-- parse_tracker_url and announce of src/aiobt/tracker.py. What urllib.parse.urlparse makes of the
-- URL is a parameter, the record ParsedUrl; so are the network and the random transaction ids.
use aiobt.Tracker.Waiters.{Arrival}
use aiobt.Tracker.Udp.{udp_announce}
use aiobt.Tracker.Http.{http_announce}
use aiobt.Python.Result.{value_error, raised, ok, ◌>>=◌, Result}
use aiobt.Python.Bytes.{Bytes}
use aiobt.Prelude.{none, some, Option, List, ◌∷◌, ℕ}
use aiobt.Tracker.{AnnounceRequest, AnnounceResponse}

-- The schemes that the program tells apart, in lower case.
pub data Scheme : Type 0 where
  http https udp other_scheme : Scheme

-- The port is an attribute that may raise.
pub record ParsedUrl : Type 0 where
  pub scheme : Scheme
  pub hostname : Option Bytes
  pub port : Result (Option ℕ)

abbrev pub default_port : Scheme → ℕ
default_port https = 443
default_port udp = 6969
default_port _ = 80

-- A host that is none or empty is refused.
abbrev pub host_of : Option Bytes → Result Bytes
host_of (some (c ∷ r)) = ok (c ∷ r)
host_of _ = raised (value_error "no hostname in tracker URL")

abbrev pub port_or : ℕ → Option ℕ → ℕ
port_or d none = d
port_or d (some p) = p

unfoldable pub parse_tracker_url : ParsedUrl → Result (Scheme × Bytes × ℕ)
parse_tracker_url parsed = do
  host ← host_of parsed.hostname
  port ← parsed.port
  ok (parsed.scheme, host, port_or (default_port parsed.scheme) port)

-- `http_get` and `udp_network` stand for the two ways to reach the tracker.
unfoldable pub announce :
    (List (Bytes × Bytes) → Result Bytes)
    → (Bytes → ℕ → Bytes → ℕ → List Arrival)
    → ℕ
    → ℕ
    → ParsedUrl
    → AnnounceRequest
    → Result AnnounceResponse
unfolding parse_tracker_url http_announce udp_announce
announce http_get udp_network connect_tid announce_tid parsed request = do
  (scheme, host, port) ← parse_tracker_url parsed
  elim scheme [
    | http ↦ http_announce http_get request
    | https ↦ http_announce http_get request
    | udp ↦ udp_announce (udp_network host port) connect_tid announce_tid request 0
    | other_scheme ↦ raised (value_error "unsupported tracker scheme")
  ]
