-- ===== src/Tracker.antt =====
-- src/aiobt/tracker.py: the requests and responses of trackers. The proofs are in the modules below.
pub mod Http
pub mod Udp
pub mod Waiters
pub mod Requests
pub mod Peers
pub mod Announce
pub mod Dispatch
pub mod Response
pub mod Delivery
mod Examples
use aiobt.Python.Decimal.{ℤ, pos, decimal}
use aiobt.Python.Bytes.{Bytes}
use aiobt.Prelude.{Bool, ◌*◌, List, ℕ, zero, suc, ◌+◌, ◌-◌, [], ◌∷◌, ◌++◌}

-- A peer's host and port.
abbrev pub PeerAddress : Type 0
PeerAddress = Bytes × ℤ

pub data Event : Type 0 where
  no_event completed started stopped : Event

pub record AnnounceRequest : Type 0 where
  pub info_hash : Bytes
  pub peer_id : Bytes
  pub port : ℕ
  pub uploaded : ℕ
  pub downloaded : ℕ
  pub left : ℕ
  pub compact : Bool
  pub event : Event
  pub numwant : ℕ
  pub key : ℕ

pub record AnnounceResponse : Type 0 where
  pub interval : ℤ
  pub peers : List PeerAddress
  pub complete : ℤ
  pub incomplete : ℤ

-- ".".join(str(b) for b in data)
abbrev pub dotted : ℕ → ℕ → ℕ → ℕ → Bytes
dotted a b c d = decimal a ++ (b'.' ∷ (decimal b ++ (b'.' ∷ (decimal c ++ (b'.' ∷ decimal d)))))

-- The loop over the offsets of `_parse_compact_peers`; fewer than six bytes at the end are left.
unfoldable pub parse_compact_peers : Bytes → List PeerAddress
unfolding decimal
parse_compact_peers (a ∷ b ∷ c ∷ d ∷ e ∷ f ∷ rest) =
    (dotted a b c d, pos (e * 256 + f)) ∷ parse_compact_peers rest
parse_compact_peers _ = []
