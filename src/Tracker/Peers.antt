-- ===== src/Tracker/Peers.antt =====
-- Compact peers of src/aiobt/tracker.py, written and read back.
use aiobt.Python.Decimal.{pos}
use aiobt.Python.Bytes.{Bytes}
use aiobt.Prelude.{
  ◌∙◌, ap, ◌*◌, refl, map, ◌%◌, ◌+◌, ◌≡◌, length, ◌/◌, All, ◌<◌, ◌∷◌, [], ◌++◌, List, arith, ℕ,
}
use aiobt.Tracker.{dotted, parse_compact_peers, PeerAddress}

-- The four parts of an address, and a port.
abbrev pub Endpoint : Type 0
Endpoint = ℕ × ℕ × ℕ × ℕ × ℕ

abbrev pub compact : List Endpoint → Bytes
compact [] = []
compact ((a, b, c, d, port) ∷ l) = a ∷ b ∷ c ∷ d ∷ port / 0x100 % 256 ∷ port % 256 ∷ compact l

abbrev pub address : Endpoint → PeerAddress
address (a, b, c, d, port) = (dotted a b c d, pos port)

abbrev pub HasPort : Endpoint → Type 0
HasPort (a, b, c, d, port) = port < 0x10000

short-parse : (junk : Bytes) → length junk < 6 → parse_compact_peers junk ≡ []
unfolding parse_compact_peers
short-parse [] h = refl
short-parse (a ∷ []) h = refl
short-parse (a ∷ b ∷ []) h = refl
short-parse (a ∷ b ∷ c ∷ []) h = refl
short-parse (a ∷ b ∷ c ∷ d ∷ []) h = refl
short-parse (a ∷ b ∷ c ∷ d ∷ e ∷ []) h = refl
short-parse (a ∷ b ∷ c ∷ d ∷ e ∷ f ∷ r) h = absurd (omega arith)

-- Compact peers are read back, less than six bytes behind them left out.
pub parse-compact :
    (l : List Endpoint) (junk : Bytes)
    → All HasPort l
    → length junk < 6
    → parse_compact_peers (compact l ++ junk) ≡ map address l
unfolding parse_compact_peers
parse-compact [] junk h n = short-parse junk n
parse-compact ((a, b, c, d, port) ∷ l) junk h n =
    let same : port / 0x100 % 256 * 256 + port % 256 ≡ port = omega (arith, h.0) in
    ap (λ x. (dotted a b c d, pos x) ∷ parse_compact_peers (compact l ++ junk)) same
    ∙ ap (λ rest. (dotted a b c d, pos port) ∷ rest) (parse-compact l junk h.1 n)
