-- ===== src/Mse/Wire.antt =====
-- How the handshakes of src/aiobt/mse.py read: readexactly of the transport, bytes.find, and the
-- loops that read until there is enough or a mark is found. The reader is the chunks in which the
-- bytes arrive.
pub mod Reads
pub mod Find
pub mod Scans
use aiobt.Python.Result.{
  Exception, Result, ok, raised, connection_error, incomplete_read_error, out_of_fuel, ◌>>=◌,
}
use aiobt.Python.Bytes.{Bytes}
use aiobt.Mse.Stream.{read_chunk}
use aiobt.Prelude.{
  false, take, true, ◌+◌, ◌&&◌, joined, drop, ◌++◌, ltb, ◌==◌, ◌-◌, length, Bool, List, [], ◌∷◌,
  none, some, ℕ, zero, suc, Option, if◌then◌else◌,
}

-- data.startswith(pattern)
unfoldable pub starts_with : Bytes → Bytes → Bool
starts_with [] data' = true
starts_with (x ∷ p) [] = false
starts_with (x ∷ p) (y ∷ l) = x == y && starts_with p l

abbrev pub one_later : Option ℕ → Option ℕ
one_later none = none
one_later (some i) = some (suc i)

-- data.find(pattern), none for -1
unfoldable pub find : Bytes → Bytes → Option ℕ
unfolding starts_with
find pattern [] = if starts_with pattern [] then some 0 else none
find pattern (y ∷ l) =
    let rest = one_later (find pattern l) in if starts_with pattern (y ∷ l) then some 0 else rest

-- reader.readexactly(n) of asyncio: the first n bytes, or IncompleteReadError where the stream ends
-- before them.
unfoldable pub take_exactly : ℕ → List Bytes → Result (Bytes × List Bytes)
take_exactly n [] = if n == 0 then ok ([], []) else raised incomplete_read_error
take_exactly n (c ∷ l) =
    let rest = take_exactly (n - length c) l >>= (λ (b, r). ok (c ++ b, r)) in
    if ltb (length c) n then rest else ok (take n c, drop n c ∷ l)

abbrev closed : Exception
closed = connection_error "peer closed during MSE handshake"

-- while len(data) < n: what comes, up to the bytes that are missing.
unfoldable pub gather : ℕ → ℕ → Bytes → List Bytes → Result (Bytes × List Bytes)
gather zero n data' reader = raised out_of_fuel
gather (suc fuel) n data' reader =
    let (chunk, reader') = read_chunk (n - length data') reader in
    let more = gather fuel n (data' ++ chunk) reader' in
    if ltb (length data') n
    then (if length chunk == 0 then raised closed else more)
    else ok (data', reader)

-- Each round takes a byte at least.
abbrev pub enough_rounds : List Bytes → ℕ
enough_rounds reader = suc (length (joined reader))

abbrev from_mark :
    Bytes → List Bytes → Result (Bytes × List Bytes) → Option ℕ → Result (Bytes × List Bytes)
from_mark buf reader more (some p) = ok (drop p buf, reader)
from_mark buf reader more none =
    if ltb 600 (length buf)
    then raised (connection_error "MSE: VC not found in receiver response")
    else more

-- The scan of the initiator: what stands from the mark on.
unfoldable pub scan_vc : ℕ → Bytes → Bytes → List Bytes → Result (Bytes × List Bytes)
unfolding find
scan_vc zero pattern buf reader = raised out_of_fuel
scan_vc (suc fuel) pattern buf reader =
    let (chunk, reader') = read_chunk 1024 reader in
    let more = scan_vc fuel pattern (buf ++ chunk) reader' in
    if length chunk == 0
    then raised closed
    else from_mark (buf ++ chunk) reader' more (find pattern (buf ++ chunk))

-- if req1_pos < 0: req1_pos = scan_buf.find(req1_expected)
abbrev pub place_of : Bytes → Bytes → Option ℕ → Option ℕ
place_of pattern buf (some p) = some p
place_of pattern buf none = find pattern buf

abbrev pub is_missing : Option ℕ → Bool
is_missing none = true
is_missing (some p) = false

-- The loop's test: more is read until the hash behind the mark is there.
abbrev pub unless_hash :
    Bytes
    → List Bytes
    → Result (ℕ × Bytes × List Bytes)
    → Option ℕ
    → Result (ℕ × Bytes × List Bytes)
unless_hash buf reader more none = more
unless_hash buf reader more (some p) =
    if ltb (length buf) (p + 40) then more else ok (p, buf, reader)

abbrev next_round :
    Bytes → Bytes → Option ℕ → Result (ℕ × Bytes × List Bytes) → Result (ℕ × Bytes × List Bytes)
next_round chunk buf pos more =
    if length chunk == 0
    then raised closed
    else if ltb 700 (length buf) && is_missing pos
    then raised (connection_error "MSE: HASH('req1', S) not found")
    else more

-- The scan of the receiver: the place of the mark, and what was read.
unfoldable pub scan_req1 :
    ℕ → Bytes → Bytes → Option ℕ → List Bytes → Result (ℕ × Bytes × List Bytes)
unfolding find
scan_req1 zero pattern buf pos reader = raised out_of_fuel
scan_req1 (suc fuel) pattern buf pos reader =
    let (chunk, reader') = read_chunk 1024 reader in
    let pos' = place_of pattern (buf ++ chunk) pos in
    let more = scan_req1 fuel pattern (buf ++ chunk) pos' reader' in
    unless_hash buf reader (next_round chunk (buf ++ chunk) pos' more) pos
