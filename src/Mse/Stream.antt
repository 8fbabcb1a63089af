-- ===== src/Mse/Stream.antt =====
-- EncryptedStream and PlaintextStream of src/aiobt/mse.py over a reader and a writer. The reader is
-- the chunks in which the bytes arrive before the peer closes the connection, the writer the bytes
-- that were written. Flushing and closing are the transport's.
pub mod Reads
pub mod Exchange
use aiobt.Python.Result.{incomplete_read_error, ok, out_of_fuel, ◌>>=◌, raised, Result}
use aiobt.Python.Bytes.{Bytes}
use aiobt.Mse.Rc4.{Rc4, process}
use aiobt.Prelude.{
  joined, ◌==◌, ◌-◌, max, length, drop, ltb, take, if◌then◌else◌, ◌++◌, List, [], ◌∷◌, ℕ, zero, suc,
}

-- reader.read(n): what has arrived, up to n bytes; empty at the end of the stream.
abbrev pub read_chunk : ℕ → List Bytes → Bytes × List Bytes
read_chunk n [] = ([], [])
read_chunk n ([] ∷ l) = read_chunk n l
read_chunk n ((x ∷ c) ∷ l) = (take n (x ∷ c), drop n (x ∷ c) ∷ l)

pub record EncryptedStream : Type 0 where
  pub reader : List Bytes
  pub writer : Bytes
  pub enc : Rc4
  pub dec : Rc4
  pub buffer : Bytes

abbrev pub new_stream : List Bytes → Bytes → Rc4 → Rc4 → EncryptedStream
new_stream reader writer encrypt decrypt = record {
  reader = reader;
  writer = writer;
  enc = encrypt;
  dec = decrypt;
  buffer = [];
}

-- self._buffer += self._dec.process(raw)
abbrev pub feed : EncryptedStream → Bytes × List Bytes → EncryptedStream
feed st (raw, reader') =
    let (dec', plain) = process st.dec raw in
    record st { reader = reader'; dec = dec'; buffer = st.buffer ++ plain }

-- The loop of `readexactly`, which reads until the buffer has n bytes.
unfoldable pub fill : ℕ → ℕ → EncryptedStream → Result EncryptedStream
unfolding process
fill zero n st = raised out_of_fuel
fill (suc fuel) n st =
    let (raw, reader') = read_chunk (max (n - length st.buffer) 4096) st.reader in
    let more = fill fuel n (feed st (raw, reader')) in
    if ltb (length st.buffer) n
    then (if length raw == 0 then raised incomplete_read_error else more)
    else ok st

-- A round of the loop takes a byte at least.
unfoldable pub read_exactly : EncryptedStream → ℕ → Result (Bytes × EncryptedStream)
unfolding fill
read_exactly st n = do
  st' ← fill (suc (length (joined st.reader))) n st
  ok (take n st'.buffer, record st' { buffer = drop n st'.buffer })

-- EncryptedStream.read
unfoldable pub read_some : EncryptedStream → ℕ → Bytes × EncryptedStream
unfolding process
read_some st n =
    if ltb 0 (length st.buffer)
    then (take n st.buffer, record st { buffer = drop n st.buffer })
    else let (raw, reader') = read_chunk n st.reader in
      let (dec', plain) = process st.dec raw in (plain, record st { reader = reader'; dec = dec' })

-- EncryptedStream.write
unfoldable pub write : EncryptedStream → Bytes → EncryptedStream
unfolding process
write st data' =
    let (enc', out) = process st.enc data' in record st { enc = enc'; writer = st.writer ++ out }

abbrev pub write_each : EncryptedStream → List Bytes → EncryptedStream
write_each st [] = st
write_each st (d ∷ l) = write_each (write st d) l
