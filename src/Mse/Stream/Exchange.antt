-- ===== src/Mse/Stream/Exchange.antt =====
-- Two encrypted streams of src/aiobt/mse.py at the ends of a connection.
use aiobt.Python.Result.{ok}
use aiobt.Python.Bytes.{Bytes}
use aiobt.Python.Struct.{AreBytes}
use aiobt.Mse.Rc4.{Rc4, process}
use aiobt.Mse.Rc4.Laws.{IsRc4, process_twice, process-append}
use aiobt.Mse.Stream.Reads.{pending, read_exactly_lem}
use aiobt.Mse.Stream.{EncryptedStream, new_stream, read_exactly, write, write_each}
use aiobt.Prelude.{
  joined, arith, ap, drop, append_assoc, take, ◌∙◌, append-nil, length, sym, ◌≤◌, ◌++◌, ◌≡◌, List,
  [], ◌∷◌, ℕ,
}

write_each-writer :
    (st : EncryptedStream) (parts : List Bytes)
    → (write_each st parts).writer ≡ st.writer ++ (process st.enc (joined parts)).1
unfolding write process
write_each-writer st [] = sym (append-nil st.writer)
write_each-writer st (d ∷ l) =
    write_each-writer (write st d) l
    ∙ append_assoc st.writer (process st.enc d).1 (process (process st.enc d).0 (joined l)).1
    ∙ ap (λ p. st.writer ++ p.1) (sym (process-append st.enc d (joined l)))

-- What one end writes in parts, the other end reads: however the written bytes arrive, a read of n
-- bytes returns the first n of the parts put together, and the others stay to be read.
pub read_exactly-write_each :
    (key enc : Rc4) (out : Bytes) (sent : List Bytes) (sender : EncryptedStream)
    (parts : List Bytes) (n : ℕ)
    → IsRc4 key
    → sender.enc ≡ key
    → sender.writer ≡ []
    → AreBytes (joined parts)
    → joined sent ≡ (write_each sender parts).writer
    → n ≤ length (joined parts)
    → (st : EncryptedStream) × (read_exactly (new_stream sent out enc key) n
        ≡ ok (take n (joined parts), st))
      × (pending st ≡ drop n (joined parts))
read_exactly-write_each key enc out sent sender parts n h same empty b arrives le =
    let wire : joined sent ≡ (process key (joined parts)).1 =
      arrives
      ∙ write_each-writer sender parts
      ∙ ap (λ w. w ++ (process sender.enc (joined parts)).1) empty
      ∙ ap (λ k. (process k (joined parts)).1) same in
    let whole : pending (new_stream sent out enc key) ≡ joined parts =
      ap (λ w. (process key w).1) wire ∙ ap (λ p. p.1) (process_twice key (joined parts) h b) in
    let (st, e, p) =
      (read_exactly_lem (new_stream sent out enc key) n).0 (omega (arith, ap length whole)) in
    (st, e ∙ ap (λ w. ok (take n w, st)) whole, p ∙ ap (drop n) whole)
