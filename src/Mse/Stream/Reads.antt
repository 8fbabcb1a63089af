-- ===== src/Mse/Stream/Reads.antt =====
-- What is read from an encrypted stream of src/aiobt/mse.py, however its bytes arrive.
use aiobt.Python.Bytes.{Bytes}
use aiobt.Python.Result.{ok, raised, incomplete_read_error}
use aiobt.Mse.Rc4.{process}
use aiobt.Mse.Rc4.Laws.{process-append, length-process}
use aiobt.Mse.Stream.{EncryptedStream, read_chunk, feed, fill, read_exactly}
use aiobt.Prelude.{
  joined, ltb→lt, ==_iff, inl, lt→ltb, inr, false, ltb, ◌-◌, length-append, drop-append_left, max,
  ◌+◌, ◌==◌, take-append_left, Bool-cases, take-append-drop, ap, drop, ◌∙◌, take, sym, ◌≤◌,
  append_assoc, refl, ◌++◌, length, ◌<◌, ◌≡◌, List, [], ◌∷◌, ℕ, zero, suc, arith,
}

-- The bytes that the stream has yet to return, the buffered ones first.
abbrev pub pending : EncryptedStream → Bytes
pending st = st.buffer ++ (process st.dec (joined st.reader)).1

pub read_chunk-joined :
    (n : ℕ) (l : List Bytes) → (read_chunk n l).0 ++ joined (read_chunk n l).1 ≡ joined l
read_chunk-joined n [] = refl
read_chunk-joined n ([] ∷ l) = read_chunk-joined n l
read_chunk-joined n ((x ∷ c) ∷ l) =
    sym (append_assoc (take n (x ∷ c)) (drop n (x ∷ c)) (joined l))
    ∙ ap (λ b. b ++ joined l) (take-append-drop n (x ∷ c))

pub read_chunk-end :
    (n : ℕ) (l : List Bytes) → 0 < n → length (read_chunk n l).0 ≡ 0 → joined l ≡ []
read_chunk-end n [] h e = refl
read_chunk-end n ([] ∷ l) h e = read_chunk-end n l h e
read_chunk-end zero ((x ∷ c) ∷ l) h e = absurd (omega arith)
read_chunk-end (suc n) ((x ∷ c) ∷ l) h e = absurd (omega arith)

pending-feed :
    (st : EncryptedStream) (n : ℕ) → pending (feed st (read_chunk n st.reader)) ≡ pending st
pending-feed st n =
    let (c, l) = read_chunk n st.reader in
    let d = (process st.dec c).0 in
    append_assoc st.buffer (process st.dec c).1 (process d (joined l)).1
    ∙ ap (λ p. st.buffer ++ p)
        (sym (ap (λ p. p.1) (process-append st.dec c (joined l)))
          ∙ ap (λ b. (process st.dec b).1) (read_chunk-joined n st.reader))

pub at_least : (m n : ℕ) → ltb m n ≡ false → n ≤ m
at_least m n h = ground arith

length-pending :
    (st : EncryptedStream) → length (pending st) ≡ length st.buffer + length (joined st.reader)
length-pending st =
    length-append st.buffer (process st.dec (joined st.reader)).1
    ∙ ap (λ k. length st.buffer + k) (length-process st.dec (joined st.reader))

-- A round of the loop shortens what is left to arrive.
pub shorter :
    (n : ℕ) (l : List Bytes)
    → (length (read_chunk n l).0 == 0) ≡ false
    → length (joined (read_chunk n l).1) < length (joined l)
shorter n l z =
    let total = ap length (read_chunk-joined n l) in
    let parts = length-append (read_chunk n l).0 (joined (read_chunk n l).1) in
    ground (arith, total, parts)

fill-pending :
    (n fuel : ℕ) (st : EncryptedStream)
    → length (joined st.reader) < fuel
    → n ≤ length (pending st)
    → (st' : EncryptedStream) × (fill fuel n st ≡ ok st')
      × (pending st' ≡ pending st)
      × (n ≤ length st'.buffer)
unfolding fill
fill-pending n zero st lt h = absurd (omega arith)
fill-pending n (suc fuel) st lt h = elim (Bool-cases (ltb (length st.buffer) n)) [
  | inr e ↦ (st, rw e refl, refl, at_least (length st.buffer) n e)
  | inl e ↦
      let m = max (n - length st.buffer) 4096 in
      elim (Bool-cases (length (read_chunk m st.reader).0 == 0)) [
        | inl z ↦
            let nothing = read_chunk-end m st.reader (omega arith) ((==_iff _ _).0 z) in
            absurd (omega (arith, ltb→lt _ _ e, length-pending st, ap length nothing))
        | inr z ↦
            let same = pending-feed st m in
            let less = shorter m st.reader z in
            let (st', e', p, b) =
              fill-pending n fuel (feed st (read_chunk m st.reader)) (omega arith)
                (omega (arith, ap length same)) in
            (st', rw e (rw z e'), p ∙ same, b)
      ]
]

fill-end :
    (n fuel : ℕ) (st : EncryptedStream)
    → length (joined st.reader) < fuel
    → length (pending st) < n
    → fill fuel n st ≡ raised incomplete_read_error
unfolding fill
fill-end n zero st lt h = absurd (omega arith)
fill-end n (suc fuel) st lt h =
    let m = max (n - length st.buffer) 4096 in
    let short = lt→ltb (length st.buffer) n (omega (arith, length-pending st)) in
    elim (Bool-cases (length (read_chunk m st.reader).0 == 0)) [
      | inl z ↦ rw short (rw z refl)
      | inr z ↦
          let same = pending-feed st m in
          let less = shorter m st.reader z in
          rw short (
            rw z (
              fill-end n fuel (feed st (read_chunk m st.reader)) (omega arith)
                (omega (arith, ap length same))))
    ]

-- A read of n bytes returns the first n that the stream has yet to return, and leaves the others;
-- where there are fewer, it raises IncompleteReadError.
pub read_exactly_lem :
    (st : EncryptedStream) (n : ℕ)
    → (n ≤ length (pending st)
        → (st' : EncryptedStream) × (read_exactly st n ≡ ok (take n (pending st), st'))
          × (pending st' ≡ drop n (pending st)))
      × (length (pending st) < n → read_exactly st n ≡ raised incomplete_read_error)
unfolding read_exactly
read_exactly_lem st n =
    (enough, λ h. rw (fill-end n (suc (length (joined st.reader))) st (omega arith) h))
  where
    enough :
        n ≤ length (pending st)
        → (st' : EncryptedStream) × (read_exactly st n ≡ ok (take n (pending st), st'))
          × (pending st' ≡ drop n (pending st))
    enough h =
        let (u, e, p, b) = fill-pending n (suc (length (joined st.reader))) st (omega arith) h in
        let rest = (process u.dec (joined u.reader)).1 in
        let first : take n u.buffer ≡ take n (pending st) =
          sym (take-append_left n u.buffer rest b) ∙ ap (take n) p in
        let st' : EncryptedStream = record u { buffer = drop n u.buffer } in
        (
          st',
          rw e (ap (λ x. ok (x, st')) first),
          sym (drop-append_left n u.buffer rest b) ∙ ap (drop n) p,
        )
