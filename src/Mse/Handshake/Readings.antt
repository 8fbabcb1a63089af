-- ===== src/Mse/Handshake/Readings.antt =====
-- What each side of the handshake in src/aiobt/mse.py reads of the other side's bytes, however they
-- arrive.
use aiobt.Mse.Handshake.{checked_head, Reading, read_head, read_rest, read_selection, vc}
use aiobt.Mse.Wire.{scan_vc, gather, enough_rounds, find}
use aiobt.Mse.Wire.Reads.{gather_lem}
use aiobt.Mse.Wire.Scans.{scan_vc_lem}
use aiobt.Mse.Rc4.{Rc4, process}
use aiobt.Mse.Rc4.Laws.{IsRc4, process_twice, process-append, length-process, process-IsRc4}
use aiobt.Python.Bytes.{bytes_eq, Bytes}
use aiobt.Python.Struct.{
  unpack_u16, unpack_u32, unpack-u16_bytes, unpack-u32_bytes, u32_limit, AreBytes, u16_bytes,
  u32_bytes,
}
use aiobt.Python.Result.{ok-injective, Result, ok}
use aiobt.Prelude.{
  subst, drop-append_left, length-append, append_assoc, take-append_length, take-append_left,
  drop-append_length, drop, take, some, joined, ◌≤◌, ◌<◌, ◌++◌, length, List, [], ℕ, refl, arith,
  ◌≡◌, ◌∙◌, sym, ap,
}

-- Where what was read and what is to come are some bytes and others, those bytes come off.
head_of :
    (a rest d j : Bytes)
    → d ++ j ≡ a ++ rest
    → length a ≤ length d
    → (take (length a) d ≡ a) × (drop (length a) d ++ j ≡ rest)
head_of a rest d j e h = (
  sym (take-append_left (length a) d j h) ∙ ap (take (length a)) e ∙ take-append_length a rest,
  sym (drop-append_left (length a) d j h) ∙ ap (drop (length a)) e ∙ drop-append_length a rest,
)

-- The same with the length of those bytes.
pub head_of_length :
    (n : ℕ) (a rest d j : Bytes)
    → length a ≡ n
    → d ++ j ≡ a ++ rest
    → n ≤ length d
    → (take n d ≡ a) × (drop n d ++ j ≡ rest)
head_of_length n a rest d j s e h =
    let (t, r) = head_of a rest d j e (omega arith) in
    (ap (λ k. take k d) (sym s) ∙ t, ap (λ k. drop k d ++ j) (sym s) ∙ r)

-- The cipher and its output behind some data.
abbrev pub later_of : Rc4 → Bytes → Rc4
later_of c data' = (process c data').0

abbrev pub cipher_of : Rc4 → Bytes → Bytes
cipher_of c data' = (process c data').1

-- The 14 bytes before the padding.
abbrev pub head_bytes : ℕ → ℕ → Bytes
head_bytes method pad_len = vc ++ (u32_bytes method ++ u16_bytes pad_len)

head_bytes-AreBytes : (method pad_len : ℕ) → AreBytes (head_bytes method pad_len)
head_bytes-AreBytes method pad_len = omega arith

checked_head_lem :
    (c : Rc4) (method pad_len : ℕ)
    → method < u32_limit
    → pad_len < 0x10000
    → checked_head (c, head_bytes method pad_len) ≡ ok (c, method, pad_len)
unfolding checked_head bytes_eq unpack_u32 unpack_u16
checked_head_lem c method pad_len m n =
    cc (ok-injective (unpack-u32_bytes method m), ok-injective (unpack-u16_bytes pad_len n))

pub read_head_lem :
    (c : Rc4) (data' : Bytes) (method pad_len : ℕ)
    → IsRc4 c
    → method < u32_limit
    → pad_len < 0x10000
    → take 14 data' ≡ cipher_of c (head_bytes method pad_len)
    → read_head c data' ≡ ok (later_of c (head_bytes method pad_len), method, pad_len)
unfolding read_head
read_head_lem c data' method pad_len i m n e =
    let head = head_bytes method pad_len in
    ap (λ x. checked_head (process c x)) e
    ∙ ap checked_head (process_twice c head i (head_bytes-AreBytes method pad_len))
    ∙ checked_head_lem (later_of c head) method pad_len m n

-- What is to come out of the stream that continues a reading.
abbrev pub plain_of : Reading → Bytes
plain_of r = r.leftover ++ cipher_of r.dec (joined r.reader)

pub plain_of-read_rest :
    (c : Rc4) (method : ℕ) (data' : Bytes) (reader : List Bytes)
    → plain_of (read_rest c method data' reader) ≡ cipher_of c (data' ++ joined reader)
unfolding read_rest
plain_of-read_rest c method data' reader =
    sym (ap (λ x. x.1) (process-append c data' (joined reader)))

-- Bytes that are to come are gathered.
pub gather_part :
    (n : ℕ) (a rest data' : Bytes) (reader : List Bytes)
    → length a ≡ n
    → data' ++ joined reader ≡ a ++ rest
    → (d : Bytes) × (r : List Bytes) × (gather (enough_rounds reader) n data' reader ≡ ok (d, r))
      × (take n d ≡ a)
      × (drop n d ++ joined r ≡ rest)
gather_part n a rest data' reader size e =
    let (d, r, run, same, big) = gather_lem n data' reader (
      omega
        (arith, size, length-append data' (joined reader), ap length e, length-append a rest)) in
    let (t, left) = head_of_length n a rest d (joined r) size (same ∙ e) big in (d, r, run, t, left)

-- The cipher behind a padding that it reads.
pub later_of-read :
    (c : Rc4) (pad data' : Bytes)
    → IsRc4 c
    → AreBytes pad
    → data' ≡ cipher_of c pad
    → process c data' ≡ (later_of c pad, pad)
later_of-read c pad data' i b e = ap (process c) e ∙ process_twice c pad i b

abbrev pub IsSelection : Rc4 → ℕ → Bytes → Result Reading → Type 0
IsSelection c method later result =
    (r : Reading) × (result ≡ ok r) × (r.method ≡ method) × (plain_of r ≡ cipher_of c later)

IsSelection-of_padding :
    (c : Rc4) (reader reader0 reader1 : List Bytes) (data0 data1 pad_d later : Bytes) (c1 : Rc4)
    (method : ℕ)
    → IsRc4 c1
    → AreBytes pad_d
    → scan_vc (enough_rounds reader) (cipher_of c vc) [] reader ≡ ok (data0, reader0)
    → gather (enough_rounds reader0) 14 data0 reader0 ≡ ok (data1, reader1)
    → read_head c data1 ≡ ok (c1, method, length pad_d)
    → drop 14 data1 ++ joined reader1 ≡ cipher_of c1 pad_d ++ later
    → IsSelection (later_of c1 pad_d) method later (read_selection c reader)
unfolding read_selection read_rest
IsSelection-of_padding c reader reader0 reader1 data0 data1 pad_d later c1 method i b e0 e1 eh
      content =
    let (data2, reader2, e2, t, left) =
      gather_part (length pad_d) (cipher_of c1 pad_d) later (drop 14 data1) reader1
        (length-process c1 pad_d) content in
    let read = later_of-read c1 pad_d _ i b t in
    let c2 = later_of c1 pad_d in
    (
      read_rest c2 method (drop (length pad_d) data2) reader2,
      rw (e0, e1, eh, e2, read) refl,
      refl,
      plain_of-read_rest c2 method (drop (length pad_d) data2) reader2 ∙ ap (cipher_of c2) left,
    )

IsSelection-of_head :
    (c : Rc4) (reader reader0 : List Bytes) (data0 pad_d later : Bytes) (method : ℕ)
    → IsRc4 c
    → AreBytes pad_d
    → method < u32_limit
    → length pad_d < 0x10000
    → scan_vc (enough_rounds reader) (cipher_of c vc) [] reader ≡ ok (data0, reader0)
    → let c1 = later_of c (head_bytes method (length pad_d)) in
      data0 ++ joined reader0
        ≡ cipher_of c (head_bytes method (length pad_d)) ++ (cipher_of c1 pad_d ++ later)
      → IsSelection (later_of c1 pad_d) method later (read_selection c reader)
IsSelection-of_head c reader reader0 data0 pad_d later method i b m n e0 content =
    let head = head_bytes method (length pad_d) in
    let (data1, reader1, e1, t, left) =
      gather_part 14 (cipher_of c head) (cipher_of (later_of c head) pad_d ++ later) data0 reader0
        (length-process c head) content in
    IsSelection-of_padding c reader reader0 reader1 data0 data1 pad_d later (later_of c head) method
      (process-IsRc4 c head i) b e0 e1 (read_head_lem c data1 method (length pad_d) i m n t) left

-- The initiator finds the response behind the padding of the receiver, reads the method, and its
-- cipher stands behind the response.
pub read_selection_lem :
    (c : Rc4) (reader : List Bytes) (pad_b pad_d later : Bytes) (method : ℕ)
    → IsRc4 c
    → AreBytes pad_d
    → method < u32_limit
    → length pad_d < 0x10000
    → length pad_b ≤ 512
    → find (cipher_of c vc) (joined reader) ≡ some (length pad_b)
    → joined reader ≡ pad_b ++ (cipher_of c (head_bytes method (length pad_d) ++ pad_d) ++ later)
    → IsSelection
        (later_of c (head_bytes method (length pad_d) ++ pad_d))
        method
        later
        (read_selection c reader)
read_selection_lem c reader pad_b pad_d later method i b m n p found content =
    let head = head_bytes method (length pad_d) in
    let split = process-append c head pad_d in
    let size = length-process c vc in
    let (data0, reader0, e0, same) =
      scan_vc_lem (cipher_of c vc) reader (length pad_b) (omega arith) found (omega arith) in
    subst (λ x. IsSelection x method later (read_selection c reader)) (sym (ap (λ x. x.0) split))
      (IsSelection-of_head c reader reader0 data0 pad_d later method i b m n e0 (
        same
        ∙ ap (drop (length pad_b)) content
        ∙ drop-append_length pad_b _
        ∙ ap (λ x. x.1 ++ later) split
        ∙ append_assoc (cipher_of c head) (cipher_of (later_of c head) pad_d) later))
