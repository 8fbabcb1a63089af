-- ===== src/Mse/Handshake/Offers.antt =====
-- What the receiver of the handshake in src/aiobt/mse.py reads of the initiator's bytes, however
-- they arrive.
use aiobt.Mse.Keys.{derive_keys}
use aiobt.Mse.Handshake.{
  matched, Reading, read_head, read_rest, read_offer, read_ia_len, matching, req1_of,
}
use aiobt.Mse.Handshake.Readings.{
  head_of_length, later_of, cipher_of, head_bytes, read_head_lem, plain_of, plain_of-read_rest,
  gather_part, later_of-read,
}
use aiobt.Mse.Wire.{enough_rounds, find, scan_req1, gather}
use aiobt.Mse.Wire.Scans.{scan_req1_lem}
use aiobt.Mse.Rc4.{Rc4}
use aiobt.Mse.Rc4.Laws.{IsRc4, process-append, length-process, process-IsRc4}
use aiobt.Python.Bytes.{Bytes}
use aiobt.Python.Struct.{u32_limit, unpack_u16, AreBytes, u16_bytes}
use aiobt.Python.Result.{>>=-ok, ok, Result}
use aiobt.Prelude.{
  zero, suc, subst, length-drop, append_assoc, length-append, false, some, ◌+◌, joined,
  drop-append_length, drop, ◌≤◌, take, length, ◌++◌, ◌<◌, none, List, [], ◌∷◌, ℕ, refl, arith, ◌≡◌,
  ◌∙◌, sym, ap,
}

-- The padding with the length of the initial payload, which is empty.
abbrev pub padded : Bytes → Bytes
padded pad = pad ++ u16_bytes 0

drop-nil : (n : ℕ) → let l : Bytes = [] in drop n l ≡ l
drop-nil zero = refl
drop-nil (suc n) = refl

drop-drop : (n m : ℕ) (l : Bytes) → drop m (drop n l) ≡ drop (n + m) l
drop-drop zero m l = ap (λ k. drop k l) (omega arith)
drop-drop (suc n) m [] = drop-nil m ∙ sym (drop-nil (suc n + m))
drop-drop (suc n) m (x ∷ l) =
    drop-drop n m l ∙ ap (λ k. drop k (x ∷ l)) (let e : suc (n + m) ≡ suc n + m = omega arith in e)

drop_again : (n : ℕ) (l : Bytes) → drop (n + 40) l ≡ drop 20 (drop (n + 20) l)
drop_again n l =
    ap (λ k. drop k l) (let e : n + 40 ≡ n + 20 + 20 = omega arith in e)
    ∙ sym (drop-drop (n + 20) 20 l)

read_ia_len-padded : (pad : Bytes) → read_ia_len (padded pad) (length pad) ≡ ok 0
unfolding read_ia_len unpack_u16
read_ia_len-padded pad = ap (λ x. unpack_u16 (take 2 x)) (drop-append_length pad (u16_bytes 0))

module _ (sha1 : Bytes → Bytes) (secret : Bytes) (hashes : List Bytes) (info_hash : Bytes)
    (enc : Rc4) where
  abbrev IsOffer : Rc4 → ℕ → Bytes → Result (Bytes × Rc4 × Reading) → Type 0
  IsOffer c method later result =
      (r : Reading) × (result ≡ ok (info_hash, enc, r))
      × (r.method ≡ method)
      × (plain_of r ≡ cipher_of c later)

  IsOffer-of_padding :
      (c c1 : Rc4) (reader reader0 reader1 : List Bytes) (pos : ℕ) (buf data1 pad_c later : Bytes)
      (method : ℕ)
      → IsRc4 c1
      → AreBytes (padded pad_c)
      → scan_req1 (enough_rounds reader) (req1_of sha1 secret) [] none reader
        ≡ ok (pos, buf, reader0)
      → matching sha1 secret (take 20 (drop (pos + 20) buf)) hashes ≡ some info_hash
      → derive_keys sha1 secret info_hash false ≡ ok (enc, c)
      → gather (enough_rounds reader0) 14 (drop (pos + 40) buf) reader0 ≡ ok (data1, reader1)
      → read_head c data1 ≡ ok (c1, method, length pad_c)
      → drop 14 data1 ++ joined reader1 ≡ cipher_of c1 (padded pad_c) ++ later
      → IsOffer (later_of c1 (padded pad_c)) method later (read_offer sha1 secret hashes reader)
  unfolding read_offer read_rest
  IsOffer-of_padding c c1 reader reader0 reader1 pos buf data1 pad_c later method i b e0 known keys
        e1 eh content =
      let size : length (cipher_of c1 (padded pad_c)) ≡ length pad_c + 2 =
        length-process c1 (padded pad_c) ∙ length-append pad_c (u16_bytes 0) in
      let (data2, reader2, e2, t, left) =
        gather_part (length pad_c + 2) (cipher_of c1 (padded pad_c)) later (drop 14 data1) reader1
          size content in
      let read = later_of-read c1 (padded pad_c) _ i b t in
      let c2 = later_of c1 (padded pad_c) in
      let (data3, reader3, e3, t3, left3) =
        gather_part 0 [] later (drop (length pad_c + 2) data2) reader2 refl left in
      (
        read_rest c2 method data3 reader3,
        >>=-ok _ _ e0 (
            >>=-ok _ _ (ap matched known) (
              >>=-ok _ _ keys (
                >>=-ok _ _ e1 (
                  >>=-ok _ _ eh (
                    >>=-ok _ _ e2 (
                      >>=-ok _ _
                        (ap (λ x. read_ia_len x.1 (length pad_c)) read ∙ read_ia_len-padded pad_c)
                        (>>=-ok _ _ e3 (
                          ap (λ x. ok (info_hash, enc, read_rest x.0 method data3 reader3))
                            read)))))))),
        refl,
        plain_of-read_rest c2 method data3 reader3 ∙ ap (cipher_of c2) left3,
      )

  IsOffer-of_mark :
      (c : Rc4) (reader reader0 : List Bytes) (pos : ℕ) (buf pad_c later : Bytes) (method : ℕ)
      → IsRc4 c
      → AreBytes (padded pad_c)
      → method < u32_limit
      → length pad_c < 0x10000
      → scan_req1 (enough_rounds reader) (req1_of sha1 secret) [] none reader
        ≡ ok (pos, buf, reader0)
      → matching sha1 secret (take 20 (drop (pos + 20) buf)) hashes ≡ some info_hash
      → derive_keys sha1 secret info_hash false ≡ ok (enc, c)
      → let c1 = later_of c (head_bytes method (length pad_c)) in
        drop (pos + 40) buf ++ joined reader0
          ≡ cipher_of c (head_bytes method (length pad_c)) ++ (cipher_of c1 (padded pad_c) ++ later)
        → IsOffer (later_of c1 (padded pad_c)) method later (read_offer sha1 secret hashes reader)
  IsOffer-of_mark c reader reader0 pos buf pad_c later method i b m n e0 known keys content =
      let head = head_bytes method (length pad_c) in
      let (data1, reader1, e1, t, left) =
        gather_part 14 (cipher_of c head) (cipher_of (later_of c head) (padded pad_c) ++ later)
          (drop (pos + 40) buf) reader0 (length-process c head) content in
      IsOffer-of_padding c (later_of c head) reader reader0 reader1 pos buf data1 pad_c later method
        (process-IsRc4 c head i) b e0 known keys e1
        (read_head_lem c data1 method (length pad_c) i m n t) left

  -- The receiver finds the request behind the padding of the initiator, knows the info hash, reads
  -- the methods, and its cipher stands behind the request.
  pub read_offer_lem :
      (c : Rc4) (reader : List Bytes) (pad_a mark pad_c later : Bytes) (method : ℕ)
      → IsRc4 c
      → AreBytes (padded pad_c)
      → method < u32_limit
      → length pad_c < 0x10000
      → length pad_a ≤ 512
      → length (req1_of sha1 secret) ≡ 20
      → length mark ≡ 20
      → find (req1_of sha1 secret) (joined reader) ≡ some (length pad_a)
      → matching sha1 secret mark hashes ≡ some info_hash
      → derive_keys sha1 secret info_hash false ≡ ok (enc, c)
      → joined reader
        ≡ pad_a
          ++ (req1_of sha1 secret
              ++ (mark
                  ++ (cipher_of c (head_bytes method (length pad_c) ++ padded pad_c) ++ later)))
      → IsOffer
          (later_of c (head_bytes method (length pad_c) ++ padded pad_c))
          method
          later
          (read_offer sha1 secret hashes reader)
  read_offer_lem c reader pad_a mark pad_c later method i b m n p s s' found known keys content =
      let head = head_bytes method (length pad_c) in
      let req1 = req1_of sha1 secret in
      let split = process-append c head (padded pad_c) in
      let body = cipher_of c (head ++ padded pad_c) ++ later in
      let sizes = length-append pad_a (req1 ++ (mark ++ body)) in
      let sizes' = length-append req1 (mark ++ body) in
      let sizes'' = length-append mark body in
      let (buf, reader0, e0, same, big) =
        scan_req1_lem req1 reader (length pad_a) (omega arith) found
          (omega (arith, ap length content)) (omega arith) in
      let whole : buf ++ joined reader0 ≡ (pad_a ++ req1) ++ (mark ++ body) =
        same ∙ content ∙ sym (append_assoc pad_a req1 (mark ++ body)) in
      let (t, behind) =
        head_of_length (length pad_a + 20) (pad_a ++ req1) (mark ++ body) buf (joined reader0)
          (omega (arith, length-append pad_a req1)) whole (omega arith) in
      let (t', behind') =
        head_of_length 20 mark body (drop (length pad_a + 20) buf) (joined reader0) s' behind
          (omega (arith, length-drop (length pad_a + 20) buf)) in
      subst (λ x. IsOffer x method later (read_offer sha1 secret hashes reader))
        (sym (ap (λ x. x.0) split))
        (IsOffer-of_mark c reader reader0 (length pad_a) buf pad_c later method i b m n e0
          (ap (λ x. matching sha1 secret x hashes) t' ∙ known) keys
          (ap (λ x. x ++ joined reader0) (drop_again (length pad_a) buf)
            ∙ behind'
            ∙ ap (λ x. x.1 ++ later) split
            ∙ append_assoc (cipher_of c head) (cipher_of (later_of c head) (padded pad_c)) later))
