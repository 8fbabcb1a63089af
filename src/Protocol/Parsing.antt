-- ===== src/Protocol/Parsing.antt =====
-- What parse_message of src/aiobt/protocol.py makes of bytes from outside.
use aiobt.Prelude.{
  ℕ, zero, suc, ◌+◌, ◌<◌, [], ◌∷◌, ◌++◌, length, take, drop, take-append-drop, append-nil, ◌≡◌, ◌∙◌,
  refl, sym, ap, arith,
}
use aiobt.Python.Bytes.{Bytes}
use aiobt.Python.Result.{ok, >>=-eq-ok, subst_ok, ok-injective}
use aiobt.Python.Struct.{
  u32_limit, u32_bytes, pack_u32, unpack_u32, unpack_u32_pair, unpack_u32_triple, AreBytes,
  u32_bytes-unpack,
}
use aiobt.Protocol.{PeerMessage, piece, pack_triple, to_bytes, parse_message}

All-take-drop : (n : ℕ) (b : Bytes) → AreBytes b → AreBytes (take n b) × AreBytes (drop n b)
All-take-drop zero b h = (tt, h)
All-take-drop (suc n) [] h = (tt, tt)
All-take-drop (suc n) (c ∷ b) h = let (x, y) = All-take-drop n b h.1 in ((h.0, x), y)

unpack_pair_sound :
    (b : Bytes) {x y : ℕ}
    → AreBytes b
    → unpack_u32_pair b ≡ ok (x, y)
    → (b ≡ u32_bytes x ++ u32_bytes y) × (x < u32_limit) × (y < u32_limit)
unfolding unpack_u32_pair
unpack_pair_sound b {x} {y} h e =
    let (x', p, q) = >>=-eq-ok (unpack_u32 (take 4 b)) _ e in
    let (y', p', q') = >>=-eq-ok (unpack_u32 (drop 4 b)) _ q in
    let (ht, hd) = All-take-drop 4 b h in
    let (e1, l1) = u32_bytes-unpack (take 4 b) ht p in
    let (e2, l2) = u32_bytes-unpack (drop 4 b) hd p' in
    let sx : x' ≡ x = ap (λ (t : ℕ × ℕ). t.0) (ok-injective q') in
    let sy : y' ≡ y = ap (λ (t : ℕ × ℕ). t.1) (ok-injective q') in
    (sym (take-append-drop 4 b) ∙ cc (e1, e2, sx, sy), rw (← sx) l1, rw (← sy) l2)

unpack_triple_sound :
    (b : Bytes) {x y z : ℕ}
    → AreBytes b
    → unpack_u32_triple b ≡ ok (x, y, z)
    → (b ≡ u32_bytes x ++ (u32_bytes y ++ u32_bytes z))
      × (x < u32_limit)
      × (y < u32_limit)
      × (z < u32_limit)
unfolding unpack_u32_triple
unpack_triple_sound b {x} {y} {z} h e =
    let (x', p, q) = >>=-eq-ok (unpack_u32 (take 4 b)) _ e in
    let ((y', z'), p', q') = >>=-eq-ok (unpack_u32_pair (drop 4 b)) _ q in
    let (ht, hd) = All-take-drop 4 b h in
    let (e1, l1) = u32_bytes-unpack (take 4 b) ht p in
    let (e2, l2, l3) = unpack_pair_sound (drop 4 b) hd p' in
    let sx : x' ≡ x = ap (λ (t : ℕ × ℕ × ℕ). t.0) (ok-injective q') in
    let sy : y' ≡ y = ap (λ (t : ℕ × ℕ × ℕ). t.1) (ok-injective q') in
    let sz : z' ≡ z = ap (λ (t : ℕ × ℕ × ℕ). t.2) (ok-injective q') in
    (sym (take-append-drop 4 b) ∙ cc (e1, e2, sx, sy, sz), rw (← sx) l1, rw (← sy) l2, rw (← sz) l3)

-- The message m, written with its length prefix, is a front part of the bytes b.
abbrev pub ReadFrom : Bytes → PeerMessage → Type 0
ReadFrom b m =
    (used : Bytes) × (junk : Bytes) × (b ≡ used ++ junk)
    × (to_bytes m ≡ ok (u32_bytes (length used) ++ used))

pack_u32_small : (n : ℕ) → n < u32_limit → pack_u32 n ≡ ok (u32_bytes n)
unfolding pack_u32
pack_u32_small n h = ground arith

pack_triple-ok :
    (k x y z : ℕ)
    → x < u32_limit
    → y < u32_limit
    → z < u32_limit
    → pack_triple k x y z ≡ ok (u32_bytes 13 ++ k ∷ (u32_bytes x ++ (u32_bytes y ++ u32_bytes z)))
unfolding pack_triple
pack_triple-ok k x y z hx hy hz = rw (pack_u32_small x hx, pack_u32_small y hy, pack_u32_small z hz)

triple_from :
    (k : ℕ) (payload : Bytes) {x y z : ℕ}
    → AreBytes payload
    → unpack_u32_triple (take 12 payload) ≡ ok (x, y, z)
    → (used : Bytes) × (junk : Bytes) × (k ∷ payload ≡ used ++ junk)
      × (pack_triple k x y z ≡ ok (u32_bytes (length used) ++ used))
triple_from k payload {x} {y} {z} h e =
    let (e1, hx, hy, hz) = unpack_triple_sound (take 12 payload) (All-take-drop 12 payload h).0 e in
    (
      k ∷ (u32_bytes x ++ (u32_bytes y ++ u32_bytes z)),
      drop 12 payload,
      ap (◌∷◌ k) (sym (take-append-drop 12 payload) ∙ ap (λ t. t ++ drop 12 payload) e1),
      pack_triple-ok k x y z hx hy hz,
    )

piece_from :
    (r : Bytes) (x y : ℕ)
    → take 8 r ≡ u32_bytes x ++ u32_bytes y
    → x < u32_limit
    → y < u32_limit
    → suc (length r) < u32_limit
    → ReadFrom (7 ∷ r) (piece x y (drop 8 r))
unfolding to_bytes
piece_from r x y e hx hy fits =
    let block = drop 8 r in
    let body = u32_bytes x ++ (u32_bytes y ++ block) in
    let whole : r ≡ body = sym (take-append-drop 8 r) ∙ ap (λ t. t ++ block) e in
    let n : 9 + length block ≡ suc (length body) = omega arith in
    let small : suc (length body) < u32_limit = omega (arith, ap length whole) in
    (
      7 ∷ body,
      [],
      ap (◌∷◌ 7) (whole ∙ sym (append-nil body)),
      rw (n, pack_u32_small (suc (length body)) small, pack_u32_small x hx, pack_u32_small y hy),
    )

-- Whatever `parse_message` accepts, from bytes of a length that a prefix can state, is a message as
-- it is written, followed by bytes that are ignored.
pub parse_message_sound :
    (b : Bytes) {m : PeerMessage}
    → AreBytes b
    → length b < u32_limit
    → parse_message b ≡ ok m
    → ReadFrom b m
unfolding parse_message to_bytes
parse_message_sound [] h fits e = subst_ok (ReadFrom []) e ([], [], refl, refl)
parse_message_sound (zero ∷ r) h fits e = subst_ok (ReadFrom (0 ∷ r)) e (0 ∷ [], r, refl, refl)
parse_message_sound (suc zero ∷ r) h fits e = subst_ok (ReadFrom (1 ∷ r)) e (1 ∷ [], r, refl, refl)
parse_message_sound (suc (suc zero) ∷ r) h fits e =
    subst_ok (ReadFrom (2 ∷ r)) e (2 ∷ [], r, refl, refl)
parse_message_sound (suc (suc (suc zero)) ∷ r) h fits e =
    subst_ok (ReadFrom (3 ∷ r)) e (3 ∷ [], r, refl, refl)
parse_message_sound (suc (suc (suc (suc zero))) ∷ r) h fits e =
    let (n, p, q) = >>=-eq-ok (unpack_u32 (take 4 r)) _ e in
    let (e1, hn) = u32_bytes-unpack (take 4 r) (All-take-drop 4 r h.1).0 p in
    subst_ok (ReadFrom (4 ∷ r)) q (
      4 ∷ u32_bytes n,
      drop 4 r,
      ap (◌∷◌ 4) (sym (take-append-drop 4 r) ∙ ap (λ t. t ++ drop 4 r) (sym e1)),
      rw (pack_u32_small n hn),
    )
parse_message_sound (suc (suc (suc (suc (suc zero)))) ∷ r) h fits e =
    subst_ok (ReadFrom (5 ∷ r)) e (
      5 ∷ r,
      [],
      sym (append-nil (5 ∷ r)),
      let n : 1 + length r ≡ suc (length r) = omega arith in
          rw (n, pack_u32_small (suc (length r)) fits),
    )
parse_message_sound (suc (suc (suc (suc (suc (suc zero))))) ∷ r) h fits e =
    let ((x, y, z), p, q) = >>=-eq-ok (unpack_u32_triple (take 12 r)) _ e in
    subst_ok (ReadFrom (6 ∷ r)) q (triple_from 6 r h.1 p)
parse_message_sound (suc (suc (suc (suc (suc (suc (suc zero)))))) ∷ r) h fits e =
    let ((x, y), p, q) = >>=-eq-ok (unpack_u32_pair (take 8 r)) _ e in
    let (e1, hx, hy) = unpack_pair_sound (take 8 r) (All-take-drop 8 r h.1).0 p in
    subst_ok (ReadFrom (7 ∷ r)) q (piece_from r x y e1 hx hy fits)
parse_message_sound (suc (suc (suc (suc (suc (suc (suc (suc zero))))))) ∷ r) h fits e =
    let ((x, y, z), p, q) = >>=-eq-ok (unpack_u32_triple (take 12 r)) _ e in
    subst_ok (ReadFrom (8 ∷ r)) q (triple_from 8 r h.1 p)
parse_message_sound (suc (suc (suc (suc (suc (suc (suc (suc (suc k)))))))) ∷ r) h fits e = cc
