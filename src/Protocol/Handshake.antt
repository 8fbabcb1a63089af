-- ===== src/Protocol/Handshake.antt =====
-- Handshake of src/aiobt/protocol.py: writing, reading and refusing.
use aiobt.Prelude.{
  ℕ, zero, suc, ◌+◌, ◌-◌, ◌≤◌, [], ◌∷◌, ◌++◌, Bool, true, false, not, ltb, ◌==◌, length, take, drop,
  length-append, length-take, length-drop, take-append_length, append_assoc, ◌≡◌, ◌∙◌, refl, ap,
  arith,
}
use mathlib.Core.Path.{ap₂}
use aiobt.Python.Bytes.{Bytes, bytes_eq, bytes_eq-true}
use aiobt.Python.Result.{ok, raise_if-eq-ok, subst_ok}
use aiobt.Protocol.{
  PeerHandshake, slice, protocol_string, handshake_length, handshake_to_bytes, handshake_from_bytes,
}

-- The three fields have the lengths of the format.
pub record IsSized (h : PeerHandshake) : Type 0 where
  pub reserved : length h.reserved ≡ 8
  pub info_hash : length h.info_hash ≡ 20
  pub peer_id : length h.peer_id ≡ 20

take-append_eq : (n : ℕ) (a b : Bytes) → length a ≡ n → take n (a ++ b) ≡ a
take-append_eq n a b e = rw (← e) (take-append_length a b)

drop-append_add : (k m : ℕ) (a b : Bytes) → k ≡ length a + m → drop k (a ++ b) ≡ drop m b
drop-append_add k m [] b e = let e' : k ≡ m = omega arith in rw e'
drop-append_add zero m (x ∷ a) b e = absurd (omega arith)
drop-append_add (suc k) m (x ∷ a) b e = drop-append_add k m a b (omega arith)

-- The fields behind the protocol string, and the tests before them.
from_fields :
    (h : PeerHandshake) (rest : Bytes)
    → IsSized h
    → let tail = h.reserved ++ (h.info_hash ++ (h.peer_id ++ rest)) in
      handshake_from_bytes (19 ∷ (protocol_string ++ tail)) ≡ ok h
unfolding handshake_from_bytes
from_fields h rest s =
    let after_info = h.info_hash ++ (h.peer_id ++ rest) in
    let tail = h.reserved ++ after_info in
    let size : length tail ≡ 48 + length rest = omega (
      arith,
      length-append h.reserved after_info,
      length-append h.info_hash (h.peer_id ++ rest),
      length-append h.peer_id rest,
      s.reserved,
      s.info_hash,
      s.peer_id,
    ) in
    let fits : ltb (20 + length tail) 68 ≡ false = ground arith in
    let e1 : take 8 tail ≡ h.reserved = take-append_eq 8 h.reserved after_info s.reserved in
    let e2 : take 20 (drop 8 tail) ≡ h.info_hash =
      rw (drop-append_add 8 0 h.reserved after_info (omega (arith, s.reserved)))
        (take-append_eq 20 h.info_hash (h.peer_id ++ rest) s.info_hash) in
    let e3 : take 20 (drop 28 tail) ≡ h.peer_id =
      rw (drop-append_add 28 20 h.reserved after_info (omega (arith, s.reserved))) (
        rw (drop-append_add 20 0 h.info_hash (h.peer_id ++ rest) (omega (arith, s.info_hash)))
          (take-append_eq 20 h.peer_id rest s.peer_id)) in
    ground (arith, e1, e2, e3, size)

-- A handshake whose fields have the right lengths is read back, whatever follows it.
pub handshake_from-to_bytes :
    (h : PeerHandshake) (rest : Bytes)
    → IsSized h
    → handshake_from_bytes (handshake_to_bytes h ++ rest) ≡ ok h
unfolding handshake_from_bytes handshake_to_bytes
handshake_from-to_bytes h rest s = simp append_assoc (from_fields h rest s)

take-add : (k n m : ℕ) (b : Bytes) → k ≡ n + m → take k b ≡ take n b ++ take m (drop n b)
take-add k zero m b e = let e' : k ≡ m = omega arith in rw e'
take-add zero (suc n) m b e = absurd (omega arith)
take-add (suc k) (suc n) m [] e = take_nil m
  where
    take_nil : (m : ℕ) → [] ≡ take {A = ℕ} m []
    take_nil zero = refl
    take_nil (suc m) = refl
take-add (suc k) (suc n) m (c ∷ b) e = ap (◌∷◌ c) (take-add k n m b (omega arith))

drop-drop : (k n m : ℕ) (b : Bytes) → k ≡ n + m → drop m (drop n b) ≡ drop k b
drop-drop k zero m b e = let e' : k ≡ m = omega arith in rw e'
drop-drop zero (suc n) m b e = absurd (omega arith)
drop-drop (suc k) (suc n) m [] e = drop_nil m
  where
    drop_nil : (m : ℕ) → drop {A = ℕ} m [] ≡ []
    drop_nil zero = refl
    drop_nil (suc m) = refl
drop-drop (suc k) (suc n) m (c ∷ b) e = drop-drop k n m b (omega arith)

-- The first 68 bytes are the first one and four slices.
five_parts :
    (c : ℕ) (b : Bytes)
    → take 68 (c ∷ b)
      ≡ c
        ∷ (slice 1 20 (c ∷ b)
            ++ (slice 20 28 (c ∷ b) ++ (slice 28 48 (c ∷ b) ++ slice 48 68 (c ∷ b))))
five_parts c b =
    let p1 = take-add 67 19 48 b (omega arith) in
    let p2 = take-add 48 8 40 (drop 19 b) (omega arith) in
    let p3 = take-add 40 20 20 (drop 27 b) (omega arith) in
    let d2 = drop-drop 27 19 8 b (omega arith) in
    let d3 = drop-drop 47 27 20 b (omega arith) in
    ap (◌∷◌ c) (
      p1
      ∙ ap (λ t. take 19 b ++ t)
          (p2
            ∙ ap (λ t. take 8 (drop 19 b) ++ t)
                (rw d2 (p3 ∙ ap (λ t. take 20 (drop 27 b) ++ take 20 t) d3))))

length-slice : (i j : ℕ) (b : Bytes) → j ≤ length b → length (slice i j b) ≡ j - i
length-slice i j b h = omega (arith, length-take (j - i) (drop i b), length-drop i b)

not-false : (b : Bool) → not b ≡ false → b ≡ true
not-false b h = ground arith

-- What is accepted as a handshake has fields of the right lengths, and starts with the handshake as
-- it is written.
pub handshake_from_bytes_sound :
    (b : Bytes) {h : PeerHandshake}
    → handshake_from_bytes b ≡ ok h
    → IsSized h × (take handshake_length b ≡ handshake_to_bytes h)
unfolding handshake_from_bytes handshake_to_bytes
handshake_from_bytes_sound [] e = cc
handshake_from_bytes_sound (c ∷ b) e =
    let (long, e1) = raise_if-eq-ok (ltb (length (c ∷ b)) 68) _ _ e in
    let (head, e2) = raise_if-eq-ok (not (c == 19)) _ _ e1 in
    let (name, e3) = raise_if-eq-ok (not (bytes_eq (slice 1 20 (c ∷ b)) protocol_string)) _ _ e2 in
    let enough : 68 ≤ length (c ∷ b) = ground arith in
    let first : c ≡ 19 = ground arith in
    let same : slice 1 20 (c ∷ b) ≡ protocol_string = bytes_eq-true _ _ (not-false _ name) in
    subst_ok (λ h. IsSized h × (take 68 (c ∷ b) ≡ handshake_to_bytes h)) e3
      (
        record {
          reserved = length-slice 20 28 (c ∷ b) (omega arith);
          info_hash = length-slice 28 48 (c ∷ b) (omega arith);
          peer_id = length-slice 48 68 (c ∷ b) (omega arith);
        },
        five_parts c b
            ∙ ap₂
                (λ x y.
                  x ∷ (y ++ (slice 20 28 (c ∷ b) ++ (slice 28 48 (c ∷ b) ++ slice 48 68 (c ∷ b)))))
                first same,
      )
