-- ===== src/Protocol/Errors.antt =====
-- The errors of parse_message of src/aiobt/protocol.py.
use aiobt.Prelude.{
  ℕ, zero, suc, ◌+◌, ◌<◌, ◌≤◌, [], ◌∷◌, length, take, drop, length-take, length-drop, ◌≡◌, refl,
  arith,
}
use native.Mathlib.Decide.{dec_lt}
use aiobt.Python.Bytes.{Bytes}
use aiobt.Python.Result.{Result, ok, raised, struct_error, value_error, ◌>>=◌}
use aiobt.Python.Struct.{unpack_u32, unpack_u32_pair, unpack_u32_triple}
use aiobt.Protocol.{
  PeerMessage, choke, unchoke, interested, not_interested, have, bitfield, request, piece, cancel,
  parse_message,
}

abbrev pub too_short {ℓ} : {A : Type ℓ} → Result A
too_short = raised (struct_error "unpack requires a buffer of 4 bytes")

-- Enough bytes for n numbers are unpacked, and fewer are refused.
abbrev Unpacks {ℓ} : {A : Type ℓ} → ℕ → Bytes → Result A → Type ℓ
Unpacks {A = A} n b r = (length b ≡ n → (a : A) × (r ≡ ok a)) × (length b < n → r ≡ too_short)

unpack_u32-Unpacks : (b : Bytes) → Unpacks 4 b (unpack_u32 b)
unfolding unpack_u32
unpack_u32-Unpacks [] = (λ e. absurd (omega arith), λ h. refl)
unpack_u32-Unpacks (a ∷ []) = (λ e. absurd (omega arith), λ h. refl)
unpack_u32-Unpacks (a ∷ b ∷ []) = (λ e. absurd (omega arith), λ h. refl)
unpack_u32-Unpacks (a ∷ b ∷ c ∷ []) = (λ e. absurd (omega arith), λ h. refl)
unpack_u32-Unpacks (a ∷ b ∷ c ∷ d ∷ []) = (λ e. (_, refl), λ h. absurd (omega arith))
unpack_u32-Unpacks (a ∷ b ∷ c ∷ d ∷ x ∷ r) = (λ e. absurd (omega arith), λ h. absurd (omega arith))

-- The same for a number, and more behind it.
pair-Unpacks :
    {A B : Type 0} (b : Bytes) (n : ℕ) (r : Bytes → Result A) (f : ℕ → A → B)
    → Unpacks n (drop 4 b) (r (drop 4 b))
    → Unpacks (4 + n) b (unpack_u32 (take 4 b) >>= (λ x. r (drop 4 b) >>= (λ y. ok (f x y))))
pair-Unpacks b n r f u =
    let first = unpack_u32-Unpacks (take 4 b) in
    (
      λ e.
          let (x, p) = first.0 (omega (arith, length-take 4 b)) in
          let (y, q) = u.0 (omega (arith, length-drop 4 b)) in (f x y, rw p (rw q)),
      λ h. elim (dec_lt (length b) 4) [
        | yes s ↦ rw (first.1 (omega (arith, length-take 4 b)))
        | no s ↦
            let (x, p) = first.0 (omega (arith, length-take 4 b)) in
            rw p (rw (u.1 (omega (arith, length-drop 4 b))))
      ],
    )

unpack_pair-Unpacks : (b : Bytes) → Unpacks 8 b (unpack_u32_pair b)
unfolding unpack_u32_pair
unpack_pair-Unpacks b = pair-Unpacks b 4 unpack_u32 (λ x y. (x, y)) (unpack_u32-Unpacks (drop 4 b))

unpack_triple-Unpacks : (b : Bytes) → Unpacks 12 b (unpack_u32_triple b)
unfolding unpack_u32_triple
unpack_triple-Unpacks b =
    pair-Unpacks b 8 unpack_u32_pair (λ x (y, z). (x, y, z)) (unpack_pair-Unpacks (drop 4 b))

-- The bytes that a message of this id needs behind the id.
abbrev pub needed : ℕ → ℕ
needed (suc (suc (suc (suc zero)))) = 4
needed (suc (suc (suc (suc (suc (suc zero)))))) = 12
needed (suc (suc (suc (suc (suc (suc (suc zero))))))) = 8
needed (suc (suc (suc (suc (suc (suc (suc (suc zero)))))))) = 12
needed _ = 0

abbrev pub Outcome : ℕ → Bytes → Type 0
Outcome id r =
    (8 < id → parse_message (id ∷ r) ≡ raised (value_error "unknown message id"))
    × (id ≤ 8 → length r < needed id → parse_message (id ∷ r) ≡ too_short)
    × (id ≤ 8 → needed id ≤ length r → (m : PeerMessage) × (parse_message (id ∷ r) ≡ ok m))

-- An outcome from the numbers that the payload starts with.
from_Unpacks :
    {A : Type 0} (n : ℕ) (r : Bytes) (u : Result A) (f : A → PeerMessage)
    → Unpacks n (take n r) u
    → (length r < n → (u >>= (λ a. ok (f a))) ≡ too_short)
      × (n ≤ length r → (m : PeerMessage) × ((u >>= (λ a. ok (f a))) ≡ ok m))
from_Unpacks n r u f (good, short) = (
  λ h. rw (short (omega (arith, length-take n r))),
  λ h. let (a, e) = good (omega (arith, length-take n r)) in (f a, rw e),
)

-- With an id from 0 to 8 and a payload of at least the length that the id needs, `parse_message`
-- returns a message; with a shorter payload it raises struct.error, with another id ValueError.
pub parse_message-Outcome : (id : ℕ) (r : Bytes) → Outcome id r
unfolding parse_message
parse_message-Outcome zero r =
    (λ h. absurd (omega arith), λ k h. absurd (omega arith), λ k h. (choke, refl))
parse_message-Outcome (suc zero) r =
    (λ h. absurd (omega arith), λ k h. absurd (omega arith), λ k h. (unchoke, refl))
parse_message-Outcome (suc (suc zero)) r =
    (λ h. absurd (omega arith), λ k h. absurd (omega arith), λ k h. (interested, refl))
parse_message-Outcome (suc (suc (suc zero))) r =
    (λ h. absurd (omega arith), λ k h. absurd (omega arith), λ k h. (not_interested, refl))
parse_message-Outcome (suc (suc (suc (suc zero)))) r =
    let (s, g) = from_Unpacks 4 r (unpack_u32 (take 4 r)) have (unpack_u32-Unpacks (take 4 r)) in
    (λ h. absurd (omega arith), λ k. s, λ k. g)
parse_message-Outcome (suc (suc (suc (suc (suc zero))))) r =
    (λ h. absurd (omega arith), λ k h. absurd (omega arith), λ k h. (bitfield r, refl))
parse_message-Outcome (suc (suc (suc (suc (suc (suc zero)))))) r =
    let (s, g) =
      from_Unpacks 12 r (unpack_u32_triple (take 12 r)) (λ (i, b, l). request i b l)
        (unpack_triple-Unpacks (take 12 r)) in
    (λ h. absurd (omega arith), λ k. s, λ k. g)
parse_message-Outcome (suc (suc (suc (suc (suc (suc (suc zero))))))) r =
    let (s, g) =
      from_Unpacks 8 r (unpack_u32_pair (take 8 r)) (λ (i, b). piece i b (drop 8 r))
        (unpack_pair-Unpacks (take 8 r)) in
    (λ h. absurd (omega arith), λ k. s, λ k. g)
parse_message-Outcome (suc (suc (suc (suc (suc (suc (suc (suc zero)))))))) r =
    let (s, g) =
      from_Unpacks 12 r (unpack_u32_triple (take 12 r)) (λ (i, b, l). cancel i b l)
        (unpack_triple-Unpacks (take 12 r)) in
    (λ h. absurd (omega arith), λ k. s, λ k. g)
parse_message-Outcome (suc (suc (suc (suc (suc (suc (suc (suc (suc k))))))))) r =
    (λ h. refl, λ h. absurd (omega arith), λ h. absurd (omega arith))
