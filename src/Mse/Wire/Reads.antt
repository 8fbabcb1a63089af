-- ===== src/Mse/Wire/Reads.antt =====
-- What the reading loops of src/aiobt/mse.py return, however the bytes arrive.
use aiobt.Mse.Wire.{take_exactly, gather, enough_rounds}
use aiobt.Mse.Stream.{read_chunk}
use aiobt.Mse.Stream.Reads.{read_chunk-joined, read_chunk-end, shorter, at_least}
use aiobt.Python.Result.{ok}
use aiobt.Python.Bytes.{Bytes}
use aiobt.Prelude.{
  drop-append_left, take-append_left, drop-append_right, take-append_right, sym, append_assoc,
  ==_iff, ◌==◌, ◌∙◌, length-append, ap, ◌-◌, ltb→lt, ltb, drop, Bool-cases, ◌++◌, ◌<◌, take, ◌+◌,
  joined, length, ◌≤◌, List, [], ◌∷◌, ℕ, zero, suc, refl, arith, inl, inr, ◌≡◌,
}

pub take_exactly_lem :
    (n : ℕ) (l : List Bytes)
    → n ≤ length (joined l)
    → (r : List Bytes) × (take_exactly n l ≡ ok (take n (joined l), r))
      × (joined r ≡ drop n (joined l))
unfolding take_exactly
take_exactly_lem zero [] h = ([], refl, refl)
take_exactly_lem (suc n) [] h = absurd (omega arith)
take_exactly_lem n (c ∷ l) h = elim (Bool-cases (ltb (length c) n)) [
  | inl e ↦
      let small = ltb→lt _ _ e in
      let (r, q, rest) =
        take_exactly_lem (n - length c) l (omega (arith, length-append c (joined l))) in
      (
        r,
        rw e (rw q (ap (λ b. ok (b, r)) (sym (take-append_right n c (joined l) (omega arith))))),
        rest ∙ sym (drop-append_right n c (joined l) (omega arith)),
      )
  | inr e ↦
      let big = at_least (length c) n e in
      (
        drop n c ∷ l,
        rw e (ap (λ b. ok (b, drop n c ∷ l)) (sym (take-append_left n c (joined l) big))),
        sym (drop-append_left n c (joined l) big),
      )
]

gather-joined :
    (fuel n : ℕ) (data' : Bytes) (reader : List Bytes)
    → length (joined reader) < fuel
    → n ≤ length data' + length (joined reader)
    → (d : Bytes) × (r : List Bytes) × (gather fuel n data' reader ≡ ok (d, r))
      × (d ++ joined r ≡ data' ++ joined reader)
      × (n ≤ length d)
unfolding gather
gather-joined zero n data' reader f h = absurd (omega arith)
gather-joined (suc fuel) n data' reader f h = elim (Bool-cases (ltb (length data') n)) [
  | inr e ↦ (data', reader, rw e refl, refl, at_least (length data') n e)
  | inl e ↦
      let m = n - length data' in
      let small = ltb→lt _ _ e in
      let (chunk, reader') = read_chunk m reader in
      let parts = read_chunk-joined m reader in
      let total = ap length parts in
      let sizes = length-append chunk (joined reader') in
      elim (Bool-cases (length (read_chunk m reader).0 == 0)) [
        | inl z ↦
            let nothing = read_chunk-end m reader (omega arith) ((==_iff _ _).0 z) in
            absurd (omega (arith, ap length nothing))
        | inr z ↦
            let less = shorter m reader z in
            let (d, r, q, same, big) =
              gather-joined fuel n (data' ++ chunk) reader' (omega arith)
                (omega (arith, length-append data' chunk)) in
            (
              d,
              r,
              rw e (rw z q),
              same ∙ append_assoc data' chunk (joined reader') ∙ ap (λ x. data' ++ x) parts,
              big,
            )
      ]
]

-- Where enough arrives, there are at least n bytes then, and nothing is lost.
pub gather_lem :
    (n : ℕ) (data' : Bytes) (reader : List Bytes)
    → n ≤ length data' + length (joined reader)
    → (d : Bytes) × (r : List Bytes) × (gather (enough_rounds reader) n data' reader ≡ ok (d, r))
      × (d ++ joined r ≡ data' ++ joined reader)
      × (n ≤ length d)
gather_lem n data' reader h = gather-joined (enough_rounds reader) n data' reader (omega arith) h
