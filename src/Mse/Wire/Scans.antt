-- ===== src/Mse/Wire/Scans.antt =====
-- The scans of src/aiobt/mse.py for a mark, however the bytes arrive.
use aiobt.Mse.Wire.Find.{find-append, find-later}
use aiobt.Mse.Wire.{
  unless_hash, place_of, is_missing, starts_with, find, scan_vc, scan_req1, enough_rounds,
}
use aiobt.Mse.Stream.{read_chunk}
use aiobt.Mse.Stream.Reads.{read_chunk-joined, read_chunk-end, shorter, at_least}
use aiobt.Python.Result.{Result, ok}
use aiobt.Python.Bytes.{Bytes}
use aiobt.Prelude.{
  ◌⊎◌, length-append, drop-append_left, false, ltb, ==_iff, append-nil, Option-cases, append_assoc,
  ◌∙◌, drop, joined, Bool-cases, some-injective, sym, ◌&&◌, ◌==◌, ap, ◌+◌, ◌≤◌, ◌<◌, Option, length,
  ◌++◌, List, [], ◌∷◌, ℕ, zero, suc, refl, arith, inl, inr, ◌≡◌, none, some,
}

at_end :
    (pattern buf : Bytes) (reader : List Bytes)
    → joined reader ≡ []
    → find pattern (buf ++ joined reader) ≡ find pattern buf
at_end pattern buf reader e = ap (find pattern) (ap (λ x. buf ++ x) e ∙ append-nil buf)

scan_vc-joined :
    (fuel : ℕ) (pattern buf : Bytes) (reader : List Bytes) (p : ℕ)
    → length (joined reader) < fuel
    → find pattern buf ≡ none
    → find pattern (buf ++ joined reader) ≡ some p
    → p + length pattern ≤ 600
    → (rest : Bytes) × (r : List Bytes) × (scan_vc fuel pattern buf reader ≡ ok (rest, r))
      × (rest ++ joined r ≡ drop p (buf ++ joined reader))
unfolding scan_vc
scan_vc-joined zero pattern buf reader p f n h w = absurd (omega arith)
scan_vc-joined (suc fuel) pattern buf reader p f n h w =
    let (chunk, reader') = read_chunk 1024 reader in
    let parts = read_chunk-joined 1024 reader in
    let whole : (buf ++ chunk) ++ joined reader' ≡ buf ++ joined reader =
      append_assoc buf chunk (joined reader') ∙ ap (λ x. buf ++ x) parts in
    let found : find pattern ((buf ++ chunk) ++ joined reader') ≡ some p =
      ap (find pattern) whole ∙ h in
    elim (Bool-cases (length (read_chunk 1024 reader).0 == 0)) [
      | inl z ↦
          let nothing = read_chunk-end 1024 reader (omega arith) ((==_iff _ _).0 z) in
          let bad : none ≡ some p = sym n ∙ sym (at_end pattern buf reader nothing) ∙ h in cc
      | inr z ↦ elim (Option-cases (find pattern (buf ++ chunk))) [
        | inl none_yet ↦
            let short = find-later pattern (buf ++ chunk) (joined reader') p found none_yet in
            let below : ltb 600 (length (buf ++ chunk)) ≡ false = ground arith in
            let less = shorter 1024 reader z in
            let (rest, r, e, same) =
              scan_vc-joined fuel pattern (buf ++ chunk) reader' p (omega arith) none_yet found w in
            (rest, r, rw z (rw none_yet (rw below e)), same ∙ ap (drop p) whole)
        | inr (q, here) ↦
            let (there, bound) = find-append pattern (buf ++ chunk) (joined reader') q here in
            let same_place : q ≡ p = some-injective (sym there ∙ found) in
            (
              drop q (buf ++ chunk),
              reader',
              rw z (rw here refl),
              sym (drop-append_left q (buf ++ chunk) (joined reader') (omega arith))
                  ∙ ap (drop q) whole
                  ∙ ap (λ k. drop k (buf ++ joined reader)) same_place,
            )
      ]
    ]

find-nothing : (pattern : Bytes) → 0 < length pattern → find pattern [] ≡ none
unfolding find starts_with
find-nothing [] h = absurd (omega arith)
find-nothing (x ∷ p) h = refl

-- Where the mark is first found at p, the scan of the initiator returns what stands from there on.
pub scan_vc_lem :
    (pattern : Bytes) (reader : List Bytes) (p : ℕ)
    → 0 < length pattern
    → find pattern (joined reader) ≡ some p
    → p + length pattern ≤ 600
    → (rest : Bytes) × (r : List Bytes) × (scan_vc (enough_rounds reader) pattern [] reader
        ≡ ok (rest, r))
      × (rest ++ joined r ≡ drop p (joined reader))
scan_vc_lem pattern reader p some_bytes h w =
    scan_vc-joined (enough_rounds reader) pattern [] reader p (omega arith)
      (find-nothing pattern some_bytes) h w

-- The place of the mark is kept while more is read.
place_of_eq :
    (pattern a b : Bytes) (pos : Option ℕ)
    → pos ≡ find pattern a
    → place_of pattern (a ++ b) pos ≡ find pattern (a ++ b)
place_of_eq pattern a b none e = refl
place_of_eq pattern a b (some q) e = sym (find-append pattern a b q (sym e)).0

-- The first p + 40 bytes of what arrives are read, and nothing is lost.
abbrev IsScanned : Bytes → List Bytes → ℕ → Result (ℕ × Bytes × List Bytes) → Type 0
IsScanned buf reader p result =
    (b : Bytes) × (r : List Bytes) × (result ≡ ok (p, b, r))
    × (b ++ joined r ≡ buf ++ joined reader)
    × (p + 40 ≤ length b)

unless_hash-IsScanned :
    (buf : Bytes) (reader : List Bytes) (p : ℕ) (more : Result (ℕ × Bytes × List Bytes))
    (pos : Option ℕ)
    → (pos ≡ none) ⊎ (pos ≡ some p)
    → IsScanned buf reader p more
    → IsScanned buf reader p (unless_hash buf reader more pos)
unless_hash-IsScanned buf reader p more none c h = h
unless_hash-IsScanned buf reader p more (some q) (inl c) h = cc
unless_hash-IsScanned buf reader p more (some q) (inr c) h =
    elim (Bool-cases (ltb (length buf) (q + 40))) [
      | inl short ↦ let (b, r, e, same, big) = h in (b, r, rw short e, same, big)
      | inr long ↦
          let there = some-injective c in
          (
            buf,
            reader,
            rw long (ap (λ k. ok (k, buf, reader)) there),
            refl,
            omega (arith, at_least (length buf) (q + 40) long),
          )
    ]

-- The scan does not give up before the mark is there.
not_missing :
    (pattern buf rest : Bytes) (p : ℕ)
    → find pattern (buf ++ rest) ≡ some p
    → p + length pattern ≤ 700
    → ltb 700 (length buf) && is_missing (find pattern buf) ≡ false
not_missing pattern buf rest p h w = elim (Option-cases (find pattern buf)) [
  | inl e ↦
      let short = find-later pattern buf rest p h e in
      let below : ltb 700 (length buf) ≡ false = ground arith in rw below refl
  | inr (q, e) ↦ rw e (ground arith)
]

place-cases :
    (pattern buf rest : Bytes) (pos : Option ℕ) (p : ℕ)
    → pos ≡ find pattern buf
    → find pattern (buf ++ rest) ≡ some p
    → (pos ≡ none) ⊎ (pos ≡ some p)
place-cases pattern buf rest none p e h = inl refl
place-cases pattern buf rest (some q) p e h =
    inr (sym (find-append pattern buf rest q (sym e)).0 ∙ h)

scan_req1-joined :
    (fuel : ℕ) (pattern buf : Bytes) (pos : Option ℕ) (reader : List Bytes) (p : ℕ)
    → length (joined reader) < fuel
    → pos ≡ find pattern buf
    → find pattern (buf ++ joined reader) ≡ some p
    → p + 40 ≤ length (buf ++ joined reader)
    → p + length pattern ≤ 700
    → IsScanned buf reader p (scan_req1 fuel pattern buf pos reader)
unfolding scan_req1
scan_req1-joined zero pattern buf pos reader p f e h k w = absurd (omega arith)
scan_req1-joined (suc fuel) pattern buf pos reader p f e h k w =
    let (chunk, reader') = read_chunk 1024 reader in
    let parts = read_chunk-joined 1024 reader in
    let whole : (buf ++ chunk) ++ joined reader' ≡ buf ++ joined reader =
      append_assoc buf chunk (joined reader') ∙ ap (λ x. buf ++ x) parts in
    let found : find pattern ((buf ++ chunk) ++ joined reader') ≡ some p =
      ap (find pattern) whole ∙ h in
    elim (Bool-cases (length (read_chunk 1024 reader).0 == 0)) [
      | inl z ↦
          let nothing = read_chunk-end 1024 reader (omega arith) ((==_iff _ _).0 z) in
          let there : pos ≡ some p = e ∙ sym (at_end pattern buf reader nothing) ∙ h in
          let big : p + 40 ≤ length buf =
            omega (arith, ap length nothing, length-append buf (joined reader)) in
          let long : ltb (length buf) (p + 40) ≡ false = ground arith in
          (buf, reader, rw there (rw long refl), refl, big)
      | inr z ↦
          let less = shorter 1024 reader z in
          let pos' = place_of pattern (buf ++ chunk) pos in
          let kept = place_of_eq pattern buf chunk pos e in
          let (b, r, q, same, big) =
            scan_req1-joined fuel pattern (buf ++ chunk) pos' reader' p (omega arith) kept found
              (omega (arith, ap length whole)) w in
          let goes_on =
            ap (λ o. ltb 700 (length (buf ++ chunk)) && is_missing o) kept
            ∙ not_missing pattern (buf ++ chunk) (joined reader') p found w in
          unless_hash-IsScanned buf reader p _ pos
            (place-cases pattern buf (joined reader) pos p e h)
            (b, r, rw z (rw goes_on q), same ∙ whole, big)
    ]

-- Where the mark is first found at p, the scan of the receiver returns p and at least the 40 bytes
-- from there on.
pub scan_req1_lem :
    (pattern : Bytes) (reader : List Bytes) (p : ℕ)
    → 0 < length pattern
    → find pattern (joined reader) ≡ some p
    → p + 40 ≤ length (joined reader)
    → p + length pattern ≤ 700
    → IsScanned [] reader p (scan_req1 (enough_rounds reader) pattern [] none reader)
scan_req1_lem pattern reader p some_bytes h k w =
    scan_req1-joined (enough_rounds reader) pattern [] none reader p (omega arith)
      (sym (find-nothing pattern some_bytes)) h k w
