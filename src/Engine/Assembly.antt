-- ===== src/Engine/Assembly.antt =====
-- The assembly of a piece from its blocks, _assemble_piece of src/aiobt/engine.py.
use aiobt.Engine.Splice.{get_elem?-splice, get_elem?-beyond, bytes_ext, length-splice}
use aiobt.Python.Result.{subst_ok, ok}
use aiobt.Piece.{PieceSpec}
use aiobt.Engine.Blocks.{request_piece_blocks-Cuts, Cuts}
use aiobt.Choking.Ranking.{IsIn}
use aiobt.Protocol.{request, PeerMessage}
use aiobt.Python.Bytes.{Bytes}
use aiobt.Engine.{
  request_piece_blocks, splice, insert_block, write_blocks, BlockDict, assemble_piece, sort_blocks,
}
use aiobt.Prelude.{
  sym, length-replicate, subst, replicate, ◌∙◌, ap, length-drop, ◌||◌, length-take, inr, ◌-◌, ◌&&◌,
  inl, ltb, leb, Bool-cases, false, ◌≤◌, arith, drop, if◌then◌else◌, take, true, refl, ◌≡◌, length,
  ◌<◌, get_elem?, All, ◌+◌, Bool, ℕ, List, [], ◌∷◌,
}

-- The block is the part of the data that starts at its begin.
abbrev pub IsBlockOf : Bytes → ℕ × Bytes → Type 0
IsBlockOf data' (begin, block) =
    (begin + length block ≤ length data')
    × ((i : ℕ) → i < length block → get_elem? block i ≡ get_elem? data' (begin + i))

-- Position i of the piece lies in some block.
unfoldable pub covers : BlockDict → ℕ → Bool
covers [] i = false
covers ((begin, block) ∷ l) i = (leb begin i && ltb i (begin + length block)) || covers l i

All-insert_block :
    (P : ℕ × Bytes → Type 0) (b : ℕ × Bytes) (l : BlockDict)
    → P b
    → All P l
    → All P (insert_block b l)
unfolding insert_block
All-insert_block P b [] p h = (p, tt)
All-insert_block P b (c ∷ l) p h = elim (Bool-cases (leb b.0 c.0)) [
  | inl k ↦ rw k (p, h)
  | inr k ↦ rw k (h.0, All-insert_block P b l p h.1)
]

All-sort_blocks : (P : ℕ × Bytes → Type 0) (l : BlockDict) → All P l → All P (sort_blocks l)
unfolding sort_blocks
All-sort_blocks P [] h = tt
All-sort_blocks P (b ∷ l) h = All-insert_block P b (sort_blocks l) h.0 (All-sort_blocks P l h.1)

covers-insert_block :
    (b : ℕ × Bytes) (l : BlockDict) (i : ℕ) → covers (insert_block b l) i ≡ covers (b ∷ l) i
unfolding insert_block covers
covers-insert_block b [] i = refl
covers-insert_block b (c ∷ l) i = ground (arith, covers-insert_block b l i)

covers-sort_blocks : (l : BlockDict) (i : ℕ) → covers (sort_blocks l) i ≡ covers l i
unfolding sort_blocks covers
covers-sort_blocks [] i = refl
covers-sort_blocks (b ∷ l) i =
    ground (arith, covers-insert_block b (sort_blocks l) i, covers-sort_blocks l i)

-- Where the blocks are parts of the data, writing them leaves each byte of a covered position as in
-- the data, and each other byte as it was.
write_blocks_lem :
    (data' buf : Bytes) (l : BlockDict) (i : ℕ)
    → length buf ≡ length data'
    → All (IsBlockOf data') l
    → get_elem? (write_blocks buf l) i ≡ (if covers l i then get_elem? data' i else get_elem? buf i)
unfolding write_blocks covers
write_blocks_lem data' buf [] i n h = refl
write_blocks_lem data' buf ((begin, block) ∷ l) i n h =
    let within : begin + length block ≤ length buf = omega (arith, h.0.0, n) in
    let back : ¬ (i < begin) → begin + (i - begin) ≡ i = λ out. omega (arith, out) in
    let same : ¬ (i < begin)
        → i < begin + length block
        → get_elem? block (i - begin) ≡ get_elem? data' i =
      λ out inside.
        h.0.1 (i - begin) (omega (arith, out, inside)) ∙ ap (get_elem? data') (back out) in
    ground (
      arith,
      write_blocks_lem data' (splice buf begin block) l i (length-splice buf begin block within ∙ n)
          h.1,
      get_elem?-splice buf begin block i within,
      same,
    )

-- Blocks that are parts of the data and cover all of it leave the data, whatever was there before.
pub write_blocks_covered :
    (data' buf : Bytes) (l : BlockDict)
    → length buf ≡ length data'
    → All (IsBlockOf data') l
    → ((i : ℕ) → i < length data' → covers l i ≡ true)
    → write_blocks buf l ≡ data'
write_blocks_covered data' buf l n h c = bytes_ext _ data' λ i.
    elim (Bool-cases (ltb i (length data'))) [
      | inl k ↦
          let small : i < length data' = ground arith in
          write_blocks_lem data' buf l i n h ∙ rw (c i small) refl
      | inr k ↦
          let large : length data' ≤ i = ground arith in
          ground (
            arith,
            write_blocks_lem data' buf l i n h,
            get_elem?-beyond data' i large,
            get_elem?-beyond buf i (omega (arith, large, n)),
          )
    ]

-- Blocks that are parts of the data, in whatever order, and that cover all of it, are assembled to
-- the data.
pub assemble_piece_lem :
    (data' : Bytes) (blocks : BlockDict)
    → All (IsBlockOf data') blocks
    → ((i : ℕ) → i < length data' → covers blocks i ≡ true)
    → assemble_piece blocks (length data') ≡ data'
unfolding assemble_piece
assemble_piece_lem data' blocks h c =
    write_blocks_covered data' (replicate (length data') 0) (sort_blocks blocks)
      (length-replicate (length data') 0) (All-sort_blocks (IsBlockOf data') blocks h)
      λ i small. covers-sort_blocks blocks i ∙ c i small

-- The answer to a request for a block of the data.
abbrev pub answer : Bytes → PeerMessage → ℕ × Bytes
answer data' (request index begin len) = (begin, take len (drop begin data'))
answer data' _ = (0, [])

covers-IsIn :
    (blocks : BlockDict) (begin : ℕ) (block : Bytes) (i : ℕ)
    → IsIn (begin, block) blocks
    → begin ≤ i
    → i < begin + length block
    → covers blocks i ≡ true
unfolding covers
covers-IsIn [] begin block i m h k = absurd m
covers-IsIn ((b, c) ∷ l) begin block i (inl e) h k =
    let first : begin ≡ b = ap (λ x. x.0) e in
    let second : length block ≡ length c = ap (λ x. length x.1) e in ground (arith, first, second)
covers-IsIn ((b, c) ∷ l) begin block i (inr m) h k =
    ground (arith, covers-IsIn l begin block i m h k)

Cuts-bound : (index len offset : ℕ) (l : List PeerMessage) → Cuts index len offset l → offset ≤ len
Cuts-bound index len offset [] h = omega (arith, h)
Cuts-bound index len offset (m ∷ l) (n, e, r, t, h) =
    omega (arith, Cuts-bound index len (offset + n) l h)

Cuts-covers :
    (data' : Bytes) (blocks : BlockDict) (index offset i : ℕ) (l : List PeerMessage)
    → Cuts index (length data') offset l
    → All (λ m. IsIn (answer data' m) blocks) l
    → offset ≤ i
    → i < length data'
    → covers blocks i ≡ true
Cuts-covers data' blocks index offset i [] h a k j = absurd (omega (arith, h, k, j))
Cuts-covers data' blocks index offset i (m ∷ l) (n, e, r, t, h) a k j =
    let answered = subst (λ x. IsIn (answer data' x) blocks) e a.0 in
    let whole : length (take n (drop offset data')) ≡ n = omega (
      arith,
      length-take n (drop offset data'),
      length-drop offset data',
      Cuts-bound index (length data') (offset + n) l h,
    ) in
    elim (Bool-cases (ltb i (offset + n))) [
      | inl e' ↦
          covers-IsIn blocks offset (take n (drop offset data')) i answered k
            (ground (arith, whole))
      | inr e' ↦ Cuts-covers data' blocks index (offset + n) i l h a.1 (ground arith) j
    ]

-- A piece is assembled to its data from blocks that came in any order, where each block is a part
-- of the data, and each request for the piece is answered by one of them.
pub assemble_piece-request_piece_blocks :
    (s : PieceSpec) (data' : Bytes) (blocks : BlockDict) {l : List PeerMessage}
    → s.length ≡ length data'
    → request_piece_blocks s ≡ ok l
    → All (IsBlockOf data') blocks
    → All (λ m. IsIn (answer data' m) blocks) l
    → assemble_piece blocks s.length ≡ data'
assemble_piece-request_piece_blocks s data' blocks {l} n e h a =
    let (l', e', c) = request_piece_blocks-Cuts s in
    let cuts : Cuts s.index (length data') 0 l =
      subst (λ k. Cuts s.index k 0 l) n
        (subst_ok (λ m. Cuts s.index s.length 0 m) (sym e' ∙ e) c) in
    ap (assemble_piece blocks) n
    ∙ assemble_piece_lem data' blocks h
        λ i small. Cuts-covers data' blocks s.index 0 i l cuts a (omega arith) small
