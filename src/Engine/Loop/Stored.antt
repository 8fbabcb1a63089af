-- ===== src/Engine/Loop/Stored.antt =====
-- The messages of a peer, handled by src/aiobt/engine.py, leave every piece that is had in the
-- storage as it is in the torrent's data.
use aiobt.Engine.Splice.{get_elem?-splice}
use aiobt.Engine.{assemble_piece, BlockDict, splice}
use aiobt.Piece.{PieceSpec}
use aiobt.Python.Bytes.{Bytes}
use aiobt.Prelude.{
  All, true, false, ltb→lt, &&-true, leb→le, ◌-◌, true, Option, Bool, ltb, ◌&&◌, leb, length-drop,
  length-take, if◌then◌else◌, ◌∙◌, ap, refl, ◌≤◌, ◌≡◌, ◌+◌, drop, take, ◌<◌, get_elem?, length,
  List, ℕ, zero, suc, [], ◌∷◌, some, arith,
}

-- Each piece lies within the data.
abbrev pub IsWithin : Bytes → List PieceSpec → Type 0
IsWithin original specs =
    (i : ℕ) (sp : PieceSpec) → get_elem? specs i ≡ some sp → sp.offset + sp.length ≤ length original

-- What can be put together from the blocks that `Sent` holds of has the digest of a piece only if
-- it is the data of the piece.
abbrev pub IsGenuine : (Bytes → Bytes) → Bytes → List PieceSpec → (ℕ × Bytes → Type 0) → Type 0
IsGenuine sha1 original specs Sent =
    (i : ℕ) (sp : PieceSpec) (blocks : BlockDict)
    → get_elem? specs i ≡ some sp
    → All Sent blocks
    → sha1 (assemble_piece blocks sp.length) ≡ sp.hash
    → assemble_piece blocks sp.length ≡ take sp.length (drop sp.offset original)

-- The bytes of a piece are those of the data.
abbrev pub IsHeld : Bytes → Bytes → PieceSpec → Type 0
IsHeld original v sp =
    (k : ℕ) → k < sp.length → get_elem? v (sp.offset + k) ≡ get_elem? original (sp.offset + k)

pub get_elem?-drop : (l : Bytes) (n k : ℕ) → get_elem? (drop n l) k ≡ get_elem? l (n + k)
get_elem?-drop l zero k = ap (get_elem? l) (omega arith)
get_elem?-drop [] (suc n) k = refl
get_elem?-drop (x ∷ l) (suc n) k =
    get_elem?-drop l n k
    ∙ ap (get_elem? (x ∷ l)) (let e : suc (n + k) ≡ suc n + k = omega arith in e)

pub get_elem?-take : (l : Bytes) (n k : ℕ) → k < n → get_elem? (take n l) k ≡ get_elem? l k
get_elem?-take l zero k h = absurd (omega arith)
get_elem?-take [] (suc n) k h = refl
get_elem?-take (x ∷ l) (suc n) zero h = refl
get_elem?-take (x ∷ l) (suc n) (suc k) h = get_elem?-take l n k (omega arith)

pub length-range :
    (original : Bytes) (offset len : ℕ)
    → offset + len ≤ length original
    → length (take len (drop offset original)) ≡ len
length-range original offset len w =
    omega (arith, length-take len (drop offset original), length-drop offset original)

if-then_eq :
    (b : Bool) (z : Option ℕ) {x y : Option ℕ}
    → (b ≡ true → x ≡ y)
    → (if b then x else z) ≡ (if b then y else z)
if-then_eq true z h = h refl
if-then_eq false z h = refl

-- Bytes of the data put in their place: there the data, elsewhere what was.
get_elem?-put :
    (original v : Bytes) (offset len j : ℕ)
    → length v ≡ length original
    → offset + len ≤ length original
    → get_elem? (splice v offset (take len (drop offset original))) j
      ≡ (if leb offset j && ltb j (offset + len) then get_elem? original j else get_elem? v j)
get_elem?-put original v offset len j n w =
    let block = take len (drop offset original) in
    let size = length-range original offset len w in
    let spliced = get_elem?-splice v offset block j (omega (arith, size, n)) in
    let there = λ (h : offset ≤ j) (k : j < offset + len).
      get_elem?-take (drop offset original) len (j - offset) (omega arith)
      ∙ get_elem?-drop original offset (j - offset)
      ∙ ap (get_elem? original) (let e : offset + (j - offset) ≡ j = omega arith in e) in
    spliced
    ∙ ap
        (λ m.
          if leb offset j && ltb j (offset + m)
          then get_elem? block (j - offset)
          else get_elem? v j)
        size
    ∙ if-then_eq (leb offset j && ltb j (offset + len)) (get_elem? v j)
        (λ b. there (leb→le _ _ (&&-true _ _ b).0) (ltb→lt _ _ (&&-true _ _ b).1))

-- It puts nothing wrong, and the piece itself is right then.
pub IsHeld-splice :
    (original v : Bytes) (offset len : ℕ) (sp : PieceSpec)
    → length v ≡ length original
    → offset + len ≤ length original
    → IsHeld original v sp
    → IsHeld original (splice v offset (take len (drop offset original))) sp
IsHeld-splice original v offset len sp n w h k lt =
    ground (arith, get_elem?-put original v offset len (sp.offset + k) n w, h k lt)

pub IsHeld-written :
    (original v : Bytes) (sp : PieceSpec)
    → length v ≡ length original
    → sp.offset + sp.length ≤ length original
    → IsHeld original (splice v sp.offset (take sp.length (drop sp.offset original))) sp
IsHeld-written original v sp n w k lt =
    ground (arith, get_elem?-put original v sp.offset sp.length (sp.offset + k) n w)
